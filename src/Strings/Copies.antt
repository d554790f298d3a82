-- ===== src/Strings/Copies.antt =====
-- Copies and comparisons of well-formed strings.
use mcsrv.Common.{
  ℕ, suc, ◌%◌, ◌^◌, ◌≡◌, ◌≢◌, ◌<◌, refl, ap, ◌∙◌, true, List, [], ◌∷◌, some, ◌==◌, ltb, length,
  length-take, take, drop, load, load-ok, get_elem?, Bool-cases, inl, inr, ◌⊎◌, arith,
}
use mcsrv.Common.Int.{ℤ, pos, pos_part, sub64}
use mcsrv.Common.Outcome.{ok, ◌>>=◌}
use mcsrv.Nbt.{to_signed}
use mcsrv.Strings.{Str, memcmp, str_compare}

-- There is a NUL behind the characters.
pub record IsStr (s : Str) : Type 0 where
  pub area : length s.base ≡ suc s.length
  pub ended : get_elem? s.base s.length ≡ some 0

abbrev pub text : Str → List ℕ
text s = take s.length s.base

-- Two lists of one length are the same, and memcmp returns 0, or not, and it does not.
memcmp-cases :
    (xs ys : List ℕ)
    → length xs ≡ length ys
    → ((xs ≡ ys) × (memcmp xs ys ≡ pos 0)) ⊎ ((xs ≢ ys) × (memcmp xs ys ≢ pos 0))
unfolding memcmp
memcmp-cases [] [] n = inl (refl, refl)
memcmp-cases [] (y ∷ ys) n = absurd (omega (arith, n))
memcmp-cases (x ∷ xs) [] n = absurd (omega (arith, n))
memcmp-cases (x ∷ xs) (y ∷ ys) n = elim (Bool-cases (ltb x y)) [
  | inl less ↦
      inr (λ e. absurd (omega (arith, (below x y less), ap (head_or 0) e)), rw less (λ e. cc))
  | inr not_less ↦ elim (Bool-cases (ltb y x)) [
    | inl more ↦ inr (
      λ e. absurd (omega (arith, (below y x more), ap (head_or 0) e)),
      rw (not_less, more) (λ e. cc),
    )
    | inr not_more ↦
        let same : x ≡ y = ground (arith, not_less, not_more) in
        elim (memcmp-cases xs ys (omega (arith, n))) [
          | inl equal ↦
              inl
                (ap (λ z. z ∷ xs) same ∙ ap (λ zs. y ∷ zs) equal.0, rw (not_less, not_more) equal.1)
          | inr other ↦ inr (λ e. other.0 (ap (drop 1) e), rw (not_less, not_more) other.1)
        ]
  ]
]
  where
    head_or : ℕ → List ℕ → ℕ
    head_or d [] = d
    head_or d (z ∷ zs) = z

    below : (a b : ℕ) → ltb a b ≡ true → a < b
    below a b h = ground (arith, h)

load-text : (s : Str) → IsStr s → load s.base 0 s.length ≡ ok (text s)
load-text s w = load-ok s.base 0 s.length (omega (arith, w.area))

length-text : (s : Str) → IsStr s → length (text s) ≡ s.length
length-text s w = omega (arith, w.area, length-take s.length s.base)

to_signed-apart : (a b : ℕ) → a < 2 ^ 31 → b < 2 ^ 31 → a ≢ b → to_signed 32 (sub64 a b) ≢ pos 0
unfolding to_signed
to_signed-apart a b sa sb ne = elim (Bool-cases (ltb (sub64 a b % 2 ^ 32) (2 ^ 31))) [
  | inl low ↦ rw low (λ e. low_bits (ap pos_part e))
  | inr high ↦ rw high (λ e. cc)
]
  where
    low_bits : sub64 a b % 2 ^ 32 ≢ 0
    low_bits e = ne (omega (arith, e))

-- Strings of less than 2^31 characters compare as equal when they have the same characters, and as
-- not equal when they have not.
pub str_compare-text :
    (lhs rhs : Str)
    → IsStr lhs
    → IsStr rhs
    → lhs.length < 2 ^ 31
    → rhs.length < 2 ^ 31
    → ((text lhs ≡ text rhs) × (str_compare (some lhs) (some rhs) ≡ ok (pos 0)))
      ⊎ ((text lhs ≢ text rhs)
          × (res : ℤ) × (str_compare (some lhs) (some rhs) ≡ ok res)
          × (res ≢ pos 0))
unfolding str_compare
str_compare-text lhs rhs wl wr sl sr = elim (Bool-cases (lhs.length == rhs.length)) [
  | inl same ↦
      let equal : lhs.length ≡ rhs.length = ground (arith, same) in
      elim (memcmp-cases (text lhs) (text rhs)
        (omega (arith, length-text lhs wl, length-text rhs wr, equal))) [
          | inl equal_text ↦ inl (
            equal_text.0,
            rw (same, load-text lhs wl, ◌>>=◌, load-text rhs wr) (ap ok equal_text.1),
          )
          | inr other ↦ inr (
            other.0,
            memcmp (text lhs) (text rhs),
            rw (same, load-text lhs wl, ◌>>=◌, load-text rhs wr) refl,
            other.1,
          )
        ]
  | inr apart ↦
      let ne : lhs.length ≢ rhs.length = λ e. ground (arith, apart, e) in
      inr (
        λ e. ne (omega (arith, length-text lhs wl, length-text rhs wr, ap length e)),
        to_signed 32 (sub64 lhs.length rhs.length),
        rw apart refl,
        to_signed-apart lhs.length rhs.length sl sr ne,
      )
]
