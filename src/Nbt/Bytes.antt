-- ===== src/Nbt/Bytes.antt =====
-- Numbers and strings as the bytes of a file.
use mcsrv.Common.{
  ℕ, zero, suc, ◌+◌, ◌*◌, ◌/◌, ◌^◌, ◌<◌, ◌≤◌, ◌≡◌, refl, sym, ap, ◌∙◌, true, false, List, [], ◌∷◌,
  ◌++◌, Option, some, ◌==◌, length, length-append, length-replicate, take, drop, replicate, splice,
  take-append, drop-append, append_assoc, append-nil, arith,
}
use mcsrv.Common.Int.{sub64}
use mcsrv.Common.Outcome.{Outcome, ok, ◌>>=◌}
use mcsrv.Nbt.Writer.{to_bytes, hton, clamped, write_string}
use mcsrv.Nbt.Reader.{Source, of_bytes, ntoh, ensure_rounds, ensure_read, read_string}
use mcsrv.Net.Encode.{swap_bytes}

swap_bytes-append : (xs ys : List ℕ) → swap_bytes (xs ++ ys) ≡ swap_bytes ys ++ swap_bytes xs
unfolding swap_bytes
swap_bytes-append [] ys = sym (append-nil (swap_bytes ys))
swap_bytes-append (x ∷ xs) ys =
    ap (λ zs. zs ++ (x ∷ [])) (swap_bytes-append xs ys)
    ∙ append_assoc (swap_bytes ys) (swap_bytes xs) (x ∷ [])

swap_bytes-swap_bytes : (xs : List ℕ) → swap_bytes (swap_bytes xs) ≡ xs
unfolding swap_bytes
swap_bytes-swap_bytes [] = refl
swap_bytes-swap_bytes (x ∷ xs) =
    swap_bytes-append (swap_bytes xs) (x ∷ []) ∙ ap (λ zs. x ∷ zs) (swap_bytes-swap_bytes xs)

length-swap_bytes : (xs : List ℕ) → length (swap_bytes xs) ≡ length xs
unfolding swap_bytes
length-swap_bytes [] = refl
length-swap_bytes (x ∷ xs) =
    omega (arith, length-append (swap_bytes xs) (x ∷ []), length-swap_bytes xs)

pub length-to_bytes : (size n : ℕ) → length (to_bytes size n) ≡ size
unfolding to_bytes
length-to_bytes zero n = refl
length-to_bytes (suc size) n = ap suc (length-to_bytes size (n / 2 ^ 8))

pub length-hton : (size n : ℕ) → length (hton size n) ≡ size
length-hton size n = length-swap_bytes (to_bytes size n) ∙ length-to_bytes size n

-- The numbers of `size` bytes.
abbrev pub bound : ℕ → ℕ
bound zero = 1
bound (suc size) = 2 ^ 8 * bound size

pub of_bytes-to_bytes : (size n : ℕ) → n < bound size → of_bytes (to_bytes size n) ≡ n
unfolding of_bytes to_bytes
of_bytes-to_bytes zero n h = omega arith
of_bytes-to_bytes (suc size) n h = omega (arith, of_bytes-to_bytes size (n / 2 ^ 8) (omega arith))

pub ntoh-hton : (size n : ℕ) → n < bound size → ntoh (hton size n) ≡ n
ntoh-hton size n h =
    ap of_bytes (swap_bytes-swap_bytes (to_bytes size n)) ∙ of_bytes-to_bytes size n h

splice-whole : (buf xs : List ℕ) → length xs ≡ length buf → splice buf 0 xs ≡ xs
unfolding splice
splice-whole buf xs h =
    ap (λ zs. xs ++ zs) (drop-all buf (0 + length xs) (omega (arith, h))) ∙ append-nil xs
  where
    drop-all : (ys : List ℕ) (n : ℕ) → n ≡ length ys → drop n ys ≡ []
    drop-all [] zero e = refl
    drop-all [] (suc n) e = refl
    drop-all (y ∷ ys) zero e = absurd (omega arith)
    drop-all (y ∷ ys) (suc n) e = drop-all ys n (omega (arith, e))

-- A string that a u16 can count is written whole.
pub write_string-short :
    (str : List ℕ) → length str < 2 ^ 16 → write_string str ≡ hton 2 (length str) ++ str
unfolding write_string
write_string-short str small =
    let whole : clamped str ≡ length str = ground (arith, small) in
    rw whole (
      ap (λ xs. hton 2 (length str) ++ xs)
        (ap (take (length str)) (sym (append-nil str)) ∙ take-append str []))

module _ {S : Type 0} (source : Source S) (junk : ℕ) where
  -- What a read leaves.
  pub record Read (fd : S) (xs rest : List ℕ) (m : Outcome (Option (List ℕ) × S)) : Type 0 where
    pub after : S
    pub result : m ≡ ok (some xs, after)
    pub remaining : source.bytes after ≡ rest

  -- As many bytes as the file has are read.
  pub ensure_read-bytes :
      (fd : S) (xs rest : List ℕ)
      → source.bytes fd ≡ xs ++ rest
      → length xs < 2 ^ 64
      → Read fd xs rest (ensure_read source junk fd (length xs))
  unfolding ensure_read ensure_rounds
  ensure_read-bytes fd [] rest e small = record { after = fd; result = refl; remaining = e }
  ensure_read-bytes fd (x ∷ xs) rest e small =
      let enough : length (x ∷ xs) ≤ length (source.bytes fd) =
        omega (arith, ap length e, length-append (x ∷ xs) rest) in
      let chunk : (source.gzread fd (length (x ∷ xs))).0 ≡ x ∷ xs =
        source.copied fd (length (x ∷ xs)) enough
        ∙ (ap (take (length (x ∷ xs))) e ∙ take-append (x ∷ xs) rest) in
      let some_bytes : (suc (length xs) == 0) ≡ false = ground arith in
      let none_left : (sub64 (suc (length xs)) (suc (length xs)) == 0) ≡ true =
        ground (arith, small) in
      record {
        after = (source.gzread fd (length (x ∷ xs))).1;
        result =
            rw
              (
                chunk,
                some_bytes,
                none_left,
                splice-whole (replicate (suc (length xs)) junk) (x ∷ xs)
                    (ap suc (sym (length-replicate (length xs) junk))),
              )
              refl;
        remaining =
            source.left fd (length (x ∷ xs)) enough
            ∙ (ap (drop (length (x ∷ xs))) e ∙ drop-append (x ∷ xs) rest);
      }

  -- A string that was written is read again, and the file goes on behind it.
  pub read_string-write_string :
      (fd : S) (str rest : List ℕ)
      → length str < 2 ^ 16
      → source.bytes fd ≡ write_string str ++ rest
      → Read fd str rest (read_string source junk fd)
  unfolding read_string swap_bytes to_bytes
  read_string-write_string fd str rest small e =
      let size : Read fd (hton 2 (length str)) (str ++ rest) (ensure_read source junk fd 2) =
        ensure_read-bytes fd (hton 2 (length str)) (str ++ rest)
          (e
            ∙ (ap (λ xs. xs ++ rest) (write_string-short str small)
                ∙ append_assoc (hton 2 (length str)) str rest))
          (omega arith) in
      let body = ensure_read-bytes size.after str rest size.remaining (omega arith) in
      record {
        after = body.after;
        result =
            rw (size.result, ◌>>=◌, ntoh-hton 2 (length str) (omega (arith, small))) body.result;
        remaining = body.remaining;
      }
