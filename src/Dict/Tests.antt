-- ===== src/Dict/Tests.antt =====
-- A fixed dictionary of four slots, in which the search for a key passes a slot of another.
use mcsrv.Common.{ℕ, ◌≡◌, refl, true, [], ◌∷◌, some, ◌==◌, arith}
use mcsrv.Common.Int.{pos}
use mcsrv.Common.Outcome.{ok}
use mcsrv.Dict.{Slot, Dict, Comparator, idx_iter, dict_put, dict_get}
use mcsrv.Dict.Lookup.{IsValid, dict_get-put}

abbrev numbers : Comparator ℕ
numbers = record { hfunc = λ k. k; same = ◌==◌ }

abbrev blank : Slot ℕ ℕ
blank = record { hash = 0; key = 0; value = 0 }

-- The slot 1 is taken by the key 5; 9 has the same home.
abbrev taken : Slot ℕ ℕ
taken = record { hash = 5; key = 5; value = 50 }

abbrev table : Dict ℕ ℕ
table = record { base = blank ∷ taken ∷ blank ∷ blank ∷ []; capacity = 4; size = 1; fixed = true }

table-IsValid : IsValid numbers table
table-IsValid = record { area = refl; roomy = omega arith; counted = omega arith }

dict_get-put_example :
    (d : Dict ℕ ℕ) × (dict_put numbers blank table 9 90 ≡ ok (2, d))
    × IsValid numbers d
    × (dict_get numbers d 9 true ≡ ok (pos 2, some 90))
unfolding idx_iter
dict_get-put_example =
    dict_get-put numbers blank table 9 90 1 2 table-IsValid refl refl (omega arith) refl
      (refl, (refl, refl)) (omega arith)
