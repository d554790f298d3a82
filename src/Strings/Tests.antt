-- ===== src/Strings/Tests.antt =====
-- "ab" and "ac".
use mcsrv.Common.{◌≡◌, ◌≢◌, refl, [], ◌∷◌, some, arith, ◌⊎◌}
use mcsrv.Common.Int.{ℤ, pos}
use mcsrv.Common.Outcome.{ok}
use mcsrv.Strings.{Str, str_compare}
use mcsrv.Strings.Copies.{IsStr, text, str_compare-text}

abbrev first : Str
first = record { base = 97 ∷ 98 ∷ 0 ∷ []; length = 2 }

abbrev second : Str
second = record { base = 97 ∷ 99 ∷ 0 ∷ []; length = 2 }

first-IsStr : IsStr first
first-IsStr = record { area = refl; ended = refl }

second-IsStr : IsStr second
second-IsStr = record { area = refl; ended = refl }

str_compare-text_example :
    ((text first ≡ text second) × (str_compare (some first) (some second) ≡ ok (pos 0)))
    ⊎ ((text first ≢ text second)
        × (res : ℤ) × (str_compare (some first) (some second) ≡ ok res)
        × (res ≢ pos 0))
str_compare-text_example =
    str_compare-text first second first-IsStr second-IsStr (omega arith) (omega arith)
