-- ===== src/CString/Tests.antt =====
-- Tests of the string functions, and their theorems at concrete buffers.
use system.Common.{List, [], arith, none, refl, replicate, some, ℕ, ◌∷◌, ◌≡◌}
use system.CString.{cut, strchr, strcpy, strlen, strtok, token_length}
use system.CString.Copy.{strcpy-fits}
use system.CString.Text.{IsText, c_string, strlen-c_string}
use system.CString.Token.{strtok-last}

abbrev cat : List ℕ
cat = b'c' ∷ b'a' ∷ b't' ∷ []

abbrev cat-text : IsText cat
cat-text = (omega arith, (omega arith, (omega arith, tt)))

second_token :
    strtok none (32 ∷ 0 ∷ []) (record { buffer = c_string cat (b'x' ∷ 0 ∷ []); next = some 4 })
    ≡ some (some 4, record { buffer = c_string cat (b'x' ∷ 0 ∷ []); next = none })
unfolding strtok token_length strchr cut
second_token = refl

strlen-c_string_example : strlen (c_string cat (9 ∷ [])) ≡ some 3
strlen-c_string_example = strlen-c_string cat (9 ∷ []) cat-text

strcpy-fits_example : strcpy (replicate 5 7) (c_string cat []) ≡ some (c_string cat (7 ∷ []))
strcpy-fits_example = strcpy-fits cat [] (replicate 5 7) cat-text (omega arith)

strtok-last_example :
    strtok (some 0) (32 ∷ 0 ∷ []) (record { buffer = c_string cat (b'x' ∷ 0 ∷ []); next = some 9 })
    ≡ some (some 0, record { buffer = c_string cat (b'x' ∷ 0 ∷ []); next = none })
strtok-last_example =
    strtok-last cat (b'x' ∷ 0 ∷ []) 32 (some 9) (omega arith) (omega arith) (omega arith)
