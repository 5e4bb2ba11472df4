-- ===== src/Format/Tests.antt =====
-- Tests of the output of numbers and text, and its theorems at concrete values.
use Prim.Native.String.{String}
use system.Common.{
  List, [], arith, false, if◌then◌else◌, length, ltb, none, refl, some, ℕ, ◌*◌, ◌-◌, ◌/◌, ◌∷◌, ◌≡◌,
}
use system.Fbcon.{codes}
use system.Format.{
  Float, decimal, directive, double, escaped, expand, floating, fraction, hex, int, klog, printf,
  str, tmp_digits, tmp_hex, ts, utoa,
}
use system.Format.Printf.{printf-plain}

-- A floating-point unit on tenths, for tests.
abbrev tenths : Float
tenths = record {
  Double = ℕ;
  is_negative = λ _. false;
  negate = λ d. d;
  to_int = λ d. d / 10;
  minus_int = λ d n. d - n * 10;
  times_ten = λ d. d * 10;
}

abbrev text : String → List ℕ
text s = codes s

printf_mixed :
    printf tenths
      (text "%s=%d %x %f%%")
      (str (text "a\\n") ∷ int 0xffff_fffe ∷ int 0x2f ∷ double 25 ∷ [])
    ≡ some (97 ∷ 10 ∷ text "=-2 2f 2.500000%")
unfolding printf expand directive escaped decimal utoa tmp_digits hex tmp_hex floating fraction
printf_mixed = refl

least_int : decimal 0x8000_0000 ≡ text "-2147483648"
unfolding decimal utoa tmp_digits
least_int = refl

log_line : klog 61_007 (text "ok") ≡ 32 ∷ 91 ∷ 32 ∷ 9 ∷ text "61.007] ok"
unfolding klog ts utoa tmp_digits
log_line = refl

seven : directive tenths b'd' (int 7 ∷ []) ≡ some (decimal 7, [])
unfolding directive
seven = refl

full_stop : expand tenths (text ".") [] ≡ some (text ".")
unfolding expand
full_stop = refl

printf-plain_example :
    printf tenths (text "hi") []
    ≡ (if ltb (length (text "hi")) 1024 then some (text "hi") else none)
printf-plain_example = printf-plain tenths (text "hi") [] (omega arith)
