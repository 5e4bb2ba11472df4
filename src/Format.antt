-- ===== src/Format.antt =====
-- How the kernel prints numbers and text: `printf` of kernel/lib/io.c, `utoa` and the time stamp of
-- kernel/core/log.c, and `puthex` of kernel/core/panic.c. A string argument is the bytes before its
-- terminator; the operations of the floating-point unit are a parameter.
pub mod Decimal
pub mod Hex
pub mod Printf
mod Tests
use mathlib.Core.Option
use mathlib.Core.List.{reverse}
use system.Common.{
  Bool, List, Option, [], if◌then◌else◌, ltb, none, some, suc, zero, ℕ, ◌%◌, ◌++◌, ◌+◌, ◌-◌, ◌/◌,
  ◌==◌, ◌^◌, ◌∷◌, length, ◌||◌,
}

-- `while (v) { tmp[i++] = '0' + (v % 10); v /= 10; }`: the digits, last first. The fuel is the size of
-- `tmp`.
unfoldable pub tmp_digits : (fuel v : ℕ) → List ℕ
tmp_digits zero v = []
tmp_digits (suc fuel) v =
    let rest = tmp_digits fuel (v / 10) in if v == 0 then [] else (b'0' + v % 10) ∷ rest

-- The text that `utoa` writes, and the digits of `%d`: `0` alone, or the digits in reverse.
unfoldable pub utoa : ℕ → List ℕ
utoa v = if v == 0 then b'0' ∷ [] else reverse (tmp_digits 12 v)

-- The time stamp of a log line, from the tick count.
unfoldable pub ts : ℕ → List ℕ
ts t =
    let sec = t / 1000 in
    let ms = t % 1000 in
    b' '
    ∷ b'['
    ∷ b' '
    ∷ 9
    ∷ (utoa sec
        ++ (b'.' ∷ (b'0' + ms / 100) ∷ (b'0' + ms / 10 % 10) ∷ (b'0' + ms % 10) ∷ b']' ∷ b' ' ∷ []))

-- What `klog` hands to the terminal.
unfoldable pub klog : ℕ → List ℕ → List ℕ
klog ticks msg = ts ticks ++ msg

abbrev pub hex_digit : ℕ → ℕ → ℕ
hex_digit letter d = if ltb d 10 then b'0' + d else letter + (d - 10)

-- `puthex`: the eight digits of a word, `buf[7-i]` for the i-th from the right.
unfoldable pub puthex_from : ℕ → ℕ → List ℕ → List ℕ
puthex_from zero val buf = buf
puthex_from (suc n) val buf = puthex_from n (val / 16) (hex_digit b'A' (val % 16) ∷ buf)

unfoldable pub puthex : ℕ → List ℕ
puthex val = puthex_from 8 val []

-- The digits of `%x`, last first, in `tmp[9]`.
pub tmp_hex : (fuel v : ℕ) → List ℕ
tmp_hex zero v = []
tmp_hex (suc fuel) v =
    let rest = tmp_hex fuel (v / 16) in if v == 0 then [] else hex_digit b'a' (v % 16) ∷ rest

pub hex : ℕ → List ℕ
hex v = if v == 0 then b'0' ∷ [] else reverse (tmp_hex 9 v)

-- `%d`: `num` is the 32-bit pattern of an `int`. A negative number is turned into its magnitude.
pub decimal : ℕ → List ℕ
decimal num =
    if ltb num (2 ^ 31)
    then utoa num
    else b'-' ∷ utoa (((2 ^ 32 - (num + 1) % 2 ^ 32) % 2 ^ 32 + 1) % 2 ^ 32)

-- `%s`: a backslash with a character behind it is an escape.
pub escaped : List ℕ → List ℕ
escaped [] = []
escaped (c ∷ []) = c ∷ []
escaped (c ∷ d ∷ s) =
    if c == 92
    then (let rest = escaped s in
        if d == b'n'
        then 10 ∷ rest
        else if d == b't'
        then 9 ∷ rest
        else if d == 92
        then 92 ∷ rest
        else 92 ∷ d ∷ rest)
    else (let rest = escaped (d ∷ s) in c ∷ rest)

-- The operations on `double` that `%f` uses. `to_int` truncates to the 32-bit pattern of an `int`.
pub record Float : Type 1 where
  pub Double : Type 0
  pub is_negative : Double → Bool
  pub negate : Double → Double
  pub to_int : Double → ℕ
  pub minus_int : Double → ℕ → Double
  pub times_ten : Double → Double

module _ (fpu : Float) where
  open fpu use {Double, is_negative, negate, to_int, minus_int, times_ten}

  -- The places behind the point.
  pub fraction : ℕ → Double → List ℕ
  fraction zero f = []
  fraction (suc n) f =
      let ten = times_ten f in (b'0' + to_int ten) % 256 ∷ fraction n (minus_int ten (to_int ten))

  pub floating : Double → List ℕ
  floating num =
      let size = if is_negative num then negate num else num in
      let sign : List ℕ = if is_negative num then b'-' ∷ [] else [] in
      sign ++ (utoa (to_int size) ++ (b'.' ∷ fraction 6 (minus_int size (to_int size))))

  pub data Arg : Type 0 where
    str : List ℕ → Arg
    int : ℕ → Arg
    double : Double → Arg

  -- What the directive `p` prints of the arguments, and the arguments left; `none` where `va_arg`
  -- finds no argument of its type.
  pub directive : ℕ → List Arg → Option (List ℕ × List Arg)
  directive p [] =
      if p == b's' || p == b'c' || p == b'd' || p == b'f' || p == b'x'
      then none
      else if p == b'%'
      then some (b'%' ∷ [], [])
      else some (b'%' ∷ p ∷ [], [])
  directive p (a ∷ args) =
      if p == b's'
      then (elim a [ str s ↦ some (escaped s, args) | _ ↦ none ])
      else if p == b'c'
      then (elim a [ int n ↦ some (n % 256 ∷ [], args) | _ ↦ none ])
      else if p == b'd'
      then (elim a [ int n ↦ some (decimal n, args) | _ ↦ none ])
      else if p == b'f'
      then (elim a [ double d ↦ some (floating d, args) | _ ↦ none ])
      else if p == b'x'
      then (elim a [ int n ↦ some (hex n, args) | _ ↦ none ])
      else if p == b'%'
      then some (b'%' ∷ [], a ∷ args)
      else some (b'%' ∷ p ∷ [], a ∷ args)

  -- The loop over the format. A `%` before the terminator makes it run on behind the format.
  pub expand : List ℕ → List Arg → Option (List ℕ)
  expand [] args = some []
  expand (c ∷ []) args = if c == b'%' then none else some (c ∷ [])
  expand (c ∷ p ∷ format) args =
      let plain = Option.map (◌∷◌ c) (expand (p ∷ format) args) in
      let special : Option (List ℕ) = elim (directive p args) [
        | none ↦ none
        | some (out, rest) ↦ Option.map (λ more. out ++ more) (expand format rest)
      ] in
      if c == b'%' then special else plain

  -- The text in `buffer`, which has 1024 bytes with the terminator; a longer one overflows it.
  pub printf : List ℕ → List Arg → Option (List ℕ)
  printf format args = elim (expand format args) [
    | none ↦ none
    | some out ↦ if ltb (length out) 1024 then some out else none
  ]
