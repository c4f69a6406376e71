-- ===== src/Common/Strings.antt =====
-- C strings as lists of bytes, without the closing NUL, and the functions of <string.h>, <stdio.h>
-- and <stdlib.h> that the program calls on them.
pub mod Decimals
use Prim.Native.Nat.{ℕ, zero, suc, ◌+◌, ◌-◌, ◌*◌, ◌/◌, ◌%◌, ◌^◌, min}
use Prim.Native.Char.{code}
use Prim.Native.String.{String}
use mathlib.Core.Bool.{Bool, true, false, ◌&&◌, ◌||◌}
use mathlib.Core.Option.{Option, none, some}
use mathlib.Core.List.{List, [], ◌∷◌, ◌++◌}
use handle_wifi_camera_itop.Common.Tests.{◌==◌, leb, ltb, if◌then◌else◌}
use handle_wifi_camera_itop.Common.Lists.{take}

abbrev pub Text : Type 0
Text = List ℕ

abbrev pub codes : String → Text
codes String.[] = []
codes (String.◌∷◌ c s) = code c ∷ codes s

unfoldable pub is_prefix : Text → Text → Bool
is_prefix [] text = true
is_prefix (n ∷ needle) [] = false
is_prefix (n ∷ needle) (c ∷ text) = (n == c) && is_prefix needle text

-- The text from the first occurrence on; `none` is NULL.
unfoldable pub strstr : Text → Text → Option Text
unfolding is_prefix
strstr [] needle = if is_prefix needle [] then some [] else none
strstr (c ∷ text) needle =
    if is_prefix needle (c ∷ text) then some (c ∷ text) else strstr text needle

abbrev pub strncat : Text → Text → ℕ → Text
strncat dest src n = dest ++ take n src

-- `%d` of a number that is not negative; 20 digits are more than an int has.
decimal_digits : ℕ → ℕ → Text → Text
decimal_digits zero n acc = acc
decimal_digits (suc fuel) n acc =
    let rest = decimal_digits fuel (n / 10) ((b'0' + n % 10) ∷ acc) in
    if n / 10 == 0 then (b'0' + n % 10) ∷ acc else rest

unfoldable pub decimal : ℕ → Text
unfolding decimal_digits
decimal n = decimal_digits 20 n []

-- `%02x` of a byte.
abbrev hex_digit : ℕ → ℕ
hex_digit n = if ltb n 10 then b'0' + n else b'a' + (n - 10)

unfoldable pub hex_byte : ℕ → Text
hex_byte n = hex_digit (n / 16) ∷ hex_digit (n % 16) ∷ []

is_space : ℕ → Bool
is_space c = (c == 32) || (leb 9 c && leb c 13)

skip_spaces : Text → Text
skip_spaces [] = []
skip_spaces (c ∷ text) = if is_space c then skip_spaces text else c ∷ text

skip_plus : Text → Text
skip_plus [] = []
skip_plus (c ∷ text) = if c == b'+' then text else c ∷ text

pub digits_value : ℕ → Text → ℕ
digits_value acc [] = acc
digits_value acc (c ∷ text) =
    let rest = digits_value (acc * 10 + (c - b'0')) text in
    if leb b'0' c && leb c b'9' then rest else acc

-- `strtoul(text, NULL, 10)` of a text with no '-', for a 32-bit unsigned long.
unfoldable pub strtoul : Text → ℕ
unfolding is_space skip_spaces skip_plus digits_value
strtoul text = min (2 ^ 32 - 1) (digits_value 0 (skip_plus (skip_spaces text)))

-- The longest beginning with no byte `stop`, and what follows it: the `%[^c]` of sscanf.
unfoldable pub span_ne : ℕ → Text → Text × Text
span_ne stop [] = ([], [])
span_ne stop (c ∷ text) =
    let (taken, rest) = span_ne stop text in if c == stop then ([], c ∷ text) else (c ∷ taken, rest)
