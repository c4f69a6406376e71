-- ===== src/Common/Strings/Decimals.antt =====
-- `strtoul` reads back what `%d` prints.
use Prim.Native.Nat.{ℕ, zero, suc, ◌+◌, ◌-◌, ◌*◌, ◌/◌, ◌%◌, ◌^◌, ◌<◌, min}
use mathlib.Core.Path.{◌≡◌, refl, ap, ◌∙◌}
use mathlib.Core.Bool.{false}
use mathlib.Core.Logic.{◌≢◌, inl, inr}
use mathlib.Core.List.{[], ◌∷◌, ◌++◌}
use native.Mathlib.Omega.{arith}
use handle_wifi_camera_itop.Common.Tests.{◌==◌, Bool-cases, ==→eq, if_either}
use handle_wifi_camera_itop.Common.Strings.{
  Text, decimal, decimal_digits, strtoul, skip_spaces, skip_plus, is_space, digits_value, span_ne,
}

-- Below 10 to the fuel the digits suffice.
abbrev power_of_ten : ℕ → ℕ
power_of_ten zero = 1
power_of_ten (suc f) = 10 * power_of_ten f

digits_first :
    (fuel n : ℕ) (acc rest : Text)
    → decimal_digits fuel n acc ++ rest ≡ decimal_digits fuel n (acc ++ rest)
unfolding decimal_digits
digits_first zero n acc rest = refl
digits_first (suc fuel) n acc rest = elim (Bool-cases (n / 10 == 0)) [
  | inl e ↦ rw e
  | inr e ↦ rw e (digits_first fuel (n / 10) ((b'0' + n % 10) ∷ acc) rest)
]

-- No space and no sign comes first.
abbrev StartsPlain : Text → Type 0
StartsPlain t = skip_plus (skip_spaces t) ≡ t

digit-StartsPlain : (d : ℕ) (t : Text) → d < 10 → StartsPlain ((b'0' + d) ∷ t)
unfolding skip_plus skip_spaces is_space
digit-StartsPlain d t h = ground arith

digits-StartsPlain :
    (fuel n d : ℕ) (t : Text) → d < 10 → StartsPlain (decimal_digits fuel n ((b'0' + d) ∷ t))
unfolding decimal_digits
digits-StartsPlain zero n d t h = digit-StartsPlain d t h
digits-StartsPlain (suc fuel) n d t h = elim (Bool-cases (n / 10 == 0)) [
  | inl e ↦ rw e (digit-StartsPlain (n % 10) ((b'0' + d) ∷ t) (omega arith))
  | inr e ↦ rw e (digits-StartsPlain fuel (n / 10) (n % 10) ((b'0' + d) ∷ t) (omega arith))
]

one_digit :
    (v d : ℕ) (t : Text) → d < 10 → digits_value v ((b'0' + d) ∷ t) ≡ digits_value (v * 10 + d) t
unfolding digits_value
one_digit v d t h = ground arith

digits_value-digits :
    (fuel n : ℕ) (t : Text)
    → n < power_of_ten fuel
    → digits_value 0 (decimal_digits fuel n t) ≡ digits_value n t
unfolding decimal_digits
digits_value-digits zero n t h = ap (λ k. digits_value k t) (omega arith)
digits_value-digits (suc fuel) n t h = elim (Bool-cases (n / 10 == 0)) [
  | inl e ↦ rw e (
      one_digit 0 (n % 10) t (omega arith)
      ∙ ap (λ k. digits_value k t) (omega (arith, ==→eq (n / 10) 0 e)))
  | inr e ↦ rw e (
      digits_value-digits fuel (n / 10) ((b'0' + n % 10) ∷ t) (omega arith)
      ∙ one_digit (n / 10) (n % 10) t (omega arith)
      ∙ ap (λ k. digits_value k t) (omega arith))
]

plain_number : (fuel n : ℕ) (t : Text) → StartsPlain (decimal_digits (suc fuel) n t)
unfolding decimal_digits
plain_number fuel n t = elim (Bool-cases (n / 10 == 0)) [
  | inl e ↦ rw e (digit-StartsPlain (n % 10) t (omega arith))
  | inr e ↦ rw e (digits-StartsPlain fuel (n / 10) (n % 10) t (omega arith))
]

-- A number of at most nine digits, with something behind it that is no digit.
pub strtoul-decimal :
    (n : ℕ) (t : Text)
    → n < 1000000000
    → ((v : ℕ) → digits_value v t ≡ v)
    → strtoul (decimal n ++ t) ≡ n
unfolding strtoul decimal
strtoul-decimal n t h stops =
    let value = digits_value 0 in
    ap (min (2 ^ 32 - 1)) (
      ap (λ l. value (skip_plus (skip_spaces l))) (digits_first 20 n [] t)
      ∙ ap value (plain_number 19 n t)
      ∙ digits_value-digits 20 n t (omega arith)
      ∙ stops n)
    ∙ omega arith

-- At the end of a line, and of a string.
pub stops_at_line_end : (t : Text) (v : ℕ) → digits_value v (13 ∷ t) ≡ v
unfolding digits_value
stops_at_line_end t v = refl

pub stops_at_end : (v : ℕ) → digits_value v [] ≡ v
unfolding digits_value
stops_at_end v = refl

-- The bytes that a text does not have.
abbrev pub Lacks : ℕ → Text → Type 0
Lacks c [] = Unit
Lacks c (d ∷ ds) = (d ≢ c) × Lacks c ds

decimal_digits-Lacks :
    (fuel n : ℕ) (acc : Text) → Lacks b'-' acc → Lacks b'-' (decimal_digits fuel n acc)
unfolding decimal_digits
decimal_digits-Lacks zero n acc h = h
decimal_digits-Lacks (suc fuel) n acc h =
    let more : Lacks b'-' ((b'0' + n % 10) ∷ acc) = (λ z. omega arith, h) in
    if_either (Lacks b'-') (n / 10 == 0) ((b'0' + n % 10) ∷ acc)
      (decimal_digits fuel (n / 10) ((b'0' + n % 10) ∷ acc)) more
      (decimal_digits-Lacks fuel (n / 10) ((b'0' + n % 10) ∷ acc) more)

pub decimal-Lacks : (n : ℕ) → Lacks b'-' (decimal n)
unfolding decimal
decimal-Lacks n = decimal_digits-Lacks 20 n [] tt

decimal_digits_nonempty : (fuel n c : ℕ) (acc : Text) → decimal_digits fuel n (c ∷ acc) ≢ []
unfolding decimal_digits
decimal_digits_nonempty zero n c acc = λ h. cc
decimal_digits_nonempty (suc fuel) n c acc =
    if_either (λ l. l ≢ []) (n / 10 == 0) ((b'0' + n % 10) ∷ c ∷ acc)
      (decimal_digits fuel (n / 10) ((b'0' + n % 10) ∷ c ∷ acc)) (λ h. cc)
      (decimal_digits_nonempty fuel (n / 10) (b'0' + n % 10) (c ∷ acc))

pub decimal_nonempty : (n : ℕ) → decimal n ≢ []
unfolding decimal decimal_digits
decimal_nonempty n =
    if_either (λ l. l ≢ []) (n / 10 == 0) ((b'0' + n % 10) ∷ [])
      (decimal_digits 19 (n / 10) ((b'0' + n % 10) ∷ [])) (λ h. cc)
      (decimal_digits_nonempty 19 (n / 10) (b'0' + n % 10) [])

-- What `%[^c]` takes from a text without c before a c.
pub span_ne-append : (c : ℕ) (xs ys : Text) → Lacks c xs → span_ne c (xs ++ (c ∷ ys)) ≡ (xs, c ∷ ys)
unfolding span_ne
span_ne-append c [] ys h = ground arith
span_ne-append c (x ∷ xs) ys h =
    let other : (x == c) ≡ false = ground (arith, h.0) in
    rw (span_ne-append c xs ys h.1, other) refl
