-- ===== src/Common/Occurrences.antt =====
-- Where `strstr` finds a text.
use mathlib.Core.Path.{◌≡◌, refl, sym, ap, ◌∙◌}
use mathlib.Core.Logic.{inl, inr}
use mathlib.Core.Bool.{true, ◌&&◌}
use mathlib.Core.Option.{none, some, some-injective}
use mathlib.Core.List.{[], ◌∷◌, ◌++◌}
use handle_wifi_camera_itop.Common.Tests.{◌==◌, if◌then◌else◌, Bool-cases, ==→eq}
use handle_wifi_camera_itop.Common.Strings.{Text, is_prefix, strstr}

is_prefix-append :
    (needle text : Text) → is_prefix needle text ≡ true → (rest : Text) × (text ≡ needle ++ rest)
unfolding is_prefix
is_prefix-append [] text h = (text, refl)
is_prefix-append (n ∷ needle) [] h = absurd (cc h)
is_prefix-append (n ∷ needle) (c ∷ text) h = elim (Bool-cases (n == c)) [
  | inl same ↦
      let (rest, e) =
        is_prefix-append needle text (sym (ap (λ b. b && is_prefix needle text) same) ∙ h) in
      (rest, ap (λ l. c ∷ l) e ∙ ap (λ k. k ∷ (needle ++ rest)) (sym (==→eq n c same)))
  | inr other ↦ absurd (cc (sym (ap (λ b. b && is_prefix needle text) other) ∙ h))
]

-- Where `strstr` finds a text, it stands in the string.
pub strstr-append :
    (text needle found : Text)
    → strstr text needle ≡ some found
    → (before : Text) × (rest : Text) × (text ≡ before ++ found) × (found ≡ needle ++ rest)
unfolding strstr
strstr-append [] needle found h = elim (Bool-cases (is_prefix needle [])) [
  | inl here ↦
      let (rest, e) = is_prefix-append needle [] here in
      let same : [] ≡ found =
        some-injective _ _ (sym (ap (λ b. if b then some [] else none) here) ∙ h) in
      ([], rest, same, sym same ∙ e)
  | inr nowhere ↦
      let never : none ≡ some found = sym (ap (λ b. if b then some [] else none) nowhere) ∙ h in
      absurd (cc never)
]
strstr-append (c ∷ text) needle found h = elim (Bool-cases (is_prefix needle (c ∷ text))) [
  | inl here ↦
      let (rest, e) = is_prefix-append needle (c ∷ text) here in
      let same : c ∷ text ≡ found =
        some-injective _ _
          (sym (ap (λ b. if b then some (c ∷ text) else strstr text needle) here) ∙ h) in
      ([], rest, same, sym same ∙ e)
  | inr later ↦
      let (before, rest, e, f) =
        strstr-append text needle found
          (sym (ap (λ b. if b then some (c ∷ text) else strstr text needle) later) ∙ h) in
      (c ∷ before, rest, ap (λ l. c ∷ l) e, f)
]
