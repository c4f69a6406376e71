-- ===== src/Public/Report/Codes.antt =====
-- The codes that the reporters look up.
use handle_wifi_camera_itop.Common.{
  ℕ, zero, suc, ◌≤◌, ◌<◌, ◌≡◌, refl, List, [], ◌∷◌, some, none, arith, ltb, false, Bool-cases,
  ==→eq, ◌==◌, ◌⊎◌, inl, inr, length, get_elem?,
}
use Prim.Native.String.{String}
use handle_wifi_camera_itop.Public.ErrorCode.{enum_error_code_list_end}
use handle_wifi_camera_itop.Public.Messages.{error_mesg}
use handle_wifi_camera_itop.Public.Report.{
  message, fatal, out_of_bounds, lookup_message, echo_error_prompt, write_log,
}

get_elem?_below :
    {A : Type 0} (xs : List A) (i : ℕ) → i < length xs → (x : A) × (get_elem? xs i ≡ some x)
get_elem?_below [] i h = absurd (omega arith)
get_elem?_below (x ∷ xs) zero h = (x, refl)
get_elem?_below (x ∷ xs) (suc i) h = get_elem?_below xs i (omega arith)

get_elem?_above : {A : Type 0} (xs : List A) (i : ℕ) → length xs ≤ i → get_elem? xs i ≡ none
get_elem?_above [] i h = refl
get_elem?_above (x ∷ xs) zero h = absurd (omega arith)
get_elem?_above (x ∷ xs) (suc i) h = get_elem?_above xs i (omega arith)

-- One message for each code, and one more at the end.
length-error_mesg : length error_mesg ≡ suc enum_error_code_list_end
unfolding error_mesg
length-error_mesg = refl

above :
    (code : ℕ)
    → ltb code enum_error_code_list_end ≡ false
    → (code == enum_error_code_list_end) ≡ false
    → enum_error_code_list_end < code
above code h k = ground arith

-- How the two reporters treat a code.
abbrev pub Reported : ℕ → String → String → ℕ → Type 0
Reported code file function line =
    ((code < enum_error_code_list_end)
      × ((m : String) × (get_elem? error_mesg code ≡ some m)
          × (echo_error_prompt code file function line ≡ message file function line m code)
          × (write_log code file function line ≡ message file function line m code)))
    ⊎ ((enum_error_code_list_end ≤ code)
        × (echo_error_prompt code file function line ≡ fatal)
        × ((code ≡ enum_error_code_list_end) ⊎ (write_log code file function line ≡ out_of_bounds)))

-- A code of the enumeration is reported with its message by both reporters; for a larger one
-- `echo_error_prompt` prints the fixed text, and `write_log` reads past the end of the table, except
-- at ENUM_ERROR_CODE_LIST_END itself.
pub reports : (code : ℕ) (file function : String) (line : ℕ) → Reported code file function line
unfolding echo_error_prompt write_log lookup_message error_mesg get_elem?_below
reports code file function line = elim (Bool-cases (ltb code enum_error_code_list_end)) [
  | inl inside ↦
      let (m, e) = get_elem?_below error_mesg code (ground (arith, length-error_mesg)) in
      inl (ground arith, (m, e, rw (inside, e), rw e))
  | inr outside ↦ elim (Bool-cases (code == enum_error_code_list_end)) [
    | inl at_end ↦ inr (ground arith, rw outside, inl (==→eq code enum_error_code_list_end at_end))
    | inr beyond ↦ inr (
      ground arith,
      rw outside,
      inr (
          rw (
            get_elem?_above error_mesg code
              (omega (arith, length-error_mesg, above code outside beyond)))),
    )
  ]
]
