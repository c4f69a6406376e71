-- ===== src/Rtsp/Handlers/Cseq.antt =====
-- What the five handlers have in common: the search for the CSeq line, and its copy in the answer.
use mathlib.Core.Path.{subst}
use handle_wifi_camera_itop.Common.{
  ℕ, ◌-◌, ◌≡◌, ◌⊎◌, inl, inr, refl, sym, ap, ◌∙◌, [], ◌++◌, append_assoc, Option, some, none, arith,
  length, take, length-append, take-append, Text, codes, is_prefix, strstr, strstr-append,
}
use handle_wifi_camera_itop.Rtsp.Search.{crlf}
use handle_wifi_camera_itop.Rtsp.Handlers.{Handled, handled, info, with_cseq}

abbrev pub cseq : Text
cseq = codes "CSeq: "

-- The answer to a request: no CSeq line and the code of that; a line with no end and the code of
-- that; or the answer begins with the status line, the server line and the CSeq line of the request,
-- and its code is one of the others.
abbrev pub Answers : ℕ → ℕ → (ℕ → Type 0) → Text → Handled → Type 0
Answers header_fail tail_fail Later request h =
    ((strstr request cseq ≡ none) × (h.code ≡ header_fail))
    ⊎ (((start : Text) × (strstr request cseq ≡ some start)
          × (strstr start crlf ≡ none)
          × (h.code ≡ tail_fail))
        ⊎ ((before : Text) × (number : Text) × (after : Text) × (body : Text) × (request
              ≡ before ++ ((cseq ++ number) ++ (crlf ++ after)))
            × (h.send_buf ≡ (info 0 ++ info 1) ++ ((cseq ++ number) ++ (crlf ++ body)))
            × Later h.code))

-- What holds of both failures and of every answer holds of what `with_cseq` returns.
pub with_cseq-either :
    (P : Handled → Type 0) (header_fail tail_fail : ℕ) (request : Text) (answer : Text → Handled)
    → ((b : Text) → P (handled header_fail b))
    → ((b : Text) → P (handled tail_fail b))
    → ((b : Text) → P (answer b))
    → P (with_cseq header_fail tail_fail [] request answer)
unfolding with_cseq
with_cseq-either P header_fail tail_fail request answer no_header no_tail answers =
    started (strstr request cseq)
  where
    ended :
        (start : Text) (end : Option Text)
        → P (elim end as (λ _. Handled) [
          | none ↦ handled tail_fail (info 0 ++ info 1)
          | some ptr_end ↦
              answer (((info 0 ++ info 1) ++ take (length start - length ptr_end) start) ++ crlf)
        ])
    ended start none = no_tail (info 0 ++ info 1)
    ended start (some ptr_end) = answers _

    started :
        (found : Option Text)
        → P (elim found as (λ _. Handled) [
          | none ↦ handled header_fail (info 0 ++ info 1)
          | some ptr_start ↦ elim (strstr ptr_start crlf) as (λ _. Handled) [
            | none ↦ handled tail_fail (info 0 ++ info 1)
            | some ptr_end ↦
                answer (
                  ((info 0 ++ info 1) ++ take (length ptr_start - length ptr_end) ptr_start)
                  ++ crlf)
          ]
        ])
    started none = no_header (info 0 ++ info 1)
    started (some ptr_start) = ended ptr_start (strstr ptr_start crlf)

-- The end of a CSeq line lies behind its first six characters.
crlf_behind_cseq :
    (rest end : Text)
    → strstr (cseq ++ rest) crlf ≡ some end
    → (number : Text) × (after : Text) × (rest ≡ number ++ end) × (end ≡ crlf ++ after)
unfolding strstr is_prefix
crlf_behind_cseq rest end h = strstr-append rest crlf end h

-- The line, cut out by the difference of the two pointers.
line_cut :
    (number end : Text)
    → take (length (cseq ++ (number ++ end)) - length end) (cseq ++ (number ++ end))
      ≡ cseq ++ number
line_cut number end =
    ap (take (length (cseq ++ (number ++ end)) - length end)) (sym (append_assoc cseq number end))
    ∙ take-append (cseq ++ number) end _ (omega (arith, length-append number end))

module _ (header_fail tail_fail : ℕ) (Later : ℕ → Type 0) (request : Text) (answer : Text → Handled)
    (appends : (b : Text)
      → Later (answer b).code × ((body : Text) × ((answer b).send_buf ≡ b ++ body))) where
  pub with_cseq-Answers :
      Answers header_fail tail_fail Later request
        (with_cseq header_fail tail_fail [] request answer)
  unfolding with_cseq
  with_cseq-Answers = started (strstr request cseq) refl
    where
      opening : Text
      opening = info 0 ++ info 1

      line :
          (before rest number after : Text)
          → request ≡ before ++ (cseq ++ rest)
          → rest ≡ number ++ (crlf ++ after)
          → Answers header_fail tail_fail Later request (
              answer (
                (opening ++ take (length (cseq ++ rest) - length (crlf ++ after)) (cseq ++ rest))
                ++ crlf))
      line before rest number after e f =
          let b =
            (opening ++ take (length (cseq ++ rest) - length (crlf ++ after)) (cseq ++ rest))
            ++ crlf in
          let (later, (body, g)) = appends b in
          let cut_is : take (length (cseq ++ rest) - length (crlf ++ after)) (cseq ++ rest)
              ≡ cseq ++ number =
            ap (λ r. take (length (cseq ++ r) - length (crlf ++ after)) (cseq ++ r)) f
            ∙ line_cut number (crlf ++ after) in
          inr (
            inr (
              before,
              number,
              after,
              body,
              e
                  ∙ ap (λ r. before ++ r)
                      (ap (λ r. cseq ++ r) f ∙ sym (append_assoc cseq number (crlf ++ after))),
              g
                  ∙ ap (λ l. ((opening ++ l) ++ crlf) ++ body) cut_is
                  ∙ append_assoc (opening ++ (cseq ++ number)) crlf body
                  ∙ append_assoc opening (cseq ++ number) (crlf ++ body),
              later,
            ))

      ended :
          (before rest : Text)
          → request ≡ before ++ (cseq ++ rest)
          → strstr request cseq ≡ some (cseq ++ rest)
          → (r : Option Text) → strstr (cseq ++ rest) crlf ≡ r
          → Answers header_fail tail_fail Later request (elim r [
            | none ↦ handled tail_fail opening
            | some ptr_end ↦
                answer (
                  (opening ++ take (length (cseq ++ rest) - length ptr_end) (cseq ++ rest)) ++ crlf)
          ])
      ended before rest e s none h = inr (inl (cseq ++ rest, s, h, refl))
      ended before rest e s (some end) h =
          let (number, after, f, g) = crlf_behind_cseq rest end h in
          rw g (line before rest number after e (f ∙ ap (λ l. number ++ l) g))

      started :
          (r : Option Text)
          → strstr request cseq ≡ r
          → Answers header_fail tail_fail Later request (elim r [
            | none ↦ handled header_fail opening
            | some ptr_start ↦ elim (strstr ptr_start crlf) [
              | none ↦ handled tail_fail opening
              | some ptr_end ↦
                  answer ((opening ++ take (length ptr_start - length ptr_end) ptr_start) ++ crlf)
            ]
          ])
      started none h = inl (h, refl)
      started (some start) h =
          let (before, rest, e, f) = strstr-append request cseq start h in
          subst
            (λ st. Answers header_fail tail_fail Later request (elim (strstr st crlf) [
              | none ↦ handled tail_fail opening
              | some ptr_end ↦ answer ((opening ++ take (length st - length ptr_end) st) ++ crlf)
            ]))
            (sym f)
            (ended before rest (e ∙ ap (λ l. before ++ l) f) (h ∙ ap some f)
              (strstr (cseq ++ rest) crlf) refl)
