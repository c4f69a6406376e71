-- ===== src/Video/Stream/Scripts.antt =====
-- The calls that the functions of the stream make, as lists.
use mathlib.Core.Path.{subst}
use handle_wifi_camera_itop.Common.{
  ℕ, zero, suc, ◌==◌, ==→eq, eq→==, if◌then◌else◌, ◌≡◌, ◌≢◌, ◌⊎◌, ◌∙◌, inl, inr, refl, sym, ap,
  Bool-cases, Bool, true, false, List, [], ◌∷◌, ◌++◌, append_assoc, append-nil,
}
use handle_wifi_camera_itop.Public.ErrorCode.{ok}
use handle_wifi_camera_itop.Video.Device.{
  DeviceCall, refused, unread, logged, Device, Done, Step, done, asks, tells, must, for_buffers,
}
use handle_wifi_camera_itop.Video.Stream.Entries.{
  Entry, asked, told, log_of, answers_to, under, log_of-append, answers_to-append, log_of-under,
  answers_to-under, under-append,
}

-- The next answer is a refusal, or there is none.
abbrev pub Refuses : List Bool → List Bool → Type 0
Refuses replies left = (replies ≡ false ∷ left) ⊎ ((replies ≡ []) × (left ≡ []))

-- The devices have accepted each call of the script that can be refused, all the calls have been
-- made, and the code is OK; or they have accepted those up to one that they refuse, the calls have
-- been made up to that one, and the code is that of the refused one.
abbrev pub Runs : List Entry → Device → Done → Type 0
Runs script d r =
    ((r.code ≡ ok)
      × (d.replies ≡ answers_to script ++ r.device.replies)
      × (r.device.calls ≡ d.calls ++ log_of script))
    ⊎ ((before : List Entry) × (c : DeviceCall) × (code : ℕ) × (after : List Entry) × (left : List
          Bool)
        × (script ≡ before ++ (asked c code ∷ after))
        × (code ≢ ok)
        × (r.code ≡ code)
        × (d.replies ≡ answers_to before ++ left)
        × Refuses left r.device.replies
        × (r.device.calls ≡ d.calls ++ (log_of before ++ ((c, refused) ∷ []))))

abbrev pub Follows : List Entry → Step → Type 0
Follows script step = (d : Device) → Runs script d (step d)

pub done-Follows : Follows [] done
done-Follows d = inl (refl, refl, sym (append-nil d.calls))

pub asks-Follows :
    (c : DeviceCall) (code : ℕ) → code ≢ ok → Follows (asked c code ∷ []) (asks c code)
unfolding asks
asks-Follows c code ne d = ends d.replies
  where
    ends :
        (replies : List Bool)
        → Runs
            (asked c code ∷ [])
            (record d { replies = replies })
            (asks c code (record d { replies = replies }))
    ends [] = inr ([], c, code, [], [], refl, ne, refl, refl, inr (refl, refl), refl)
    ends (true ∷ replies) = inl (refl, refl, refl)
    ends (false ∷ replies) =
        inr ([], c, code, [], false ∷ replies, refl, ne, refl, refl, inl refl, refl)

-- A script behind calls that have been made.
behind :
    (made : List Entry) (script : List Entry) (d d' : Device) (r : Done)
    → d.replies ≡ answers_to made ++ d'.replies
    → d'.calls ≡ d.calls ++ log_of made
    → Runs script d' r
    → Runs (made ++ script) d r
behind made script d d' r g e (inl (k, a, h)) = inl (
  k,
  g ∙ ap (λ l. answers_to made ++ l) a ∙ sym (answers_to-append made script r.device.replies),
  h
      ∙ ap (λ l. l ++ log_of script) e
      ∙ append_assoc d.calls (log_of made) (log_of script)
      ∙ ap (λ l. d.calls ++ l) (sym (log_of-append made script)),
)
behind made script d d' r g e (inr (before, c, code, after, left, s, ne, k, a, stop, h)) = inr (
  made ++ before,
  c,
  code,
  after,
  left,
  ap (λ l. made ++ l) s ∙ sym (append_assoc made before (asked c code ∷ after)),
  ne,
  k,
  g ∙ ap (λ l. answers_to made ++ l) a ∙ sym (answers_to-append made before left),
  stop,
  h
      ∙ ap (λ l. l ++ (log_of before ++ ((c, refused) ∷ []))) e
      ∙ append_assoc d.calls (log_of made) (log_of before ++ ((c, refused) ∷ []))
      ∙ ap (λ l. d.calls ++ l)
          (sym (append_assoc (log_of made) (log_of before) ((c, refused) ∷ []))
            ∙ ap (λ l. l ++ ((c, refused) ∷ [])) (sym (log_of-append made before))),
)

pub tells-Follows :
    (c : DeviceCall) (script : List Entry) (rest : Step)
    → Follows script rest
    → Follows (told c ∷ script) (tells c rest)
unfolding tells
tells-Follows c script rest h d =
    let d' = logged c unread d.replies d in
    behind (told c ∷ []) script d d' (rest d') refl refl (h d')

-- Where `must` goes on, and where it stops.
must_on :
    (fail : ℕ) (step rest : Step) (d : Device)
    → (step d).code ≡ ok
    → must fail step rest d ≡ rest (step d).device
unfolding must
must_on fail step rest d k =
    ap
      (λ (b : Bool).
        if b then rest (step d).device else record { code = fail; device = (step d).device })
      (eq→== (step d).code ok k)

must_off :
    (fail : ℕ) (step rest : Step) (d : Device)
    → (step d).code ≢ ok
    → must fail step rest d ≡ record { code = fail; device = (step d).device }
unfolding must
must_off fail step rest d ne = elim (Bool-cases ((step d).code == ok)) [
  | inl same ↦ absurd (ne (==→eq (step d).code ok same))
  | inr other ↦
      ap
        (λ (b : Bool).
          if b then rest (step d).device else record { code = fail; device = (step d).device })
        other
]

pub must-Follows :
    (fail : ℕ) (script others : List Entry) (step rest : Step)
    → fail ≢ ok
    → Follows script step
    → Follows others rest
    → Follows (under fail script ++ others) (must fail step rest)
unfolding must
must-Follows fail script others step rest ne h g d = ends (h d)
  where
    ends : Runs script d (step d) → Runs (under fail script ++ others) d (must fail step rest d)
    ends (inl (k, a, e)) =
        subst (λ r. Runs (under fail script ++ others) d r) (sym (must_on fail step rest d k))
          (behind (under fail script) others d (step d).device (rest (step d).device)
            (a ∙ ap (λ l. l ++ (step d).device.replies) (sym (answers_to-under fail script)))
            (e ∙ ap (λ l. d.calls ++ l) (sym (log_of-under fail script))) (g (step d).device))
    ends (inr (before, c, code, after, left, s, n, k, a, stop, e)) =
        subst (λ r. Runs (under fail script ++ others) d r)
          (sym (must_off fail step rest d (λ z. n (sym k ∙ z))))
          (inr (
            under fail before,
            c,
            fail,
            under fail after ++ others,
            left,
            ap (λ l. under fail l ++ others) s
                ∙ ap (λ l. l ++ others) (under-append fail before (asked c code ∷ after))
                ∙ append_assoc (under fail before) (asked c fail ∷ under fail after) others,
            ne,
            refl,
            a ∙ ap (λ l. l ++ left) (sym (answers_to-under fail before)),
            stop,
            e ∙ ap (λ l. d.calls ++ (l ++ ((c, refused) ∷ []))) (sym (log_of-under fail before)),
          ))

-- The entries of each buffer from the i-th on.
abbrev pub for_each : (ℕ → List Entry) → ℕ → ℕ → List Entry → List Entry
for_each entries zero i script = script
for_each entries (suc n) i script = entries i ++ for_each entries n (suc i) script

pub for_buffers-Follows :
    (step : ℕ → Step → Step) (entries : ℕ → List Entry)
    → ((i : ℕ) (script : List Entry) (rest : Step)
        → Follows script rest
        → Follows (entries i ++ script) (step i rest))
    → (n i : ℕ) (script : List Entry) (rest : Step) → Follows script rest
    → Follows (for_each entries n i script) (for_buffers step n i rest)
unfolding for_buffers
for_buffers-Follows step entries h zero i script rest g = g
for_buffers-Follows step entries h (suc n) i script rest g =
    h i (for_each entries n (suc i) script) (for_buffers step n (suc i) rest)
      (for_buffers-Follows step entries h n (suc i) script rest g)
