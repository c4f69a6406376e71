-- ===== src/Video/Stream/Entries.antt =====
-- Lists of calls, their log and the answers that they read.
use handle_wifi_camera_itop.Common.{
  ℕ, ◌≡◌, refl, ap, Bool, true, List, [], ◌∷◌, ◌++◌, Option, some, none,
}
use handle_wifi_camera_itop.Video.Device.{DeviceCall, Reply, accepted, unread}

-- A call, with the code that is returned if it is refused; `none` if its answer is not looked at.
pub record Entry : Type 0 where
  pub call : DeviceCall
  pub code : Option ℕ

abbrev pub asked : DeviceCall → ℕ → Entry
asked c code = record { call = c; code = some code }

abbrev pub told : DeviceCall → Entry
told c = record { call = c; code = none }

-- The log of a script that nobody refuses, and the answers that it reads.
abbrev pub log_of : List Entry → List (DeviceCall × Reply)
log_of [] = []
log_of (e ∷ es) = (e.call, elim e.code [ none ↦ unread | some _ ↦ accepted ]) ∷ log_of es

abbrev pub answers_to : List Entry → List Bool
answers_to [] = []
answers_to (e ∷ es) = elim e.code [ none ↦ answers_to es | some _ ↦ true ∷ answers_to es ]

-- The same calls under the code of the caller.
abbrev pub under : ℕ → List Entry → List Entry
under fail [] = []
under fail (e ∷ es) =
    record { call = e.call; code = elim e.code [ none ↦ none | some _ ↦ some fail ] }
    ∷ under fail es

pub log_of-append : (es fs : List Entry) → log_of (es ++ fs) ≡ log_of es ++ log_of fs
log_of-append [] fs = refl
log_of-append (e ∷ es) fs =
    ap (λ l. (e.call, elim e.code [ none ↦ unread | some _ ↦ accepted ]) ∷ l) (log_of-append es fs)

pub answers_to-append :
    (es fs : List Entry) (rest : List Bool)
    → answers_to (es ++ fs) ++ rest ≡ answers_to es ++ (answers_to fs ++ rest)
answers_to-append [] fs rest = refl
answers_to-append (e ∷ es) fs rest = ends e.code (answers_to-append es fs rest)
  where
    ends :
        (code : Option ℕ)
        → answers_to (es ++ fs) ++ rest ≡ answers_to es ++ (answers_to fs ++ rest)
        → elim code as (λ _. List Bool) [
          | none ↦ answers_to (es ++ fs)
          | some _ ↦ true ∷ answers_to (es ++ fs)
        ]
            ++ rest
          ≡ elim code as (λ _. List Bool) [ none ↦ answers_to es | some _ ↦ true ∷ answers_to es ]
            ++ (answers_to fs ++ rest)
    ends none ih = ih
    ends (some c) ih = ap (λ l. true ∷ l) ih

pub log_of-under : (fail : ℕ) (es : List Entry) → log_of (under fail es) ≡ log_of es
log_of-under fail [] = refl
log_of-under fail (e ∷ es) = ends e.code (log_of-under fail es)
  where
    ends :
        (code : Option ℕ)
        → log_of (under fail es) ≡ log_of es
        → log_of (under fail (record e { code = code } ∷ es))
          ≡ log_of (record e { code = code } ∷ es)
    ends none ih = ap (λ l. (e.call, unread) ∷ l) ih
    ends (some c) ih = ap (λ l. (e.call, accepted) ∷ l) ih

pub answers_to-under : (fail : ℕ) (es : List Entry) → answers_to (under fail es) ≡ answers_to es
answers_to-under fail [] = refl
answers_to-under fail (e ∷ es) = ends e.code (answers_to-under fail es)
  where
    ends :
        (code : Option ℕ)
        → answers_to (under fail es) ≡ answers_to es
        → answers_to (under fail (record e { code = code } ∷ es))
          ≡ answers_to (record e { code = code } ∷ es)
    ends none ih = ih
    ends (some c) ih = ap (λ l. true ∷ l) ih

pub under-append :
    (fail : ℕ) (es fs : List Entry) → under fail (es ++ fs) ≡ under fail es ++ under fail fs
under-append fail [] fs = refl
under-append fail (e ∷ es) fs =
    ap (λ l. record { call = e.call; code = elim e.code [ none ↦ none | some _ ↦ some fail ] } ∷ l)
      (under-append fail es fs)
