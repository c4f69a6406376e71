-- ===== src/Rtsp/Search/Port.antt =====
-- Which port `get_port` of rtsp.c reads.
use handle_wifi_camera_itop.Common.{
  ℕ, ◌%◌, ◌^◌, ◌<◌, ◌≡◌, ◌≢◌, refl, sym, ap, ◌∙◌, false, [], ◌∷◌, ◌++◌, append-nil, Option, some,
  none, arith, Text, codes, decimal, strtoul, is_prefix, span_ne, drop, Bool, if◌then◌else◌,
}
use handle_wifi_camera_itop.Common.Strings.Decimals.{
  Lacks, strtoul-decimal, stops_at_end, decimal-Lacks, decimal_nonempty, span_ne-append,
}
use handle_wifi_camera_itop.Public.ErrorCode.{ok, sscanf_client_port_fail}
use handle_wifi_camera_itop.Rtsp.Search.{scan_port, get_port}

-- What is stored of the bytes behind the '='.
stored : Text → Option Text
stored digits = elim digits [ [] ↦ none | d ∷ ds ↦ some (d ∷ ds) ]

stored-some : (digits : Text) → digits ≢ [] → stored digits ≡ some digits
unfolding stored
stored-some [] k = absurd (k refl)
stored-some (d ∷ ds) k = refl

-- `scan_port` from what stands before the first '_' and the rest, and from the bytes behind the '='.
from_digits : Text × Text → Text × Text → Option Text
unfolding stored
from_digits (skipped, rest) (digits, after) = elim skipped [
  | [] ↦ none
  | c ∷ more ↦ if is_prefix (codes "_port=") rest then stored digits else none
]

from_parts : Text × Text → Option Text
from_parts parts = from_digits parts (span_ne b'-' (drop 6 parts.1))

scan_port_parts : (text : Text) → scan_port text ≡ from_parts (span_ne b'_' text)
unfolding scan_port from_parts from_digits stored
scan_port_parts text = refl

module _ (c : ℕ) (before : Text) (no_underscore : Lacks b'_' (c ∷ before)) where
  scan_port-decimal :
      (digits tail : Text)
      → digits ≢ []
      → Lacks b'-' digits
      → scan_port ((c ∷ before) ++ (codes "_port=" ++ (digits ++ (b'-' ∷ tail)))) ≡ some digits
  unfolding from_parts from_digits is_prefix
  scan_port-decimal digits tail k lacks =
      let behind : Text = codes "port=" ++ (digits ++ (b'-' ∷ tail)) in
      scan_port_parts ((c ∷ before) ++ (b'_' ∷ behind))
      ∙ ap from_parts (span_ne-append b'_' (c ∷ before) behind no_underscore)
      ∙ ap (from_digits (c ∷ before, b'_' ∷ behind)) (span_ne-append b'-' digits tail lacks)
      ∙ stored-some digits k

  scan_port_other :
      (rest : Text)
      → is_prefix (codes "_port=") (b'_' ∷ rest) ≡ false
      → scan_port ((c ∷ before) ++ (b'_' ∷ rest)) ≡ none
  unfolding from_parts from_digits
  scan_port_other rest other =
      let digits = span_ne b'-' (drop 6 (b'_' ∷ rest)) in
      scan_port_parts ((c ∷ before) ++ (b'_' ∷ rest))
      ∙ ap from_parts (span_ne-append b'_' (c ∷ before) rest no_underscore)
      ∙ ap (λ (b : Bool). if b then stored digits.0 else none) other

  -- The first '_' of a request, with something before it, decides: if `_port=` stands there and then
  -- a decimal number below 2^16 and a '-', get_port returns OK and the number; if anything but
  -- `_port=` stands there, it fails, whatever port is named behind it.
  pub get_port-Reads :
      (port : ℕ) (tail rest : Text)
      → port < 2 ^ 16
      → is_prefix (codes "_port=") (b'_' ∷ rest) ≡ false
      → (get_port ((c ∷ before) ++ (codes "_port=" ++ (decimal port ++ (b'-' ∷ tail))))
          ≡ (ok, some port))
        × (get_port ((c ∷ before) ++ (b'_' ∷ rest)) ≡ (sscanf_client_port_fail, none))
  unfolding get_port
  get_port-Reads port tail rest h other =
      let number : strtoul (decimal port) % 2 ^ 16 ≡ port =
        ap (λ l. strtoul l % 2 ^ 16) (sym (append-nil (decimal port)))
        ∙ ap (λ n. n % 2 ^ 16) (strtoul-decimal port [] (omega arith) stops_at_end)
        ∙ omega arith in
      (
        rw
            (
              get_port,
              scan_port-decimal (decimal port) tail (decimal_nonempty port) (decimal-Lacks port),
            )
            (ap (λ (n : ℕ). (ok, some n)) number),
        rw (get_port, scan_port_other rest other) refl,
      )
