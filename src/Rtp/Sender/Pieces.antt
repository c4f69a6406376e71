-- ===== src/Rtp/Sender/Pieces.antt =====
-- FU-A fragments as a receiver sees them: the row of datagrams for the pieces of a NALU.
use mathlib.Core.List.{flatten}
use handle_wifi_camera_itop.Common.{
  ℕ, zero, suc, ◌+◌, ◌*◌, ◌%◌, ◌≤◌, ◌<◌, ◌≡◌, refl, sym, ap, ◌∙◌, List, [], ◌∷◌, ◌++◌, append_assoc,
  append-nil, arith, length, take, drop, take-add, drop-drop, length-take, length-drop, Bool, true,
  false,
}
use handle_wifi_camera_itop.Rtp.Packet.{payload_max_size, header_bytes}
use handle_wifi_camera_itop.Rtp.Sender.{next_seq, rtp_header}

-- One fragment on the wire: header, indicator, FU header with the start and end bits, and a piece.
abbrev pub fu_datagram : ℕ → ℕ → ℕ → ℕ → ℕ → List ℕ → List ℕ
fu_datagram first time_stamp start last seq piece =
    (header_bytes (rtp_header last seq time_stamp)
      ++ ((28 + first % 4 * 32 + first % 2 * 128) ∷ (first % 32 + last * 64 + start * 128) ∷ []))
    ++ piece

-- A row of fragments for the pieces: consecutive sequence numbers, the start bit on the first piece
-- of all and the end and marker bits on a piece with none behind it (`more` says that others follow).
abbrev pub last_flag : List (List ℕ) → Bool → ℕ
last_flag [] false = 1
last_flag [] true = 0
last_flag (_ ∷ _) more = 0

abbrev pub fu_row : ℕ → ℕ → Bool → ℕ → ℕ → List (List ℕ) → List (List ℕ)
fu_row first time_stamp more start seq [] = []
fu_row first time_stamp more start seq (piece ∷ pieces) =
    fu_datagram first time_stamp start (last_flag pieces more) seq piece
    ∷ fu_row first time_stamp more 0 (next_seq seq) pieces

abbrev pub advance : ℕ → List (List ℕ) → ℕ
advance seq [] = seq
advance seq (_ ∷ pieces) = advance (next_seq seq) pieces

pub advance_snoc :
    (seq : ℕ) (ps : List (List ℕ)) (q : List ℕ)
    → advance seq (ps ++ (q ∷ [])) ≡ next_seq (advance seq ps)
advance_snoc seq [] q = refl
advance_snoc seq (p ∷ ps) q = advance_snoc (next_seq seq) ps q

-- The whole slices of the buffer from an offset on.
abbrev pub slices : List ℕ → ℕ → ℕ → List (List ℕ)
slices nalu_buf zero offset = []
slices nalu_buf (suc left) offset =
    take payload_max_size (drop (1 + offset) nalu_buf)
    ∷ slices nalu_buf left (offset + payload_max_size)

pub fu_row-append :
    (first time_stamp start seq : ℕ) (p : List ℕ) (ps : List (List ℕ)) (q : List ℕ)
    → fu_row first time_stamp true start seq (p ∷ ps)
        ++ (fu_datagram first time_stamp 0 1 (advance seq (p ∷ ps)) q ∷ [])
      ≡ fu_row first time_stamp false start seq ((p ∷ ps) ++ (q ∷ []))
fu_row-append first time_stamp start seq p [] q = refl
fu_row-append first time_stamp start seq p (p' ∷ ps) q =
    ap (λ l. fu_datagram first time_stamp start 0 seq p ∷ l)
      (fu_row-append first time_stamp 0 (next_seq seq) p' ps q)

pub flatten-slices :
    (nalu_buf : List ℕ) (left offset : ℕ)
    → flatten (slices nalu_buf left offset)
      ≡ take (left * payload_max_size) (drop (1 + offset) nalu_buf)
unfolding flatten
flatten-slices nalu_buf zero offset = refl
flatten-slices nalu_buf (suc left) offset =
    ap (λ l. take payload_max_size (drop (1 + offset) nalu_buf) ++ l)
      (flatten-slices nalu_buf left (offset + payload_max_size)
        ∙ ap (take (left * payload_max_size)) (
            ap (λ k. drop k nalu_buf) (omega arith)
            ∙ sym (drop-drop payload_max_size (1 + offset) nalu_buf)))
    ∙ take-add payload_max_size (left * payload_max_size) (drop (1 + offset) nalu_buf)
    ∙ ap (λ k. take k (drop (1 + offset) nalu_buf)) (omega arith)

pub flatten_snoc : (ps : List (List ℕ)) (q : List ℕ) → flatten (ps ++ (q ∷ [])) ≡ flatten ps ++ q
unfolding flatten
flatten_snoc [] q = append-nil q
flatten_snoc (p ∷ ps) q = ap (λ l. p ++ l) (flatten_snoc ps q) ∙ sym (append_assoc p (flatten ps) q)

-- Every piece has 1400 bytes, but the last may be shorter, and is not empty.
abbrev pub FullButLast : List (List ℕ) → Type 0
FullButLast [] = ⊥
FullButLast (p ∷ []) = (0 < length p) × (length p ≤ payload_max_size)
FullButLast (p ∷ q ∷ ps) = (length p ≡ payload_max_size) × FullButLast (q ∷ ps)

pub FullButLast-slices :
    (nalu_buf : List ℕ) (left offset : ℕ)
    → 1 + offset + suc left * payload_max_size ≤ length nalu_buf
    → FullButLast (slices nalu_buf (suc left) offset)
FullButLast-slices nalu_buf zero offset h = omega (
  arith,
  length-take payload_max_size (drop (1 + offset) nalu_buf),
  length-drop (1 + offset) nalu_buf,
)
FullButLast-slices nalu_buf (suc left) offset h = (
  omega (
    arith,
    length-take payload_max_size (drop (1 + offset) nalu_buf),
    length-drop (1 + offset) nalu_buf,
  ),
  FullButLast-slices nalu_buf left (offset + payload_max_size) (omega arith),
)

pub FullButLast-snoc :
    (nalu_buf : List ℕ) (left offset : ℕ) (q : List ℕ)
    → 1 + offset + left * payload_max_size ≤ length nalu_buf
    → 0 < length q
    → length q ≤ payload_max_size
    → FullButLast (slices nalu_buf left offset ++ (q ∷ []))
FullButLast-snoc nalu_buf zero offset q h l u = (l, u)
FullButLast-snoc nalu_buf (suc zero) offset q h l u = (
  omega (
    arith,
    length-take payload_max_size (drop (1 + offset) nalu_buf),
    length-drop (1 + offset) nalu_buf,
  ),
  FullButLast-snoc nalu_buf zero (offset + payload_max_size) q (omega arith) l u,
)
FullButLast-snoc nalu_buf (suc (suc left)) offset q h l u = (
  omega (
    arith,
    length-take payload_max_size (drop (1 + offset) nalu_buf),
    length-drop (1 + offset) nalu_buf,
  ),
  FullButLast-snoc nalu_buf (suc left) (offset + payload_max_size) q (omega arith) l u,
)
