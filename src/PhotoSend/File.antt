-- ===== src/PhotoSend/File.antt =====
-- `send_photo_data` of photo_send.c: a file is read in pieces of 1400 bytes, and each is sent.
pub mod Reading
pub mod Sending
pub mod Progress
use handle_wifi_camera_itop.Common.{
  ℕ, zero, suc, ◌-◌, ◌==◌, ltb, min, if◌then◌else◌, Bool, true, false, List, [], ◌∷◌, ◌++◌, Option,
  some, none, length, take, drop, le32, htonl,
}
use handle_wifi_camera_itop.Public.ErrorCode.{
  ok, open_picture_file_fail, send_photo_data_fail, read_photo_file_fail,
}
use handle_wifi_camera_itop.NetTrans.Send.{SendReply}
use handle_wifi_camera_itop.NetTrans.Packets.{
  Echo, answered, first_of, others_of, send_packet, and_then,
}

abbrev pub max_send_photo_socket_buffer_size : ℕ
max_send_photo_socket_buffer_size = 1400

-- What the kernel answers to one `read`: up to suc n bytes (none at the end of the file), EINTR or
-- EAGAIN, or another error.
pub data ReadReply : Type 0 where
  gives : ℕ → ReadReply
  again failed : ReadReply

-- `code` is `none` while the loop still waits; `buffer` is what has been read into send_buffer,
-- `file` what is unread.
pub record ReadIn : Type 0 where
  pub code : Option ℕ
  pub buffer : List ℕ
  pub file : List ℕ
  pub reads : List ReadReply

abbrev read_in : Option ℕ → List ℕ → List ℕ → List ReadReply → ReadIn
read_in code buffer file reads = record { code = code; buffer = buffer; file = file; reads = reads }

-- The loop `while( 0 != need_read_to_buffer_length )`. A `read` of 0 bytes changes nothing, and the
-- loop goes on.
unfoldable pub read_loop : List ReadReply → List ℕ → List ℕ → ℕ → ReadIn
read_loop reads file buffer zero = read_in (some ok) buffer file reads
read_loop [] file buffer (suc need) = read_in none buffer file []
read_loop (gives n ∷ reads) file buffer (suc need) =
    let chunk = take (min (suc n) (suc need)) file in
    read_loop reads (drop (length chunk) file) (buffer ++ chunk) (suc need - length chunk)
read_loop (again ∷ reads) file buffer (suc need) = read_loop reads file buffer (suc need)
read_loop (failed ∷ reads) file buffer (suc need) =
    read_in (some read_photo_file_fail) buffer file reads

-- need_read_to_buffer_length at the head of a round.
abbrev pub need_to_send : ℕ → ℕ
need_to_send file_length_to_send =
    if ltb max_send_photo_socket_buffer_size file_length_to_send
    then max_send_photo_socket_buffer_size
    else file_length_to_send

-- What follows a read: the piece is sent, and `rest` is the next rounds.
abbrev pub send_piece : List (List SendReply) → ReadIn → ℕ → Echo → Echo
send_piece sends r need rest = elim r.code [
  | none ↦ answered none []
  | some ret ↦
      if ret == ok
      then and_then send_photo_data_fail
          (send_packet send_photo_data_fail (first_of sends) r.buffer need) rest
      else answered (some read_photo_file_fail) []
]

-- The loop `while( 0 != file_length_to_send )`. A round sends a byte at least, so that
-- file_length_to_send rounds are enough.
unfoldable pub send_rounds : ℕ → ℕ → List ReadReply → List ℕ → List (List SendReply) → Echo
unfolding read_loop
send_rounds fuel zero reads file sends = answered (some ok) []
send_rounds zero (suc left) reads file sends = answered none []
send_rounds (suc fuel) (suc left) reads file sends =
    let need = need_to_send (suc left) in
    let r = read_loop reads file [] need in
    send_piece sends r need (send_rounds fuel (suc left - need) r.reads r.file (others_of sends))

-- The size of the photograph, in network order, goes before it, unless it is 0.
unfoldable pub send_header : ℕ → List (List SendReply) → Echo
send_header photo_size sends =
    if photo_size == 0
    then answered (some ok) []
    else send_packet send_photo_data_fail (first_of sends) (le32 (htonl photo_size)) 4

abbrev pub behind_header : ℕ → List (List SendReply) → List (List SendReply)
behind_header photo_size sends = if photo_size == 0 then sends else others_of sends

-- What has become of the file: the answer, and how often the descriptor has been closed.
pub record Photo : Type 0 where
  pub echo : Echo
  pub closed : ℕ

-- Every `return` behind the `open` closes the file; a call that still waits has not.
abbrev pub closing : Echo → Photo
closing echo = record { echo = echo; closed = elim echo.code [ none ↦ 0 | some _ ↦ 1 ] }

-- `opened` says whether the file can be opened, `file` is what it holds.
unfoldable pub send_photo_data : Bool → List ReadReply → List ℕ → List (List SendReply) → ℕ → Photo
unfolding send_rounds send_header
send_photo_data false reads file sends photo_size = record {
  echo = answered (some open_picture_file_fail) [];
  closed = 0;
}
send_photo_data true reads file sends photo_size = closing (
    and_then send_photo_data_fail (send_header photo_size sends)
      (send_rounds photo_size photo_size reads file (behind_header photo_size sends)))
