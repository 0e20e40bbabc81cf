-- ===== src/Examples/Wire.antt =====
-- Frames and a connection (crates/transport) on concrete bytes.
use chaperone.Prelude.{
  ℕ, suc, ◌+◌, ◌≤◌, ◌≡◌, refl, Bytes, [], ◌∷◌, ◌++◌, true, none, some, ascii, arith, length,
  ends_with,
}
use chaperone.Prelude.Utf8.{is_utf8, ascii-is_utf8}
use chaperone.Prelude.Decimal.{digits}
use chaperone.Prelude.Fallible.{ok, err}
use chaperone.Transport.Codec.{
  hangs_up, fails, read_frame, write_frame, parse_content_length, header_terminator,
  max_header_bytes, max_frame_bytes, unexpected_eof,
}
use chaperone.Transport.Codec.RoundTrip.{read_frame-write_frame}
use chaperone.Transport.Codec.Bounded.{Takes, read_frame-Takes}
use chaperone.Transport.Codec.Accepted.{read_frame_accepted, read_frame_truncated}
use chaperone.Transport.Message.{Json}
use chaperone.Transport.Server.{Peer, drive_connection}
use chaperone.Transport.Server.Pipeline.{
  frames, handle_texts, drive_connection-frames, IsOver, drive_connection-IsOver,
}

abbrev payload : Bytes
payload = ascii "{}"

valid : is_utf8 payload ≡ true
valid = ascii-is_utf8 payload (omega arith)

read_frame-write_frame_example :
    read_frame fails (write_frame payload ++ ascii "next") ≡ (ok payload, ascii "next")
read_frame-write_frame_example =
    read_frame-write_frame fails payload (ascii "next") valid (omega arith)

read_frame-Takes_example :
    Takes
      (suc max_header_bytes + max_frame_bytes)
      (ascii "no frame")
      (read_frame hangs_up (ascii "no frame")).1
read_frame-Takes_example = read_frame-Takes hangs_up (ascii "no frame")

frame_read : read_frame fails (write_frame payload ++ ascii "next") ≡ (ok payload, ascii "next")
frame_read = read_frame-write_frame fails payload (ascii "next") valid (omega arith)

read_frame_accepted_example :
    (header : Bytes) × (write_frame payload ++ ascii "next" ≡ header ++ (payload ++ ascii "next"))
    × (ends_with header_terminator header ≡ true)
    × (length header ≤ max_header_bytes)
    × (parse_content_length header ≡ ok (length payload))
    × (length payload ≤ max_frame_bytes)
    × (is_utf8 payload ≡ true)
read_frame_accepted_example =
    read_frame_accepted fails (write_frame payload ++ ascii "next") payload (ascii "next")
      frame_read

frame_cut :
    write_frame payload
    ≡ (b'C' ∷ (ascii "ontent-Length: 2" ++ (header_terminator ++ ascii "{"))) ++ (b'}' ∷ [])
unfolding write_frame digits
frame_cut = refl

read_frame_truncated_example :
    read_frame hangs_up (ascii "Content-Length: 2" ++ (header_terminator ++ ascii "{"))
    ≡ (err unexpected_eof, [])
read_frame_truncated_example =
    read_frame_truncated payload (ascii "ontent-Length: 2" ++ (header_terminator ++ ascii "{")) []
      b'C' b'}' valid (omega arith) frame_cut

abbrev json : Json
json = record {
  Value = Bytes;
  from_str = λ t. ok t;
  to_vec = λ v. some v;
  is_object = λ v. true;
  str_field = λ v k. none;
  set_field = λ v k t. v;
  object = λ fields. ascii "error";
}

abbrev peer : Peer json ℕ
peer = record {
  handler = λ n request. (n + 1, request.value);
  has_observer = true;
  delivers = λ k. true;
}

drive_connection-frames_example :
    drive_connection json ℕ peer 3 hangs_up (frames (payload ∷ payload ∷ []) ++ []) 0 0
    ≡ handle_texts peer (drive_connection json ℕ peer 1 hangs_up []) (payload ∷ payload ∷ []) 0 0
drive_connection-frames_example =
    drive_connection-frames peer hangs_up (payload ∷ payload ∷ []) [] 1 0 0
      ((valid, omega arith), ((valid, omega arith), tt))

drive_connection-IsOver_example :
    IsOver {json = json} peer (drive_connection json ℕ peer 9 hangs_up (ascii "no frame") 0 0)
drive_connection-IsOver_example =
    drive_connection-IsOver peer 9 hangs_up (ascii "no frame") 0 0 (omega arith)
