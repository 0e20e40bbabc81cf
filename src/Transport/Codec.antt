-- ===== src/Transport/Codec.antt =====
-- crates/transport/src/codec.rs: the Content-Length frames. A reader is the list of the bytes that
-- the peer sends, with what the channel does after them; a call returns the bytes that it leaves.
pub mod Header
pub mod RoundTrip
pub mod Bounded
pub mod Accepted
use chaperone.Prelude.{
  ℕ, zero, suc, ◌^◌, Bytes, List, [], ◌∷◌, ◌++◌, Bool, true, false, Option, none, some, ascii,
  length, is_empty, ends_with, ltb, if◌then◌else◌,
}
use chaperone.Prelude.Trim.{trim}
use chaperone.Prelude.Decimal.{digits, parse_u64}
use chaperone.Prelude.Ascii.{split_crlf, split_once, trim_end_matches, eq_ignore_ascii_case}
use chaperone.Prelude.Utf8.{is_utf8}
use chaperone.Prelude.Fallible.{Fallible, err, ok, ensure, ◌>>=◌, ◌>>◌}

abbrev pub max_frame_bytes : ℕ
max_frame_bytes = 8388608

abbrev pub max_header_bytes : ℕ
max_header_bytes = 16384

abbrev pub header_terminator : Bytes
header_terminator = 13 ∷ 10 ∷ 13 ∷ 10 ∷ []

pub data FrameError : Type 0 where
  closed : FrameError
  io : FrameError
  malformed_header : Bytes → FrameError
  header_too_large : FrameError
  frame_too_large : ℕ → FrameError
  unexpected_eof : FrameError
  invalid_utf8 : FrameError

-- `fmt`, less the text of an error of the operating system.
unfoldable pub display : FrameError → Bytes
display closed = ascii "connection closed"
display io = ascii "transport i/o error: "
display (malformed_header why) = ascii "malformed frame header: " ++ why
display header_too_large = ascii "frame header exceeds 16384 bytes"
display (frame_too_large n) =
    ascii "declared frame of " ++ (digits n ++ ascii " bytes exceeds hard limit of 8388608")
display unexpected_eof = ascii "connection ended mid-frame"
display invalid_utf8 = ascii "frame body is not valid UTF-8"

abbrev pub Result {ℓ} : Type ℓ → Type ℓ
Result A = Fallible FrameError A

-- What the channel does when the bytes are used up: a zero-byte read, or an error.
pub data Ending : Type 0 where
  hangs_up : Ending
  fails : Ending

abbrev pub Read {ℓ} : Type ℓ → Type ℓ
Read A = Result A × Bytes

abbrev pub and_then {ℓ κ} : {A : Type ℓ} {B : Type κ} → Read A → (A → Bytes → Read B) → Read B
and_then (err e, left) k = (err e, left)
and_then (ok a, left) k = k a left

abbrev pub header_end : Ending → Bytes → FrameError
header_end fails buf = io
header_end hangs_up buf = if is_empty buf then closed else unexpected_eof

-- The loop of `read_header` with its buffer; a round takes a byte, so it ends.
unfoldable pub header_loop : Ending → Bytes → Bytes → Read Bytes
header_loop ending [] buf = (err (header_end ending buf), [])
header_loop ending (b ∷ s) buf =
    let buf' = buf ++ (b ∷ []) in
    let rest = header_loop ending s buf' in
    if ltb max_header_bytes (length buf')
    then (err header_too_large, s)
    else (if ends_with header_terminator buf' then (ok buf', s) else rest)

unfoldable pub read_header : Ending → Bytes → Read Bytes
unfolding header_loop
read_header ending s = header_loop ending s []

abbrev pub or_malformed {ℓ} : {A : Type ℓ} → Option A → Bytes → Result A
or_malformed none why = err (malformed_header why)
or_malformed (some a) why = ok a

-- `content_length.replace(parsed).is_some()`
abbrev set_once : Option ℕ → ℕ → Result (Option ℕ)
set_once none n = ok (some n)
set_once (some m) n = err (malformed_header (ascii "duplicate content-length"))

-- One line, with the value found before it.
unfoldable pub header_line : Option ℕ → Bytes → Result (Option ℕ)
header_line found [] = ok found
header_line found (b ∷ line) = do
  (name, value) ← or_malformed (split_once b':' (b ∷ line)) (ascii "line without ':' separator")
  let parsed = do
    n ← or_malformed (parse_u64 (trim value)) (ascii "content-length is not a number")
    set_once found n
  if eq_ignore_ascii_case (trim name) (ascii "content-length") then parsed else ok found

unfoldable pub header_lines : Option ℕ → List Bytes → Result (Option ℕ)
unfolding header_line
header_lines found [] = ok found
header_lines found (line ∷ lines) = do found' ← header_line found line; header_lines found' lines

unfoldable pub parse_content_length : Bytes → Result ℕ
unfolding header_lines
parse_content_length header = do
  ensure (malformed_header (ascii "header block is not ASCII")) (is_utf8 header)
  found ← header_lines none (split_crlf (trim_end_matches header_terminator header))
  or_malformed found (ascii "missing content-length")

-- `read_exact` of n bytes; what it has read before the end is lost.
unfoldable pub read_exact : Ending → ℕ → Bytes → Read Bytes
read_exact ending zero s = (ok [], s)
read_exact ending (suc n) [] = (err (elim ending [ hangs_up ↦ unexpected_eof | fails ↦ io ]), [])
read_exact ending (suc n) (b ∷ s) =
    and_then (read_exact ending n s) (λ body left. (ok (b ∷ body), left))

abbrev pub utf8_text : Bytes → Result Bytes
utf8_text body = if is_utf8 body then ok body else err invalid_utf8

unfoldable pub read_body : Ending → ℕ → Bytes → Read Bytes
unfolding read_exact
read_body ending n left =
    if ltb max_frame_bytes n
    then (err (frame_too_large n), left)
    else and_then (read_exact ending n left) (λ body left'. (utf8_text body, left'))

unfoldable pub read_frame : Ending → Bytes → Read Bytes
unfolding read_header parse_content_length read_body
read_frame ending s =
    and_then (read_header ending s)
      (λ header left. and_then (parse_content_length header, left) (read_body ending))

-- The bytes that `write_frame` writes.
unfoldable pub write_frame : Bytes → Bytes
write_frame payload =
    ascii "Content-Length: " ++ (digits (length payload) ++ (header_terminator ++ payload))
