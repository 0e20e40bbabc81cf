-- ===== src/Transport/Codec/RoundTrip.antt =====
-- What `write_frame` writes, `read_frame` reads.
use chaperone.Prelude.{
  ℕ, ◌+◌, ◌^◌, ◌≤◌, ◌<◌, ◌≡◌, ◌≢◌, refl, ap, true, some, none, Bytes, [], ◌∷◌, ◌++◌, append_assoc,
  arith, length, length-append, All-append, All_imp, ascii,
}
use chaperone.Prelude.Trim.{trim}
use chaperone.Prelude.Trim.Numeral.{trim-numeral}
use chaperone.Prelude.Decimal.{digits, IsDigit, parse_u64-digits, digits-IsNumeral, length-digits}
use chaperone.Prelude.Ascii.{
  Lacks, split_crlf-line, trim_end_matches-blank, split_once, eq_ignore_ascii_case,
}
use chaperone.Prelude.Utf8.{is_utf8, ascii-is_utf8}
use chaperone.Prelude.Fallible.{ok}
use chaperone.Transport.Codec.{
  Ending, header_line, parse_content_length, read_exact, read_body, read_frame, write_frame,
  header_terminator, max_header_bytes, max_frame_bytes,
}
use chaperone.Transport.Codec.Header.{header_one_line}

-- The header line of a body of n bytes.
abbrev pub length_line : ℕ → Bytes
length_line n = ascii "Content-Length: " ++ digits n

length_line-Lacks : (n : ℕ) → Lacks 13 (length_line n)
length_line-Lacks n =
    All-append (λ c. c ≢ 13) (ascii "Content-Length: ") (digits n) (omega arith)
      (All_imp {P = IsDigit} (λ c h. omega arith) (digits n) (digits-IsNumeral n).1)

header-is_utf8 : (n : ℕ) → is_utf8 (length_line n ++ header_terminator) ≡ true
header-is_utf8 n = ascii-is_utf8 (length_line n ++ header_terminator) (
    All-append (λ b. b < 128) (length_line n) header_terminator
      (All-append (λ b. b < 128) (ascii "Content-Length: ") (digits n) (omega arith)
        (All_imp {P = IsDigit} (λ c h. omega arith) (digits n) (digits-IsNumeral n).1))
      (omega arith))

header_line-length_line : (n : ℕ) → n < 2 ^ 64 → header_line none (length_line n) ≡ ok (some n)
unfolding header_line split_once eq_ignore_ascii_case trim
header_line-length_line n h =
    rw (trim-numeral (digits n) (digits-IsNumeral n), parse_u64-digits n h) refl

-- The header that is written gives the length back.
pub parse_content_length-length_line :
    (n : ℕ) → n < 2 ^ 64 → parse_content_length (length_line n ++ header_terminator) ≡ ok n
unfolding parse_content_length
parse_content_length-length_line n h =
    rw
      (
        header-is_utf8 n,
        trim_end_matches-blank (length_line n) (length_line-Lacks n),
        split_crlf-line b'C' (ascii "ontent-Length: " ++ digits n) (length_line-Lacks n),
        header_line-length_line n h,
      )
      refl

read_exact-append :
    (ending : Ending) (p s : Bytes) → read_exact ending (length p) (p ++ s) ≡ (ok p, s)
unfolding read_exact
read_exact-append ending [] s = refl
read_exact-append ending (b ∷ p) s = rw (read_exact-append ending p s) refl

read_body-append :
    (ending : Ending) (p s : Bytes)
    → length p ≤ max_frame_bytes
    → is_utf8 p ≡ true
    → read_body ending (length p) (p ++ s) ≡ (ok p, s)
unfolding read_body
read_body-append ending p s h valid = ground (arith, read_exact-append ending p s)

write_frame-append :
    (p s : Bytes) → write_frame p ++ s ≡ length_line (length p) ++ (header_terminator ++ (p ++ s))
unfolding write_frame
write_frame-append p s =
    ap (λ t. ascii "Content-Length: " ++ t)
      (append_assoc (digits (length p)) (header_terminator ++ p) s)

-- A UTF-8 payload of at most 8 MiB that is written as a frame is read back whole, whatever follows
-- it on the channel and however the channel ends, and just the bytes that follow it are left.
pub read_frame-write_frame :
    (ending : Ending) (payload rest : Bytes)
    → is_utf8 payload ≡ true
    → length payload ≤ max_frame_bytes
    → read_frame ending (write_frame payload ++ rest) ≡ (ok payload, rest)
unfolding read_frame
read_frame-write_frame ending payload rest valid fits =
    let n = length payload in
    let small : n < 2 ^ 64 = omega arith in
    let short : length (length_line n) + 4 ≤ max_header_bytes =
      omega (arith, length-digits n small, length-append (ascii "Content-Length: ") (digits n)) in
    rw
      (
        write_frame-append payload rest,
        header_one_line ending (length_line n) (payload ++ rest) (length_line-Lacks n) short,
        parse_content_length-length_line n small,
        read_body-append ending payload rest fits valid,
      )
      refl
