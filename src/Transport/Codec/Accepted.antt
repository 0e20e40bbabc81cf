-- ===== src/Transport/Codec/Accepted.antt =====
-- What a frame that `read_frame` accepts was on the channel, and what it says of a frame cut short.
use chaperone.Prelude.{
  ℕ, zero, suc, ◌≤◌, ◌<◌, ◌≡◌, ◌⊎◌, refl, ap, sym, ◌∙◌, inl, inr, true, Bytes, [], ◌∷◌, ◌++◌,
  append_assoc, append-nil, arith, length, length-append, Bool-cases, ends_with, ltb,
}
use chaperone.Prelude.Utf8.{is_utf8}
use chaperone.Prelude.Fallible.{ok, err}
use chaperone.Transport.Codec.{
  Ending, hangs_up, Read, and_then, header_loop, read_header, parse_content_length, read_exact,
  read_body, read_frame, write_frame, header_terminator, max_header_bytes, max_frame_bytes,
  header_end, header_too_large, unexpected_eof, utf8_text, FrameError,
}
use chaperone.Transport.Codec.RoundTrip.{read_frame-write_frame}

pub Read-cases {ℓ} :
    {A : Type ℓ} (r : Read A)
    → ((a : A) × (t : Bytes) × (r ≡ (ok a, t)))
      ⊎ ((e : FrameError) × (t : Bytes) × (r ≡ (err e, t)))
Read-cases (err e, t) = inr (e, t, refl)
Read-cases (ok a, t) = inl (a, t, refl)

-- A step that succeeds after another succeeds from what the other left.
and_then_succeeds {ℓ κ} :
    {A : Type ℓ} {B : Type κ} (r : Read A) (k : A → Bytes → Read B) (b : B) (left : Bytes)
    → and_then r k ≡ (ok b, left)
    → (a : A) × (t : Bytes) × (r ≡ (ok a, t)) × (k a t ≡ (ok b, left))
and_then_succeeds (err e, t) k b left h = absurd (cc h)
and_then_succeeds (ok a, t) k b left h = (a, t, refl, h)

header_accepted :
    (ending : Ending) (s buf h left : Bytes)
    → header_loop ending s buf ≡ (ok h, left)
    → (x : Bytes) × (h ≡ buf ++ x)
      × (s ≡ x ++ left)
      × (ends_with header_terminator h ≡ true)
      × (length h ≤ max_header_bytes)
unfolding header_loop
header_accepted ending [] buf h left e = absurd (cc e)
header_accepted ending (b ∷ s) buf h left e =
    elim (Bool-cases (ltb max_header_bytes (length (buf ++ (b ∷ []))))) [
      | inl big ↦ absurd (ground (arith, big))
      | inr small ↦ elim (Bool-cases (ends_with header_terminator (buf ++ (b ∷ [])))) [
        | inl done ↦ (b ∷ [], ground arith, ground arith, ground arith, ground arith)
        | inr open_line ↦
            let (x, q, r, ended, fits) =
              header_accepted ending s (buf ++ (b ∷ [])) h left (ground arith) in
            (b ∷ x, q ∙ append_assoc buf (b ∷ []) x, ap (◌∷◌ b) r, ended, fits)
      ]
    ]

body_accepted :
    (ending : Ending) (n : ℕ) (s body left : Bytes)
    → read_exact ending n s ≡ (ok body, left)
    → (s ≡ body ++ left) × (length body ≡ n)
unfolding read_exact
body_accepted ending zero s body left e = ground arith
body_accepted ending (suc n) [] body left e = absurd (cc e)
body_accepted ending (suc n) (b ∷ s) body left e =
    let (rest, t, f, g) =
      and_then_succeeds (read_exact ending n s) (λ rest left'. (ok (b ∷ rest), left')) body left
        e in
    let (q, l) = body_accepted ending n s rest t f in ground (arith, q, l)

read_body_accepted :
    (ending : Ending) (n : ℕ) (t payload left : Bytes)
    → read_body ending n t ≡ (ok payload, left)
    → (t ≡ payload ++ left)
      × (length payload ≡ n)
      × (n ≤ max_frame_bytes)
      × (is_utf8 payload ≡ true)
unfolding read_body
read_body_accepted ending n t payload left h = elim (Bool-cases (ltb max_frame_bytes n)) [
  | inl big ↦ absurd (ground (arith, big))
  | inr small ↦
      let (body, t', f, g) =
        and_then_succeeds (read_exact ending n t) (λ body left'. (utf8_text body, left')) payload
          left (ground (arith, small)) in
      elim (Bool-cases (is_utf8 body)) [
        | inl valid ↦
            let (q, size) = body_accepted ending n t body t' f in
            let same : body ≡ payload = ground (arith, valid, g) in
            (ground (arith, valid, g), rw (← same) size, ground (arith, small), rw (← same) valid)
        | inr bad ↦ absurd (ground (arith, bad, g))
      ]
]

-- A payload that `read_frame` returns stood on the channel behind a header of at most 16 KiB that
-- ends in a blank line and declares just the payload's length; the payload is UTF-8 of at most
-- 8 MiB, and what follows it is left.
pub read_frame_accepted :
    (ending : Ending) (s payload left : Bytes)
    → read_frame ending s ≡ (ok payload, left)
    → (header : Bytes) × (s ≡ header ++ (payload ++ left))
      × (ends_with header_terminator header ≡ true)
      × (length header ≤ max_header_bytes)
      × (parse_content_length header ≡ ok (length payload))
      × (length payload ≤ max_frame_bytes)
      × (is_utf8 payload ≡ true)
unfolding read_frame read_header
read_frame_accepted ending s payload left e =
    let (header, t, f, g) =
      and_then_succeeds (header_loop ending s [])
        (λ header left'. and_then (parse_content_length header, left') (read_body ending)) payload
        left e in
    let (n, t', f', g') =
      and_then_succeeds (parse_content_length header, t) (read_body ending) payload left g in
    let (x, same, split, ended, small) = header_accepted ending s [] header t f in
    let (whole, size, fits, valid) = read_body_accepted ending n t' payload left g' in
    (header, cc, ended, small, cc, rw size fits, valid)

-- What the loop made of the bytes it had, when more of them come.
data Extended (front back buf : Bytes) : Type 0 where
  read_on :
      (h left : Bytes)
      → header_loop hangs_up front buf ≡ (ok h, left)
      → header_loop hangs_up (front ++ back) buf ≡ (ok h, left ++ back)
      → Extended front back buf
  still_large :
      (left : Bytes)
      → header_loop hangs_up (front ++ back) buf ≡ (err header_too_large, left)
      → Extended front back buf
  ended :
      header_loop hangs_up front buf ≡ (err (header_end hangs_up (buf ++ front)), [])
      → Extended front back buf

extend : (front back buf : Bytes) → Extended front back buf
unfolding header_loop
extend [] back buf = ended (rw (append-nil buf) refl)
extend (b ∷ front) back buf = elim (Bool-cases (ltb max_header_bytes (length (buf ++ (b ∷ []))))) [
  | inl big ↦ still_large (front ++ back) (rw big refl)
  | inr small ↦ elim (Bool-cases (ends_with header_terminator (buf ++ (b ∷ [])))) [
    | inl done ↦ read_on (buf ++ (b ∷ [])) front (rw (small, done) refl) (rw (small, done) refl)
    | inr open_line ↦ elim (extend front back (buf ++ (b ∷ []))) [
      | read_on h left e f ↦ read_on h left (rw (small, open_line) e) (rw (small, open_line) f)
      | still_large left f ↦ still_large left (rw (small, open_line) f)
      | ended e ↦ ended (
          rw (small, open_line)
            (e
              ∙ ap (λ (t : Bytes). (err (header_end hangs_up t), []))
                  (append_assoc buf (b ∷ []) front)))
    ]
  ]
]

-- Too few bytes for the body.
read_exact_short :
    (n : ℕ) (s : Bytes) → length s < n → read_exact hangs_up n s ≡ (err unexpected_eof, [])
unfolding read_exact
read_exact_short zero s h = absurd (omega arith)
read_exact_short (suc n) [] h = refl
read_exact_short (suc n) (b ∷ s) h = rw (read_exact_short n s (omega arith)) refl

read_body_short :
    (n : ℕ) (s : Bytes)
    → length s < n
    → n ≤ max_frame_bytes
    → read_body hangs_up n s ≡ (err unexpected_eof, [])
unfolding read_body
read_body_short n s h fits = ground (arith, read_exact_short n s h)

abbrev after_header : Ending → Bytes → Bytes → Read Bytes
after_header ending header left = and_then (parse_content_length header, left) (read_body ending)

read_frame_by_header :
    (ending : Ending) (s : Bytes) (r : Read Bytes)
    → header_loop ending s [] ≡ r
    → read_frame ending s ≡ and_then r (after_header ending)
unfolding read_frame read_header
read_frame_by_header ending s r e = ap (λ (r : Read Bytes). and_then r (after_header ending)) e

-- The rest of a frame read after its header comes up short where the whole of it was just enough.
body_cut :
    (h left back payload : Bytes) (c : ℕ)
    → after_header hangs_up h (left ++ (c ∷ back)) ≡ (ok payload, [])
    → after_header hangs_up h left ≡ (err unexpected_eof, [])
body_cut h left back payload c e =
    let (n, t, f, g) =
      and_then_succeeds (parse_content_length h, left ++ (c ∷ back)) (read_body hangs_up) payload []
        e in
    let (q, size, fits, _) = read_body_accepted hangs_up n t payload [] g in
    let declared : parse_content_length h ≡ ok n = cc in
    let same : left ++ (c ∷ back) ≡ payload ++ [] = cc in
    let short : length left < n =
      omega
        (arith, size, ap length same, length-append left (c ∷ back), length-append payload []) in
    rw declared (read_body_short n left short fits)

-- A frame whose peer hangs up after some, but not all, of its bytes is an unexpected end and never
-- a message.
pub read_frame_truncated :
    (payload front back : Bytes) (b c : ℕ)
    → is_utf8 payload ≡ true
    → length payload ≤ max_frame_bytes
    → write_frame payload ≡ (b ∷ front) ++ (c ∷ back)
    → read_frame hangs_up (b ∷ front) ≡ (err unexpected_eof, [])
read_frame_truncated payload front back b c valid fits whole =
    let whole_read : read_frame hangs_up ((b ∷ front) ++ (c ∷ back)) ≡ (ok payload, []) =
      rw (← whole, ← append-nil (write_frame payload))
        (read_frame-write_frame hangs_up payload [] valid fits) in
    elim (extend (b ∷ front) (c ∷ back) []) [
      | read_on h left e f ↦
          read_frame_by_header hangs_up (b ∷ front) (ok h, left) e
          ∙ body_cut h left back payload c (
              sym (
                read_frame_by_header hangs_up ((b ∷ front) ++ (c ∷ back)) (ok h, left ++ (c ∷ back))
                  f)
              ∙ whole_read)
      | still_large left f ↦ absurd (
          cc (
            read_frame_by_header hangs_up ((b ∷ front) ++ (c ∷ back)) (err header_too_large, left)
                f,
            whole_read,
          ))
      | ended e ↦ read_frame_by_header hangs_up (b ∷ front) (err unexpected_eof, []) e
    ]
