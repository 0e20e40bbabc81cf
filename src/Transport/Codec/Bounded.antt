-- ===== src/Transport/Codec/Bounded.antt =====
-- What `read_frame` takes from the channel, whatever the peer sends.
use chaperone.Prelude.{
  ℕ, zero, suc, ◌+◌, ◌≤◌, ◌≡◌, refl, ap, sym, ◌∙◌, inl, inr, true, Bytes, [], ◌∷◌, ◌++◌,
  append_assoc, arith, length, length-append, Bool-cases, if-either, ltb, ends_with,
}
use chaperone.Prelude.Fallible.{ok, err}
use chaperone.Transport.Codec.{
  Ending, Read, and_then, utf8_text, header_loop, read_header, parse_content_length, read_exact,
  read_body, read_frame, header_terminator, max_header_bytes, max_frame_bytes,
}

-- At most k of the bytes s are taken, from the front.
abbrev pub Takes : ℕ → Bytes → Bytes → Type 0
Takes k s left = (x : Bytes) × (s ≡ x ++ left) × (length x ≤ k)

Takes-one : (k b : ℕ) (s left : Bytes) → Takes k s left → Takes (suc k) (b ∷ s) left
Takes-one k b s left (x, e, l) = (b ∷ x, ap (◌∷◌ b) e, omega arith)

Takes-first : (k b : ℕ) (s : Bytes) → Takes (suc k) (b ∷ s) s
Takes-first k b s = (b ∷ [], refl, omega arith)

Takes-both : (m n : ℕ) (s t left : Bytes) → Takes m s t → Takes n t left → Takes (m + n) s left
Takes-both m n s t left (x, e, l) (y, f, l') = (
  x ++ y,
  e ∙ (ap (◌++◌ x) f ∙ sym (append_assoc x y left)),
  omega (arith, l, l', length-append x y),
)

-- Steps one after the other take at most what both take.
Takes-then {ℓ κ} :
    {A : Type ℓ} {B : Type κ} (m n : ℕ) (s : Bytes) (r : Read A) (k : A → Bytes → Read B)
    → Takes m s r.1
    → ((a : A) (t : Bytes) → Takes n t (k a t).1)
    → Takes (m + n) s (and_then r k).1
Takes-then m n s (err e, t) k (x, q, l) h = (x, q, omega arith)
Takes-then m n s (ok a, t) k first h = Takes-both m n s t (k a t).1 first (h a t)

header-Takes :
    (ending : Ending) (s buf : Bytes) (k : ℕ)
    → length buf + k ≡ max_header_bytes
    → Takes (suc k) s (header_loop ending s buf).1
unfolding header_loop
header-Takes ending [] buf k h = ([], refl, omega arith)
header-Takes ending (b ∷ s) buf zero h =
    let long = length-append buf (b ∷ []) in
    let full : ltb max_header_bytes (length (buf ++ (b ∷ []))) ≡ true = ground (arith, long) in
    rw full (Takes-first zero b s)
header-Takes ending (b ∷ s) buf (suc k) h =
    let buf' = buf ++ (b ∷ []) in
    let rest = header_loop ending s buf' in
    let later = header-Takes ending s buf' k (omega (arith, h, length-append buf (b ∷ []))) in
    let Stops = λ (r : Read Bytes). Takes (suc (suc k)) (b ∷ s) r.1 in
    if-either Stops (ltb max_header_bytes (length buf')) (Takes-first (suc k) b s) (
      if-either Stops (ends_with header_terminator buf') (Takes-first (suc k) b s)
        (Takes-one (suc k) b s rest.1 later))

read_exact-Takes : (ending : Ending) (n : ℕ) (s : Bytes) → Takes n s (read_exact ending n s).1
unfolding read_exact
read_exact-Takes ending zero s = ([], refl, omega arith)
read_exact-Takes ending (suc n) [] = ([], refl, omega arith)
read_exact-Takes ending (suc n) (b ∷ s) =
    Takes-one n b s (read_exact ending (suc n) (b ∷ s)).1
      (same (read_exact ending n s) (read_exact-Takes ending n s))
  where
    same :
        (r : Read Bytes)
        → Takes n s r.1
        → Takes n s (and_then r (λ body left. (ok (b ∷ body), left))).1
    same (err e, t) h = h
    same (ok body, t) h = h

read_body-Takes :
    (ending : Ending) (n : ℕ) (s : Bytes) → Takes max_frame_bytes s (read_body ending n s).1
unfolding read_body
read_body-Takes ending n s = elim (Bool-cases (ltb max_frame_bytes n)) [
  | inl e ↦ rw e ([], refl, omega arith)
  | inr e ↦
      let (x, q, l) =
        Takes-then n 0 s (read_exact ending n s) (λ body left'. (utf8_text body, left'))
          (read_exact-Takes ending n s) (λ a t. ([], refl, omega arith)) in
      rw e (x, q, ground arith)
]

-- Whatever the peer sends and declares, and whatever comes of it, `read_frame` takes from the front
-- of the channel at most 16385 bytes of header and 8 MiB of body, and leaves the rest.
pub read_frame-Takes :
    (ending : Ending) (s : Bytes)
    → Takes (suc max_header_bytes + max_frame_bytes) s (read_frame ending s).1
unfolding read_frame
read_frame-Takes ending s =
    Takes-then (suc max_header_bytes) max_frame_bytes s (read_header ending s)
      (λ header left. and_then (parse_content_length header, left) (read_body ending))
      (header-Takes ending s [] max_header_bytes refl)
      (λ header left.
        Takes-then 0 max_frame_bytes left (parse_content_length header, left) (read_body ending)
          ([], refl, omega arith) (read_body-Takes ending))
