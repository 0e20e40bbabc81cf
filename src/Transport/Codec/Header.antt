-- ===== src/Transport/Codec/Header.antt =====
-- Where `read_header` stops.
use chaperone.Prelude.{
  ℕ, ◌+◌, ◌≤◌, ◌<◌, ◌≡◌, ◌≢◌, refl, ap, ◌∙◌, inl, inr, true, false, Bytes, [], ◌∷◌, ◌++◌,
  append_assoc, append-nil, arith, length, length-append, ends_with, Bool-cases,
}
use chaperone.Prelude.{All-append, subst}
use chaperone.Prelude.Search.{ends_with_iff}
use chaperone.Prelude.Ascii.{Lacks}
use chaperone.Prelude.Fallible.{ok}
use chaperone.Transport.Codec.{Ending, header_loop, header_terminator, max_header_bytes}

too_short : (x y pre : Bytes) → Lacks 13 x → length y < 4 → x ++ y ≢ pre ++ header_terminator
too_short [] y [] h l e = absurd (omega (arith, ap length e))
too_short [] y (p ∷ pre) h l e =
    absurd (omega (arith, ap length e, length-append pre header_terminator))
too_short (c ∷ x) y [] (hc, h) l e = absurd (ground (arith, hc))
too_short (c ∷ x) y (p ∷ pre) (hc, h) l e = too_short x y pre h l (ground arith)

-- A text ends in a blank line only where its last four bytes hold the carriage returns.
not_ended : (x y : Bytes) → Lacks 13 x → length y < 4 → ends_with header_terminator (x ++ y) ≡ false
not_ended x y h l = elim (Bool-cases (ends_with header_terminator (x ++ y))) [
  | inl e ↦
      let (pre, q) = (ends_with_iff header_terminator (x ++ y)).0 e in
      absurd (too_short x y pre h l q)
  | inr e ↦ e
]

pub header_step :
    (ending : Ending) (b : ℕ) (s buf : Bytes)
    → length buf < max_header_bytes
    → ends_with header_terminator (buf ++ (b ∷ [])) ≡ false
    → header_loop ending (b ∷ s) buf ≡ header_loop ending s (buf ++ (b ∷ []))
unfolding header_loop
header_step ending b s buf l e = ground (arith, e, length-append buf (b ∷ []))

pub header_stop :
    (ending : Ending) (b : ℕ) (s buf : Bytes)
    → length buf < max_header_bytes
    → ends_with header_terminator (buf ++ (b ∷ [])) ≡ true
    → header_loop ending (b ∷ s) buf ≡ (ok (buf ++ (b ∷ [])), s)
unfolding header_loop
header_stop ending b s buf l e = ground (arith, e, length-append buf (b ∷ []))

-- A byte behind x that ends no blank line yet, the bytes y of one being read.
header_byte :
    (ending : Ending) (b : ℕ) (s x y : Bytes)
    → Lacks 13 x
    → length y < 3
    → length x + length y < max_header_bytes
    → header_loop ending (b ∷ s) (x ++ y) ≡ header_loop ending s (x ++ (y ++ (b ∷ [])))
header_byte ending b s x y h l fits =
    let joined : (x ++ y) ++ (b ∷ []) ≡ x ++ (y ++ (b ∷ [])) = append_assoc x y (b ∷ []) in
    let longer = length-append y (b ∷ []) in
    let open_line : ends_with header_terminator ((x ++ y) ++ (b ∷ [])) ≡ false =
      rw joined (not_ended x (y ++ (b ∷ [])) h (omega (arith, longer))) in
    header_step ending b s (x ++ y) (omega (arith, fits, length-append x y)) open_line
    ∙ ap (header_loop ending s) joined

header_byte_0 :
    (ending : Ending) (b : ℕ) (s x : Bytes)
    → Lacks 13 x
    → length x < max_header_bytes
    → header_loop ending (b ∷ s) x ≡ header_loop ending s (x ++ (b ∷ []))
header_byte_0 ending b s x h fits =
    subst (λ (t : Bytes). header_loop ending (b ∷ s) t ≡ header_loop ending s (x ++ (b ∷ [])))
      (append-nil x) (header_byte ending b s x [] h (omega arith) (omega arith))

-- The bytes a of the line are passed over.
pub header_passes :
    (ending : Ending) (a s x : Bytes)
    → Lacks 13 x
    → Lacks 13 a
    → length x + length a ≤ max_header_bytes
    → header_loop ending (a ++ s) x ≡ header_loop ending s (x ++ a)
header_passes ending [] s x h ha l = rw (append-nil x) refl
header_passes ending (b ∷ a) s x h (hb, ha) l =
    let longer = All-append (λ c. c ≢ 13) x (b ∷ []) h (hb, tt) in
    let fits : length (x ++ (b ∷ [])) + length a ≤ max_header_bytes =
      omega (arith, l, length-append x (b ∷ [])) in
    header_byte_0 ending b (a ++ s) x h (omega arith)
    ∙ (header_passes ending a s (x ++ (b ∷ [])) longer ha fits
        ∙ ap (header_loop ending s) (append_assoc x (b ∷ []) a))

-- A header of one line without a carriage return is read to the end of its blank line.
pub header_one_line :
    (ending : Ending) (a s : Bytes)
    → Lacks 13 a
    → length a + 4 ≤ max_header_bytes
    → header_loop ending (a ++ (header_terminator ++ s)) [] ≡ (ok (a ++ header_terminator), s)
header_one_line ending a s h l =
    let joined : (a ++ (13 ∷ 10 ∷ 13 ∷ [])) ++ (10 ∷ []) ≡ a ++ header_terminator =
      append_assoc a (13 ∷ 10 ∷ 13 ∷ []) (10 ∷ []) in
    let ended : ends_with header_terminator ((a ++ (13 ∷ 10 ∷ 13 ∷ [])) ++ (10 ∷ [])) ≡ true =
      rw joined ((ends_with_iff header_terminator (a ++ header_terminator)).1 (a, refl)) in
    header_passes ending a (header_terminator ++ s) [] tt h (omega arith)
    ∙ (header_byte_0 ending 13 (10 ∷ 13 ∷ 10 ∷ s) a h (omega arith)
        ∙ (header_byte ending 10 (13 ∷ 10 ∷ s) a (13 ∷ []) h (omega arith) (omega arith)
            ∙ (header_byte ending 13 (10 ∷ s) a (13 ∷ 10 ∷ []) h (omega arith) (omega arith)
                ∙ (header_stop ending 10 s (a ++ (13 ∷ 10 ∷ 13 ∷ []))
                      (omega (arith, l, length-append a (13 ∷ 10 ∷ 13 ∷ []))) ended
                    ∙ ap (λ (t : Bytes). (ok t, s)) joined))))
