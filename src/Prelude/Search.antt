-- ===== src/Prelude/Search.antt =====
-- What the searches in texts find.
use chaperone.Prelude.{
  ℕ, zero, suc, ◌-◌, ◌≤◌, ◌≡◌, refl, ap, ◌∙◌, ◌↔◌, inl, inr, true, some, [], ◌∷◌, ◌++◌, arith,
  Bytes, length, drop, length-append, drop-append, starts_with, strip_prefix, strip_prefix_iff,
  ends_with, find, str_eq_iff, str_eq_refl, Bool-cases, Option-cases,
}

pub starts_with_iff : (p t : Bytes) → (starts_with p t ≡ true) ↔ ((s : Bytes) × (t ≡ p ++ s))
unfolding starts_with
starts_with_iff p t = elim (Option-cases (strip_prefix p t)) [
  | inl e ↦
      (λ h. absurd (ground (arith, e)), λ (s, q). absurd (cc (e, (strip_prefix_iff p t s).1 q)))
  | inr (s, e) ↦ (λ h. (s, (strip_prefix_iff p t s).0 e), λ h. ground (arith, e))
]

pub find_sound :
    (n t : Bytes) (i : ℕ)
    → find n t ≡ some i
    → (pre : Bytes) × (suf : Bytes) × (t ≡ pre ++ (n ++ suf)) × (length pre ≡ i)
unfolding find
find_sound n [] i h = elim (Bool-cases (starts_with n [])) [
  | inl e ↦ let (s, q) = (starts_with_iff n []).0 e in ([], s, q, ground arith)
  | inr e ↦ absurd (ground arith)
]
find_sound n (c ∷ t) i h = elim (Bool-cases (starts_with n (c ∷ t))) [
  | inl e ↦ let (s, q) = (starts_with_iff n (c ∷ t)).0 e in ([], s, q, ground arith)
  | inr e ↦ elim (Option-cases (find n t)) [
    | inl f ↦ absurd (ground arith)
    | inr (k, f) ↦
        let (pre, suf, q, l) = find_sound n t k f in (c ∷ pre, suf, ap (◌∷◌ c) q, ground arith)
  ]
]

find_least_nil :
    (n pre suf : Bytes) → [] ≡ pre ++ (n ++ suf) → (i : ℕ) × (find n [] ≡ some i) × (i ≤ length pre)
unfolding find
find_least_nil n [] suf e = (0, ground (arith, (starts_with_iff n []).1 (suf, e)), omega arith)
find_least_nil n (p ∷ pre) suf e = absurd (cc e)

pub find_least :
    (n t pre suf : Bytes) → t ≡ pre ++ (n ++ suf) → (i : ℕ) × (find n t ≡ some i) × (i ≤ length pre)
unfolding find
find_least n [] pre suf e = find_least_nil n pre suf e
find_least n (c ∷ t) [] suf e =
    (0, ground (arith, (starts_with_iff n (c ∷ t)).1 (suf, e)), omega arith)
find_least n (c ∷ t) (p ∷ pre) suf e = elim (Bool-cases (starts_with n (c ∷ t))) [
  | inl h ↦ (0, ground arith, omega arith)
  | inr h ↦
      let (i, q, l) = find_least n t pre suf (ground arith) in (suc i, ground arith, omega arith)
]

-- Two ways to cut one text: the longer front holds the shorter one.
pub cut_at : (a b c d : Bytes) → a ++ b ≡ c ++ d → length a ≤ length c → (x : Bytes) × (b ≡ x ++ d)
cut_at [] b c d e h = (c, e)
cut_at (x ∷ a) b [] d e h = absurd (omega arith)
cut_at (x ∷ a) b (y ∷ c) d e h = cut_at a b c d (ground arith) (omega arith)

pub append_right_cancel_of_length :
    (a b c d : Bytes) → a ++ b ≡ c ++ d → length a ≡ length c → (a ≡ c) × (b ≡ d)
append_right_cancel_of_length [] b [] d e h = (refl, e)
append_right_cancel_of_length [] b (y ∷ c) d e h = absurd (omega arith)
append_right_cancel_of_length (x ∷ a) b [] d e h = absurd (omega arith)
append_right_cancel_of_length (x ∷ a) b (y ∷ c) d e h =
    ground (arith, append_right_cancel_of_length a b c d)

drop-cut :
    (k : ℕ) (t : Bytes) → k ≤ length t → (pre : Bytes) × (t ≡ pre ++ drop k t) × (length pre ≡ k)
drop-cut zero t h = ([], refl, refl)
drop-cut (suc k) [] h = elim h [ ]
drop-cut (suc k) (c ∷ t) h =
    let (pre, e, l) = drop-cut k t (omega arith) in (c ∷ pre, ap (◌∷◌ c) e, ap suc l)

drop_front : (pre s : Bytes) → drop (length (pre ++ s) - length s) (pre ++ s) ≡ s
drop_front pre s =
    let k : length (pre ++ s) - length s ≡ length pre = omega (arith, length-append pre s) in
    rw k (drop-append pre s)

ends_with-append : (pre s : Bytes) → ends_with s (pre ++ s) ≡ true
unfolding ends_with
ends_with-append pre s = rw (drop_front pre s) (ground (arith, length-append pre s, str_eq_refl s))

pub ends_with_iff : (s t : Bytes) → (ends_with s t ≡ true) ↔ ((pre : Bytes) × (t ≡ pre ++ s))
unfolding ends_with
ends_with_iff s t = (forth, λ (pre, e). rw e (ends_with-append pre s))
  where
    forth : ends_with s t ≡ true → (pre : Bytes) × (t ≡ pre ++ s)
    forth h =
        let k = length t - length s in
        let (pre, e, _) = drop-cut k t (omega arith) in
        (pre, e ∙ ap (◌++◌ pre) ((str_eq_iff (drop k t) s).0 (ground arith)))
