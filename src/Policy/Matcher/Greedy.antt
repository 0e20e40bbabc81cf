-- ===== src/Policy/Matcher/Greedy.antt =====
-- The greedy scan `glob_match` of crates/policy/src/matcher.rs against the meaning of a glob: taking
-- the leftmost place of each middle part loses no match.
use chaperone.Prelude.{
  ℕ, ◌+◌, ◌≡◌, ◌≢◌, refl, sym, ap, subst, ◌∙◌, ◌↔◌, inl, inr, true, false, List, [], ◌∷◌, ◌++◌,
  append_assoc, append-nil, arith, Bytes, cons_head, ◌==◌, length, drop, split, find, Bool-cases,
  Option, none, some, length-append, drop-append, Option-cases, starts_with, str_eq_iff,
}
use chaperone.Prelude.Search.{find_sound, find_least, cut_at, ends_with_iff, starts_with_iff}
use chaperone.Policy.Matcher.{
  star, last, but_last, match_middles, match_tail, match_parts, glob_match,
}
use chaperone.Policy.Matcher.Glob.{
  Matches, FitsAfter, FitsParts, Matches→parts, parts→Matches, split-ne,
}

abbrev advance : Bytes → List Bytes → ℕ → Bytes → Option ℕ → Option ℕ
advance text ms pos m none = none
advance text ms pos m (some i) = match_middles text ms (pos + (i + length m))

find_nil : (u : Bytes) → find [] u ≡ some 0
unfolding find starts_with
find_nil [] = refl
find_nil (c ∷ u) = refl

-- One round of the loop, in the text that is left; the empty part is no exception.
middle_step :
    (text front u m : Bytes) (ms : List Bytes)
    → text ≡ front ++ u
    → match_middles text (m ∷ ms) (length front) ≡ advance text ms (length front) m (find m u)
unfolding match_middles
middle_step text front u [] ms e = rw find_nil (ap (match_middles text ms) (omega arith))
middle_step text front u (c ∷ m) ms e =
    ground (arith, e, ap (drop (length front)) e, drop-append front u)

tail_sound :
    (text front u tail : Bytes)
    → text ≡ front ++ u
    → match_tail text tail (some (length front)) ≡ true
    → (pre : Bytes) × (u ≡ pre ++ tail)
unfolding match_tail
tail_sound text front u [] e h = (u, sym (append-nil u))
tail_sound text front u (c ∷ tail) e h =
    let (pre, q) = (ends_with_iff (c ∷ tail) text).0 (ground arith) in
    let sizes : (length text ≡ length front + length u)
        × (length text ≡ length pre + length (c ∷ tail)) =
      (ap length e ∙ length-append front u, ap length q ∙ length-append pre (c ∷ tail)) in
    cut_at front u pre (c ∷ tail) (sym e ∙ q) (ground (arith, sizes))

tail_complete :
    (text front u tail pre : Bytes)
    → text ≡ front ++ u
    → u ≡ pre ++ tail
    → match_tail text tail (some (length front)) ≡ true
unfolding match_tail
tail_complete text front u [] pre e q = refl
tail_complete text front u (c ∷ tail) pre e q =
    let whole : text ≡ (front ++ pre) ++ (c ∷ tail) =
      e ∙ ap (◌++◌ front) q ∙ sym (append_assoc front pre (c ∷ tail)) in
    ground (
      arith,
      (ends_with_iff (c ∷ tail) text).1 (front ++ pre, whole),
      ap length e ∙ length-append front u,
      ap length q ∙ length-append pre (c ∷ tail),
    )

regroup :
    (text front u pre m suf : Bytes)
    → text ≡ front ++ u
    → u ≡ pre ++ (m ++ suf)
    → text ≡ (front ++ (pre ++ m)) ++ suf
regroup text front u pre m suf e q = simp append_assoc (e ∙ ap (◌++◌ front) q)

position :
    (front pre m : Bytes) → length front + (length pre + length m) ≡ length (front ++ (pre ++ m))
position front pre m = omega (arith, length-append front (pre ++ m), length-append pre m)

middle_found :
    (text front u m pre suf : Bytes) (ms : List Bytes) (i : ℕ)
    → text ≡ front ++ u
    → find m u ≡ some i
    → length pre ≡ i
    → match_middles text (m ∷ ms) (length front)
      ≡ match_middles text ms (length (front ++ (pre ++ m)))
middle_found text front u m pre suf ms i e f l =
    middle_step text front u m ms e
    ∙ rw f (ap (match_middles text ms) (omega (arith, position front pre m)))

middle_lost :
    (text front u m : Bytes) (ms : List Bytes)
    → text ≡ front ++ u
    → find m u ≡ none
    → match_middles text (m ∷ ms) (length front) ≡ none
middle_lost text front u m ms e f = middle_step text front u m ms e ∙ rw f refl

match_tail-none : (text tail : Bytes) → match_tail text tail none ≡ false
unfolding match_tail
match_tail-none text tail = refl

match_middles_nil : (text : Bytes) (pos : ℕ) → match_middles text [] pos ≡ some pos
unfolding match_middles
match_middles_nil text pos = refl

scan_sound :
    (text front u next : Bytes) (rest : List Bytes)
    → text ≡ front ++ u
    → match_tail text (last next rest) (match_middles text (but_last next rest) (length front))
      ≡ true
    → FitsAfter (next ∷ rest) u
scan_sound text front u next [] e h =
    let (pre, q) = tail_sound text front u next e (rw match_middles_nil at h) in
    (pre, [], q ∙ ap (◌++◌ pre) (sym (append-nil next)), refl)
scan_sound text front u next (n ∷ r) e h = elim (Option-cases (find next u)) [
  | inl f ↦ absurd (
      cc (
        h,
        ap (match_tail text (last n r)) (middle_lost text front u next (but_last n r) e f),
        match_tail-none text (last n r),
      ))
  | inr (i, f) ↦
      let (pre, suf, q, l) = find_sound next u i f in
      let whole = regroup text front u pre next suf e q in
      let same = middle_found text front u next pre suf (but_last n r) i e f l in
      (pre, suf, q, scan_sound text (front ++ (pre ++ next)) suf n r whole (rw same at h))
]

-- What fits behind a run still fits when the run starts earlier.
FitsAfter-append :
    (m : Bytes) (r : List Bytes) (x u : Bytes) → FitsAfter (m ∷ r) u → FitsAfter (m ∷ r) (x ++ u)
FitsAfter-append m r x u (pre, suf, e, f) =
    (x ++ pre, suf, ap (◌++◌ x) e ∙ sym (append_assoc x pre (m ++ suf)), f)

scan_complete :
    (text front u next : Bytes) (rest : List Bytes)
    → text ≡ front ++ u
    → FitsAfter (next ∷ rest) u
    → match_tail text (last next rest) (match_middles text (but_last next rest) (length front))
      ≡ true
scan_complete text front u next [] e (pre, suf, q, z) =
    rw match_middles_nil (tail_complete text front u next pre e (rw (z, append-nil) at q))
scan_complete text front u next (n ∷ r) e (pre, suf, q, fits) =
    let (i, f, le) = find_least next u pre suf q in
    let (pre', suf', q', l) = find_sound next u i f in
    let whole = regroup text front u pre' next suf' e q' in
    let same = middle_found text front u next pre' suf' (but_last n r) i e f l in
    let (x, later) =
      cut_at (pre' ++ next) suf' (pre ++ next) suf
        (append_assoc pre' next suf' ∙ sym q' ∙ q ∙ sym (append_assoc pre next suf))
        (omega (arith, length-append pre' next, length-append pre next)) in
    rw same (
      scan_complete text (front ++ (pre' ++ next)) suf' n r whole
        (subst (FitsAfter (n ∷ r)) (sym later) (FitsAfter-append n r x suf fits)))

cons_only :
    (c : ℕ) (l : List Bytes) (p only : Bytes)
    → ((h : Bytes) → l ≡ h ∷ [] → h ≡ p)
    → l ≢ []
    → cons_head c l ≡ only ∷ []
    → only ≡ c ∷ p
unfolding cons_head
cons_only c [] p only ih n e = absurd (n refl)
cons_only c (h ∷ []) p only ih n e = cc (ih h refl)
cons_only c (h ∷ k ∷ r) p only ih n e = absurd (cc e)

-- A pattern of one part is that part.
split_only : (p only : Bytes) → split star p ≡ only ∷ [] → only ≡ p
unfolding split
split_only [] only e = cc
split_only (c ∷ p) only e = elim (Bool-cases (c == star)) [
  | inl y ↦ absurd (split-ne star p (ground (arith, e)))
  | inr n ↦
      cons_only c (split star p) p only (λ h. split_only p h) (split-ne star p) (ground (arith, e))
]

parts_sound :
    (pattern text : Bytes) (l : List Bytes)
    → l ≡ split star pattern
    → match_parts pattern text l ≡ true
    → FitsParts l text
unfolding match_parts
parts_sound pattern text [] e h = absurd (cc h)
parts_sound pattern text (only ∷ []) e h =
    let same = split_only pattern only (sym e) in
    ([], cc (same, (str_eq_iff pattern text).0 h, append-nil only), refl)
parts_sound pattern text (head ∷ next ∷ rest) e h =
    let (u, q) = (starts_with_iff head text).0 (ground arith) in
    (u, q, scan_sound text head u next rest q (ground arith))

parts_complete :
    (pattern text : Bytes) (l : List Bytes)
    → l ≡ split star pattern
    → FitsParts l text
    → match_parts pattern text l ≡ true
unfolding match_parts
parts_complete pattern text [] e f = elim f [ ]
parts_complete pattern text (only ∷ []) e (u, q, z) =
    (str_eq_iff pattern text).1 (cc (split_only pattern only (sym e), q, z, append-nil only))
parts_complete pattern text (head ∷ next ∷ rest) e (u, q, fits) =
    rw ((starts_with_iff head text).1 (u, q)) (scan_complete text head u next rest q fits)

-- A glob matches a text exactly when the text reads as the pattern with each `*` replaced by some
-- run of bytes: the leftmost search for the parts neither accepts too much nor misses a match.
pub glob_match_iff :
    (pattern text : Bytes) → (glob_match pattern text ≡ true) ↔ Matches pattern text
unfolding glob_match
glob_match_iff pattern text = (
  λ h. parts→Matches pattern text (parts_sound pattern text (split star pattern) refl h),
  λ m. parts_complete pattern text (split star pattern) refl (Matches→parts m),
)
