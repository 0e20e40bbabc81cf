-- ===== src/Identity/Replay/Matched.antt =====
-- The table of the cache is its queue, read as a map (crates/identity/src/replay.rs).
use chaperone.Prelude.{
  ℕ, ◌<◌, ◌≡◌, refl, sym, ap, subst, ◌∙◌, inl, inr, Bytes, List, [], ◌∷◌, ◌++◌, Option, none, some,
  true, false, arith, ltb, if◌then◌else◌, Bool-cases,
}
use mathlib.Core.Path.{subst₂}
use chaperone.Prelude.Map.{
  pair_eq, both_eq, both_eq_iff, lookup, insert, remove, lookup-insert, lookup-remove,
}
use chaperone.Identity.Replay.{
  i64_max, Line, key, Inner, Reservation, fresh, duplicate, capacity_full, Cache, Io, contains_key,
  purge, check_and_reserve,
}
use chaperone.Identity.Replay.Table.{Seen, wanted, purged, Left}
use chaperone.Identity.Replay.Reserved.{check-Left}

-- When the first line that is queued under a key runs out.
unfoldable pub queued : Bytes × Bytes → List Line → Option ℕ
queued k [] = none
queued k (x ∷ rest) = if both_eq (key x) k then some x.expires else queued k rest

-- No key is queued twice, and the table gives for every key what is queued under it, and nothing else.
abbrev pub IsSingle : List Line → Type 0
IsSingle [] = Unit
IsSingle (x ∷ rest) = (queued (key x) rest ≡ none) × IsSingle rest

abbrev pub IsMatched : Seen → List Line → Type 0
IsMatched seen order = IsSingle order × ((k : Bytes × Bytes) → lookup k seen ≡ queued k order)

same_queued :
    (j k : Bytes × Bytes) (order : List Line) → both_eq j k ≡ true → queued j order ≡ queued k order
same_queued j k order e = ap (λ i. queued i order) ((both_eq_iff j k).0 e)

purge-IsMatched :
    (now : ℕ) (seen : Seen) (order : List Line)
    → IsMatched seen order
    → IsMatched (purge now seen order).0 (purge now seen order).1
unfolding purge queued
purge-IsMatched now seen [] m = m
purge-IsMatched now seen (x ∷ rest) m = elim (Bool-cases (ltb now x.expires)) [
  | inl e ↦ rw e m
  | inr e ↦ rw e (
      purge-IsMatched now (remove (key x) seen) rest (
        m.0.1,
        λ k. ground (arith, lookup-remove (key x) k seen, m.1 k, m.0.0, same_queued (key x) k rest),
      ))
]

queued-push :
    (k : Bytes × Bytes) (order : List Line) (x : Line)
    → queued k (order ++ x ∷ []) ≡ elim (queued k order) [
      | none ↦ if both_eq (key x) k then some x.expires else none
      | some until ↦ some until
    ]
unfolding queued
queued-push k [] x = refl
queued-push k (y ∷ rest) x = ground (arith, queued-push k rest x)

IsSingle-push :
    (order : List Line) (x : Line)
    → queued (key x) order ≡ none
    → IsSingle order
    → IsSingle (order ++ x ∷ [])
unfolding queued
IsSingle-push [] x n s = (refl, tt)
IsSingle-push (y ∷ rest) x n s = (
  ground (
    arith,
    queued-push (key y) rest x,
    s.0,
    n,
    both_eq_iff (key y) (key x),
    both_eq_iff (key x) (key y),
  ),
  IsSingle-push rest x (ground (arith, n)) s.1,
)

absent : (k : Bytes × Bytes) (seen : Seen) → contains_key k seen ≡ false → lookup k seen ≡ none
unfolding contains_key
absent k seen h = ground (arith, h)

Left-IsMatched :
    (x : Line) (p : Seen × List Line) (c : Inner) (r : Reservation)
    → Left x p c r
    → IsMatched p.0 p.1
    → IsMatched c.seen c.insertion_order
Left-IsMatched x p c duplicate (_, e, f) m = subst₂ IsMatched (sym e) (sym f) m
Left-IsMatched x p c fresh (n, e, f) m =
    let free = sym (m.1 (key x)) ∙ absent (key x) p.0 n in
    subst₂ IsMatched (sym e) (sym f) (
      IsSingle-push p.1 x free m.0,
      λ k. ground (
        arith,
        lookup-insert (key x) k x.expires p.0,
        queued-push k p.1 x,
        m.1 k,
        free,
        same_queued (key x) k p.1,
      ),
    )
Left-IsMatched x p c capacity_full (n, e, f) m =
    let free = sym (m.1 (key x)) ∙ absent (key x) p.0 n in
    subst₂ IsMatched (sym e) (sym f) (
      m.0,
      λ k. ground (
        arith,
        lookup-remove (key x) k (insert (key x) x.expires p.0),
        lookup-insert (key x) k x.expires p.0,
        m.1 k,
        free,
        same_queued (key x) k p.1,
      ),
    )

-- The line in front has not run out.
abbrev pub IsCurrent : ℕ → List Line → Type 0
IsCurrent now [] = Unit
IsCurrent now (x ∷ rest) = now < x.expires

purge-IsCurrent :
    (now : ℕ) (seen : Seen) (order : List Line) → IsCurrent now (purge now seen order).1
unfolding purge
purge-IsCurrent now seen [] = tt
purge-IsCurrent now seen (x ∷ rest) = elim (Bool-cases (ltb now x.expires)) [
  | inl e ↦ rw e (ground (arith, e))
  | inr e ↦ rw e (purge-IsCurrent now (remove (key x) seen) rest)
]

IsCurrent-push :
    (now : ℕ) (order : List Line) (x : Line)
    → now < x.expires
    → IsCurrent now order
    → IsCurrent now (order ++ x ∷ [])
IsCurrent-push now [] x lt h = lt
IsCurrent-push now (y ∷ rest) x lt h = h

Left-IsCurrent :
    (now : ℕ) (x : Line) (p : Seen × List Line) (c : Inner) (r : Reservation)
    → now < x.expires
    → Left x p c r
    → IsCurrent now p.1
    → IsCurrent now c.insertion_order
Left-IsCurrent now x p c duplicate lt (_, e, f) h = subst (IsCurrent now) (sym f) h
Left-IsCurrent now x p c fresh lt (n, e, f) h =
    subst (IsCurrent now) (sym f) (IsCurrent-push now p.1 x lt h)
Left-IsCurrent now x p c capacity_full lt (n, e, f) h = subst (IsCurrent now) (sym f) h

module _ (to_line : Line → Bytes) where
  -- Any call, whatever it answers, keeps the table equal to the queue read as a map: a key stands in
  -- the table just if a line is queued under it, with the time of that line, and no key is queued
  -- twice. The line in front of the queue has not run out, if the retention is positive and the clock
  -- has not reached the largest 64-bit time.
  pub check-IsMatched :
      (c : Cache) (agent nonce : Bytes) (now retention : ℕ) (io : Io)
      → 0 < retention
      → now < i64_max
      → IsMatched c.inner.seen c.inner.insertion_order
      → let i = (check_and_reserve to_line c agent nonce now retention io).0.inner in
        IsMatched i.seen i.insertion_order × IsCurrent now i.insertion_order
  check-IsMatched c agent nonce now retention io some_time early m =
      let r = check_and_reserve to_line c agent nonce now retention io in
      let x = wanted agent nonce now retention in
      let left = check-Left to_line c agent nonce now retention io in
      (
        Left-IsMatched x (purged c now) r.0.inner r.1 left
            (purge-IsMatched now c.inner.seen c.inner.insertion_order m),
        Left-IsCurrent now x (purged c now) r.0.inner r.1 (omega (arith, some_time, early)) left
            (purge-IsCurrent now c.inner.seen c.inner.insertion_order),
      )
