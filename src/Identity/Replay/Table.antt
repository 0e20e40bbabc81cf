-- ===== src/Identity/Replay/Table.antt =====
-- The table and the queue of the cache (crates/identity/src/replay.rs): what the purge, a reservation
-- and a roll-back do to what is reserved.
use chaperone.Prelude.{
  ℕ, ◌≤◌, ◌<◌, ◌≡◌, ◌≢◌, refl, sym, ap, ◌⊎◌, inl, inr, Bytes, List, [], ◌∷◌, ◌++◌, All, true, false,
  arith, ltb, if◌then◌else◌, Bool-cases,
}
use mathlib.Core.Path.{subst₂}
use chaperone.Prelude.Map.{
  Map, pair_eq, both_eq, both_eq_iff, insert, remove, lookup-insert, lookup-remove, beq_refl,
}
use chaperone.Identity.Replay.{
  Line, key, Inner, Reservation, fresh, duplicate, capacity_full, Cache, contains_key, purge,
  pop_back, saturating_add,
}

abbrev pub Seen : Type 0
Seen = Map (Bytes × Bytes) ℕ

contains-insert :
    (j k : Bytes × Bytes) (v : ℕ) (m : Seen)
    → contains_key k (insert j v m) ≡ (if both_eq j k then true else contains_key k m)
unfolding contains_key
contains-insert j k v m = ground (arith, lookup-insert j k v m)

contains-remove :
    (j k : Bytes × Bytes) (m : Seen)
    → contains_key k (remove j m) ≡ (if both_eq j k then false else contains_key k m)
unfolding contains_key
contains-remove j k m = ground (arith, lookup-remove j k m)

-- The table and the queue agree: each queued key is in the table, and is queued once.
abbrev pub Agree : Seen → List Line → Type 0
Agree seen [] = Unit
Agree seen (x ∷ rest) =
    (contains_key (key x) seen ≡ true) × All (λ y. key y ≢ key x) rest × Agree seen rest

-- The key is in the table, and nothing queued under it runs out before the given time.
abbrev pub Holds : Bytes × Bytes → ℕ → Seen → List Line → Type 0
Holds k until seen order =
    (contains_key k seen ≡ true) × All (λ x. (key x ≢ k) ⊎ (until ≤ x.expires)) order

All-append : (P : Line → Type 0) (xs : List Line) (x : Line) → All P xs → P x → All P (xs ++ x ∷ [])
All-append P [] x h p = (p, tt)
All-append P (y ∷ ys) x h p = (h.0, All-append P ys x h.1 p)

pub pop_back-push : (xs : List Line) (x : Line) → pop_back (xs ++ x ∷ []) ≡ xs
pop_back-push [] x = refl
pop_back-push (y ∷ []) x = refl
pop_back-push (y ∷ z ∷ r) x = ap (◌∷◌ y) (pop_back-push (z ∷ r) x)

Agree-remove :
    (k : Bytes × Bytes) (seen : Seen) (order : List Line)
    → All (λ y. key y ≢ k) order
    → Agree seen order
    → Agree (remove k seen) order
Agree-remove k seen [] n a = tt
Agree-remove k seen (x ∷ rest) n a = (
  ground (arith, a.0, n.0, contains-remove k (key x) seen, both_eq_iff k (key x)),
  a.1,
  Agree-remove k seen rest n.1 a.2,
)

Agree-insert :
    (k : Bytes × Bytes) (v : ℕ) (seen : Seen) (order : List Line)
    → Agree seen order
    → Agree (insert k v seen) order
Agree-insert k v seen [] a = tt
Agree-insert k v seen (x ∷ rest) a =
    (ground (arith, a.0, contains-insert k (key x) v seen), a.1, Agree-insert k v seen rest a.2)

pub purge-Agree :
    (now : ℕ) (seen : Seen) (order : List Line)
    → Agree seen order
    → Agree (purge now seen order).0 (purge now seen order).1
unfolding purge
purge-Agree now seen [] a = tt
purge-Agree now seen (x ∷ rest) a = elim (Bool-cases (ltb now x.expires)) [
  | inl e ↦ rw e a
  | inr e ↦
      rw e (purge-Agree now (remove (key x) seen) rest (Agree-remove (key x) seen rest a.1 a.2))
]

pub purge-Holds :
    (k : Bytes × Bytes) (until now : ℕ) (seen : Seen) (order : List Line)
    → now < until
    → Holds k until seen order
    → Holds k until (purge now seen order).0 (purge now seen order).1
unfolding purge
purge-Holds k until now seen [] lt h = h
purge-Holds k until now seen (x ∷ rest) lt h = elim (Bool-cases (ltb now x.expires)) [
  | inl e ↦ rw e h
  | inr e ↦ rw e (
      purge-Holds k until now (remove (key x) seen) rest lt
        (ground (arith, h.0, h.1.0, contains-remove (key x) k seen, both_eq_iff (key x) k), h.1.1))
]

Agree-absent :
    (k : Bytes × Bytes) (seen : Seen) (order : List Line)
    → Agree seen order
    → contains_key k seen ≡ false
    → All (λ x. key x ≢ k) order
Agree-absent k seen [] a n = tt
Agree-absent k seen (x ∷ rest) a n =
    (λ e. ground (arith, a.0, ap (λ j. contains_key j seen) e), Agree-absent k seen rest a.2 n)

Agree-push :
    (x : Line) (seen : Seen) (order : List Line)
    → contains_key (key x) seen ≡ true
    → All (λ y. key y ≢ key x) order
    → Agree seen order
    → Agree seen (order ++ x ∷ [])
Agree-push x seen [] c n a = (c, tt, tt)
Agree-push x seen (y ∷ rest) c n a = (
  a.0,
  All-append (λ z. key z ≢ key y) rest x a.1 (λ e. n.0 (sym e)),
  Agree-push x seen rest c n.1 a.2,
)

-- The line that a call would reserve.
abbrev pub wanted : Bytes → Bytes → ℕ → ℕ → Line
wanted agent nonce now retention = record {
  agent = agent;
  nonce = nonce;
  expires = saturating_add now retention;
}

-- The table and the queue that a call leaves, by its answer, from those that the purge leaves.
abbrev pub Left : Line → Seen × List Line → Inner → Reservation → Type 0
Left x p c duplicate =
    (contains_key (key x) p.0 ≡ true) × (c.seen ≡ p.0) × (c.insertion_order ≡ p.1)
Left x p c fresh =
    (contains_key (key x) p.0 ≡ false)
    × (c.seen ≡ insert (key x) x.expires p.0)
    × (c.insertion_order ≡ p.1 ++ x ∷ [])
Left x p c capacity_full =
    (contains_key (key x) p.0 ≡ false)
    × (c.seen ≡ remove (key x) (insert (key x) x.expires p.0))
    × (c.insertion_order ≡ p.1)

abbrev pub purged : Cache → ℕ → Seen × List Line
purged c now = purge now c.inner.seen c.inner.insertion_order

pub Left-Agree :
    (x : Line) (p : Seen × List Line) (c : Inner) (r : Reservation)
    → Left x p c r
    → Agree p.0 p.1
    → Agree c.seen c.insertion_order
Left-Agree x p c duplicate (_, e, f) a = subst₂ Agree (sym e) (sym f) a
Left-Agree x p c fresh (n, e, f) a = subst₂ Agree (sym e) (sym f) (
    Agree-push x (insert (key x) x.expires p.0) p.1
      (ground (arith, contains-insert (key x) (key x) x.expires p.0, beq_refl (key x)))
      (Agree-absent (key x) p.0 p.1 a n) (Agree-insert (key x) x.expires p.0 p.1 a))
Left-Agree x p c capacity_full (n, e, f) a = subst₂ Agree (sym e) (sym f) (
    Agree-remove (key x) (insert (key x) x.expires p.0) p.1 (Agree-absent (key x) p.0 p.1 a n)
      (Agree-insert (key x) x.expires p.0 p.1 a))

other_key :
    (j k : Bytes × Bytes) (m : Seen) → contains_key k m ≡ true → contains_key j m ≡ false → j ≢ k
other_key j k m h n e = cc (h, n, ap (λ i. contains_key i m) e)

pub Left-Holds :
    (x : Line) (p : Seen × List Line) (c : Inner) (r : Reservation) (k : Bytes × Bytes) (until : ℕ)
    → Left x p c r
    → Holds k until p.0 p.1
    → Holds k until c.seen c.insertion_order
Left-Holds x p c duplicate k until (_, e, f) h = subst₂ (Holds k until) (sym e) (sym f) h
Left-Holds x p c fresh k until (n, e, f) h =
    let ne = other_key (key x) k p.0 h.0 n in
    subst₂ (Holds k until) (sym e) (sym f) (
      ground (arith, contains-insert (key x) k x.expires p.0, h.0),
      All-append (λ y. (key y ≢ k) ⊎ (until ≤ y.expires)) p.1 x h.1 (inl ne),
    )
Left-Holds x p c capacity_full k until (n, e, f) h =
    let ne = other_key (key x) k p.0 h.0 n in
    subst₂ (Holds k until) (sym e) (sym f) (
      ground (
        arith,
        contains-remove (key x) k (insert (key x) x.expires p.0),
        contains-insert (key x) k x.expires p.0,
        both_eq_iff (key x) k,
        h.0,
      ),
      h.1,
    )

pub held_duplicate :
    (x : Line) (p : Seen × List Line) (c : Inner) (r : Reservation)
    → Left x p c r
    → contains_key (key x) p.0 ≡ true
    → r ≡ duplicate
held_duplicate x p c duplicate l h = refl
held_duplicate x p c fresh l h = absurd (cc (h, l.0))
held_duplicate x p c capacity_full l h = absurd (cc (h, l.0))

pub fresh_held :
    (x : Line) (p : Seen × List Line) (c : Inner) (r : Reservation)
    → Left x p c r
    → Agree p.0 p.1
    → r ≡ fresh
    → Holds (key x) x.expires c.seen c.insertion_order
fresh_held x p c duplicate l a h = absurd (cc h)
fresh_held x p c capacity_full l a h = absurd (cc h)
fresh_held x p c fresh (n, e, f) a h = subst₂ (Holds (key x) x.expires) (sym e) (sym f) (
  ground (arith, contains-insert (key x) (key x) x.expires p.0, beq_refl (key x)),
  All-append (λ y. (key y ≢ key x) ⊎ (x.expires ≤ y.expires)) p.1 x
      (away p.1 (Agree-absent (key x) p.0 p.1 a n)) (inr (omega arith)),
)
  where
    away :
        (o : List Line)
        → All (λ y. key y ≢ key x) o
        → All (λ y. (key y ≢ key x) ⊎ (x.expires ≤ y.expires)) o
    away [] t = tt
    away (y ∷ ys) t = (inl t.0, away ys t.1)
