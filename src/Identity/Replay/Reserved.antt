-- ===== src/Identity/Replay/Reserved.antt =====
-- A used nonce stays reserved (crates/identity/src/replay.rs): what one call does to the table, the
-- cache's invariant, and what no later call within the retention can undo.
use chaperone.Prelude.{
  ℕ, ◌<◌, ◌≡◌, refl, ap, ◌∙◌, inl, inr, Bytes, List, [], ◌∷◌, ◌++◌, false, arith, ltb, Bool-cases,
  Option-cases,
}
use chaperone.Prelude.Map.{pair_eq, insert, remove}
use chaperone.Identity.Replay.{
  Line, key, Inner, fresh, duplicate, Cache, Io, Parts, contains_key, purge_expired, pop_back,
  saturating_add, reserve, roll_back, rewrite_journal, compact, settle, journal_len,
  persist_reservation, check_and_reserve,
}
use chaperone.Identity.Replay.Table.{
  pop_back-push, purge-Agree, purge-Holds, Left-Agree, Left-Holds, held_duplicate, fresh_held, Seen,
  purged, Agree, Holds, wanted, Left,
}

module _ (to_line : Line → Bytes) where
  compact_state :
      (io : Io) (cap : ℕ) (c : Inner) (file : List Bytes)
      → ((compact to_line io cap c file).state.seen ≡ c.seen)
        × ((compact to_line io cap c file).state.insertion_order ≡ c.insertion_order)
  unfolding compact rewrite_journal
  compact_state io cap c file = (ground arith, ground arith)

  settle-Left :
      (io : Io) (cap : ℕ) (x : Line) (p : Parts) (before : Seen × List Line)
      → contains_key (key x) before.0 ≡ false
      → p.state.seen ≡ insert (key x) x.expires before.0
      → p.state.insertion_order ≡ before.1 ++ x ∷ []
      → Left x before (settle to_line io cap x p).0 (settle to_line io cap x p).2
  unfolding settle roll_back
  settle-Left io cap x p before n e f = elim (Bool-cases (ltb cap (journal_len p.file))) [
    | inl over ↦ rw over (n, ap (remove (key x)) e, ap pop_back f ∙ pop_back-push before.1 x)
    | inr fits ↦ rw fits (n, e, f)
  ]

  persist-Left :
      (c : Cache) (io : Io) (x : Line) (i : Inner)
      → contains_key (key x) i.seen ≡ false
      → Left x
          (i.seen, i.insertion_order)
          (persist_reservation to_line c io x (reserve i x)).0.inner
          (persist_reservation to_line c io x (reserve i x)).1
  unfolding reserve persist_reservation
  persist-Left c io x i n = elim (Option-cases c.journal) [
    | inl e ↦ rw (e, persist_reservation) (n, refl, refl)
    | inr (file, e) ↦
        let kept = compact_state io c.max_journal_bytes (reserve i x) file in
        rw (e, persist_reservation)
          (settle-Left io c.max_journal_bytes x
            (compact to_line io c.max_journal_bytes (reserve i x) file) (i.seen, i.insertion_order)
            n kept.0 kept.1)
  ]

  pub check-Left :
      (c : Cache) (agent nonce : Bytes) (now retention : ℕ) (io : Io)
      → let r = check_and_reserve to_line c agent nonce now retention io in
        Left (wanted agent nonce now retention) (purged c now) r.0.inner r.1
  unfolding check_and_reserve purge_expired
  check-Left c agent nonce now retention io =
      elim (Bool-cases (contains_key (agent, nonce) (purged c now).0)) [
        | inl e ↦ rw e (e, refl, refl)
        | inr e ↦
            rw e
              (persist-Left c io (wanted agent nonce now retention) (purge_expired c.inner now) e)
      ]

  -- Any call keeps the table and the queue in agreement, whatever it answers.
  pub check-Agree :
      (c : Cache) (agent nonce : Bytes) (now retention : ℕ) (io : Io)
      → Agree c.inner.seen c.inner.insertion_order
      → let i = (check_and_reserve to_line c agent nonce now retention io).0.inner in
        Agree i.seen i.insertion_order
  check-Agree c agent nonce now retention io a =
      let r = check_and_reserve to_line c agent nonce now retention io in
      Left-Agree (wanted agent nonce now retention) (purged c now) r.0.inner r.1
        (check-Left c agent nonce now retention io)
        (purge-Agree now c.inner.seen c.inner.insertion_order a)

  -- A call before the time given leaves what is held until then.
  pub check-Holds :
      (c : Cache) (k : Bytes × Bytes) (until : ℕ) (agent nonce : Bytes) (now retention : ℕ)
      (io : Io)
      → now < until
      → Holds k until c.inner.seen c.inner.insertion_order
      → let i = (check_and_reserve to_line c agent nonce now retention io).0.inner in
        Holds k until i.seen i.insertion_order
  check-Holds c k until agent nonce now retention io lt h =
      let r = check_and_reserve to_line c agent nonce now retention io in
      Left-Holds (wanted agent nonce now retention) (purged c now) r.0.inner r.1 k until
        (check-Left c agent nonce now retention io)
        (purge-Holds k until now c.inner.seen c.inner.insertion_order lt h)

  pub check_held :
      (c : Cache) (agent nonce : Bytes) (now retention until : ℕ) (io : Io)
      → now < until
      → Holds (agent, nonce) until c.inner.seen c.inner.insertion_order
      → (check_and_reserve to_line c agent nonce now retention io).1 ≡ duplicate
  check_held c agent nonce now retention until io lt h =
      let r = check_and_reserve to_line c agent nonce now retention io in
      held_duplicate (wanted agent nonce now retention) (purged c now) r.0.inner r.1
        (check-Left c agent nonce now retention io)
        (purge-Holds (agent, nonce) until now c.inner.seen c.inner.insertion_order lt h).0

  pub check_fresh :
      (c : Cache) (agent nonce : Bytes) (now retention : ℕ) (io : Io)
      → Agree c.inner.seen c.inner.insertion_order
      → let r = check_and_reserve to_line c agent nonce now retention io in
        r.1 ≡ fresh
        → Holds
            (agent, nonce)
            (saturating_add now retention)
            r.0.inner.seen
            r.0.inner.insertion_order
  check_fresh c agent nonce now retention io a h =
      let r = check_and_reserve to_line c agent nonce now retention io in
      fresh_held (wanted agent nonce now retention) (purged c now) r.0.inner r.1
        (check-Left c agent nonce now retention io)
        (purge-Agree now c.inner.seen c.inner.insertion_order a) h
