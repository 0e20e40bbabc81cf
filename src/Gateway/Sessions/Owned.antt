-- ===== src/Gateway/Sessions/Owned.antt =====
-- Who reaches a session, and for how long (crates/gateway-core/src/session.rs).
use chaperone.Prelude.{
  ℕ, ◌-◌, ◌<◌, ◌≡◌, ◌≢◌, refl, sym, ap, ◌∙◌, subst, ◌⊎◌, inl, inr, Bytes, List, [], ◌∷◌, map, Bool,
  true, false, Option, none, some, arith, str_eq, str_eq_iff, leb, ltb, if◌then◌else◌, Bool-cases,
  Option-cases, ◌||◌,
}
use chaperone.Prelude.Map.{text_eq, lookup, remove, lookup-remove}
use chaperone.Gateway.Sessions.{
  Entry, Table, granted, access, access_entry, take, take_entry, expired, remove_each, reap_expired,
}

module _ (Channel : Type 0) where
  granted_entry :
      (agent : Bytes) (now left : ℕ) (o : Option (Entry Channel)) (e : Entry Channel)
      → access_entry Channel agent now o ≡ granted e left
      → (o ≡ some e) × (e.agent_id ≡ agent) × (now < e.expires_at) × (left ≡ e.expires_at - now)
  unfolding access_entry
  granted_entry agent now left none e h = absurd (cc h)
  granted_entry agent now left (some x) e h = elim (Bool-cases (str_eq x.agent_id agent)) [
    | inr f ↦ absurd (cc (rw f at h))
    | inl f ↦ elim (Bool-cases (ltb now x.expires_at)) [
      | inr g ↦ absurd (cc (rw (f, g) at h))
      | inl g ↦
          let h' : granted x (x.expires_at - now) ≡ granted e left = rw (f, g) at h in
          let same : x ≡ e = cc h' in
          let left_same : x.expires_at - now ≡ left = cc h' in
          (
            ap some same,
            ap (λ y. y.agent_id) (sym same) ∙ (str_eq_iff x.agent_id agent).0 f,
            subst (λ y. now < y.expires_at) same (ground (arith, g)),
            sym left_same ∙ ap (λ y. y.expires_at - now) same,
          )
    ]
  ]

  same_lookup : (j h : Bytes) (t : Table Channel) → str_eq j h ≡ true → lookup j t ≡ lookup h t
  same_lookup j h t e = ap (λ k. lookup k t) ((str_eq_iff j h).0 e)

  is_member : Bytes → List Bytes → Bool
  is_member h [] = false
  is_member h (j ∷ js) = str_eq j h || is_member h js

  lookup-remove_each :
      (hs : List Bytes) (t : Table Channel) (h : Bytes)
      → lookup h (remove_each Channel hs t).0 ≡ (if is_member h hs then none else lookup h t)
  unfolding remove_each is_member
  lookup-remove_each [] t h = refl
  lookup-remove_each (j ∷ js) t h =
      ground (arith, lookup-remove_each js (remove j t) h, lookup-remove j h t)

  removed-remove_each :
      (hs : List Bytes) (t : Table Channel) (h : Bytes)
      → lookup h (remove_each Channel hs t).1 ≡ (if is_member h hs then lookup h t else none)
  unfolding remove_each is_member lookup
  removed-remove_each [] t h = refl
  removed-remove_each (j ∷ js) t h = elim (Option-cases (lookup j t)) [
    | inl e ↦
        rw (e, remove_each)
          (ground (
            arith,
            removed-remove_each js (remove j t) h,
            lookup-remove j h t,
            same_lookup j h t,
            e,
          ))
    | inr (v, e) ↦
        rw (e, remove_each)
          (ground (
            arith,
            removed-remove_each js (remove j t) h,
            lookup-remove j h t,
            same_lookup j h t,
            e,
          ))
  ]

  -- A table without repeated handles, as a hash map is.
  abbrev pub IsDistinct : Table Channel → Type 0
  IsDistinct [] = Unit
  IsDistinct ((h, e) ∷ rest) = (lookup h rest ≡ none) × IsDistinct rest

  is_due : ℕ → Option (Entry Channel) → Bool
  is_due now none = false
  is_due now (some e) = leb e.expires_at now

  due_member :
      (now : ℕ) (t : Table Channel) (h : Bytes)
      → IsDistinct t
      → is_member h (map (λ x. x.0) (expired Channel now t)) ≡ is_due now (lookup h t)
  unfolding expired is_member is_due lookup
  due_member now [] h d = refl
  due_member now ((j, e) ∷ rest) h d =
      ground (arith, due_member now rest h d.1, same_lookup j h rest, d.0)

  -- What is left of an entry, and what is taken out, when the table is reaped.
  pub kept : ℕ → Option (Entry Channel) → Option (Entry Channel)
  kept now none = none
  kept now (some e) = if leb e.expires_at now then none else some e

  pub reaped : ℕ → Option (Entry Channel) → Option (Entry Channel)
  reaped now none = none
  reaped now (some e) = if leb e.expires_at now then some e else none

  -- Reaping takes out exactly the sessions past their time, returns each of them, and leaves the rest
  -- as they were. The table must not repeat a handle.
  pub reap_expired-lookup :
      (t : Table Channel) (now : ℕ) (h : Bytes)
      → IsDistinct t
      → (lookup h (reap_expired Channel t now).0 ≡ kept now (lookup h t))
        × (lookup h (reap_expired Channel t now).1 ≡ reaped now (lookup h t))
  unfolding reap_expired kept reaped is_due
  reap_expired-lookup t now h d =
      let hs = map (λ x. x.0) (expired Channel now t) in
      (
        ground (arith, lookup-remove_each hs t h, due_member now t h d),
        ground (arith, removed-remove_each hs t h, due_member now t h d),
      )

  -- A frame reaches a session only if the handle names it, its agent opened it and its time is not
  -- over; what remains is the rest of its time.
  pub access-granted :
      (t : Table Channel) (handle agent : Bytes) (now left : ℕ) (e : Entry Channel)
      → access Channel t handle agent now ≡ granted e left
      → (lookup handle t ≡ some e)
        × (e.agent_id ≡ agent)
        × (now < e.expires_at)
        × (left ≡ e.expires_at - now)
  unfolding access
  access-granted t handle agent now left e h = granted_entry agent now left (lookup handle t) e h

  -- Taking a session out returns it and removes it and no other if the agent opened it. Where the
  -- handle names no session, or one of another agent, it returns none, and every handle names what it
  -- named before.
  pub take_cases :
      (t : Table Channel) (handle agent other : Bytes)
      → let r = take Channel t handle agent in
        ((e : Entry Channel) × (lookup handle t ≡ some e)
          × (e.agent_id ≡ agent)
          × (r.1 ≡ some e)
          × (lookup other r.0 ≡ (if str_eq handle other then none else lookup other t)))
        ⊎ (((lookup handle t ≡ none)
              ⊎ ((e : Entry Channel) × (lookup handle t ≡ some e) × (e.agent_id ≢ agent)))
            × (r.1 ≡ none)
            × (lookup other r.0 ≡ lookup other t))
  unfolding take take_entry
  take_cases t handle agent other = elim (Option-cases (lookup handle t)) [
    | inl e ↦
        rw (e, take_entry)
          (inr (
            inl refl,
            refl,
            ground (arith, lookup-remove handle other t, same_lookup handle other t, e),
          ))
    | inr (x, e) ↦ elim (Bool-cases (str_eq x.agent_id agent)) [
      | inl f ↦
          rw (e, take_entry, f)
            (inl (x, refl, (str_eq_iff x.agent_id agent).0 f, refl, lookup-remove handle other t))
      | inr f ↦
          let stranger : x.agent_id ≢ agent =
            λ same. ground (arith, f, (str_eq_iff x.agent_id agent).1 same) in
          rw (e, take_entry, f) (inr (inr (x, refl, stranger), refl, refl))
    ]
  ]
