-- ===== src/Identity/Enrollment/Lifecycle.antt =====
-- Enrollment, rotation and revocation (crates/identity/src/enrollment.rs): who resolves afterwards.
use chaperone.Prelude.{
  ◌≡◌, ◌≢◌, refl, ◌⊎◌, inl, inr, Bytes, Bool, true, false, not, ◌&&◌, Option, none, some, arith,
  is_empty, str_eq_iff, str_eq, Option-cases, Bool-cases, if◌then◌else◌,
}
use chaperone.Prelude.Trim.{trim}
use chaperone.Prelude.Map.{text_eq, lookup, insert, lookup-insert, beq_refl}
use chaperone.Identity.Enrollment.{
  StoredAgent, Store, Error, Result, ok, err, io, is_live, resolve, sponsor_id_of, persist, key_of,
  sponsor_of, mark_revoked, admit, get_or_insert, live_entry, or_bad_key, install, enroll, revoke,
}

-- A store where every entry names its sponsor by an id and a name.
abbrev pub IsSponsored : {Key : Type 0} → Store Key → Type 0
IsSponsored {Key} s =
    (agent : Bytes) (a : StoredAgent Key)
    → lookup agent s ≡ some a
    → (is_empty a.stored.sponsor_id ≡ false) × (is_empty a.stored.sponsor_name ≡ false)

Result-cases : {A : Type 0} (r : Result A) → ((a : A) × (r ≡ ok a)) ⊎ ((e : Error) × (r ≡ err e))
Result-cases (ok a) = inl (a, refl)
Result-cases (err e) = inr (e, refl)

module _ {Key : Type 0} where
  mark_found : Bytes → Option (StoredAgent Key) → Option (StoredAgent Key)
  mark_found now none = none
  mark_found now (some a) = some (mark_revoked now a)

  lookup-revoke :
      (s : Store Key) (agent now other : Bytes) (disk : Bool)
      → lookup other (revoke s agent now disk).0
        ≡ (if str_eq agent other then mark_found now (lookup agent s) else lookup other s)
  unfolding revoke mark_found
  lookup-revoke s agent now other disk = elim (Option-cases (lookup agent s)) [
    | inl e ↦ rw (e, revoke) (ground (arith, e, str_eq_iff agent other))
    | inr (a, e) ↦ rw (e, revoke) (simp lookup-insert)
  ]

  -- After a revocation, whether or not the file could be written, the agent resolves to no key and
  -- to no sponsor, and every other agent resolves as before.
  pub resolve-revoke :
      (s : Store Key) (agent now other : Bytes) (disk : Bool)
      → let s' = (revoke s agent now disk).0 in
        (resolve s' other ≡ (if str_eq agent other then none else resolve s other))
        × (sponsor_id_of s' other ≡ (if str_eq agent other then none else sponsor_id_of s other))
  unfolding resolve sponsor_id_of is_live mark_found key_of sponsor_of mark_revoked
  resolve-revoke s agent now other disk = (
    ground (arith, lookup-revoke s agent now other disk),
    ground (arith, lookup-revoke s agent now other disk),
  )

  mark_twice :
      (now later : Bytes) (a : StoredAgent Key)
      → mark_revoked later (mark_revoked now a) ≡ mark_revoked now a
  unfolding mark_revoked get_or_insert
  mark_twice now later a = refl

  -- A revoked entry keeps the time of its first revocation, however often it is revoked again.
  pub revoke_twice :
      (s : Store Key) (agent now later : Bytes) (disk disk' : Bool) (a : StoredAgent Key)
      → lookup agent s ≡ some a
      → lookup agent (revoke (revoke s agent now disk).0 agent later disk').0
        ≡ lookup agent (revoke s agent now disk).0
  unfolding mark_found
  revoke_twice s agent now later disk disk' a e = ground (
    arith,
    beq_refl agent,
    mark_twice now later a,
    lookup-revoke s agent now agent disk,
    lookup-revoke (revoke s agent now disk).0 agent later agent disk',
  )

  -- The entry that an enrollment stores.
  record Entered (decode : Bytes → Option Key) (pk id name : Bytes) (a : StoredAgent Key)
      : Type 0 where
    pub key : decode pk ≡ some a.key
    pub live : is_live a ≡ true
    pub sponsor_id : a.stored.sponsor_id ≡ trim id
    pub has_id : is_empty a.stored.sponsor_id ≡ false
    pub has_name : is_empty a.stored.sponsor_name ≡ false

  admit-Entered :
      (decode : Bytes → Option Key) (encode : Key → Bytes) (agent pk id name now : Bytes)
      (a : StoredAgent Key)
      → admit decode encode agent pk id name now ≡ ok a
      → Entered decode pk id name a
  unfolding admit is_live or_bad_key
  admit-Entered decode encode agent pk id name now a h = record {
    key = ground arith;
    live = ground arith;
    sponsor_id = ground arith;
    has_id = ground arith;
    has_name = ground arith;
  }

  -- What an enrollment does: refuse and change nothing, or store such an entry.
  abbrev Enrolls :
      (Bytes → Option Key)
      → Store Key
      → Bytes
      → Bytes
      → Bytes
      → Bytes
      → Bool
      → Store Key × Result (Unit {0})
      → Type 0
  Enrolls decode s agent pk id name disk r =
      ((r.0 ≡ s) × (r.1 ≢ ok tt) × (r.1 ≢ err io))
      ⊎ ((a : StoredAgent Key) × Entered decode pk id name a
          × (r.0 ≡ insert agent a s)
          × (r.1 ≡ persist disk))

  admit_error :
      (decode : Bytes → Option Key) (encode : Key → Bytes) (agent pk id name now : Bytes)
      → admit decode encode agent pk id name now ≢ err io
  unfolding admit or_bad_key
  admit_error decode encode agent pk id name now h = ground arith

  install-Enrolls :
      (decode : Bytes → Option Key) (s : Store Key) (agent pk id name : Bytes) (force disk : Bool)
      (a : StoredAgent Key)
      → Entered decode pk id name a
      → Enrolls decode s agent pk id name disk (install s agent force disk a)
  unfolding install
  install-Enrolls decode s agent pk id name force disk a x =
      elim (Bool-cases (live_entry (lookup agent s) && not force)) [
        | inl e ↦ inl (rw e refl, λ h. ground arith, λ h. ground arith)
        | inr e ↦ inr (a, x, rw e refl, rw e refl)
      ]

  enroll-Enrolls :
      (decode : Bytes → Option Key) (encode : Key → Bytes) (s : Store Key)
      (agent pk id name now : Bytes) (force disk : Bool)
      → Enrolls decode s agent pk id name disk
          (enroll decode encode s agent pk id name now force disk)
  unfolding enroll
  enroll-Enrolls decode encode s agent pk id name now force disk =
      elim (Result-cases (admit decode encode agent pk id name now)) [
        | inl (a, e) ↦
            rw (e, enroll)
              (install-Enrolls decode s agent pk id name force disk a
                (admit-Entered decode encode agent pk id name now a e))
        | inr (x, e) ↦
            rw (e, enroll)
              (inl (refl, λ h. cc, λ h. admit_error decode encode agent pk id name now (cc (e, h))))
      ]

  -- An enrollment is refused and changes nothing, or it makes the agent resolve to the decoded key
  -- and to its trimmed sponsor id and leaves every other agent as it was; in that case its result is
  -- that of writing the file.
  pub resolve-enroll :
      (decode : Bytes → Option Key) (encode : Key → Bytes) (s : Store Key)
      (agent pk id name now other : Bytes) (force disk : Bool)
      → let r = enroll decode encode s agent pk id name now force disk in
        ((r.0 ≡ s) × (r.1 ≢ ok tt) × (r.1 ≢ err io))
        ⊎ ((resolve r.0 other ≡ (if str_eq agent other then decode pk else resolve s other))
            × (sponsor_id_of r.0 other
                ≡ (if str_eq agent other then some (trim id) else sponsor_id_of s other))
            × (r.1 ≡ persist disk))
  unfolding resolve sponsor_id_of key_of sponsor_of
  resolve-enroll decode encode s agent pk id name now other force disk =
      elim (enroll-Enrolls decode encode s agent pk id name now force disk) [
        | inl refused ↦ inl refused
        | inr (a, x, e, r) ↦ inr (
          rw e (simp lookup-insert (ground (arith, x.key, x.live))),
          rw e (simp lookup-insert (ground (arith, x.sponsor_id, x.live))),
          r,
        )
      ]

  -- A live agent's entry is not replaced unless the operator forces the rotation.
  pub enroll_live :
      (decode : Bytes → Option Key) (encode : Key → Bytes) (s : Store Key)
      (agent pk id name now : Bytes) (disk : Bool) (key : Key)
      → resolve s agent ≡ some key
      → (enroll decode encode s agent pk id name now false disk).0 ≡ s
  unfolding enroll install resolve key_of live_entry
  enroll_live decode encode s agent pk id name now disk key h = ground arith

  -- Every stored entry names a sponsor: enrolling and revoking keep it so.
  pub enroll-IsSponsored :
      (decode : Bytes → Option Key) (encode : Key → Bytes) (s : Store Key)
      (agent pk id name now : Bytes) (force disk : Bool)
      → IsSponsored s
      → IsSponsored (enroll decode encode s agent pk id name now force disk).0
  enroll-IsSponsored decode encode s agent pk id name now force disk h other a e =
      elim (enroll-Enrolls decode encode s agent pk id name now force disk) [
        | inl (same, _, _) ↦ h other a (rw same at e)
        | inr (b, x, new, _) ↦
            let found : (if str_eq agent other then some b else lookup other s) ≡ some a =
              rw (← lookup-insert agent other b s) (rw new at e) in
            ground (arith, h other a, x.has_id, x.has_name, found)
      ]
