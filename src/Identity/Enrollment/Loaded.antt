-- ===== src/Identity/Enrollment/Loaded.antt =====
-- What a store of agents holds once its file is read (`EnrollmentStore::load` of crates/identity/src/enrollment.rs).
use chaperone.Prelude.{
  ◌≡◌, refl, ap, sym, Bytes, List, [], ◌∷◌, Option, none, some, true, arith, str_eq, if◌then◌else◌,
  Option-cases, inl, inr, ◌==◌, ◌⊎◌, Bool-cases,
}
use chaperone.Prelude.Map.{text_eq, lookup, insert, lookup-insert}
use chaperone.Prelude.Fallible.{Fallible, ok, err, same_value}
use chaperone.Identity.Enrollment.{
  not_found, unreadable, is_blank, EnrollmentRecord, StoredAgent, Store, StoreFile, FileRead, found,
  load_records, load_file, load,
}

-- The last record of the agent, which is the one that counts.
unfoldable pub last_record : Bytes → List EnrollmentRecord → Option EnrollmentRecord
last_record agent [] = none
last_record agent (r ∷ rs) = elim (last_record agent rs) [
  | some later ↦ some later
  | none ↦ if str_eq r.agent_id agent then some r else none
]

module _ {Key : Type 0} (decode : Bytes → Option Key) where
  abbrev pub with_key : EnrollmentRecord → Option Key → Option (StoredAgent Key)
  with_key r none = none
  with_key r (some key) = some (record { key = key; stored = r })

  abbrev pub entry_or :
      Option (StoredAgent Key) → Option EnrollmentRecord → Option (StoredAgent Key)
  entry_or before none = before
  entry_or before (some r) = with_key r (decode r.public_key)

  load_records-lookup :
      (agent : Bytes) (rs : List EnrollmentRecord) (s t : Store Key)
      → load_records decode rs s ≡ ok t
      → lookup agent t ≡ entry_or (lookup agent s) (last_record agent rs)
  unfolding load_records last_record
  load_records-lookup agent [] s t h = ap (lookup agent) (cc h)
  load_records-lookup agent (r ∷ rs) s t h = elim (Option-cases (decode r.public_key)) [
    | inl e ↦ absurd (ground (arith, e, h))
    | inr (key, e) ↦
        let added : StoredAgent Key = record { key = key; stored = r } in
        let s' = insert r.agent_id added s in
        let ih = load_records-lookup agent rs s' t (ground (arith, e, h)) in
        ground (arith, ih, e, lookup-insert r.agent_id agent added s)
  ]

  load_file-lookup :
      (agent : Bytes) (r : Fallible Bytes StoreFile) (t : Store Key)
      → load_file decode r ≡ ok t
      → (file : StoreFile) × (r ≡ ok file)
        × (file.version ≡ 1)
        × (lookup agent t ≡ entry_or none (last_record agent file.agents))
  unfolding load_file lookup
  load_file-lookup agent (err why) t h = absurd (cc h)
  load_file-lookup agent (ok file) t h = elim (Bool-cases (file.version == 1)) [
    | inr other ↦ absurd (ground (arith, other, h))
    | inl one ↦ (
      file,
      refl,
      ground (arith, one),
      load_records-lookup agent file.agents [] t (ground (arith, one, h)),
    )
  ]

  -- A store that loads is empty where the file is missing or blank. Otherwise the file parsed, at version
  -- 1, and an agent is bound to the key and to the record of the last of its records, or to none if it
  -- has no record; whatever does not parse, or another version, gives no store.
  pub load-lookup :
      (from_slice : Bytes → Fallible Bytes StoreFile) (read : FileRead) (agent : Bytes)
      (t : Store Key)
      → load decode from_slice read ≡ ok t
      → ((t ≡ [])
          × ((read ≡ not_found)
              ⊎ ((bytes : Bytes) × (read ≡ found bytes) × (is_blank bytes ≡ true))))
        ⊎ ((bytes : Bytes) × (file : StoreFile) × (read ≡ found bytes)
            × (from_slice bytes ≡ ok file)
            × (file.version ≡ 1)
            × (lookup agent t ≡ entry_or none (last_record agent file.agents)))
  unfolding load
  load-lookup from_slice not_found agent t h = inl (sym (same_value h), inl refl)
  load-lookup from_slice unreadable agent t h = absurd (cc h)
  load-lookup from_slice (found bytes) agent t h = elim (Bool-cases (is_blank bytes)) [
    | inl blank ↦ inl (ground (arith, blank, h), inr (bytes, refl, blank))
    | inr text ↦
        let (file, parsed, version, held) =
          load_file-lookup agent (from_slice bytes) t (ground (arith, text, h)) in
        inr (bytes, file, refl, parsed, version, held)
  ]
