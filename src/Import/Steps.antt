-- ===== src/Import/Steps.antt =====
-- What one row of an import may do to the vault, and what the rows together leave in it (the loop of
-- `run_import` of crates/cli/src/import_core.rs).
use chaperone.Prelude.{
  ◌≡◌, ◌≢◌, ◌⊎◌, refl, ap, ◌∙◌, inl, inr, Bytes, List, [], ◌∷◌, map, any, true, false, Bool, ◌||◌,
  not, Option, none, some, arith, str_eq, str_eq_iff, starts_with, Bool-cases, Option-cases,
  if-either, if◌then◌else◌, All,
}
use chaperone.Prelude.Map.{text_eq, lookup, insert, lookup-insert}
use chaperone.Policy.Engine.{Rule}
use chaperone.Import.{
  InventoryRow, Vault, Storage, Plan, Progress, ca_namespace, resolved_entry_path, ca_row, add_pair,
  write_entry, entry_written, new_entry, import_row, import_rows, row_done, noted, imported,
  skipped_exists, or_placeholder, axis_compatible, debug_matcher, cred_ref_of, target_uri_of,
}

module _ (debug : Bytes → Bytes) (storage : Storage) (plan : Plan) where
  add_pair_vault :
      (rule : Rule) (row : InventoryRow) (s : Progress)
      → ((add_pair debug storage plan rule row s).vault ≡ s.vault)
        × ((add_pair debug storage plan rule row s).existing_paths ≡ s.existing_paths)
  unfolding add_pair
  add_pair_vault rule row s =
      if-either (λ (r : Progress). (r.vault ≡ s.vault) × (r.existing_paths ≡ s.existing_paths)) _
        (refl, refl) (refl, refl)

  -- What one row may do to the vault and to the list of paths.
  abbrev Step : InventoryRow → Progress → Progress → Type 0
  Step row s s' =
      let path = resolved_entry_path plan.cred_scheme row.name in
      ((s'.vault ≡ s.vault)
        ⊎ ((any (str_eq path) s.existing_paths ≡ false)
            × (plan.dry_run ≡ false)
            × (s'.vault ≡ insert path (or_placeholder row.secret) s.vault)))
      × ((s'.existing_paths ≡ s.existing_paths) ⊎ (s'.existing_paths ≡ path ∷ s.existing_paths))

  write_entry_cases :
      (path value : Bytes) (vault : Vault)
      → let r = write_entry debug storage plan path value vault in
        (r.0 ≡ vault) ⊎ ((plan.dry_run ≡ false) × (r.0 ≡ insert path value vault))
  unfolding write_entry
  write_entry_cases path value vault = elim (Bool-cases plan.dry_run) [
    | inl dry ↦ inl (rw dry refl)
    | inr wet ↦ elim (Option-cases (storage.set_error path)) [
      | inl done ↦ inr (wet, rw (wet, done) refl)
      | inr (why, fails) ↦ inl (rw (wet, fails) refl)
    ]
  ]

  entry_written_progress :
      (rule : Rule) (row : InventoryRow) (path : Bytes) (s : Progress) (vault' : Vault)
      (failure : Option Bytes)
      → let s' = (entry_written debug storage plan rule row path s (vault', failure)).0 in
        (s'.vault ≡ vault')
        × ((s'.existing_paths ≡ s.existing_paths) ⊎ (s'.existing_paths ≡ path ∷ s.existing_paths))
  unfolding entry_written
  entry_written_progress rule row path s vault' (some why) = (refl, inl refl)
  entry_written_progress rule row path s vault' none =
      let noted_entry =
        noted debug storage plan (imported path)
          (record s { vault = vault'; existing_paths = path ∷ s.existing_paths }) in
      let (v, e) = add_pair_vault rule row noted_entry in (v, inr e)

  new_entry-Step :
      (rule : Rule) (row : InventoryRow) (s : Progress)
      → let path = resolved_entry_path plan.cred_scheme row.name in
        any (str_eq path) s.existing_paths ≡ false
        → Step row s (new_entry debug storage plan rule row path s).0
  unfolding new_entry
  new_entry-Step rule row s fresh =
      let path = resolved_entry_path plan.cred_scheme row.name in
      let written = write_entry debug storage plan path (or_placeholder row.secret) s.vault in
      let (v, e) = entry_written_progress rule row path s written.0 written.1 in
      elim (write_entry_cases path (or_placeholder row.secret) s.vault) [
        | inl same ↦ (inl (v ∙ same), e)
        | inr (wet, put) ↦ (inr (fresh, wet, v ∙ put), e)
      ]

  import_row-Step :
      (rule : Rule) (row : InventoryRow) (s : Progress)
      → Step row s (import_row debug storage plan rule row s).0
  unfolding import_row
  import_row-Step rule row s =
      let path = resolved_entry_path plan.cred_scheme row.name in
      let Stepped = λ (r : Progress × Option Bytes). Step row s r.0 in
      if-either Stepped
        (not (
            axis_compatible (debug_matcher debug storage plan rule.cred_ref)
              (cred_ref_of debug storage plan row))
          || not (
              axis_compatible (debug_matcher debug storage plan rule.target_uri)
                (target_uri_of debug storage plan row)))
        (inl refl, inl refl) (by_listing (any (str_eq path) s.existing_paths) refl)
    where
      by_listing :
          (b : Bool)
          → any (str_eq (resolved_entry_path plan.cred_scheme row.name)) s.existing_paths ≡ b
          → let path = resolved_entry_path plan.cred_scheme row.name in
            Step row s
              (if b
                then (
                  add_pair debug storage plan rule row
                      (noted debug storage plan (skipped_exists path) s),
                  none,
                )
                else new_entry debug storage plan rule row path s).0
      by_listing true there =
          let path = resolved_entry_path plan.cred_scheme row.name in
          let (v, e) = add_pair_vault rule row (noted debug storage plan (skipped_exists path) s) in
          (inl v, inl e)
      by_listing false fresh = new_entry-Step rule row s fresh

  any_later :
      (q path : Bytes) (l : List Bytes) → any (str_eq q) l ≡ true → any (str_eq q) (path ∷ l) ≡ true
  any_later q path l h = ground (arith, h)

  any_at :
      (path q : Bytes) (l : List Bytes)
      → any (str_eq path) l ≡ false
      → any (str_eq q) l ≡ true
      → path ≢ q
  any_at path q l fresh there same = cc (fresh, there, same)

  listed_on :
      (row : InventoryRow) (s s' : Progress) (q : Bytes)
      → Step row s s'
      → any (str_eq q) s.existing_paths ≡ true
      → any (str_eq q) s'.existing_paths ≡ true
  listed_on row s s' q (_, inl e) h = rw e h
  listed_on row s s' q (_, inr e) h =
      rw e (any_later q (resolved_entry_path plan.cred_scheme row.name) s.existing_paths h)

  -- The row does not write what the path holds: it is listed, or the row is for another path, or the
  -- run is dry.
  abbrev IsSpared : Bytes → List Bytes → InventoryRow → Type 0
  IsSpared q listed row =
      (any (str_eq q) listed ≡ true)
      ⊎ ((resolved_entry_path plan.cred_scheme row.name ≢ q) ⊎ (plan.dry_run ≡ true))

  Step-keeps :
      (row : InventoryRow) (s s' : Progress) (q : Bytes)
      → Step row s s'
      → IsSpared q s.existing_paths row
      → lookup q s'.vault ≡ lookup q s.vault
  Step-keeps row s s' q (inl same, _) h = ap (lookup q) same
  Step-keeps row s s' q (inr (fresh, wet, put), _) h =
      let path = resolved_entry_path plan.cred_scheme row.name in
      let apart : path ≢ q = elim h [
        | inl there ↦ any_at path q s.existing_paths fresh there
        | inr (inl a) ↦ a
        | inr (inr dry) ↦ absurd (cc (wet, dry))
      ] in
      ap (lookup q) put
      ∙ ground (
        arith,
        lookup-insert path q (or_placeholder row.secret) s.vault,
        str_eq_iff path q,
        apart,
      )

  pub rows_keep :
      (rule : Rule) (rows : List InventoryRow) (s : Progress) (q : Bytes)
      → (any (str_eq q) s.existing_paths ≡ true)
        ⊎ All
            (λ row. (resolved_entry_path plan.cred_scheme row.name ≢ q) ⊎ (plan.dry_run ≡ true))
            rows
      → lookup q (import_rows debug storage plan rule rows s).0.vault ≡ lookup q s.vault
  unfolding import_rows
  rows_keep rule [] s q h = refl
  rows_keep rule (row ∷ rows) s q h =
      let r = import_row debug storage plan rule row s in
      let step = import_row-Step rule row s in
      let here =
        Step-keeps row s r.0 q step (elim h [ inl there ↦ inl there | inr (a, _) ↦ inr a ]) in
      let next : (any (str_eq q) r.0.existing_paths ≡ true)
          ⊎ All (λ row. (resolved_entry_path plan.cred_scheme row.name ≢ q) ⊎ (plan.dry_run ≡ true))
              rows =
        elim h [
          | inl there ↦ inl (listed_on row s r.0 q step there)
          | inr (_, later) ↦ inr later
        ] in
      done r (import_rows debug storage plan rule rows r.0) here
        (rows_keep rule rows r.0 q next ∙ here)
    where
      done :
          (r rest : Progress × Option Bytes)
          → lookup q r.0.vault ≡ lookup q s.vault
          → lookup q rest.0.vault ≡ lookup q s.vault
          → lookup q (row_done debug storage plan r rest).0.vault ≡ lookup q s.vault
      done (s', none) rest here later = later
      done (s', some why) rest here later = here

  pub listed_of_lookup :
      (vault : Vault) (q v : Bytes)
      → lookup q vault ≡ some v
      → any (str_eq q) (map (λ e. e.0) vault) ≡ true
  unfolding lookup
  listed_of_lookup [] q v h = absurd (cc h)
  listed_of_lookup ((k, x) ∷ vault) q v h =
      ground (arith, listed_of_lookup vault q v, str_eq_iff k q, str_eq_iff q k)

  pub outside_ca :
      (rows : List InventoryRow) (q : Bytes)
      → ca_row plan.cred_scheme rows ≡ none
      → starts_with ca_namespace q ≡ true
      → All
          (λ row. (resolved_entry_path plan.cred_scheme row.name ≢ q) ⊎ (plan.dry_run ≡ true))
          rows
  unfolding ca_row
  outside_ca [] q h c = tt
  outside_ca (row ∷ rows) q h c = (
    inl (λ same. ground (arith, ap (starts_with ca_namespace) same)),
    outside_ca rows q (ground (arith, h)) c,
  )

  pub all_dry :
      (rows : List InventoryRow) (q : Bytes)
      → plan.dry_run ≡ true
      → All
          (λ row. (resolved_entry_path plan.cred_scheme row.name ≢ q) ⊎ (plan.dry_run ≡ true))
          rows
  all_dry [] q dry = tt
  all_dry (row ∷ rows) q dry = (inr dry, all_dry rows q dry)
