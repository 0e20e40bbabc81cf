-- ===== src/Import/Kept.antt =====
-- What an import leaves in the vault (`run_import` of crates/cli/src/import_core.rs).
use chaperone.Prelude.{
  ℕ, ◌≡◌, ◌≢◌, ◌⊎◌, refl, ap, ◌∙◌, inl, inr, Bytes, List, [], map, any, true, Option, none, some,
  ascii, str_eq, starts_with, Option-cases, All,
}
use chaperone.Prelude.Map.{text_eq, lookup}
use chaperone.Prelude.Fallible.{Fallible, err, ok}
use chaperone.Policy.Engine.{Rule, Policy}
use chaperone.Policy.Engine.Load.{RuleDef, PolicyError}
use chaperone.Import.{
  InventoryRow, Vault, Storage, Plan, Progress, ca_namespace, resolved_entry_path, ca_row, position,
  rule_at, import_rows,
}
use chaperone.Import.Run.{
  finish, import_listed, import_checked, import_for, import_at, import_into, run_import, parsed,
}
use chaperone.Import.Steps.{rows_keep, listed_of_lookup, outside_ca, all_dry}

module _ (debug : Bytes → Bytes) (storage : Storage) (plan : Plan) where
  module _ (toml_from_str : Bytes → Fallible PolicyError (List RuleDef))
      (sha256_hex : Bytes → Bytes) (unknown_effect : ℕ → Bytes → Bytes)
      (quoted : Bytes → Bytes) where
    -- What an import may not change: an entry that was there, the CA's namespace, and in a dry run
    -- everything.
    abbrev pub IsKept : Vault → Bytes → Type 0
    IsKept vault q =
        ((v : Bytes) × (lookup q vault ≡ some v))
        ⊎ ((starts_with ca_namespace q ≡ true) ⊎ (plan.dry_run ≡ true))

    finish_vault :
        (i : ℕ) (rules : List Rule) (r : Progress × Option Bytes)
        → (finish debug storage plan toml_from_str sha256_hex unknown_effect quoted i rules r).0
          ≡ r.0.vault
    unfolding finish
    finish_vault i rules (s, some why) = refl
    finish_vault i rules (s, none) = refl

    listed_keeps :
        (vault : Vault) (rows : List InventoryRow) (i : ℕ) (rules : List Rule) (rule : Rule)
        (q : Bytes)
        → ca_row plan.cred_scheme rows ≡ none
        → IsKept vault q
        → lookup q
            (import_listed debug storage plan toml_from_str sha256_hex unknown_effect quoted vault
              rows i rules rule).0
          ≡ lookup q vault
    unfolding import_listed import_rows chaperone.Import.import_row
    listed_keeps vault rows i rules rule q none_ca kept = elim (Option-cases storage.list_error) [
      | inr (why, fails) ↦ rw fails refl
      | inl fine ↦
          let start : Progress = record {
            vault = vault;
            existing_paths = map (λ e. e.0) vault;
            new_pairs = [];
            outcomes = [];
          } in
          let spared : (any (str_eq q) start.existing_paths ≡ true)
              ⊎ All
                  (λ row.
                    (resolved_entry_path plan.cred_scheme row.name ≢ q) ⊎ (plan.dry_run ≡ true))
                  rows =
            elim kept [
              | inl (v, there) ↦ inl (listed_of_lookup debug storage plan vault q v there)
              | inr (inl ca) ↦ inr (outside_ca debug storage plan rows q none_ca ca)
              | inr (inr dry) ↦ inr (all_dry debug storage plan rows q dry)
            ] in
          rw fine (
            ap (lookup q) (finish_vault i rules (import_rows debug storage plan rule rows start))
            ∙ rows_keep debug storage plan rule rows start q spared)
    ]

    module _ (vault : Vault) (rows : List InventoryRow) (q : Bytes) (kept : IsKept vault q) where
      checked_keeps :
          (i : ℕ) (rules : List Rule) (rule : Rule) (found : Option InventoryRow)
          → ca_row plan.cred_scheme rows ≡ found
          → lookup q
              (import_checked debug storage plan toml_from_str sha256_hex unknown_effect quoted
                vault rows i rules rule found).0
            ≡ lookup q vault
      unfolding import_checked
      checked_keeps i rules rule (some row) e = refl
      checked_keeps i rules rule none e = listed_keeps vault rows i rules rule q e kept

      for_keeps :
          (i : ℕ) (rules : List Rule) (found : Option Rule)
          → lookup q
              (import_for debug storage plan toml_from_str sha256_hex unknown_effect quoted vault
                rows i rules found).0
            ≡ lookup q vault
      unfolding import_for
      for_keeps i rules none = refl
      for_keeps i rules (some rule) = checked_keeps i rules rule (ca_row plan.cred_scheme rows) refl

      at_keeps :
          (rules : List Rule) (found : Option ℕ)
          → lookup q
              (import_at debug storage plan toml_from_str sha256_hex unknown_effect quoted vault
                rows rules found).0
            ≡ lookup q vault
      unfolding import_at
      at_keeps rules none = refl
      at_keeps rules (some i) = for_keeps i rules (rule_at i rules)

      into_keeps :
          (policy : Fallible Bytes Policy)
          → lookup q
              (import_into debug storage plan toml_from_str sha256_hex unknown_effect quoted vault
                rows policy).0
            ≡ lookup q vault
      unfolding import_into
      into_keeps (err why) = refl
      into_keeps (ok policy) = at_keeps policy.rules (position plan.rule_name policy.rules)

    -- However an import ends, in success or in any error: an entry that the vault held holds its
    -- value still, what stands in the namespace of the CA is as it was, and a dry run changes nothing.
    pub run_import-IsKept :
        (vault : Vault) (rows : List InventoryRow) (q : Bytes)
        → IsKept vault q
        → lookup q
            (run_import debug storage plan toml_from_str sha256_hex unknown_effect quoted vault
              rows).0
          ≡ lookup q vault
    unfolding run_import
    run_import-IsKept vault rows q kept = into_keeps vault rows q kept (
        parsed debug storage plan toml_from_str sha256_hex unknown_effect quoted
          (ascii "policy does not parse: ") plan.policy_doc)
