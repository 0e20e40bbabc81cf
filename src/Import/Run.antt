-- ===== src/Import/Run.antt =====
-- The whole run of `vault import` (`run_import` of crates/cli/src/import_core.rs): the checks before the rows, and the
-- policy that is written after them.
use chaperone.Prelude.{
  ℕ, Bytes, List, [], ◌++◌, map, Option, none, some, ascii, is_empty, if◌then◌else◌,
}
use chaperone.Prelude.Map.{text_eq}
use chaperone.Prelude.Fallible.{Fallible, err, ok, ◌>>=◌}
use chaperone.Policy.Engine.{Rule, Policy}
use chaperone.Policy.Engine.Load.{RuleDef, PolicyError, from_toml}
use chaperone.Policy.Engine.Save.{to_toml}
use chaperone.Import.{
  InventoryRow, RowOutcome, Vault, Storage, Plan, Progress, resolved_entry_path, position, rule_at,
  extend_rule, ca_row, policy_error, import_rows,
}

module _ (debug : Bytes → Bytes) (storage : Storage) (plan : Plan) where
  module _ (toml_from_str : Bytes → Fallible PolicyError (List RuleDef))
      (sha256_hex : Bytes → Bytes) (unknown_effect : ℕ → Bytes → Bytes)
      (quoted : Bytes → Bytes) where
    abbrev pub Imported : Type 0
    Imported = Fallible Bytes (List RowOutcome × Bytes)

    unfoldable pub parsed : Bytes → Bytes → Fallible Bytes Policy
    unfolding policy_error
    parsed what doc = elim (from_toml toml_from_str sha256_hex unknown_effect doc) [
      | err why ↦ err (what ++ policy_error why)
      | ok policy ↦ ok policy
    ]

    -- The rewritten document, which is parsed again before it is given back.
    unfoldable pub rewrite : ℕ → List Rule → Progress → Imported
    unfolding extend_rule parsed
    rewrite i rules s =
        let rules' = if is_empty s.new_pairs then rules else extend_rule i s.new_pairs rules in
        let doc = to_toml quoted rules' in
        parsed (ascii "generated policy failed validation: ") doc
        >>= (λ policy. ok (s.outcomes, doc))

    unfoldable pub finish : ℕ → List Rule → Progress × Option Bytes → Vault × Imported
    unfolding rewrite
    finish i rules (s, some why) = (s.vault, err why)
    finish i rules (s, none) =
        (s.vault, if plan.dry_run then ok (s.outcomes, plan.policy_doc) else rewrite i rules s)

    unfoldable pub import_listed :
        Vault → List InventoryRow → ℕ → List Rule → Rule → Vault × Imported
    unfolding finish
    import_listed vault rows i rules rule = elim storage.list_error [
      | some why ↦ (vault, err (ascii "vault list: " ++ why))
      | none ↦
          let start : Progress = record {
            vault = vault;
            existing_paths = map (λ e. e.0) vault;
            new_pairs = [];
            outcomes = [];
          } in
          finish i rules (import_rows debug storage plan rule rows start)
    ]

    abbrev pub ca_refusal : InventoryRow → Bytes
    ca_refusal row =
        ascii "row `"
        ++ (row.name
            ++ (ascii "` would write into the non-exportable CA namespace ("
                ++ (resolved_entry_path plan.cred_scheme row.name
                    ++ ascii "); the entire import is refused")))

    abbrev pub no_rule : Bytes
    no_rule = ascii "no rule named " ++ (debug plan.rule_name ++ ascii " in the policy")

    unfoldable pub import_checked :
        Vault → List InventoryRow → ℕ → List Rule → Rule → Option InventoryRow → Vault × Imported
    unfolding import_listed
    import_checked vault rows i rules rule (some row) = (vault, err (ca_refusal row))
    import_checked vault rows i rules rule none = import_listed vault rows i rules rule

    unfoldable pub import_for :
        Vault → List InventoryRow → ℕ → List Rule → Option Rule → Vault × Imported
    unfolding import_checked ca_row
    import_for vault rows i rules none = (vault, err no_rule)
    import_for vault rows i rules (some rule) =
        import_checked vault rows i rules rule (ca_row plan.cred_scheme rows)

    unfoldable pub import_at : Vault → List InventoryRow → List Rule → Option ℕ → Vault × Imported
    unfolding import_for
    import_at vault rows rules none = (vault, err no_rule)
    import_at vault rows rules (some i) = import_for vault rows i rules (rule_at i rules)

    unfoldable pub import_into :
        Vault → List InventoryRow → Fallible Bytes Policy → Vault × Imported
    unfolding import_at position
    import_into vault rows (err why) = (vault, err why)
    import_into vault rows (ok policy) =
        import_at vault rows policy.rules (position plan.rule_name policy.rules)

    unfoldable pub run_import : Vault → List InventoryRow → Vault × Imported
    unfolding import_into parsed
    run_import vault rows =
        import_into vault rows (parsed (ascii "policy does not parse: ") plan.policy_doc)
