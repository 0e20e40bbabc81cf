-- ===== src/Import.antt =====
-- crates/cli/src/import_core.rs: `vault import`. The vault is the map of its entries with what its
-- list and its writes report (crates/vault/src/local.rs); the encryption around it is not modelled, and the
-- map is what the file holds. `{:?}` of a text is a parameter.
pub mod Steps
pub mod Run
pub mod Kept
use chaperone.Prelude.{
  ℕ, zero, suc, Bytes, List, [], ◌∷◌, ◌++◌, map, any, Bool, true, false, ◌&&◌, ◌||◌, not, Option,
  none, some, ascii, is_empty, drop, length, str_eq, find, starts_with, if◌then◌else◌,
}
use chaperone.Prelude.Map.{text_eq, Map, lookup, insert}
use chaperone.Prelude.Decimal.{digits}
use chaperone.Prelude.Fallible.{Fallible, err, ok, ◌>>=◌}
use chaperone.Policy.Matcher
use chaperone.Policy.Matcher.{Matcher}
use chaperone.Policy.Engine.{Pair, Rule, Policy}
use chaperone.Policy.Engine.Load
use chaperone.Policy.Engine.Load.{RuleDef, PolicyError, from_toml}
use chaperone.Policy.Engine.Save.{to_toml}

pub record InventoryRow : Type 0 where
  pub name : Bytes
  pub host : Bytes
  pub port : ℕ
  pub user : Option Bytes
  pub secret : Option Bytes

pub data RowOutcome : Type 0 where
  imported : Bytes → RowOutcome
  skipped_exists : Bytes → RowOutcome
  failed : Bytes → RowOutcome

abbrev pub Vault : Type 0
Vault = Map Bytes Bytes

-- `LocalVault::list` and `LocalVault::set` may fail, with a text.
pub record Storage : Type 0 where
  pub list_error : Option Bytes
  pub set_error : Bytes → Option Bytes

pub record Plan : Type 0 where
  pub policy_doc : Bytes
  pub rule_name : Bytes
  pub cred_scheme : Bytes
  pub dry_run : Bool

abbrev pub ca_namespace : Bytes
ca_namespace = ascii "chaperone/ca/"

abbrev pub placeholder : Bytes
placeholder = ascii "<chaperone:unset>"

-- `contains` of a text.
unfoldable pub contains_text : Bytes → Bytes → Bool
contains_text needle text = elim (find needle text) [ none ↦ false | some i ↦ true ]

abbrev pub take : ℕ → Bytes → Bytes
take zero t = []
take (suc n) [] = []
take (suc n) (b ∷ t) = b ∷ take n t

-- What stands after the first `://`, or the whole; and what stands before it, or the whole.
unfoldable pub after_scheme : Bytes → Bytes
after_scheme t = elim (find (ascii "://") t) [ none ↦ t | some i ↦ drop 3 (drop i t) ]

unfoldable pub scheme_of : Bytes → Bytes
scheme_of t = elim (find (ascii "://") t) [ none ↦ t | some i ↦ take i t ]

unfoldable pub resolved_entry_path : Bytes → Bytes → Bytes
unfolding after_scheme
resolved_entry_path cred_scheme name = after_scheme cred_scheme ++ (b'/' ∷ name)

unfoldable pub axis_compatible : Bytes → Bytes → Bool
unfolding scheme_of contains_text
axis_compatible rule_matcher_text row_value =
    is_empty (scheme_of row_value)
    || (contains_text (scheme_of row_value) rule_matcher_text
        || (str_eq rule_matcher_text (ascii "*") || starts_with (ascii "glob:*") rule_matcher_text))

abbrev pub or_placeholder : Option Bytes → Bytes
or_placeholder none = placeholder
or_placeholder (some secret) = secret

unfoldable pub name_is : Bytes → Option Bytes → Bool
name_is wanted none = false
name_is wanted (some name) = str_eq name wanted

unfoldable pub position : Bytes → List Rule → Option ℕ
unfolding name_is
position wanted [] = none
position wanted (r ∷ rs) =
    if name_is wanted r.name
    then some 0
    else elim (position wanted rs) [ none ↦ none | some i ↦ some (suc i) ]

abbrev pub rule_at : ℕ → List Rule → Option Rule
rule_at i [] = none
rule_at zero (r ∷ rs) = some r
rule_at (suc i) (r ∷ rs) = rule_at i rs

-- The pairs are added behind those of the rule with the index.
unfoldable pub extend_rule : ℕ → List Pair → List Rule → List Rule
extend_rule i pairs [] = []
extend_rule zero pairs (r ∷ rs) = record r { pairs = r.pairs ++ pairs } ∷ rs
extend_rule (suc i) pairs (r ∷ rs) = r ∷ extend_rule i pairs rs

-- The first row that would land in the CA's namespace.
unfoldable pub ca_row : Bytes → List InventoryRow → Option InventoryRow
ca_row cred_scheme [] = none
ca_row cred_scheme (row ∷ rows) =
    if starts_with ca_namespace (resolved_entry_path cred_scheme row.name)
    then some row
    else ca_row cred_scheme rows

-- `fmt` of a `PolicyError`.
unfoldable pub policy_error : PolicyError → Bytes
policy_error (Load.parse why) = ascii "policy is not valid TOML: " ++ why
policy_error (Load.schema why) = ascii "policy violates its schema: " ++ why

-- The loop's variables.
pub record Progress : Type 0 where
  pub vault : Vault
  pub existing_paths : List Bytes
  pub new_pairs : List Pair
  pub outcomes : List RowOutcome

module _ (debug : Bytes → Bytes) (storage : Storage) (plan : Plan) where
  -- `{:?}` of a matcher.
  unfoldable pub debug_matcher : Matcher → Bytes
  debug_matcher Matcher.any = ascii "Any"
  debug_matcher (Matcher.exact t) = ascii "Exact(" ++ (debug t ++ ascii ")")
  debug_matcher (Matcher.prefix t) = ascii "Prefix(" ++ (debug t ++ ascii ")")
  debug_matcher (Matcher.glob t) = ascii "Glob(" ++ (debug t ++ ascii ")")

  abbrev pub cred_ref_of : InventoryRow → Bytes
  cred_ref_of row = plan.cred_scheme ++ (b'/' ∷ row.name)

  abbrev pub target_uri_of : InventoryRow → Bytes
  target_uri_of row = ascii "ssh://" ++ (row.host ++ (b':' ∷ digits row.port))

  abbrev pub names_pair : Bytes → Bytes → Pair → Bool
  names_pair cred_ref target_uri p =
      contains_text cred_ref (debug_matcher p.cred_ref)
      && contains_text target_uri (debug_matcher p.target_uri)

  -- The pair row, unless one that holds both texts is there.
  unfoldable pub add_pair : Rule → InventoryRow → Progress → Progress
  add_pair rule row s =
      let cred_ref = cred_ref_of row in
      let target_uri = target_uri_of row in
      let pair : Pair = record {
        cred_ref = Matcher.parse cred_ref;
        target_uri = Matcher.parse target_uri;
      } in
      if any (names_pair cred_ref target_uri) rule.pairs
        || any (names_pair cred_ref target_uri) s.new_pairs
      then s
      else record s { new_pairs = s.new_pairs ++ pair ∷ [] }

  -- `set` of an entry, unless the run is dry.
  unfoldable pub write_entry : Bytes → Bytes → Vault → Vault × Option Bytes
  write_entry path value vault =
      if plan.dry_run then (vault, none) else elim (storage.set_error path) [
        | none ↦ (insert path value vault, none)
        | some why ↦ (vault, some why)
      ]

  abbrev pub incompatible : InventoryRow → RowOutcome
  incompatible row = failed (
      cred_ref_of row
      ++ (ascii " -> "
          ++ (target_uri_of row
              ++ (ascii ": axis-incompatible with rule "
                  ++ (debug plan.rule_name
                      ++ ascii " (a row that can never match is not added)")))))

  abbrev pub noted : RowOutcome → Progress → Progress
  noted o s = record s { outcomes = s.outcomes ++ o ∷ [] }

  -- After `set`: the error, or the row's entry and its pair are noted.
  unfoldable pub entry_written :
      Rule → InventoryRow → Bytes → Progress → Vault × Option Bytes → Progress × Option Bytes
  unfolding add_pair
  entry_written rule row path s (vault', some why) =
      (record s { vault = vault' }, some (ascii "vault set " ++ (path ++ (ascii ": " ++ why))))
  entry_written rule row path s (vault', none) =
      let s' = record s { vault = vault'; existing_paths = path ∷ s.existing_paths } in
      (add_pair rule row (noted (imported path) s'), none)

  unfoldable pub new_entry : Rule → InventoryRow → Bytes → Progress → Progress × Option Bytes
  unfolding write_entry entry_written
  new_entry rule row path s =
      entry_written rule row path s (write_entry path (or_placeholder row.secret) s.vault)

  -- One row: the loop goes on, or ends with an error.
  unfoldable pub import_row : Rule → InventoryRow → Progress → Progress × Option Bytes
  unfolding new_entry debug_matcher axis_compatible
  import_row rule row s =
      let path = resolved_entry_path plan.cred_scheme row.name in
      if not (axis_compatible (debug_matcher rule.cred_ref) (cred_ref_of row))
        || not (axis_compatible (debug_matcher rule.target_uri) (target_uri_of row))
      then (noted (incompatible row) s, none)
      else if any (str_eq path) s.existing_paths
      then (add_pair rule row (noted (skipped_exists path) s), none)
      else new_entry rule row path s

  -- An error ends the loop.
  abbrev pub row_done : Progress × Option Bytes → Progress × Option Bytes → Progress × Option Bytes
  row_done (s', none) rest = rest
  row_done (s', some why) rest = (s', some why)

  unfoldable pub import_rows : Rule → List InventoryRow → Progress → Progress × Option Bytes
  import_rows rule [] s = (s, none)
  import_rows rule (row ∷ rows) s =
      let r = import_row rule row s in row_done r (import_rows rule rows r.0)
