-- ===== src/Examples/Saves.antt =====
-- The policy writer and the import at concrete inputs.
use chaperone.Prelude.{
  ◌≡◌, if◌then◌else◌, refl, ap, inl, Bytes, List, [], ◌∷◌, ◌++◌, true, false, Option, none, some,
  ascii, arith, contains, str_eq, str_eq_refl, starts_with, strip_prefix,
}
use chaperone.Prelude.Map.{text_eq, lookup}
use chaperone.Prelude.Fallible.{Fallible, ok, err}
use chaperone.Policy.Matcher.{any, exact, glob}
use chaperone.Policy.Engine.{Rule, allow}
use chaperone.Policy.Engine.Load.{RuleDef, PolicyError, from_toml}
use chaperone.Policy.Engine.Save.{to_toml}
use chaperone.Policy.Engine.Save.Document.{document}
use chaperone.Policy.Engine.Save.Meaning.{interpret}
use chaperone.Policy.Engine.Save.Written.{lines_of}
use chaperone.Policy.Engine.Save.Restored.{from_toml-to_toml}
use chaperone.Import
use chaperone.Import.Run.{run_import}
use chaperone.Import.Kept.{run_import-IsKept}

abbrev saved : Rule
saved = record {
  name = some (ascii "fleet");
  notify_on_use = true;
  effect = allow;
  agent_id = exact (ascii "bot");
  cred_ref = glob (ascii "local://*");
  target_uri = any;
  mechanism = exact (ascii "ssh");
  pairs = [];
  limits = record { max_response_bytes = none; session_ttl_s = some 60 };
}

abbrev quoted : Bytes → Bytes
quoted t = b'"' ∷ (t ++ (b'"' ∷ []))

abbrev read_defs : Option (List RuleDef) → Fallible PolicyError (List RuleDef)
read_defs none = err (PolicyError.schema [])
read_defs (some defs) = ok defs

-- A reader of one document.
reader : Bytes → Fallible PolicyError (List RuleDef)
reader doc =
    if str_eq doc (document quoted (lines_of (saved ∷ [])))
    then read_defs (interpret (lines_of (saved ∷ [])))
    else err (PolicyError.parse [])

reads_saved :
    (defs : List RuleDef)
    → interpret (lines_of (saved ∷ [])) ≡ some defs
    → reader (document quoted (lines_of (saved ∷ []))) ≡ ok defs
unfolding reader
reads_saved defs e = rw (str_eq_refl (document quoted (lines_of (saved ∷ [])))) (ap read_defs e)

from_toml-to_toml_example :
    from_toml reader (λ doc. []) (λ i t. []) (to_toml quoted (saved ∷ []))
    ≡ ok (record { rules = saved ∷ []; source_hash_hex = [] })
unfolding strip_prefix contains starts_with
from_toml-to_toml_example =
    from_toml-to_toml reader (λ doc. []) (λ i t. []) quoted (saved ∷ []) reads_saved
      (
        record {
          agent_id = refl;
          cred_ref = refl;
          target_uri = refl;
          mechanism = refl;
          pairs = tt;
        },
        tt,
      )
      ((tt, omega arith), tt)

abbrev storage : Import.Storage
storage = record { list_error = none; set_error = λ path. none }

abbrev plan : Import.Plan
plan = record {
  policy_doc = [];
  rule_name = ascii "fleet";
  cred_scheme = ascii "local://ssh";
  dry_run = false;
}

abbrev rows : List Import.InventoryRow
rows =
    record { name = ascii "a"; host = ascii "a"; port = 22; user = none; secret = some (ascii "s") }
    ∷ []

held : lookup (ascii "ssh/a") ((ascii "ssh/a", ascii "old") ∷ []) ≡ some (ascii "old")
unfolding lookup str_eq
held = refl

run_import-IsKept_example :
    lookup
      (ascii "ssh/a")
      (run_import
        (λ t. t)
        storage
        plan
        reader
        (λ doc. [])
        (λ i t. [])
        (λ t. t)
        ((ascii "ssh/a", ascii "old") ∷ [])
        rows).0
    ≡ lookup (ascii "ssh/a") ((ascii "ssh/a", ascii "old") ∷ [])
run_import-IsKept_example =
    run_import-IsKept (λ t. t) storage plan reader (λ doc. []) (λ i t. []) (λ t. t)
      ((ascii "ssh/a", ascii "old") ∷ []) rows (ascii "ssh/a") (inl (ascii "old", held))
