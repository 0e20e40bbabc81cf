-- ===== src/Examples/Loads.antt =====
-- The file of the enrollment store at a concrete input.
use chaperone.Prelude.{◌≡◌, ◌⊎◌, refl, Bytes, [], ◌∷◌, Option, none, some, ascii, true, str_eq}
use chaperone.Prelude.Map.{text_eq, lookup, insert}
use chaperone.Prelude.Fallible.{Fallible, ok}
use chaperone.Identity.Enrollment.{
  EnrollmentRecord, Store, StoreFile, found, not_found, is_blank, load, load_file, load_records,
}
use chaperone.Identity.Enrollment.Loaded.{last_record, entry_or, load-lookup}

abbrev recorded : Bytes → Option Bytes → EnrollmentRecord
recorded key revoked_at = record {
  agent_id = ascii "bot";
  public_key = key;
  enrolled_at = ascii "t";
  sponsor_id = ascii "s";
  sponsor_name = ascii "Ann";
  revoked_at = revoked_at;
}

abbrev decode : Bytes → Option Bytes
decode t = some t

abbrev from_slice : Bytes → Fallible Bytes StoreFile
from_slice bytes = ok (record {
  version = 1;
  agents = recorded (ascii "k") none ∷ recorded (ascii "l") (some (ascii "u")) ∷ [];
})

abbrev loaded : Store Bytes
loaded =
    (ascii "bot", record { key = ascii "l"; stored = recorded (ascii "l") (some (ascii "u")) }) ∷ []

load_run : load decode from_slice (found (ascii "{}")) ≡ ok loaded
unfolding load load_file load_records is_blank insert str_eq
load_run = refl

load-lookup_example :
    ((loaded ≡ [])
      × ((found (ascii "{}") ≡ not_found)
          ⊎ ((bytes : Bytes) × (found (ascii "{}") ≡ found bytes) × (is_blank bytes ≡ true))))
    ⊎ ((bytes : Bytes) × (file : StoreFile) × (found (ascii "{}") ≡ found bytes)
        × (from_slice bytes ≡ ok file)
        × (file.version ≡ 1)
        × (lookup (ascii "bot") loaded
            ≡ entry_or decode none (last_record (ascii "bot") file.agents)))
load-lookup_example =
    load-lookup decode from_slice (found (ascii "{}")) (ascii "bot") loaded load_run
