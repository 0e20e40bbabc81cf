-- ===== src/Examples/Handles.antt =====
-- A concrete session table (crates/gateway-core/src/session.rs).
use chaperone.Prelude.{
  ℕ, ◌-◌, ◌<◌, ◌≡◌, ◌≢◌, refl, ◌⊎◌, [], ◌∷◌, none, some, ascii, str_eq, if◌then◌else◌,
}
use chaperone.Prelude.Map.{text_eq, lookup}
use chaperone.Gateway.Sessions.{Entry, Table, access, access_entry, granted, take, reap_expired}
use chaperone.Gateway.Sessions.Owned.{access-granted, take_cases, reap_expired-lookup, kept, reaped}

abbrev pub entry : Entry ℕ
entry = record {
  agent_id = ascii "bot";
  mechanism = ascii "ssh";
  target_uri = [];
  target_label = [];
  expires_at = 50;
  opened_at = 0;
  out_seq = 0;
  commands = 0;
  bytes_in = 0;
  bytes_out = 0;
  last_beat = none;
  channel = 1;
}

abbrev pub table : Table ℕ
table = (ascii "sess_a", entry) ∷ []

pub reached : access ℕ table (ascii "sess_a") (ascii "bot") 20 ≡ granted entry 30
unfolding access access_entry lookup str_eq
reached = refl

access-granted_example :
    (lookup (ascii "sess_a") table ≡ some entry)
    × (entry.agent_id ≡ ascii "bot")
    × (20 < entry.expires_at)
    × (30 ≡ entry.expires_at - 20)
access-granted_example = access-granted ℕ table (ascii "sess_a") (ascii "bot") 20 30 entry reached

take_cases_example :
    let r = take ℕ table (ascii "sess_a") (ascii "foe") in
    ((e : Entry ℕ) × (lookup (ascii "sess_a") table ≡ some e)
      × (e.agent_id ≡ ascii "foe")
      × (r.1 ≡ some e)
      × (lookup (ascii "sess_a") r.0 ≡ (
          if str_eq (ascii "sess_a") (ascii "sess_a")
          then none
          else lookup (ascii "sess_a") table)))
    ⊎ (((lookup (ascii "sess_a") table ≡ none)
          ⊎ ((e : Entry ℕ) × (lookup (ascii "sess_a") table ≡ some e) × (e.agent_id ≢ ascii "foe")))
        × (r.1 ≡ none)
        × (lookup (ascii "sess_a") r.0 ≡ lookup (ascii "sess_a") table))
take_cases_example = take_cases ℕ table (ascii "sess_a") (ascii "foe") (ascii "sess_a")

reap_expired-lookup_example :
    (lookup (ascii "sess_a") (reap_expired ℕ table 60).0
      ≡ kept ℕ 60 (lookup (ascii "sess_a") table))
    × (lookup (ascii "sess_a") (reap_expired ℕ table 60).1
        ≡ reaped ℕ 60 (lookup (ascii "sess_a") table))
unfolding lookup
reap_expired-lookup_example = reap_expired-lookup ℕ table 60 (ascii "sess_a") (refl, tt)
