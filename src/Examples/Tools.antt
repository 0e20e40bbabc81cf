-- ===== src/Examples/Tools.antt =====
-- The helper, the pins, the CA, and the target URI at concrete inputs.
use chaperone.Prelude.{
  ◌-◌, ◌+◌, ◌%◌, ◌^◌, ◌≤◌, ◌<◌, ◌≡◌, ◌≢◌, if◌then◌else◌, ◌⊎◌, refl, Bytes, List, [], ◌∷◌, ◌++◌,
  true, false, none, some, ascii, arith, contains, length, str_eq, strip_prefix,
}
use chaperone.Prelude.Map.{text_eq, lookup}
use chaperone.Prelude.Trim.{trim}
use chaperone.Prelude.Fallible.{Fallible, ok, err}
use chaperone.Helper
use chaperone.Helper.Allowed.{Sanctioned, process_request-Sanctioned}
use chaperone.Pins
use chaperone.Pins.{Pin, Store}
use chaperone.Pins.Checks.{Contact, check, checks, AnswersBy, checks-pinned, check-unwritten}
use chaperone.Gateway.Environment.{MintIntent}
use chaperone.Ca
use chaperone.Ca.Narrow.{mint_for-fields}
use chaperone.Protocol.Endpoint.{PgEndpoint, parse_pg_uri}
use chaperone.Protocol.Endpoint.Printed.{print, parse_pg_uri-print}

abbrev request : List (Bytes × Bytes)
request =
    (ascii "token", ascii "t")
    ∷ (ascii "op", ascii "exec")
    ∷ (ascii "command", ascii "/bin/ls")
    ∷ []

abbrev helper_json : Helper.Json
helper_json = record {
  Value = List (Bytes × Bytes);
  str_field = λ m k. lookup k m;
  strings_field = λ m k. some (ascii "-l" ∷ []);
  decode_signature = λ t. some t;
}

abbrev child : Helper.Spawned → Helper.Child
child s = Helper.finished (ascii "out") [] (some 0)

abbrev pinned_commands : List Helper.AllowlistEntry
pinned_commands = record { command = ascii "/bin/ls"; args = [] } ∷ []

process_request-Sanctioned_example :
    let r = Helper.process_request helper_json child request (ascii "t") pinned_commands true in
    (r.spawned ≡ []) ⊎ Sanctioned helper_json child request (ascii "t") pinned_commands true r
process_request-Sanctioned_example =
    process_request-Sanctioned helper_json child request (ascii "t") pinned_commands true

abbrev pin : Pin
pin = record {
  hostport = ascii "h:22";
  openssh_key = ascii "k";
  first_seen = [];
  source = ascii "tofu";
}

abbrev contact : Contact
contact = record {
  hostport = ascii "h:22";
  line = some (ascii "k");
  tofu = true;
  now = [];
  persisted = err (Pins.io (ascii "disk full"));
}

pinned_host : Pins.get ((ascii "h:22", pin) ∷ []) (ascii "h:22") ≡ some pin
unfolding lookup str_eq
pinned_host = refl

checks-pinned_example :
    (Pins.get (checks ((ascii "h:22", pin) ∷ []) (contact ∷ contact ∷ [])).0 (ascii "h:22")
      ≡ some pin)
    × AnswersBy
        (ascii "h:22")
        (ascii "k")
        (contact ∷ contact ∷ [])
        (checks ((ascii "h:22", pin) ∷ []) (contact ∷ contact ∷ [])).1
checks-pinned_example =
    checks-pinned (contact ∷ contact ∷ []) ((ascii "h:22", pin) ∷ []) (ascii "h:22") pin pinned_host

no_pin : Pins.get [] (ascii "h:22") ≡ none
unfolding lookup
no_pin = refl

check-unwritten_example :
    let again = check (check [] contact).0 contact in
    ((check [] contact).1 ≡ err (Pins.io (ascii "disk full"))) × (again.1 ≡ ok true)
check-unwritten_example =
    check-unwritten [] contact (ascii "k") (Pins.io (ascii "disk full")) no_pin refl refl refl

abbrev key_bytes : Bytes
key_bytes = ascii "0123456789abcdef0123456789abcdef"

abbrev crypto : Ca.Crypto
crypto = record {
  CaKey = Bytes;
  from_openssh = λ t. some t;
  decode = λ t. some key_bytes;
  build = λ k f. some (ascii "cert");
}

abbrev wish : MintIntent
wish = record {
  agent_id = ascii "bot";
  msg_id = ascii "m1";
  username = ascii "deploy";
  want_pty = false;
  ttl_secs = 300;
}

abbrev minted : Ca.MintedCert
minted = record { cert_openssh = ascii "cert"; key_id = ascii "chaperone:bot:m1" }

mint_done :
    Ca.mint_for crypto (ok (some (ascii "ca"))) (ascii "ca://web-1") (ascii "k") wish 1000
    ≡ ok minted
unfolding Ca.mint_for Ca.sign_crt_at Ca.any_empty Ca.fields_of Ca.is_host strip_prefix trim contains
mint_done = refl

mint_for-fields_example :
    (rest : Bytes) × (ca_text : Bytes) × (ca_key : Bytes) × (subject : Bytes) × (ascii "ca://web-1"
      ≡ ascii "ca://" ++ rest)
    × (trim rest ≢ [])
    × (contains b':' (trim rest) ≡ false)
    × (contains b'/' (trim rest) ≡ false)
    × (trim (ascii "deploy") ≢ [])
    × (◌≡◌ {A = Fallible Ca.CaError _} (ok (some (ascii "ca"))) (ok (some ca_text)))
    × (crypto.from_openssh ca_text ≡ some ca_key)
    × (crypto.decode (trim (ascii "k")) ≡ some subject)
    × (length subject ≡ 32)
    × (0 < wish.ttl_secs)
    × (wish.ttl_secs ≤ 3600)
    × (crypto.build ca_key (record {
      subject = subject;
      valid_after = 1000 - 60;
      valid_before = (1000 + wish.ttl_secs) % 2 ^ 64;
      key_id = ascii "chaperone:bot:m1";
      principals = trim (ascii "deploy") ∷ [];
      extensions =
          (ascii "host@chaperone", trim (trim rest))
          ∷ (if wish.want_pty then (ascii "permit-pty", []) ∷ [] else []);
    })
        ≡ some (ascii "cert"))
    × (ascii "chaperone:bot:m1"
        ≡ ascii "chaperone:" ++ (trim wish.agent_id ++ (b':' ∷ trim wish.msg_id)))
mint_for-fields_example =
    mint_for-fields crypto (ok (some (ascii "ca"))) (ascii "ca://web-1") (ascii "k") wish 1000
      minted mint_done

abbrev endpoint : PgEndpoint
endpoint = record { user = ascii "app"; host = ascii "db"; port = 5433; database = ascii "main" }

parse_pg_uri-print_example : parse_pg_uri (print endpoint (some (ascii "pw"))) ≡ ok endpoint
parse_pg_uri-print_example = parse_pg_uri-print endpoint (some (ascii "pw")) (record {
  user_plain = omega arith;
  info_plain = omega arith;
  host_plain = omega arith;
  has_host = cc;
  port_fits = omega arith;
  database_plain = omega arith;
})
