-- ===== src/Examples/Messages.antt =====
-- A concrete gateway (crates/gateway-core/src/lib.rs) that allows everything, and a message for an HTTP
-- call with a bearer token.
use chaperone.Prelude.{
  ◌≡◌, refl, ap, Bytes, List, [], ◌∷◌, true, false, none, some, ascii, str_eq, ℕ,
}
use chaperone.Policy.Matcher.{any, matches}
use chaperone.Policy.Engine.{allow, from_rules, scan, axes_match, bind_row, decide_by, evaluate}
use chaperone.Identity.Replay.{in_memory}
use chaperone.Identity.Attest.{VerifiedIntent, verify, ok}
use chaperone.Gateway.Operation.{HttpOperation, has_agent_authorization, any_authorization}
use chaperone.Gateway.Environment.{failed, given, approved, Gateway, Envelope, World, Answers}
use chaperone.Gateway.Opening.{with_resolved}
use chaperone.Gateway.Phases.{ready, Orderly}
use chaperone.Gateway.Intent.{
  handle_intent, after_verify, after_verification, decided, by_effect, route, is_one_shot,
  one_shot_path, with_confirmation, http_path, decide,
}
use chaperone.Gateway.Intent.Trace.{handle_intent-Orderly}
use chaperone.Gateway.Intent.Clearance.{any_use, uses_credential, Cleared, credential_use-Cleared}
use chaperone.Examples.Agents.Fixture.{
  platform, bot, enrolled, message, instant, good_io, intent, accepted,
}

abbrev envelope : Envelope (List (Bytes × Bytes))
envelope = record {
  msg_id = ascii "1";
  agent_id = bot;
  target_uri = ascii "https://api";
  target_label = ascii "api";
  mechanism = ascii "http-bearer";
  cred_ref = ascii "vault://api";
  operation = [];
  constraints = none;
}

abbrev call : HttpOperation
call = record { method = ascii "GET"; headers = []; body_b64 = none; username = none }

abbrev pub world : World platform
world = record {
  Secret = Bytes;
  Channel = ℕ;
  HttpResponse = ℕ;
  parse_envelope = λ m. given envelope;
  to_value = λ e. some [];
  http_operation = λ o. given call;
  db_operation = λ o. failed [];
  bool_field = λ m k. none;
  text_list = λ m k. [];
  path_field = λ m k j. none;
  debug = λ t. t;
  digits = λ n. n ∷ [];
}

abbrev pub gateway : Gateway
gateway = record {
  policy = from_rules (
      record {
        name = none;
        notify_on_use = true;
        effect = allow;
        agent_id = any;
        cred_ref = any;
        target_uri = any;
        mechanism = any;
        pairs = [];
        limits = record { max_response_bytes = none; session_ttl_s = none };
      }
      ∷ []);
  config = record {
    default_max_response_bytes = 1048576;
    default_session_ttl_secs = 300;
    default_timeout_secs = 30;
    session_heartbeat_secs = 300;
  };
  backends = [];
  privilege_allowlist = none;
  ruleset_hash = [];
  has_event_hub = true;
  has_ca = false;
}

abbrev pub answers : Answers world
answers = record {
  confirm = λ c. approved;
  resolve = λ c. given (ascii "token");
  knows_identity = λ c. false;
  mint = λ c m. failed [];
  connect = λ m u o s. failed [];
  execute = λ m u o s n. given 200;
  run_sql = λ u o s. failed [];
  append = λ e. some 1;
  random_handle = ascii "h";
  clock = 0;
}

handle_intent-Orderly_example :
    Orderly world ready
      (handle_intent world gateway enrolled answers [] 3 in_memory message instant good_io).1
handle_intent-Orderly_example =
    handle_intent-Orderly world gateway enrolled answers [] 3 in_memory message instant good_io
      intent envelope [] (ap (λ t. t.1) accepted) refl refl

token_used :
    any_use world (after_verify world gateway enrolled answers [] message (ok intent)).actions
    ≡ true
unfolding after_verify after_verification decided by_effect route is_one_shot one_shot_path
    with_confirmation http_path has_agent_authorization any_authorization with_resolved any_use
    uses_credential evaluate scan axes_match bind_row decide_by matches str_eq
token_used = refl

message_uses_token :
    any_use world
      (handle_intent world gateway enrolled answers [] 3 in_memory message instant
        good_io).1.actions
    ≡ true
unfolding handle_intent
message_uses_token = rw accepted token_used

credential_use-Cleared_example :
    (v : VerifiedIntent platform) × (e : Envelope (List (Bytes × Bytes))) × ((verify platform
        enrolled 3 in_memory message instant good_io).1
      ≡ ok v)
    × (world.parse_envelope v.envelope ≡ given e)
    × Cleared world gateway enrolled answers [] v.agent_id e
        (decide world gateway enrolled answers [] v.agent_id e).effect
credential_use-Cleared_example =
    credential_use-Cleared world gateway enrolled answers [] 3 in_memory message instant good_io
      message_uses_token
