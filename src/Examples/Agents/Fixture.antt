-- ===== src/Examples/Agents/Fixture.antt =====
-- The store, the message and the verdicts that the examples on agents share.
use chaperone.Prelude.{
  ℕ, ◌*◌, ◌≡◌, refl, Bytes, List, [], ◌∷◌, true, none, some, ascii, str_eq, split,
}
use chaperone.Prelude.Map.{text_eq, pair_eq, lookup, insert}
use chaperone.Identity.Enrollment.{Store, StoredAgent, resolve, key_of, is_live}
use chaperone.Identity.Replay.{
  Cache, Io, in_memory, check_and_reserve, purge_expired, purge, contains_key, reserve,
  persist_reservation,
}
use chaperone.Identity.Attest.{
  Platform, VerifiedIntent, ok, nanos, version_parts, check_version, non_empty, within_skew,
  check_freshness, object_gate, claim, sized, verdict, check_signature, after_reservation,
  reserve_and_check, verify,
}

abbrev pub platform : Platform
platform = record {
  Value = List (Bytes × Bytes);
  Key = ℕ;
  is_object = λ m. true;
  str_field = λ m k. lookup k m;
  parse_rfc3339 = λ t. some (100 * nanos);
  decode_signature = λ t. some t;
  canonical_form = λ m. some [];
  verify_strict = λ key form sig. true;
  to_line = λ x. x.nonce;
}

abbrev pub bot : Bytes
bot = ascii "bot"

abbrev pub entry : StoredAgent ℕ
entry = record {
  key = 7;
  stored = record {
    agent_id = bot;
    public_key = [];
    enrolled_at = [];
    sponsor_id = ascii "s1";
    sponsor_name = ascii "Sam";
    revoked_at = none;
  };
}

abbrev pub enrolled : Store ℕ
enrolled = (bot, entry) ∷ []

abbrev pub message : List (Bytes × Bytes)
message =
    (ascii "chaperone", ascii "0.1")
    ∷ (ascii "agent_id", bot)
    ∷ (ascii "issued_at", ascii "t")
    ∷ (ascii "nonce", ascii "n")
    ∷ (ascii "sig", ascii "0123456789012345678901234567890123456789012345678901234567890123")
    ∷ []

abbrev pub instant : ℕ
instant = 101 * nanos

abbrev pub good_io : Io
good_io = record { rewrite_ok = true; append_ok = true }

abbrev pub intent : VerifiedIntent platform
intent = record { agent_id = bot; envelope = message; issued_at = 100 * nanos; nonce = ascii "n" }

abbrev pub first_cache : Cache
first_cache = record in_memory {
  inner = record {
    seen = ((bot, ascii "n"), 110) ∷ [];
    insertion_order = record { agent = bot; nonce = ascii "n"; expires = 110 } ∷ [];
    journal_lines_written = 1;
  };
}

pub accepted :
    verify platform enrolled 3 in_memory message instant good_io ≡ (first_cache, ok intent)
unfolding verify claim object_gate check_version version_parts non_empty check_freshness within_skew
    check_signature sized verdict after_reservation reserve_and_check resolve key_of is_live
    check_and_reserve purge_expired purge contains_key reserve persist_reservation str_eq split
    lookup insert
accepted = refl
