-- ===== src/Identity/Attest.antt =====
-- crates/identity/src/lib.rs: `Attestor::verify`, the sequence of checks on one message. Instants are
-- nanoseconds since the earliest instant of the `time` crate. JSON, base64, RFC 3339, the canonical
-- serializer and Ed25519 are the parameters of `Platform`.
pub mod NoReplay
pub mod Sound
use chaperone.Prelude.{
  ℕ, ◌+◌, ◌*◌, ◌-◌, ◌/◌, ◌^◌, min, Bytes, List, [], ◌∷◌, Bool, true, false, not, Option, none, some,
  length, is_empty, ascii, str_eq, split, ltb, ◌==◌, if◌then◌else◌,
}
use chaperone.Identity.Enrollment.{Store, resolve}
use chaperone.Prelude.Fallible.{Fallible, ensure}
pub use chaperone.Prelude.Fallible.{ok, err, ◌>>=◌, ◌>>◌}
use chaperone.Identity.Replay.{
  Line, Cache, Io, Reservation, fresh, duplicate, capacity_full, check_and_reserve,
}

-- `str_field m name` is `m.get(name).and_then(Value::as_str)`; `canonical_form` is
-- `chaperone_protocol::canonical_form`, none for an error; `verify_strict key form sig` is that of
-- `ed25519_dalek`; `to_line` is the JSON form of a journal line.
pub record Platform : Type 1 where
  pub Value : Type 0
  pub Key : Type 0
  pub is_object : Value → Bool
  pub str_field : Value → Bytes → Option Bytes
  pub parse_rfc3339 : Bytes → Option ℕ
  pub decode_signature : Bytes → Option Bytes
  pub canonical_form : Value → Option Bytes
  pub verify_strict : Key → Bytes → Bytes → Bool
  pub to_line : Line → Bytes

pub data IdentityError : Type 0 where
  unsupported_version : Bytes → IdentityError
  unknown_agent : Bytes → IdentityError
  replay : Bytes → IdentityError
  bad_signature : IdentityError

abbrev pub Result {ℓ} : Type ℓ → Type ℓ
Result A = Fallible IdentityError A

abbrev pub or_err {ℓ} : {A : Type ℓ} → Option A → IdentityError → Result A
or_err none e = err e
or_err (some a) e = ok a

abbrev pub nanos : ℕ
nanos = 1000000000

abbrev pub i64_width : ℕ
i64_width = 2 ^ 63 - 1

-- `|a - b|`
abbrev pub distance : ℕ → ℕ → ℕ
distance a b = (a - b) + (b - a)

-- The parts around the dots: two of them, and the first is "0".
unfoldable pub version_parts : Bytes → List Bytes → Result (Unit {0})
version_parts version (major ∷ minor ∷ []) =
    if str_eq major (ascii "0") then ok tt else err (unsupported_version version)
version_parts version _ = err (unsupported_version version)

unfoldable pub check_version : Option Bytes → Result (Unit {0})
check_version none = err (unsupported_version (ascii "<missing>"))
check_version (some version) = version_parts version (split b'.' version)

-- `Some(s) if !s.is_empty()`
unfoldable pub non_empty : Option Bytes → IdentityError → Result Bytes
non_empty none e = err e
non_empty (some s) e = if is_empty s then err e else ok s

-- `saturating_mul(3)`
abbrev pub retention : ℕ → ℕ
retention max_skew_secs = min (max_skew_secs * 3) i64_width

-- The difference of the instants in whole seconds is cut towards zero.
unfoldable pub within_skew : ℕ → ℕ → ℕ → Result ℕ
within_skew now max_skew_secs parsed =
    if ltb max_skew_secs (distance now parsed / nanos)
    then err (replay (ascii "issued_at outside allowed skew"))
    else ok parsed

module _ (p : Platform) where
  open p use {
    Value, Key, is_object, str_field, parse_rfc3339, decode_signature, canonical_form,
    verify_strict, to_line,
  }

  unfoldable pub check_freshness : Option Bytes → ℕ → ℕ → Result ℕ
  check_freshness issued_at now max_skew_secs = do
    raw ← or_err issued_at (replay (ascii "missing issued_at"))
    parsed ← or_err (parse_rfc3339 raw) (replay (ascii "issued_at is not RFC 3339"))
    within_skew now max_skew_secs parsed

  -- What the message claims, once steps 0 to 2a pass.
  pub record Claim : Type 0 where
    pub agent_id : Bytes
    pub verifying_key : Key
    pub issued_at : ℕ
    pub nonce : Bytes

  pub record VerifiedIntent : Type 0 where
    pub agent_id : Bytes
    pub envelope : Value
    pub issued_at : ℕ
    pub nonce : Bytes

  unfoldable pub object_gate : Value → Result (Unit {0})
  object_gate message = if is_object message then ok tt else err bad_signature

  -- The checks that come before the nonce is reserved, in order.
  unfoldable pub claim : Store Key → ℕ → Value → ℕ → Result Claim
  claim store max_skew_secs message now = do
    object_gate message
    check_version (str_field message (ascii "chaperone"))
    agent ← non_empty (str_field message (ascii "agent_id")) (unknown_agent (ascii "<unnamed>"))
    key ← or_err (resolve store agent) (unknown_agent agent)
    issued ← check_freshness (str_field message (ascii "issued_at")) now max_skew_secs
    nonce ← non_empty (str_field message (ascii "nonce")) (replay (ascii "missing nonce"))
    ok (record { agent_id = agent; verifying_key = key; issued_at = issued; nonce = nonce })

  -- `try_into` of the bytes of a signature, which are 64.
  unfoldable pub sized : Bytes → Result Bytes
  sized b = if length b == 64 then ok b else err bad_signature

  unfoldable pub verdict : Value → Claim → Bool → Result VerifiedIntent
  verdict message c true = ok (record {
    agent_id = c.agent_id;
    envelope = message;
    issued_at = c.issued_at;
    nonce = c.nonce;
  })
  verdict message c false = err bad_signature

  unfoldable pub check_signature : Value → Claim → Result VerifiedIntent
  check_signature message c = do
    encoded ← or_err (str_field message (ascii "sig")) bad_signature
    bytes ← or_err (decode_signature encoded) bad_signature
    sig ← sized bytes
    form ← or_err (canonical_form message) bad_signature
    verdict message c (verify_strict c.verifying_key form sig)

  unfoldable pub after_reservation : Value → Claim → Reservation → Result VerifiedIntent
  after_reservation message c fresh = check_signature message c
  after_reservation message c duplicate = err (replay (ascii "nonce already used"))
  after_reservation message c capacity_full = err (replay (ascii "replay cache at capacity"))

  unfoldable pub reserve_and_check :
      ℕ → Cache → Value → ℕ → Io → Claim → Cache × Result VerifiedIntent
  reserve_and_check max_skew_secs cache message now io c =
      let (cache', r) =
        check_and_reserve to_line cache c.agent_id c.nonce (now / nanos) (retention max_skew_secs)
          io in
      (cache', after_reservation message c r)

  unfoldable pub verify : Store Key → ℕ → Cache → Value → ℕ → Io → Cache × Result VerifiedIntent
  verify store max_skew_secs cache message now io = elim (claim store max_skew_secs message now) [
    | err e ↦ (cache, err e)
    | ok c ↦ reserve_and_check max_skew_secs cache message now io c
  ]
