-- ===== src/Gateway/Guard.antt =====
-- crates/gateway-core/src/policy_guard.rs: the watch over the policy file. SHA-256 is the
-- third-party crate's; a tick is given what the read of the file returned.
pub mod Watch
use chaperone.Prelude.{
  ℕ, zero, suc, ◌+◌, Bytes, List, [], ◌∷◌, ◌++◌, Bool, true, false, Option, none, some, ascii,
  str_eq, leb, if◌then◌else◌,
}
use chaperone.Audit.Hex.{hex}
use chaperone.Gateway.Dispatch.{Halt, halt}

-- Failures of the read other than that the file is missing are one.
pub data FileRead : Type 0 where
  content : Bytes → FileRead
  not_found : FileRead
  unreadable : FileRead

pub record Drift : Type 0 where
  pub observed_hash : Bytes
  pub detail : Bytes

pub data Observation : Type 0 where
  consistent : Observation
  unconfirmed : Observation
  drift : Drift → Observation

-- `chars().take(16)` of a hash, which is ASCII.
abbrev pub take : ℕ → Bytes → Bytes
take zero t = []
take (suc n) [] = []
take (suc n) (b ∷ t) = b ∷ take n t

unfoldable pub short : Bytes → Bytes
short hash = take 16 hash

-- The signed record and the line of the live feed; the sequence number of the first stands in the
-- second, 0 if the append failed.
pub data Alarm : Type 0 where
  appended : Bytes → Drift → Alarm
  announced : Bytes → Drift → Alarm

pub record Watched : Type 0 where
  pub failures : ℕ
  pub status : Halt

module _ (sha256 : Bytes → Bytes) (has_event_hub : Bool) (baseline : Bytes) where
  unfoldable pub hash_doc_bytes : Bytes → Bytes
  hash_doc_bytes bytes = hex (sha256 bytes)

  unfoldable pub check_once : ℕ → FileRead → Observation
  unfolding hash_doc_bytes
  check_once prior_failures (content bytes) =
      let observed = hash_doc_bytes bytes in
      if str_eq observed baseline
      then consistent
      else drift (record { observed_hash = observed; detail = ascii "content changed" })
  check_once prior_failures not_found =
      drift (record { observed_hash = []; detail = ascii "file missing" })
  check_once prior_failures unreadable =
      if leb 1 prior_failures
      then drift (record { observed_hash = []; detail = ascii "file unreadable" })
      else unconfirmed

  unfoldable pub drift_reason : Drift → Bytes
  unfolding short
  drift_reason d =
      ascii "policy integrity guard: "
      ++ (d.detail
          ++ (ascii " (loaded "
              ++ (short baseline ++ (ascii ", observed " ++ (short d.observed_hash ++ ascii ")")))))

  unfoldable pub fire_drift : Halt → Drift → Halt × List Alarm
  unfolding drift_reason
  fire_drift status d = (
    halt (drift_reason d) status,
    appended baseline d ∷ (if has_event_hub then announced baseline d ∷ [] else []),
  )

  unfoldable pub act_on : Watched → Observation → Watched × List Alarm
  unfolding fire_drift
  act_on s consistent = (record s { failures = 0 }, [])
  act_on s unconfirmed = (record s { failures = s.failures + 1 }, [])
  act_on s (drift d) =
      let (status', alarms) = fire_drift s.status d in (record s { status = status' }, alarms)

  -- One round of the loop of `run`.
  unfoldable pub tick : Watched → FileRead → Watched × List Alarm
  unfolding act_on check_once
  tick s found = if s.status.halted then (s, []) else act_on s (check_once s.failures found)

  unfoldable pub run : Watched → List FileRead → Watched × List Alarm
  unfolding tick
  run s [] = (s, [])
  run s (found ∷ later) =
      let (s', alarms) = tick s found in let (last, more) = run s' later in (last, alarms ++ more)
