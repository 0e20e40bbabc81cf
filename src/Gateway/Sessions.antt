-- ===== src/Gateway/Sessions.antt =====
-- crates/gateway-core/src/session.rs: the table of live sessions. Instants are numbers; the caller
-- gives the clock and the random part of a handle. An `Entry` that the source shares by `Arc` is
-- updated by what the counters' operations return.
pub mod Owned
use chaperone.Prelude.{
  ℕ, ◌+◌, ◌-◌, ◌%◌, ◌^◌, Bytes, List, [], ◌∷◌, ◌++◌, map, Bool, true, false, Option, none, some,
  ascii, str_eq, leb, ltb, if◌then◌else◌,
}
use chaperone.Prelude.Map.{text_eq, Map, lookup, insert, remove}

abbrev pub session_prefix : Bytes
session_prefix = ascii "sess_"

pub data Denied : Type 0 where
  unknown_handle : Denied
  session_owner : Denied
  session_expired : Denied

-- The code and the text that `access` gives for a refusal.
pub code_and_reason : Denied → Bytes × Bytes
code_and_reason unknown_handle = (ascii "E_SESSION_EXPIRED", ascii "unknown session_handle")
code_and_reason session_owner =
    (ascii "E_SESSION_OWNER", ascii "frame identity differs from session opener")
code_and_reason session_expired = (ascii "E_SESSION_EXPIRED", ascii "session past its TTL")

module _ (Channel : Type 0) where
  pub record Entry : Type 0 where
    pub agent_id : Bytes
    pub mechanism : Bytes
    pub target_uri : Bytes
    pub target_label : Bytes
    pub expires_at : ℕ
    pub opened_at : ℕ
    pub out_seq : ℕ
    pub commands : ℕ
    pub bytes_in : ℕ
    pub bytes_out : ℕ
    pub last_beat : Option ℕ
    pub channel : Channel

  abbrev pub Table : Type 0
  Table = Map Bytes Entry

  pub data Access : Type 0 where
    granted : Entry → ℕ → Access
    denied : Denied → Access

  -- `SessionTable::insert`; `raw` is the encoded random part of the handle.
  pub open_entry : Table → Bytes → Bytes → Bytes → Bytes → Bytes → Channel → ℕ → ℕ → Table × Bytes
  open_entry table raw agent mechanism uri label channel ttl now =
      let handle = session_prefix ++ raw in
      let entry : Entry = record {
        agent_id = agent;
        mechanism = mechanism;
        target_uri = uri;
        target_label = label;
        expires_at = now + ttl;
        opened_at = now;
        out_seq = 0;
        commands = 0;
        bytes_in = 0;
        bytes_out = 0;
        last_beat = none;
        channel = channel;
      } in
      (insert handle entry table, handle)

  unfoldable pub access_entry : Bytes → ℕ → Option Entry → Access
  access_entry agent now none = denied unknown_handle
  access_entry agent now (some entry) =
      if str_eq entry.agent_id agent
      then (if ltb now entry.expires_at
          then granted entry (entry.expires_at - now)
          else denied session_expired)
      else denied session_owner

  unfoldable pub access : Table → Bytes → Bytes → ℕ → Access
  access table handle agent now = access_entry agent now (lookup handle table)

  pub take_entry : Table → Bytes → Bytes → Option Entry → Table × Option Entry
  take_entry table handle agent none = (remove handle table, none)
  take_entry table handle agent (some entry) =
      if str_eq entry.agent_id agent then (remove handle table, some entry) else (table, none)

  pub take : Table → Bytes → Bytes → Table × Option Entry
  take table handle agent = take_entry table handle agent (lookup handle table)

  -- The first pass of `reap_expired`: the sessions past their time.
  pub expired : ℕ → Table → Table
  expired now [] = []
  expired now ((h, e) ∷ rest) =
      let others = expired now rest in if leb e.expires_at now then (h, e) ∷ others else others

  -- Its second pass: each is removed, and returned if it was still there.
  pub remove_each : List Bytes → Table → Table × Table
  remove_each [] table = (table, [])
  remove_each (h ∷ hs) table =
      let (left, removed) = remove_each hs (remove h table) in
      (left, elim (lookup h table) [ none ↦ removed | some e ↦ (h, e) ∷ removed ])

  pub reap_expired : Table → ℕ → Table × Table
  reap_expired table now = remove_each (map (λ x. x.0) (expired now table)) table

  -- `fetch_add` wraps.
  abbrev pub fetch_add : ℕ → ℕ → ℕ
  fetch_add counter n = (counter + n) % 2 ^ 64

  unfoldable pub next_out_seq : Entry → Entry × ℕ
  next_out_seq e = (record e { out_seq = fetch_add e.out_seq 1 }, fetch_add e.out_seq 1)

  unfoldable pub record_relay : Entry → ℕ → ℕ → Entry
  record_relay e bytes_in bytes_out = record e {
    commands = fetch_add e.commands 1;
    bytes_in = fetch_add e.bytes_in bytes_in;
    bytes_out = fetch_add e.bytes_out bytes_out;
  }

  -- The test of the time since the last beat.
  unfoldable pub beat_due : ℕ → ℕ → Option ℕ → Bool
  beat_due threshold now none = true
  beat_due threshold now (some last) = leb threshold (now - last)

  unfoldable pub heartbeat_due : Entry → ℕ → ℕ → Entry × Bool
  heartbeat_due e threshold now =
      let due = beat_due threshold now e.last_beat in
      if ltb (now - e.opened_at) threshold
      then (e, false)
      else (if due then (record e { last_beat = some now }, true) else (e, false))
