-- ===== src/Gateway/Frames.antt =====
-- crates/gateway-core/src/lib.rs: the frames of an open session (`handle_session_frame`), as what
-- they do under given answers of the world. One frame runs with no other message in between; base64
-- is the third-party crate's.
pub mod Owner
pub mod Counted
use chaperone.Prelude.{
  ℕ, ◌+◌, ◌-◌, Bytes, List, [], ◌∷◌, ◌++◌, map, Bool, true, false, Option, none, some, ascii,
  length, ◌==◌, if◌then◌else◌,
}
use chaperone.Prelude.Map.{text_eq, insert}
use chaperone.Prelude.Trim.{trim}
use chaperone.Policy.Engine.{allow, effect_as_str}
use chaperone.Identity.Enrollment.{Store, sponsor_id_of}
use chaperone.Identity.Attest.{Platform, Result, ok, err, VerifiedIntent}
use chaperone.Gateway.Sessions.{
  Entry, Table, granted, denied, code_and_reason, access, Access, take, next_out_seq, record_relay,
  reap_expired, heartbeat_due,
}
use chaperone.Gateway.Environment.{
  Except, failed, given, Gateway, AuditEvent, World, or_default, session_closed,
}
use chaperone.Gateway.Intent.{error_code, identity_reason}

pub data SessionFrameKind : Type 0 where
  command : SessionFrameKind
  close : SessionFrameKind

-- `OutputChunk` and `OutputBatch`.
pub record Chunk : Type 0 where
  pub stream : Bytes
  pub content : Bytes

-- The exit code is the `i32` as its 32 bits.
pub record Batch : Type 0 where
  pub chunks : List Chunk
  pub closed : Bool
  pub exit_code : Option ℕ

-- One element of `outputs`; the base64 of its data is left out.
pub record Output : Type 0 where
  pub seq : ℕ
  pub stream : Bytes
  pub content : Bytes

pub data Answer : Type 0 where
  error : Bytes → Bytes → Answer
  closed_answer : Bytes → ℕ → Answer
  output_answer : Bytes → List Output → Bool → Option ℕ → Option ℕ → Answer

-- The session event of the live feed.
pub record SessionEvent : Type 0 where
  pub event : Bytes
  pub session_handle : Bytes
  pub agent_id : Bytes
  pub sponsor_id : Bytes
  pub mechanism : Bytes
  pub target_uri : Bytes
  pub target_label : Bytes
  pub commands : ℕ
  pub bytes_in : ℕ
  pub bytes_out : ℕ
  pub elapsed_secs : ℕ

abbrev pub total_bytes : List Chunk → ℕ
total_bytes [] = 0
total_bytes (c ∷ cs) = length c.content + total_bytes cs

module _ {p : Platform} (w : World p) where
  open p use {Value, str_field}
  open w use {Channel, debug}

  -- What the world answers while one frame is handled: `access_at` and `clock` are the instants of
  -- the look at the session's time and of the summary.
  pub record FrameAnswers : Type 0 where
    pub decode : Bytes → Option Bytes
    pub write : Channel → Bytes → Except (Unit {0})
    pub read_batch : Channel → Batch
    pub append : AuditEvent Value → Option ℕ
    pub access_at : ℕ
    pub clock : ℕ

  pub data FrameAction : Type 0 where
    written : Channel → Bytes → FrameAction
    read : Channel → FrameAction
    shut_down : Channel → FrameAction
    announced : SessionEvent → FrameAction
    recorded : AuditEvent Value → FrameAction

  pub record FrameRun : Type 0 where
    pub actions : List FrameAction
    pub sessions : Table Channel
    pub answer : Answer

  abbrev pub only_error : Table Channel → Bytes × Bytes → FrameRun
  only_error sessions (code, reason) = record {
    actions = [];
    sessions = sessions;
    answer = error code reason;
  }

  abbrev pub before : List FrameAction → FrameRun → FrameRun
  before done r = record r { actions = done ++ r.actions }

  -- The chunks with the numbers that the counter of the session gives them.
  unfoldable pub number_chunks : Entry Channel → List Chunk → Entry Channel × List Output
  number_chunks e [] = (e, [])
  number_chunks e (c ∷ cs) =
      let (e', seq) = next_out_seq Channel e in
      let (last, outputs) = number_chunks e' cs in
      (last, record { seq = seq; stream = c.stream; content = c.content } ∷ outputs)

  module _ (g : Gateway) (store : Store p.Key) where
    unfoldable pub broadcast_session_event : Bytes → Bytes → Entry Channel → ℕ → List FrameAction
    broadcast_session_event event handle e clock =
        let line : SessionEvent = record {
          event = event;
          session_handle = handle;
          agent_id = e.agent_id;
          sponsor_id = or_default w (sponsor_id_of store e.agent_id) [];
          mechanism = e.mechanism;
          target_uri = e.target_uri;
          target_label = e.target_label;
          commands = e.commands;
          bytes_in = e.bytes_in;
          bytes_out = e.bytes_out;
          elapsed_secs = clock - e.opened_at;
        } in
        if g.has_event_hub then announced line ∷ [] else []

    -- The end of a session: its channel is shut down, then its summary is sent.
    unfoldable pub tear_down : Bytes → Entry Channel → ℕ → List FrameAction
    tear_down handle e clock =
        shut_down e.channel ∷ broadcast_session_event (ascii "session.summary") handle e clock

    module _ (a : FrameAnswers) (message : Value) (agent : Bytes) where
      unfoldable pub closing_event : Bytes → Bytes → Option ℕ → AuditEvent Value
      closing_event mechanism reason exit_code = record {
        agent_id = agent;
        sponsor_id = or_default w (sponsor_id_of store agent) [];
        msg_id = or_default w (str_field message (ascii "msg_id")) [];
        mechanism = mechanism;
        target_uri = [];
        target_label = [];
        cred_ref = [];
        effect = effect_as_str allow;
        outcome = session_closed reason exit_code;
        intent_envelope = message;
        ruleset_hash = g.ruleset_hash;
      }

      -- The record of the end, and the answer made from its number.
      unfoldable pub recorded_end : Table Channel → AuditEvent Value → (ℕ → Answer) → FrameRun
      recorded_end sessions event answer = record {
        actions = recorded event ∷ [];
        sessions = sessions;
        answer = answer (or_default w (a.append event) 0);
      }

      unfoldable pub close_taken : Bytes → Table Channel × Option (Entry Channel) → FrameRun
      unfolding tear_down
      close_taken handle (sessions, none) =
          only_error sessions (ascii "E_SESSION_EXPIRED", ascii "unknown or expired session_handle")
      close_taken handle (sessions, some e) = before (tear_down handle e a.clock) (
          recorded_end sessions (closing_event (ascii "session.close") (ascii "client_close") none)
            (closed_answer handle))

      unfoldable pub close_frame : Table Channel → Bytes → FrameRun
      unfolding close_taken
      close_frame sessions handle = close_taken handle (take Channel sessions handle agent)

      -- `take` once more, when the channel has closed.
      unfoldable pub exited :
          Bytes → List Output → Option ℕ → Table Channel × Option (Entry Channel) → FrameRun
      unfolding tear_down
      exited handle outputs exit_code (sessions, taken) =
          let end : List FrameAction = elim taken [
            | none ↦ []
            | some e ↦ tear_down handle e a.clock
          ] in
          before end (
            recorded_end sessions
              (closing_event (ascii "session.command") (ascii "exited") exit_code)
              (λ seq. output_answer handle outputs true exit_code (some seq)))

      -- The counters are shared with the table, so what they become is stored in it.
      unfoldable pub after_batch : Table Channel → Bytes → Entry Channel → ℕ → Batch → FrameRun
      unfolding number_chunks exited
      after_batch sessions handle e in_len batch =
          let counted = record_relay Channel e in_len (total_bytes batch.chunks) in
          let (last, outputs) = number_chunks counted batch.chunks in
          let sessions' = insert handle last sessions in
          if batch.closed
          then exited handle outputs batch.exit_code (take Channel sessions' handle agent)
          else record {
            actions = [];
            sessions = sessions';
            answer = output_answer handle outputs false none none;
          }

      unfoldable pub relay : Table Channel → Bytes → Entry Channel → Bytes → FrameRun
      unfolding after_batch
      relay sessions handle e input =
          before (written e.channel input ∷ []) (elim (a.write e.channel input) [
            | failed why ↦
                only_error sessions (ascii "E_MECHANISM", ascii "channel write failed: " ++ why)
            | given _ ↦
                before (read e.channel ∷ [])
                  (after_batch sessions handle e (length input) (a.read_batch e.channel))
          ])

      unfoldable pub relay_granted : Table Channel → Bytes → Bytes → Access Channel → FrameRun
      unfolding relay
      relay_granted sessions handle input (denied why) = only_error sessions (code_and_reason why)
      relay_granted sessions handle input (granted e left) = relay sessions handle e input

      -- `base64_std_decode` of the field, if it is there.
      unfoldable pub frame_input : Bytes
      frame_input = elim (str_field message (ascii "input_b64")) [
        | none ↦ []
        | some b64 ↦ or_default w (a.decode (trim b64)) []
      ]

      unfoldable pub command_frame : Table Channel → Bytes → FrameRun
      unfolding relay_granted
      command_frame sessions handle =
          relay_granted sessions handle frame_input
            (access Channel sessions handle agent a.access_at)

      unfoldable pub frame_of_kind : SessionFrameKind → Table Channel → Bytes → FrameRun
      frame_of_kind command sessions handle = command_frame sessions handle
      frame_of_kind close sessions handle = close_frame sessions handle

      unfoldable pub frame_of_handle : SessionFrameKind → Table Channel → Option Bytes → FrameRun
      frame_of_handle kind sessions none =
          only_error sessions (ascii "E_SESSION_EXPIRED", ascii "frame carries no session_handle")
      frame_of_handle kind sessions (some handle) = frame_of_kind kind sessions handle

    -- `handle_session_frame`, given what `verify` made of the message.
    unfoldable pub handle_session_frame :
        FrameAnswers
        → Value
        → SessionFrameKind
        → Table Channel
        → Result (VerifiedIntent p)
        → FrameRun
    handle_session_frame a message kind sessions (err e) =
        only_error sessions (error_code e, identity_reason debug e)
    handle_session_frame a message kind sessions (ok v) =
        frame_of_handle a message v.agent_id kind sessions
          (str_field message (ascii "session_handle"))
