-- ===== src/Gateway/Dispatch.antt =====
-- crates/gateway-core/src/lib.rs: `halt`, `handle_message` and the state that messages share.
pub mod Halted
use chaperone.Prelude.{
  ℕ, Bytes, Bool, true, false, Option, none, some, ascii, str_eq, if◌then◌else◌,
}
use chaperone.Identity.Enrollment.{Store}
use chaperone.Identity.Replay.{Cache, Io}
use chaperone.Identity.Attest.{Platform, verify}
use chaperone.Gateway.Sessions.{Table}
use chaperone.Gateway.Environment.{Gateway, World, Answers, Run, or_default}
use chaperone.Gateway.Intent.{handle_intent}
use chaperone.Gateway.Frames.{
  SessionFrameKind, command, close, FrameAnswers, FrameRun, handle_session_frame,
}

-- `halted` and `halt_reason`.
pub record Halt : Type 0 where
  pub halted : Bool
  pub reason : Option Bytes

-- The two fields as `Gateway::new` makes them.
abbrev pub not_halted : Halt
not_halted = record { halted = false; reason = none }

-- `Gateway::halt`
unfoldable pub halt : Bytes → Halt → Halt
halt why h = elim h.reason [ none ↦ record { halted = true; reason = some why } | some _ ↦ h ]

module _ {p : Platform} (w : World p) where
  open p use {Value, str_field}
  open w use {Channel}

  pub record Live : Type 0 where
    pub cache : Cache
    pub sessions : Table Channel
    pub status : Halt

  -- A message, the time that verification reads, and what the world answers meanwhile.
  pub record Inbound : Type 0 where
    pub message : Value
    pub now : ℕ
    pub io : Io
    pub intent_answers : Answers w
    pub frame_answers : FrameAnswers w

  pub data Handled : Type 0 where
    refused : Bytes → Bytes → Handled
    ran_intent : Run w → Handled
    ran_frame : FrameRun w → Handled

  module _ (g : Gateway) (store : Store p.Key) (max_skew_secs : ℕ) where
    unfoldable pub intent_message : Live → Inbound → Live × Handled
    intent_message s i =
        let (cache', run) =
          handle_intent w g store i.intent_answers s.sessions max_skew_secs s.cache i.message i.now
            i.io in
        (record s { cache = cache'; sessions = run.sessions }, ran_intent run)

    -- The frame's own verification comes first.
    unfoldable pub frame_message : SessionFrameKind → Live → Inbound → Live × Handled
    frame_message kind s i =
        let (cache', verified) = verify p store max_skew_secs s.cache i.message i.now i.io in
        let run =
          handle_session_frame w g store i.frame_answers i.message kind s.sessions verified in
        (record s { cache = cache'; sessions = run.sessions }, ran_frame run)

    unfoldable pub by_type : Live → Inbound → Option Bytes → Live × Handled
    by_type s i none = (s, refused (ascii "E_MECHANISM") (ascii "unsupported message type"))
    by_type s i (some t) =
        if str_eq t (ascii "intent")
        then intent_message s i
        else if str_eq t (ascii "session.command")
        then frame_message command s i
        else if str_eq t (ascii "session.close")
        then frame_message close s i
        else (s, refused (ascii "E_MECHANISM") (ascii "unsupported message type"))

    unfoldable pub handle_message : Live → Inbound → Live × Handled
    unfolding by_type
    handle_message s i =
        if s.status.halted
        then (
          s,
          refused (ascii "E_GATEWAY_HALTED")
              (or_default w s.status.reason (ascii "gateway halted")),
        )
        else by_type s i (str_field i.message (ascii "type"))
