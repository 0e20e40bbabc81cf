-- ===== src/Transport/Server.antt =====
-- crates/transport/src/server.rs: the loop over the messages of one connection. The handler is the
-- caller's, with a state of its own; `delivers k` says whether the k-th frame goes out, and what a
-- frame that does not leaves on the channel is not modelled.
pub mod Pipeline
use chaperone.Prelude.{
  ℕ, zero, suc, Bytes, List, [], ◌∷◌, ◌++◌, Bool, true, false, Option, none, some, ascii, is_empty,
  if◌then◌else◌,
}
use chaperone.Prelude.Fallible.{Fallible, err, ok}
use chaperone.Transport.Codec.{FrameError, closed, display, Ending, Read, read_frame, write_frame}
use chaperone.Transport.Message.{Json, Request, MessageError, parse, transport_error_frame}

pub data Event : Type 0 where
  observed : Bytes → Bytes → Event
  wrote : Bytes → Event

module _ (json : Json) (State : Type 0) where
  open json use {Value, to_vec}

  pub record Peer : Type 0 where
    pub handler : State → Request json → State × Value
    pub has_observer : Bool
    pub delivers : ℕ → Bool

  -- What one connection has done when it is over, and the handler's state then; none is the loop
  -- out of fuel.
  abbrev pub Outcome : Type 0
  Outcome = Option (List Event × State)

  abbrev pub before : List Event → Outcome → Outcome
  before done none = none
  before done (some (later, state)) = some (done ++ later, state)

  abbrev pub or_empty : Option Bytes → Bytes
  or_empty none = []
  or_empty (some bytes) = bytes

  module _ (peer : Peer) where
    open peer use {handler, has_observer, delivers}

    abbrev pub observe : Bytes → Bytes → List Event
    observe direction bytes = if has_observer then observed direction bytes ∷ [] else []

    unfoldable pub answer_protocol_violation : ℕ → Bytes → List Event
    answer_protocol_violation k reason =
        let frame = or_empty (to_vec (transport_error_frame json reason)) in
        if is_empty frame then [] else (if delivers k then wrote (write_frame frame) ∷ [] else [])

    -- The response, and the rest of the loop once it is out.
    unfoldable pub respond : (State → ℕ → Outcome) → State → ℕ → Option Bytes → Outcome
    respond next state k none =
        some (answer_protocol_violation k (ascii "response serialization failed"), state)
    respond next state k (some payload) =
        let later = before (wrote (write_frame payload) ∷ []) (next state (suc k)) in
        before (observe (ascii "response") payload) (if delivers k then later else some ([], state))

    unfoldable pub handle_request :
        (State → ℕ → Outcome) → State → ℕ → Fallible MessageError (Request json) → Outcome
    unfolding respond
    handle_request next state k (err why) =
        some (answer_protocol_violation k (ascii "frame payload is not a JSON object"), state)
    handle_request next state k (ok request) =
        let (state', response) = handler state request in respond next state' k (to_vec response)

    -- One message: `next` is the loop from the state and the number of frames that it leaves.
    unfoldable pub handle_text : (State → ℕ → Outcome) → State → ℕ → Bytes → Outcome
    handle_text next state k text =
        before (observe (ascii "request") text) (handle_request next state k (parse json text))

    unfoldable pub frame_failed : State → ℕ → FrameError → Outcome
    frame_failed state k closed = some ([], state)
    frame_failed state k e = some (answer_protocol_violation k (display e), state)

    unfoldable pub handle_frame : (Bytes → State → ℕ → Outcome) → State → ℕ → Read Bytes → Outcome
    handle_frame next state k (err e, left) = frame_failed state k e
    handle_frame next state k (ok text, left) = handle_text (next left) state k text

    unfoldable pub drive_connection : ℕ → Ending → Bytes → State → ℕ → Outcome
    drive_connection zero ending stream state k = none
    drive_connection (suc fuel) ending stream state k =
        handle_frame (drive_connection fuel ending) state k (read_frame ending stream)
