-- ===== src/Transport/Server/Pipeline.antt =====
-- The loop of one connection over the messages that its frames carry.
use chaperone.Prelude.{
  ℕ, zero, suc, ◌≤◌, ◌<◌, ◌≡◌, refl, ap, ◌∙◌, inl, inr, true, some, none, Bytes, List, [], ◌∷◌,
  ◌++◌, append_assoc, arith, length, length-append, All, if-either, Option, ascii, if◌then◌else◌,
}
use chaperone.Prelude.Utf8.{is_utf8}
use chaperone.Prelude.Search.{ends_with_iff}
use chaperone.Prelude.Fallible.{Fallible, ok, err}
use mathlib.Core.Path.{fun_ext}
use chaperone.Transport.Codec.{
  FrameError, closed, io, malformed_header, header_too_large, frame_too_large, unexpected_eof,
  invalid_utf8, Ending, read_frame, write_frame, header_terminator, max_frame_bytes,
}
use chaperone.Transport.Codec.RoundTrip.{read_frame-write_frame}
use chaperone.Transport.Codec.Accepted.{read_frame_accepted, Read-cases}
use chaperone.Transport.Message.{Json, Request, MessageError, parse}
use chaperone.Transport.Server.{
  Event, wrote, Peer, Outcome, before, observe, respond, handle_request, handle_text, frame_failed,
  handle_frame, drive_connection,
}

-- The payloads that a frame can carry.
abbrev pub IsFrameable : Bytes → Type 0
IsFrameable p = (is_utf8 p ≡ true) × (length p ≤ max_frame_bytes)

abbrev pub frames : List Bytes → Bytes
frames [] = []
frames (p ∷ ps) = write_frame p ++ frames ps

-- One round of fuel for each message.
abbrev pub rounds : List Bytes → ℕ → ℕ
rounds [] fuel = fuel
rounds (p ∷ ps) fuel = suc (rounds ps fuel)

module _ {json : Json} {State : Type 0} (peer : Peer json State) where
  -- The messages handled one after the other, and then `last`.
  abbrev pub handle_texts :
      (State → ℕ → Outcome json State) → List Bytes → State → ℕ → Outcome json State
  handle_texts last [] state k = last state k
  handle_texts last (p ∷ ps) state k = handle_text json State peer (handle_texts last ps) state k p

  -- Frames that arrive on a connection are handled as the messages that they carry, in their order
  -- and each once, and then the loop goes on with the bytes behind them: no message is lost, merged
  -- or split, and how the first messages end (a response that cannot be delivered, a payload that is
  -- no request) decides alike whether the later ones are handled.
  pub drive_connection-frames :
      (ending : Ending) (ps : List Bytes) (rest : Bytes) (fuel : ℕ) (state : State) (k : ℕ)
      → All IsFrameable ps
      → drive_connection json State peer (rounds ps fuel) ending (frames ps ++ rest) state k
        ≡ handle_texts (drive_connection json State peer fuel ending rest) ps state k
  unfolding drive_connection handle_frame
  drive_connection-frames ending [] rest fuel state k h = refl
  drive_connection-frames ending (p ∷ ps) rest fuel state k ((valid, small), h) =
      let next = drive_connection json State peer (rounds ps fuel) ending in
      let read : read_frame ending ((write_frame p ++ frames ps) ++ rest)
          ≡ (ok p, frames ps ++ rest) =
        rw (append_assoc (write_frame p) (frames ps) rest)
          (read_frame-write_frame ending p (frames ps ++ rest) valid small) in
      ap (handle_frame json State peer next state k) read
      ∙ ap (λ n. handle_text json State peer n state k p)
          (fun_ext λ st. fun_ext λ j. drive_connection-frames ending ps rest fuel st j h)

  -- The loop is over, with fuel left.
  abbrev pub IsOver : Outcome json State → Type 0
  IsOver o = (out : List Event × State) × (o ≡ some out)

  before-IsOver :
      (done : List Event) (o : Outcome json State) → IsOver o → IsOver (before json State done o)
  before-IsOver done none (out, e) = absurd (cc e)
  before-IsOver done (some (later, state)) h = ((done ++ later, state), refl)

  module _ (next : State → ℕ → Outcome json State)
      (ends : (st : State) (j : ℕ) → IsOver (next st j)) where
    respond-IsOver :
        (state : State) (k : ℕ) (payload : Option Bytes)
        → IsOver (respond json State peer next state k payload)
    unfolding respond
    respond-IsOver state k none = (_, refl)
    respond-IsOver state k (some payload) =
        let later = before json State (wrote (write_frame payload) ∷ []) (next state (suc k)) in
        before-IsOver (observe json State peer (ascii "response") payload)
          (if peer.delivers k then later else some ([], state))
          (if-either IsOver (peer.delivers k)
            (before-IsOver (wrote (write_frame payload) ∷ []) (next state (suc k))
              (ends state (suc k)))
            (([], state), refl))

    handle_request-IsOver :
        (state : State) (k : ℕ) (r : Fallible MessageError (Request json))
        → IsOver (handle_request json State peer next state k r)
    unfolding handle_request
    handle_request-IsOver state k (err why) = (_, refl)
    handle_request-IsOver state k (ok request) =
        respond-IsOver (peer.handler state request).0 k (json.to_vec (peer.handler state request).1)

    handle_text-IsOver :
        (state : State) (k : ℕ) (p : Bytes) → IsOver (handle_text json State peer next state k p)
    unfolding handle_text
    handle_text-IsOver state k p = before-IsOver _ _ (handle_request-IsOver state k (parse json p))

  frame_failed-IsOver :
      (state : State) (k : ℕ) (e : FrameError) → IsOver (frame_failed json State peer state k e)
  unfolding frame_failed
  frame_failed-IsOver state k closed = (_, refl)
  frame_failed-IsOver state k io = (_, refl)
  frame_failed-IsOver state k (malformed_header why) = (_, refl)
  frame_failed-IsOver state k header_too_large = (_, refl)
  frame_failed-IsOver state k (frame_too_large n) = (_, refl)
  frame_failed-IsOver state k unexpected_eof = (_, refl)
  frame_failed-IsOver state k invalid_utf8 = (_, refl)

  frame_shorter :
      (ending : Ending) (s p left : Bytes)
      → read_frame ending s ≡ (ok p, left)
      → length left < length s
  frame_shorter ending s p left e =
      let (header, split, ended, _, _, _, _) = read_frame_accepted ending s p left e in
      let (pre, blank) = (ends_with_iff header_terminator header).0 ended in
      omega (
        arith,
        ap length split,
        ap length blank,
        length-append header (p ++ left),
        length-append p left,
        length-append pre header_terminator,
      )

  -- More rounds than the connection has bytes are enough: the loop comes to its end, whatever the
  -- peer sends, the handler answers and the channel delivers.
  pub drive_connection-IsOver :
      (fuel : ℕ) (ending : Ending) (stream : Bytes) (state : State) (k : ℕ)
      → length stream < fuel
      → IsOver (drive_connection json State peer fuel ending stream state k)
  unfolding drive_connection handle_frame frame_failed
  drive_connection-IsOver zero ending stream state k h = absurd (omega arith)
  drive_connection-IsOver (suc fuel) ending stream state k h =
      elim (Read-cases (read_frame ending stream)) [
        | inl (p, left, e) ↦ rw e (
            handle_text-IsOver (drive_connection json State peer fuel ending left)
              (λ st j.
                drive_connection-IsOver fuel ending left st j
                  (omega (arith, h, frame_shorter ending stream p left e)))
              state k p)
        | inr (why, left, e) ↦ rw e (frame_failed-IsOver state k why)
      ]
