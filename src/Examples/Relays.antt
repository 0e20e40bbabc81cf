-- ===== src/Examples/Relays.antt =====
-- Session frames, the halt and the policy watch (crates/gateway-core) on a concrete gateway.
use chaperone.Prelude.{
  ℕ, ◌≡◌, ◌⊎◌, refl, Bytes, List, [], ◌∷◌, true, false, none, some, ascii, arith, All, length,
}
use chaperone.Prelude.Map.{text_eq, lookup}
use chaperone.Identity.Attest.{Result, VerifiedIntent, ok}
use chaperone.Identity.Replay.{in_memory}
use chaperone.Gateway.Environment.{given}
use chaperone.Gateway.Sessions.{Entry}
use chaperone.Gateway.Frames.{
  command, FrameAnswers, written, read, output_answer, frame_input, command_frame,
  handle_session_frame,
}
use chaperone.Gateway.Frames.Owner.{IsIdle, Owns, Confined, handle_session_frame-Owns}
use chaperone.Gateway.Frames.Counted.{numbered, counted, command_frame-counted}
use chaperone.Gateway.Dispatch.{not_halted, Halt}
use chaperone.Gateway.Dispatch.Halted.{
  Arrival, message, poll, System, raised, step, steps, IsSilent, steps_halted, poll_stops,
}
use chaperone.Gateway.Guard.{
  content, not_found, unreadable, Drift, drift, drift_reason, check_once, run,
}
use chaperone.Gateway.Guard.Watch.{drifts, stopped, alarms_of, run-drifts}
use chaperone.Examples.Agents.Fixture.{platform, bot, enrolled, intent, instant, good_io}
use chaperone.Examples.Messages.{world, gateway, answers}
use chaperone.Examples.Handles.{entry, table, reached}

abbrev frame : List (Bytes × Bytes)
frame = (ascii "type", ascii "session.command") ∷ (ascii "session_handle", ascii "sess_a") ∷ []

abbrev replies : FrameAnswers world
replies = record {
  decode = λ t. some t;
  write = λ c input. given tt;
  read_batch = λ c. record {
    chunks = record { stream = ascii "stdout"; content = ascii "hi" } ∷ [];
    closed = false;
    exit_code = none;
  };
  append = λ e. some 1;
  access_at = 20;
  clock = 21;
}

handle_session_frame-Owns_example :
    let r = handle_session_frame world gateway enrolled replies frame command table (ok intent) in
    IsIdle world table r
    ⊎ ((v : VerifiedIntent platform) × (handle : Bytes) × (e : Entry ℕ) × (◌≡◌
          {A = Result (VerifiedIntent platform)}
          (ok intent)
          (ok v))
        × (platform.str_field frame (ascii "session_handle") ≡ some handle)
        × Owns world 20 v.agent_id handle command e table
        × Confined world handle e table r)
handle_session_frame-Owns_example =
    handle_session_frame-Owns world gateway enrolled replies frame command table (ok intent)

command_frame-counted_example :
    let r = command_frame world gateway enrolled replies frame bot table (ascii "sess_a") in
    let input = frame_input world gateway enrolled replies frame bot in
    let chunks = (replies.read_batch 1).chunks in
    (r.actions ≡ written 1 input ∷ read 1 ∷ [])
    × (r.answer ≡ output_answer (ascii "sess_a") (numbered 0 chunks) false none none)
    × (lookup (ascii "sess_a") r.sessions ≡ some (counted world entry (length input) chunks))
command_frame-counted_example =
    command_frame-counted world gateway enrolled replies frame bot (ascii "sess_a") table entry 30
      reached (omega arith) refl refl

abbrev digest : Bytes → Bytes
digest b = b

run-drifts_example :
    let reads = unreadable ∷ content [] ∷ unreadable ∷ unreadable ∷ [] in
    let r = run digest true [] (record { failures = 0; status = not_halted }) reads in
    ((drifts digest true [] reads ≡ false) × (r.0.status ≡ not_halted) × (r.1 ≡ []))
    ⊎ ((d : Drift) × (drifts digest true [] reads ≡ true)
        × (r.0.status ≡ stopped digest true [] d)
        × (r.1 ≡ alarms_of digest true [] d))
run-drifts_example =
    run-drifts digest true [] (unreadable ∷ content [] ∷ unreadable ∷ unreadable ∷ [])

abbrev GuardedGateway : Type 0
GuardedGateway = System world gateway enrolled 3 digest []

abbrev after_halt : Halt → GuardedGateway
after_halt status = record {
  live = record { cache = in_memory; sessions = table; status = status };
  failures = 0;
}

abbrev arrivals : List (Arrival world gateway enrolled 3 digest [])
arrivals =
    message (record {
      message = frame;
      now = instant;
      io = good_io;
      intent_answers = answers;
      frame_answers = replies;
    })
    ∷ poll (content [])
    ∷ []

steps_halted_example :
    let s = after_halt (record { halted = true; reason = some (ascii "drift") }) in
    let r = steps world gateway enrolled 3 digest [] s arrivals in
    (r.0 ≡ s) × All (IsSilent world gateway enrolled 3 digest [] (ascii "drift")) r.1
steps_halted_example =
    steps_halted world gateway enrolled 3 digest [] arrivals
      (after_halt (record { halted = true; reason = some (ascii "drift") })) (ascii "drift") refl

abbrev missing : Drift
missing = record { observed_hash = []; detail = ascii "file missing" }

seen_missing : check_once digest true [] 0 not_found ≡ drift missing
unfolding check_once
seen_missing = refl

poll_stops_example :
    let r = step world gateway enrolled 3 digest [] (after_halt not_halted) (poll not_found) in
    (r.1 ≡ raised (alarms_of digest true [] missing))
    × (r.0.live.sessions ≡ table)
    × (r.0.live.cache ≡ in_memory)
    × ((steps world gateway enrolled 3 digest [] r.0 arrivals).0 ≡ r.0)
    × All
        (IsSilent world gateway enrolled 3 digest [] (drift_reason digest true [] missing))
        (steps world gateway enrolled 3 digest [] r.0 arrivals).1
poll_stops_example =
    poll_stops world gateway enrolled 3 digest [] (after_halt not_halted) not_found missing arrivals
      refl seen_missing
