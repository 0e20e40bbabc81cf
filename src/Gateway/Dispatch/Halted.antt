-- ===== src/Gateway/Dispatch/Halted.antt =====
-- A halted gateway stays halted and does nothing more, whatever comes
-- (`halt`, `handle_message` of crates/gateway-core/src/lib.rs with the watch of policy_guard.rs).
use chaperone.Prelude.{
  ℕ, ◌≡◌, refl, ap, ◌∙◌, Bytes, List, [], ◌∷◌, true, some, ascii, All, if◌then◌else◌,
}
use chaperone.Identity.Enrollment.{Store}
use chaperone.Identity.Attest.{Platform}
use chaperone.Gateway.Environment.{Gateway, World, or_default}
use chaperone.Gateway.Dispatch.{
  Halt, not_halted, Live, Inbound, Handled, refused, by_type, handle_message,
}
use chaperone.Gateway.Guard.{FileRead, Drift, drift, Watched, Alarm, check_once, drift_reason, tick}
use chaperone.Gateway.Guard.Watch.{tick_halted, tick_drift, stopped, alarms_of}

module _ {p : Platform} (w : World p) (g : Gateway) (store : Store p.Key) (max_skew_secs : ℕ)
    (sha256 : Bytes → Bytes) (baseline : Bytes) where
  -- The gateway with its watch: messages and ticks arrive in any order.
  pub data Arrival : Type 0 where
    message : Inbound w → Arrival
    poll : FileRead → Arrival

  pub record System : Type 0 where
    pub live : Live w
    pub failures : ℕ

  pub data Effect : Type 0 where
    handled : Handled w → Effect
    raised : List Alarm → Effect

  unfoldable pub step : System → Arrival → System × Effect
  step s (message i) =
      let (live', h) = handle_message w g store max_skew_secs s.live i in
      (record s { live = live' }, handled h)
  step s (poll found) =
      let before : Watched = record { failures = s.failures; status = s.live.status } in
      let (after, alarms) = tick sha256 g.has_event_hub baseline before found in
      (
        record { live = record s.live { status = after.status }; failures = after.failures },
        raised alarms,
      )

  unfoldable pub steps : System → List Arrival → System × List Effect
  unfolding step
  steps s [] = (s, [])
  steps s (x ∷ xs) = let (s', e) = step s x in let (last, es) = steps s' xs in (last, e ∷ es)

  -- Refused for the given reason, or no alarm.
  abbrev pub IsSilent : Bytes → Effect → Type 0
  IsSilent why (handled h) = h ≡ refused (ascii "E_GATEWAY_HALTED") why
  IsSilent why (raised alarms) = alarms ≡ []

  abbrev pub HaltedFor : Bytes → Halt → Type 0
  HaltedFor why h = h ≡ record { halted = true; reason = some why }

  handle_message_halted :
      (l : Live w) (i : Inbound w) (why : Bytes)
      → HaltedFor why l.status
      → handle_message w g store max_skew_secs l i ≡ (l, refused (ascii "E_GATEWAY_HALTED") why)
  unfolding handle_message
  handle_message_halted l i why h =
      ap
        (λ (st : Halt).
          if st.halted
          then (
            l,
            refused (ascii "E_GATEWAY_HALTED") (or_default w st.reason (ascii "gateway halted")),
          )
          else by_type w g store max_skew_secs l i (p.str_field i.message (ascii "type")))
        h

  step_halted :
      (s : System) (x : Arrival) (why : Bytes)
      → HaltedFor why s.live.status
      → ((step s x).0 ≡ s) × IsSilent why (step s x).1
  unfolding step
  step_halted s (message i) why h =
      let e = handle_message_halted s.live i why h in
      (
        ap (λ (r : Live w × Handled w). record s { live = r.0 }) e,
        ap (λ (r : Live w × Handled w). r.1) e,
      )
  step_halted s (poll found) why h =
      let before : Watched = record { failures = s.failures; status = s.live.status } in
      let e =
        tick_halted sha256 g.has_event_hub baseline before found
          (ap (λ (st : Halt). st.halted) h) in
      (
        ap
            (λ (r : Watched × List Alarm). record {
              live = record s.live { status = r.0.status };
              failures = r.0.failures;
            })
            e,
        ap (λ (r : Watched × List Alarm). r.1) e,
      )

  -- Once halted for a reason, whatever messages and ticks arrive, in whatever order: the gateway and
  -- the watch stay just as they are, replay cache and sessions included, every message is refused
  -- with the halt's code and that reason, and no alarm is raised.
  pub steps_halted :
      (xs : List Arrival) (s : System) (why : Bytes)
      → HaltedFor why s.live.status
      → ((steps s xs).0 ≡ s) × All (IsSilent why) (steps s xs).1
  unfolding steps
  steps_halted [] s why h = (refl, tt)
  steps_halted (x ∷ xs) s why h =
      let (same, silent) = step_halted s x why h in
      let (stays, rest) = steps_halted xs s why h in rw same (stays, (silent, rest))

  -- A tick that finds the policy file drifted, on a gateway that is not halted: it raises the alarms
  -- of that drift, changes no session and no nonce, and whatever arrives after it, every message is
  -- refused for the reason of that drift and nothing changes any more.
  pub poll_stops :
      (s : System) (found : FileRead) (d : Drift) (xs : List Arrival)
      → s.live.status ≡ not_halted
      → check_once sha256 g.has_event_hub baseline s.failures found ≡ drift d
      → let (s', effect) = step s (poll found) in
        (effect ≡ raised (alarms_of sha256 g.has_event_hub baseline d))
        × (s'.live.sessions ≡ s.live.sessions)
        × (s'.live.cache ≡ s.live.cache)
        × ((steps s' xs).0 ≡ s')
        × All (IsSilent (drift_reason sha256 g.has_event_hub baseline d)) (steps s' xs).1
  unfolding step
  poll_stops s found d xs running seen =
      let e : tick sha256 g.has_event_hub baseline
            (record { failures = s.failures; status = s.live.status }) found
          ≡ (
            record { failures = s.failures; status = stopped sha256 g.has_event_hub baseline d },
            alarms_of sha256 g.has_event_hub baseline d,
          ) =
        ap
          (λ (st : Halt).
            tick sha256 g.has_event_hub baseline (record { failures = s.failures; status = st })
              found)
          running
        ∙ tick_drift sha256 g.has_event_hub baseline s.failures found d seen in
      let (stays, silent) =
        steps_halted xs (step s (poll found)).0 (drift_reason sha256 g.has_event_hub baseline d)
          (ap (λ (r : Watched × List Alarm). r.0.status) e) in
      (ap (λ (r : Watched × List Alarm). raised r.1) e, refl, refl, stays, silent)
