-- ===== src/Gateway/Frames/Owner.antt =====
-- Whose frames touch which session (`handle_session_frame` of crates/gateway-core/src/lib.rs).
use chaperone.Prelude.{
  ℕ, ◌<◌, ◌≡◌, ◌≢◌, ◌⊎◌, refl, ap, sym, ◌∙◌, inl, inr, Bytes, List, [], ◌∷◌, Option, none, some,
  ascii, length, All, All-append, arith, str_eq_refl, str_eq_iff, if-either,
}
use chaperone.Prelude.Map.{text_eq, lookup, insert, lookup-insert}
use chaperone.Identity.Enrollment.{Store}
use chaperone.Identity.Attest.{Platform, Result, ok, err, VerifiedIntent}
use chaperone.Gateway.Sessions.{
  Entry, Table, Access, granted, denied, access, take, next_out_seq, record_relay,
}
use chaperone.Gateway.Sessions.Owned.{access-granted, take_cases}
use chaperone.Gateway.Environment.{Except-cases, Gateway, World}
use chaperone.Gateway.Frames.{
  SessionFrameKind, command, close, Chunk, Batch, FrameAnswers, FrameAction, written, read,
  shut_down, announced, recorded, FrameRun, number_chunks, broadcast_session_event, tear_down,
  close_taken, close_frame, exited, after_batch, relay, relay_granted, command_frame, frame_of_kind,
  frame_of_handle, handle_session_frame, frame_input, total_bytes, closing_event, recorded_end,
  Output,
}

module _ {p : Platform} (w : World p) where
  open p use {Value, str_field}
  open w use {Channel}

  -- The action is on the session's channel or speaks of the session and its agent.
  abbrev pub Concerns : Bytes → Entry Channel → FrameAction w → Type 0
  Concerns handle e (written c input) = c ≡ e.channel
  Concerns handle e (read c) = c ≡ e.channel
  Concerns handle e (shut_down c) = c ≡ e.channel
  Concerns handle e (announced ev) = (ev.session_handle ≡ handle) × (ev.agent_id ≡ e.agent_id)
  Concerns handle e (recorded ev) = ev.agent_id ≡ e.agent_id

  -- Everything that the run does concerns the session, and no other session changes.
  abbrev pub Confined : Bytes → Entry Channel → Table Channel → FrameRun w → Type 0
  Confined handle e sessions r =
      All (Concerns handle e) r.actions
      × ((other : Bytes) → handle ≢ other → lookup other r.sessions ≡ lookup other sessions)

  -- The run does nothing, and every session is as it was.
  abbrev pub IsIdle : Table Channel → FrameRun w → Type 0
  IsIdle sessions r =
      (r.actions ≡ []) × ((other : Bytes) → lookup other r.sessions ≡ lookup other sessions)

  -- The handle names a session that the agent opened, whose time is not over for a command.
  abbrev pub Owns : ℕ → Bytes → Bytes → SessionFrameKind → Entry Channel → Table Channel → Type 0
  Owns now agent handle kind e sessions =
      (lookup handle sessions ≡ some e)
      × (e.agent_id ≡ agent)
      × (kind ≡ command → now < e.expires_at)

  -- The counters move; who opened the session, and its channel, do not.
  number_chunks_owner :
      (e : Entry Channel) (cs : List Chunk)
      → ((number_chunks w e cs).0.agent_id ≡ e.agent_id)
        × ((number_chunks w e cs).0.channel ≡ e.channel)
  unfolding number_chunks next_out_seq
  number_chunks_owner e [] = (refl, refl)
  number_chunks_owner e (c ∷ cs) = number_chunks_owner (next_out_seq Channel e).0 cs

  module _ (g : Gateway) (store : Store p.Key) where
    tear_down-Concerns :
        (handle : Bytes) (e last : Entry Channel) (clock : ℕ)
        → last.agent_id ≡ e.agent_id
        → last.channel ≡ e.channel
        → All (Concerns handle e) (tear_down w g store handle last clock)
    unfolding tear_down broadcast_session_event
    tear_down-Concerns handle e last clock same c =
        (c, if-either (All (Concerns handle e)) g.has_event_hub ((refl, same), tt) tt)

    module _ (a : FrameAnswers w) (message : Value) (agent : Bytes) where
      lookup_other :
          (handle other : Bytes) (e : Entry Channel) (sessions : Table Channel)
          → handle ≢ other
          → lookup other (insert handle e sessions) ≡ lookup other sessions
      lookup_other handle other e sessions apart =
          ground (arith, lookup-insert handle other e sessions, str_eq_iff handle other)

      -- `take` on the handle itself: the others stay, and what it takes is what the handle named.
      take_self :
          (t : Table Channel) (handle : Bytes) (last : Entry Channel)
          → lookup handle t ≡ some last
          → (((take Channel t handle agent).1 ≡ some last)
              ⊎ ((take Channel t handle agent).1 ≡ none))
            × ((other : Bytes)
                → handle ≢ other
                → lookup other (take Channel t handle agent).0 ≡ lookup other t)
      take_self t handle last named = (taken, left)
        where
          taken :
              ((take Channel t handle agent).1 ≡ some last)
              ⊎ ((take Channel t handle agent).1 ≡ none)
          taken = elim (take_cases Channel t handle agent handle) [
            | inl (e, f, _, r, _) ↦ inl (r ∙ (sym f ∙ named))
            | inr (_, r, _) ↦ inr r
          ]

          left :
              (other : Bytes)
              → handle ≢ other
              → lookup other (take Channel t handle agent).0 ≡ lookup other t
          left other apart = elim (take_cases Channel t handle agent other) [
            | inl (e, _, _, _, r) ↦ ground (arith, r, str_eq_iff handle other)
            | inr (_, _, r) ↦ r
          ]

      exited-Confined :
          (handle : Bytes) (outputs : List Output) (exit_code : Option ℕ) (e last : Entry Channel)
          (sessions left : Table Channel) (taken : Option (Entry Channel))
          → agent ≡ e.agent_id
          → last.agent_id ≡ e.agent_id
          → last.channel ≡ e.channel
          → (taken ≡ some last) ⊎ (taken ≡ none)
          → ((other : Bytes) → handle ≢ other → lookup other left ≡ lookup other sessions)
          → Confined handle e sessions
              (exited w g store a message agent handle outputs exit_code (left, taken))
      unfolding exited recorded_end closing_event
      exited-Confined handle outputs exit_code e last sessions left none owner same c found rest =
          ((owner, tt), rest)
      exited-Confined handle outputs exit_code e last sessions left (some e') owner same c found
            rest =
          let this : e' ≡ last = elim found [ inl f ↦ cc f | inr f ↦ absurd (cc f) ] in
          let end =
            closing_event w g store a message agent (ascii "session.command") (ascii "exited")
              exit_code in
          (
            All-append (Concerns handle e) (tear_down w g store handle e' a.clock)
                (recorded end ∷ [])
                (tear_down-Concerns handle e e' a.clock
                  (ap (λ (x : Entry Channel). x.agent_id) this ∙ same)
                  (ap (λ (x : Entry Channel). x.channel) this ∙ c))
                (owner, tt),
            rest,
          )

      after_batch-Confined :
          (sessions : Table Channel) (handle : Bytes) (e : Entry Channel) (in_len : ℕ)
          (batch : Batch)
          → agent ≡ e.agent_id
          → Confined handle e sessions
              (after_batch w g store a message agent sessions handle e in_len batch)
      unfolding after_batch record_relay
      after_batch-Confined sessions handle e in_len batch owner =
          let counted = record_relay Channel e in_len (total_bytes batch.chunks) in
          let last = (number_chunks w counted batch.chunks).0 in
          let outputs = (number_chunks w counted batch.chunks).1 in
          let sessions' = insert handle last sessions in
          let (same, c) = number_chunks_owner counted batch.chunks in
          let named : lookup handle sessions' ≡ some last =
            ground (arith, lookup-insert handle handle last sessions, str_eq_refl handle) in
          let others = λ (other : Bytes) (apart : handle ≢ other).
            lookup_other handle other last sessions apart in
          let (found, left) = take_self sessions' handle last named in
          if-either (Confined handle e sessions) batch.closed
            (exited-Confined handle outputs batch.exit_code e last sessions
              (take Channel sessions' handle agent).0 (take Channel sessions' handle agent).1 owner
              same c found (λ other apart. left other apart ∙ others other apart))
            (tt, others)

      relay-Confined :
          (sessions : Table Channel) (handle input : Bytes) (e : Entry Channel)
          → agent ≡ e.agent_id
          → Confined handle e sessions (relay w g store a message agent sessions handle e input)
      unfolding relay
      relay-Confined sessions handle input e owner = elim (Except-cases (a.write e.channel input)) [
        | inl (why, q) ↦ rw q ((refl, tt), λ other apart. refl)
        | inr (done, q) ↦
            let (acts, rest) =
              after_batch-Confined sessions handle e (length input) (a.read_batch e.channel)
                owner in
            rw q ((refl, (refl, acts)), rest)
      ]

      abbrev Guarded : SessionFrameKind → Table Channel → Bytes → FrameRun w → Type 0
      Guarded kind sessions handle r =
          IsIdle sessions r
          ⊎ ((e : Entry Channel) × Owns a.access_at agent handle kind e sessions
              × Confined handle e sessions r)

      command_frame-Guarded :
          (sessions : Table Channel) (handle : Bytes)
          → Guarded command sessions handle
              (command_frame w g store a message agent sessions handle)
      unfolding command_frame relay_granted
      command_frame-Guarded sessions handle =
          by_access (access Channel sessions handle agent a.access_at) refl
        where
          by_access :
              (x : Access Channel)
              → access Channel sessions handle agent a.access_at ≡ x
              → Guarded command sessions handle (
                  relay_granted w g store a message agent sessions handle
                    (frame_input w g store a message agent)
                    x)
          by_access (denied why) q = inl (refl, λ other. refl)
          by_access (granted e left) q =
              let (named, owner, live, _) =
                access-granted Channel sessions handle agent a.access_at left e q in
              inr (
                e,
                (named, owner, λ is_command. live),
                relay-Confined sessions handle (frame_input w g store a message agent) e
                    (sym owner),
              )

      close_frame-Guarded :
          (sessions : Table Channel) (handle : Bytes)
          → Guarded close sessions handle (close_frame w g store a message agent sessions handle)
      unfolding close_frame close_taken recorded_end closing_event
      close_frame-Guarded sessions handle =
          let taken = take Channel sessions handle agent in
          elim (take_cases Channel sessions handle agent handle) [
            | inl (e, named, owner, r, _) ↦
                let t : Confined handle e sessions
                    (close_taken w g store a message agent handle (taken.0, some e)) =
                  (
                    All-append (Concerns handle e) (tear_down w g store handle e a.clock) _
                        (tear_down-Concerns handle e e a.clock refl refl) (sym owner, tt),
                    λ other apart. taken_other other apart,
                  ) in
                inr (e, (named, owner, λ h. absurd (cc h)), rw r t)
            | inr (_, r, _) ↦ inl (rw r (refl, λ other. kept other r))
          ]
        where
          taken_other :
              (other : Bytes)
              → handle ≢ other
              → lookup other (take Channel sessions handle agent).0 ≡ lookup other sessions
          taken_other other apart = elim (take_cases Channel sessions handle agent other) [
            | inl (_, _, _, _, left) ↦ ground (arith, left, str_eq_iff handle other)
            | inr (_, _, left) ↦ left
          ]

          kept :
              (other : Bytes)
              → (take Channel sessions handle agent).1 ≡ none
              → lookup other (take Channel sessions handle agent).0 ≡ lookup other sessions
          kept other r = elim (take_cases Channel sessions handle agent other) [
            | inl (_, _, _, s, _) ↦ absurd (cc (r, s))
            | inr (_, _, left) ↦ left
          ]

    -- Whatever a session frame carries: either nothing is done and every session is as it was, or
    -- the signature verified, the handle names a session that the same agent opened and, for a
    -- command, whose time is not over; then everything that is done (input to a channel, reading,
    -- shutting down, the feed, the audit record) concerns that session and agent, and every other
    -- session is as it was.
    pub handle_session_frame-Owns :
        (a : FrameAnswers w) (message : Value) (kind : SessionFrameKind) (sessions : Table Channel)
        (result : Result (VerifiedIntent p))
        → let r = handle_session_frame w g store a message kind sessions result in
          IsIdle sessions r
          ⊎ ((v : VerifiedIntent p) × (handle : Bytes) × (e : Entry Channel) × (result ≡ ok v)
              × (str_field message (ascii "session_handle") ≡ some handle)
              × Owns a.access_at v.agent_id handle kind e sessions
              × Confined handle e sessions r)
    unfolding handle_session_frame frame_of_handle frame_of_kind
    handle_session_frame-Owns a message kind sessions (err why) = inl (refl, λ other. refl)
    handle_session_frame-Owns a message kind sessions (ok v) =
        by_handle (str_field message (ascii "session_handle")) refl
      where
        of_kind :
            (k : SessionFrameKind) (handle : Bytes)
            → Guarded a message v.agent_id k sessions handle
                (frame_of_kind w g store a message v.agent_id k sessions handle)
        of_kind command handle = command_frame-Guarded a message v.agent_id sessions handle
        of_kind close handle = close_frame-Guarded a message v.agent_id sessions handle

        by_handle :
            (h : Option Bytes)
            → str_field message (ascii "session_handle") ≡ h
            → let r = frame_of_handle w g store a message v.agent_id kind sessions h in
              IsIdle sessions r
              ⊎ ((u : VerifiedIntent p) × (handle : Bytes) × (e : Entry Channel) × (◌≡◌
                    {A = Result (VerifiedIntent p)}
                    (ok v)
                    (ok u))
                  × (str_field message (ascii "session_handle") ≡ some handle)
                  × Owns a.access_at u.agent_id handle kind e sessions
                  × Confined handle e sessions r)
        by_handle none q = inl (refl, λ other. refl)
        by_handle (some handle) q = elim (of_kind kind handle) [
          | inl idle ↦ inl idle
          | inr (e, owns, confined) ↦ inr (v, handle, e, refl, q, owns, confined)
        ]
