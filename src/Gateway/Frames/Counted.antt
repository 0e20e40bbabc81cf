-- ===== src/Gateway/Frames/Counted.antt =====
-- What a command frame leaves in the counters of its session
-- (`handle_session_frame` of crates/gateway-core/src/lib.rs).
use chaperone.Prelude.{
  ℕ, ◌+◌, ◌%◌, ◌^◌, ◌<◌, ◌≡◌, refl, ap, ◌∙◌, Bytes, List, [], ◌∷◌, false, none, some, arith, length,
  str_eq_refl,
}
use chaperone.Prelude.Map.{text_eq, lookup, lookup-insert}
use chaperone.Identity.Enrollment.{Store}
use chaperone.Identity.Attest.{Platform}
use chaperone.Gateway.Sessions.{
  Entry, Table, granted, access, fetch_add, next_out_seq, record_relay,
}
use chaperone.Gateway.Environment.{given, Gateway, World}
use chaperone.Gateway.Frames.{
  Chunk, Output, FrameAnswers, written, read, output_answer, number_chunks, after_batch, relay,
  relay_granted, command_frame, frame_input, total_bytes,
}

-- The chunks numbered one after the other behind n, in 64 bits.
abbrev pub numbered : ℕ → List Chunk → List Output
numbered n [] = []
numbered n (c ∷ cs) =
    record { seq = (n + 1) % 2 ^ 64; stream = c.stream; content = c.content } ∷ numbered (n + 1) cs

module _ {p : Platform} (w : World p) where
  open p use {Value}
  open w use {Channel}

  number_chunks-numbered :
      (e : Entry Channel) (n : ℕ) (cs : List Chunk)
      → e.out_seq ≡ n % 2 ^ 64
      → number_chunks w e cs ≡ (record e { out_seq = (n + length cs) % 2 ^ 64 }, numbered n cs)
  unfolding number_chunks next_out_seq
  number_chunks-numbered e n [] h =
      let same : e.out_seq ≡ (n + 0) % 2 ^ 64 = omega (arith, h) in
      λ i. (record e { out_seq = same i }, [])
  number_chunks-numbered e n (c ∷ cs) h =
      let next : Entry Channel = (next_out_seq Channel e).0 in
      let seq : (e.out_seq + 1) % 2 ^ 64 ≡ (n + 1) % 2 ^ 64 = omega (arith, h) in
      let size : (n + 1 + length cs) % 2 ^ 64 ≡ (n + length (c ∷ cs)) % 2 ^ 64 =
        ap (λ (t : ℕ). t % 2 ^ 64) (omega arith) in
      let rest = number_chunks-numbered next (n + 1) cs seq in
      (λ i.
        ((rest i).0, record { seq = seq i; stream = c.stream; content = c.content } ∷ (rest i).1))
      ∙ (λ i. (record e { out_seq = size i }, numbered n (c ∷ cs)))

  -- The entry after a relayed command of `in_len` bytes that was answered by the chunks.
  abbrev pub counted : Entry Channel → ℕ → List Chunk → Entry Channel
  counted e in_len chunks = record e {
    commands = fetch_add Channel e.commands 1;
    bytes_in = fetch_add Channel e.bytes_in in_len;
    bytes_out = fetch_add Channel e.bytes_out (total_bytes chunks);
    out_seq = (e.out_seq + length chunks) % 2 ^ 64;
  }

  -- A command that reaches its session's channel, which stays open, is one write of the decoded
  -- input and one read; its outputs are the chunks read, numbered on from the last number given, and
  -- the session keeps all of what it was but its counters: one command more, the bytes in and out
  -- added and the last number, in 64 bits.
  pub command_frame-counted :
      (g : Gateway) (store : Store p.Key) (a : FrameAnswers w) (message : Value)
      (agent handle : Bytes) (sessions : Table Channel) (e : Entry Channel) (left : ℕ)
      → access Channel sessions handle agent a.access_at ≡ granted e left
      → e.out_seq < 2 ^ 64
      → a.write e.channel (frame_input w g store a message agent) ≡ given tt
      → (a.read_batch e.channel).closed ≡ false
      → let r = command_frame w g store a message agent sessions handle in
        let input = frame_input w g store a message agent in
        let chunks = (a.read_batch e.channel).chunks in
        (r.actions ≡ written e.channel input ∷ read e.channel ∷ [])
        × (r.answer ≡ output_answer handle (numbered e.out_seq chunks) false none none)
        × (lookup handle r.sessions ≡ some (counted e (length input) chunks))
  unfolding command_frame relay_granted relay after_batch record_relay
  command_frame-counted g store a message agent handle sessions e left ok_access small sent
        open_still =
      let batch = a.read_batch e.channel in
      let input = frame_input w g store a message agent in
      let relayed = record_relay Channel e (length input) (total_bytes batch.chunks) in
      let numbers = number_chunks-numbered relayed e.out_seq batch.chunks (omega (arith, small)) in
      rw (ok_access, sent, open_still, numbers)
        (
          refl,
          refl,
          ground (
            arith,
            lookup-insert handle handle (counted e (length input) batch.chunks) sessions,
            str_eq_refl handle,
          ),
        )
