-- ===== src/Identity/Attest/NoReplay.antt =====
-- A verified message is never verified again (`Attestor::verify` in crates/identity/src/lib.rs over
-- the cache of crates/identity/src/replay.rs), while the process runs.
use mathlib.Core.Path.{subst₂}
use chaperone.Prelude.{
  ℕ, ◌+◌, ◌*◌, ◌/◌, ◌≤◌, ◌<◌, ◌≡◌, ◌≢◌, sym, ap, inl, inr, subst, Bytes, List, [], ◌∷◌, All, Option,
  some, arith, ascii,
}
use native.Mathlib.Decide.{dec_lt}
use chaperone.Identity.Enrollment.{Store}
use chaperone.Identity.Replay.{Cache, Io, fresh, check_and_reserve, saturating_add, i64_max}
use chaperone.Identity.Replay.Table.{Agree, Holds}
use chaperone.Identity.Replay.Reserved.{check-Agree, check-Holds, check_held, check_fresh}
use chaperone.Identity.Attest.{
  Platform, ok, nanos, distance, i64_width, retention, VerifiedIntent, claim, verify,
}
use chaperone.Prelude.Fallible.{Fallible-cases}
use chaperone.Identity.Attest.Sound.{verify_early, verify_claimed, verify_sound}

-- Three skews after the first second, a message is out of the skew that it was in at the start.
stale :
    (skew first second issued : ℕ)
    → 3 ≤ skew
    → first / nanos + skew * 3 ≤ second / nanos
    → distance first issued < (skew + 1) * nanos
    → distance second issued < (skew + 1) * nanos
    → ⊥
stale skew first second issued s late a b = omega arith

abbrev pub IsSound : Cache → Type 0
IsSound c = Agree c.inner.seen c.inner.insertion_order

abbrev HoldsIn : Bytes × Bytes → ℕ → Cache → Type 0
HoldsIn k until c = Holds k until c.inner.seen c.inner.insertion_order

module _ (p : Platform) where
  open p use {Value, Key, str_field, parse_rfc3339, to_line}

  -- One message that arrives: the enrollment store at that time, the clock and the file system.
  pub record Call : Type 0 where
    pub store : Store Key
    pub message : Value
    pub now : ℕ
    pub io : Io

  abbrev pub serve : ℕ → Cache → Call → Cache
  serve skew cache c = (verify p c.store skew cache c.message c.now c.io).0

  abbrev pub serve_all : ℕ → Cache → List Call → Cache
  serve_all skew cache [] = cache
  serve_all skew cache (c ∷ cs) = serve_all skew (serve skew cache c) cs

  serve-IsSound :
      (skew : ℕ) (cache : Cache) (c : Call) → IsSound cache → IsSound (serve skew cache c)
  serve-IsSound skew cache c a = elim (Fallible-cases (claim p c.store skew c.message c.now)) [
    | inl (x, e) ↦
        subst (λ t. IsSound t.0)
          (sym (verify_claimed p c.store skew cache c.message c.now c.io x e))
          (check-Agree to_line cache x.agent_id x.nonce (c.now / nanos) (retention skew) c.io a)
    | inr (x, e) ↦
        subst (λ t. IsSound t.0) (sym (verify_early p c.store skew cache c.message c.now c.io x e))
          a
  ]

  serve-HoldsIn :
      (skew : ℕ) (cache : Cache) (c : Call) (k : Bytes × Bytes) (until : ℕ)
      → c.now / nanos < until
      → HoldsIn k until cache
      → HoldsIn k until (serve skew cache c)
  serve-HoldsIn skew cache c k until lt h =
      elim (Fallible-cases (claim p c.store skew c.message c.now)) [
        | inl (x, e) ↦
            subst (λ t. HoldsIn k until t.0)
              (sym (verify_claimed p c.store skew cache c.message c.now c.io x e))
              (check-Holds to_line cache k until x.agent_id x.nonce (c.now / nanos) (retention skew)
                c.io lt h)
        | inr (x, e) ↦
            subst (λ t. HoldsIn k until t.0)
              (sym (verify_early p c.store skew cache c.message c.now c.io x e)) h
      ]

  serve_all-HoldsIn :
      (skew : ℕ) (cache : Cache) (cs : List Call) (k : Bytes × Bytes) (until last : ℕ)
      → last / nanos < until
      → All (λ c. c.now ≤ last) cs
      → HoldsIn k until cache
      → HoldsIn k until (serve_all skew cache cs)
  serve_all-HoldsIn skew cache [] k until last lt early h = h
  serve_all-HoldsIn skew cache (c ∷ cs) k until last lt early h =
      serve_all-HoldsIn skew (serve skew cache c) cs k until last lt early.1
        (serve-HoldsIn skew cache c k until (omega (arith, early.0)) h)

  -- Serving any messages keeps the cache sound.
  pub serve_all-IsSound :
      (skew : ℕ) (cache : Cache) (cs : List Call)
      → IsSound cache
      → IsSound (serve_all skew cache cs)
  serve_all-IsSound skew cache [] a = a
  serve_all-IsSound skew cache (c ∷ cs) a =
      serve_all-IsSound skew (serve skew cache c) cs (serve-IsSound skew cache c a)

  held_not_fresh :
      (cache cache' : Cache) (agent nonce : Bytes) (now retention until : ℕ) (io : Io)
      → now < until
      → HoldsIn (agent, nonce) until cache
      → check_and_reserve to_line cache agent nonce now retention io ≢ (cache', fresh)
  held_not_fresh cache cache' agent nonce now retention until io lt h e =
      cc (check_held to_line cache agent nonce now retention until io lt h, ap (λ t. t.1) e)

  -- What a call reserves is a duplicate for every call before the reservation runs out.
  still_held :
      (skew : ℕ) (cache cache' cache'' : Cache) (agent nonce : Bytes) (first second : ℕ)
      (io io' : Io) (between : List Call)
      → second / nanos < saturating_add (first / nanos) (retention skew)
      → IsSound cache
      → check_and_reserve to_line cache agent nonce (first / nanos) (retention skew) io
        ≡ (cache', fresh)
      → All (λ c. c.now ≤ second) between
      → check_and_reserve to_line
          (serve_all skew cache' between)
          agent
          nonce
          (second / nanos)
          (retention skew)
          io'
        ≢ (cache'', fresh)
  still_held skew cache cache' cache'' agent nonce first second io io' between lt sound made early =
      let until = saturating_add (first / nanos) (retention skew) in
      held_not_fresh (serve_all skew cache' between) cache'' agent nonce (second / nanos)
        (retention skew) until io' lt
        (serve_all-HoldsIn skew cache' between (agent, nonce) until second lt early
          (subst (λ t. HoldsIn (agent, nonce) until t) (ap (λ t. t.0) made)
            (check_fresh to_line cache agent nonce (first / nanos) (retention skew) io sound
              (ap (λ t. t.1) made))))

  same_field : {o : Option Bytes} {a b : Bytes} → o ≡ some a → o ≡ some b → a ≡ b
  same_field e f = cc (e, f)

  same_time :
      (o : Option Bytes) (a b : ℕ)
      → (raw : Bytes) × (o ≡ some raw) × (parse_rfc3339 raw ≡ some a)
      → (raw : Bytes) × (o ≡ some raw) × (parse_rfc3339 raw ≡ some b)
      → a ≡ b
  same_time o a b (raw, e, f) (raw', e', f') = cc (e, e', f, f')

  -- A message that was verified once is refused from then on, whatever messages are served in
  -- between and however enrollment changes, as long as the clock does not pass the time of the
  -- second attempt in between. The first attempt meets a sound cache: no nonce is queued twice, and
  -- each that is queued stands in the table, as in an empty cache and after any calls on a sound one.
  -- The skew must be at least three seconds, and the reservation must not
  -- run into the largest 64-bit time.
  pub verify_once :
      (skew : ℕ) (store store' : Store Key) (cache cache' : Cache) (message : Value)
      (first second : ℕ) (io io' : Io) (v w : VerifiedIntent p) (between : List Call)
      → 3 ≤ skew
      → skew * 3 ≤ i64_width
      → first / nanos + skew * 3 ≤ i64_max
      → IsSound cache
      → verify p store skew cache message first io ≡ (cache', ok v)
      → All (λ c. c.now ≤ second) between
      → (verify p store' skew (serve_all skew cache' between) message second io').1 ≢ ok w
  verify_once skew store store' cache cache' message first second io io' v w between s r m sound
        once early again =
      let later = verify p store' skew (serve_all skew cache' between) message second io' in
      let (c, cl, _, made, _) = verify_sound p store skew cache message first io cache' v once in
      let (d, dl, _, remade, _) =
        verify_sound p store' skew (serve_all skew cache' between) message second io' later.0 w
          (ap (λ t. (later.0, t)) again) in
      let agent = same_field dl.agent cl.agent in
      let nonce = same_field dl.nonce cl.nonce in
      let issued =
        same_time (str_field message (ascii "issued_at")) d.issued_at c.issued_at dl.issued
          cl.issued in
      elim (dec_lt (second / nanos) (saturating_add (first / nanos) (retention skew))) [
        | yes lt ↦
            still_held skew cache cache' later.0 c.agent_id c.nonce first second io io' between lt
              sound made early
              (subst₂
                (λ a n.
                  check_and_reserve to_line (serve_all skew cache' between) a n (second / nanos)
                    (retention skew) io'
                  ≡ (later.0, fresh))
                agent nonce remade)
        | no late ↦
            stale skew first second c.issued_at s (omega (arith, late, r, m)) cl.recent
              (subst (λ t. distance second t < (skew + 1) * nanos) issued dl.recent)
      ]
