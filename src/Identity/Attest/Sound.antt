-- ===== src/Identity/Attest/Sound.antt =====
-- What a verified message has passed, and which failures come before the nonce is spent
-- (`Attestor::verify` in crates/identity/src/lib.rs).
use chaperone.Prelude.{
  ℕ, ◌+◌, ◌*◌, ◌/◌, ◌<◌, ◌≡◌, refl, sym, subst, ap, ◌∙◌, inl, inr, Bytes, List, [], ◌∷◌, Bool, true,
  false, Option, none, some, arith, ascii, is_empty, split, length, str_eq_iff,
}
use mathlib.Core.Path.{ap₂}
use chaperone.Prelude.Fallible.{Fallible-cases, chain_succeeds, same_value}
use chaperone.Identity.Enrollment.{Store, resolve}
use chaperone.Identity.Replay.{
  Cache, Io, Reservation, fresh, duplicate, capacity_full, check_and_reserve,
}
use chaperone.Identity.Attest.{
  Platform, IdentityError, bad_signature, ok, err, or_err, nanos, distance, version_parts,
  check_version, non_empty, retention, within_skew, check_freshness, Claim, VerifiedIntent,
  object_gate, claim, sized, verdict, check_signature, after_reservation, reserve_and_check, verify,
}

or_err-eq-ok {ℓ} :
    {A : Type ℓ} (o : Option A) (e : IdentityError) {a : A} → or_err o e ≡ ok a → o ≡ some a
or_err-eq-ok none e h = absurd (cc h)
or_err-eq-ok (some x) e h = cc h

non_empty-eq-ok :
    (o : Option Bytes) (e : IdentityError) {s : Bytes}
    → non_empty o e ≡ ok s
    → (o ≡ some s) × (is_empty s ≡ false)
unfolding non_empty
non_empty-eq-ok none e h = absurd (cc h)
non_empty-eq-ok (some x) e h = (ground arith, ground arith)

within_skew-eq-ok :
    (now skew parsed issued : ℕ)
    → within_skew now skew parsed ≡ ok issued
    → (parsed ≡ issued) × (distance now issued < (skew + 1) * nanos)
unfolding within_skew
within_skew-eq-ok now skew parsed issued h = (ground arith, ground arith)

version_parts-eq-ok :
    (v : Bytes) (parts : List Bytes)
    → version_parts v parts ≡ ok tt
    → (minor : Bytes) × (parts ≡ ascii "0" ∷ minor ∷ [])
unfolding version_parts
version_parts-eq-ok v [] h = absurd (cc h)
version_parts-eq-ok v (a ∷ []) h = absurd (cc h)
version_parts-eq-ok v (a ∷ b ∷ []) h = (b, ground (arith, str_eq_iff a (ascii "0")))
version_parts-eq-ok v (a ∷ b ∷ c ∷ r) h = absurd (cc h)

check_version-eq-ok :
    (o : Option Bytes)
    → check_version o ≡ ok tt
    → (v : Bytes) × (minor : Bytes) × (o ≡ some v) × (split b'.' v ≡ ascii "0" ∷ minor ∷ [])
unfolding check_version
check_version-eq-ok none h = absurd (cc h)
check_version-eq-ok (some v) h =
    let (minor, e) = version_parts-eq-ok v (split b'.' v) h in (v, minor, refl, e)

module _ (p : Platform) where
  open p use {
    Value, Key, is_object, str_field, parse_rfc3339, decode_signature, canonical_form,
    verify_strict, to_line,
  }

  -- Steps 0 to 2a, as facts about the message.
  pub record Claims (store : Store Key) (skew : ℕ) (message : Value) (now : ℕ) (c : Claim p)
      : Type 0 where
    pub version :
        (v : Bytes) × (minor : Bytes) × (str_field message (ascii "chaperone") ≡ some v)
        × (split b'.' v ≡ ascii "0" ∷ minor ∷ [])
    pub agent : str_field message (ascii "agent_id") ≡ some c.agent_id
    pub enrolled : resolve store c.agent_id ≡ some c.verifying_key
    pub issued :
        (raw : Bytes) × (str_field message (ascii "issued_at") ≡ some raw)
        × (parse_rfc3339 raw ≡ some c.issued_at)
    pub recent : distance now c.issued_at < (skew + 1) * nanos
    pub nonce : str_field message (ascii "nonce") ≡ some c.nonce
    pub has_nonce : is_empty c.nonce ≡ false

  abbrev Issued : Option Bytes → ℕ → ℕ → ℕ → Type 0
  Issued o now skew issued =
      (raw : Bytes) × (o ≡ some raw)
      × (parse_rfc3339 raw ≡ some issued)
      × (distance now issued < (skew + 1) * nanos)

  check_freshness-Issued :
      (o : Option Bytes) (now skew issued : ℕ)
      → check_freshness p o now skew ≡ ok issued
      → Issued o now skew issued
  unfolding check_freshness
  check_freshness-Issued none now skew issued h = absurd (cc h)
  check_freshness-Issued (some raw) now skew issued h =
      let (parsed, e, w) = chain_succeeds (or_err (parse_rfc3339 raw) _) (within_skew now skew) h in
      let (same, near) = within_skew-eq-ok now skew parsed issued w in
      (raw, refl, or_err-eq-ok _ _ e ∙ ap some same, near)

  claim-Claims :
      (store : Store Key) (skew : ℕ) (message : Value) (now : ℕ) (c : Claim p)
      → claim p store skew message now ≡ ok c
      → Claims store skew message now c
  unfolding claim
  claim-Claims store skew message now c h =
      let (_, _, h₁) = chain_succeeds (object_gate p message) _ h in
      let (_, version, h₂) =
        chain_succeeds (check_version (str_field message (ascii "chaperone"))) _ h₁ in
      let (agent, named, h₃) =
        chain_succeeds (non_empty (str_field message (ascii "agent_id")) _) _ h₂ in
      let (k, found, h₄) = chain_succeeds (or_err (resolve store agent) _) _ h₃ in
      let (issued, recent, h₅) =
        chain_succeeds (check_freshness p (str_field message (ascii "issued_at")) now skew) _ h₄ in
      let (nonce, noted, h₆) =
        chain_succeeds (non_empty (str_field message (ascii "nonce")) _) _ h₅ in
      let (v, minor, field, parts) = check_version-eq-ok _ version in
      let (raw, at, i, near) =
        check_freshness-Issued (str_field message (ascii "issued_at")) now skew issued recent in
      subst (Claims store skew message now) (same_value h₆) (record {
        version = (v, minor, field, parts);
        agent = (non_empty-eq-ok _ _ named).0;
        enrolled = or_err-eq-ok _ _ found;
        issued = (raw, at, i);
        recent = near;
        nonce = (non_empty-eq-ok _ _ noted).0;
        has_nonce = (non_empty-eq-ok _ _ noted).1;
      })

  -- Step 3, as facts about the message.
  pub record Signed (message : Value) (c : Claim p) : Type 0 where
    pub sig :
        (encoded : Bytes) × (bytes : Bytes) × (form : Bytes) × (str_field message (ascii "sig")
          ≡ some encoded)
        × (decode_signature encoded ≡ some bytes)
        × (length bytes ≡ 64)
        × (canonical_form message ≡ some form)
        × (verify_strict c.verifying_key form bytes ≡ true)

  sized-eq-ok : (b s : Bytes) → sized p b ≡ ok s → (b ≡ s) × (length b ≡ 64)
  unfolding sized
  sized-eq-ok b s h = (ground arith, ground arith)

  verdict-eq-ok :
      (message : Value) (c : Claim p) (b : Bool) (v : VerifiedIntent p)
      → verdict p message c b ≡ ok v
      → (b ≡ true)
        × (v ≡ record {
          agent_id = c.agent_id;
          envelope = message;
          issued_at = c.issued_at;
          nonce = c.nonce;
        })
  unfolding verdict
  verdict-eq-ok message c true v h = (refl, same_value (sym h))
  verdict-eq-ok message c false v h = absurd (cc h)

  check_signature-Signed :
      (message : Value) (c : Claim p) (v : VerifiedIntent p)
      → check_signature p message c ≡ ok v
      → Signed message c
        × (v ≡ record {
          agent_id = c.agent_id;
          envelope = message;
          issued_at = c.issued_at;
          nonce = c.nonce;
        })
  unfolding check_signature
  check_signature-Signed message c v h =
      let (encoded, e₁, h₁) =
        chain_succeeds (or_err (str_field message (ascii "sig")) bad_signature) _ h in
      let (bytes, e₂, h₂) = chain_succeeds (or_err (decode_signature encoded) bad_signature) _ h₁ in
      let (sig, e₃, h₃) = chain_succeeds (sized p bytes) _ h₂ in
      let (form, e₄, h₄) = chain_succeeds (or_err (canonical_form message) bad_signature) _ h₃ in
      let (same, size) = sized-eq-ok bytes sig e₃ in
      let (good, made) = verdict-eq-ok message c (verify_strict c.verifying_key form sig) v h₄ in
      (
        record {
          sig = (
            encoded,
            bytes,
            form,
            or_err-eq-ok _ _ e₁,
            or_err-eq-ok _ _ e₂,
            size,
            or_err-eq-ok _ _ e₄,
            ap (verify_strict c.verifying_key form) same ∙ good,
          );
        },
        made,
      )

  after_reservation-eq-ok :
      (message : Value) (c : Claim p) (r : Reservation) (v : VerifiedIntent p)
      → after_reservation p message c r ≡ ok v
      → (r ≡ fresh) × (check_signature p message c ≡ ok v)
  unfolding after_reservation
  after_reservation-eq-ok message c fresh v h = (refl, h)
  after_reservation-eq-ok message c duplicate v h = absurd (cc h)
  after_reservation-eq-ok message c capacity_full v h = absurd (cc h)

  -- A message that fails a check before its nonce is looked at leaves the replay cache as it was.
  pub verify_early :
      (store : Store Key) (skew : ℕ) (cache : Cache) (message : Value) (now : ℕ) (io : Io)
      (e : IdentityError)
      → claim p store skew message now ≡ err e
      → verify p store skew cache message now io ≡ (cache, err e)
  unfolding verify
  verify_early store skew cache message now io e h = rw (h, verify) refl

  pub verify_claimed :
      (store : Store Key) (skew : ℕ) (cache : Cache) (message : Value) (now : ℕ) (io : Io)
      (c : Claim p)
      → claim p store skew message now ≡ ok c
      → let r =
          check_and_reserve to_line cache c.agent_id c.nonce (now / nanos) (retention skew) io in
        verify p store skew cache message now io ≡ (r.0, after_reservation p message c r.1)
  unfolding verify reserve_and_check
  verify_claimed store skew cache message now io c h = rw (h, verify) refl

  -- A message is verified only if it passed every step: a version of major 0, a live enrolled agent,
  -- an issue time within the skew, a nonce that the replay cache had not seen and now reserves, and a
  -- signature of 64 bytes under the agent's key over the canonical form; what is returned names that
  -- agent, nonce and issue time and the message itself.
  pub verify_sound :
      (store : Store Key) (skew : ℕ) (cache : Cache) (message : Value) (now : ℕ) (io : Io)
      (cache' : Cache) (v : VerifiedIntent p)
      → verify p store skew cache message now io ≡ (cache', ok v)
      → (c : Claim p) × Claims store skew message now c
        × Signed message c
        × (check_and_reserve to_line cache c.agent_id c.nonce (now / nanos) (retention skew) io
            ≡ (cache', fresh))
        × (v ≡ record {
          agent_id = c.agent_id;
          envelope = message;
          issued_at = c.issued_at;
          nonce = c.nonce;
        })
  verify_sound store skew cache message now io cache' v h =
      elim (Fallible-cases (claim p store skew message now)) [
        | inl (c, e) ↦
            let both = sym (verify_claimed store skew cache message now io c e) ∙ h in
            let (is_new, good) = after_reservation-eq-ok message c _ v (ap (λ t. t.1) both) in
            let (signed, made) = check_signature-Signed message c v good in
            (
              c,
              claim-Claims store skew message now c e,
              signed,
              ap₂ (λ a b. (a, b)) (ap (λ t. t.0) both) is_new,
              made,
            )
        | inr (x, e) ↦
            absurd (cc (ap (λ t. t.1) (sym (verify_early store skew cache message now io x e) ∙ h)))
      ]
