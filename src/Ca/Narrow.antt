-- ===== src/Ca/Narrow.antt =====
-- How narrow the certificates are (crates/gateway-core/src/ssh_ca.rs, ssh_ca_provider.rs).
use chaperone.Prelude.{
  ℕ, ◌+◌, ◌-◌, ◌%◌, ◌^◌, ◌≤◌, ◌<◌, ◌≡◌, ◌≢◌, refl, ◌⊎◌, inl, inr, Bytes, [], ◌∷◌, ◌++◌, true, false,
  Bool, Option, none, some, ascii, arith, length, contains, strip_prefix, strip_prefix_iff,
  Bool-cases, Option-cases, if◌then◌else◌,
}
use chaperone.Prelude.Trim.{trim}
use chaperone.Prelude.Fallible.{Fallible, ok, err, ensure}
use chaperone.Gateway.Environment.{MintIntent}
use chaperone.Ca.{
  MintRequest, MintedCert, Crypto, CaError, MintError, any_empty, extensions_of, fields_of,
  sign_crt_at, is_host, request_of, mint_for, ttl_ceiling_secs, or_ca_error, or_mint_error,
  from_mint,
}

ensured : {E : Type 0} (why : E) (b : Bool) → ensure why b ≡ ok tt → b ≡ true
ensured why true h = refl
ensured why false h = absurd (cc h)

or_mint :
    {A : Type 0} {a : A} (o : Option A) (why : MintError) → or_mint_error o why ≡ ok a → o ≡ some a
or_mint none why h = absurd (cc h)
or_mint (some b) why h = cc

module _ (c : Crypto) where
  open c use {CaKey, from_openssh, decode, build}

  or_ca :
      {A : Type 0} {a : A} (o : Option A) (why : CaError) → or_ca_error c o why ≡ ok a → o ≡ some a
  or_ca none why h = absurd (cc h)
  or_ca (some b) why h = cc

  from_mint_ok : {A : Type 0} {a : A} (r : Fallible MintError A) → from_mint c r ≡ ok a → r ≡ ok a
  from_mint_ok (err why) h = absurd (cc h)
  from_mint_ok (ok a) h = cc

  sign_crt_at-fields :
      (ca_key : CaKey) (agent_key : Bytes) (req : MintRequest) (anchor : ℕ) (minted : MintedCert)
      → sign_crt_at c ca_key agent_key req anchor ≡ ok minted
      → (subject : Bytes) × (0 < req.ttl_secs)
        × (req.ttl_secs ≤ ttl_ceiling_secs)
        × (any_empty req ≡ false)
        × (decode (trim agent_key) ≡ some subject)
        × (length subject ≡ 32)
        × (build ca_key (fields_of req subject anchor) ≡ some minted.cert_openssh)
        × (minted.key_id ≡ (fields_of req subject anchor).key_id)
  unfolding sign_crt_at
  sign_crt_at-fields ca_key agent_key req anchor minted h =
      elim (Option-cases (decode (trim agent_key))) [
        | inl e ↦ absurd (ground (arith, e, h))
        | inr (raw, e) ↦ elim (Option-cases (build ca_key (fields_of req raw anchor))) [
          | inl b ↦ absurd (ground (arith, e, b, h))
          | inr (text, b) ↦ (
            raw,
            ground (arith, e, b, h),
            ground (arith, e, b, h),
            ground (arith, e, b, h),
            e,
            ground (arith, e, b, h),
            ground (arith, e, b, h),
            ground (arith, e, b, h),
          )
        ]
      ]

  -- The CA entry is there, or `mint_for` goes no further.
  read_entry :
      (entry : Fallible CaError (Option Bytes))
      → ((t : Bytes) × (entry ≡ ok (some t)))
        ⊎ ((entry ≡ ok none) ⊎ ((e : CaError) × (entry ≡ err e)))
  read_entry (err e) = inr (inr (e, refl))
  read_entry (ok none) = inr (inl refl)
  read_entry (ok (some t)) = inl (t, refl)

  -- A certificate is minted only for a reference `ca://` to one host, read from the stored CA key, for
  -- the agent's own key of 32 bytes, and for a time of a second to an hour. The fields that are
  -- signed begin at most a minute before the clock, end that time after it (in 64 bits), name the
  -- user alone, who is not empty, and carry the host as an extension, and a second one, for a terminal,
  -- just if the intent wants it; the key's id names the agent and the message.
  pub mint_for-fields :
      (entry : Fallible CaError (Option Bytes)) (cred_ref agent_key : Bytes) (intent : MintIntent)
      (now : ℕ) (minted : MintedCert)
      → mint_for c entry cred_ref agent_key intent now ≡ ok minted
      → (rest : Bytes) × (ca_text : Bytes) × (ca_key : CaKey) × (subject : Bytes) × (cred_ref
          ≡ ascii "ca://" ++ rest)
        × (trim rest ≢ [])
        × (contains b':' (trim rest) ≡ false)
        × (contains b'/' (trim rest) ≡ false)
        × (trim intent.username ≢ [])
        × (entry ≡ ok (some ca_text))
        × (from_openssh ca_text ≡ some ca_key)
        × (decode (trim agent_key) ≡ some subject)
        × (length subject ≡ 32)
        × (0 < intent.ttl_secs)
        × (intent.ttl_secs ≤ 3600)
        × (build ca_key (record {
          subject = subject;
          valid_after = now - 60;
          valid_before = (now + intent.ttl_secs) % 2 ^ 64;
          key_id = minted.key_id;
          principals = trim intent.username ∷ [];
          extensions =
              (ascii "host@chaperone", trim (trim rest))
              ∷ (if intent.want_pty then (ascii "permit-pty", []) ∷ [] else []);
        })
            ≡ some minted.cert_openssh)
        × (minted.key_id
            ≡ ascii "chaperone:" ++ (trim intent.agent_id ++ (b':' ∷ trim intent.msg_id)))
  unfolding mint_for fields_of extensions_of is_host any_empty
  mint_for-fields entry cred_ref agent_key intent now minted h =
      elim (Option-cases (strip_prefix (ascii "ca://") cred_ref)) [
        | inl e ↦ absurd (ground (arith, e, h))
        | inr (rest, e) ↦ elim (Bool-cases (is_host c (trim rest))) [
          | inr bad ↦ absurd (ground (arith, e, bad, h))
          | inl host ↦ elim (read_entry entry) [
            | inr none_read ↦ absurd (ground (arith, e, host, h, none_read))
            | inl (ca_text, r) ↦ elim (Option-cases (from_openssh ca_text)) [
              | inl bad ↦ absurd (ground (arith, e, host, r, bad, h))
              | inr (ca_key, k) ↦
                  let req = request_of c (trim rest) intent in
                  let signed : sign_crt_at c ca_key agent_key req now ≡ ok minted =
                    from_mint_ok (sign_crt_at c ca_key agent_key req now)
                      (ground (arith, e, host, r, k, h)) in
                  let (subject, low, high, full, key, size, built, id) =
                    sign_crt_at-fields ca_key agent_key req now minted signed in
                  (
                    rest,
                    ca_text,
                    ca_key,
                    subject,
                    (strip_prefix_iff (ascii "ca://") cred_ref rest).0 e,
                    λ nothing. ground (arith, host, nothing),
                    ground (arith, host),
                    ground (arith, host),
                    λ nothing. ground (arith, full, nothing),
                    r,
                    k,
                    key,
                    size,
                    low,
                    high,
                    ground (arith, built, id),
                    id,
                  )
            ]
          ]
        ]
      ]
