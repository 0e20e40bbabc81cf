-- ===== src/Vault/Guarded.antt =====
-- What the vault gives out, and what a write leaves in it (crates/vault/src).
use chaperone.Prelude.{
  ◌≡◌, ◌≢◌, refl, ap, sym, subst, ◌∙◌, [], Bytes, Option, none, some, false, ascii, arith, str_eq,
  str_eq_iff, starts_with, Bool-cases, inl, inr, if◌then◌else◌,
}
use chaperone.Prelude.Map.{text_eq, Map, lookup, insert, lookup-insert}
use chaperone.Prelude.Fallible.{Fallible, err, ok, chain_succeeds, same_value, ◌>>=◌}
use chaperone.Import.{ca_namespace, placeholder}
use chaperone.Vault.{
  Crypto, LocalVault, VaultError, Entries, get, set, set_in, rewrite, rewritten, encrypt_body,
  decrypt_body, persist, Provider, resolve_shared, resolve, dispatch, refuse_placeholder,
  found_entry, split_scheme, well_formed, provided, as_corrupt, or_corrupt,
}

-- The documented behaviour of the cipher and of the serializer: each is undone; of the entries, as a
-- map, whatever their order.
abbrev pub IsSameMap : Entries → Entries → Type 0
IsSameMap e f = (k : Bytes) → lookup k e ≡ lookup k f

pub record Laws (c : Crypto) : Type 0 where
  pub opens :
      (key : c.Key) (nonce plain ct : Bytes)
      → c.encrypt key nonce plain ≡ some ct
      → c.decrypt key nonce ct ≡ some plain
  pub reads :
      (e : Entries) (text : Bytes)
      → c.to_vec e ≡ ok text
      → (read : Entries) × (c.from_slice text ≡ ok read) × IsSameMap read e

module _ (c : Crypto) where
  found-eq-ok :
      (entry secret : Bytes) (r : Fallible VaultError (Option Bytes))
      → found_entry c entry r ≡ ok secret
      → r ≡ ok (some secret)
  found-eq-ok entry secret (err why) h = absurd (cc h)
  found-eq-ok entry secret (ok none) h = absurd (cc h)
  found-eq-ok entry secret (ok (some s)) h = cc h

  refuse-eq-ok :
      (entry s secret : Bytes)
      → refuse_placeholder c entry s ≡ ok secret
      → (s ≡ secret) × (s ≢ placeholder)
  unfolding refuse_placeholder
  refuse-eq-ok entry s secret h = elim (Bool-cases (str_eq s placeholder)) [
    | inl unset ↦ absurd (ground (arith, h, unset))
    | inr real ↦ (ground (arith, h, real), ground (arith, real, str_eq_iff s placeholder))
  ]

  shared-eq-ok :
      (v : LocalVault c) (entry secret : Bytes)
      → resolve_shared c v entry ≡ ok secret
      → (starts_with ca_namespace entry ≡ false)
        × (secret ≢ placeholder)
        × (get c v entry ≡ ok (some secret))
  unfolding resolve_shared
  shared-eq-ok v entry secret h = elim (Bool-cases (starts_with ca_namespace entry)) [
    | inl ca ↦ absurd (ground (arith, h, ca))
    | inr free ↦
        let (s, found, passed) =
          chain_succeeds {w = secret} (found_entry c entry (get c v entry))
            (refuse_placeholder c entry) (ground (arith, h, free)) in
        let (same, real) = refuse-eq-ok entry s secret passed in
        (
          free,
          subst (λ x. x ≢ placeholder) same real,
          found-eq-ok entry secret (get c v entry) (found ∙ ap ok same),
        )
  ]

  -- Whatever a router with this vault behind a scheme gives for a reference with the scheme, it is a
  -- value of the store, under the path that the reference names; it never comes from the namespace of
  -- the CA, and it is never the placeholder of an unset entry.
  pub resolve_guarded :
      (v : LocalVault c) (providers : Map Bytes (Provider c)) (cred_ref scheme entry secret : Bytes)
      → split_scheme c cred_ref ≡ some (scheme, entry)
      → lookup scheme providers ≡ some (resolve_shared c v)
      → resolve c providers cred_ref ≡ ok secret
      → (starts_with ca_namespace entry ≡ false)
        × (secret ≢ placeholder)
        × (get c v entry ≡ ok (some secret))
  unfolding resolve
  resolve_guarded v providers cred_ref scheme entry secret cut registered h =
      let (parts, formed, sent) =
        chain_succeeds (well_formed c cred_ref (split_scheme c cred_ref)) (dispatch c providers)
          h in
      let same : parts ≡ (scheme, entry) =
        formed-parts (split_scheme c cred_ref) parts formed cut in
      let sent' : dispatch c providers (scheme, entry) ≡ ok secret =
        ap (dispatch c providers) (sym same) ∙ sent in
      let (provider, found, answer) =
        chain_succeeds (provided c providers scheme (lookup scheme providers)) (λ f. f entry)
          sent' in
      let shared : resolve_shared c v ≡ provider =
        same_value (ap (provided c providers scheme) (sym registered) ∙ found) in
      shared-eq-ok v entry secret (ap (λ (f : Provider c). f entry) shared ∙ answer)
    where
      formed-parts :
          (r : Option (Bytes × Bytes)) (parts : Bytes × Bytes)
          → well_formed c cred_ref r ≡ ok parts
          → r ≡ some (scheme, entry)
          → parts ≡ (scheme, entry)
      formed-parts none parts formed e = absurd (cc e)
      formed-parts (some (s, t)) parts formed e = ground (arith, formed, e)

  module _ (laws : Laws c) where
    decrypt-encrypt :
        (key : c.Key) (nonce ct : Bytes) (e : Entries)
        → encrypt_body c key nonce e ≡ ok ct
        → (read : Entries) × (decrypt_body c key nonce ct ≡ ok read) × IsSameMap read e
    unfolding encrypt_body decrypt_body
    decrypt-encrypt key nonce ct e h =
        let (text, written, sealed) =
          chain_succeeds (as_corrupt [] (c.to_vec e))
            (λ t. or_corrupt (c.encrypt key nonce t) (ascii "body encryption failed")) h in
        let opened = laws.opens key nonce text ct (by_cipher (c.encrypt key nonce text) sealed) in
        let (read, parsed, same) = laws.reads e text (by_text (c.to_vec e) written) in
        (read, rw opened (rw parsed refl), same)
      where
        by_cipher :
            (r : Option Bytes) → or_corrupt r (ascii "body encryption failed") ≡ ok ct → r ≡ some ct
        by_cipher none h = absurd (cc h)
        by_cipher (some x) h = cc h

        by_text : {t : Bytes} (r : Fallible Bytes Bytes) → as_corrupt [] r ≡ ok t → r ≡ ok t
        by_text (err why) h = absurd (cc h)
        by_text (ok x) h = cc h

    -- What a write of the body leaves, when it succeeds.
    rewrite-eq-ok :
        (v v' : LocalVault c) (body : Entries) (nonce : Bytes)
        (written : Fallible VaultError (Unit {0})) (r : Fallible VaultError Bytes)
        → encrypt_body c v.dek nonce body ≡ r
        → rewritten c v nonce r written ≡ (v', ok tt)
        → ((read : Entries) × (decrypt_body c v'.dek v'.body_nonce v'.body_ciphertext ≡ ok read)
            × IsSameMap read body)
          × (v'.file.body_b64 ≡ c.b64 v'.body_ciphertext)
          × (v'.file.body_nonce_b64 ≡ c.b64 v'.body_nonce)
    unfolding rewritten persist
    rewrite-eq-ok v v' body nonce written (err why) made h = absurd (cc h)
    rewrite-eq-ok v v' body nonce (err why) (ok ct) made h = absurd (cc h)
    rewrite-eq-ok v v' body nonce (ok done) (ok ct) made h =
        subst
          (λ (x : LocalVault c).
            ((read : Entries) × (decrypt_body c x.dek x.body_nonce x.body_ciphertext ≡ ok read)
              × IsSameMap read body)
            × (x.file.body_b64 ≡ c.b64 x.body_ciphertext)
            × (x.file.body_nonce_b64 ≡ c.b64 x.body_nonce))
          (ap (λ x. x.0) h) (decrypt-encrypt v.dek nonce ct body made, refl, refl)

    -- After a write that succeeds the path holds the value, every other path holds what it held, and
    -- the file holds the body and the nonce of the handle.
    pub set-get :
        (v v' : LocalVault c) (path value nonce q : Bytes)
        (written : Fallible VaultError (Unit {0}))
        → set c v path value nonce written ≡ (v', ok tt)
        → (get c v' q ≡ (if str_eq path q then ok (some value) else get c v q))
          × (v'.file.body_b64 ≡ c.b64 v'.body_ciphertext)
          × (v'.file.body_nonce_b64 ≡ c.b64 v'.body_nonce)
    unfolding set get set_in rewrite
    set-get v v' path value nonce q written h =
        by_entries (decrypt_body c v.dek v.body_nonce v.body_ciphertext) h
      where
        by_entries :
            (r : Fallible VaultError Entries)
            → set_in c v path value nonce written r ≡ (v', ok tt)
            → ((decrypt_body c v'.dek v'.body_nonce v'.body_ciphertext >>= (λ e. ok (lookup q e)))
                ≡ (if str_eq path q then ok (some value) else (r >>= (λ e. ok (lookup q e)))))
              × (v'.file.body_b64 ≡ c.b64 v'.body_ciphertext)
              × (v'.file.body_nonce_b64 ≡ c.b64 v'.body_nonce)
        by_entries (err why) h = absurd (cc h)
        by_entries (ok entries) h =
            let ((body, opened, same), b, n) =
              rewrite-eq-ok v v' (insert path value entries) nonce written
                (encrypt_body c v.dek nonce (insert path value entries)) refl h in
            (rw opened (ground (arith, same q, lookup-insert path q value entries)), b, n)
