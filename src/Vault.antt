-- ===== src/Vault.antt =====
-- crates/vault/src: the built-in store (local.rs), the handle that the gateway shares with the operator (shared.rs)
-- and the router by scheme (provider.rs). AES-GCM, JSON, base64 and the random nonce are third-party; the outcome of
-- the write of the file is given. A map's order is not modelled.
pub mod Guarded
use chaperone.Prelude.{
  ℕ, Bytes, List, [], ◌∷◌, ◌++◌, map, Bool, true, false, ◌||◌, not, Option, none, some, ascii,
  is_empty, length, str_eq, find, drop, starts_with, if◌then◌else◌,
}
use chaperone.Prelude.Map.{text_eq, Map, lookup, insert, remove}
use chaperone.Prelude.Fallible.{Fallible, err, ok, ensure, ◌>>=◌, ◌>>◌}
use chaperone.Import.{ca_namespace, placeholder, take}

-- An I/O or a sealer's error with its text.
pub data VaultError : Type 0 where
  io : Bytes → VaultError
  corrupt : Bytes → VaultError
  wrong_passphrase : VaultError
  seal : Bytes → VaultError
  already_exists : Bytes → VaultError

-- `fmt` of a `VaultError`.
unfoldable pub vault_error : VaultError → Bytes
vault_error (io e) = ascii "vault i/o: " ++ e
vault_error (corrupt e) = ascii "vault corrupt: " ++ e
vault_error wrong_passphrase = ascii "passphrase does not open this vault"
vault_error (seal e) = e
vault_error (already_exists path) = ascii "a vault already exists at " ++ path

pub data ResolveError : Type 0 where
  malformed_cred_ref : Bytes → ResolveError
  unsupported_scheme : Bytes → List Bytes → ResolveError
  entry_not_found : Bytes → ResolveError
  unset_placeholder : Bytes → ResolveError
  backend : Bytes → ResolveError

abbrev pub Entries : Type 0
Entries = Map Bytes Bytes

-- The cipher with the nonce and the text, and the serializer of the entries.
pub record Crypto : Type 1 where
  pub Key : Type 0
  pub encrypt : Key → Bytes → Bytes → Option Bytes
  pub decrypt : Key → Bytes → Bytes → Option Bytes
  pub to_vec : Entries → Fallible Bytes Bytes
  pub from_slice : Bytes → Fallible Bytes Entries
  pub b64 : Bytes → Bytes

pub record Header : Type 0 where
  pub version : ℕ
  pub sealer_name : Bytes
  pub kdf : Bytes
  pub sealed_dek_b64 : Bytes
  pub body_nonce_b64 : Bytes
  pub body_b64 : Bytes

abbrev pub or_corrupt {ℓ} : {A : Type ℓ} → Option A → Bytes → Fallible VaultError A
or_corrupt none why = err (corrupt why)
or_corrupt (some a) why = ok a

-- `map_err` of a serializer's error.
abbrev pub as_corrupt {ℓ} : {A : Type ℓ} → Bytes → Fallible Bytes A → Fallible VaultError A
as_corrupt what (err why) = err (corrupt (what ++ why))
as_corrupt what (ok a) = ok a

module _ (c : Crypto) where
  -- The handle, and the header that the file holds.
  pub record LocalVault : Type 0 where
    pub sealer_name : Bytes
    pub sealed_dek : Bytes
    pub kdf : Bytes
    pub dek : c.Key
    pub body_nonce : Bytes
    pub body_ciphertext : Bytes
    pub file : Header

  unfoldable pub encrypt_body : c.Key → Bytes → Entries → Fallible VaultError Bytes
  encrypt_body dek nonce body = do
    plaintext ← as_corrupt [] (c.to_vec body)
    or_corrupt (c.encrypt dek nonce plaintext) (ascii "body encryption failed")

  unfoldable pub decrypt_body : c.Key → Bytes → Bytes → Fallible VaultError Entries
  decrypt_body dek nonce ct = do
    plain ← or_corrupt (c.decrypt dek nonce ct) (ascii "body authentication failed")
    as_corrupt (ascii "body: ") (c.from_slice plain)

  abbrev pub decrypt_entries : LocalVault → Fallible VaultError Entries
  decrypt_entries v = decrypt_body v.dek v.body_nonce v.body_ciphertext

  abbrev pub header_of : LocalVault → Bytes → Bytes → Header
  header_of v nonce ciphertext = record {
    version = 1;
    sealer_name = v.sealer_name;
    kdf = v.kdf;
    sealed_dek_b64 = c.b64 v.sealed_dek;
    body_nonce_b64 = c.b64 nonce;
    body_b64 = c.b64 ciphertext;
  }

  -- `persist`: the file is the new one, or the one that it was.
  unfoldable pub persist :
      LocalVault
      → Header
      → Fallible VaultError (Unit {0})
      → LocalVault × Fallible VaultError (Unit {0})
  persist v header (err why) = (v, err why)
  persist v header (ok done) = (record v { file = header }, ok tt)

  -- The fresh nonce stands in the handle before the body is encrypted.
  unfoldable pub rewritten :
      LocalVault
      → Bytes
      → Fallible VaultError Bytes
      → Fallible VaultError (Unit {0})
      → LocalVault × Fallible VaultError (Unit {0})
  unfolding persist
  rewritten v nonce (err why) written = (record v { body_nonce = nonce }, err why)
  rewritten v nonce (ok ciphertext) written =
      persist (record v { body_nonce = nonce; body_ciphertext = ciphertext })
        (header_of v nonce ciphertext) written

  unfoldable pub rewrite :
      LocalVault
      → Entries
      → Bytes
      → Fallible VaultError (Unit {0})
      → LocalVault × Fallible VaultError (Unit {0})
  unfolding rewritten encrypt_body
  rewrite v body nonce written = rewritten v nonce (encrypt_body v.dek nonce body) written

  unfoldable pub set_in :
      LocalVault
      → Bytes
      → Bytes
      → Bytes
      → Fallible VaultError (Unit {0})
      → Fallible VaultError Entries
      → LocalVault × Fallible VaultError (Unit {0})
  unfolding rewrite
  set_in v path value nonce written (err why) = (v, err why)
  set_in v path value nonce written (ok entries) =
      rewrite v (insert path value entries) nonce written

  unfoldable pub set :
      LocalVault
      → Bytes
      → Bytes
      → Bytes
      → Fallible VaultError (Unit {0})
      → LocalVault × Fallible VaultError (Unit {0})
  unfolding set_in decrypt_body
  set v path value nonce written = set_in v path value nonce written (decrypt_entries v)

  unfoldable pub get : LocalVault → Bytes → Fallible VaultError (Option Bytes)
  unfolding decrypt_body
  get v path = decrypt_entries v >>= (λ entries. ok (lookup path entries))

  abbrev pub existed_if_ok :
      LocalVault × Fallible VaultError (Unit {0}) → LocalVault × Fallible VaultError Bool
  existed_if_ok (v, err why) = (v, err why)
  existed_if_ok (v, ok done) = (v, ok true)

  unfoldable pub delete_found :
      LocalVault
      → Bytes
      → Entries
      → Bytes
      → Fallible VaultError (Unit {0})
      → Option Bytes
      → LocalVault × Fallible VaultError Bool
  unfolding rewrite
  delete_found v path entries nonce written none = (v, ok false)
  delete_found v path entries nonce written (some value) =
      existed_if_ok (rewrite v (remove path entries) nonce written)

  unfoldable pub delete_in :
      LocalVault
      → Bytes
      → Bytes
      → Fallible VaultError (Unit {0})
      → Fallible VaultError Entries
      → LocalVault × Fallible VaultError Bool
  unfolding delete_found
  delete_in v path nonce written (err why) = (v, err why)
  delete_in v path nonce written (ok entries) =
      delete_found v path entries nonce written (lookup path entries)

  unfoldable pub delete :
      LocalVault
      → Bytes
      → Bytes
      → Fallible VaultError (Unit {0})
      → LocalVault × Fallible VaultError Bool
  unfolding delete_in decrypt_body
  delete v path nonce written = delete_in v path nonce written (decrypt_entries v)

  abbrev pub Provider : Type 0
  Provider = Bytes → Fallible ResolveError Bytes

  abbrev pub found_entry : Bytes → Fallible VaultError (Option Bytes) → Fallible ResolveError Bytes
  found_entry entry (err why) = err (backend (vault_error why))
  found_entry entry (ok none) = err (entry_not_found entry)
  found_entry entry (ok (some secret)) = ok secret

  -- `resolve` of the bare store.
  unfoldable pub resolve_local : LocalVault → Provider
  unfolding get vault_error
  resolve_local v entry = found_entry entry (get v entry)

  unfoldable pub refuse_placeholder : Bytes → Bytes → Fallible ResolveError Bytes
  refuse_placeholder entry secret =
      if str_eq secret placeholder then err (unset_placeholder entry) else ok secret

  -- `resolve` of the shared handle.
  unfoldable pub resolve_shared : LocalVault → Provider
  unfolding get vault_error refuse_placeholder
  resolve_shared v entry =
      if starts_with ca_namespace entry
      then err (
          backend
            (ascii "the SSH CA key is non-exportable; minting is the only operation it serves"))
      else found_entry entry (get v entry) >>= (λ secret. refuse_placeholder entry secret)

  -- `split_once("://")`
  abbrev pub cut_at : Bytes → Option ℕ → Option (Bytes × Bytes)
  cut_at t none = none
  cut_at t (some i) = some (take i t, drop 3 (drop i t))

  abbrev pub split_scheme : Bytes → Option (Bytes × Bytes)
  split_scheme t = cut_at t (find (ascii "://") t)

  abbrev pub provided :
      Map Bytes Provider → Bytes → Option Provider → Fallible ResolveError Provider
  provided providers scheme none = err (unsupported_scheme scheme (map (λ x. x.0) providers))
  provided providers scheme (some provider) = ok provider

  abbrev pub well_formed : Bytes → Option (Bytes × Bytes) → Fallible ResolveError (Bytes × Bytes)
  well_formed cred_ref none = err (malformed_cred_ref cred_ref)
  well_formed cred_ref (some (scheme, entry)) =
      if is_empty scheme || is_empty entry
      then err (malformed_cred_ref cred_ref)
      else ok (scheme, entry)

  abbrev pub dispatch : Map Bytes Provider → Bytes × Bytes → Fallible ResolveError Bytes
  dispatch providers (scheme, entry) =
      provided providers scheme (lookup scheme providers) >>= (λ provider. provider entry)

  -- `VaultRouter::resolve`
  unfoldable pub resolve : Map Bytes Provider → Bytes → Fallible ResolveError Bytes
  resolve providers cred_ref = well_formed cred_ref (split_scheme cred_ref) >>= dispatch providers
