-- ===== src/Ca.antt =====
-- crates/gateway-core/src/ssh_ca.rs and ssh_ca_provider.rs: the certificates of the SSH CA. Keys,
-- base64 and the signing of a certificate's fields are third-party; the clock is the caller's.
pub mod Narrow
use chaperone.Prelude.{
  ℕ, ◌+◌, ◌-◌, ◌%◌, ◌^◌, Bytes, List, [], ◌∷◌, ◌++◌, Bool, true, false, ◌||◌, Option, none, some,
  ascii, is_empty, length, contains, strip_prefix, ltb, ◌==◌, if◌then◌else◌,
}
use chaperone.Prelude.Trim.{trim}
use chaperone.Prelude.Fallible.{Fallible, err, ok, ensure, ◌>>=◌, ◌>>◌}
use chaperone.Gateway.Environment.{MintIntent}

pub record MintRequest : Type 0 where
  pub agent_id : Bytes
  pub msg_id : Bytes
  pub username : Bytes
  pub host : Bytes
  pub want_pty : Bool
  pub ttl_secs : ℕ

abbrev pub ttl_ceiling_secs : ℕ
ttl_ceiling_secs = 3600

abbrev pub host_extension : Bytes
host_extension = ascii "host@chaperone"

pub data MintError : Type 0 where
  ttl_above_ceiling : MintError
  bad_agent_key : MintError
  empty_field : MintError
  bad_ca_key : MintError

-- What the builder is given: `anchor_epoch` less a minute, and later by the requested time, in 64
-- bits; extensions with their values.
pub record Fields : Type 0 where
  pub subject : Bytes
  pub valid_after : ℕ
  pub valid_before : ℕ
  pub key_id : Bytes
  pub principals : List Bytes
  pub extensions : List (Bytes × Bytes)

pub record MintedCert : Type 0 where
  pub cert_openssh : Bytes
  pub key_id : Bytes

-- `build` makes and signs the certificate with a fresh nonce, or one of its steps fails.
pub record Crypto : Type 1 where
  pub CaKey : Type 0
  pub from_openssh : Bytes → Option CaKey
  pub decode : Bytes → Option Bytes
  pub build : CaKey → Fields → Option Bytes

pub data CaError : Type 0 where
  not_initialized : CaError
  ca_unreadable : CaError
  ca_key_invalid : CaError
  bad_cred_ref : CaError
  agent_not_enrolled : CaError
  mint : MintError → CaError

unfoldable pub any_empty : MintRequest → Bool
any_empty req =
    is_empty (trim req.agent_id)
    || (is_empty (trim req.username) || (is_empty (trim req.host) || is_empty (trim req.msg_id)))

unfoldable pub extensions_of : MintRequest → List (Bytes × Bytes)
extensions_of req =
    (host_extension, trim req.host) ∷ (if req.want_pty then (ascii "permit-pty", []) ∷ [] else [])

unfoldable pub fields_of : MintRequest → Bytes → ℕ → Fields
unfolding extensions_of
fields_of req subject anchor_epoch = record {
  subject = subject;
  valid_after = anchor_epoch - 60;
  valid_before = (anchor_epoch + req.ttl_secs) % 2 ^ 64;
  key_id = ascii "chaperone:" ++ (trim req.agent_id ++ (b':' ∷ trim req.msg_id));
  principals = trim req.username ∷ [];
  extensions = extensions_of req;
}

abbrev pub or_mint_error {ℓ} : {A : Type ℓ} → Option A → MintError → Fallible MintError A
or_mint_error none why = err why
or_mint_error (some a) why = ok a

module _ (c : Crypto) where
  open c use {CaKey, from_openssh, decode, build}

  unfoldable pub sign_crt_at : CaKey → Bytes → MintRequest → ℕ → Fallible MintError MintedCert
  unfolding any_empty fields_of
  sign_crt_at ca_key agent_public_key req anchor_epoch = do
    ensure ttl_above_ceiling
        (if req.ttl_secs == 0 || ltb ttl_ceiling_secs req.ttl_secs then false else true)
    ensure empty_field (if any_empty req then false else true)
    raw ← or_mint_error (decode (trim agent_public_key)) bad_agent_key
    ensure bad_agent_key (length raw == 32)
    text ← or_mint_error (build ca_key (fields_of req raw anchor_epoch)) bad_ca_key
    ok (record { cert_openssh = text; key_id = (fields_of req raw anchor_epoch).key_id })

  abbrev pub or_ca_error {ℓ} : {A : Type ℓ} → Option A → CaError → Fallible CaError A
  or_ca_error none why = err why
  or_ca_error (some a) why = ok a

  -- `?` on a `MintError`, by `From`.
  abbrev pub from_mint {ℓ} : {A : Type ℓ} → Fallible MintError A → Fallible CaError A
  from_mint (err why) = err (mint why)
  from_mint (ok a) = ok a

  unfoldable pub is_host : Bytes → Bool
  is_host host = if is_empty host || (contains b':' host || contains b'/' host) then false else true

  abbrev pub request_of : Bytes → MintIntent → MintRequest
  request_of host intent = record {
    agent_id = intent.agent_id;
    msg_id = intent.msg_id;
    username = intent.username;
    host = host;
    want_pty = intent.want_pty;
    ttl_secs = intent.ttl_secs;
  }

  -- `mint_for`; `entry` is what `read_ca_entry` gives.
  unfoldable pub mint_for :
      Fallible CaError (Option Bytes) → Bytes → Bytes → MintIntent → ℕ → Fallible CaError MintedCert
  unfolding sign_crt_at is_host
  mint_for entry cred_ref agent_public_key intent anchor_epoch = do
    rest ← or_ca_error (strip_prefix (ascii "ca://") cred_ref) bad_cred_ref
    ensure bad_cred_ref (is_host (trim rest))
    read ← entry
    ca_text ← or_ca_error read not_initialized
    ca_key ← or_ca_error (from_openssh ca_text) ca_key_invalid
    from_mint (sign_crt_at ca_key agent_public_key (request_of (trim rest) intent) anchor_epoch)
