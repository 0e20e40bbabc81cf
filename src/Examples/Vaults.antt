-- ===== src/Examples/Vaults.antt =====
-- The vault of crates/vault/src at concrete inputs, over a cipher that puts the nonce before the text.
use chaperone.Prelude.{
  ◌≡◌, ◌≢◌, refl, Bytes, [], ◌∷◌, ◌++◌, some, ascii, false, arith, str_eq, starts_with, drop,
  length, drop-append, if◌then◌else◌, find,
}
use chaperone.Prelude.Map.{text_eq, Map, lookup, insert, remove}
use chaperone.Prelude.Fallible.{Fallible, err, ok}
use chaperone.Import.{ca_namespace, placeholder}
use chaperone.Vault.{
  Crypto, LocalVault, Header, Entries, Provider, get, set, set_in, rewrite, rewritten, encrypt_body,
  decrypt_body, persist, resolve, resolve_shared, refuse_placeholder,
}
use chaperone.Vault.Guarded.{Laws, resolve_guarded, set-get}

-- A store of at most one entry whose path is one character.
to_vec : Entries → Fallible Bytes Bytes
to_vec [] = ok []
to_vec ((a ∷ [], value) ∷ []) = ok (a ∷ value)
to_vec (([], value) ∷ rest) = err []
to_vec ((a ∷ b ∷ path, value) ∷ rest) = err []
to_vec ((a ∷ [], value) ∷ e ∷ rest) = err []

from_slice : Bytes → Fallible Bytes Entries
from_slice [] = ok []
from_slice (a ∷ value) = ok ((a ∷ [], value) ∷ [])

abbrev crypto : Crypto
crypto = record {
  Key = Bytes;
  encrypt = λ key nonce plain. some (nonce ++ plain);
  decrypt = λ key nonce ct. some (drop (length nonce) ct);
  to_vec = to_vec;
  from_slice = from_slice;
  b64 = λ t. t;
}

reads : (e : Entries) (text : Bytes) → to_vec e ≡ ok text → from_slice text ≡ ok e
unfolding to_vec from_slice
reads [] [] h = refl
reads [] (a ∷ text) h = absurd (cc h)
reads ((a ∷ [], value) ∷ []) [] h = absurd (cc h)
reads ((a ∷ [], value) ∷ []) (b ∷ text) h = cc h
reads (([], value) ∷ rest) text h = absurd (cc h)
reads ((a ∷ b ∷ path, value) ∷ rest) text h = absurd (cc h)
reads ((a ∷ [], value) ∷ e ∷ rest) text h = absurd (cc h)

laws : Laws crypto
laws = record {
  opens = λ key nonce plain ct h. ground (arith, h, drop-append nonce plain);
  reads = λ e text h. (e, reads e text h, λ k. refl);
}

abbrev header : Bytes → Bytes → Header
header nonce body = record {
  version = 1;
  sealer_name = ascii "passphrase";
  kdf = [];
  sealed_dek_b64 = [];
  body_nonce_b64 = nonce;
  body_b64 = body;
}

abbrev vault : Bytes → Bytes → LocalVault crypto
vault nonce ciphertext = record {
  sealer_name = ascii "passphrase";
  sealed_dek = [];
  kdf = [];
  dek = [];
  body_nonce = nonce;
  body_ciphertext = ciphertext;
  file = header nonce ciphertext;
}

set_run :
    set crypto (vault (ascii "n") (ascii "n")) (ascii "a") (ascii "s") (ascii "m") (ok tt)
    ≡ (vault (ascii "m") (ascii "mas"), ok tt)
unfolding set set_in rewrite rewritten encrypt_body decrypt_body persist to_vec from_slice insert
    remove
set_run = refl

set-get_example :
    (get crypto (vault (ascii "m") (ascii "mas")) (ascii "a") ≡ (
      if str_eq (ascii "a") (ascii "a")
      then ok (some (ascii "s"))
      else get crypto (vault (ascii "n") (ascii "n")) (ascii "a")))
    × ((vault (ascii "m") (ascii "mas")).file.body_b64 ≡ ascii "mas")
    × ((vault (ascii "m") (ascii "mas")).file.body_nonce_b64 ≡ ascii "m")
set-get_example =
    set-get crypto laws (vault (ascii "n") (ascii "n")) (vault (ascii "m") (ascii "mas"))
      (ascii "a") (ascii "s") (ascii "m") (ascii "a") (ok tt) set_run

abbrev opened : LocalVault crypto
opened = vault (ascii "m") (ascii "mas")

abbrev providers : Map Bytes (Provider crypto)
providers = (ascii "local", resolve_shared crypto opened) ∷ []

registered : lookup (ascii "local") providers ≡ some (resolve_shared crypto opened)
unfolding lookup str_eq
registered = refl

resolve_run : resolve crypto providers (ascii "local://a") ≡ ok (ascii "s")
unfolding resolve resolve_shared refuse_placeholder get decrypt_body from_slice lookup str_eq find
    starts_with
resolve_run = refl

resolve_guarded_example :
    (starts_with ca_namespace (ascii "a") ≡ false)
    × (ascii "s" ≢ placeholder)
    × (get crypto opened (ascii "a") ≡ ok (some (ascii "s")))
unfolding find starts_with
resolve_guarded_example =
    resolve_guarded crypto opened providers (ascii "local://a") (ascii "local") (ascii "a")
      (ascii "s") refl registered resolve_run
