-- ===== src/Identity/Enrollment.antt =====
-- crates/identity/src/enrollment.rs: the operator's binding of agents to public keys. The hash map
-- is an association list with at most one entry for a key that matters (lookup takes the first).
-- Keys, base64 and the curve are parameters; what writing the file to disk returns is an argument
-- of each operation, since the write comes after the change in memory.
pub mod Loaded
pub mod Lifecycle
use chaperone.Prelude.{
  ℕ, ◌==◌, ◌||◌, ◌++◌, Bytes, List, [], ◌∷◌, Bool, true, false, not, ◌&&◌, Option, none, some,
  is_empty, ascii, if◌then◌else◌,
}
use mathlib.Core.Option
use chaperone.Prelude.Fallible.{Fallible, ensure}
pub use chaperone.Prelude.Fallible.{ok, err, ◌>>=◌, ◌>>◌}
use chaperone.Prelude.Map.{text_eq, Map, lookup, insert}
use chaperone.Prelude.Trim.{trim}
use chaperone.Prelude.Decimal.{digits}

pub record EnrollmentRecord : Type 0 where
  pub agent_id : Bytes
  pub public_key : Bytes
  pub enrolled_at : Bytes
  pub sponsor_id : Bytes
  pub sponsor_name : Bytes
  pub revoked_at : Option Bytes

pub data Error : Type 0 where
  io : Error
  corrupt : Bytes → Error
  bad_public_key : Error
  duplicate : Bytes → Error
  missing_sponsor : Bytes → Error

abbrev pub Result {ℓ} : Type ℓ → Type ℓ
Result A = Fallible Error A

pub record StoredAgent (Key : Type 0) : Type 0 where
  pub key : Key
  pub stored : EnrollmentRecord

abbrev pub Store : Type 0 → Type 0
Store Key = Map Bytes (StoredAgent Key)

pub record StoreFile : Type 0 where
  pub version : ℕ
  pub agents : List EnrollmentRecord

-- What the read of the file gave.
pub data FileRead : Type 0 where
  found : Bytes → FileRead
  not_found : FileRead
  unreadable : FileRead

-- `bytes.iter().all(|&b| b.is_ascii_whitespace())`
unfoldable pub is_blank : Bytes → Bool
is_blank [] = true
is_blank (b ∷ t) = (b == 32 || (b == 9 || (b == 10 || (b == 12 || b == 13)))) && is_blank t

-- The write of the file, which comes after the change in memory, succeeds or not.
pub persist : Bool → Result (Unit {0})
persist disk = ensure io disk

get_or_insert : Option Bytes → Bytes → Bytes
get_or_insert none now = now
get_or_insert (some t) now = t

module _ {Key : Type 0} where
  -- `revoked_at.is_none()`
  unfoldable pub is_live : StoredAgent Key → Bool
  is_live a = elim a.stored.revoked_at [ none ↦ true | some _ ↦ false ]

  unfoldable pub key_of : Option (StoredAgent Key) → Option Key
  key_of none = none
  key_of (some a) = if is_live a then some a.key else none

  pub sponsor_of : Option (StoredAgent Key) → Option Bytes
  sponsor_of none = none
  sponsor_of (some a) = if is_live a then some a.stored.sponsor_id else none

  -- `lookup` of the source: the key that a request's signature is checked under.
  unfoldable pub resolve : Store Key → Bytes → Option Key
  resolve s agent = key_of (lookup agent s)

  pub sponsor_id_of : Store Key → Bytes → Option Bytes
  sponsor_id_of s agent = sponsor_of (lookup agent s)

  unfoldable pub load_records :
      (Bytes → Option Key) → List EnrollmentRecord → Store Key → Result (Store Key)
  load_records decode [] s = ok s
  load_records decode (r ∷ rs) s = elim (decode r.public_key) [
    | none ↦ err bad_public_key
    | some key ↦ load_records decode rs (insert r.agent_id (record { key = key; stored = r }) s)
  ]

  unfoldable pub load_file : (Bytes → Option Key) → Fallible Bytes StoreFile → Result (Store Key)
  load_file decode (err why) = err (corrupt why)
  load_file decode (ok file) =
      if file.version == 1
      then load_records decode file.agents []
      else err (corrupt (ascii "unsupported store version " ++ digits file.version))

  -- `from_slice` is the third-party JSON reader.
  unfoldable pub load :
      (Bytes → Option Key) → (Bytes → Fallible Bytes StoreFile) → FileRead → Result (Store Key)
  unfolding load_file
  load decode from_slice (found bytes) =
      if is_blank bytes then ok [] else load_file decode (from_slice bytes)
  load decode from_slice not_found = ok []
  load decode from_slice unreadable = err io

  or_bad_key : Option Key → Result Key
  or_bad_key none = err bad_public_key
  or_bad_key (some key) = ok key

  live_entry : Option (StoredAgent Key) → Bool
  live_entry none = false
  live_entry (some a) = is_live a

  -- The refusals that come before the store is touched, and the entry to be stored.
  pub admit :
      (Bytes → Option Key)
      → (Key → Bytes)
      → Bytes
      → Bytes
      → Bytes
      → Bytes
      → Bytes
      → Result (StoredAgent Key)
  admit decode encode agent public_key sponsor_id sponsor_name now = do
    ensure (missing_sponsor (ascii "sponsor_id")) (not (is_empty (trim sponsor_id)))
    ensure (missing_sponsor (ascii "sponsor_name")) (not (is_empty (trim sponsor_name)))
    key ← or_bad_key (decode public_key)
    ok (record {
      key = key;
      stored = record {
        agent_id = agent;
        public_key = encode key;
        enrolled_at = now;
        sponsor_id = trim sponsor_id;
        sponsor_name = trim sponsor_name;
        revoked_at = none;
      };
    })

  -- The write under the lock, and the file behind it.
  pub install : Store Key → Bytes → Bool → Bool → StoredAgent Key → Store Key × Result (Unit {0})
  install s agent force_rotate disk entry =
      if live_entry (lookup agent s) && not force_rotate
      then (s, err (duplicate agent))
      else (insert agent entry s, persist disk)

  pub enroll :
      (Bytes → Option Key)
      → (Key → Bytes)
      → Store Key
      → Bytes
      → Bytes
      → Bytes
      → Bytes
      → Bytes
      → Bool
      → Bool
      → Store Key × Result (Unit {0})
  enroll decode encode s agent public_key sponsor_id sponsor_name now force_rotate disk =
      elim (admit decode encode agent public_key sponsor_id sponsor_name now) [
        | err e ↦ (s, err e)
        | ok entry ↦ install s agent force_rotate disk entry
      ]

  -- The first revocation time stays.
  mark_revoked : Bytes → StoredAgent Key → StoredAgent Key
  mark_revoked now a = record a {
    stored = record (a.stored) { revoked_at = some (get_or_insert a.stored.revoked_at now) };
  }

  pub revoke : Store Key → Bytes → Bytes → Bool → Store Key × Result Bool
  unfolding mark_revoked get_or_insert
  revoke s agent now disk = elim (lookup agent s) [
    | none ↦ (s, ok false)
    | some a ↦ (insert agent (mark_revoked now a) s, persist disk >>= λ _. ok true)
  ]
