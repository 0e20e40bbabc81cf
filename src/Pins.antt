-- ===== src/Pins.antt =====
-- crates/gateway-core/src/known_hosts.rs, the pins of SSH host keys, and `check_server_key` of
-- crates/gateway-core/src/ssh.rs, which decides by them. The writes of the file are given by their
-- outcome, and the time by its text.
pub mod Checks
use chaperone.Prelude.{
  ℕ, Bytes, List, [], ◌∷◌, ◌++◌, Bool, true, false, Option, none, some, ascii, is_empty, str_eq,
  ◌==◌, if◌then◌else◌,
}
use chaperone.Prelude.Map.{text_eq, Map, lookup, insert}
use chaperone.Prelude.Trim.{trim}
use chaperone.Prelude.Decimal.{digits}
use chaperone.Prelude.Fallible.{Fallible, err, ok}

pub record Pin : Type 0 where
  pub hostport : Bytes
  pub openssh_key : Bytes
  pub first_seen : Bytes
  pub source : Bytes

-- An I/O or a serializer's error with its text.
pub data PinStoreError : Type 0 where
  io : Bytes → PinStoreError
  corrupt : Bytes → PinStoreError
  serialize : Bytes → PinStoreError

abbrev pub Result {ℓ} : Type ℓ → Type ℓ
Result A = Fallible PinStoreError A

abbrev pub Store : Type 0
Store = Map Bytes Pin

pub record StoreFile : Type 0 where
  pub version : ℕ
  pub pins : List Pin

-- What the read of the file gave.
pub data FileText : Type 0 where
  text : Bytes → FileText
  not_found : FileText
  unreadable : Bytes → FileText

unfoldable pub insert_all : List Pin → Store → Store
insert_all [] pins = pins
insert_all (p ∷ ps) pins = insert_all ps (insert p.hostport p pins)

unfoldable pub load_file : Fallible Bytes StoreFile → Result Store
unfolding insert_all
load_file (err why) = err (corrupt why)
load_file (ok file) =
    if file.version == 1
    then ok (insert_all file.pins [])
    else err (corrupt (ascii "unknown known-hosts version " ++ digits file.version))

-- `from_str` is the third-party JSON reader.
unfoldable pub load : (Bytes → Fallible Bytes StoreFile) → FileText → Result Store
unfolding load_file
load from_str (text t) = if is_empty (trim t) then ok [] else load_file (from_str t)
load from_str not_found = ok []
load from_str (unreadable why) = err (io why)

abbrev pub get : Store → Bytes → Option Pin
get pins hostport = lookup hostport pins

-- What a call gives and the store that it leaves; `persisted` is the outcome of `persist`.
unfoldable pub insert_absent :
    Store → Bytes → Bytes → Bytes → Bytes → Result (Unit {0}) → Store × Result (Unit {0})
insert_absent pins hostport key source now persisted =
    let pin : Pin = record {
      hostport = hostport;
      openssh_key = key;
      first_seen = now;
      source = source;
    } in
    (insert hostport pin pins, persisted)

unfoldable pub insert_over : Store → Bytes → Bytes → Pin → Store × Result (Unit {0})
insert_over pins hostport key pin = if str_eq pin.openssh_key key then (pins, ok tt) else (
  pins,
  err (
      corrupt (
        hostport
        ++ ascii
            " is already pinned to a DIFFERENT key; an operator must review and replace the pin")),
)

-- `PinStore::insert`
unfoldable pub insert_pin :
    Store → Bytes → Bytes → Bytes → Bytes → Result (Unit {0}) → Store × Result (Unit {0})
unfolding insert_absent insert_over
insert_pin pins hostport key source now persisted = elim (get pins hostport) [
  | none ↦ insert_absent pins hostport key source now persisted
  | some pin ↦ insert_over pins hostport key pin
]

abbrev pub answer_if_ok : Result (Unit {0}) → Bool → Result Bool
answer_if_ok (err e) b = err e
answer_if_ok (ok done) b = ok b

-- `PinStore::replace`
unfoldable pub replace :
    Store → Bytes → Bytes → Bytes → Bytes → Result (Unit {0}) → Store × Result Bool
replace pins hostport key reason now persisted = elim (get pins hostport) [
  | none ↦ (pins, ok false)
  | some pin ↦ (
    insert hostport
        (record pin { openssh_key = key; first_seen = now; source = ascii "replace:" ++ reason })
        pins,
    answer_if_ok persisted true,
  )
]

pub data HostKeyPolicy : Type 0 where
  refuse_unknown : HostKeyPolicy
  trust_on_first_use_all : HostKeyPolicy
  pin_store : Bool → HostKeyPolicy

abbrev pub accept_if_ok : Result (Unit {0}) → Result Bool
accept_if_ok result = answer_if_ok result true

unfoldable pub check_pin :
    Store → Bytes → Bytes → Bool → Bytes → Result (Unit {0}) → Store × Result Bool
unfolding insert_absent
check_pin pins hostport line tofu now persisted = elim (get pins hostport) [
  | some pin ↦ (pins, ok (str_eq pin.openssh_key line))
  | none ↦
      if tofu
      then (let (pins', done) = insert_pin pins hostport line (ascii "tofu") now persisted in
          (pins', accept_if_ok done))
      else (pins, ok false)
]

-- `check_server_key`; `key_line` gives none for a key that is not written in full.
unfoldable pub check_server_key :
    HostKeyPolicy → Store → Bytes → Option Bytes → Bytes → Result (Unit {0}) → Store × Result Bool
unfolding check_pin
check_server_key policy pins hostport none now persisted = (pins, ok false)
check_server_key trust_on_first_use_all pins hostport (some line) now persisted = (pins, ok true)
check_server_key refuse_unknown pins hostport (some line) now persisted = (pins, ok false)
check_server_key (pin_store tofu) pins hostport (some line) now persisted =
    check_pin pins hostport line tofu now persisted
