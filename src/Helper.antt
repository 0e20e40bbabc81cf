-- ===== src/Helper.antt =====
-- crates/privileged-helper/src (lib.rs, allowlist.rs): what the helper does with one request. JSON and
-- base64 are third-party, and the child process is the operating system's.
pub mod Allowed
use chaperone.Prelude.{
  ℕ, ◌/◌, ◌%◌, Bytes, List, [], ◌∷◌, ◌++◌, Bool, true, false, ◌&&◌, ◌||◌, not, Option, none, some,
  ascii, is_empty, length, any, str_eq, leb, ◌==◌, if◌then◌else◌,
}
use chaperone.Prelude.Fallible.{Fallible, err, ok}

pub record AllowlistEntry : Type 0 where
  pub command : Bytes
  pub args : List Bytes

-- `args.len() >= pin.len() && args[..pin.len()] == *pin`
unfoldable pub has_prefix : List Bytes → List Bytes → Bool
has_prefix [] args = true
has_prefix (p ∷ pin) [] = false
has_prefix (p ∷ pin) (a ∷ args) = str_eq a p && has_prefix pin args

unfoldable pub permits : List AllowlistEntry → Bytes → List Bytes → Bool
unfolding has_prefix
permits entries command args = any (λ e. str_eq e.command command && has_prefix e.args args) entries

-- `mode & 0o022 != 0`: the write bits of group and others.
unfoldable pub is_shared_writable : ℕ → Bool
is_shared_writable mode = mode / 16 % 2 == 1 || mode / 2 % 2 == 1

pub data OwnershipError : Type 0 where
  not_root_owned : ℕ → OwnershipError
  shared_writable : ℕ → OwnershipError

unfoldable pub validate_allowlist_ownership : ℕ → ℕ → Fallible OwnershipError (Unit {0})
unfolding is_shared_writable
validate_allowlist_ownership uid mode =
    if not (uid == 0)
    then err (not_root_owned uid)
    else (if is_shared_writable mode then err (shared_writable mode) else ok tt)

-- `Value::as_str` of a field, and the strings of an array field.
pub record Json : Type 1 where
  pub Value : Type 0
  pub str_field : Value → Bytes → Option Bytes
  pub strings_field : Value → Bytes → Option (List Bytes)
  pub decode_signature : Bytes → Option Bytes

-- What comes of a child: it cannot be started, waiting for it fails, or it ends, killed at the bound
-- on its running time or not, with its output and its exit code, the `i32` as its 32 bits.
pub data Child : Type 0 where
  not_spawned : Bytes → Child
  not_awaited : Bytes → Child
  finished : Bytes → Bytes → Option ℕ → Child

pub record Spawned : Type 0 where
  pub command : Bytes
  pub args : List Bytes
  pub input : Option Bytes
  pub env_removed : Bytes

pub data Reply : Type 0 where
  denied : Bytes → Reply
  error : Bytes → Reply
  authorized : Reply
  out : Bytes → Bytes → Reply
  exit : ℕ → Reply

-- The children started, and the replies, each stamped with the request's id.
pub record Run : Type 0 where
  pub spawned : List Spawned
  pub replies : List (Bytes × Reply)

-- -1 as its 32 bits.
abbrev pub no_code : ℕ
no_code = 4294967295

abbrev pub code_or : Option ℕ → ℕ
code_or none = no_code
code_or (some code) = code

-- `replace(['\n', '\r'], "")`
unfoldable pub without_breaks : Bytes → Bytes
without_breaks [] = []
without_breaks (b ∷ s) =
    let rest = without_breaks s in if b == 10 || b == 13 then rest else b ∷ rest

-- `trim_end_matches('=')`
unfoldable pub without_padding : Bytes → Bytes
without_padding [] = []
without_padding (b ∷ s) =
    let rest = without_padding s in if b == b'=' && is_empty rest then [] else b ∷ rest

unfoldable pub token_matches : Option Bytes → Bytes → Bool
token_matches none expected = false
token_matches (some token) expected = str_eq token expected

module _ (json : Json) (child : Spawned → Child) where
  open json use {Value, str_field, strings_field, decode_signature}

  abbrev pub or_empty : Option Bytes → Bytes
  or_empty none = []
  or_empty (some t) = t

  unfoldable pub decoded_input : Option Bytes → Option Bytes
  unfolding without_breaks without_padding
  decoded_input none = none
  decoded_input (some b64) =
      some (or_empty (decode_signature (without_padding (without_breaks b64))))

  abbrev pub stream_reply : Bytes → Bytes → Bytes → List (Bytes × Reply)
  stream_reply id stream bytes = if is_empty bytes then [] else (id, out stream bytes) ∷ []

  unfoldable pub child_replies : Bytes → Child → List (Bytes × Reply)
  child_replies id (not_spawned why) = (id, error (ascii "spawn: " ++ why)) ∷ []
  child_replies id (not_awaited why) = (id, error why) ∷ []
  child_replies id (finished stdout stderr code) =
      stream_reply id (ascii "stdout") stdout
      ++ (stream_reply id (ascii "stderr") stderr ++ ((id, exit (code_or code)) ∷ []))

  abbrev pub only : Bytes → Reply → Run
  only id reply = record { spawned = []; replies = (id, reply) ∷ [] }

  abbrev pub requested : Value → Bytes → List Bytes → Spawned
  requested msg command args = record {
    command = command;
    args = args;
    input = decoded_input (str_field msg (ascii "input_b64"));
    env_removed = ascii "CHAPERONE_HELPER_TOKEN";
  }

  unfoldable pub run_command : Value → Bytes → Bytes → List Bytes → Run
  unfolding child_replies
  run_command msg id command args =
      let s = requested msg command args in
      record { spawned = s ∷ []; replies = child_replies id (child s) }

  unfoldable pub allow_command :
      List AllowlistEntry → Bool → Value → Bytes → Bytes → List Bytes → Run
  unfolding run_command
  allow_command allowlist run_child msg id command args =
      if not (permits allowlist command args)
      then only id (denied (ascii "command not allowlisted"))
      else if not run_child
      then only id authorized
      else run_command msg id command args

  abbrev pub args_or_none : Option (List Bytes) → List Bytes
  args_or_none none = []
  args_or_none (some args) = args

  unfoldable pub exec_command : List AllowlistEntry → Bool → Value → Bytes → Option Bytes → Run
  unfolding allow_command
  exec_command allowlist run_child msg id none = only id (error (ascii "missing command"))
  exec_command allowlist run_child msg id (some command) =
      allow_command allowlist run_child msg id command
        (args_or_none (strings_field msg (ascii "args")))

  unfoldable pub process_request : Value → Bytes → List AllowlistEntry → Bool → Run
  unfolding exec_command
  process_request msg expected_token allowlist run_child =
      let id = or_empty (str_field msg (ascii "id")) in
      if not (token_matches (str_field msg (ascii "token")) expected_token)
      then only id (denied (ascii "bad token"))
      else if not (token_matches (str_field msg (ascii "op")) (ascii "exec"))
      then only id (error (ascii "unsupported op"))
      else exec_command allowlist run_child msg id (str_field msg (ascii "command"))
