-- ===== src/Transport/Message.antt =====
-- crates/transport/src/message.rs: the requests inside frames. JSON is the third-party `serde_json`.
use chaperone.Prelude.{Bytes, List, [], ◌∷◌, Bool, Option, none, some, ascii, if◌then◌else◌}
use chaperone.Prelude.Fallible.{Fallible, err, ok, ensure, ◌>>=◌, ◌>>◌}

-- `object` is the object with the given text fields; `set_field` is the assignment of a text field.
pub record Json : Type 1 where
  pub Value : Type 0
  pub from_str : Bytes → Fallible Bytes Value
  pub to_vec : Value → Option Bytes
  pub is_object : Value → Bool
  pub str_field : Value → Bytes → Option Bytes
  pub set_field : Value → Bytes → Bytes → Value
  pub object : List (Bytes × Bytes) → Value

pub data MessageError : Type 0 where
  not_an_object : MessageError
  invalid_json : Bytes → MessageError

module _ (json : Json) where
  open json use {Value, from_str, is_object, str_field, set_field, object}

  pub record Request : Type 0 where
    pub msg_id : Option Bytes
    pub value : Value

  abbrev pub or_invalid : Fallible Bytes Value → Fallible MessageError Value
  or_invalid (err why) = err (invalid_json why)
  or_invalid (ok value) = ok value

  unfoldable pub parse : Bytes → Fallible MessageError Request
  parse text = do
    value ← or_invalid (from_str text)
    ensure not_an_object (is_object value)
    ok (record { msg_id = str_field value (ascii "msg_id"); value = value })

  unfoldable pub stamped : Option Bytes → Value → Value
  stamped none response = response
  stamped (some id) response = set_field response (ascii "msg_id") id

  unfoldable pub reply : Request → Value → Value
  unfolding stamped
  reply request response = if is_object response then stamped request.msg_id response else response

  unfoldable pub transport_error_frame : Bytes → Value
  transport_error_frame reason = object (
      (ascii "type", ascii "error")
      ∷ (ascii "scope", ascii "transport")
      ∷ (ascii "reason", reason)
      ∷ [])
