-- ===== src/Policy/Engine/Save/Document.antt =====
-- TOML as far as a policy document uses it, written from the TOML 1.0 specification and from the schema that the structs
-- of crates/policy/src/lib.rs declare for its reader: the lines of a document, their text, and the rules that they mean.
use chaperone.Prelude.{
  ℕ, ◌^◌, Bytes, List, [], ◌∷◌, ◌++◌, Bool, true, false, ◌&&◌, not, Option, none, some, ascii,
  str_eq, ltb, leb, ◌==◌, any, if◌then◌else◌,
}
use chaperone.Prelude.Decimal.{digits}

-- `[name]`, `[[name]]`, and a key with a quoted string, a string written out, an integer, or a Boolean.
pub data Line : Type 0 where
  blank : Line
  table : Bytes → Line
  element : Bytes → Line
  text : Bytes → Bytes → Line
  basic : Bytes → Bytes → Line
  integer : Bytes → ℕ → Line
  flag : Bytes → Bool → Line

module _ (quoted : Bytes → Bytes) where
  unfoldable pub line_text : Line → Bytes
  line_text blank = 10 ∷ []
  line_text (table name) = b'[' ∷ (name ++ (b']' ∷ 10 ∷ []))
  line_text (element name) = b'[' ∷ b'[' ∷ (name ++ (b']' ∷ b']' ∷ 10 ∷ []))
  line_text (text key value) = key ++ (ascii " = " ++ (quoted value ++ (10 ∷ [])))
  line_text (basic key value) =
      key ++ (ascii " = " ++ ((b'"' ∷ (value ++ (b'"' ∷ []))) ++ (10 ∷ [])))
  line_text (integer key n) = key ++ (ascii " = " ++ (digits n ++ (10 ∷ [])))
  line_text (flag key b) =
      key ++ (ascii " = " ++ ((if b then ascii "true" else ascii "false") ++ (10 ∷ [])))

  unfoldable pub document : List Line → Bytes
  unfolding line_text
  document [] = []
  document (l ∷ ls) = line_text l ++ document ls

-- A value: a string, an integer or a Boolean.
pub data Scalar : Type 0 where
  string : Bytes → Scalar
  number : ℕ → Scalar
  boolean : Bool → Scalar

abbrev pub Body : Type 0
Body = List (Bytes × Scalar)

-- A header, whether it is that of an element, and the keys under it.
pub record Section : Type 0 where
  pub is_element : Bool
  pub name : Bytes
  pub body : Body

-- No quote, no backslash and no control character.
unfoldable pub is_plain : Bytes → Bool
is_plain [] = true
is_plain (c ∷ t) = leb 32 c && (not (c == 34) && (not (c == 92) && (not (c == 127) && is_plain t)))

-- The keys before the first header, and the sections; none for a value that TOML does not have. An
-- integer has 64 bits with its sign.
abbrev pub keyed : Bytes → Scalar → Option (Body × List Section) → Option (Body × List Section)
keyed key value none = none
keyed key value (some (body, rest)) = some ((key, value) ∷ body, rest)

abbrev pub headed : Bool → Bytes → Option (Body × List Section) → Option (Body × List Section)
headed is_element name none = none
headed is_element name (some (body, rest)) =
    some ([], record { is_element = is_element; name = name; body = body } ∷ rest)

unfoldable pub sections : List Line → Option (Body × List Section)
unfolding is_plain
sections [] = some ([], [])
sections (blank ∷ ls) = sections ls
sections (table name ∷ ls) = headed false name (sections ls)
sections (element name ∷ ls) = headed true name (sections ls)
sections (text key value ∷ ls) = keyed key (string value) (sections ls)
sections (basic key value ∷ ls) =
    let rest = sections ls in if is_plain value then keyed key (string value) rest else none
sections (integer key n ∷ ls) =
    let rest = sections ls in if ltb n (2 ^ 63) then keyed key (number n) rest else none
sections (flag key b ∷ ls) = keyed key (boolean b) (sections ls)

-- The schema: each key of a struct at most once, and no other (`deny_unknown_fields`).
unfoldable pub is_strict : List Bytes → Body → Bool
is_strict allowed [] = true
is_strict allowed ((key, value) ∷ body) =
    any (str_eq key) allowed && (not (any (λ x. str_eq key x.0) body) && is_strict allowed body)

unfoldable pub value_of : Bytes → Body → Option Scalar
value_of key [] = none
value_of key ((k, value) ∷ body) = if str_eq k key then some value else value_of key body

-- A field of the type that the struct gives it: none is an error, and a field may be absent.
abbrev pub as_string : Option Scalar → Option (Option Bytes)
as_string none = some none
as_string (some (string t)) = some (some t)
as_string (some (number n)) = none
as_string (some (boolean b)) = none

abbrev pub as_number : Option Scalar → Option (Option ℕ)
as_number none = some none
as_number (some (number n)) = some (some n)
as_number (some (string t)) = none
as_number (some (boolean b)) = none

-- `default_true`
abbrev pub as_flag : Option Scalar → Option Bool
as_flag none = some true
as_flag (some (boolean b)) = some b
as_flag (some (string t)) = none
as_flag (some (number n)) = none
