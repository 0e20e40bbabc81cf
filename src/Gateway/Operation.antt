-- ===== src/Gateway/Operation.antt =====
-- The bodies of an operation (crates/protocol/src/ops.rs) and the daemon's copy of the allowlist of
-- privileged commands (crates/gateway-core/src/privilege.rs).
use chaperone.Prelude.{
  ℕ, suc, zero, ◌+◌, Bytes, List, [], ◌∷◌, ◌++◌, Bool, true, false, ◌&&◌, Option, none, some, ascii,
  str_eq, split, leb, ltb, if◌then◌else◌, ◌==◌,
}
use chaperone.Prelude.Ascii.{eq_ignore_ascii_case}

pub record HttpOperation : Type 0 where
  pub method : Bytes
  pub headers : List (Bytes × Bytes)
  pub body_b64 : Option Bytes
  pub username : Option Bytes

pub record DbOperation : Type 0 where
  pub engine : Bytes
  pub database : Option Bytes
  pub statement : Option Bytes
  pub params : Option (List Bytes)
  pub username : Option Bytes

unfoldable pub any_authorization : List (Bytes × Bytes) → Bool
any_authorization [] = false
any_authorization ((k, v) ∷ rest) =
    if eq_ignore_ascii_case k (ascii "authorization") then true else any_authorization rest

unfoldable pub has_agent_authorization : HttpOperation → Bool
has_agent_authorization op = any_authorization op.headers

pub http_summary : HttpOperation → Bytes
http_summary op = elim op.body_b64 [ none ↦ op.method | some _ ↦ op.method ++ ascii " with body" ]

-- The first `n` characters of UTF-8 text: a byte from 0x80 to 0xBF continues a character.
take_chars : ℕ → Bytes → Bytes
take_chars n [] = []
take_chars n (b ∷ t) =
    let within = b ∷ take_chars n t in
    let starts : Bytes = elim n [ zero ↦ [] | suc k ↦ b ∷ take_chars k t ] in
    if leb 128 b && ltb b 192 then within else starts

count_chars : Bytes → ℕ
count_chars [] = 0
count_chars (b ∷ t) = let k = count_chars t in if leb 128 b && ltb b 192 then k else k + 1

-- The text without one carriage return at its end.
cut_return : Bytes → Bytes
cut_return [] = []
cut_return (b ∷ []) = if b == 13 then [] else b ∷ []
cut_return (b ∷ c ∷ t) = b ∷ cut_return (c ∷ t)

-- The first of the parts: what `lines().next()` gives, where only a line feed behind it lets it
-- lose its carriage return.
first_of : List Bytes → Bytes
first_of [] = []
first_of (l ∷ []) = l
first_of (l ∷ m ∷ r) = cut_return l

-- `first_line`; an ellipsis is E2 80 A6.
pub first_line : Bytes → Bytes
first_line sql =
    let line = first_of (split 10 sql) in
    let out = take_chars 60 line in
    if ltb 60 (count_chars line) then out ++ 0xE2 ∷ 0x80 ∷ 0xA6 ∷ [] else out

pub db_summary_of : Option Bytes → Option Bytes → Bytes
db_summary_of (some sql) (some db) = ascii "query " ++ (db ++ (ascii ": " ++ first_line sql))
db_summary_of (some sql) none = ascii "query: " ++ first_line sql
db_summary_of none (some db) = ascii "open session on " ++ db
db_summary_of none none = ascii "open database session"

pub db_summary : DbOperation → Bytes
db_summary op = db_summary_of op.statement op.database

-- `args[..pin.len()] == *pin` behind the test of the lengths.
unfoldable pub begins_with : List Bytes → List Bytes → Bool
begins_with [] args = true
begins_with (p ∷ pin) [] = false
begins_with (p ∷ pin) (a ∷ args) = str_eq a p && begins_with pin args

unfoldable pub permits : List (Bytes × List Bytes) → Bytes → List Bytes → Bool
permits [] command args = false
permits ((c, pin) ∷ rest) command args =
    if str_eq c command && begins_with pin args then true else permits rest command args
