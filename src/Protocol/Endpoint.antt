-- ===== src/Protocol/Endpoint.antt =====
-- crates/protocol/src/ops.rs: the postgres target URI.
pub mod Printed
use chaperone.Prelude.{
  ℕ, ◌^◌, Bytes, List, [], ◌∷◌, Bool, true, false, ◌&&◌, ◌||◌, not, Option, none, some, ascii,
  is_empty, strip_prefix, leb, ltb, ◌==◌, if◌then◌else◌,
}
use chaperone.Prelude.Decimal.{parse_u64}
use chaperone.Prelude.Ascii.{split_once}
use chaperone.Prelude.Fallible.{Fallible, err, ok, ensure, ◌>>=◌, ◌>>◌}

pub record PgEndpoint : Type 0 where
  pub user : Bytes
  pub host : Bytes
  pub port : ℕ
  pub database : Bytes

-- `str::rsplit_once` at one character.
unfoldable pub rsplit_once : ℕ → Bytes → Option (Bytes × Bytes)
rsplit_once d [] = none
rsplit_once d (c ∷ t) = elim (rsplit_once d t) [
  | some (a, b) ↦ some (c ∷ a, b)
  | none ↦ if c == d then some ([], t) else none
]

-- `chars().all(|c| c.is_ascii_digit())`
unfoldable pub all_digits : Bytes → Bool
all_digits [] = true
all_digits (c ∷ t) = leb b'0' c && leb c b'9' && all_digits t

-- `split(['?', '#']).next()`
unfoldable pub before_query : Bytes → Bytes
before_query [] = []
before_query (c ∷ t) = let rest = before_query t in if c == b'?' || c == b'#' then [] else c ∷ rest

abbrev pub split_or : Option (Bytes × Bytes) → Bytes × Bytes → Bytes × Bytes
split_or none d = d
split_or (some cut) d = cut

abbrev pub user_of : Option (Bytes × Bytes) → Bytes
user_of none = []
user_of (some (userinfo, hostport)) = (split_or (split_once b':' userinfo) (userinfo, [])).0

abbrev pub hostport_of : Bytes → Option (Bytes × Bytes) → Bytes
hostport_of authority none = authority
hostport_of authority (some (userinfo, hostport)) = hostport

-- The host, and the port's text if digits follow the last colon.
unfoldable pub cut_port : Bytes → Option (Bytes × Bytes) → Bytes × Option Bytes
unfolding all_digits
cut_port hostport none = (hostport, none)
cut_port hostport (some (h, p)) =
    if not (is_empty p) && all_digits p then (h, some p) else (hostport, none)

abbrev pub below_u16 : ℕ → Option ℕ
below_u16 n = if ltb n (2 ^ 16) then some n else none

-- `p.parse::<u16>()` of digits.
abbrev pub parse_u16 : Bytes → Option ℕ
parse_u16 p = elim (parse_u64 p) [ none ↦ none | some n ↦ below_u16 n ]

abbrev pub or_err : Option ℕ → Bytes → Fallible Bytes ℕ
or_err none why = err why
or_err (some n) why = ok n

unfoldable pub port_of : Option Bytes → Fallible Bytes ℕ
port_of none = ok 5432
port_of (some p) = or_err (parse_u16 p) (ascii "port out of range")

abbrev pub or_fail : Option Bytes → Bytes → Fallible Bytes Bytes
or_fail none why = err why
or_fail (some t) why = ok t

unfoldable pub parse_authority : Bytes → Bytes → Fallible Bytes PgEndpoint
unfolding rsplit_once cut_port port_of before_query
parse_authority authority path_db = do
  let cut = split_once b'@' authority
  let hostport = hostport_of authority cut
  let (host, port_text) = cut_port hostport (rsplit_once b':' hostport)
  ensure (ascii "target.uri has empty host") (not (is_empty host))
  port ← port_of port_text
  ok (record { user = user_of cut; host = host; port = port; database = before_query path_db })

unfoldable pub parse_pg_uri : Bytes → Fallible Bytes PgEndpoint
unfolding parse_authority
parse_pg_uri uri = do
  rest ←
      or_fail (strip_prefix (ascii "postgres://") uri)
        (ascii "target.uri must start with postgres://")
  let (authority, path_db) = split_or (split_once b'/' rest) (rest, [])
  parse_authority authority path_db
