-- ===== src/Protocol/Endpoint/Printed.antt =====
-- A postgres URI written out is read as it was meant (`parse_pg_uri` of crates/protocol/src/ops.rs).
use chaperone.Prelude.{
  ℕ, ◌^◌, ◌<◌, ◌≡◌, ◌≢◌, ◌⊎◌, inl, inr, refl, ap, ◌∙◌, Bytes, [], ◌∷◌, ◌++◌, append-nil, true,
  false, Option, none, some, ascii, arith, length, All, All-append, All_imp, is_empty, not,
  strip_prefix,
}
use chaperone.Prelude.Decimal.{digits, parse_u64-digits, digits-IsNumeral, IsDigit}
use chaperone.Prelude.Ascii.{Lacks, split_once}
use chaperone.Prelude.Fallible.{ok}
use chaperone.Protocol.Endpoint.{
  PgEndpoint, rsplit_once, all_digits, before_query, cut_port, port_of, parse_authority,
  parse_pg_uri, split_or, user_of,
}

split_once-here : (d : ℕ) (a b : Bytes) → Lacks d a → split_once d (a ++ (d ∷ b)) ≡ some (a, b)
unfolding split_once
split_once-here d [] b h = ground arith
split_once-here d (c ∷ a) b (hc, h) = ground (arith, split_once-here d a b h)

split_once-none : (d : ℕ) (a : Bytes) → Lacks d a → split_once d a ≡ none
unfolding split_once
split_once-none d [] h = refl
split_once-none d (c ∷ a) (hc, h) = ground (arith, split_once-none d a h)

rsplit_once-none : (d : ℕ) (a : Bytes) → Lacks d a → rsplit_once d a ≡ none
unfolding rsplit_once
rsplit_once-none d [] h = refl
rsplit_once-none d (c ∷ a) (hc, h) = ground (arith, rsplit_once-none d a h)

rsplit_once-here : (d : ℕ) (a b : Bytes) → Lacks d b → rsplit_once d (a ++ (d ∷ b)) ≡ some (a, b)
unfolding rsplit_once
rsplit_once-here d [] b h = ground (arith, rsplit_once-none d b h)
rsplit_once-here d (c ∷ a) b h = ground (arith, rsplit_once-here d a b h)

all_digits-IsNumeral : (t : Bytes) → All IsDigit t → all_digits t ≡ true
unfolding all_digits
all_digits-IsNumeral [] h = refl
all_digits-IsNumeral (c ∷ t) (hc, h) = ground (arith, all_digits-IsNumeral t h)

before_query-Lacks : (t : Bytes) → Lacks b'?' t → Lacks b'#' t → before_query t ≡ t
unfolding before_query
before_query-Lacks [] h k = refl
before_query-Lacks (c ∷ t) (hc, h) (kc, k) = ground (arith, before_query-Lacks t h k)

-- `:` and the password, if there is one.
abbrev pub secret_part : Option Bytes → Bytes
secret_part none = []
secret_part (some pw) = b':' ∷ pw

abbrev pub print_authority : PgEndpoint → Option Bytes → Bytes
print_authority e secret =
    (e.user ++ secret_part secret) ++ (b'@' ∷ (e.host ++ (b':' ∷ digits e.port)))

abbrev pub print : PgEndpoint → Option Bytes → Bytes
print e secret = ascii "postgres://" ++ (print_authority e secret ++ (b'/' ∷ e.database))

-- Each part lacks the bytes that end it.
pub record IsPlain (e : PgEndpoint) (secret : Option Bytes) : Type 0 where
  pub user_plain : Lacks b':' e.user
  pub info_plain :
      Lacks b'/' (e.user ++ secret_part secret) × Lacks b'@' (e.user ++ secret_part secret)
  pub host_plain : Lacks b'/' e.host
  pub has_host : e.host ≢ []
  pub port_fits : e.port < 2 ^ 16
  pub database_plain : Lacks b'?' e.database × Lacks b'#' e.database

port_read :
    (host : Bytes) (port : ℕ)
    → cut_port (host ++ (b':' ∷ digits port)) (some (host, digits port))
      ≡ (host, some (digits port))
unfolding cut_port
port_read host port =
    let (some_digit, ds) = digits-IsNumeral port in
    ground (arith, all_digits-IsNumeral (digits port) ds, not_empty (digits port) some_digit)
  where
    not_empty : (t : Bytes) → 0 < length t → is_empty t ≡ false
    not_empty [] h = absurd (omega (arith, h))
    not_empty (c ∷ t) h = refl

digits-Lacks : (d n : ℕ) → (d < b'0') ⊎ (b'9' < d) → Lacks d (digits n)
digits-Lacks d n h = All_imp {P = IsDigit} (λ c k. omega arith) (digits n) (digits-IsNumeral n).1

user_read :
    (user hostport : Bytes) (secret : Option Bytes)
    → Lacks b':' user
    → user_of (some (user ++ secret_part secret, hostport)) ≡ user
user_read user hostport none h =
    let bare : split_once b':' (user ++ []) ≡ none =
      rw (append-nil user) (split_once-none b':' user h) in
    ap (λ o. (split_or o (user ++ [], [])).0) bare ∙ append-nil user
user_read user hostport (some pw) h =
    ap (λ o. (split_or o (user ++ (b':' ∷ pw), [])).0) (split_once-here b':' user pw h)

port_of-digits : (n : ℕ) → n < 2 ^ 16 → port_of (some (digits n)) ≡ ok n
unfolding port_of
port_of-digits n h = ground (arith, parse_u64-digits n (omega arith))

host_present : (host : Bytes) → host ≢ [] → not (is_empty host) ≡ true
host_present [] h = absurd (h refl)
host_present (c ∷ t) h = refl

authority_read :
    (e : PgEndpoint) (secret : Option Bytes)
    → IsPlain e secret
    → parse_authority (print_authority e secret) e.database ≡ ok e
unfolding parse_authority
authority_read e secret plain =
    let info = e.user ++ secret_part secret in
    let hostport = e.host ++ (b':' ∷ digits e.port) in
    rw
      (
        split_once-here b'@' info hostport plain.info_plain.1,
        rsplit_once-here b':' e.host (digits e.port) (digits-Lacks b':' e.port (inr (omega arith))),
        port_read e.host e.port,
        host_present e.host plain.has_host,
        port_of-digits e.port plain.port_fits,
        user_read e.user hostport secret plain.user_plain,
        before_query-Lacks e.database plain.database_plain.0 plain.database_plain.1,
      )
      refl

authority_plain :
    (e : PgEndpoint) (secret : Option Bytes)
    → IsPlain e secret
    → Lacks b'/' (print_authority e secret)
authority_plain e secret plain =
    let NoSlash = λ (c : ℕ). c ≢ b'/' in
    let tail =
      All-append NoSlash e.host (b':' ∷ digits e.port) plain.host_plain
        (omega arith, digits-Lacks b'/' e.port (inl (omega arith))) in
    All-append NoSlash (e.user ++ secret_part secret) (b'@' ∷ (e.host ++ (b':' ∷ digits e.port)))
      plain.info_plain.0 (omega arith, tail)

-- A URI written out from a user, with or without a password, a host, a port and a database, none of
-- whose parts holds a byte that ends it, is read as just that user, host, port and database: the
-- password is not kept.
pub parse_pg_uri-print :
    (e : PgEndpoint) (secret : Option Bytes)
    → IsPlain e secret
    → parse_pg_uri (print e secret) ≡ ok e
unfolding parse_pg_uri strip_prefix
parse_pg_uri-print e secret plain =
    rw (split_once-here b'/' (print_authority e secret) e.database (authority_plain e secret plain))
      (authority_read e secret plain)
