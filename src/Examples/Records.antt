-- ===== src/Examples/Records.antt =====
-- A concrete audit chain (crates/audit/src): a line is the record itself, the digest keeps one byte.
use chaperone.Prelude.{
  ℕ, suc, ◌≡◌, ◌≢◌, refl, Bytes, [], ◌∷◌, true, false, Option, none, some, ascii, str_eq,
  str_eq_refl, arith, if◌then◌else◌,
}
use chaperone.Prelude.Fallible.{ok, err}
use chaperone.Audit.Hex.{hex, from_digit}
use chaperone.Audit.Chain.{
  io, walk_lines, Platform, chain_version, zeros, Tail, Writer, append, append_genesis, commit,
  seal_record, compute_hash, or_empty,
}
use chaperone.Audit.Chain.Gap.{failed_append-breaks}
use chaperone.Audit.Chain.Extends.{Laws, IsIntact, append-IsIntact, append_genesis-IsIntact}

record Entry : Type 0 where
  seq : ℕ
  prev_hash : Bytes
  this_hash : Bytes
  sig : Bytes

abbrev number_field : Entry → Bytes → Option ℕ
number_field v name =
    if str_eq name (ascii "seq")
    then some v.seq
    else if str_eq name (ascii "chain_version")
    then some chain_version
    else none

abbrev text_field : Entry → Bytes → Option Bytes
text_field v name =
    if str_eq name (ascii "prev_hash")
    then some v.prev_hash
    else if str_eq name (ascii "this_hash")
    then some v.this_hash
    else if str_eq name (ascii "sig")
    then some v.sig
    else none

abbrev platform : Platform
platform = record {
  Value = Entry;
  Line = Entry;
  Event = Unit {0};
  is_blank = λ l. false;
  parse_line = λ l. some l;
  is_object = λ v. true;
  field_u64 = number_field;
  field_str = text_field;
  body = λ n t e. record { seq = n; prev_hash = t; this_hash = []; sig = [] };
  genesis_event = tt;
  stamp = λ v h s. record v { this_hash = h; sig = s };
  canonical_body = λ v. some (v.seq ∷ v.prev_hash);
  to_line = λ v. some v;
  sha256 = λ t. 171 ∷ [];
  sign_raw = λ h. h;
  verify_raw = str_eq;
}

laws : Laws platform
unfolding str_eq
laws = record {
  parses = λ v l e. cc e;
  shows = λ v l e. refl;
  object = λ n t h s e. refl;
  version = λ n t h s e. refl;
  seq = λ n t h s e. refl;
  prev_hash = λ n t h s e. refl;
  this_hash = λ v h s. refl;
  sig = λ v h s. refl;
  unhashed = λ v h s. refl;
  encodes = λ n t e. (n ∷ t, refl);
  digest = λ t. (omega arith, tt);
  signed = λ h. str_eq_refl h;
}

abbrev head_at : ℕ → Tail
head_at n = record { seq = n; hash_hex = ascii "ab" }

abbrev first : Entry
first = record { seq = 0; prev_hash = hex zeros; this_hash = ascii "ab"; sig = 171 ∷ [] }

abbrev started : Writer platform
started = record { seq = 0; prev_hash = 171 ∷ []; file = first ∷ [] }

genesis_run : append_genesis platform [] true ≡ (started, ok (head_at 0))
unfolding append_genesis commit seal_record compute_hash or_empty hex from_digit
genesis_run = refl

abbrev second : Entry
second = record { seq = 1; prev_hash = ascii "ab"; this_hash = ascii "ab"; sig = 171 ∷ [] }

abbrev extended : Writer platform
extended = record { seq = 1; prev_hash = 171 ∷ []; file = first ∷ second ∷ [] }

append_run : append platform started tt true ≡ (extended, ok (head_at 1))
unfolding append commit seal_record compute_hash or_empty hex from_digit
append_run = refl

started-IsIntact : IsIntact platform started
started-IsIntact = (append_genesis-IsIntact platform laws started (head_at 0) true genesis_run).0

append-IsIntact_example :
    IsIntact platform extended
    × (extended.seq ≡ suc started.seq)
    × (head_at 1 ≡ record { seq = extended.seq; hash_hex = hex extended.prev_hash })
append-IsIntact_example =
    append-IsIntact platform laws started extended tt (head_at 1) true started-IsIntact
      (omega arith) append_run

-- The state moved on, and the file did not.
abbrev unwritten : Writer platform
unwritten = record { seq = 1; prev_hash = 171 ∷ []; file = first ∷ [] }

failed_run : append platform started tt false ≡ (unwritten, err io)
unfolding append commit seal_record compute_hash or_empty hex from_digit
failed_run = refl

abbrev gapped : Writer platform
gapped = record {
  seq = 2;
  prev_hash = 171 ∷ [];
  file =
      first
      ∷ record { seq = 2; prev_hash = ascii "ab"; this_hash = ascii "ab"; sig = 171 ∷ [] }
      ∷ [];
}

next_run : append platform unwritten tt true ≡ (gapped, ok (head_at 2))
unfolding append commit seal_record compute_hash or_empty hex from_digit
next_run = refl

failed_append-breaks_example : (walk_lines platform gapped.file).error ≢ none
failed_append-breaks_example =
    failed_append-breaks platform laws started unwritten gapped tt tt (head_at 2) true
      started-IsIntact (omega arith) failed_run next_run
