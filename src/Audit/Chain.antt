-- ===== src/Audit/Chain.antt =====
-- crates/audit/src/writer.rs and verify.rs: records sealed by a hash over the one before, and the walk
-- that checks them. JSON values, the lines of the journal, SHA-256 and Ed25519 are the parameters of
-- `Platform`; a journal is the list of its lines.
pub mod Extends
pub mod Gap
pub mod Walk
use chaperone.Prelude.{
  ℕ, zero, suc, ◌+◌, ◌-◌, ◌^◌, min, Bytes, List, [], ◌∷◌, ◌++◌, Bool, true, false, Option, none,
  some, ascii, str_eq, ◌==◌, if◌then◌else◌,
}
use chaperone.Prelude.Fallible.{Fallible, err, ok, ◌>>=◌, ◌>>◌, ensure}
use chaperone.Audit.Hex.{hex, unhex}

-- `body` is the `json!` object of a record: its sequence number, the hex of the hash before, and the
-- event; `stamp` inserts `this_hash` and `sig`; `canonical_body` is the canonical form without those
-- two, and `to_line` is the whole canonical form.
pub record Platform : Type 1 where
  pub Value : Type 0
  pub Line : Type 0
  pub Event : Type 0
  pub is_blank : Line → Bool
  pub parse_line : Line → Option Value
  pub is_object : Value → Bool
  pub field_u64 : Value → Bytes → Option ℕ
  pub field_str : Value → Bytes → Option Bytes
  pub body : ℕ → Bytes → Event → Value
  pub genesis_event : Event
  pub stamp : Value → Bytes → Bytes → Value
  pub canonical_body : Value → Option Bytes
  pub to_line : Value → Option Line
  pub sha256 : Bytes → Bytes
  pub sign_raw : Bytes → Bytes
  pub verify_raw : Bytes → Bytes → Bool

abbrev pub chain_version : ℕ
chain_version = 1

abbrev pub u64_max : ℕ
u64_max = 2 ^ 64 - 1

abbrev pub zero_run : ℕ → Bytes
zero_run zero = []
zero_run (suc n) = 0 ∷ zero_run n

-- `[0u8; 32]`
abbrev pub zeros : Bytes
zeros = zero_run 32

-- The reasons for a break, without the values that their texts quote.
pub data Reason : Type 0 where
  not_json : Reason
  not_an_object : Reason
  version_mismatch : Reason
  missing_seq : Reason
  unexpected_seq : ℕ → ℕ → Reason
  missing_this_hash : Reason
  missing_prev_hash : Reason
  prev_hash_mismatch : Reason
  canonicalization_failed : Reason
  predecessor_not_hex : Reason
  this_hash_not_hex : Reason
  hash_mismatch : Reason
  missing_sig : Reason
  bad_signature : Reason

pub record Tail : Type 0 where
  pub seq : ℕ
  pub hash_hex : Bytes

pub record Break : Type 0 where
  pub line : ℕ
  pub reason : Reason

pub record Report : Type 0 where
  pub tail : Option Tail
  pub error : Option Break
  pub records_ok : ℕ

pub data AuditError : Type 0 where
  io : AuditError
  broken_chain : Break → AuditError
  serialize : AuditError

abbrev pub or_err : {A : Type 0} {E : Type 0} → E → Option A → Fallible E A
or_err e none = err e
or_err e (some a) = ok a

abbrev pub is_version : Option ℕ → Bool
is_version none = false
is_version (some v) = v == chain_version

module _ (p : Platform) where
  open p use {
    Value, Line, Event, is_blank, parse_line, is_object, field_u64, field_str, body, genesis_event,
    stamp, canonical_body, to_line, sha256, sign_raw, verify_raw,
  }

  pub verify_value : Value → Bytes → ℕ → Fallible Reason (ℕ × Bytes)
  verify_value value expect_prev expect_seq = do
    ensure not_an_object (is_object value)
    ensure version_mismatch (is_version (field_u64 value (ascii "chain_version")))
    seq ← or_err missing_seq (field_u64 value (ascii "seq"))
    ensure (unexpected_seq expect_seq seq) (seq == expect_seq)
    this_hash ← or_err missing_this_hash (field_str value (ascii "this_hash"))
    prev_hash ← or_err missing_prev_hash (field_str value (ascii "prev_hash"))
    ensure prev_hash_mismatch (str_eq prev_hash expect_prev)
    canonical ← or_err canonicalization_failed (canonical_body value)
    before ← or_err predecessor_not_hex (unhex expect_prev)
    stored ← or_err this_hash_not_hex (unhex this_hash)
    ensure hash_mismatch (str_eq stored (sha256 (before ++ canonical)))
    sig ← or_err missing_sig (field_str value (ascii "sig"))
    ensure bad_signature (verify_raw (sha256 (before ++ canonical)) sig)
    ok (seq, this_hash)

  pub verify_line : Line → Bytes → ℕ → Fallible Reason (ℕ × Bytes)
  verify_line line expect_prev expect_seq = do
    value ← or_err not_json (parse_line line)
    verify_value value expect_prev expect_seq

  -- The loop of `walk_lines`, from the given line number, count, predecessor and tail on.
  pub walk_from : ℕ → ℕ → Bytes → Option Tail → List Line → Report
  walk_from i records_ok expect_prev tail [] = record {
    tail = tail;
    error = none;
    records_ok = records_ok;
  }
  walk_from i records_ok expect_prev tail (line ∷ rest) =
      let skip = walk_from (suc i) records_ok expect_prev tail rest in
      let go = λ (seq : ℕ) (hash : Bytes).
        walk_from (suc i) (suc records_ok) hash (some (record { seq = seq; hash_hex = hash }))
          rest in
      let checked : Report = elim (verify_line line expect_prev records_ok) [
        | err reason ↦ record {
          tail = tail;
          error = some (record { line = i; reason = reason });
          records_ok = records_ok;
        }
        | ok (seq, hash) ↦ go seq hash
      ] in
      if is_blank line then skip else checked

  pub walk_lines : List Line → Report
  walk_lines journal = walk_from 0 0 (hex zeros) none journal

  -- `AuditWriter`: its state and its file.
  pub record Writer : Type 0 where
    pub seq : ℕ
    pub prev_hash : Bytes
    pub file : List Line

  unfoldable pub or_empty : Option Bytes → Bytes
  or_empty none = []
  or_empty (some t) = t

  unfoldable pub compute_hash : Value → Bytes → Bytes
  compute_hash b prev_hash = sha256 (prev_hash ++ or_empty (canonical_body b))

  unfoldable pub seal_record : Value → Bytes → Fallible AuditError (Bytes × Line)
  seal_record b prev_hash = do
    let this_hash = compute_hash b prev_hash
    line ← or_err serialize (to_line (stamp b (hex this_hash) (sign_raw this_hash)))
    ok (this_hash, line)

  -- The state moves on before the line is written.
  unfoldable pub commit :
      Writer → ℕ → Bool → Fallible AuditError (Bytes × Line) → Writer × Fallible AuditError Tail
  commit w next_seq write_ok (err e) = (w, err e)
  commit w next_seq write_ok (ok (this_hash, line)) =
      if write_ok
      then (
        record { seq = next_seq; prev_hash = this_hash; file = w.file ++ line ∷ [] },
        ok (record { seq = next_seq; hash_hex = hex this_hash }),
      )
      else (record { seq = next_seq; prev_hash = this_hash; file = w.file }, err io)

  unfoldable pub append : Writer → Event → Bool → Writer × Fallible AuditError Tail
  append w event write_ok =
      let next_seq = min (w.seq + 1) u64_max in
      commit w next_seq write_ok (seal_record (body next_seq (hex w.prev_hash) event) w.prev_hash)

  -- On a file with nothing in it.
  unfoldable pub append_genesis : List Line → Bool → Writer × Fallible AuditError Tail
  append_genesis file write_ok =
      let w : Writer = record { seq = 0; prev_hash = zeros; file = file } in
      commit w 0 write_ok (seal_record (body 0 (hex zeros) genesis_event) zeros)
