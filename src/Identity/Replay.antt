-- ===== src/Identity/Replay.antt =====
-- crates/identity/src/replay.rs: the cache of used nonces. Times are seconds since the earliest
-- instant that the `time` crate represents (year -9999), so that they are natural numbers; the cache
-- only adds and compares them. `i64::MAX` moves with the origin. The journal is the list of the
-- file's lines; the JSON form of a line is a parameter. Whether the file system lets a rewrite or an
-- append through is an argument of each call.
pub mod Reserved
pub mod Matched
pub mod Table
use chaperone.Prelude.{
  ℕ, suc, ◌+◌, ◌*◌, ◌^◌, ◌-◌, min, Bytes, List, [], ◌∷◌, ◌++◌, map, Bool, true, false, ◌&&◌, ◌||◌,
  not, Option, none, some, length, ltb, leb, if◌then◌else◌,
}
use chaperone.Prelude.Map.{text_eq, pair_eq, Map, lookup, insert, remove}

-- Seconds from the origin to the Unix epoch.
abbrev pub unix_epoch : ℕ
unix_epoch = 377705116800

abbrev pub i64_max : ℕ
i64_max = unix_epoch + (2 ^ 63 - 1)

-- `JournalLine`, and an entry of `insertion_order`.
pub record Line : Type 0 where
  pub agent : Bytes
  pub nonce : Bytes
  pub expires : ℕ

abbrev pub key : Line → Bytes × Bytes
key x = (x.agent, x.nonce)

pub record Inner : Type 0 where
  pub seen : Map (Bytes × Bytes) ℕ
  pub insertion_order : List Line
  pub journal_lines_written : ℕ

pub data Reservation : Type 0 where
  fresh : Reservation
  duplicate : Reservation
  capacity_full : Reservation

-- `journal` is the file behind `path`, none for the cache in memory.
pub record Cache : Type 0 where
  pub inner : Inner
  pub journal : Option (List Bytes)
  pub max_journal_bytes : ℕ

pub record Io : Type 0 where
  pub rewrite_ok : Bool
  pub append_ok : Bool

abbrev pub default_max_journal_bytes : ℕ
default_max_journal_bytes = 16 * 1024 * 1024

abbrev pub in_memory : Cache
in_memory = record {
  inner = record { seen = []; insertion_order = []; journal_lines_written = 0 };
  journal = none;
  max_journal_bytes = default_max_journal_bytes;
}

pub is_fresh : Reservation → Bool
is_fresh fresh = true
is_fresh duplicate = false
is_fresh capacity_full = false

abbrev pub with_journal_cap : Cache → ℕ → Cache
with_journal_cap c bytes = record c { max_journal_bytes = bytes }

unfoldable pub contains_key : Bytes × Bytes → Map (Bytes × Bytes) ℕ → Bool
contains_key k m = elim (lookup k m) [ none ↦ false | some _ ↦ true ]

-- `purge_expired`, over the two fields that it changes.
unfoldable pub purge : ℕ → Map (Bytes × Bytes) ℕ → List Line → Map (Bytes × Bytes) ℕ × List Line
purge now seen [] = (seen, [])
purge now seen (x ∷ rest) =
    let popped = purge now (remove (key x) seen) rest in
    if ltb now x.expires then (seen, x ∷ rest) else popped

unfoldable pub purge_expired : Inner → ℕ → Inner
purge_expired c now =
    let (seen, order) = purge now c.seen c.insertion_order in
    record c { seen = seen; insertion_order = order }

-- `VecDeque::pop_back`.
abbrev pub pop_back : List Line → List Line
pop_back [] = []
pop_back (x ∷ []) = []
pop_back (x ∷ y ∷ r) = x ∷ pop_back (y ∷ r)

-- The file's length: each line and its line feed.
pub journal_len : List Bytes → ℕ
journal_len [] = 0
journal_len (l ∷ ls) = length l + 1 + journal_len ls

-- `now_unix.saturating_add(retention_secs)`
abbrev pub saturating_add : ℕ → ℕ → ℕ
saturating_add now retention = min (now + retention) i64_max

unfoldable pub reserve : Inner → Line → Inner
reserve c x = record {
  seen = insert (key x) x.expires c.seen;
  insertion_order = c.insertion_order ++ x ∷ [];
  journal_lines_written = c.journal_lines_written + 1;
}

pub roll_back : Inner → Line → Inner
roll_back c x = record c {
  seen = remove (key x) c.seen;
  insertion_order = pop_back c.insertion_order;
}

pub record Parts : Type 0 where
  pub state : Inner
  pub file : List Bytes
  pub journaled : Bool

module _ (to_line : Line → Bytes) where
  -- `rewrite_journal`: through a temporary file, so a failure leaves the old file.
  pub rewrite_journal : Bool → Inner → List Bytes → Inner × List Bytes
  rewrite_journal ok c file =
      if ok
      then (
        record c { journal_lines_written = length c.insertion_order },
        map to_line c.insertion_order,
      )
      else (c, file)

  pub compact : Io → ℕ → Inner → List Bytes → Parts
  compact io cap c file =
      let due =
        leb 1024 c.journal_lines_written && ltb (length c.seen * 2) c.journal_lines_written in
      let (c', file') = rewrite_journal io.rewrite_ok c file in
      if ltb cap (journal_len file) || due
      then record { state = c'; file = file'; journaled = true }
      else record { state = c; file = file; journaled = false }

  pub append_line : Bool → Line → List Bytes → List Bytes
  append_line ok x file = if ok then file ++ to_line x ∷ [] else file

  -- The part behind the compaction: refuse, or see that the line is on file.
  pub settle : Io → ℕ → Line → Parts → Inner × List Bytes × Reservation
  settle io cap x p =
      if ltb cap (journal_len p.file)
      then (roll_back p.state x, p.file, capacity_full)
      else (p.state, if p.journaled then p.file else append_line io.append_ok x p.file, fresh)

  unfoldable pub persist_reservation : Cache → Io → Line → Inner → Cache × Reservation
  persist_reservation c io x inner = elim c.journal [
    | none ↦ (record c { inner = inner }, fresh)
    | some file ↦
        let (state, file', r) =
          settle io c.max_journal_bytes x (compact io c.max_journal_bytes inner file) in
        (record c { inner = state; journal = some file' }, r)
  ]

  unfoldable pub check_and_reserve : Cache → Bytes → Bytes → ℕ → ℕ → Io → Cache × Reservation
  check_and_reserve c agent nonce now retention io =
      let x : Line = record {
        agent = agent;
        nonce = nonce;
        expires = saturating_add now retention;
      } in
      let inner = purge_expired c.inner now in
      if contains_key (key x) inner.seen
      then (record c { inner = inner }, duplicate)
      else persist_reservation c io x (reserve inner x)

  pub live_entries : Cache → ℕ
  live_entries c = length c.inner.seen

  -- The loop of `open` over the lines of the file, each parsed or corrupt.
  pub load_lines :
      (Bytes → Option Line)
      → ℕ
      → List Bytes
      → Map (Bytes × Bytes) ℕ
      → List Line
      → Option (Map (Bytes × Bytes) ℕ × List Line)
  load_lines parse now [] seen order = some (seen, order)
  load_lines parse now ([] ∷ rest) seen order = load_lines parse now rest seen order
  load_lines parse now ((b ∷ l) ∷ rest) seen order =
      let drop_it = load_lines parse now rest seen order in
      let keep_it =
        λ (x : Line). load_lines parse now rest (insert (key x) x.expires seen) (order ++ x ∷ []) in
      elim (parse (b ∷ l)) [
        | none ↦ none
        | some x ↦ if ltb now x.expires then keep_it x else drop_it
      ]

  open_with : Io → List Bytes → Map (Bytes × Bytes) ℕ × List Line → Cache
  open_with io file (seen, order) =
      let c : Inner = record {
        seen = seen;
        insertion_order = order;
        journal_lines_written = length file;
      } in
      let (c', file') =
        rewrite_journal io.rewrite_ok (record c { journal_lines_written = 0 }) file in
      let start = λ (i : Inner) (f : List Bytes).
        let opened : Cache = record {
          inner = i;
          journal = some f;
          max_journal_bytes = default_max_journal_bytes;
        } in
        opened in
      if ltb 1024 (length file) && ltb (length seen * 2) (length file)
      then start (record c' { journal_lines_written = 0 }) file'
      else start c file

  -- `none` is `ReplayCacheError::Corrupt`. A missing file is an empty one.
  pub open_journal : (Bytes → Option Line) → ℕ → List Bytes → Io → Option Cache
  open_journal parse now file io = elim (load_lines parse now file [] []) [
    | none ↦ none
    | some parts ↦ some (open_with io file parts)
  ]
