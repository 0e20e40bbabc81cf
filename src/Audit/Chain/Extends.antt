-- ===== src/Audit/Chain/Extends.antt =====
-- What the writer appends, the verifier accepts (crates/audit/src/writer.rs and verify.rs).
use chaperone.Prelude.{
  ℕ, zero, suc, ◌+◌, ◌<◌, ◌≡◌, refl, sym, ap, ◌∙◌, subst, Bytes, [], ◌∷◌, ◌++◌, All, Bool, true,
  false, Option, none, some, ascii, arith, str_eq_refl, ◌==◌, min,
}
use chaperone.Prelude.Fallible.{Fallible, err, ok, chain_succeeds, same_value}
use chaperone.Audit.Hex.{hex, unhex-hex}
use chaperone.Audit.Chain.{
  Platform, chain_version, u64_max, zeros, zero_run, Tail, AuditError, serialize, or_err,
  verify_value, verify_line, walk_lines, Writer, or_empty, compute_hash, seal_record, commit,
  append, append_genesis,
}
use chaperone.Audit.Chain.Walk.{walk-extend, walk_good, walk_end}

-- What JSON, the canonical form, SHA-256 and Ed25519 do: a line of canonical JSON is not blank and
-- reads back, an object has the fields that were put in, the body leaves `this_hash` and `sig` out,
-- a digest is bytes, and a signature verifies.
pub record Laws (p : Platform) : Type 0 where
  pub parses : (v : p.Value) (l : p.Line) → p.to_line v ≡ some l → p.parse_line l ≡ some v
  pub shows : (v : p.Value) (l : p.Line) → p.to_line v ≡ some l → p.is_blank l ≡ false
  pub object :
      (n : ℕ) (t h s : Bytes) (e : p.Event) → p.is_object (p.stamp (p.body n t e) h s) ≡ true
  pub version :
      (n : ℕ) (t h s : Bytes) (e : p.Event)
      → p.field_u64 (p.stamp (p.body n t e) h s) (ascii "chain_version") ≡ some chain_version
  pub seq :
      (n : ℕ) (t h s : Bytes) (e : p.Event)
      → p.field_u64 (p.stamp (p.body n t e) h s) (ascii "seq") ≡ some n
  pub prev_hash :
      (n : ℕ) (t h s : Bytes) (e : p.Event)
      → p.field_str (p.stamp (p.body n t e) h s) (ascii "prev_hash") ≡ some t
  pub this_hash :
      (v : p.Value) (h s : Bytes) → p.field_str (p.stamp v h s) (ascii "this_hash") ≡ some h
  pub sig : (v : p.Value) (h s : Bytes) → p.field_str (p.stamp v h s) (ascii "sig") ≡ some s
  pub unhashed : (v : p.Value) (h s : Bytes) → p.canonical_body (p.stamp v h s) ≡ p.canonical_body v
  pub encodes :
      (n : ℕ) (t : Bytes) (e : p.Event) → (f : Bytes) × (p.canonical_body (p.body n t e) ≡ some f)
  pub digest : (t : Bytes) → All (λ b. b < 256) (p.sha256 t)
  pub signed : (h : Bytes) → p.verify_raw h (p.sign_raw h) ≡ true

module _ (p : Platform) where
  open p use {Value, Line, Event, is_blank, to_line, body, stamp, sign_raw, sha256}

  -- The journal verifies to the end, with one record for each number up to the writer's, and its tail
  -- is the writer's head.
  pub record IsIntact (w : Writer p) : Type 0 where
    pub error : (walk_lines p w.file).error ≡ none
    pub records_ok : (walk_lines p w.file).records_ok ≡ suc w.seq
    pub tail :
        (walk_lines p w.file).tail ≡ some (record { seq = w.seq; hash_hex = hex w.prev_hash })
    pub bytes : All (λ b. b < 256) w.prev_hash

  module _ (laws : Laws p) where
    hash_of :
        (b : Value) (prev form : Bytes)
        → p.canonical_body b ≡ some form
        → compute_hash p b prev ≡ sha256 (prev ++ form)
    unfolding compute_hash or_empty
    hash_of b prev form f = rw (f, compute_hash) refl

    hash_bytes : (b : Value) (prev : Bytes) → All (λ x. x < 256) (compute_hash p b prev)
    unfolding compute_hash
    hash_bytes b prev = laws.digest _

    pub line_of :
        (o : Option Line) (l : Line)
        → ◌≡◌ {A = Fallible AuditError Line} (or_err serialize o) (ok l)
        → o ≡ some l
    line_of none l h = absurd (cc h)
    line_of (some x) l h = cc h

    sealed_value :
        (n : ℕ) (prev : Bytes) (e : Event)
        → All (λ b. b < 256) prev
        → let h = compute_hash p (body n (hex prev) e) prev in
          verify_value p (stamp (body n (hex prev) e) (hex h) (sign_raw h)) (hex prev) n
          ≡ ok (n, hex h)
    unfolding verify_value
    sealed_value n prev e bytes =
        let b = body n (hex prev) e in
        let (form, f) = laws.encodes n (hex prev) e in
        let h = sha256 (prev ++ form) in
        let same : n == n ≡ true = ground arith in
        rw
          (
            hash_of b prev form f,
            laws.object n (hex prev) (hex h) (sign_raw h) e,
            laws.version n (hex prev) (hex h) (sign_raw h) e,
            laws.seq n (hex prev) (hex h) (sign_raw h) e,
            same,
            laws.this_hash b (hex h) (sign_raw h),
            laws.prev_hash n (hex prev) (hex h) (sign_raw h) e,
            str_eq_refl (hex prev),
            laws.unhashed b (hex h) (sign_raw h),
            f,
            unhex-hex prev bytes,
            unhex-hex h (laws.digest (prev ++ form)),
            str_eq_refl h,
            laws.sig b (hex h) (sign_raw h),
            laws.signed h,
          )
          refl

    sealed_line :
        (n : ℕ) (prev : Bytes) (e : Event) (h : Bytes) (l : Line)
        → All (λ b. b < 256) prev
        → seal_record p (body n (hex prev) e) prev ≡ ok (h, l)
        → (verify_line p l (hex prev) n ≡ ok (n, hex h))
          × (is_blank l ≡ false)
          × All (λ b. b < 256) h
    unfolding seal_record verify_line
    sealed_line n prev e h l bytes made =
        let b = body n (hex prev) e in
        let h' = compute_hash p b prev in
        let v = stamp b (hex h') (sign_raw h') in
        let (l', line, rest) = chain_succeeds (or_err serialize (to_line v)) _ made in
        let both = same_value rest in
        let written : to_line v ≡ some l = line_of (to_line v) l' line ∙ ap (λ t. some t.1) both in
        let hash : h' ≡ h = ap (λ t. t.0) both in
        (
          rw (laws.parses v l written) (sealed_value n prev e bytes ∙ ap (λ t. ok (n, hex t)) hash),
          laws.shows v l written,
          subst (All (λ x. x < 256)) hash (hash_bytes b prev),
        )

    pub commit-eq-ok :
        (w w' : Writer p) (n : ℕ) (write_ok : Bool) (sealed : Fallible AuditError (Bytes × Line))
        (head : Tail)
        → commit p w n write_ok sealed ≡ (w', ok head)
        → (h : Bytes) × (l : Line) × (sealed ≡ ok (h, l))
          × (w' ≡ record { seq = n; prev_hash = h; file = w.file ++ l ∷ [] })
          × (head ≡ record { seq = n; hash_hex = hex h })
    unfolding commit
    commit-eq-ok w w' n write_ok (err why) head made = absurd (cc (ap (λ t. t.1) made))
    commit-eq-ok w w' n false (ok (h, l)) head made = absurd (cc (ap (λ t. t.1) made))
    commit-eq-ok w w' n true (ok (h, l)) head made =
        (h, l, refl, sym (ap (λ t. t.0) made), same_value (sym (ap (λ t. t.1) made)))

    pushed-IsIntact :
        (w : Writer p) (l : Line) (h : Bytes)
        → IsIntact w
        → verify_line p l (hex w.prev_hash) (suc w.seq) ≡ ok (suc w.seq, hex h)
        → is_blank l ≡ false
        → All (λ b. b < 256) h
        → IsIntact (record { seq = suc w.seq; prev_hash = h; file = w.file ++ l ∷ [] })
    pushed-IsIntact w l h i good shown bytes =
        let report =
          walk-extend p w.file l (suc w.seq) (suc w.seq) w.prev_hash h
            (some (record { seq = w.seq; hash_hex = hex w.prev_hash })) i.error i.records_ok i.tail
            refl shown good in
        record {
          error = ap (λ r. r.error) report;
          records_ok = ap (λ r. r.records_ok) report;
          tail = ap (λ r. r.tail) report;
          bytes = bytes;
        }

    -- A successful append leaves an intact journal intact, with the new record as its tail and as the
    -- head that is returned. The sequence number must not have reached the largest 64-bit number.
    pub append-IsIntact :
        (w w' : Writer p) (e : Event) (head : Tail) (write_ok : Bool)
        → IsIntact w
        → w.seq < u64_max
        → append p w e write_ok ≡ (w', ok head)
        → IsIntact w'
          × (w'.seq ≡ suc w.seq)
          × (head ≡ record { seq = w'.seq; hash_hex = hex w'.prev_hash })
    unfolding append
    append-IsIntact w w' e head write_ok i room made =
        let next : min (w.seq + 1) u64_max ≡ suc w.seq = omega arith in
        let (h, l, sealed, new, top) =
          commit-eq-ok w w' (suc w.seq) write_ok _ head (rw next at made) in
        let (good, shown, bytes) = sealed_line (suc w.seq) w.prev_hash e h l i.bytes sealed in
        (
          subst IsIntact (sym new) (pushed-IsIntact w l h i good shown bytes),
          ap (λ x. x.seq) new,
          top ∙ ap (λ x. record { seq = x.seq; hash_hex = hex x.prev_hash }) (sym new),
        )

    zero_bytes : (n : ℕ) → All (λ b. b < 256) (zero_run n)
    zero_bytes zero = tt
    zero_bytes (suc n) = (omega arith, zero_bytes n)

    -- The genesis record makes an intact journal of an empty file.
    pub append_genesis-IsIntact :
        (w : Writer p) (head : Tail) (write_ok : Bool)
        → append_genesis p [] write_ok ≡ (w, ok head)
        → IsIntact w × (w.seq ≡ 0)
    unfolding append_genesis walk_lines
    append_genesis-IsIntact w head write_ok made =
        let (h, l, sealed, new, top) = commit-eq-ok _ w 0 write_ok _ head made in
        let (good, shown, bytes) = sealed_line 0 zeros p.genesis_event h l (zero_bytes 32) sealed in
        let report =
          walk_good p 0 0 (hex zeros) none l [] 0 (hex h) shown good ∙ walk_end p 1 1 (hex h) _ in
        (
          subst IsIntact (sym new) (record {
            error = ap (λ r. r.error) report;
            records_ok = ap (λ r. r.records_ok) report;
            tail = ap (λ r. r.tail) report;
            bytes = bytes;
          }),
          ap (λ x. x.seq) new,
        )
