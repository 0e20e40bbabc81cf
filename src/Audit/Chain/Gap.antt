-- ===== src/Audit/Chain/Gap.antt =====
-- What a failed write does to the journal (`AuditWriter::append` in crates/audit/src/writer.rs).
use chaperone.Prelude.{
  ℕ, suc, ◌+◌, ◌<◌, ◌≡◌, ◌≢◌, refl, sym, ap, ◌∙◌, Bytes, List, [], ◌∷◌, ◌++◌, inl, inr,
  Option-cases, Bool, false, none, some, arith, ◌==◌, min,
}
use chaperone.Prelude.Fallible.{Fallible, err, ok, chain_succeeds, same_value}
use chaperone.Audit.Hex.{hex}
use chaperone.Audit.Chain.{
  Platform, Reason, Report, unexpected_seq, u64_max, zeros, Tail, AuditError, io, serialize, or_err,
  verify_value, verify_line, walk_from, walk_lines, Writer, compute_hash, seal_record, commit,
  append,
}
use chaperone.Audit.Chain.Walk.{prev_of, walk_bad, walk-push}
use chaperone.Audit.Chain.Extends.{Laws, IsIntact, line_of, commit-eq-ok}

module _ (p : Platform) (laws : Laws p) where
  open p use {Value, Line, Event, is_blank, to_line, body, stamp, sign_raw}

  misnumbered :
      (n k : ℕ) (prev before : Bytes) (e : Event) (h : Bytes) (l : Line)
      → n ≢ k
      → seal_record p (body n (hex prev) e) prev ≡ ok (h, l)
      → (verify_line p l before k ≡ err (unexpected_seq k n)) × (is_blank l ≡ false)
  unfolding seal_record verify_line verify_value
  misnumbered n k prev before e h l differ made =
      let b = body n (hex prev) e in
      let h' = compute_hash p b prev in
      let v = stamp b (hex h') (sign_raw h') in
      let (l', line, rest) = chain_succeeds (or_err serialize (to_line v)) _ made in
      let written : to_line v ≡ some l =
        line_of p laws (to_line v) l' line ∙ ap (λ t. some t.1) (same_value rest) in
      let apart : n == k ≡ false = ground (arith, differ) in
      (
        rw
            (
              laws.parses v l written,
              laws.object n (hex prev) (hex h') (sign_raw h') e,
              laws.version n (hex prev) (hex h') (sign_raw h') e,
              laws.seq n (hex prev) (hex h') (sign_raw h') e,
              apart,
            )
            refl,
        laws.shows v l written,
      )

  seal_not_io : (b : Value) (prev : Bytes) → seal_record p b prev ≢ err io
  unfolding seal_record
  seal_not_io b prev =
      elim (Option-cases
        (to_line (stamp b (hex (compute_hash p b prev)) (sign_raw (compute_hash p b prev))))) [
          | inl e ↦ rw e (λ h. absurd (cc h))
          | inr (l, e) ↦ rw e (λ h. absurd (cc h))
        ]

  failed_commit :
      (w w' : Writer p) (n : ℕ) (sealed : Fallible AuditError (Bytes × Line))
      → sealed ≢ err io
      → commit p w n false sealed ≡ (w', err io)
      → (w'.seq ≡ n) × (w'.file ≡ w.file)
  unfolding commit
  failed_commit w w' n (err why) never made =
      let e : why ≡ io = cc (ap (λ t. t.1) made) in absurd (never (ap err e))
  failed_commit w w' n (ok (h, l)) never made =
      (ap (λ t. t.0.seq) (sym made), ap (λ t. t.0.file) (sym made))

  broken :
      (r : Report) (j k : ℕ) (l : Line) (why : Reason)
      → r.records_ok ≡ k
      → is_blank l ≡ false
      → verify_line p l (prev_of p r.tail) k ≡ err why
      → (walk_from p j r.records_ok (prev_of p r.tail) r.tail (l ∷ [])).error ≢ none
  broken r j k l why count shown bad = rw count (λ h.
      absurd
        (cc (ap (λ x. x.error) (walk_bad p j k (prev_of p r.tail) r.tail l [] why shown bad), h)))

  stops :
      (ls fs : List Line) (l : Line) (k : ℕ) (why : Reason)
      → (walk_lines p ls).error ≡ none
      → (walk_lines p ls).records_ok ≡ k
      → fs ≡ ls ++ l ∷ []
      → is_blank l ≡ false
      → verify_line p l (prev_of p (walk_lines p ls).tail) k ≡ err why
      → (walk_lines p fs).error ≢ none
  unfolding walk_lines
  stops ls fs l k why clean count grown shown bad fine =
      let (j, pushed) = walk-push p 0 0 (hex zeros) none ls l refl clean in
      broken (walk_lines p ls) j k l why count shown bad
        (ap (λ x. x.error) (sym pushed) ∙ ap (λ f. (walk_lines p f).error) (sym grown) ∙ fine)

  -- After an append whose line could not be written, the next append that succeeds leaves a journal
  -- that does not verify, although it was intact before. The sequence number must be two below the
  -- largest 64-bit number at least.
  pub failed_append-breaks :
      (w w₁ w₂ : Writer p) (e e' : Event) (head : Tail) (write_ok : Bool)
      → IsIntact p w
      → suc w.seq < u64_max
      → append p w e false ≡ (w₁, err io)
      → append p w₁ e' write_ok ≡ (w₂, ok head)
      → (walk_lines p w₂.file).error ≢ none
  unfolding append
  failed_append-breaks w w₁ w₂ e e' head write_ok i room failed done =
      let n₁ : min (w.seq + 1) u64_max ≡ suc w.seq = omega arith in
      let (seq₁, file₁) = failed_commit w w₁ (suc w.seq) _ (seal_not_io _ _) (rw n₁ at failed) in
      let n₂ : min (w₁.seq + 1) u64_max ≡ suc (suc w.seq) = omega (arith, seq₁) in
      let (h, l, sealed, new, _) =
        commit-eq-ok p laws w₁ w₂ (suc (suc w.seq)) write_ok _ head (rw n₂ at done) in
      let (bad, shown) =
        misnumbered (suc (suc w.seq)) (suc w.seq) w₁.prev_hash
          (prev_of p (walk_lines p w.file).tail) e' h l (λ q. omega (arith, q)) sealed in
      let file₂ : w₂.file ≡ w.file ++ l ∷ [] = ap (λ x. x.file) new ∙ ap (λ f. f ++ l ∷ []) file₁ in
      stops w.file w₂.file l (suc w.seq) (unexpected_seq (suc w.seq) (suc (suc w.seq))) i.error
        i.records_ok file₂ shown bad
