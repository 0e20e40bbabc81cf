-- ===== src/Audit/Chain/Walk.antt =====
-- The verifier's walk over a journal and one more line (`walk_lines` in crates/audit/src/verify.rs).
use chaperone.Prelude.{
  ℕ, suc, ◌≡◌, refl, sym, ap, ◌∙◌, subst, inl, inr, Bytes, List, [], ◌∷◌, ◌++◌, true, false, Option,
  none, some, Bool-cases,
}
use mathlib.Core.Path.{subst₂}
use chaperone.Prelude.Fallible.{err, ok, Fallible-cases}
use chaperone.Audit.Hex.{hex}
use chaperone.Audit.Chain.{
  Platform, Reason, zeros, Tail, Report, verify_line, walk_from, walk_lines,
}

module _ (p : Platform) where
  open p use {Line, is_blank}

  abbrev pub prev_of : Option Tail → Bytes
  prev_of none = hex zeros
  prev_of (some t) = t.hash_hex

  pub walk_end :
      (i k : ℕ) (prev : Bytes) (tail : Option Tail)
      → walk_from p i k prev tail [] ≡ record { tail = tail; error = none; records_ok = k }
  unfolding walk_from
  walk_end i k prev tail = refl

  walk_blank :
      (i k : ℕ) (prev : Bytes) (tail : Option Tail) (x : Line) (xs : List Line)
      → is_blank x ≡ true
      → walk_from p i k prev tail (x ∷ xs) ≡ walk_from p (suc i) k prev tail xs
  unfolding walk_from
  walk_blank i k prev tail x xs b = rw b refl

  pub walk_bad :
      (i k : ℕ) (prev : Bytes) (tail : Option Tail) (x : Line) (xs : List Line) (why : Reason)
      → is_blank x ≡ false
      → verify_line p x prev k ≡ err why
      → walk_from p i k prev tail (x ∷ xs)
        ≡ record { tail = tail; error = some (record { line = i; reason = why }); records_ok = k }
  unfolding walk_from
  walk_bad i k prev tail x xs why b v = rw (b, v) refl

  pub walk_good :
      (i k : ℕ) (prev : Bytes) (tail : Option Tail) (x : Line) (xs : List Line) (n : ℕ) (h : Bytes)
      → is_blank x ≡ false
      → verify_line p x prev k ≡ ok (n, h)
      → walk_from p i k prev tail (x ∷ xs)
        ≡ walk_from p (suc i) (suc k) h (some (record { seq = n; hash_hex = h })) xs
  unfolding walk_from
  walk_good i k prev tail x xs n h b v = rw (b, v) refl

  -- The second report is that of the walk that goes on from the first with one more line.
  abbrev pub Pushed : Line → Report → Report → Type 0
  Pushed l r r' = (j : ℕ) × (r' ≡ walk_from p j r.records_ok (prev_of r.tail) r.tail (l ∷ []))

  pub walk-push :
      (i k : ℕ) (prev : Bytes) (tail : Option Tail) (ls : List Line) (l : Line)
      → prev ≡ prev_of tail
      → (walk_from p i k prev tail ls).error ≡ none
      → Pushed l (walk_from p i k prev tail ls) (walk_from p i k prev tail (ls ++ l ∷ []))
  walk-push i k prev tail [] l same fine =
      subst (λ r. Pushed l r (walk_from p i k prev tail (l ∷ []))) (sym (walk_end i k prev tail))
        (i, ap (λ t. walk_from p i k t tail (l ∷ [])) same)
  walk-push i k prev tail (x ∷ xs) l same fine = elim (Bool-cases (is_blank x)) [
    | inl b ↦
        let e = walk_blank i k prev tail x xs b in
        subst₂ (Pushed l) (sym e) (sym (walk_blank i k prev tail x (xs ++ l ∷ []) b))
          (walk-push (suc i) k prev tail xs l same (ap (λ r. r.error) (sym e) ∙ fine))
    | inr b ↦ elim (Fallible-cases (verify_line p x prev k)) [
      | inr (why, bad) ↦
          absurd (cc (ap (λ r. r.error) (sym (walk_bad i k prev tail x xs why b bad)) ∙ fine))
      | inl ((n, h), good) ↦
          let e = walk_good i k prev tail x xs n h b good in
          subst₂ (Pushed l) (sym e) (sym (walk_good i k prev tail x (xs ++ l ∷ []) n h b good)) (
            walk-push (suc i) (suc k) h (some (record { seq = n; hash_hex = h })) xs l refl
              (ap (λ r. r.error) (sym e) ∙ fine))
    ]
  ]

  walk_one :
      (r : Report) (j : ℕ) (l : Line) (n k : ℕ) (prev h : Bytes) (tail : Option Tail)
      → r.records_ok ≡ k
      → r.tail ≡ tail
      → prev_of tail ≡ hex prev
      → is_blank l ≡ false
      → verify_line p l (hex prev) k ≡ ok (n, hex h)
      → walk_from p j r.records_ok (prev_of r.tail) r.tail (l ∷ []) ≡ record {
        tail = some (record { seq = n; hash_hex = hex h });
        error = none;
        records_ok = suc k;
      }
  walk_one r j l n k prev h tail count last before shown good =
      rw (count, last, before)
        (walk_good j k (hex prev) tail l [] n (hex h) shown good
          ∙ walk_end (suc j) (suc k) (hex h) _)

  -- The walk accepts one more line that verifies behind the journal.
  pub walk-extend :
      (ls : List Line) (l : Line) (n k : ℕ) (prev h : Bytes) (tail : Option Tail)
      → (walk_lines p ls).error ≡ none
      → (walk_lines p ls).records_ok ≡ k
      → (walk_lines p ls).tail ≡ tail
      → prev_of tail ≡ hex prev
      → is_blank l ≡ false
      → verify_line p l (hex prev) k ≡ ok (n, hex h)
      → walk_lines p (ls ++ l ∷ []) ≡ record {
        tail = some (record { seq = n; hash_hex = hex h });
        error = none;
        records_ok = suc k;
      }
  unfolding walk_lines
  walk-extend ls l n k prev h tail fine count last before shown good =
      let (j, pushed) = walk-push 0 0 (hex zeros) none ls l refl fine in
      pushed ∙ walk_one (walk_lines p ls) j l n k prev h tail count last before shown good
