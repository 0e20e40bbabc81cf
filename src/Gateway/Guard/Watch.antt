-- ===== src/Gateway/Guard/Watch.antt =====
-- When the watch over the policy file stops the gateway (crates/gateway-core/src/policy_guard.rs).
use chaperone.Prelude.{
  ℕ, ◌+◌, ◌≡◌, ◌⊎◌, refl, ap, ◌∙◌, inl, inr, Bytes, List, [], ◌∷◌, ◌++◌, append-nil, arith, Bool,
  true, false, not, ◌&&◌, ◌||◌, some, str_eq, leb, if◌then◌else◌, Bool-cases, ascii,
}
use chaperone.Gateway.Dispatch.{Halt, not_halted, halt}
use chaperone.Gateway.Guard.{
  FileRead, content, not_found, unreadable, Drift, drift, Watched, Alarm, appended, announced,
  hash_doc_bytes, drift_reason, fire_drift, check_once, act_on, tick, run,
}

-- The next read fails.
abbrev pub fails_next : List FileRead → Bool
fails_next (unreadable ∷ later) = true
fails_next (not_found ∷ later) = false
fails_next (content b ∷ later) = false
fails_next [] = false

module _ (sha256 : Bytes → Bytes) (has_event_hub : Bool) (baseline : Bytes) where
  abbrev pub differs : FileRead → Bool
  differs (content bytes) =
      not (str_eq (hash_doc_bytes sha256 has_event_hub baseline bytes) baseline)
  differs not_found = true
  differs unreadable = false

  abbrev is_failure : FileRead → Bool
  is_failure unreadable = true
  is_failure not_found = false
  is_failure (content b) = false

  -- The file is seen missing or with another hash, or two reads in a row fail.
  abbrev pub drifts : List FileRead → Bool
  drifts [] = false
  drifts (found ∷ later) = differs found || (is_failure found && fails_next later || drifts later)

  abbrev pub stopped : Drift → Halt
  stopped d = record { halted = true; reason = some (drift_reason sha256 has_event_hub baseline d) }

  abbrev pub alarms_of : Drift → List Alarm
  alarms_of d = appended baseline d ∷ (if has_event_hub then announced baseline d ∷ [] else [])

  abbrev run_on : List FileRead → Watched × List Alarm → Watched × List Alarm
  run_on later (s, alarms) =
      let r = run sha256 has_event_hub baseline s later in (r.0, alarms ++ r.1)

  run_cons :
      (s : Watched) (found : FileRead) (later : List FileRead)
      → run sha256 has_event_hub baseline s (found ∷ later)
        ≡ run_on later (tick sha256 has_event_hub baseline s found)
  unfolding run
  run_cons s found later = refl

  run_nil : (s : Watched) → run sha256 has_event_hub baseline s [] ≡ (s, [])
  unfolding run
  run_nil s = refl

  pub tick_halted :
      (s : Watched) (found : FileRead)
      → s.status.halted ≡ true
      → tick sha256 has_event_hub baseline s found ≡ (s, [])
  unfolding tick
  tick_halted s found h = ground (arith, h)

  run_halted :
      (s : Watched) (reads : List FileRead)
      → s.status.halted ≡ true
      → run sha256 has_event_hub baseline s reads ≡ (s, [])
  unfolding run
  run_halted s [] h = refl
  run_halted s (found ∷ later) h =
      run_cons s found later ∙ (ap (run_on later) (tick_halted s found h) ∙ run_halted s later h)

  -- The watch of a gateway that is not halted.
  abbrev pub watching : ℕ → Watched
  watching failures = record { failures = failures; status = not_halted }

  pub tick_drift :
      (failures : ℕ) (found : FileRead) (d : Drift)
      → check_once sha256 has_event_hub baseline failures found ≡ drift d
      → tick sha256 has_event_hub baseline (watching failures) found
        ≡ (record { failures = failures; status = stopped d }, alarms_of d)
  unfolding tick act_on fire_drift halt
  tick_drift failures found d seen =
      ap (act_on sha256 has_event_hub baseline (watching failures)) seen

  run_drift :
      (failures : ℕ) (found : FileRead) (later : List FileRead) (d : Drift)
      → check_once sha256 has_event_hub baseline failures found ≡ drift d
      → run sha256 has_event_hub baseline (watching failures) (found ∷ later)
        ≡ (record { failures = failures; status = stopped d }, alarms_of d)
  run_drift failures found later d seen =
      let after : Watched = record { failures = failures; status = stopped d } in
      run_cons (watching failures) found later
      ∙ (ap (run_on later) (tick_drift failures found d seen)
          ∙ (ap (λ (r : Watched × List Alarm). (r.0, alarms_of d ++ r.1))
                (run_halted after later refl)
              ∙ ap (λ (l : List Alarm). (after, l)) (append-nil (alarms_of d))))

  run_quiet :
      (failures after : ℕ) (found : FileRead) (later : List FileRead)
      → act_on sha256 has_event_hub baseline
          (watching failures)
          (check_once sha256 has_event_hub baseline failures found)
        ≡ (watching after, [])
      → run sha256 has_event_hub baseline (watching failures) (found ∷ later)
        ≡ run sha256 has_event_hub baseline (watching after) later
  unfolding tick
  run_quiet failures after found later quiet =
      run_cons (watching failures) found later ∙ ap (run_on later) quiet

  -- What comes of the reads when `failed` tells whether the last read before them failed.
  abbrev Verdict : Bool → Watched × List Alarm → Type 0
  Verdict due r =
      ((due ≡ false) × (r.0.status ≡ not_halted) × (r.1 ≡ []))
      ⊎ ((d : Drift) × (due ≡ true) × (r.0.status ≡ stopped d) × (r.1 ≡ alarms_of d))

  -- A verdict moves along an equation of the runs and one of what was due.
  Verdict-along :
      {b c : Bool} {r t : Watched × List Alarm} → b ≡ c → r ≡ t → Verdict c t → Verdict b r
  Verdict-along e f v = rw (e, f) v

  run_after :
      (failures : ℕ) (reads : List FileRead)
      → Verdict
          (leb 1 failures && fails_next reads || drifts reads)
          (run sha256 has_event_hub baseline (watching failures) reads)
  unfolding check_once act_on
  run_after failures [] = rw (run_nil (watching failures)) (inl (ground arith, refl, refl))
  run_after failures (not_found ∷ later) =
      let d : Drift = record { observed_hash = []; detail = ascii "file missing" } in
      Verdict-along {c = true} (ground arith) (run_drift failures not_found later d refl)
        (inr (d, refl, refl, refl))
  run_after failures (unreadable ∷ later) = elim (Bool-cases (leb 1 failures)) [
    | inl again ↦
        let d : Drift = record { observed_hash = []; detail = ascii "file unreadable" } in
        Verdict-along {c = true} (ground (arith, again))
          (run_drift failures unreadable later d (rw again refl)) (inr (d, refl, refl, refl))
    | inr first ↦
        Verdict-along (ground (arith, first))
          (run_quiet failures (failures + 1) unreadable later (rw first refl))
          (run_after (failures + 1) later)
  ]
  run_after failures (content bytes ∷ later) =
      let observed = hash_doc_bytes sha256 has_event_hub baseline bytes in
      elim (Bool-cases (str_eq observed baseline)) [
        | inl same ↦
            Verdict-along (ground (arith, same))
              (run_quiet failures 0 (content bytes) later (rw same refl)) (run_after 0 later)
        | inr other ↦
            let d : Drift = record { observed_hash = observed; detail = ascii "content changed" } in
            Verdict-along {c = true} (ground (arith, other))
              (run_drift failures (content bytes) later d (rw other refl))
              (inr (d, refl, refl, refl))
      ]

  -- The watch, started on a gateway that is not halted, halts it just if the reads show a drift: the
  -- file missing, of another hash, or failing to be read twice in a row. Then the alarms of one
  -- drift are raised, once, and its reason is the gateway's; otherwise no alarm is, and the gateway
  -- is not halted.
  pub run-drifts :
      (reads : List FileRead)
      → let r =
          run sha256 has_event_hub baseline (record { failures = 0; status = not_halted }) reads in
        ((drifts reads ≡ false) × (r.0.status ≡ not_halted) × (r.1 ≡ []))
        ⊎ ((d : Drift) × (drifts reads ≡ true) × (r.0.status ≡ stopped d) × (r.1 ≡ alarms_of d))
  run-drifts reads = run_after 0 reads
