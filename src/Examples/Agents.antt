-- ===== src/Examples/Agents.antt =====
-- A concrete attestor and enrollment store (crates/identity/src): messages are lists of text fields, a
-- signature is 64 bytes and good under the key that has its first byte.
pub mod Fixture
use chaperone.Prelude.{
  ℕ, ◌+◌, arith, ◌≡◌, ◌≢◌, refl, ◌⊎◌, Bytes, List, [], ◌∷◌, Bool, true, false, Option, none, some,
  ascii, ap, ◌/◌, if◌then◌else◌, str_eq, is_empty, length, split, ltb,
}
use chaperone.Prelude.Map.{text_eq, pair_eq, lookup, insert, remove}
use chaperone.Prelude.Trim.{trim}
use chaperone.Identity.Enrollment.{
  Store, StoredAgent, Error, resolve, sponsor_id_of, key_of, is_live, enroll, revoke, persist,
  Result, ok, err,
}
use chaperone.Identity.Enrollment.Lifecycle.{
  IsSponsored, resolve-enroll, resolve-revoke, enroll-IsSponsored,
}
use chaperone.Identity.Replay.{Cache, in_memory, check_and_reserve, contains_key, fresh}
use chaperone.Identity.Replay.Table.{Agree}
use chaperone.Identity.Replay.Matched.{queued, IsMatched, IsCurrent, check-IsMatched}
use chaperone.Identity.Attest
use chaperone.Identity.Attest.{verify, claim, retention, nanos, unknown_agent}
use chaperone.Identity.Attest.Sound.{Claims, Signed, verify_sound}
use chaperone.Identity.Attest.NoReplay.{Call, serve_all, verify_once}
use Fixture.{
  platform, bot, entry, enrolled, message, instant, good_io, first_cache, intent, accepted,
}

abbrev decode : Bytes → Option ℕ
decode t = some 9

abbrev encode : ℕ → Bytes
encode k = k ∷ []

verify_once_example :
    (verify platform enrolled 3
      (serve_all platform 3 first_cache [])
      message
      (instant + 5)
      good_io).1
    ≢ Attest.ok intent
verify_once_example =
    verify_once platform 3 enrolled enrolled in_memory first_cache message instant (instant + 5)
      good_io good_io intent intent [] (omega arith) (omega arith) (omega arith) tt accepted tt

verify_sound_example :
    (c : Attest.Claim platform) × Claims platform enrolled 3 message instant c
    × Signed platform message c
    × (check_and_reserve platform.to_line in_memory c.agent_id c.nonce
          (instant / nanos)
          (retention 3)
          good_io
        ≡ (first_cache, fresh))
    × (intent ≡ record {
      agent_id = c.agent_id;
      envelope = message;
      issued_at = c.issued_at;
      nonce = c.nonce;
    })
verify_sound_example =
    verify_sound platform enrolled 3 in_memory message instant good_io first_cache intent accepted

check-IsMatched_example :
    let i =
      (check_and_reserve platform.to_line first_cache bot (ascii "m") 101 9 good_io).0.inner in
    IsMatched i.seen i.insertion_order × IsCurrent 101 i.insertion_order
unfolding queued lookup
check-IsMatched_example =
    check-IsMatched platform.to_line first_cache bot (ascii "m") 101 9 good_io (omega arith)
      (omega arith) ((refl, tt), λ k. refl)

resolve-revoke_example :
    let s' = (revoke enrolled bot (ascii "now") false).0 in
    (resolve s' bot ≡ (if str_eq bot bot then none else resolve enrolled bot))
    × (sponsor_id_of s' bot ≡ (if str_eq bot bot then none else sponsor_id_of enrolled bot))
resolve-revoke_example = resolve-revoke enrolled bot (ascii "now") bot false

resolve-enroll_example :
    let r =
      enroll decode encode enrolled bot [] (ascii " s2 ") (ascii "Ann") (ascii "t") true false in
    ((r.0 ≡ enrolled) × (r.1 ≢ ok tt) × (r.1 ≢ err Error.io))
    ⊎ ((resolve r.0 bot ≡ (if str_eq bot bot then decode [] else resolve enrolled bot))
        × (sponsor_id_of r.0 bot
            ≡ (if str_eq bot bot then some (trim (ascii " s2 ")) else sponsor_id_of enrolled bot))
        × (r.1 ≡ persist false))
resolve-enroll_example =
    resolve-enroll decode encode enrolled bot [] (ascii " s2 ") (ascii "Ann") (ascii "t") bot true
      false

no_entry-IsSponsored : IsSponsored {Key = ℕ} []
unfolding lookup
no_entry-IsSponsored agent a e = absurd (cc e)
