-- ===== src/Helper/Allowed.antt =====
-- What the helper runs (crates/privileged-helper/src), and that the daemon's copy of the allowlist
-- (crates/gateway-core/src/privilege.rs) decides alike.
use chaperone.Prelude.{
  ◌≡◌, ◌↔◌, ◌⊎◌, refl, ap, sym, subst, inl, inr, Bytes, List, [], ◌∷◌, ◌++◌, map, true, Bool, ◌&&◌,
  Option, none, some, ascii, arith, str_eq, str_eq_iff, str_eq_refl, Bool-cases,
}
use chaperone.Gateway.Operation
use chaperone.Helper.{
  AllowlistEntry, has_prefix, permits, Json, Child, Spawned, Run, token_matches, without_breaks,
  without_padding, decoded_input, exec_command, process_request, or_empty, args_or_none,
}

has_prefix_iff :
    (pin args : List Bytes)
    → (has_prefix pin args ≡ true) ↔ ((more : List Bytes) × (args ≡ pin ++ more))
unfolding has_prefix
has_prefix_iff [] args = (λ h. (args, refl), λ h. refl)
has_prefix_iff (p ∷ pin) [] = (λ h. absurd (cc h), λ (more, e). absurd (cc e))
has_prefix_iff (p ∷ pin) (a ∷ args) =
    let ih = has_prefix_iff pin args in
    (
      λ h.
          let (more, e) = ih.0 (ground (arith, h)) in
          let same : a ≡ p = (str_eq_iff a p).0 (ground (arith, h)) in (more, cc),
      λ (more, e).
          let same : str_eq a p ≡ true = (str_eq_iff a p).1 (ground (arith, e)) in
          let tail : has_prefix pin args ≡ true = ih.1 (more, ground (arith, e)) in
          ground (arith, same, tail),
    )

-- The operator pinned the command, with the arguments' beginning.
pub data IsPinned (command : Bytes) (args : List Bytes) : List AllowlistEntry → Type 0 where
  this_one :
      (pin more : List Bytes) (rest : List AllowlistEntry)
      → args ≡ pin ++ more
      → IsPinned command args (record { command = command; args = pin } ∷ rest)
  later :
      (e : AllowlistEntry) {rest : List AllowlistEntry}
      → IsPinned command args rest
      → IsPinned command args (e ∷ rest)

not_empty : (command : Bytes) (args : List Bytes) → ¬ IsPinned command args []
not_empty command args p = elim p [ ]

permits_iff :
    (entries : List AllowlistEntry) (command : Bytes) (args : List Bytes)
    → (permits entries command args ≡ true) ↔ IsPinned command args entries
unfolding permits
permits_iff [] command args = (λ h. absurd (cc h), λ h. absurd (not_empty command args h))
permits_iff (e ∷ rest) command args =
    let ih = permits_iff rest command args in
    (
      λ h. elim (Bool-cases (str_eq e.command command && has_prefix e.args args)) [
        | inl this ↦
            let (more, q) = (has_prefix_iff e.args args).0 (ground (arith, this)) in
            let named : e.command ≡ command =
              (str_eq_iff e.command command).0 (ground (arith, this)) in
            subst
              (λ (c : Bytes). IsPinned command args (record { command = c; args = e.args } ∷ rest))
              (sym named) (this_one e.args more rest q)
        | inr other ↦ later e (ih.0 (ground (arith, h, other)))
      ],
      back e rest command args ih.1,
    )
  where
    back :
        (e : AllowlistEntry) (rest : List AllowlistEntry) (command : Bytes) (args : List Bytes)
        → (IsPinned command args rest → permits rest command args ≡ true)
        → IsPinned command args (e ∷ rest)
        → permits (e ∷ rest) command args ≡ true
    back e rest command args ih (this_one pin more _ q) =
        ground (arith, str_eq_refl command, (has_prefix_iff pin args).1 (more, q))
    back e rest command args ih (later _ p) = ground (arith, ih p)

module _ (json : Json) (child : Spawned → Child) where
  open json use {Value, str_field, strings_field, decode_signature}

  -- What the field of the input says: no input, or what base64 makes of it without line breaks and
  -- without padding, nothing if it makes nothing.
  abbrev pub bytes_or_none : Option Bytes → Bytes
  bytes_or_none none = []
  bytes_or_none (some t) = t

  abbrev pub input_of : Option Bytes → Option Bytes
  input_of none = none
  input_of (some b64) =
      some (bytes_or_none (decode_signature (without_padding (without_breaks b64))))

  -- What the helper starts, it starts for the request as it stands.
  abbrev pub Sanctioned : Value → Bytes → List AllowlistEntry → Bool → Run → Type 0
  Sanctioned msg expected_token allowlist run_child r =
      (command : Bytes) × (str_field msg (ascii "token") ≡ some expected_token)
      × (str_field msg (ascii "op") ≡ some (ascii "exec"))
      × (str_field msg (ascii "command") ≡ some command)
      × (run_child ≡ true)
      × IsPinned command (args_or_none json child (strings_field msg (ascii "args"))) allowlist
      × (r.spawned
          ≡ record {
            command = command;
            args = args_or_none json child (strings_field msg (ascii "args"));
            input = input_of (str_field msg (ascii "input_b64"));
            env_removed = ascii "CHAPERONE_HELPER_TOKEN";
          }
            ∷ [])

  token_matches_eq : (o : Option Bytes) (t : Bytes) → token_matches o t ≡ true → o ≡ some t
  unfolding token_matches
  token_matches_eq none t h = absurd (cc h)
  token_matches_eq (some s) t h = ap (λ (x : Bytes). some x) ((str_eq_iff s t).0 h)

  -- The helper starts no child, or one: then the request carries the shared token and asks for
  -- `exec`, the run is no probe, the operator pinned the command with the beginning of its
  -- arguments, and the child is that command on those arguments, with the decoded input and with the
  -- token taken out of its environment.
  pub process_request-Sanctioned :
      (msg : Value) (expected_token : Bytes) (allowlist : List AllowlistEntry) (run_child : Bool)
      → let r = process_request json child msg expected_token allowlist run_child in
        (r.spawned ≡ []) ⊎ Sanctioned msg expected_token allowlist run_child r
  unfolding process_request decoded_input
  process_request-Sanctioned msg expected_token allowlist run_child =
      elim (Bool-cases (token_matches (str_field msg (ascii "token")) expected_token)) [
        | inr wrong ↦ inl (rw wrong refl)
        | inl token ↦
            elim (Bool-cases (token_matches (str_field msg (ascii "op")) (ascii "exec"))) [
              | inr wrong ↦ inl (rw (token, wrong) refl)
              | inl op ↦
                  rw (token, op)
                    (by_command (str_field msg (ascii "command")) refl (token_matches_eq _ _ token)
                      (token_matches_eq _ _ op))
            ]
      ]
    where
      by_command :
          (c : Option Bytes)
          → str_field msg (ascii "command") ≡ c
          → str_field msg (ascii "token") ≡ some expected_token
          → str_field msg (ascii "op") ≡ some (ascii "exec")
          → let r =
              exec_command json child allowlist run_child msg
                (or_empty json child (str_field msg (ascii "id")))
                c in
            (r.spawned ≡ []) ⊎ Sanctioned msg expected_token allowlist run_child r
      by_command none q token op = inl refl
      by_command (some command) q token op =
          let args = args_or_none json child (strings_field msg (ascii "args")) in
          elim (Bool-cases (permits allowlist command args)) [
            | inr no_pin ↦ inl (rw no_pin refl)
            | inl pin ↦ elim (Bool-cases run_child) [
              | inr probe ↦ inl (rw (pin, probe) refl)
              | inl real ↦ inr (
                command,
                token,
                op,
                q,
                real,
                (permits_iff allowlist command args).0 pin,
                rw (pin, real) refl,
              )
            ]
          ]

-- The daemon's copy of the allowlist and the helper's decide alike on the same entries, so a command
-- that the daemon lets pass without a human is one that the helper will run.
pub permits-permits :
    (entries : List (Bytes × List Bytes)) (command : Bytes) (args : List Bytes)
    → Operation.permits entries command args
      ≡ permits (map (λ e. record { command = e.0; args = e.1 }) entries) command args
unfolding permits has_prefix Operation.permits Operation.begins_with
permits-permits [] command args = refl
permits-permits ((c, pin) ∷ rest) command args =
    ground (arith, permits-permits rest command args, same_prefix pin args)
  where
    same_prefix : (pin args : List Bytes) → Operation.begins_with pin args ≡ has_prefix pin args
    same_prefix [] args = refl
    same_prefix (p ∷ pin) [] = refl
    same_prefix (p ∷ pin) (a ∷ args) = ap (λ (b : Bool). str_eq a p && b) (same_prefix pin args)
