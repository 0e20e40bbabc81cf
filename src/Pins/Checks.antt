-- ===== src/Pins/Checks.antt =====
-- What the pins decide (crates/gateway-core/src/ssh.rs over known_hosts.rs).
use chaperone.Prelude.{
  ◌≡◌, ◌⊎◌, refl, ap, sym, subst, ◌∙◌, inl, inr, Bytes, List, [], ◌∷◌, true, false, Bool, Option,
  none, some, ascii, arith, str_eq, str_eq_iff, str_eq_refl, Bool-cases,
}
use chaperone.Prelude.Map.{text_eq, lookup-insert}
use chaperone.Prelude.Fallible.{ok, err}
use chaperone.Pins.{
  Pin, PinStoreError, Result, Store, get, insert_pin, insert_absent, insert_over, pin_store,
  check_pin, check_server_key, accept_if_ok,
}

-- One connection: where to, the key that the server shows, the time and the outcome of the write.
pub record Contact : Type 0 where
  pub hostport : Bytes
  pub line : Option Bytes
  pub tofu : Bool
  pub now : Bytes
  pub persisted : Result (Unit {0})

abbrev pub check : Store → Contact → Store × Result Bool
check pins c = check_server_key (pin_store c.tofu) pins c.hostport c.line c.now c.persisted

unfoldable pub checks : Store → List Contact → Store × List (Result Bool)
checks pins [] = (pins, [])
checks pins (c ∷ cs) =
    let (pins', r) = check pins c in let (last, rs) = checks pins' cs in (last, r ∷ rs)

abbrev pub is_line : Option Bytes → Bytes → Bool
is_line none key = false
is_line (some line) key = str_eq key line

insert_pin-keeps :
    (pins : Store) (h key source now : Bytes) (persisted : Result (Unit {0})) (host : Bytes)
    (pin : Pin)
    → get pins host ≡ some pin
    → get (insert_pin pins h key source now persisted).0 host ≡ some pin
unfolding insert_pin insert_absent insert_over
insert_pin-keeps pins h key source now persisted host pin pinned =
    let new : Pin = record { hostport = h; openssh_key = key; first_seen = now; source = source } in
    ground (arith, lookup-insert h host new pins, str_eq_iff h host)

-- A contact never moves a pin.
check-keeps :
    (pins : Store) (c : Contact) (host : Bytes) (pin : Pin)
    → get pins host ≡ some pin
    → get (check pins c).0 host ≡ some pin
unfolding check_server_key check_pin
check-keeps pins c host pin pinned = ground (
  arith,
  insert_pin-keeps pins c.hostport (or_nil c.line) (ascii "tofu") c.now c.persisted host pin pinned,
)
  where
    or_nil : Option Bytes → Bytes
    or_nil none = []
    or_nil (some t) = t

-- What a contact with a pinned host is answered.
check-pinned :
    (pins : Store) (c : Contact) (pin : Pin)
    → get pins c.hostport ≡ some pin
    → (check pins c).1 ≡ ok (is_line c.line pin.openssh_key)
unfolding check_server_key check_pin
check-pinned pins c pin pinned = ground (arith, pinned)

-- The answers to a pinned host's contacts are those that its pin gives, whoever else was contacted.
abbrev pub AnswersBy : Bytes → Bytes → List Contact → List (Result Bool) → Type 0
AnswersBy host key [] [] = Unit
AnswersBy host key [] (r ∷ rs) = Unit
AnswersBy host key (c ∷ cs) [] = Unit
AnswersBy host key (c ∷ cs) (r ∷ rs) =
    (c.hostport ≡ host → r ≡ ok (is_line c.line key)) × AnswersBy host key cs rs

-- Once a host is pinned, no sequence of connections, to any hosts, showing any keys, with or without
-- trust on first use, and however the writes of the file end, changes its pin; and every connection
-- to it is accepted just if the key that it shows is the pinned one.
pub checks-pinned :
    (cs : List Contact) (pins : Store) (host : Bytes) (pin : Pin)
    → get pins host ≡ some pin
    → (get (checks pins cs).0 host ≡ some pin)
      × AnswersBy host pin.openssh_key cs (checks pins cs).1
unfolding checks
checks-pinned [] pins host pin pinned = (pinned, tt)
checks-pinned (c ∷ cs) pins host pin pinned =
    let (stays, answers) =
      checks-pinned cs (check pins c).0 host pin (check-keeps pins c host pin pinned) in
    (
      stays,
      (
        λ same.
            check-pinned pins c pin
              (subst (λ (h : Bytes). get pins h ≡ some pin) (sym same) pinned),
        answers,
      ),
    )

-- What an unpinned host's first contact does.
pub check-first :
    (pins : Store) (c : Contact) (line : Bytes)
    → get pins c.hostport ≡ none
    → c.line ≡ some line
    → ((c.tofu ≡ false) × (check pins c ≡ (pins, ok false)))
      ⊎ ((c.tofu ≡ true)
          × (pin : Pin) × (get (check pins c).0 c.hostport ≡ some pin)
          × (pin.openssh_key ≡ line)
          × ((check pins c).1 ≡ accept_if_ok c.persisted))
unfolding check_server_key check_pin insert_pin insert_absent
check-first pins c line absent shown = elim (Bool-cases c.tofu) [
  | inr off ↦ inl (off, ground (arith, off, absent, shown))
  | inl on ↦
      let pin : Pin = record {
        hostport = c.hostport;
        openssh_key = line;
        first_seen = c.now;
        source = ascii "tofu";
      } in
      inr (
        on,
        pin,
        ground (
          arith,
          on,
          absent,
          shown,
          lookup-insert c.hostport c.hostport pin pins,
          str_eq_refl c.hostport,
        ),
        refl,
        ground (arith, on, absent, shown),
      )
]

-- A first contact whose pin could not be written is refused, and yet the next one that shows the
-- same key is accepted: the pin stays in memory.
pub check-unwritten :
    (pins : Store) (c : Contact) (line : Bytes) (why : PinStoreError)
    → get pins c.hostport ≡ none
    → c.line ≡ some line
    → c.tofu ≡ true
    → c.persisted ≡ err why
    → let again = check (check pins c).0 c in ((check pins c).1 ≡ err why) × (again.1 ≡ ok true)
check-unwritten pins c line why absent shown on failed =
    elim (check-first pins c line absent shown) [
      | inl (off, _) ↦ absurd (cc (on, off))
      | inr (_, pin, named, key, answer) ↦ (
        answer ∙ ap accept_if_ok failed,
        check-pinned (check pins c).0 c pin named ∙ ground (arith, shown, key, str_eq_refl line),
      )
    ]
