-- ===== src/Federation/Commands/Router.antt =====
-- Where a submitted command goes.
use democrachat.App.Results.{Result, err, ok, Result-cases}
use democrachat.Domain.Time.{Timestamp}
use democrachat.Federation.Commands.{
  unowned, ForwardError, is_owned_by, owners_from, with_owner, Command, SignedCommand, deliver,
  is_held_by, submit, target_scopes, no_route, run_command, deliver_to,
}
use democrachat.Federation.Registry.{OwnedScope, RegistryState, owner_of, scope_eq, Ownership}
use democrachat.Prelude.{
  Bool, Bool-cases, List, Option-cases, [], any, ap, arith, bit, contains, count, count-append,
  false, inl, inr, list_eq, nat_beq, nat_beq_iff, nat_eq, none, pair_eq, refl, some, sym, triple_eq,
  true, ℕ, ◌++◌, ◌||◌, ◌∙◌, ◌∷◌, ◌≡◌, Option, not, subst, ◌≢◌,
}
use democrachat.Store.{Inner}

contains-snoc : (xs : List ℕ) (o n : ℕ) → contains (xs ++ o ∷ []) n ≡ (contains xs n || nat_beq o n)
contains-snoc [] o n = ground arith
contains-snoc (x ∷ xs) o n = ground (arith, contains-snoc xs o n)

-- The list has no node twice.
abbrev IsOnce : List ℕ → Type 0
IsOnce l = (n : ℕ) → count (nat_beq n) l ≡ bit (contains l n)

contains-with_owner :
    (owners : List ℕ) (o n : ℕ)
    → contains (with_owner owners o) n ≡ (contains owners n || nat_beq o n)
contains-with_owner owners o n = elim (Bool-cases (contains owners o)) [
  | inr e ↦ rw e (contains-snoc owners o n)
  | inl e ↦ rw e (elim (Bool-cases (nat_beq o n)) [
    | inr k ↦ ground arith
    | inl k ↦
        let at : contains owners n ≡ true =
          ap (contains owners) (sym ((nat_beq_iff o n).0 k)) ∙ e in
        rw at refl
  ])
]

IsOnce-with_owner : (owners : List ℕ) (o : ℕ) → IsOnce owners → IsOnce (with_owner owners o)
IsOnce-with_owner owners o once n = elim (Bool-cases (contains owners o)) [
  | inl e ↦ rw e (once n)
  | inr e ↦ rw e (
      ground (
        arith,
        once n,
        once o,
        contains-snoc owners o n,
        nat_beq_iff o n,
        nat_beq_iff n o,
        count-append (nat_beq n) owners (o ∷ []),
      ))
]

or_assoc : (a b c : Bool) → ((a || b) || c) ≡ (a || (b || c))
or_assoc a b c = ground arith

module _ (r : RegistryState) where
  abbrev pub is_down : OwnedScope → Bool
  is_down scope = elim (owner_of r scope) [ none ↦ true | some _ ↦ false ]

  abbrev pub is_reachable : List OwnedScope → Bool
  is_reachable [] = false
  is_reachable (scope ∷ rest) = not (any is_down (scope ∷ rest))

  -- Each node stands in `l` once, if it is among `owners` or owns one of the scopes, and else not.
  abbrev pub Lists : List ℕ → List OwnedScope → List ℕ → Type 0
  Lists owners scopes l =
      (n : ℕ) → count (nat_beq n) l ≡ bit (contains owners n || any (is_owned_by r n) scopes)

  abbrev Found :
      (Fault : Type 0) → List ℕ → List OwnedScope → Result (ForwardError Fault) (List ℕ) → Type 0
  Found Fault owners scopes (ok l) = (any is_down scopes ≡ false) × Lists owners scopes l
  Found Fault owners scopes (err e) = (any is_down scopes ≡ true) × (e ≡ unowned)

  down_or : (scope : OwnedScope) (o : Ownership) → owner_of r scope ≡ some o → is_down scope ≡ false
  down_or scope o e = rw (is_down, e) refl

  owned_or :
      (n : ℕ) (scope : OwnedScope) (o : Ownership)
      → owner_of r scope ≡ some o
      → is_owned_by r n scope ≡ nat_beq o.owner n
  unfolding is_owned_by
  owned_or n scope o e = ap (is_held_by n) e

  Found-step :
      (Fault : Type 0) (owners : List ℕ) (scope : OwnedScope) (o : Ownership)
      (rest : List OwnedScope) (x : Result (ForwardError Fault) (List ℕ))
      → owner_of r scope ≡ some o
      → Found Fault (with_owner owners o.owner) rest x
      → Found Fault owners (scope ∷ rest) x
  Found-step Fault owners scope o rest (err e) at h = (rw (down_or scope o at) h.0, h.1)
  Found-step Fault owners scope o rest (ok l) at h = (
    rw (down_or scope o at) h.0,
    λ n.
        h.1 n
        ∙ rw (contains-with_owner owners o.owner n, owned_or n scope o at)
            (ap bit
              (or_assoc (contains owners n) (nat_beq o.owner n) (any (is_owned_by r n) rest))),
  )

  Found-owners_from :
      (Fault : Type 0) (owners : List ℕ) (scopes : List OwnedScope)
      → IsOnce owners
      → Found Fault owners scopes (owners_from {Fault = Fault} r owners scopes)
  unfolding owners_from
  Found-owners_from Fault owners [] once = (refl, λ n. ground (arith, once n))
  Found-owners_from Fault owners (scope ∷ rest) once = elim (Option-cases (owner_of r scope)) [
    | inl e ↦ rw (owners_from, e) (rw (is_down, e) refl, refl)
    | inr (o, e) ↦
        let ih =
          Found-owners_from Fault (with_owner owners o.owner) rest
            (IsOnce-with_owner owners o.owner once) in
        rw (owners_from, e) (Found-step Fault owners scope o rest _ e ih)
  ]

module _ {Fault Fleet : Type 0}
    (forward : ℕ → Option (SignedCommand → Fleet → Result (ForwardError Fault) (Unit {0}) × Fleet))
    (sign : Command → SignedCommand) (node : ℕ) (clock : Timestamp) (cmd : Command) where
  -- One owner after the other: this node runs the command on its own store, and any other is sent the
  -- signed command by its client; the first failure ends it, and is the answer.
  pub data Delivers
      : List ℕ
        → Inner
        → Fleet
        → Result (ForwardError Fault) (Unit {0})
        → Inner
        → Fleet
        → Type 0 where
    all_done : {s : Inner} {fleet : Fleet} → Delivers [] s fleet (ok tt) s fleet
    ran_here :
        {s t u : Inner} {fleet after : Fleet} {owner : ℕ} {owners : List ℕ}
        {answer : Result (ForwardError Fault) (Unit {0})}
        → owner ≡ node
        → run_command {Fault = Fault} s clock cmd ≡ ok t
        → Delivers owners t fleet answer u after
        → Delivers (owner ∷ owners) s fleet answer u after
    failed_here :
        {s : Inner} {fleet : Fleet} {owner : ℕ} {owners : List ℕ} {e : ForwardError Fault}
        → owner ≡ node
        → run_command {Fault = Fault} s clock cmd ≡ err e
        → Delivers (owner ∷ owners) s fleet (err e) s fleet
    was_sent :
        {s u : Inner} {fleet next after : Fleet} {owner : ℕ} {owners : List ℕ}
        {answer : Result (ForwardError Fault) (Unit {0})}
        {send : SignedCommand → Fleet → Result (ForwardError Fault) (Unit {0}) × Fleet}
        → owner ≢ node
        → forward owner ≡ some send
        → send (sign cmd) fleet ≡ (ok tt, next)
        → Delivers owners s next answer u after
        → Delivers (owner ∷ owners) s fleet answer u after
    was_refused :
        {s : Inner} {fleet next : Fleet} {owner : ℕ} {owners : List ℕ} {e : ForwardError Fault}
        {send : SignedCommand → Fleet → Result (ForwardError Fault) (Unit {0}) × Fleet}
        → owner ≢ node
        → forward owner ≡ some send
        → send (sign cmd) fleet ≡ (err e, next)
        → Delivers (owner ∷ owners) s fleet (err e) s next
    no_client :
        {s : Inner} {fleet : Fleet} {owner : ℕ} {owners : List ℕ}
        → owner ≢ node
        → forward owner ≡ none
        → Delivers (owner ∷ owners) s fleet (err (no_route owner)) s fleet

  -- A run of the delivery, with its answer and what it leaves.
  abbrev pub Delivered :
      List ℕ → Inner → Fleet → Result (ForwardError Fault) (Unit {0}) × (Inner × Fleet) → Type 0
  Delivered owners s fleet r = Delivers owners s fleet r.0 r.1.0 r.1.1

  Delivered-sent :
      (owner : ℕ) (owners : List ℕ) (s : Inner) (fleet : Fleet)
      (send : SignedCommand → Fleet → Result (ForwardError Fault) (Unit {0}) × Fleet)
      (x : Result (ForwardError Fault) (Unit {0}) × Fleet)
      (rest : (f : Fleet) → Result (ForwardError Fault) (Unit {0}) × (Inner × Fleet))
      → owner ≢ node
      → forward owner ≡ some send
      → send (sign cmd) fleet ≡ x
      → ((f : Fleet) → Delivered owners s f (rest f))
      → Delivered
          (owner ∷ owners)
          s
          fleet
          (elim x.0 [ ok _ ↦ rest x.1 | err e ↦ (err e, (s, x.1)) ])
  Delivered-sent owner owners s fleet send (ok _, next) rest other client e h =
      was_sent other client e (h next)
  Delivered-sent owner owners s fleet send (err _, next) rest other client e h =
      was_refused other client e

  -- What follows on the answer of one owner.
  abbrev goes_on :
      List ℕ
      → Result (ForwardError Fault) (Unit {0}) × (Inner × Fleet)
      → Result (ForwardError Fault) (Unit {0}) × (Inner × Fleet)
  goes_on owners x = elim x.0 [
    | ok _ ↦ deliver forward sign node clock cmd owners x.1
    | err e ↦ (err e, x.1)
  ]

  abbrev one : ℕ → Inner → Fleet → Result (ForwardError Fault) (Unit {0}) × (Inner × Fleet)
  one owner s fleet = deliver_to forward sign node clock cmd owner (s, fleet)

  Delivered-deliver :
      (owners : List ℕ) (s : Inner) (fleet : Fleet)
      → Delivered owners s fleet (deliver forward sign node clock cmd owners (s, fleet))
  unfolding deliver
  Delivered-deliver [] s fleet = all_done
  Delivered-deliver (owner ∷ owners) s fleet = elim (Bool-cases (nat_beq owner node)) [
    | inl here ↦
        let same = (nat_beq_iff owner node).0 here in
        elim (Result-cases (run_command {Fault = Fault} s clock cmd)) [
          | inl (e, h) ↦
              let sent : one owner s fleet ≡ (err e, (s, fleet)) =
                rw (one, deliver_to, here, h) refl in
              subst (λ x. Delivered (owner ∷ owners) s fleet (goes_on owners x)) (sym sent)
                (failed_here same h)
          | inr (t, h) ↦
              let sent : one owner s fleet ≡ (ok tt, (t, fleet)) =
                rw (one, deliver_to, here, h) refl in
              subst (λ x. Delivered (owner ∷ owners) s fleet (goes_on owners x)) (sym sent)
                (ran_here same h (Delivered-deliver owners t fleet))
        ]
    | inr away ↦
        let other : owner ≢ node = λ same. absurd (ground (arith, nat_beq_iff owner node)) in
        elim (Option-cases (forward owner)) [
          | inl e ↦
              let sent : one owner s fleet ≡ (err (no_route owner), (s, fleet)) =
                rw (one, deliver_to, away, e) refl in
              subst (λ x. Delivered (owner ∷ owners) s fleet (goes_on owners x)) (sym sent)
                (no_client other e)
          | inr (send, e) ↦
              let x = send (sign cmd) fleet in
              let sent : one owner s fleet ≡ (x.0, (s, x.1)) = rw (one, deliver_to, away, e) refl in
              subst (λ x. Delivered (owner ∷ owners) s fleet (goes_on owners x)) (sym sent)
                (Delivered-sent owner owners s fleet send x
                  (λ f. deliver forward sign node clock cmd owners (s, f)) other e refl
                  (λ f. Delivered-deliver owners s f))
        ]
  ]

module _ {Fault Fleet : Type 0}
    (forward : ℕ → Option (SignedCommand → Fleet → Result (ForwardError Fault) (Unit {0}) × Fleet))
    (sign : Command → SignedCommand) (node : ℕ) (r : RegistryState) (clock : Timestamp)
    (cmd : Command) (s : Inner) (fleet : Fleet) where
  -- What is submitted, by whether each of the scopes has an owner.
  abbrev pub Submitted : Bool → Type 0
  Submitted true =
      (owners : List ℕ) × ((n : ℕ)
        → count (nat_beq n) owners ≡ bit (any (is_owned_by r n) (target_scopes s cmd)))
      × Delivered forward sign node clock cmd owners s fleet
          (submit forward sign node r clock cmd (s, fleet))
  Submitted false = submit forward sign node r clock cmd (s, fleet) ≡ (err unowned, (s, fleet))

  Submitted-scopes :
      (scopes : List OwnedScope) → target_scopes s cmd ≡ scopes → Submitted (is_reachable r scopes)
  unfolding submit
  Submitted-scopes [] at = rw (submit, at) refl
  Submitted-scopes (scope ∷ rest) at =
      let found = Found-owners_from r Fault [] (scope ∷ rest) (λ n. refl) in
      elim (Result-cases (owners_from {Fault = Fault} r [] (scope ∷ rest))) [
        | inl (e, h) ↦
            let down = subst (Found r Fault [] (scope ∷ rest)) h found in
            rw down.0 (rw (submit, at, h, down.1) refl)
        | inr (l, h) ↦
            let up = subst (Found r Fault [] (scope ∷ rest)) h found in
            rw up.0 (
              l,
              (λ n. rw at (up.1 n)),
              rw (submit, at, h) (Delivered-deliver forward sign node clock cmd l s fleet),
            )
      ]

  -- If each scope of a command has an owner, the command is run on this node's store or sent to one
  -- owner after the other, in a list that has each owner of a scope once and no other node, up to the
  -- first failure, which is then the answer; the answer is good only if all have it. If the command
  -- has no scope, or one without an owner, it is refused before any node has run it.
  pub Submitted-submit : Submitted (is_reachable r (target_scopes s cmd))
  Submitted-submit = Submitted-scopes (target_scopes s cmd) refl
