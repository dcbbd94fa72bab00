-- ===== src/Federation/Registry/Fencing.antt =====
-- Epochs fence: what a stale owner signed is older than what the scope's owner signs now.
use democrachat.Prelude.{
  contains, ℕ, ◌+◌, ◌≤◌, ◌<◌, ◌≡◌, ◌⊎◌, inl, inr, Bool-cases, Option-cases, Bool, true, false,
  Option, none, some, List, [], ◌∷◌, length, arith, nat_eq, list_eq,
}
use democrachat.Prelude.Maps.{get, get-insert, get-remove}
use democrachat.Prelude.Std.{Text, u64_mod, u64_add}
use democrachat.Federation.Registry.{
  OwnedScope, ownership_of, is_owner, scope_beq_iff, scope_eq, NodeLoad, RegistryState, Ownership,
  owner_of, or_zero, claim, release, set_standby, set_rehoming, publish_key, report_load,
}

-- A request to the registry.
pub data RegistryAction : Type 0 where
  claims releases sets_standby : OwnedScope → ℕ → RegistryAction
  sets_rehoming : OwnedScope → Bool → RegistryAction
  publishes : ℕ → Text → RegistryAction
  reports : ℕ → NodeLoad → RegistryAction

unfoldable pub serve : RegistryState → RegistryAction → RegistryState
serve r (claims scope node) = (claim r scope node).1
serve r (releases scope node) = release r scope node
serve r (sets_standby scope node) = set_standby r scope node
serve r (sets_rehoming scope enabled) = set_rehoming r scope enabled
serve r (publishes node key) = (publish_key r node key).1
serve r (reports node load) = report_load r node load

unfoldable pub serve_all : RegistryState → List RegistryAction → RegistryState
unfolding serve
serve_all r [] = r
serve_all r (a ∷ rest) = serve_all (serve r a) rest

abbrev pub top : RegistryState → OwnedScope → ℕ
top r scope = or_zero (get scope r.max_epoch)

-- The owner of a scope is the one it was at epoch `e`, or holds it under a later epoch.
abbrev Later : ℕ → ℕ → Option (ℕ × ℕ) → Type 0
Later n e none = Unit {0}
Later n e (some o) = ((o.0 ≡ n) × (o.1 ≡ e)) ⊎ (e < o.1)

Later-ownership :
    (scope : OwnedScope) (o : Ownership) (q : Option (ℕ × ℕ))
    → ownership_of scope q ≡ some o
    → Later o.owner o.epoch q
Later-ownership scope o none h = tt
Later-ownership scope o (some q) h = ground arith

Later-at :
    (n e : ℕ) (scope : OwnedScope) (p : Ownership) (q : Option (ℕ × ℕ))
    → ownership_of scope q ≡ some p
    → Later n e q
    → ((p.owner ≡ n) × (p.epoch ≡ e)) ⊎ (e < p.epoch)
Later-at n e scope p none k h = absurd (cc)
Later-at n e scope p (some q) k h = ground arith

module _ (scope : OwnedScope) (n e : ℕ) where
  -- Since `n` held the scope at epoch `e`.
  record Since (r : RegistryState) : Type 0 where
    reached : e ≤ top r scope
    now : Later n e (get scope r.owners)

  kept : (r : RegistryState) → Since r → Since r × (top r scope ≤ top r scope + 1)
  kept r h = (h, omega arith)

  Since-claim :
      (r : RegistryState) (s : OwnedScope) (m : ℕ)
      → top r scope + 1 < u64_mod
      → Since r
      → Since (claim r s m).1 × (top (claim r s m).1 scope ≤ top r scope + 1)
  unfolding claim
  Since-claim r s m small h = elim (Option-cases (get s r.owners)) [
    | inr (o, e) ↦ rw (claim, e) (kept r h)
    | inl free ↦
        let a = get-insert s scope (m, u64_add (top r s) 1) r.owners in
        let b = get-insert s scope (u64_add (top r s) 1) r.max_epoch in
        let c = scope_beq_iff s scope in
        rw (claim, free)
          (
            record {
              reached = ground (arith, h.reached, b, c);
              now = ground (arith, h.reached, h.now, a, b, c);
            },
            ground (arith, b, c),
          )
  ]

  Since-release :
      (r : RegistryState) (s : OwnedScope) (m : ℕ)
      → Since r
      → Since (release r s m) × (top (release r s m) scope ≤ top r scope + 1)
  unfolding release
  Since-release r s m h = elim (Bool-cases (is_owner (get s r.owners) m)) [
    | inr e ↦ rw (release, e) (kept r h)
    | inl e ↦
        rw (release, e)
          (
            record {
              reached = h.reached;
              now = ground (arith, h.now, get-remove s scope r.owners);
            },
            omega arith,
          )
  ]

  Since-serve :
      (r : RegistryState) (a : RegistryAction)
      → top r scope + 1 < u64_mod
      → Since r
      → Since (serve r a) × (top (serve r a) scope ≤ top r scope + 1)
  unfolding serve set_standby set_rehoming publish_key report_load
  Since-serve r (claims s m) small h = Since-claim r s m small h
  Since-serve r (releases s m) small h = Since-release r s m h
  Since-serve r (sets_standby s m) small h =
      (record { reached = h.reached; now = h.now }, omega arith)
  Since-serve r (sets_rehoming s true) small h =
      (record { reached = h.reached; now = h.now }, omega arith)
  Since-serve r (sets_rehoming s false) small h =
      elim (Bool-cases (contains r.rehoming_disabled s)) [
        | inl e ↦ rw (serve, set_rehoming, e) (kept r h)
        | inr e ↦
            rw (serve, set_rehoming, e) (record { reached = h.reached; now = h.now }, omega arith)
      ]
  Since-serve r (publishes m k) small h = elim (Option-cases (get m r.keys)) [
    | inr (o, e) ↦ rw (serve, publish_key, e) (kept r h)
    | inl e ↦ rw (serve, publish_key, e) (record { reached = h.reached; now = h.now }, omega arith)
  ]
  Since-serve r (reports m l) small h = (record { reached = h.reached; now = h.now }, omega arith)

  Since-serve_all :
      (r : RegistryState) (history : List RegistryAction)
      → top r scope + length history < u64_mod
      → Since r
      → Since (serve_all r history)
  unfolding serve_all
  Since-serve_all r [] small h = h
  Since-serve_all r (a ∷ rest) small h =
      let (h', up) = Since-serve r a (omega arith) h in
      Since-serve_all (serve r a) rest (omega arith) h'

-- Whoever holds a scope after any history of requests either is the owner of before, under the same
-- epoch, or holds it under a later epoch. The owner's epoch is no later than the last one given out
-- for the scope, and the requests are too few to exhaust 64 bits.
pub serve_all_fenced :
    (r : RegistryState) (scope : OwnedScope) (o p : Ownership) (history : List RegistryAction)
    → owner_of r scope ≡ some o
    → o.epoch ≤ top r scope
    → top r scope + length history < u64_mod
    → owner_of (serve_all r history) scope ≡ some p
    → ((p.owner ≡ o.owner) × (p.epoch ≡ o.epoch)) ⊎ (o.epoch < p.epoch)
unfolding owner_of
serve_all_fenced r scope o p history h reached small k =
    let since : Since scope o.owner o.epoch r = record {
      reached = reached;
      now = Later-ownership scope o (get scope r.owners) h;
    } in
    let after = (Since-serve_all scope o.owner o.epoch r history small since).now in
    Later-at o.owner o.epoch scope p (get scope (serve_all r history).owners) k after
