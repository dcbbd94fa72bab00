-- ===== src/Federation/Rehome.antt =====
-- crates/federation/src/rehome: a scope whose owner is gone is taken over by a standby. The
-- comparison of request rates, `f64::partial_cmp` on the bits of two rates, is the parameter
-- `partial_cmp`. The in-memory registry never fails in the calls that are made here.
pub mod Least
pub mod Agreement
pub mod Promotions
pub mod Ticks
use Prim.Native.Nat.{compare, Ordering}
use democrachat.Prelude.{
  ℕ, Bool, true, false, not, Option, none, some, List, [], ◌∷◌, map, find, retain, contains,
  nat_beq, nat_eq, if◌then◌else◌,
}
use democrachat.Prelude.Maps.{Map}
use democrachat.Federation.Registry.{
  OwnedScope, NodeLoad, RegistryState, Ownership, ClaimOutcome, claimed, held, owner_of, claim,
  standbys, set_standby, can_rehome,
}

pub record NodeStatus : Type 0 where
  pub node : ℕ
  pub load : NodeLoad

abbrev status_of : ℕ × NodeLoad → NodeStatus
status_of (n, load) = record { node = n; load = load }

unfoldable pub live_nodes : RegistryState → List NodeStatus
live_nodes r = map status_of r.loads

pub data RehomeOutcome : Type 0 where
  still_owned : OwnedScope → RehomeOutcome
  promoted : (scope : OwnedScope) (epoch : ℕ) → RehomeOutcome
  yielded : (scope : OwnedScope) (to : ℕ) → RehomeOutcome
  stranded rehoming_off : OwnedScope → RehomeOutcome

-- `Ordering::then`.
abbrev pub and_then : Ordering → Ordering → Ordering
and_then Ordering.eq o = o
and_then o _ = o

abbrev pub or_greater : Option Ordering → Ordering
or_greater none = Ordering.gt
or_greater (some o) = o

abbrev pub lesser {ℓ} : {A : Type ℓ} → Ordering → A → A → A
lesser Ordering.gt a b = b
lesser _ a b = a

-- `Iterator::min_by` keeps the first of several least elements.
abbrev pub least_from {ℓ} : {A : Type ℓ} → (A → A → Ordering) → A → List A → A
least_from order a [] = a
least_from order a (b ∷ l) = least_from order (lesser (order a b) a b) l

abbrev pub min_by {ℓ} : {A : Type ℓ} → (A → A → Ordering) → List A → Option A
min_by order [] = none
min_by order (a ∷ l) = some (least_from order a l)

abbrev pub node_of : Option NodeStatus → Option ℕ
node_of none = none
node_of (some s) = some s.node

abbrev add_found : Option NodeStatus → List NodeStatus → List NodeStatus
add_found none l = l
add_found (some s) l = s ∷ l

-- The reports of the standbys that have made one.
abbrev pub reported : List ℕ → List NodeStatus → List NodeStatus
reported [] loads = []
reported (sb ∷ l) loads = add_found (find (λ s. nat_beq s.node sb) loads) (reported l loads)

abbrev pub protect : RegistryState → OwnedScope → Option ℕ → RegistryState
protect r scope none = r
protect r scope (some sb) = set_standby r scope sb

module _ (partial_cmp : ℕ → ℕ → Option Ordering) where
  unfoldable pub busier : NodeLoad → NodeLoad → Ordering
  busier a b =
      and_then (or_greater (partial_cmp a.requests_per_sec b.requests_per_sec))
        (compare a.hosted_scopes b.hosted_scopes)

  unfoldable pub by_load : NodeStatus → NodeStatus → Ordering
  unfolding busier
  by_load a b = and_then (busier a.load b.load) (compare a.node b.node)

  unfoldable pub choose_new_owner : List ℕ → List NodeStatus → Option ℕ
  unfolding by_load
  choose_new_owner nodes loads = node_of (min_by by_load (reported nodes loads))

  unfoldable pub choose_new_standby : List ℕ → List NodeStatus → Option ℕ
  unfolding by_load
  choose_new_standby exclude loads =
      node_of (min_by by_load (retain (λ s. not (contains exclude s.node)) loads))

  -- `RehomingController::consider` reads the registry, `seen`, and then claims in the registry as it
  -- is by then, `r`: other nodes may have been served in between.
  unfoldable pub consider :
      (node : ℕ) (seen r : RegistryState) → OwnedScope → RehomeOutcome × RegistryState
  unfolding owner_of claim standbys set_standby can_rehome live_nodes choose_new_owner
      choose_new_standby
  consider node seen r scope = elim (owner_of seen scope) [
    | some o ↦ (still_owned scope, r)
    | none ↦
        if not (can_rehome seen scope)
        then (rehoming_off scope, r)
        else elim (choose_new_owner (standbys seen scope) (live_nodes seen)) [
          | none ↦ (stranded scope, r)
          | some winner ↦
              if not (nat_beq winner node)
              then (yielded scope winner, r)
              else (let (outcome, t) = claim r scope node in
                  elim outcome [
                    | claimed epoch ↦ (
                      promoted scope epoch,
                      protect t scope (choose_new_standby (node ∷ []) (live_nodes seen)),
                    )
                    | held by epoch ↦ (yielded scope by, t)
                  ])
        ]
  ]

  -- `RehomingController::tick` while no other node is served.
  unfoldable pub tick :
      (node : ℕ) → RegistryState → List OwnedScope → List RehomeOutcome × RegistryState
  unfolding consider
  tick node r [] = ([], r)
  tick node r (scope ∷ rest) =
      let (o, t) = consider node r r scope in let (os, u) = tick node t rest in (o ∷ os, u)
