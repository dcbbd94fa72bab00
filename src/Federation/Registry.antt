-- ===== src/Federation/Registry.antt =====
-- crates/federation/src/ownership: the registry of who owns a scope, under which epoch.
pub mod Fencing
pub mod Keys
use democrachat.Prelude.{
  ℕ, ◌≡◌, ◌↔◌, Bool, true, false, not, ◌&&◌, Option, none, some, List, [], ◌∷◌, ◌++◌, retain,
  contains, nat_beq, nat_eq, list_eq, Eq, ◌==◌, if◌then◌else◌, arith,
}
use democrachat.Prelude.Maps.{Map, get, insert, remove}
use democrachat.Prelude.Std.{Text, u64_add}

pub data OwnedScope : Type 0 where
  server_scope user_home : ℕ → OwnedScope

abbrev pub scope_beq : OwnedScope → OwnedScope → Bool
scope_beq (server_scope a) (server_scope b) = nat_beq a b
scope_beq (user_home a) (user_home b) = nat_beq a b
scope_beq _ _ = false

pub scope_beq_iff : (a b : OwnedScope) → (scope_beq a b ≡ true) ↔ (a ≡ b)
scope_beq_iff (server_scope a) (server_scope b) = ground arith
scope_beq_iff (server_scope a) (user_home b) = ground arith
scope_beq_iff (user_home a) (server_scope b) = ground arith
scope_beq_iff (user_home a) (user_home b) = ground arith

instance abbrev pub scope_eq : Eq OwnedScope
scope_eq = record { beq = scope_beq; beq_iff = scope_beq_iff }

-- `requests_per_sec` is an `f64`, kept as its bits.
pub record NodeLoad : Type 0 where
  pub hosted_scopes : ℕ
  pub requests_per_sec : ℕ

pub record RegistryState : Type 0 where
  pub owners : Map OwnedScope (ℕ × ℕ)
  pub max_epoch : Map OwnedScope ℕ
  pub keys : Map ℕ Text
  pub loads : Map ℕ NodeLoad
  pub standby_nodes : Map OwnedScope (List ℕ)
  pub rehoming_disabled : List OwnedScope

pub record Ownership : Type 0 where
  pub scope : OwnedScope
  pub owner : ℕ
  pub epoch : ℕ

pub data ClaimOutcome : Type 0 where
  claimed : (epoch : ℕ) → ClaimOutcome
  held : (by epoch : ℕ) → ClaimOutcome

abbrev pub ownership_of : OwnedScope → Option (ℕ × ℕ) → Option Ownership
ownership_of scope none = none
ownership_of scope (some o) = some (record { scope = scope; owner = o.0; epoch = o.1 })

unfoldable pub owner_of : RegistryState → OwnedScope → Option Ownership
owner_of r scope = ownership_of scope (get scope r.owners)

abbrev pub or_zero : Option ℕ → ℕ
or_zero none = 0
or_zero (some n) = n

unfoldable pub claim : RegistryState → OwnedScope → ℕ → ClaimOutcome × RegistryState
claim r scope node = elim (get scope r.owners) [
  | some o ↦ (held (o.0) (o.1), r)
  | none ↦
      let epoch = u64_add (or_zero (get scope r.max_epoch)) 1 in
      (
        claimed epoch,
        record r {
          owners = insert scope (node, epoch) r.owners;
          max_epoch = insert scope epoch r.max_epoch;
        },
      )
]

abbrev pub is_owner : Option (ℕ × ℕ) → ℕ → Bool
is_owner none node = false
is_owner (some o) node = nat_beq (o.0) node

unfoldable pub release : RegistryState → OwnedScope → ℕ → RegistryState
release r scope node =
    if is_owner (get scope r.owners) node then record r { owners = remove scope r.owners } else r

abbrev pub or_empty : Option (List ℕ) → List ℕ
or_empty none = []
or_empty (some l) = l

unfoldable pub standbys : RegistryState → OwnedScope → List ℕ
standbys r scope = or_empty (get scope r.standby_nodes)

unfoldable pub set_standby : RegistryState → OwnedScope → ℕ → RegistryState
unfolding standbys
set_standby r scope node =
    let list = standbys r scope in
    record r {
      standby_nodes =
          insert scope (if contains list node then list else list ++ node ∷ []) r.standby_nodes;
    }

unfoldable pub can_rehome : RegistryState → OwnedScope → Bool
can_rehome r scope = not (contains r.rehoming_disabled scope)

-- A set of scopes is a list without repetitions.
unfoldable pub set_rehoming : RegistryState → OwnedScope → Bool → RegistryState
set_rehoming r scope enabled =
    if enabled
    then record r { rehoming_disabled = retain (λ x. not (x == scope)) r.rehoming_disabled }
    else if contains r.rehoming_disabled scope
    then r
    else record r { rehoming_disabled = r.rehoming_disabled ++ scope ∷ [] }

-- The first key of a node stands; false stands for the refusal of another one.
unfoldable pub publish_key : RegistryState → ℕ → Text → Bool × RegistryState
publish_key r node public_hex = elim (get node r.keys) [
  | some existing ↦ (existing == public_hex, r)
  | none ↦ (true, record r { keys = insert node public_hex r.keys })
]

unfoldable pub report_load : RegistryState → ℕ → NodeLoad → RegistryState
report_load r node load = record r { loads = insert node load r.loads }
