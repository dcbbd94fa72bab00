-- ===== src/Federation/Feed.antt =====
-- crates/federation/src/sign_feed.rs: the outbox as a feed of signed events. `encode` is the JSON of
-- a row, `field` reads an id from it, and `seal` signs a part whose node is this one's; the resolver
-- of parents is a parameter too.
pub mod Cache
pub mod Accepted
use democrachat.Federation.Events.{
  DerivedScope, EventScope, SignedPart, classify, everywhere, indeterminate, on_server,
  on_user_home, owned, via_message, via_proposal,
}
use democrachat.Federation.Registry.{
  OwnedScope, Ownership, RegistryState, owner_of, server_scope, user_home, scope_eq,
}
use democrachat.Prelude.{
  List, Option, [], if◌then◌else◌, list_eq, nat_beq, nat_eq, none, pair_eq, some, triple_eq, ℕ, ◌∷◌,
}
use democrachat.Prelude.Maps.{Map, get, insert}
use democrachat.Prelude.Std.{Text}
use democrachat.Store.{ChangeRecord, Inner, Row}
use democrachat.Store.Outbox.{changes_since}

-- `NodeKeypair`, with what `ChangeEvent::sign` makes of a part that names its node.
pub record NodeKeypair (Payload Event : Type 0) : Type 0 where
  pub node : ℕ
  pub seal : SignedPart Payload → Event

-- `ChangeEvent::sign`: the keypair's node is stamped into the part.
unfoldable pub sign :
    {Payload Event : Type 0} → NodeKeypair Payload Event → SignedPart Payload → Event
sign keypair part = keypair.seal (record part { node = keypair.node })

-- `EventScope::from`.
abbrev pub scope_event : OwnedScope → EventScope
scope_event (server_scope n) = on_server n
scope_event (user_home n) = on_user_home n

module _ {Payload Event : Type 0} (encode : Row → Payload) (field : Payload → Text → Option ℕ)
    (proposal_server message_server : ℕ → Option ℕ) (keypair : NodeKeypair Payload Event) where
  -- The part of a row before it is placed and signed.
  abbrev pub draft : ChangeRecord → SignedPart Payload
  draft rec = record {
    node = 0;
    epoch = 0;
    seq = rec.seq;
    scope = everywhere;
    entity = rec.entity;
    op = rec.op;
    payload = encode rec.payload;
  }

  abbrev on_parent : Option ℕ → Option OwnedScope
  on_parent none = none
  on_parent (some n) = some (server_scope n)

  abbrev pub placed_in : DerivedScope → Option OwnedScope
  placed_in (owned s) = some s
  placed_in (via_proposal p) = on_parent (proposal_server p)
  placed_in (via_message m) = on_parent (message_server m)
  placed_in indeterminate = none

  -- The epoch of a scope, if this node owns it.
  abbrev epoch_for : Option Ownership → Option ℕ
  epoch_for none = none
  epoch_for (some o) = if nat_beq o.owner keypair.node then some o.epoch else none

  unfoldable pub mine : RegistryState → OwnedScope → Option ℕ
  mine r scope = epoch_for (owner_of r scope)

  abbrev pub stamped : SignedPart Payload → OwnedScope → Option ℕ → Option Event
  stamped part scope none = none
  stamped part scope (some epoch) =
      some (sign keypair (record part { epoch = epoch; scope = scope_event scope }))

  -- The lookup of a scope's epoch through the cache.
  abbrev pub looked_up :
      RegistryState → Map OwnedScope (Option ℕ) → OwnedScope → Option ℕ × Map OwnedScope (Option ℕ)
  looked_up r cache scope = elim (get scope cache) [
    | some cached ↦ (cached, cache)
    | none ↦ (mine r scope, insert scope (mine r scope) cache)
  ]

  -- One turn of the loop: the event that a row brings, if any, and the cache after it.
  abbrev pub offered :
      RegistryState
      → Map OwnedScope (Option ℕ)
      → SignedPart Payload
      → Option OwnedScope
      → Option Event × Map OwnedScope (Option ℕ)
  offered r cache part none = (none, cache)
  offered r cache part (some scope) =
      let (epoch, next) = looked_up r cache scope in (stamped part scope epoch, next)

  abbrev pub and_event : Option Event → List Event → List Event
  and_event none l = l
  and_event (some e) l = e ∷ l

  unfoldable pub sign_records :
      RegistryState → Map OwnedScope (Option ℕ) → List ChangeRecord → List Event
  unfolding mine sign classify
  sign_records r cache [] = []
  sign_records r cache (rec ∷ records) =
      let (event, next) = offered r cache (draft rec) (placed_in (classify field (draft rec))) in
      and_event event (sign_records r next records)

  unfoldable pub sign_feed : RegistryState → Inner → ℕ → ℕ → List Event
  unfolding sign_records
  sign_feed r s after_seq limit = sign_records r [] (changes_since s after_seq limit)

  -- What a row brings without the cache.
  unfoldable pub offer : RegistryState → ChangeRecord → Option Event
  unfolding mine sign classify
  offer r rec = elim (placed_in (classify field (draft rec))) [
    | none ↦ none
    | some scope ↦ stamped (draft rec) scope (mine r scope)
  ]

  unfoldable pub offer_all : RegistryState → List ChangeRecord → List Event
  unfolding offer
  offer_all r [] = []
  offer_all r (rec ∷ records) = and_event (offer r rec) (offer_all r records)
