-- ===== src/Federation/Events.antt =====
-- crates/federation/src: which scope a replicated row belongs to, and the gate that it must pass.
-- The JSON payload, the node keys and the ed25519 signature are parameters: `field` reads an id from
-- a payload, `peek` decodes an event without trust, `from_hex` reads a key, and `verify` is the key's
-- node and the check of a signature with what it covers. The resolver of parents is one too.
pub mod Gate
pub mod Intake
use democrachat.Prelude.{
  ℕ, ◌+◌, Bool, true, false, not, ◌||◌, Option, none, some, List, [], ◌∷◌, ◌++◌, nat_beq, ltb,
  nat_eq, list_eq, Eq, ◌==◌, if◌then◌else◌, any,
}
use democrachat.Prelude.Std.{Text, codes, u64_add}
use democrachat.Prelude.Maps.{get}
use democrachat.Store.{ChangeOp}
use democrachat.Federation.Registry.{
  OwnedScope, server_scope, user_home, RegistryState, Ownership, owner_of,
}
use democrachat.App.Results.{Result, ok, err, ok_or, fail_if, ◌>>=◌, ◌>>◌}

pub data EventScope : Type 0 where
  on_server on_user_home : ℕ → EventScope
  everywhere : EventScope

pub record SignedPart (Payload : Type 0) : Type 0 where
  pub node : ℕ
  pub epoch : ℕ
  pub seq : ℕ
  pub scope : EventScope
  pub entity : Text
  pub op : ChangeOp
  pub payload : Payload

pub data DerivedScope : Type 0 where
  owned : OwnedScope → DerivedScope
  via_proposal via_message : ℕ → DerivedScope
  indeterminate : DerivedScope

pub data AuthError (FedError : Type 0) : Type 0 where
  fed : FedError → AuthError FedError
  unknown_node not_owner stale_epoch unowned scope_mismatch : AuthError FedError
  registry : FedError → AuthError FedError

-- What a node's public key offers: the node that it is of, and the part that an event's body holds
-- once the signature over the body's bytes was checked; and the error of a signature that is not the
-- node's.
pub record Verifier (Payload Event Key FedError : Type 0) : Type 0 where
  pub node_of : Key → ℕ
  pub read : Key → Event → Result FedError (SignedPart Payload)
  pub bad_signature : FedError

-- The entities whose rows carry their server.
abbrev pub server_entities : List Text
server_entities =
    codes "channels"
    ∷ codes "messages"
    ∷ codes "proposals"
    ∷ codes "memberships"
    ∷ codes "rules"
    ∷ codes "roles"
    ∷ codes "role_assignments"
    ∷ codes "emojis"
    ∷ codes "emoji_votes"
    ∷ codes "channel_grants"
    ∷ codes "invites"
    ∷ []

abbrev derived : (ℕ → DerivedScope) → Option ℕ → DerivedScope
derived f none = indeterminate
derived f (some n) = f n

module _ {Payload : Type 0} (field : Payload → Text → Option ℕ) where
  unfoldable pub classify : SignedPart Payload → DerivedScope
  classify part =
      let at : Text → Option ℕ = field part.payload in
      if part.entity == codes "servers"
      then derived (λ n. owned (server_scope n)) (at (codes "id"))
      else if any (λ x. x == part.entity) server_entities
      then derived (λ n. owned (server_scope n)) (at (codes "server_id"))
      else if part.entity == codes "votes"
      then derived via_proposal (at (codes "proposal_id"))
      else if part.entity == codes "reactions"
      then derived via_message (at (codes "message_id"))
      else if part.entity == codes "users"
      then derived (λ n. owned (user_home n)) (at (codes "id"))
      else if part.entity == codes "user_keys"
      then derived (λ n. owned (user_home n)) (at (codes "user_id"))
      else if part.entity == codes "dms"
      then derived (λ n. owned (user_home n)) (at (codes "sender"))
      else if part.entity == codes "friendships"
      then derived (λ n. owned (user_home n)) (at (codes "requester"))
      else if part.entity == codes "blocks"
      then derived (λ n. owned (user_home n)) (at (codes "blocker"))
      else indeterminate

module _ {Payload Event Key FedError : Type 0} (field : Payload → Text → Option ℕ)
    (peek : Event → Result FedError (SignedPart Payload))
    (from_hex : ℕ → Text → Result FedError Key) (verify : Verifier Payload Event Key FedError)
    (proposal_server message_server : ℕ → Option ℕ) where
  -- `map_err`.
  abbrev refusal {ℓ} :
      {A : Type ℓ}
      → (FedError → AuthError FedError)
      → Result FedError A
      → Result (AuthError FedError) A
  refusal f (ok a) = ok a
  refusal f (err e) = err (f e)

  -- `OwnershipRegistry::public_key` of the in-memory registry.
  abbrev pub public_key : RegistryState → ℕ → Result FedError (Option Key)
  public_key r node = elim (get node r.keys) [
    | none ↦ ok none
    | some hex ↦ from_hex node hex >>= λ k. ok (some k)
  ]

  -- `ChangeEvent::verify`: the part must name the key's own node.
  abbrev pub verify_event : Key → Event → Result FedError (SignedPart Payload)
  verify_event key event = do
    part ← verify.read key event
    fail_if (not (nat_beq (verify.node_of key) part.node)) verify.bad_signature
    ok part

  -- The scope of a row, through its parent where it has one.
  abbrev pub resolve : DerivedScope → Result (AuthError FedError) OwnedScope
  resolve (owned s) = ok s
  resolve (via_proposal p) = ok_or (proposal_server p) unowned >>= λ s. ok (server_scope s)
  resolve (via_message m) = ok_or (message_server m) unowned >>= λ s. ok (server_scope s)
  resolve indeterminate = err scope_mismatch

  unfoldable pub authorize :
      RegistryState → Event → Result (AuthError FedError) (SignedPart Payload)
  unfolding classify
  authorize r event = do
    claimed ← refusal fed (peek event)
    found ← refusal registry (public_key r claimed.node)
    key ← ok_or found unknown_node
    part ← refusal fed (verify_event key event)
    scope ← resolve (classify field part)
    owner ← ok_or (owner_of r scope) unowned
    fail_if (not (nat_beq owner.owner part.node)) not_owner
    fail_if (ltb part.epoch owner.epoch) stale_epoch
    ok part

  pub record Ingested (ApplyError : Type 0) : Type 0 where
    pub applied : ℕ
    pub rejected : List (AuthError FedError)
    pub apply_errors : List ApplyError

  module _ {Sink ApplyError : Type 0}
      (apply : Sink → SignedPart Payload → Result ApplyError Sink) where
    abbrev applied_to :
        Sink → Ingested ApplyError → Result ApplyError Sink → Sink × Ingested ApplyError
    applied_to s out (ok t) = (t, record out { applied = u64_add out.applied 1 })
    applied_to s out (err e) = (s, record out { apply_errors = out.apply_errors ++ e ∷ [] })

    abbrev pub taken :
        Sink
        → Ingested ApplyError
        → Result (AuthError FedError) (SignedPart Payload)
        → Sink × Ingested ApplyError
    taken s out (err e) = (s, record out { rejected = out.rejected ++ e ∷ [] })
    taken s out (ok part) = applied_to s out (apply s part)

    -- The loop of `ingest`, from what it has counted so far.
    unfoldable pub ingest_from :
        RegistryState → Sink → Ingested ApplyError → List Event → Sink × Ingested ApplyError
    unfolding authorize
    ingest_from r s out [] = (s, out)
    ingest_from r s out (event ∷ events) =
        let (t, next) = taken s out (authorize r event) in ingest_from r t next events

    unfoldable pub ingest : RegistryState → Sink → List Event → Sink × Ingested ApplyError
    unfolding ingest_from
    ingest r s events =
        ingest_from r s (record { applied = 0; rejected = []; apply_errors = [] }) events
