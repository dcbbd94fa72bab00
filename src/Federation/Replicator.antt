-- ===== src/Federation/Replicator.antt =====
-- crates/adapter-federation: the consumer of a peer's feed. `decode` is `serde_json::from_value` at
-- the row type that a part's entity and operation name; it fails on an unknown entity.
pub mod Cursor
pub mod Handled
pub mod Resume
pub mod Sync
use democrachat.App.Results.{Result, err, ok}
use democrachat.Federation.Events.{Verifier, AuthError, SignedPart, authorize}
use democrachat.Federation.Registry.{RegistryState}
use democrachat.Prelude.{
  Bool, List, Option, [], false, if◌then◌else◌, list_eq, max, nat_eq, none, pair_eq, some,
  triple_eq, true, ℕ, ◌++◌, ◌∷◌,
}
use democrachat.Prelude.Maps.{get}
use democrachat.Prelude.Std.{Text, is_empty, u64_add}
use democrachat.Store.{ChangeOp, Inner, Row}
use democrachat.Store.Outbox.{apply_row}
use democrachat.Store.People.{advance_cursor, replication_cursor}

-- `StoreResolver`: a vote's server is its proposal's, a reaction's is its message's.
unfoldable pub proposal_server : Inner → ℕ → Option ℕ
proposal_server s p = elim (get p s.proposals) [ none ↦ none | some x ↦ some x.server_id ]

unfoldable pub message_server : Inner → ℕ → Option ℕ
message_server s m = elim (get m s.messages) [ none ↦ none | some x ↦ some x.server_id ]

unfoldable pub is_transient : {FedError : Type 0} → AuthError FedError → Bool
is_transient (AuthError.fed _) = false
is_transient AuthError.unknown_node = true
is_transient AuthError.not_owner = false
is_transient AuthError.stale_epoch = false
is_transient AuthError.unowned = true
is_transient AuthError.scope_mismatch = false
is_transient (AuthError.registry _) = true

-- What `ingest` reports; a row that does not decode leaves its message in `apply_errors`, of which
-- the number is kept.
pub record Ingest (FedError : Type 0) : Type 0 where
  pub applied : ℕ
  pub rejected : List (AuthError FedError)
  pub apply_errors : ℕ

-- The state of the loop: the store, the report, and the highest number handled.
pub record Intake (FedError : Type 0) : Type 0 where
  pub store : Inner
  pub out : Ingest FedError
  pub handled_high : ℕ

module _ {Payload Event Key FedError : Type 0} (field : Payload → Text → Option ℕ)
    (peek : Event → Result FedError (SignedPart Payload))
    (from_hex : ℕ → Text → Result FedError Key) (verify : Verifier Payload Event Key FedError)
    (decode : Text → ChangeOp → Payload → Option Row) (registry : RegistryState) where
  -- `apply_incoming`.
  unfoldable pub apply_incoming : Inner → SignedPart Payload → Option Inner
  apply_incoming s part = elim (decode part.entity part.op part.payload) [
    | none ↦ none
    | some row ↦ apply_row s part.op row
  ]

  abbrev pub seq_of : Result FedError (SignedPart Payload) → ℕ
  seq_of (ok p) = p.seq
  seq_of (err e) = 0

  abbrev pub applied_or : Intake FedError → Option Inner → Intake FedError
  applied_or x none = record x {
    out = record x.out { apply_errors = u64_add x.out.apply_errors 1 };
  }
  applied_or x (some t) = record x {
    store = t;
    out = record x.out { applied = u64_add x.out.applied 1 };
  }

  abbrev pub reject : Intake FedError → AuthError FedError → Intake FedError
  reject x e = record x { out = record x.out { rejected = x.out.rejected ++ e ∷ [] } }

  -- One event: true where the loop stops before it.
  abbrev pub handled :
      Intake FedError
      → ℕ
      → Result (AuthError FedError) (SignedPart Payload)
      → Bool × Intake FedError
  handled x seq (ok part) = (
    false,
    record (applied_or x (apply_incoming x.store part)) {
      handled_high = max x.handled_high part.seq;
    },
  )
  handled x seq (err e) =
      if is_transient e
      then (true, reject x e)
      else (false, record (reject x e) { handled_high = max x.handled_high seq })

  -- The check of an event against the registry and the store as it is by now.
  abbrev pub checked : Intake FedError → Event → Result (AuthError FedError) (SignedPart Payload)
  checked x event =
      authorize field peek from_hex verify (proposal_server x.store) (message_server x.store)
        registry event

  unfoldable pub take_in : Intake FedError → List Event → Intake FedError
  unfolding authorize apply_incoming is_transient proposal_server message_server
  take_in x [] = x
  take_in x (event ∷ events) =
      let (stop, next) = handled x (seq_of (peek event)) (checked x event) in
      let rest = take_in next events in if stop then next else rest

  unfoldable pub ingest : Inner → ℕ → List Event → Inner × Ingest FedError
  unfolding take_in
  ingest s peer events =
      let x =
        take_in
          (record {
            store = s;
            out = record { applied = 0; rejected = []; apply_errors = 0 };
            handled_high = replication_cursor s peer;
          })
          events in
      (advance_cursor x.store peer x.handled_high, x.out)

  -- `poll_peer`, on what the peer's feed answers to this node's cursor.
  unfoldable pub poll_peer : Inner → ℕ → (ℕ → List Event) → Inner × ℕ
  unfolding ingest
  poll_peer s peer feed =
      let events = feed (replication_cursor s peer) in
      if is_empty events
      then (s, 0)
      else ((ingest s peer events).0, (ingest s peer events).1.applied)
