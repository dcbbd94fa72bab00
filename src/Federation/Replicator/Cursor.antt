-- ===== src/Federation/Replicator/Cursor.antt =====
-- How a peer's cursor moves: over what was handled, and not past what is to be retried.
use democrachat.App.Results.{Result, Result-cases, err, ok}
use democrachat.Federation.Events.{Verifier, AuthError, SignedPart}
use democrachat.Federation.Registry.{RegistryState}
use democrachat.Federation.Replicator.{
  Intake, applied_or, apply_incoming, checked, is_transient, reject, seq_of, take_in,
}
use democrachat.Prelude.{
  Bool-cases, List, Option, false, inl, inr, list_eq, max, nat_eq, pair_eq, refl, triple_eq, true,
  ℕ, ◌∷◌, ◌≡◌, ◌⊎◌,
}
use democrachat.Prelude.Std.{Text}
use democrachat.Store.{ChangeOp, Row}

module _ {Payload Event Key FedError : Type 0} (field : Payload → Text → Option ℕ)
    (peek : Event → Result FedError (SignedPart Payload))
    (from_hex : ℕ → Text → Result FedError Key) (verify : Verifier Payload Event Key FedError)
    (decode : Text → ChangeOp → Payload → Option Row) (registry : RegistryState) where
  abbrev pub State : Type 0
  State = Intake FedError

  abbrev pub takes : State → List Event → State
  takes = take_in field peek from_hex verify decode registry

  abbrev pub check : State → Event → Result (AuthError FedError) (SignedPart Payload)
  check = checked field peek from_hex verify decode registry

  abbrev pub numbered : Event → ℕ
  numbered event = seq_of field peek from_hex verify decode registry (peek event)

  abbrev pub after_ok : State → SignedPart Payload → State
  after_ok x part =
      record (applied_or field peek from_hex verify decode registry x
        (apply_incoming field peek from_hex verify decode registry x.store part)) {
          handled_high = max x.handled_high part.seq;
        }

  abbrev pub after_skip : State → Event → AuthError FedError → State
  after_skip x event e = record (reject field peek from_hex verify decode registry x e) {
    handled_high = max x.handled_high (numbered event);
  }

  -- An event that is let in.
  pub take_in-ok :
      (x : State) (event : Event) (events : List Event) (part : SignedPart Payload)
      → check x event ≡ ok part
      → takes x (event ∷ events) ≡ takes (after_ok x part) events
  unfolding take_in
  take_in-ok x event events part e = rw (take_in, e) refl

  -- An event that is to be retried: the loop stops.
  pub take_in-stop :
      (x : State) (event : Event) (events : List Event) (why : AuthError FedError)
      → check x event ≡ err why
      → is_transient why ≡ true
      → takes x (event ∷ events) ≡ reject field peek from_hex verify decode registry x why
  unfolding take_in
  take_in-stop x event events why e f = rw (take_in, e, f) refl

  -- An event that is skipped.
  pub take_in-skip :
      (x : State) (event : Event) (events : List Event) (why : AuthError FedError)
      → check x event ≡ err why
      → is_transient why ≡ false
      → takes x (event ∷ events) ≡ takes (after_skip x event why) events
  unfolding take_in
  take_in-skip x event events why e f = rw (take_in, e, f) refl

  -- What may become of an event.
  pub fate :
      (x : State) (event : Event)
      → ((part : SignedPart Payload) × (check x event ≡ ok part))
        ⊎ ((why : AuthError FedError) × (check x event ≡ err why) × (is_transient why ≡ true))
        ⊎ ((why : AuthError FedError) × (check x event ≡ err why) × (is_transient why ≡ false))
  fate x event = elim (Result-cases (check x event)) [
    | inr (part, e) ↦ inl (part, e)
    | inl (why, e) ↦ elim (Bool-cases (is_transient why)) [
      | inl f ↦ inr (inl (why, e, f))
      | inr f ↦ inr (inr (why, e, f))
    ]
  ]
