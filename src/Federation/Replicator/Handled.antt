-- ===== src/Federation/Replicator/Handled.antt =====
-- What the loop of `ingest` does with an event that it does not leave for later: the row is applied,
-- or it cannot be, or the event is refused for good.
use democrachat.Federation.Events.{Verifier, AuthError, SignedPart, authorize}
use democrachat.Federation.Registry.{RegistryState}
use democrachat.Federation.Replicator.{
  Intake, applied_or, apply_incoming, is_transient, message_server, proposal_server,
}
use democrachat.App.Results.{Result, err, ok}
use democrachat.Prelude.{
  List, Option, Option-cases, [], arith, false, inl, inr, list_eq, nat_eq, none, pair_eq, some,
  triple_eq, true, ℕ, ◌∷◌, ◌≡◌,
}
use democrachat.Prelude.Std.{Text}
use democrachat.Store.{ChangeOp, Inner, Row}
use democrachat.Store.Outbox.{apply_row}

-- The reasons that may pass: the signer's key or the scope's owner is not known here yet, or the
-- registry could not be asked.
pub IsTemporary : {FedError : Type 0} → AuthError FedError → Type 0
IsTemporary AuthError.unknown_node = Unit
IsTemporary AuthError.unowned = Unit
IsTemporary (AuthError.registry _) = Unit
IsTemporary (AuthError.fed _) = ⊥
IsTemporary AuthError.not_owner = ⊥
IsTemporary AuthError.stale_epoch = ⊥
IsTemporary AuthError.scope_mismatch = ⊥

pub transient-IsTemporary :
    {FedError : Type 0} (why : AuthError FedError) → is_transient why ≡ true → IsTemporary why
unfolding is_transient IsTemporary
transient-IsTemporary AuthError.unknown_node h = tt
transient-IsTemporary AuthError.unowned h = tt
transient-IsTemporary (AuthError.registry e) h = tt
transient-IsTemporary (AuthError.fed e) h = ground arith
transient-IsTemporary AuthError.not_owner h = ground arith
transient-IsTemporary AuthError.stale_epoch h = ground arith
transient-IsTemporary AuthError.scope_mismatch h = ground arith

pub lasting-IsTemporary :
    {FedError : Type 0} (why : AuthError FedError) → is_transient why ≡ false → ¬ IsTemporary why
unfolding is_transient IsTemporary
lasting-IsTemporary AuthError.unknown_node h t = ground arith
lasting-IsTemporary AuthError.unowned h t = ground arith
lasting-IsTemporary (AuthError.registry e) h t = ground arith
lasting-IsTemporary (AuthError.fed e) h t = t
lasting-IsTemporary AuthError.not_owner h t = t
lasting-IsTemporary AuthError.stale_epoch h t = t
lasting-IsTemporary AuthError.scope_mismatch h t = t

module _ {Payload Event Key FedError : Type 0} (field : Payload → Text → Option ℕ)
    (peek : Event → Result FedError (SignedPart Payload))
    (from_hex : ℕ → Text → Result FedError Key) (verify : Verifier Payload Event Key FedError)
    (decode : Text → ChangeOp → Payload → Option Row) (registry : RegistryState) where
  -- The gate, with the parents as the store has them.
  abbrev pub Verdict : Type 0
  Verdict = Result (AuthError FedError) (SignedPart Payload)

  abbrev pub gate : Inner → Event → Verdict
  gate s event =
      authorize field peek from_hex verify (proposal_server s) (message_server s) registry event

  pub data Handles (s : Inner) (event : Event) : Inner → Type 0 where
    is_applied :
        (part : SignedPart Payload) (row : Row) (t : Inner)
        → gate s event ≡ ok part
        → decode part.entity part.op part.payload ≡ some row
        → apply_row s part.op row ≡ some t
        → Handles s event t
    is_unreadable :
        (part : SignedPart Payload)
        → gate s event ≡ ok part
        → decode part.entity part.op part.payload ≡ none
        → Handles s event s
    is_failed :
        (part : SignedPart Payload) (row : Row)
        → gate s event ≡ ok part
        → decode part.entity part.op part.payload ≡ some row
        → apply_row s part.op row ≡ none
        → Handles s event s
    is_refused :
        (why : AuthError FedError) → gate s event ≡ err why → ¬ IsTemporary why → Handles s event s

  -- The events one after the other, each against the store that the ones before it left.
  pub data HandlesAll : Inner → List Event → Inner → Type 0 where
    no_more : {s : Inner} → HandlesAll s [] s
    and_next :
        {s t u : Inner} {event : Event} {events : List Event}
        → Handles s event t
        → HandlesAll t events u
        → HandlesAll s (event ∷ events) u

  pub Handles-applied :
      (x : Intake FedError) (event : Event) (part : SignedPart Payload)
      → gate x.store event ≡ ok part
      → Handles x.store event
          (applied_or field peek from_hex verify decode registry x
            (apply_incoming field peek from_hex verify decode registry x.store part)).store
  unfolding apply_incoming
  Handles-applied x event part g = elim (Option-cases (decode part.entity part.op part.payload)) [
    | inl e ↦ rw (apply_incoming, e) (is_unreadable part g e)
    | inr (row, e) ↦ elim (Option-cases (apply_row x.store part.op row)) [
      | inl f ↦ rw (apply_incoming, e, f) (is_failed part row g e f)
      | inr (t, f) ↦ rw (apply_incoming, e, f) (is_applied part row t g e f)
    ]
  ]
