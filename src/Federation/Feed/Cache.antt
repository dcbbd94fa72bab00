-- ===== src/Federation/Feed/Cache.antt =====
-- The cache of epochs changes nothing.
use democrachat.Federation.Events.{classify}
use democrachat.Federation.Feed.{
  stamped, NodeKeypair, mine, draft, offer_all, placed_in, sign_feed, sign_records, offer,
  and_event, looked_up,
}
use democrachat.Federation.Registry.{OwnedScope, RegistryState, scope_beq_iff, scope_eq}
use democrachat.Prelude.{
  Bool-cases, Option, ap, inl, inr, list_eq, nat_eq, none, pair_eq, refl, some, sym, triple_eq, ℕ,
  ◌==◌, ◌∙◌, ◌≡◌, List, Option-cases, [], ◌∷◌,
}
use democrachat.Prelude.Maps.{Map, get, get-insert, insert}
use democrachat.Prelude.Std.{Text}
use democrachat.Store.{Row, ChangeRecord, Inner}
use democrachat.Store.Outbox.{changes_since}

module _ {Payload Event : Type 0} (encode : Row → Payload) (field : Payload → Text → Option ℕ)
    (proposal_server message_server : ℕ → Option ℕ) (keypair : NodeKeypair Payload Event) where
  abbrev epoch_of : RegistryState → OwnedScope → Option ℕ
  epoch_of = mine encode field proposal_server message_server keypair

  -- The cache holds what the registry says.
  abbrev Cached : RegistryState → Map OwnedScope (Option ℕ) → Type 0
  Cached r cache =
      (scope : OwnedScope) (e : Option ℕ) → get scope cache ≡ some e → e ≡ epoch_of r scope

  some_eq : {A : Type 0} {a b : A} → ◌≡◌ {A = Option A} (some a) (some b) → a ≡ b
  some_eq {a} h = ap (λ o. elim o [ none ↦ a | some x ↦ x ]) h

  Cached-insert :
      (r : RegistryState) (cache : Map OwnedScope (Option ℕ)) (scope : OwnedScope)
      → Cached r cache
      → Cached r (insert scope (epoch_of r scope) cache)
  Cached-insert r cache scope h other e found = elim (Bool-cases (scope == other)) [
    | inl same ↦
        let at = (scope_beq_iff scope other).0 same in
        let here : some (epoch_of r scope) ≡ some e =
          sym (rw (get-insert scope other (epoch_of r scope) cache, same) refl) ∙ found in
        sym (some_eq here) ∙ ap (epoch_of r) at
    | inr differs ↦
        h other e (sym (rw (get-insert scope other (epoch_of r scope) cache, differs) refl) ∙ found)
  ]

  abbrev at : ChangeRecord → Option OwnedScope
  at rec =
      placed_in encode field proposal_server message_server keypair
        (classify field (draft encode field proposal_server message_server keypair rec))

  abbrev signed_with : RegistryState → Map OwnedScope (Option ℕ) → List ChangeRecord → List Event
  signed_with = sign_records encode field proposal_server message_server keypair

  abbrev offered_by : RegistryState → List ChangeRecord → List Event
  offered_by = offer_all encode field proposal_server message_server keypair

  abbrev looked :
      RegistryState → Map OwnedScope (Option ℕ) → OwnedScope → Option ℕ × Map OwnedScope (Option ℕ)
  looked = looked_up encode field proposal_server message_server keypair

  looked_up-Cached :
      (r : RegistryState) (cache : Map OwnedScope (Option ℕ)) (scope : OwnedScope)
      → Cached r cache
      → ((looked r cache scope).0 ≡ epoch_of r scope) × Cached r (looked r cache scope).1
  looked_up-Cached r cache scope h = elim (Option-cases (get scope cache)) [
    | inl new ↦ rw (looked_up, new) (refl, Cached-insert r cache scope h)
    | inr (epoch, found) ↦ rw (looked_up, found) (h scope epoch found, h)
  ]

  sign_records-Cached :
      (r : RegistryState) (cache : Map OwnedScope (Option ℕ)) (records : List ChangeRecord)
      → Cached r cache
      → signed_with r cache records ≡ offered_by r records
  unfolding sign_records offer_all offer
  sign_records-Cached r cache [] h = refl
  sign_records-Cached r cache (rec ∷ records) h = elim (Option-cases (at rec)) [
    | inl e ↦ rw (sign_records, offer_all, offer, e) (sign_records-Cached r cache records h)
    | inr (scope, e) ↦
        let found = looked_up-Cached r cache scope h in
        let rest = sign_records-Cached r (looked r cache scope).1 records found.1 in
        rw (sign_records, offer_all, offer, e)
          (λ i.
            and_event encode field proposal_server message_server keypair
              (stamped encode field proposal_server message_server keypair
                (draft encode field proposal_server message_server keypair rec) scope (found.0 i))
              (rest i))
  ]

  -- The feed is what each row after the peer's position brings by itself, in the order of the
  -- outbox and up to the limit: looking each scope's owner up once for the batch changes nothing.
  pub sign_feed-offer_all :
      (r : RegistryState) (s : Inner) (after_seq limit : ℕ)
      → sign_feed encode field proposal_server message_server keypair r s after_seq limit
        ≡ offered_by r (changes_since s after_seq limit)
  unfolding sign_feed get
  sign_feed-offer_all r s after_seq limit =
      sign_records-Cached r [] (changes_since s after_seq limit) (λ scope e h. absurd (cc))
