-- ===== src/Federation/Feed/Accepted.antt =====
-- What a node puts on the wire is let in by every node that reads the same registry.
use democrachat.App.Results.{Result, ok}
use democrachat.Federation.Events.{
  Verifier, DerivedScope, SignedPart, authorize, classify, indeterminate, owned, resolve,
  via_message, via_proposal, public_key,
}
use democrachat.Federation.Events.Gate.{authorize_iff}
use democrachat.Federation.Feed.{
  NodeKeypair, draft, mine, offer, offer_all, placed_in, scope_event, sign, sign_feed,
}
use democrachat.Federation.Feed.Cache.{sign_feed-offer_all}
use democrachat.Federation.Registry.{
  OwnedScope, Ownership, RegistryState, is_owner, owner_of, scope_eq,
}
use democrachat.Prelude.{
  Bool, Bool-cases, All, All-take, List, Option, Option-cases, [], arith, inl, inr, list_eq, ltb,
  ltb_iff, nat_eq, pair_eq, refl, retain, some, subst, sym, triple_eq, true, ℕ, ◌<◌, ◌∷◌, ◌≡◌,
}
use democrachat.Prelude.Maps.{get}
use democrachat.Prelude.Std.{Text}
use democrachat.Store.{ChangeRecord, Inner, Row}
use democrachat.Store.Outbox.{changes_since}
use mathlib.Core.List.{Memᴰ}

retain-members {ℓ} :
    {A : Type ℓ} (p : A → Bool) (l whole : List A)
    → ((a : A) → Memᴰ a l → Memᴰ a whole)
    → All (λ a. Memᴰ a whole × (p a ≡ true)) (retain p l)
retain-members p [] whole h = tt
retain-members p (a ∷ l) whole h =
    let rest = retain-members p l whole (λ b m. h b (Memᴰ.tail m)) in
    elim (Bool-cases (p a)) [ inl e ↦ rw e ((h a (Memᴰ.head refl), e), rest) | inr e ↦ rw e rest ]

module _ {Payload Event Key FedError : Type 0} (encode : Row → Payload)
    (field : Payload → Text → Option ℕ) (peek : Event → Result FedError (SignedPart Payload))
    (from_hex : ℕ → Text → Result FedError Key) (verify : Verifier Payload Event Key FedError)
    (proposal_server message_server : ℕ → Option ℕ) (keypair : NodeKeypair Payload Event) where
  -- The part that is signed for a row that this node owns.
  abbrev pub signed_part : ChangeRecord → OwnedScope → ℕ → SignedPart Payload
  signed_part rec scope epoch = record {
    node = keypair.node;
    epoch = epoch;
    seq = rec.seq;
    scope = scope_event scope;
    entity = rec.entity;
    op = rec.op;
    payload = encode rec.payload;
  }

  abbrev pub AcceptsAs : RegistryState → Event → SignedPart Payload → Type 0
  AcceptsAs r event part =
      authorize field peek from_hex verify proposal_server message_server r event ≡ ok part

  -- The event carries a row of the outbox past the peer's position, and is let in as that row.
  abbrev pub Accepted : RegistryState → List ChangeRecord → ℕ → Event → Type 0
  Accepted r outbox after_seq event =
      (rec : ChangeRecord) × (scope : OwnedScope) × (epoch : ℕ) × Memᴰ rec outbox
      × (after_seq < rec.seq)
      × AcceptsAs r event (signed_part rec scope epoch)

  abbrev place : DerivedScope → Option OwnedScope
  place = placed_in encode field proposal_server message_server keypair

  resolve-placed_in :
      (d : DerivedScope) (scope : OwnedScope)
      → place d ≡ some scope
      → resolve field peek from_hex verify proposal_server message_server d ≡ ok scope
  resolve-placed_in (owned x) scope h = ground arith
  resolve-placed_in (via_proposal p) scope h = ground arith
  resolve-placed_in (via_message m) scope h = ground arith
  resolve-placed_in indeterminate scope h = absurd (cc)

  owner-mine :
      (r : RegistryState) (scope : OwnedScope) (epoch : ℕ)
      → mine encode field proposal_server message_server keypair r scope ≡ some epoch
      → (o : Ownership) × (owner_of r scope ≡ some o) × (o.owner ≡ keypair.node) × (o.epoch ≡ epoch)
  unfolding mine
  owner-mine r scope epoch h = elim (Option-cases (owner_of r scope)) [
    | inl e ↦ absurd (ground arith)
    | inr (o, e) ↦ (o, e, ground arith, ground arith)
  ]

  module _ (r : RegistryState) (key : Key) (hex : Text)
      (published : get keypair.node r.keys ≡ some hex)
      (decoded : from_hex keypair.node hex ≡ ok key)
      (peek-seal : (p : SignedPart Payload) → p.node ≡ keypair.node → peek (keypair.seal p) ≡ ok p)
      (verify-seal : (p : SignedPart Payload)
        → p.node ≡ keypair.node
        → (verify.read key (keypair.seal p) ≡ ok p) × (verify.node_of key ≡ p.node)) where
    pub sealed-accepted :
        (rec : ChangeRecord) (scope : OwnedScope) (epoch : ℕ)
        → place (classify field (draft encode field proposal_server message_server keypair rec))
          ≡ some scope
        → mine encode field proposal_server message_server keypair r scope ≡ some epoch
        → AcceptsAs r (keypair.seal (signed_part rec scope epoch)) (signed_part rec scope epoch)
    unfolding classify
    sealed-accepted rec scope epoch at own =
        let part = signed_part rec scope epoch in
        let (o, is_owner, by_me, same) = owner-mine r scope epoch own in
        (authorize_iff field peek from_hex verify proposal_server message_server r
            (keypair.seal part) part).1
          (record {
            named = part;
            key = key;
            scope = scope;
            owner = o;
            is_named = peek-seal part refl;
            is_key = rw (public_key, published, decoded) refl;
            is_signed = (verify-seal part refl).0;
            by_key = (verify-seal part refl).1;
            is_scope = resolve-placed_in (classify field part) scope at;
            is_owner = is_owner;
            by_owner = by_me;
            not_stale = omega (arith, same);
          })

    Accepted-offer_all :
        (outbox : List ChangeRecord) (after_seq : ℕ) (records : List ChangeRecord)
        → All (λ rec. Memᴰ rec outbox × (ltb after_seq rec.seq ≡ true)) records
        → All
            (Accepted r outbox after_seq)
            (offer_all encode field proposal_server message_server keypair r records)
    unfolding offer_all offer sign
    Accepted-offer_all outbox after_seq [] h = tt
    Accepted-offer_all outbox after_seq (rec ∷ records) h =
        let rest = Accepted-offer_all outbox after_seq records h.1 in
        elim (Option-cases (
          place (classify field (draft encode field proposal_server message_server keypair rec)))) [
            | inl e ↦ rw (offer_all, offer, e) rest
            | inr (scope, e) ↦
                elim (Option-cases
                  (mine encode field proposal_server message_server keypair r scope)) [
                    | inl none_mine ↦ rw (offer_all, offer, e, none_mine) rest
                    | inr (epoch, own) ↦
                        rw (offer_all, offer, e, own)
                          (
                            (
                              rec,
                              scope,
                              epoch,
                              h.0.0,
                              (ltb_iff after_seq rec.seq).0 h.0.1,
                              sealed-accepted rec scope epoch e own,
                            ),
                            rest,
                          )
                  ]
          ]

    -- Every event of a node's feed carries a row of its outbox, numbered past the peer's position,
    -- and passes the peer's gate as exactly that row, when the peer reads the same registry and
    -- resolves parents alike. The node's key is published and is of that node, and decoding and
    -- verifying a sealed part gives the part back.
    pub sign_feed-Accepted :
        (s : Inner) (after_seq limit : ℕ)
        → All
            (Accepted r s.outbox after_seq)
            (sign_feed encode field proposal_server message_server keypair r s after_seq limit)
    unfolding changes_since
    sign_feed-Accepted s after_seq limit =
        subst (All (Accepted r s.outbox after_seq))
          (sym (
            sign_feed-offer_all encode field proposal_server message_server keypair r s after_seq
              limit))
          (Accepted-offer_all s.outbox after_seq (changes_since s after_seq limit) (
            All-take (λ rec. Memᴰ rec s.outbox × (ltb after_seq rec.seq ≡ true)) limit
              (retain (λ rec. ltb after_seq rec.seq) s.outbox)
              (retain-members (λ rec. ltb after_seq rec.seq) s.outbox s.outbox (λ rec m. m))))
