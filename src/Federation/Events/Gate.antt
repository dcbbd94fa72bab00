-- ===== src/Federation/Events/Gate.antt =====
-- What passes the gate: an event that the current owner of its row's scope signed, under an epoch
-- that is not stale.
use democrachat.App.Results.{Result-cases, Holds, of_Holds, ok_inj, Result, ok}
use democrachat.Federation.Events.{
  Verifier, SignedPart, AuthError, classify, public_key, resolve, authorize,
}
use democrachat.Federation.Registry.{OwnedScope, RegistryState, Ownership, owner_of}
use democrachat.Federation.Registry.Fencing.{RegistryAction, serve_all, serve_all_fenced, top}
use democrachat.Prelude.{
  nat_beq_iff, ltb-false_iff, ◌≢◌, ℕ, ◌+◌, ◌≤◌, ◌<◌, ◌≡◌, ◌↔◌, inl, inr, refl, ap, subst, sym, ◌∙◌,
  Bool-cases, Option-cases, Option, none, some, List, length, arith, nat_beq, ltb, nat_eq, list_eq,
  pair_eq, triple_eq,
}
use democrachat.Prelude.Std.{Text, u64_mod}

some_inj : {A : Type 0} {a b : A} → ◌≡◌ {A = Option A} (some a) (some b) → a ≡ b
some_inj {a} h = ap (λ o. elim o [ none ↦ a | some x ↦ x ]) h

module _ {Payload Event Key FedError : Type 0} (field : Payload → Text → Option ℕ)
    (peek : Event → Result FedError (SignedPart Payload))
    (from_hex : ℕ → Text → Result FedError Key) (verify : Verifier Payload Event Key FedError)
    (proposal_server message_server : ℕ → Option ℕ) where
  abbrev pub scope_of : SignedPart Payload → Result (AuthError FedError) OwnedScope
  scope_of part =
      resolve field peek from_hex verify proposal_server message_server (classify field part)

  abbrev key_of : RegistryState → ℕ → Result FedError (Option Key)
  key_of = public_key field peek from_hex verify proposal_server message_server

  abbrev pub gate : RegistryState → Event → Result (AuthError FedError) (SignedPart Payload)
  gate = authorize field peek from_hex verify proposal_server message_server

  -- The event is signed with the published key of the node that it names, which is the key of the
  -- node that the signed part names, and that node owns the scope of the row, under an epoch no later than the event's.
  pub record Passes (r : RegistryState) (event : Event) (part : SignedPart Payload) : Type 0 where
    pub named : SignedPart Payload
    pub key : Key
    pub scope : OwnedScope
    pub owner : Ownership
    pub is_named : peek event ≡ ok named
    pub is_key : key_of r named.node ≡ ok (some key)
    pub is_signed : verify.read key event ≡ ok part
    pub by_key : verify.node_of key ≡ part.node
    pub is_scope : scope_of part ≡ ok scope
    pub is_owner : owner_of r scope ≡ some owner
    pub by_owner : owner.owner ≡ part.node
    pub not_stale : owner.epoch ≤ part.epoch

  authorize-Holds : (r : RegistryState) (event : Event) → Holds (Passes r event) (gate r event)
  unfolding authorize
  authorize-Holds r event = elim (Result-cases (peek event)) [
    | inl (x, e) ↦ rw (authorize, e) tt
    | inr (claimed, ec) ↦ elim (Result-cases (key_of r claimed.node)) [
      | inl (x, e) ↦ rw (authorize, ec, e) tt
      | inr (none, ek) ↦ rw (authorize, ec, ek) tt
      | inr (some key, ek) ↦ elim (Result-cases (verify.read key event)) [
        | inl (x, e) ↦ rw (authorize, ec, ek, e) tt
        | inr (part, ep) ↦ elim (Bool-cases (nat_beq (verify.node_of key) part.node)) [
          | inr e ↦ rw (authorize, ec, ek, ep, e) tt
          | inl eb ↦ elim (Result-cases (scope_of part)) [
            | inl (x, e) ↦ rw (authorize, ec, ek, ep, eb, e) tt
            | inr (scope, es) ↦ elim (Option-cases (owner_of r scope)) [
              | inl e ↦ rw (authorize, ec, ek, ep, eb, es, e) tt
              | inr (owner, eo) ↦ elim (Bool-cases (nat_beq owner.owner part.node)) [
                | inr e ↦ rw (authorize, ec, ek, ep, eb, es, eo, e) tt
                | inl en ↦ elim (Bool-cases (ltb part.epoch owner.epoch)) [
                  | inl e ↦ rw (authorize, ec, ek, ep, eb, es, eo, en, e) tt
                  | inr e ↦
                      rw (authorize, ec, ek, ep, eb, es, eo, en, e)
                        (record {
                          named = claimed;
                          key = key;
                          scope = scope;
                          owner = owner;
                          is_named = ec;
                          is_key = ek;
                          is_signed = ep;
                          by_key = (nat_beq_iff (verify.node_of key) part.node).0 eb;
                          is_scope = es;
                          is_owner = eo;
                          by_owner = (nat_beq_iff owner.owner part.node).0 en;
                          not_stale = (ltb-false_iff part.epoch owner.epoch).0 e;
                        })
                ]
              ]
            ]
          ]
        ]
      ]
    ]
  ]

  -- An event passes the gate, as the part that its signature covers, exactly when it is signed with
  -- the published key of the node it names, that key is the key of the node the part names, the scope
  -- of the part's row has an owner, that owner is the node the part names, and the part's epoch is not
  -- before the owner's.
  pub authorize_iff :
      (r : RegistryState) (event : Event) (part : SignedPart Payload)
      → (gate r event ≡ ok part) ↔ Passes r event part
  unfolding authorize
  authorize_iff r event part = (
    of_Holds (Passes r event) (gate r event) part (authorize-Holds r event),
    λ p.
        let same = (nat_beq_iff p.owner.owner part.node).1 p.by_owner in
        let fresh = (ltb-false_iff part.epoch p.owner.epoch).1 p.not_stale in
        let its_own = (nat_beq_iff (verify.node_of p.key) part.node).1 p.by_key in
        rw
          (
            authorize, p.is_named, p.is_key, p.is_signed, its_own, p.is_scope, p.is_owner, same,
            fresh,
          )
          refl,
  )

  -- After any history of requests to the registry that leaves a scope with another owner than before,
  -- no event on that scope under the epoch of before, or an earlier one, passes the gate, whoever
  -- signs it. The epoch of before is no later than the last one given out for the scope, and the
  -- requests are too few to exhaust 64 bits.
  pub authorize_fenced :
      (r : RegistryState) (history : List RegistryAction) (scope : OwnedScope) (o p : Ownership)
      → (event : Event) (part : SignedPart Payload) → owner_of r scope ≡ some o
      → o.epoch ≤ top r scope
      → top r scope + length history < u64_mod
      → owner_of (serve_all r history) scope ≡ some p
      → p.owner ≢ o.owner
      → scope_of part ≡ ok scope
      → part.epoch ≤ o.epoch
      → gate (serve_all r history) event ≢ ok part
  authorize_fenced r history scope o p event part h reached small k other es old g =
      let passes = (authorize_iff (serve_all r history) event part).0 g in
      let same_scope = ok_inj (sym passes.is_scope ∙ es) in
      let same_owner : passes.owner ≡ p = some_inj (
        sym passes.is_owner
        ∙ (subst (λ x. owner_of (serve_all r history) x ≡ some p) (sym same_scope) k)) in
      let bound = subst (λ (x : Ownership). x.epoch ≤ part.epoch) same_owner passes.not_stale in
      elim (serve_all_fenced r scope o p history h reached small k) [
        | inl (a, b) ↦ other a
        | inr later ↦ absurd (omega arith)
      ]
