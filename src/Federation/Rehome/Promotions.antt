-- ===== src/Federation/Rehome/Promotions.antt =====
-- What a node that takes over a scope may rely on, and what it changes.
use democrachat.Federation.Registry.{
  OwnedScope, RegistryState, ownership_of, is_owner, scope_eq, scope_beq_iff, owner_of, claim,
  release, standbys, set_standby, set_rehoming, publish_key, report_load, can_rehome, or_empty,
  scope_beq,
}
use democrachat.Federation.Registry.Fencing.{RegistryAction, serve, serve_all, top}
use democrachat.Federation.Rehome.{
  RehomeOutcome, promoted, choose_new_owner, choose_new_standby, live_nodes, protect, consider,
  still_owned,
}
use democrachat.Prelude.{
  ℕ, ◌≡◌, ◌≢◌, refl, Bool-cases, Option-cases, inl, inr, true, false, Option, none, some, List, [],
  ◌∷◌, All, contains, nat_beq, nat_beq_iff, nat_eq, list_eq, sym, ap, ◌∙◌, arith, if◌then◌else◌,
  pair_eq, triple_eq, ◌++◌,
}
use democrachat.Prelude.Maps.{get, get-insert, get-remove, Map, insert}
use democrachat.Prelude.Std.{u64_add}
use Prim.Native.Nat.{Ordering}
use democrachat.Federation.Registry.Fencing

module _ (scope : OwnedScope) (n e : ℕ) where
  -- The node `n` holds the scope at epoch `e`.
  abbrev pub Owns : RegistryState → Type 0
  Owns r = get scope r.owners ≡ some (n, e)

  pub Owns-claim : (r : RegistryState) (s : OwnedScope) (m : ℕ) → Owns r → Owns (claim r s m).1
  unfolding claim
  Owns-claim r s m h = elim (Option-cases (get s r.owners)) [
    | inr (o, k) ↦ rw (claim, k) h
    | inl free ↦
        let a = get-insert s scope (m, u64_add (top r s) 1) r.owners in
        let c = scope_beq_iff s scope in rw (claim, free) (ground (arith, a, c))
  ]

  Owns-serve :
      (r : RegistryState) (a : RegistryAction)
      → a ≢ Fencing.releases scope n
      → Owns r
      → Owns (serve r a)
  unfolding serve release set_standby set_rehoming publish_key report_load
  Owns-serve r (Fencing.claims s m) kept h = Owns-claim r s m h
  Owns-serve r (Fencing.releases s m) kept h = elim (Bool-cases (is_owner (get s r.owners) m)) [
    | inr k ↦ rw (serve, release, k) h
    | inl k ↦
        let other : s ≢ scope = λ same.
          let by_n : is_owner (some (n, e)) m ≡ true =
            sym (ap (λ o. is_owner o m) (ap (λ t. get t r.owners) same ∙ h)) ∙ k in
          let at = (nat_beq_iff n m).0 by_n in
          kept (ap (λ t. Fencing.releases t m) same ∙ ap (Fencing.releases scope) (sym at)) in
        let c = scope_beq_iff s scope in
        rw (serve, release, k) (ground (arith, get-remove s scope r.owners))
  ]
  Owns-serve r (Fencing.sets_standby s m) kept h = h
  Owns-serve r (Fencing.sets_rehoming s true) kept h = h
  Owns-serve r (Fencing.sets_rehoming s false) kept h =
      elim (Bool-cases (contains r.rehoming_disabled s)) [
        | inl k ↦ rw (serve, set_rehoming, k) h
        | inr k ↦ rw (serve, set_rehoming, k) h
      ]
  Owns-serve r (Fencing.publishes m k) kept h = elim (Option-cases (get m r.keys)) [
    | inl k ↦ rw (serve, publish_key, k) h
    | inr (o, k) ↦ rw (serve, publish_key, k) h
  ]
  Owns-serve r (Fencing.reports m l) kept h = h

  pub Owns-serve_all :
      (r : RegistryState) (history : List RegistryAction)
      → All (λ a. a ≢ Fencing.releases scope n) history
      → Owns r
      → Owns (serve_all r history)
  unfolding serve_all
  Owns-serve_all r [] kept h = h
  Owns-serve_all r (a ∷ rest) kept h =
      Owns-serve_all (serve r a) rest (kept.1) (Owns-serve r a (kept.0) h)

get-insert-other {ℓ} :
    {V : Type ℓ} (s o : OwnedScope) (v : V) (m : Map OwnedScope V)
    → o ≢ s
    → get o (insert s v m) ≡ get o m
get-insert-other s o v m other = elim (Bool-cases (scope_beq s o)) [
  | inl e ↦ absurd (other (sym ((scope_beq_iff s o).0 e)))
  | inr e ↦ get-insert s o v m ∙ rw e refl
]

module _ (partial_cmp : ℕ → ℕ → Option Ordering) (node : ℕ) (seen r : RegistryState)
    (scope : OwnedScope) where
  -- A takeover of `scope` at epoch `e` that leaves the registry as `t`.
  pub record Promotion (s : OwnedScope) (e : ℕ) (t : RegistryState) : Type 0 where
    pub same : s ≡ scope
    pub is_down : owner_of seen scope ≡ none
    pub is_free : owner_of r scope ≡ none
    pub is_allowed : can_rehome seen scope ≡ true
    pub is_best : choose_new_owner partial_cmp (standbys seen scope) (live_nodes seen) ≡ some node
    pub next : e ≡ u64_add (top r scope) 1
    pub owns : get scope t.owners ≡ some (node, e)
    pub others : (o : OwnedScope) → o ≢ scope → get o t.owners ≡ get o r.owners
    pub other_standbys : (o : OwnedScope) → o ≢ scope → standbys t o ≡ standbys r o
    pub same_loads : t.loads ≡ r.loads
    pub same_rules : t.rehoming_disabled ≡ r.rehoming_disabled
    pub same_keys : t.keys ≡ r.keys

  abbrev pub Considered : RehomeOutcome → RegistryState → Type 0
  Considered (promoted s e) t = Promotion s e t
  Considered (still_owned s) t = (owner_of seen s ≢ none) × (t ≡ r)
  Considered _ t = t ≡ r

  ownership_of-none : (q : Option (ℕ × ℕ)) → q ≡ none → ownership_of scope q ≡ none
  ownership_of-none q h = rw h refl

  Promotion-protect :
      (e : ℕ) (t : RegistryState) (sb : Option ℕ)
      → Promotion scope e t
      → Promotion scope e (protect t scope sb)
  unfolding set_standby owner_of
  Promotion-protect e t none h = h
  Promotion-protect e t (some sb) h =
      let list = standbys t scope in
      let list' = if contains list sb then list else list ++ sb ∷ [] in
      let at = λ (o : OwnedScope) (other : o ≢ scope).
        get-insert-other scope o list' t.standby_nodes other in
      record {
        same = h.same;
        is_down = h.is_down;
        is_free = h.is_free;
        is_allowed = h.is_allowed;
        is_best = h.is_best;
        next = h.next;
        owns = h.owns;
        others = h.others;
        other_standbys = λ o other. ap or_empty (at o other) ∙ h.other_standbys o other;
        same_loads = h.same_loads;
        same_rules = h.same_rules;
        same_keys = h.same_keys;
      }

  Considered-claim :
      owner_of seen scope ≡ none
      → can_rehome seen scope ≡ true
      → choose_new_owner partial_cmp (standbys seen scope) (live_nodes seen) ≡ some node
      → get scope r.owners ≡ none
      → Promotion scope (u64_add (top r scope) 1) (claim r scope node).1
  unfolding claim owner_of standbys
  Considered-claim down allowed best free =
      let epoch = u64_add (top r scope) 1 in
      let at = λ (o : OwnedScope). get-insert scope o (node, epoch) r.owners in
      rw (claim, free)
        (record {
          same = refl;
          is_down = down;
          is_free = ownership_of-none _ free;
          is_allowed = allowed;
          is_best = best;
          next = refl;
          owns = ground (arith, at scope, scope_beq_iff scope scope);
          others = λ o other. get-insert-other scope o (node, epoch) r.owners other;
          other_standbys = λ o other. refl;
          same_loads = refl;
          same_rules = refl;
          same_keys = refl;
        })

  claim-held : (o : ℕ × ℕ) → get scope r.owners ≡ some o → (claim r scope node).1 ≡ r
  unfolding claim
  claim-held o g = rw (claim, g) refl

  -- A node takes a scope over only if it has no owner, its community allows it, and the node is the
  -- standby that the rule chooses; it then owns the scope under the epoch after the last one, and no
  -- other scope's owner, no opt-out and no key changes. In every other case the registry is left as
  -- it was. The registry that is read may be older than the one that is written.
  pub Considered-consider :
      Considered
        (consider partial_cmp node seen r scope).0
        (consider partial_cmp node seen r scope).1
  unfolding consider claim
  Considered-consider = elim (Option-cases (owner_of seen scope)) [
    | inr (o, e) ↦ rw (consider, e) ((λ n. absurd (cc)), refl)
    | inl down ↦ elim (Bool-cases (can_rehome seen scope)) [
      | inr e ↦ rw (consider, down, e) refl
      | inl allowed ↦
          elim (Option-cases
            (choose_new_owner partial_cmp (standbys seen scope) (live_nodes seen))) [
              | inl e ↦ rw (consider, down, allowed, e) refl
              | inr (w, e) ↦ elim (Bool-cases (nat_beq w node)) [
                | inr k ↦ rw (consider, down, allowed, e, k) refl
                | inl k ↦ elim (Option-cases (get scope r.owners)) [
                  | inr (o, g) ↦ rw (consider, down, allowed, e, k, claim, g) (claim-held o g)
                  | inl free ↦
                      let best = e ∙ ap some ((nat_beq_iff w node).0 k) in
                      let done = Considered-claim down allowed best free in
                      let sb = choose_new_standby partial_cmp (node ∷ []) (live_nodes seen) in
                      let all = Promotion-protect _ _ sb done in
                      rw (consider, down, allowed, e, k, claim, free) all
                ]
              ]
            ]
    ]
  ]
