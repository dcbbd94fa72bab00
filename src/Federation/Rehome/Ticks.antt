-- ===== src/Federation/Rehome/Ticks.antt =====
-- Races between nodes that would take over a scope, and a node's tick over many scopes.
use democrachat.Federation.Registry.{
  OwnedScope, RegistryState, owner_of, ownership_of, scope_eq, can_rehome, claim, scope_beq_iff,
  standbys, scope_beq, set_standby,
}
use democrachat.Federation.Registry.Fencing.{RegistryAction, serve_all, top}
use democrachat.Federation.Rehome.{
  RehomeOutcome, consider, promoted, rehoming_off, still_owned, stranded, tick, yielded,
  choose_new_owner, choose_new_standby, live_nodes, protect,
}
use democrachat.Federation.Rehome.Promotions.{Considered, Considered-consider, Owns, Owns-serve_all}
use democrachat.Prelude.{
  All, List, Option, [], ap, list_eq, nat_eq, none, pair_eq, some, subst, sym, triple_eq, ℕ, ◌∙◌,
  ◌∷◌, ◌≡◌, ◌≢◌, arith, beq_refl, contains, not, true, Bool-cases, Option-cases, inl, inr,
}
use democrachat.Prelude.Maps.{get, get-insert}
use democrachat.Prelude.Std.{u64_add}
use democrachat.Federation.Registry.Fencing
use Prim.Native.Nat.{Ordering}

module _ (partial_cmp : ℕ → ℕ → Option Ordering) where
  module _ (scope : OwnedScope) (n e : ℕ) where
    ownership-clash :
        (s : OwnedScope) (r : RegistryState)
        → owner_of r s ≡ none
        → get s r.owners ≡ some (n, e)
        → ⊥
    unfolding owner_of
    ownership-clash s r free own = let found = ap (ownership_of s) own in cc

    Owns-after :
        (node : ℕ) (seen r t : RegistryState) (s : OwnedScope) (o : RehomeOutcome)
        → Considered partial_cmp node seen r s o t
        → Owns scope n e r
        → Owns scope n e t
    Owns-after node seen r t s (still_owned x) h own = subst (Owns scope n e) (sym h.1) own
    Owns-after node seen r t s (yielded x to) h own = subst (Owns scope n e) (sym h) own
    Owns-after node seen r t s (stranded x) h own = subst (Owns scope n e) (sym h) own
    Owns-after node seen r t s (rehoming_off x) h own = subst (Owns scope n e) (sym h) own
    Owns-after node seen r t s (promoted x epoch) h own =
        h.others scope (λ same.
          let free = h.is_free in
          let held = ap (λ o. get o r.owners) same in ownership-clash s r free (sym held ∙ own))
        ∙ own

    Owns-consider :
        (node : ℕ) (seen r : RegistryState) (s : OwnedScope)
        → Owns scope n e r
        → Owns scope n e (consider partial_cmp node seen r s).1
    Owns-consider node seen r s own =
        Owns-after node seen r _ s _ (Considered-consider partial_cmp node seen r s) own

    Owns-tick :
        (node : ℕ) (r : RegistryState) (l : List OwnedScope)
        → Owns scope n e r
        → Owns scope n e (tick partial_cmp node r l).1
    unfolding tick
    Owns-tick node r [] own = own
    Owns-tick node r (s ∷ rest) own =
        Owns-tick node (consider partial_cmp node r r s).1 rest (Owns-consider node r r s own)

  -- Once a node has taken a scope over, no node that considers the scope later takes it away, even
  -- one that read the registry earlier, whatever else the registry is asked in between, as long as
  -- the owner does not release the scope.
  pub consider-stands :
      (n m : ℕ) (seen read r : RegistryState) (scope : OwnedScope) (e : ℕ)
      (history : List RegistryAction)
      → (consider partial_cmp n seen r scope).0 ≡ promoted scope e
      → All (λ a. a ≢ Fencing.releases scope n) history
      → owner_of
          (consider partial_cmp m read
            (serve_all (consider partial_cmp n seen r scope).1 history)
            scope).1
          scope
        ≡ some (record { scope = scope; owner = n; epoch = e })
  unfolding owner_of
  consider-stands n m seen read r scope e history h kept =
      let first =
        subst (λ o. Considered partial_cmp n seen r scope o (consider partial_cmp n seen r scope).1)
          h (Considered-consider partial_cmp n seen r scope) in
      let later = Owns-serve_all scope n e _ history kept (first.owns) in
      ap (ownership_of scope) (Owns-consider scope n e m read _ scope later)

module _ (partial_cmp : ℕ → ℕ → Option Ordering) (node : ℕ) (scope : OwnedScope) where
  -- The scope is down, and is this node's to take over.
  record IsWaiting (r : RegistryState) : Type 0 where
    down : get scope r.owners ≡ none
    allowed : can_rehome r scope ≡ true
    best : choose_new_owner partial_cmp (standbys r scope) (live_nodes r) ≡ some node

  abbrev IsOurs : RegistryState → Type 0
  IsOurs r = (e : ℕ) × Owns scope node e r

  Owns-protect :
      (e : ℕ) (t : RegistryState) (sb : Option ℕ)
      → Owns scope node e t
      → Owns scope node e (protect t scope sb)
  unfolding set_standby
  Owns-protect e t none own = own
  Owns-protect e t (some sb) own = own

  IsOurs-consider :
      (r : RegistryState) → IsWaiting r → IsOurs (consider partial_cmp node r r scope).1
  unfolding consider claim owner_of
  IsOurs-consider r h =
      let epoch = u64_add (top r scope) 1 in
      let own : Owns scope node epoch (claim r scope node).1 =
        rw (claim, h.down)
          (ground
            (arith, get-insert scope scope (node, epoch) r.owners, scope_beq_iff scope scope)) in
      let sb = choose_new_standby partial_cmp (node ∷ []) (live_nodes r) in
      (
        epoch,
        rw (consider, owner_of, h.down, h.allowed, h.best, beq_refl node, claim, h.down)
            (Owns-protect epoch (claim r scope node).1 sb own),
      )

  IsWaiting-after :
      (r t : RegistryState) (s : OwnedScope) (o : RehomeOutcome)
      → s ≢ scope
      → Considered partial_cmp node r r s o t
      → IsWaiting r
      → IsWaiting t
  unfolding can_rehome live_nodes
  IsWaiting-after r t s (still_owned x) other h w = subst IsWaiting (sym h.1) w
  IsWaiting-after r t s (yielded x to) other h w = subst IsWaiting (sym h) w
  IsWaiting-after r t s (stranded x) other h w = subst IsWaiting (sym h) w
  IsWaiting-after r t s (rehoming_off x) other h w = subst IsWaiting (sym h) w
  IsWaiting-after r t s (promoted x epoch) other h w =
      let apart = λ (e : scope ≡ s). other (sym e) in
      record {
        down = h.others scope apart ∙ w.down;
        allowed = ap (λ l. not (contains l scope)) h.same_rules ∙ w.allowed;
        best = rw (h.other_standbys scope apart, live_nodes, h.same_loads) w.best;
      }

  IsOurs-tick :
      (r : RegistryState) (l : List OwnedScope)
      → contains l scope ≡ true
      → IsWaiting r
      → IsOurs (tick partial_cmp node r l).1
  unfolding tick
  IsOurs-tick r [] listed w = absurd (cc)
  IsOurs-tick r (s ∷ rest) listed w =
      let t = (consider partial_cmp node r r s).1 in
      elim (Bool-cases (scope_beq s scope)) [
        | inl e ↦
            let same = (scope_beq_iff s scope).0 e in
            let (epoch, own) =
              subst (λ o. IsOurs (consider partial_cmp node r r o).1) (sym same)
                (IsOurs-consider r w) in
            (epoch, Owns-tick partial_cmp scope node epoch node t rest own)
        | inr e ↦
            let other : s ≢ scope = λ same. absurd (ground (arith, scope_beq_iff s scope)) in
            IsOurs-tick t rest (ground arith)
              (IsWaiting-after r t s _ other (Considered-consider partial_cmp node r r s) w)
      ]

  no_owner : (r : RegistryState) → owner_of r scope ≡ none → get scope r.owners ≡ none
  unfolding owner_of
  no_owner r h = elim (Option-cases (get scope r.owners)) [
    | inl e ↦ e
    | inr (o, e) ↦ absurd (let found = ap (ownership_of scope) e in cc)
  ]

  -- A tick takes over each scope of its list that is down, may be rehomed, and has this node as its
  -- quietest standby: at the end of the tick the node owns it.
  pub tick_rehomes :
      (r : RegistryState) (candidates : List OwnedScope)
      → contains candidates scope ≡ true
      → owner_of r scope ≡ none
      → can_rehome r scope ≡ true
      → choose_new_owner partial_cmp (standbys r scope) (live_nodes r) ≡ some node
      → (e : ℕ) × (owner_of (tick partial_cmp node r candidates).1 scope
          ≡ some (record { scope = scope; owner = node; epoch = e }))
  unfolding owner_of
  tick_rehomes r candidates listed down allowed best =
      let (e, own) =
        IsOurs-tick r candidates listed
          (record { down = no_owner r down; allowed = allowed; best = best }) in
      (e, ap (ownership_of scope) own)
