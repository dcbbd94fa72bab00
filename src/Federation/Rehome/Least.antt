-- ===== src/Federation/Rehome/Least.antt =====
-- The standby that is chosen is the quietest, whatever the order in which the reports come.
use Prim.Native.Nat.{compare, Ordering}
use democrachat.Prelude.{
  ℕ, ◌<◌, ◌≤◌, ◌≡◌, ◌⊎◌, inl, inr, refl, Option-cases, true, Option, none, some, List, [], ◌∷◌, All,
  find, find-All, find-holds, sym, ap, subst, ◌∙◌, contains, nat_beq, nat_beq_iff, nat_eq, arith,
}
use democrachat.Federation.Rehome.{
  NodeStatus, lesser, least_from, reported, by_load, busier, choose_new_owner, min_by, node_of,
  add_found,
}

-- The bits of a rate that is finite and not negative; among these the order is that of the bits.
abbrev pub IsRate : ℕ → Type 0
IsRate bits = bits < 9218868437227405312

abbrev pub Orders : (ℕ → ℕ → Option Ordering) → Type 0
Orders partial_cmp = (a b : ℕ) → IsRate a → IsRate b → partial_cmp a b ≡ some (compare a b)

abbrev pub Reports : List NodeStatus → Type 0
Reports = All (λ s. IsRate s.load.requests_per_sec)

-- Fewer requests, or as many and fewer scopes, or as many of both and no higher an id.
abbrev pub AtMost : NodeStatus → NodeStatus → Type 0
AtMost a b =
    (a.load.requests_per_sec < b.load.requests_per_sec)
    ⊎ ((a.load.requests_per_sec ≡ b.load.requests_per_sec)
        × ((a.load.hosted_scopes < b.load.hosted_scopes)
            ⊎ ((a.load.hosted_scopes ≡ b.load.hosted_scopes) × (a.node ≤ b.node))))

abbrev pub report_of : List NodeStatus → ℕ → Option NodeStatus
report_of loads n = find (λ s. nat_beq s.node n) loads

abbrev pub AtMostFound : NodeStatus → Option NodeStatus → Type 0
AtMostFound s none = Unit {0}
AtMostFound s (some t) = AtMost s t

-- What the choice among `nodes` is, given the reports.
abbrev pub Chosen : List ℕ → List NodeStatus → Option ℕ → Type 0
Chosen nodes loads none = All (λ sb. report_of loads sb ≡ none) nodes
Chosen nodes loads (some w) =
    (contains nodes w ≡ true)
    × ((s : NodeStatus) × (report_of loads w ≡ some s)
        × All (λ sb. AtMostFound s (report_of loads sb)) nodes)

AtMost-trans : (a b c : NodeStatus) → AtMost a b → AtMost b c → AtMost a c
AtMost-trans a b c h k = omega arith

lesser-holds {ℓ} :
    (P : NodeStatus → Type ℓ) (o : Ordering) (a b : NodeStatus) → P a → P b → P (lesser o a b)
lesser-holds P Ordering.gt a b h k = k
lesser-holds P Ordering.lt a b h k = h
lesser-holds P Ordering.eq a b h k = h

module _ (partial_cmp : ℕ → ℕ → Option Ordering) (orders : Orders partial_cmp) where
  AtMost-lesser :
      (a b : NodeStatus)
      → IsRate a.load.requests_per_sec
      → IsRate b.load.requests_per_sec
      → AtMost (lesser (by_load partial_cmp a b) a b) a
        × AtMost (lesser (by_load partial_cmp a b) a b) b
  unfolding by_load busier
  AtMost-lesser a b h k =
      rw (by_load, busier, orders a.load.requests_per_sec b.load.requests_per_sec h k)
        (ground arith)

  least_from-holds {ℓ} :
      (P : NodeStatus → Type ℓ) (a : NodeStatus) (l : List NodeStatus)
      → P a
      → All P l
      → P (least_from (by_load partial_cmp) a l)
  least_from-holds P a [] h t = h
  least_from-holds P a (b ∷ l) h t =
      least_from-holds P (lesser (by_load partial_cmp a b) a b) l (lesser-holds P _ a b h t.0) t.1

  AtMost-least_from :
      (a : NodeStatus) (l : List NodeStatus)
      → IsRate a.load.requests_per_sec
      → Reports l
      → AtMost (least_from (by_load partial_cmp) a l) a
        × All (AtMost (least_from (by_load partial_cmp) a l)) l
  AtMost-least_from a [] h t = (inr (refl, inr (refl, omega arith)), tt)
  AtMost-least_from a (b ∷ l) h t =
      let c = lesser (by_load partial_cmp a b) a b in
      let (la, lb) = AtMost-lesser a b h t.0 in
      let m = least_from (by_load partial_cmp) c l in
      let c_rate : IsRate c.load.requests_per_sec =
        least_from-holds (λ s. IsRate s.load.requests_per_sec) a (b ∷ []) h (t.0, tt) in
      let (mc, ml) = AtMost-least_from c l c_rate t.1 in
      (AtMost-trans m c a mc la, (AtMost-trans m c b mc lb, ml))

module _ (loads : List NodeStatus) where
  All-reported {ℓ} :
      (P : NodeStatus → Type ℓ) (nodes : List ℕ)
      → ((sb : ℕ) (s : NodeStatus) → contains nodes sb ≡ true → report_of loads sb ≡ some s → P s)
      → All P (reported nodes loads)
  All-reported P [] h = tt
  All-reported P (sb ∷ rest) h =
      let ih = All-reported P rest (λ n s c e. h n s (ground arith) e) in
      elim (Option-cases (report_of loads sb)) [
        | inl e ↦ rw e ih
        | inr (s, e) ↦ rw e (h sb s (ground arith) e, ih)
      ]

  reported-bound :
      (m : NodeStatus) (nodes : List ℕ)
      → All (AtMost m) (reported nodes loads)
      → All (λ sb. AtMostFound m (report_of loads sb)) nodes
  reported-bound m [] t = tt
  reported-bound m (sb ∷ rest) t = elim (Option-cases (report_of loads sb)) [
    | inl e ↦
        let u : All (AtMost m) (reported rest loads) =
          subst (λ o. All (AtMost m) (add_found o (reported rest loads))) e t in
        (rw e tt, reported-bound m rest u)
    | inr (s, e) ↦
        let u : All (AtMost m) (s ∷ reported rest loads) =
          subst (λ o. All (AtMost m) (add_found o (reported rest loads))) e t in
        (rw e (u.0), reported-bound m rest (u.1))
  ]

  reported-none :
      (nodes : List ℕ) → reported nodes loads ≡ [] → All (λ sb. report_of loads sb ≡ none) nodes
  reported-none [] t = tt
  reported-none (sb ∷ rest) t = elim (Option-cases (report_of loads sb)) [
    | inl e ↦ (e, reported-none rest (sym (ap (λ o. add_found o (reported rest loads)) e) ∙ t))
    | inr (s, e) ↦
        let u : s ∷ reported rest loads ≡ [] =
          sym (ap (λ o. add_found o (reported rest loads)) e) ∙ t in
        absurd (cc)
  ]

module _ (partial_cmp : ℕ → ℕ → Option Ordering) (orders : Orders partial_cmp)
    (loads : List NodeStatus) (rates : Reports loads) (nodes : List ℕ) where
  found_in : (sb : ℕ) (s : NodeStatus) → report_of loads sb ≡ some s → s.node ≡ sb
  found_in sb s e = (nat_beq_iff _ _).0 (find-holds (λ s. nat_beq s.node sb) loads s e)

  Chosen-min :
      (l : List NodeStatus)
      → reported nodes loads ≡ l
      → Chosen nodes loads (node_of (min_by (by_load partial_cmp) l))
  Chosen-min [] e = reported-none loads nodes e
  Chosen-min (a ∷ l) e =
      let order = by_load partial_cmp in
      let m = least_from order a l in
      let P : NodeStatus → Type 0 =
        λ s. (contains nodes s.node ≡ true) × (report_of loads s.node ≡ some s) in
      let members : All P (a ∷ l) = subst (All P) e (
        All-reported loads P nodes (λ sb s c f.
          let at = found_in sb s f in (ap (contains nodes) at ∙ c, ap (report_of loads) at ∙ f))) in
      let is_rated : Reports (a ∷ l) = subst Reports e (
        All-reported loads (λ s. IsRate s.load.requests_per_sec) nodes
          (λ sb s c f.
            find-All (λ s. IsRate s.load.requests_per_sec) (λ s. nat_beq s.node sb) loads s rates
              f)) in
      let (in_nodes, is_found) =
        least_from-holds partial_cmp orders P a l (members.0) (members.1) in
      let bound = AtMost-least_from partial_cmp orders a l (is_rated.0) (is_rated.1) in
      (in_nodes, (m, is_found, reported-bound loads m nodes (subst (All (AtMost m)) (sym e) bound)))

  -- The new owner of a scope is a standby that has reported its load, and no other standby that has
  -- is quieter; there is none exactly if no standby has reported. The rates are finite and not
  -- negative, and these are compared by their bits.
  pub Chosen-choose_new_owner : Chosen nodes loads (choose_new_owner partial_cmp nodes loads)
  unfolding choose_new_owner
  Chosen-choose_new_owner = Chosen-min (reported nodes loads) refl
