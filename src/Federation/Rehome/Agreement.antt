-- ===== src/Federation/Rehome/Agreement.antt =====
-- Nodes that read the same standbys and reports choose the same new owner, in whatever order their
-- maps list them.
use Prim.Native.Nat.{Ordering}
use democrachat.Prelude.{
  ℕ, ◌≡◌, refl, Option, none, some, List, All-contains, contains, nat_beq, nat_beq_iff, nat_eq,
  find-holds, sym, ap, subst, ◌∙◌, arith,
}
use democrachat.Federation.Rehome.{NodeStatus, choose_new_owner}
use democrachat.Federation.Rehome.Least.{
  Orders, Reports, AtMost, AtMostFound, report_of, Chosen, Chosen-choose_new_owner,
}

AtMost-antisym : (a b : NodeStatus) → AtMost a b → AtMost b a → a.node ≡ b.node
AtMost-antisym a b h k = omega arith

module _ (nodes others : List ℕ) (loads reports : List NodeStatus)
    (same_nodes : (n : ℕ) → contains nodes n ≡ contains others n)
    (same_loads : (n : ℕ) → report_of loads n ≡ report_of reports n) where
  Chosen-unique : (v w : Option ℕ) → Chosen nodes loads v → Chosen others reports w → v ≡ w
  Chosen-unique none none h k = refl
  Chosen-unique none (some w) h (member, (s, e, bound)) =
      let absent = All-contains _ nodes w h (same_nodes w ∙ member) in
      absurd (let at = same_loads w in cc)
  Chosen-unique (some v) none (member, (s, e, bound)) k =
      let absent = All-contains _ others v k (sym (same_nodes v) ∙ member) in
      absurd (let at = same_loads v in cc)
  Chosen-unique (some v) (some w) (member, (s, e, bound)) (member', (s', e', bound')) =
      let below =
        subst (AtMostFound s) (same_loads w ∙ e')
          (All-contains _ nodes w bound (same_nodes w ∙ member')) in
      let above =
        subst (AtMostFound s') (sym (same_loads v) ∙ e)
          (All-contains _ others v bound' (sym (same_nodes v) ∙ member)) in
      let at_v = (nat_beq_iff _ _).0 (find-holds (λ s. nat_beq s.node v) loads s e) in
      let at_w = (nat_beq_iff _ _).0 (find-holds (λ s. nat_beq s.node w) reports s' e') in
      ap some (sym at_v ∙ AtMost-antisym s s' below above ∙ at_w)

-- Two nodes that find the same standbys and the same report of each node choose the same new owner,
-- in whatever order they list them. The reported rates are finite and not negative, and these are
-- compared by their bits.
pub choose_new_owner_agreed :
    (partial_cmp : ℕ → ℕ → Option Ordering) (nodes others : List ℕ)
    (loads reports : List NodeStatus)
    → Orders partial_cmp
    → Reports loads
    → Reports reports
    → ((n : ℕ) → contains nodes n ≡ contains others n)
    → ((n : ℕ) → report_of loads n ≡ report_of reports n)
    → choose_new_owner partial_cmp nodes loads ≡ choose_new_owner partial_cmp others reports
choose_new_owner_agreed partial_cmp nodes others loads reports orders rates rates' same same' =
    Chosen-unique nodes others loads reports same same' _ _
      (Chosen-choose_new_owner partial_cmp orders loads rates nodes)
      (Chosen-choose_new_owner partial_cmp orders reports rates' others)
