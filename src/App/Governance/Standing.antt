-- ===== src/App/Governance/Standing.antt =====
-- No ballot hands out the franchise: resolving proposals leaves every member's tier alone.
use democrachat.Prelude.{
  ◌&&◌, not, Bool-cases, ℕ, ◌≡◌, refl, Option, none, some, List, [], ◌∷◌, arith, pair_eq, nat_eq,
  Option-cases, inl, inr,
}
use democrachat.Prelude.Std.{Text, trim}
use democrachat.Prelude.Int.{leb_ℤ}
use democrachat.Domain.Time.{Timestamp}
use democrachat.Domain.Membership.{Membership}
use democrachat.Domain.Server.{Server, Phase}
use democrachat.Domain.Governance
use democrachat.Domain.Governance.{ProposalKind, Proposal}
use democrachat.Store.{Inner, get_membership, put_server, find_by_slug}
use democrachat.Store.Content.{
  next_channel_id, insert_channel, remove_channel, next_rule_id, insert_rule, remove_rule,
  next_role_id, insert_role, remove_role, assign, unassign,
}
use democrachat.Store.Votes.{put_proposal}
use democrachat.Store.Members.{
  Keyed, SameStanding, Keeps, Keeps-refl, Keeps-trans, Keeps-of_eq, Keeps-upsert,
}
use democrachat.App.Governance.{
  matured, is_open, with_membership, with_server, apply_kind, apply_effect, close_due, apply_due,
  resolve_one, resolve_each, resolve_due,
}

Keeps-with_membership :
    (s : Inner) (u v : ℕ) (change : Membership → Membership)
    → ((m : Membership)
        → ((change m).user_id ≡ m.user_id)
          × ((change m).server_id ≡ m.server_id)
          × ((change m).tier ≡ m.tier)
          × ((change m).enfranchised_at ≡ m.enfranchised_at))
    → Keeps s (with_membership s (get_membership s u v) change)
Keeps-with_membership s u v change same = elim (Option-cases (get_membership s u v)) [
  | inl e ↦ rw e (Keeps-refl s)
  | inr (m, e) ↦
      rw e (Keeps-upsert s u v m (change m) e (same m).0 (same m).1 (same m).2 (same m).3)
]

Keeps-with_server :
    (s : Inner) (o : Option Server) (change : Server → Server) → Keeps s (with_server s o change)
unfolding put_server
Keeps-with_server s none change = Keeps-refl s
Keeps-with_server s (some v) change = Keeps-of_eq s _ refl

Keeps-put_proposal : (s : Inner) (p : Proposal) → Keeps s (put_proposal s p)
unfolding put_proposal
Keeps-put_proposal s p = Keeps-of_eq s _ refl

Keeps-apply_kind :
    (lower : Text → Text) (s : Inner) (sid : ℕ) (now : Timestamp) (kind : ProposalKind)
    → Keeps s (apply_kind lower s sid now kind)
unfolding apply_kind next_channel_id insert_channel remove_channel next_rule_id insert_rule
    remove_rule next_role_id insert_role remove_role assign unassign
Keeps-apply_kind lower s sid now (Governance.create_channel raw topic) =
    Keeps-of_eq s _ (ground arith)
Keeps-apply_kind lower s sid now (Governance.delete_channel raw) = Keeps-of_eq s _ (ground arith)
Keeps-apply_kind lower s sid now (Governance.add_rule text) = Keeps-of_eq s _ refl
Keeps-apply_kind lower s sid now (Governance.remove_rule rule) = Keeps-of_eq s _ (ground arith)
Keeps-apply_kind lower s sid now (Governance.ban user) =
    Keeps-with_membership s user sid _ (λ m. (refl, refl, refl, refl))
Keeps-apply_kind lower s sid now (Governance.timeout user until) =
    Keeps-with_membership s user sid _ (λ m. (refl, refl, refl, refl))
Keeps-apply_kind lower s sid now (Governance.set_governance_surface enabled) =
    Keeps-with_server s _ _
Keeps-apply_kind lower s sid now (Governance.amend_criteria proposed) = Keeps-with_server s _ _
Keeps-apply_kind lower s sid now (Governance.set_jury_sizing sizing) = Keeps-with_server s _ _
Keeps-apply_kind lower s sid now (Governance.set_vote_weighting scheme) = Keeps-with_server s _ _
Keeps-apply_kind lower s sid now (Governance.set_weighting_scope scope) = Keeps-with_server s _ _
Keeps-apply_kind lower s sid now (Governance.grant_vote_weight user weight) =
    Keeps-with_membership s user sid _ (λ m. (refl, refl, refl, refl))
Keeps-apply_kind lower s sid now (Governance.create_role raw) = Keeps-of_eq s _ (ground arith)
Keeps-apply_kind lower s sid now (Governance.delete_role role) = Keeps-of_eq s _ (ground arith)
Keeps-apply_kind lower s sid now (Governance.assign_role user role) = Keeps-of_eq s _ (ground arith)
Keeps-apply_kind lower s sid now (Governance.unassign_role user role) =
    Keeps-of_eq s _ (ground arith)
Keeps-apply_kind lower s sid now (Governance.set_rehoming_policy is_disabled) =
    Keeps-with_server s _ _
Keeps-apply_kind lower s sid now (Governance.set_invite_policy policy) = Keeps-with_server s _ _
Keeps-apply_kind lower s sid now (Governance.recall leader) = Keeps-refl s
Keeps-apply_kind lower s sid now (Governance.remove_content target) = Keeps-refl s

module _ (lower : Text → Text) (now : Timestamp) where
  Keeps-apply_due : (s : Inner) (p : Proposal) → Keeps s (apply_due lower s now p)
  unfolding apply_due apply_effect
  Keeps-apply_due s p = elim (Bool-cases (matured p.status now && not p.is_applied)) [
    | inl e ↦ rw e (
        Keeps-trans s (apply_effect lower s p now) _
          (Keeps-apply_kind lower s p.server_id now p.kind) (Keeps-put_proposal _ _))
    | inr e ↦ rw e (Keeps-refl s)
  ]

  module _ (server : Server) (phase : Phase) (citizens : ℕ) where
    Keeps-close_due :
        (s : Inner) (p : Proposal) → Keeps s (close_due s server phase citizens now p).1
    unfolding close_due
    Keeps-close_due s p = elim (Bool-cases (is_open p.status && leb_ℤ p.closes_at now)) [
      | inl e ↦ rw e (Keeps-put_proposal s _)
      | inr e ↦ rw e (Keeps-refl s)
    ]

    Keeps-resolve_each :
        (s : Inner) (ps : List Proposal)
        → Keeps s (resolve_each lower server phase citizens now s ps)
    unfolding resolve_each resolve_one
    Keeps-resolve_each s [] = Keeps-refl s
    Keeps-resolve_each s (p ∷ ps) =
        Keeps-trans s (resolve_one lower server phase citizens now s p) _
          (Keeps-trans s (close_due s server phase citizens now p).1 _ (Keeps-close_due s p)
            (Keeps-apply_due _ _))
          (Keeps-resolve_each (resolve_one lower server phase citizens now s p) ps)

pub Keeps-resolve_due :
    (lower : Text → Text) (s : Inner) (now : Timestamp) (slug : Text)
    → Keeps s (resolve_due lower s now slug)
unfolding resolve_due
Keeps-resolve_due lower s now slug = elim (Option-cases (find_by_slug s (trim slug))) [
  | inl e ↦ rw (e, resolve_due) (Keeps-refl s)
  | inr (server, e) ↦ rw (e, resolve_due) (Keeps-resolve_each lower now server _ _ s _)
]

-- Resolving a server's due ballots changes no member's tier and no instant of admission, whatever
-- passes, and adds and removes no membership, if every membership is stored under its own user and
-- server; and that stays so.
pub resolve_due_standing :
    (lower : Text → Text) (s : Inner) (now : Timestamp) (slug : Text)
    → Keyed s
    → Keyed (resolve_due lower s now slug) × SameStanding s (resolve_due lower s now slug)
resolve_due_standing = Keeps-resolve_due
