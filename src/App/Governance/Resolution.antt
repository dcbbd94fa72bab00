-- ===== src/App/Governance/Resolution.antt =====
-- Resolving leaves nothing due.
use democrachat.App.Governance.{
  matured, weighted_tally, with_membership, with_server, apply_kind, apply_effect, close_due,
  apply_due, resolve_one, resolve_each, resolve_due,
}
use democrachat.App.Governance.Steps.{Resolves, Resolves-resolve_each}
use democrachat.Domain.Governance.{ProposalKind, Proposal, is_open, close}
use democrachat.Domain.Governance.Bars.{close_settles}
use democrachat.Domain.Membership.{Membership}
use democrachat.Domain.Server.{Server, Phase, from_citizen_count}
use democrachat.Domain.Time.{Timestamp}
use democrachat.Prelude.{
  beq_refl, subst, ℕ, ◌≡◌, refl, ◌∙◌, sym, ap, Bool-cases, Bool, true, false, not, ◌&&◌, Option,
  none, some, List, [], ◌∷◌, All, All-imp, ◌⊎◌, inl, inr, nat_beq, nat_eq, if◌then◌else◌, arith,
  list_eq, pair_eq, triple_eq,
}
use democrachat.Prelude.Int.{leb_ℤ}
use democrachat.Prelude.Maps.{Map, get, get-insert}
use democrachat.Prelude.Std.{Text, trim}
use democrachat.Store.{Inner, upsert_membership, put_server, find_by_slug, citizen_count}
use democrachat.Store.Content.{
  next_channel_id, insert_channel, remove_channel, next_rule_id, insert_rule, remove_rule,
  next_role_id, insert_role, remove_role, assign, unassign,
}
use democrachat.Store.Votes.{put_proposal, proposals_of}
use democrachat.Domain.Governance

proposals-with_membership :
    (s : Inner) (o : Option Membership) (f : Membership → Membership)
    → (with_membership s o f).proposals ≡ s.proposals
unfolding upsert_membership
proposals-with_membership s none f = refl
proposals-with_membership s (some m) f = refl

proposals-with_server :
    (s : Inner) (o : Option Server) (f : Server → Server)
    → (with_server s o f).proposals ≡ s.proposals
unfolding put_server
proposals-with_server s none f = refl
proposals-with_server s (some v) f = refl

-- No effect touches a proposal.
proposals-apply_kind :
    (lower : Text → Text) (s : Inner) (sid : ℕ) (now : Timestamp) (kind : ProposalKind)
    → (apply_kind lower s sid now kind).proposals ≡ s.proposals
unfolding apply_kind next_channel_id insert_channel remove_channel next_rule_id insert_rule
    remove_rule next_role_id insert_role remove_role assign unassign
proposals-apply_kind lower s sid now (Governance.create_channel raw topic) = ground arith
proposals-apply_kind lower s sid now (Governance.delete_channel raw) = ground arith
proposals-apply_kind lower s sid now (Governance.add_rule text) = refl
proposals-apply_kind lower s sid now (Governance.remove_rule rule) = ground arith
proposals-apply_kind lower s sid now (Governance.ban user) = proposals-with_membership s _ _
proposals-apply_kind lower s sid now (Governance.timeout user until) =
    proposals-with_membership s _ _
proposals-apply_kind lower s sid now (Governance.set_governance_surface enabled) =
    proposals-with_server s _ _
proposals-apply_kind lower s sid now (Governance.amend_criteria proposed) =
    proposals-with_server s _ _
proposals-apply_kind lower s sid now (Governance.set_jury_sizing sizing) =
    proposals-with_server s _ _
proposals-apply_kind lower s sid now (Governance.set_vote_weighting scheme) =
    proposals-with_server s _ _
proposals-apply_kind lower s sid now (Governance.set_weighting_scope scope) =
    proposals-with_server s _ _
proposals-apply_kind lower s sid now (Governance.grant_vote_weight user weight) =
    proposals-with_membership s _ _
proposals-apply_kind lower s sid now (Governance.create_role raw) = ground arith
proposals-apply_kind lower s sid now (Governance.delete_role role) = ground arith
proposals-apply_kind lower s sid now (Governance.assign_role user role) = ground arith
proposals-apply_kind lower s sid now (Governance.unassign_role user role) = ground arith
proposals-apply_kind lower s sid now (Governance.set_rehoming_policy is_disabled) =
    proposals-with_server s _ _
proposals-apply_kind lower s sid now (Governance.set_invite_policy policy) =
    proposals-with_server s _ _
proposals-apply_kind lower s sid now (Governance.recall leader) = refl
proposals-apply_kind lower s sid now (Governance.remove_content target) = refl

-- Neither the close nor the effect of the ballot is due.
abbrev pub settled : Timestamp → Proposal → Bool
settled now p =
    not (is_open p.status && leb_ℤ p.closes_at now)
    && not (matured p.status now && not p.is_applied)

-- The ballot found under an id is settled.
abbrev pub SettledAt : Timestamp → Inner → ℕ → Type 0
SettledAt now s j = (q : Proposal) × (get j s.proposals ≡ some q) × (settled now q ≡ true)

over :
    (i j : ℕ) (a b : Proposal) (m n : Option Proposal)
    → m ≡ (if nat_beq i j then some b else n)
    → (if nat_beq i j then some a else m) ≡ (if nat_beq i j then some a else n)
over i j a b m n h = ground arith

module _ (lower : Text → Text) (server : Server) (phase : Phase) (citizens : ℕ)
    (now : Timestamp) where
  -- A settled ballot is written under its id, and nothing else among the proposals changes.
  abbrev Writes : Inner → Inner → Proposal → Type 0
  Writes s t p =
      (q : Proposal) × (settled now q ≡ true)
      × ((j : ℕ) → get j t.proposals ≡ (if nat_beq p.id j then some q else get j s.proposals))

  get-put_proposal :
      (s : Inner) (p : Proposal) (j : ℕ)
      → get j (put_proposal s p).proposals ≡ (if nat_beq p.id j then some p else get j s.proposals)
  unfolding put_proposal
  get-put_proposal s p j = get-insert p.id j p s.proposals

  shape-apply_due :
      (s : Inner) (p : Proposal)
      → (is_open p.status && leb_ℤ p.closes_at now) ≡ false
      → ((apply_due lower s now p ≡ s) × (settled now p ≡ true))
        ⊎ Writes s (apply_due lower s now p) p
  unfolding apply_due apply_effect
  shape-apply_due s p closed = elim (Bool-cases (matured p.status now && not p.is_applied)) [
    | inr e ↦ inl (rw e refl, rw (closed, e) refl)
    | inl e ↦ inr (
      record p { is_applied = true },
      ground arith,
      λ j. rw e (
          get-put_proposal (apply_effect lower s p now) (record p { is_applied = true }) j
          ∙ ap
              (λ (m : Map ℕ Proposal).
                if nat_beq p.id j then some (record p { is_applied = true }) else get j m)
              (proposals-apply_kind lower s p.server_id now p.kind)),
    )
  ]

  abbrev closed_form : Inner → Proposal → Proposal
  closed_form s p = close p (weighted_tally s server p now) citizens phase now

  shape-resolve_one :
      (s : Inner) (p : Proposal)
      → ((resolve_one lower server phase citizens now s p ≡ s) × (settled now p ≡ true))
        ⊎ Writes s (resolve_one lower server phase citizens now s p) p
  unfolding resolve_one close_due close
  shape-resolve_one s p = elim (Bool-cases (is_open p.status && leb_ℤ p.closes_at now)) [
    | inr e ↦
        let same : resolve_one lower server phase citizens now s p ≡ apply_due lower s now p =
          rw e refl in
        subst (λ (x : Inner). ((x ≡ s) × (settled now p ≡ true)) ⊎ Writes s x p) (sym same)
          (shape-apply_due s p e)
    | inl e ↦
        let q = closed_form s p in
        let t = put_proposal s q in
        let closed : (is_open q.status && leb_ℤ q.closes_at now) ≡ false =
          rw ((close_settles p (weighted_tally s server p now) citizens phase now).0) refl in
        elim (shape-apply_due t q closed) [
          | inl (same, rest) ↦ inr (
            q,
            rest,
            λ j. rw e (ap (λ (x : Inner). get j x.proposals) same ∙ get-put_proposal s q j),
          )
          | inr (q', rest, at) ↦ inr (
            q',
            rest,
            λ j. rw e (
                at j
                ∙ over p.id j q' q (get j t.proposals) (get j s.proposals)
                    (get-put_proposal s q j)),
          )
        ]
  ]

  -- A ballot of the list is found under its id as it was listed, or it is settled.
  abbrev Pending : Inner → Proposal → Type 0
  Pending s p = (get p.id s.proposals ≡ some p) ⊎ SettledAt now s p.id

  SettledAt-resolve_one :
      (s : Inner) (p : Proposal) (j : ℕ)
      → SettledAt now s j
      → SettledAt now (resolve_one lower server phase citizens now s p) j
  SettledAt-resolve_one s p j (q, e, k) = elim (shape-resolve_one s p) [
    | inl (same, _) ↦ subst (λ (x : Inner). SettledAt now x j) (sym same) (q, e, k)
    | inr (w, rest, at) ↦ elim (Bool-cases (nat_beq p.id j)) [
      | inl here ↦ (w, rw (at j, here) refl, rest)
      | inr away ↦ (q, rw (at j, away) e, k)
    ]
  ]

  Pending-resolve_one :
      (s : Inner) (p x : Proposal)
      → Pending s x
      → Pending (resolve_one lower server phase citizens now s p) x
  Pending-resolve_one s p x (inr k) = inr (SettledAt-resolve_one s p x.id k)
  Pending-resolve_one s p x (inl e) = elim (shape-resolve_one s p) [
    | inl (same, _) ↦ inl (subst (λ (y : Inner). get x.id y.proposals ≡ some x) (sym same) e)
    | inr (w, rest, at) ↦ elim (Bool-cases (nat_beq p.id x.id)) [
      | inl here ↦ inr (w, rw (at x.id, here) refl, rest)
      | inr away ↦ inl (rw (at x.id, away) e)
    ]
  ]

  settles :
      (s : Inner) (p : Proposal)
      → Pending s p
      → SettledAt now (resolve_one lower server phase citizens now s p) p.id
  settles s p (inr k) = SettledAt-resolve_one s p p.id k
  settles s p (inl e) = elim (shape-resolve_one s p) [
    | inl (same, rest) ↦ subst (λ (y : Inner). SettledAt now y p.id) (sym same) (p, e, rest)
    | inr (w, rest, at) ↦ (w, rw (at p.id, beq_refl p.id) refl, rest)
  ]

  SettledAt-resolve_each :
      (s : Inner) (ps : List Proposal) (j : ℕ)
      → SettledAt now s j
      → SettledAt now (resolve_each lower server phase citizens now s ps) j
  unfolding resolve_each
  SettledAt-resolve_each s [] j k = k
  SettledAt-resolve_each s (p ∷ ps) j k =
      SettledAt-resolve_each (resolve_one lower server phase citizens now s p) ps j
        (SettledAt-resolve_one s p j k)

  settles_each :
      (s : Inner) (ps : List Proposal)
      → All (Pending s) ps
      → All (λ p. SettledAt now (resolve_each lower server phase citizens now s ps) p.id) ps
  unfolding resolve_each
  settles_each s [] h = tt
  settles_each s (p ∷ ps) h =
      let t = resolve_one lower server phase citizens now s p in
      (
        SettledAt-resolve_each t ps p.id (settles s p h.0),
        settles_each t ps (All-imp (Pending s) (Pending t) (λ x. Pending-resolve_one s p x) ps h.1),
      )

-- Resolving takes the ballots that were listed for the server one after the other. Each is closed by
-- its tally if it is open and its closing time has come; then, if it is passed, its time has come and
-- it has had no effect, its effect is applied and it is marked so; and nothing else is done. After it
-- each listed ballot is found under its id with nothing left to do: it is not open past its closing
-- time, nor passed and due without its mark. Each listed ballot was stored under its own id.
pub resolve_due_settles :
    (lower : Text → Text) (s : Inner) (now : Timestamp) (slug : Text) (server : Server)
    → find_by_slug s (trim slug) ≡ some server
    → All (λ p. get p.id s.proposals ≡ some p) (proposals_of s server.id)
    → Resolves lower server
        (from_citizen_count (citizen_count s server.id))
        (citizen_count s server.id)
        now
        s
        (proposals_of s server.id)
        (resolve_due lower s now slug)
      × All (λ p. SettledAt now (resolve_due lower s now slug) p.id) (proposals_of s server.id)
unfolding resolve_due proposals_of
resolve_due_settles lower s now slug server found stored =
    let citizens = citizen_count s server.id in
    let phase = from_citizen_count citizens in
    let ps = proposals_of s server.id in
    let pending =
      All-imp (λ p. get p.id s.proposals ≡ some p) (Pending lower server phase citizens now s)
        (λ p e. inl e) ps stored in
    let run : resolve_due lower s now slug ≡ resolve_each lower server phase citizens now s ps =
      rw (resolve_due, found) refl in
    subst
      (λ t. Resolves lower server phase citizens now s ps t × All (λ p. SettledAt now t p.id) ps)
      (sym run)
      (
        Resolves-resolve_each lower server phase citizens now s ps,
        settles_each lower server phase citizens now s ps pending,
      )
