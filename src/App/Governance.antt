-- ===== src/App/Governance.antt =====
-- crates/app/src/governance_service.rs: proposals, votes, and the resolution of due ballots.
-- A use-case takes the store and the instant; where it fails, the store stays as it was.
pub mod Standing
pub mod Ballots
pub mod Steps
pub mod Resolution
use democrachat.Prelude.{
  ℕ, ◌+◌, ◌≡◌, Bool, true, false, ◌&&◌, not, Option, none, some, List, [], ◌∷◌, nat_beq,
  if◌then◌else◌, nat_eq,
}
use democrachat.Prelude.Int.{leb_ℤ}
use democrachat.Prelude.Maps.{get}
use democrachat.Prelude.Std.{Text, trim, is_empty, u64_add}
use democrachat.Domain.Time.{Timestamp, plus_days}
use democrachat.Domain.Membership.{User, Membership, is_franchised}
use democrachat.Domain.Weighting.{weight_of, applies_to_ballots}
use democrachat.Domain.Server.{Server, Phase, from_citizen_count, governs, set_surface}
use democrachat.Domain.Names.{normalize_channel_name, normalize_role_name}
use democrachat.Domain.Governance
use democrachat.Domain.Governance.{
  ProposalKind, ballot_kind, decision_class, threshold_for, Tally, Proposal, new_proposal,
  ProposalStatus, open_status, passed, failed, is_open, close, Vote,
}
use democrachat.Domain.Chat.{Channel, new_channel, Role}
use democrachat.Store.{
  Inner, find_by_handle, find_by_slug, get_membership, upsert_membership, citizen_count, put_server,
}
use democrachat.Store.Content.{
  next_channel_id, insert_channel, find_channel, remove_channel, next_rule_id, insert_rule,
  remove_rule, next_role_id, insert_role, find_role, remove_role, assign, unassign,
}
use democrachat.Store.Votes.{
  next_proposal_id, put_proposal, proposals_of, upsert_vote, get_vote, votes_on,
}
use democrachat.App.Results.{Result, ok, err, ok_or, fail_if, ◌>>=◌, ◌>>◌, ProposeError, VoteError}

abbrev pub voting_window_days : ℕ
voting_window_days = 3

-- `.filter(|m| m.is_franchised())`
abbrev pub franchised_only : Option Membership → Option Membership
franchised_only none = none
franchised_only (some m) = if is_franchised m then some m else none

abbrev pub is_none {ℓ} : {A : Type ℓ} → Option A → Bool
is_none none = true
is_none (some _) = false

unfoldable pub open_proposal :
    Inner → Timestamp → Text → Text → ProposalKind → Result ProposeError (Proposal × Inner)
open_proposal s now proposer_handle server_slug kind = do
  user ← ok_or (find_by_handle s (trim proposer_handle)) (ProposeError.no_such_user proposer_handle)
  server ← ok_or (find_by_slug s (trim server_slug)) (ProposeError.no_such_server server_slug)
  membership ←
      ok_or (franchised_only (get_membership s user.id server.id)) ProposeError.not_a_citizen
  fail_if (not (governs server (ballot_kind kind))) ProposeError.not_governed
  let phase = from_citizen_count (citizen_count s server.id)
  fail_if (is_none (threshold_for (decision_class kind) phase)) ProposeError.not_allowed_in_phase
  let (id, t) = next_proposal_id s
  let proposal = new_proposal id server.id user.id kind now (plus_days now voting_window_days)
  ok (proposal, put_proposal t proposal)

-- The core of both entry points.
unfoldable pub cast_vote_as : Inner → ℕ → ℕ → Bool → Result VoteError Inner
cast_vote_as s voter_id proposal_id is_aye = do
  proposal ← ok_or (get proposal_id s.proposals) (VoteError.no_such_proposal proposal_id)
  fail_if (not (is_open proposal.status)) VoteError.closed
  membership ←
      ok_or (franchised_only (get_membership s voter_id proposal.server_id)) VoteError.not_a_citizen
  ok (upsert_vote s (record { proposal_id = proposal.id; voter = voter_id; is_aye = is_aye }))

unfoldable pub cast_vote : Inner → Text → ℕ → Bool → Result VoteError Inner
unfolding cast_vote_as
cast_vote s voter_handle proposal_id is_aye = do
  user ← ok_or (find_by_handle s (trim voter_handle)) (VoteError.no_such_user voter_handle)
  cast_vote_as s user.id proposal_id is_aye

unfoldable pub cast_vote_by_id : Inner → ℕ → ℕ → Bool → Result VoteError Inner
unfolding cast_vote_as
cast_vote_by_id s voter_id proposal_id is_aye = do
  user ← ok_or (get voter_id s.users) (VoteError.no_such_user_id voter_id)
  cast_vote_as s user.id proposal_id is_aye

-- The weight of a ballot; a voter without the franchise is dropped from the count.
abbrev ballot_weight : Server → Timestamp → Option Membership → Option ℕ
ballot_weight server now none = none
ballot_weight server now (some m) =
    if is_franchised m
    then some (
        if applies_to_ballots server.weighting_scope
        then weight_of server.vote_weighting m now
        else 1)
    else none

abbrev add_ballot : Tally → Bool → Option ℕ → Tally
add_ballot t is_aye none = t
add_ballot t true (some w) = record t { aye = u64_add t.aye w }
add_ballot t false (some w) = record t { nay = u64_add t.nay w }

abbrev tally_votes : Inner → Server → Timestamp → Tally → List Vote → Tally
tally_votes s server now t [] = t
tally_votes s server now t (v ∷ vs) =
    tally_votes s server now
      (add_ballot t v.is_aye (ballot_weight server now (get_membership s v.voter server.id))) vs

unfoldable pub weighted_tally : Inner → Server → Proposal → Timestamp → Tally
weighted_tally s server p now =
    tally_votes s server now (record { aye = 0; nay = 0 }) (votes_on s p.id)

-- `if let Some(mut m) = memberships.get(..) { change; upsert }`.
abbrev with_membership : Inner → Option Membership → (Membership → Membership) → Inner
with_membership s none change = s
with_membership s (some m) change = upsert_membership s (change m)

abbrev with_server : Inner → Option Server → (Server → Server) → Inner
with_server s none change = s
with_server s (some v) change = put_server s (change v)

-- `get_role(role).is_some_and(|r| r.server_id == sid)`
abbrev role_is_of : Option Role → ℕ → Bool
role_is_of none sid = false
role_is_of (some r) sid = nat_beq r.server_id sid

-- The effect of each kind on the server `sid`. `recall` and `remove_content` have none.
unfoldable pub apply_kind : (Text → Text) → Inner → ℕ → Timestamp → ProposalKind → Inner
apply_kind lower s sid now (Governance.create_channel raw topic) =
    let name = normalize_channel_name raw in
    if not (is_empty name) && is_none (find_channel s sid name)
    then (let (id, t) = next_channel_id s in insert_channel t (new_channel id sid name topic now))
    else s
apply_kind lower s sid now (Governance.delete_channel raw) =
    elim (find_channel s sid (normalize_channel_name raw)) [
      | none ↦ s
      | some c ↦ (remove_channel s c.id).1
    ]
apply_kind lower s sid now (Governance.add_rule text) =
    let (id, t) = next_rule_id s in
    insert_rule t (record { id = id; server_id = sid; text = text; added_at = now })
apply_kind lower s sid now (Governance.remove_rule rule) = (remove_rule s rule).1
apply_kind lower s sid now (Governance.ban user) =
    with_membership s (get_membership s user sid) (λ m. record m { is_sanctioned = true })
apply_kind lower s sid now (Governance.timeout user until) =
    with_membership s (get_membership s user sid) (λ m. record m { is_sanctioned = true })
apply_kind lower s sid now (Governance.set_governance_surface enabled) =
    with_server s (get sid s.servers) (λ v. set_surface v enabled)
apply_kind lower s sid now (Governance.amend_criteria proposed) =
    with_server s (get sid s.servers) (λ v. record v { criteria = proposed })
apply_kind lower s sid now (Governance.set_jury_sizing sizing) =
    with_server s (get sid s.servers) (λ v. record v { jury_sizing = sizing })
apply_kind lower s sid now (Governance.set_vote_weighting scheme) =
    with_server s (get sid s.servers) (λ v. record v { vote_weighting = scheme })
apply_kind lower s sid now (Governance.set_weighting_scope scope) =
    with_server s (get sid s.servers) (λ v. record v { weighting_scope = scope })
apply_kind lower s sid now (Governance.grant_vote_weight user weight) =
    with_membership s (get_membership s user sid) (λ m. record m { granted_weight = weight })
apply_kind lower s sid now (Governance.create_role raw) =
    let name = normalize_role_name lower raw in
    if not (is_empty name) && is_none (find_role s sid name)
    then (let (id, t) = next_role_id s in
        insert_role t (record { id = id; server_id = sid; name = name; created_at = now }))
    else s
apply_kind lower s sid now (Governance.delete_role role) =
    if role_is_of (get role s.roles) sid then (remove_role s role).1 else s
apply_kind lower s sid now (Governance.assign_role user role) =
    if role_is_of (get role s.roles) sid
    then (assign s (record { server_id = sid; role_id = role; user = user })).1
    else s
apply_kind lower s sid now (Governance.unassign_role user role) =
    if role_is_of (get role s.roles) sid then (unassign s role user).1 else s
apply_kind lower s sid now (Governance.set_rehoming_policy is_disabled) =
    with_server s (get sid s.servers) (λ v. record v { is_rehoming_disabled = is_disabled })
apply_kind lower s sid now (Governance.set_invite_policy policy) =
    with_server s (get sid s.servers) (λ v. record v { invite_policy = policy })
apply_kind lower s sid now (Governance.recall leader) = s
apply_kind lower s sid now (Governance.remove_content target) = s

unfoldable pub apply_effect : (Text → Text) → Inner → Proposal → Timestamp → Inner
apply_effect lower s p now = apply_kind lower s p.server_id now p.kind

abbrev pub matured : ProposalStatus → Timestamp → Bool
matured (passed effective_at) now = leb_ℤ effective_at now
matured _ now = false

-- Close a ballot whose window has elapsed.
unfoldable pub close_due : Inner → Server → Phase → ℕ → Timestamp → Proposal → Proposal × Inner
close_due s server phase citizens now p =
    let q = close p (weighted_tally s server p now) citizens phase now in
    if is_open p.status && leb_ℤ p.closes_at now then (q, put_proposal s q) else (p, s)

-- Apply a passed and matured effect that is not yet applied.
unfoldable pub apply_due : (Text → Text) → Inner → Timestamp → Proposal → Inner
apply_due lower s now p =
    if matured p.status now && not p.is_applied
    then put_proposal (apply_effect lower s p now) (record p { is_applied = true })
    else s

unfoldable pub resolve_one :
    (Text → Text) → Server → Phase → ℕ → Timestamp → Inner → Proposal → Inner
resolve_one lower server phase citizens now s p =
    let (q, t) = close_due s server phase citizens now p in apply_due lower t now q

unfoldable pub resolve_each :
    (Text → Text) → Server → Phase → ℕ → Timestamp → Inner → List Proposal → Inner
resolve_each lower server phase citizens now s [] = s
resolve_each lower server phase citizens now s (p ∷ ps) =
    resolve_each lower server phase citizens now (resolve_one lower server phase citizens now s p)
      ps

-- The server, its citizens and its phase are read once, before the loop.
unfoldable pub resolve_due : (Text → Text) → Inner → Timestamp → Text → Inner
resolve_due lower s now server_slug = elim (find_by_slug s (trim server_slug)) [
  | none ↦ s
  | some server ↦
      let citizens = citizen_count s server.id in
      resolve_each lower server (from_citizen_count citizens) citizens now s
        (proposals_of s server.id)
]

unfoldable pub list_proposals : (Text → Text) → Inner → Timestamp → Text → List Proposal × Inner
list_proposals lower s now server_slug =
    let t = resolve_due lower s now server_slug in
    (
      elim (find_by_slug t (trim server_slug)) [
        | none ↦ []
        | some server ↦ proposals_of t server.id
      ],
      t,
    )
