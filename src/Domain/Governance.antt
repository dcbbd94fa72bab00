-- ===== src/Domain/Governance.antt =====
-- crates/domain/src/governance: proposals, the bar that each must pass, and the timelock.
pub mod Bars
use democrachat.Prelude.{
  ℕ, ◌+◌, ◌*◌, ◌≡◌, Bool, true, false, ◌&&◌, Option, none, some, List, leb, ltb, if◌then◌else◌,
}
use democrachat.Prelude.Int.{ℤ}
use democrachat.Prelude.Std.{Text, u64_add}
use democrachat.Domain.Time.{Timestamp, plus_days}
use democrachat.Domain.Membership.{FranchiseCriteria}
use democrachat.Domain.Weighting.{VoteWeighting, WeightingScope}
use democrachat.Domain.Jury.{JurySizing}
use democrachat.Domain.Ballots.{BallotKind}
use democrachat.Domain.Server.{Phase, seed, chartering, sovereign, InvitePolicy}

pub data DecisionClass : Type 0 where
  moderation rule_change ban_or_recall constitutional : DecisionClass

pub data ProposalKind : Type 0 where
  remove_content : (target : Text) → ProposalKind
  ban : (user : ℕ) → ProposalKind
  timeout : (user : ℕ) (until : ℤ) → ProposalKind
  recall : (leader : ℕ) → ProposalKind
  create_channel : (name topic : Text) → ProposalKind
  delete_channel : (name : Text) → ProposalKind
  add_rule : (text : Text) → ProposalKind
  remove_rule : (rule : ℕ) → ProposalKind
  amend_criteria : (proposed : FranchiseCriteria) → ProposalKind
  set_jury_sizing : (sizing : JurySizing) → ProposalKind
  set_vote_weighting : (scheme : VoteWeighting) → ProposalKind
  set_weighting_scope : (scope : WeightingScope) → ProposalKind
  grant_vote_weight : (user weight : ℕ) → ProposalKind
  set_governance_surface : (enabled : List BallotKind) → ProposalKind
  create_role : (name : Text) → ProposalKind
  delete_role : (role : ℕ) → ProposalKind
  assign_role : (user role : ℕ) → ProposalKind
  unassign_role : (user role : ℕ) → ProposalKind
  set_rehoming_policy : (is_disabled : Bool) → ProposalKind
  set_invite_policy : (policy : InvitePolicy) → ProposalKind

unfoldable pub ballot_kind : ProposalKind → BallotKind
ballot_kind (remove_content _) = BallotKind.remove_content
ballot_kind (ban _) = BallotKind.ban
ballot_kind (timeout _ _) = BallotKind.timeout
ballot_kind (recall _) = BallotKind.recall
ballot_kind (create_channel _ _) = BallotKind.create_channel
ballot_kind (delete_channel _) = BallotKind.delete_channel
ballot_kind (add_rule _) = BallotKind.add_rule
ballot_kind (remove_rule _) = BallotKind.remove_rule
ballot_kind (amend_criteria _) = BallotKind.amend_criteria
ballot_kind (set_jury_sizing _) = BallotKind.set_jury_sizing
ballot_kind (set_vote_weighting _) = BallotKind.set_vote_weighting
ballot_kind (set_weighting_scope _) = BallotKind.set_weighting_scope
ballot_kind (grant_vote_weight _ _) = BallotKind.grant_vote_weight
ballot_kind (set_governance_surface _) = BallotKind.set_governance_surface
ballot_kind (set_rehoming_policy _) = BallotKind.set_rehoming_policy
ballot_kind (set_invite_policy _) = BallotKind.set_invite_policy
ballot_kind (create_role _) = BallotKind.manage_roles
ballot_kind (delete_role _) = BallotKind.manage_roles
ballot_kind (assign_role _ _) = BallotKind.manage_roles
ballot_kind (unassign_role _ _) = BallotKind.manage_roles

unfoldable pub decision_class : ProposalKind → DecisionClass
decision_class (remove_content _) = moderation
decision_class (ban _) = ban_or_recall
decision_class (timeout _ _) = ban_or_recall
decision_class (recall _) = ban_or_recall
decision_class (grant_vote_weight _ _) = ban_or_recall
decision_class (amend_criteria _) = constitutional
decision_class (set_vote_weighting _) = constitutional
decision_class (set_weighting_scope _) = constitutional
decision_class (set_rehoming_policy _) = constitutional
decision_class (create_channel _ _) = rule_change
decision_class (delete_channel _) = rule_change
decision_class (add_rule _) = rule_change
decision_class (remove_rule _) = rule_change
decision_class (set_jury_sizing _) = rule_change
decision_class (set_governance_surface _) = rule_change
decision_class (set_invite_policy _) = rule_change
decision_class (create_role _) = rule_change
decision_class (delete_role _) = rule_change
decision_class (assign_role _ _) = rule_change
decision_class (unassign_role _ _) = rule_change

-- In basis points.
pub record Threshold : Type 0 where
  pub approval_bp : ℕ
  pub quorum_bp : ℕ

unfoldable pub threshold_for : DecisionClass → Phase → Option Threshold
threshold_for moderation _ = some (record { approval_bp = 5000; quorum_bp = 1000 })
threshold_for rule_change _ = some (record { approval_bp = 6000; quorum_bp = 3000 })
threshold_for ban_or_recall _ = some (record { approval_bp = 6000; quorum_bp = 3000 })
threshold_for constitutional seed = none
threshold_for constitutional chartering = some (record { approval_bp = 7500; quorum_bp = 6000 })
threshold_for constitutional sovereign = some (record { approval_bp = 6666; quorum_bp = 5000 })

pub record Tally : Type 0 where
  pub aye : ℕ
  pub nay : ℕ

unfoldable pub cast : Tally → ℕ
cast t = u64_add t.aye t.nay

pub record Decision : Type 0 where
  pub did_pass : Bool
  pub has_quorum : Bool
  pub has_approval : Bool

-- The products are taken in `u128`, which holds them.
unfoldable pub decide : Tally → ℕ → Threshold → Decision
unfolding cast
decide tally established_citizens threshold =
    let has_quorum =
      ltb 0 established_citizens
      && leb (threshold.quorum_bp * established_citizens) (cast tally * 10000) in
    let has_approval =
      ltb 0 (cast tally) && ltb (threshold.approval_bp * cast tally) (tally.aye * 10000) in
    record {
      did_pass = has_quorum && has_approval;
      has_quorum = has_quorum;
      has_approval = has_approval;
    }

pub data ProposalStatus : Type 0 where
  open_status : ProposalStatus
  passed : (effective_at : Timestamp) → ProposalStatus
  failed : ProposalStatus

abbrev pub is_open : ProposalStatus → Bool
is_open open_status = true
is_open _ = false

pub record Proposal : Type 0 where
  pub id : ℕ
  pub server_id : ℕ
  pub proposer : ℕ
  pub kind : ProposalKind
  pub opened_at : Timestamp
  pub closes_at : Timestamp
  pub status : ProposalStatus
  pub is_applied : Bool

unfoldable pub new_proposal : ℕ → ℕ → ℕ → ProposalKind → Timestamp → Timestamp → Proposal
new_proposal id server_id proposer kind opened_at closes_at = record {
  id = id;
  server_id = server_id;
  proposer = proposer;
  kind = kind;
  opened_at = opened_at;
  closes_at = closes_at;
  status = open_status;
  is_applied = false;
}

abbrev pub recall_window_days : ℕ
recall_window_days = 7

abbrev effective_from : DecisionClass → Timestamp → Timestamp
effective_from constitutional closed_at = plus_days closed_at recall_window_days
effective_from _ closed_at = closed_at

-- The status that `close` sets.
abbrev status_of : DecisionClass → Option Threshold → Tally → ℕ → Timestamp → ProposalStatus
status_of class none tally established_citizens closed_at = failed
status_of class (some threshold) tally established_citizens closed_at =
    if (decide tally established_citizens threshold).did_pass
    then passed (effective_from class closed_at)
    else failed

unfoldable pub close : Proposal → Tally → ℕ → Phase → Timestamp → Proposal
unfolding decide threshold_for decision_class plus_days
close p tally established_citizens phase closed_at =
    let class = decision_class p.kind in
    record p {
      status = status_of class (threshold_for class phase) tally established_citizens closed_at;
    }

pub record Vote : Type 0 where
  pub proposal_id : ℕ
  pub voter : ℕ
  pub is_aye : Bool
