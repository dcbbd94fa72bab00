-- ===== src/Domain/Server.antt =====
-- crates/domain/src/server: the founded server, its bootstrap phase, and invites.
use democrachat.Prelude.{
  ◌⊎◌, ℕ, ◌≡◌, ◌↔◌, Bool, true, false, not, List, leb, nat_eq, contains, extend,
  contains-extend_two, if◌then◌else◌,
}
use democrachat.Prelude.Std.{Text}
use democrachat.Domain.Time.{Timestamp}
use democrachat.Domain.Membership.{FranchiseCriteria, platform_default}
use democrachat.Domain.Weighting.{VoteWeighting, equal, WeightingScope, both}
use democrachat.Domain.Jury.{JurySizing, default_sizing}
use democrachat.Domain.Ballots.{
  BallotKind, kind_eq, amend_criteria, set_governance_surface, always_on, platform_default_surface,
}

pub data Phase : Type 0 where
  seed chartering sovereign : Phase

unfoldable pub from_citizen_count : ℕ → Phase
from_citizen_count citizens =
    if leb 25 citizens then sovereign else if leb 10 citizens then chartering else seed

unfoldable pub founder_may_provision : Phase → Bool
founder_may_provision seed = true
founder_may_provision _ = false

pub data InvitePolicy : Type 0 where
  open_invites closed_invites : InvitePolicy

unfoldable pub policy_is_open : InvitePolicy → Bool
policy_is_open open_invites = true
policy_is_open closed_invites = false

pub record Invite : Type 0 where
  pub code_hash : Text
  pub server_id : ℕ
  pub created_by : ℕ
  pub created_at : Timestamp
  pub is_revoked : Bool

unfoldable pub new_invite : Text → ℕ → ℕ → Timestamp → Invite
new_invite code_hash server_id created_by created_at = record {
  code_hash = code_hash;
  server_id = server_id;
  created_by = created_by;
  created_at = created_at;
  is_revoked = false;
}

unfoldable pub is_live : Invite → Bool
is_live i = not i.is_revoked

pub record Server : Type 0 where
  pub id : ℕ
  pub slug : Text
  pub name : Text
  pub founder_id : ℕ
  pub created_at : Timestamp
  pub criteria : FranchiseCriteria
  pub enabled_ballots : List BallotKind
  pub jury_sizing : JurySizing
  pub vote_weighting : VoteWeighting
  pub weighting_scope : WeightingScope
  pub is_rehoming_disabled : Bool
  pub is_private : Bool
  pub invite_policy : InvitePolicy

unfoldable pub new_server : ℕ → Text → Text → ℕ → Timestamp → Server
new_server id slug name founder_id created_at = record {
  id = id;
  slug = slug;
  name = name;
  founder_id = founder_id;
  created_at = created_at;
  criteria = platform_default;
  enabled_ballots = platform_default_surface;
  jury_sizing = default_sizing;
  vote_weighting = equal;
  weighting_scope = both;
  is_rehoming_disabled = false;
  is_private = false;
  invite_policy = open_invites;
}

unfoldable pub allows_member_invites : Server → Bool
unfolding policy_is_open
allows_member_invites s = policy_is_open s.invite_policy

unfoldable pub governs : Server → BallotKind → Bool
governs s kind = contains s.enabled_ballots kind

unfoldable pub set_surface : Server → List BallotKind → Server
set_surface s enabled = record s { enabled_ballots = extend enabled always_on }

-- After the surface is replaced, the server governs the kinds it was given and the two that are
-- always on, and no others.
pub governs-set_surface :
    (s : Server) (enabled : List BallotKind) (k : BallotKind)
    → (governs (set_surface s enabled) k ≡ true)
      ↔ ((contains enabled k ≡ true) ⊎ (k ≡ amend_criteria) ⊎ (k ≡ set_governance_surface))
unfolding governs set_surface
governs-set_surface s enabled k =
    contains-extend_two enabled amend_criteria set_governance_surface k
