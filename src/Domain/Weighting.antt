-- ===== src/Domain/Weighting.antt =====
-- crates/domain/src/weighting: how a server values a citizen's vote.
use democrachat.Prelude.{
  ℕ, ◌+◌, ◌*◌, ◌/◌, ◌≤◌, Bool, true, false, Option, none, some, arith, if◌then◌else◌, list_eq,
  nat_eq, ◌==◌,
}
use democrachat.Prelude.Int.{pos_part}
use democrachat.Prelude.Std.{Text, clamp, codes, isqrt, isqrt_bounds}
use democrachat.Domain.Time.{Timestamp, days_since}
use democrachat.Domain.Membership.{Membership}

abbrev pub max_vote_weight : ℕ
max_vote_weight = 16

pub data VoteWeighting : Type 0 where
  equal by_contribution by_tenure by_role : VoteWeighting

pub data WeightingScope : Type 0 where
  both juries_only ballots_only unweighted : WeightingScope

unfoldable pub weighting_from_name : Text → Option VoteWeighting
weighting_from_name name =
    if name == codes "Equal"
    then some equal
    else if name == codes "ByContribution"
    then some by_contribution
    else if name == codes "ByTenure"
    then some by_tenure
    else if name == codes "ByRole"
    then some by_role
    else none

unfoldable pub scope_from_name : Text → Option WeightingScope
scope_from_name name =
    if name == codes "Both"
    then some both
    else if name == codes "JuriesOnly"
    then some juries_only
    else if name == codes "BallotsOnly"
    then some ballots_only
    else if name == codes "None"
    then some unweighted
    else none

abbrev tenure : Option Timestamp → Timestamp → ℕ
tenure (some at) now = 1 + pos_part (days_since now at) / 365
tenure none now = 1

-- The weight before it is clamped. `max(0) as u64` is the positive part.
unfoldable pub raw_weight : VoteWeighting → Membership → Timestamp → ℕ
raw_weight equal m now = 1
raw_weight by_contribution m now = 1 + isqrt (pos_part m.contribution)
raw_weight by_tenure m now = tenure m.enfranchised_at now
raw_weight by_role m now = m.granted_weight

unfoldable pub weight_of : VoteWeighting → Membership → Timestamp → ℕ
unfolding raw_weight
weight_of scheme m now = clamp (raw_weight scheme m now) 1 max_vote_weight

unfoldable pub applies_to_juries : WeightingScope → Bool
applies_to_juries both = true
applies_to_juries juries_only = true
applies_to_juries _ = false

unfoldable pub applies_to_ballots : WeightingScope → Bool
applies_to_ballots both = true
applies_to_ballots ballots_only = true
applies_to_ballots _ = false

-- Under every scheme a member's weight lies between 1 and 16.
pub weight_of_bounds :
    (v : VoteWeighting) (m : Membership) (now : Timestamp)
    → (1 ≤ weight_of v m now) × (weight_of v m now ≤ 16)
unfolding weight_of
weight_of_bounds v m now = ground arith

square_mono : (a b : ℕ) → a ≤ b → a * a ≤ b * b
square_mono a b h = grind arith

root_of_weight :
    (m : Membership) (now : Timestamp) (k : ℕ)
    → k + 1 ≤ weight_of by_contribution m now
    → k ≤ isqrt (pos_part m.contribution)
unfolding weight_of
root_of_weight m now k h = ground arith

-- A weight of `k + 1` by contribution takes a contribution of `k * k` at least.
pub weight_of-by_contribution :
    (m : Membership) (now : Timestamp) (k : ℕ)
    → k + 1 ≤ weight_of by_contribution m now
    → k * k ≤ pos_part m.contribution
weight_of-by_contribution m now k h = omega (
  arith,
  isqrt_bounds (pos_part m.contribution),
  square_mono k (isqrt (pos_part m.contribution)) (root_of_weight m now k h),
)
