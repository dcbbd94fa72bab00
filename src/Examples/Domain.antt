-- ===== src/Examples/Domain.antt =====
-- The theorems of the domain at concrete inputs.
use mathlib.Core.List.{Perm, Permᴰ}
use democrachat.Prelude.{
  refl, ◌+◌, ◌*◌, ◌-◌, ◌≤◌, ◌<◌, ℕ, ◌≡◌, ◌≢◌, ◌↔◌, ◌⊎◌, true, false, List, [], ◌∷◌, arith, some,
  All, contains, nat_eq,
}
use democrachat.Prelude.Int.{pos, ◌-ℤ◌, ◌+ℤ◌, ◌≤ℤ◌}
use democrachat.Prelude.Std.{isqrt, codes}
use democrachat.Domain.Time.{Timestamp, days_since}
use democrachat.Domain.Membership.{
  User, new_user, Membership, joined, platform_default, is_eligible, evaluate_eligibility,
}
use democrachat.Domain.Membership.Franchise.{
  Qualifies, is_eligible-evaluate_eligibility, evaluate_eligibility_dwell,
}
use democrachat.Domain.Governance
use democrachat.Domain.Governance.{
  Proposal, new_proposal, close, Tally, passed, is_open, decision_class, ProposalStatus,
}
use democrachat.Domain.Governance.Bars.{Carries, effect_time, close_passed, close_mono}
use democrachat.Domain.Server.{Server, new_server, chartering}
use democrachat.Domain.Jury
use democrachat.Domain.Jury.{
  jury_size, reach_verdict, guilty, not_guilty, pending, select_jury, default_sizing,
}
use democrachat.Domain.Jury.Verdicts.{jury_size_bounds, reach_verdict_iff, reach_verdict_final}
use democrachat.Domain.Jury.Selection.{select_jury-perm, select_jury_members}
use democrachat.Domain.Names.{slugify}
use democrachat.Domain.Names.Slugs.{is_slug_char, Separated, slugify_shape}
use democrachat.Domain.Weighting.{weight_of, by_contribution, weight_of_bounds}
use democrachat.Domain.Ballots.{kind_eq, BallotKind, from_name, debug_name, from_name_iff}
use democrachat.Domain.Ballots
use democrachat.Domain.Node.{compose_id, origin_node, local_sequence, compose_id_parts}

abbrev pub alice : User
alice = new_user 1 (codes "alice") (pos 0)

-- A member of 40 days with a contribution of 9.
abbrev pub regular : Membership
regular = record (joined 1 7 (pos 0)) { contribution = pos 9 }

abbrev day_40 : Timestamp
day_40 = pos 3456000

is_eligible-evaluate_eligibility_example :
    (is_eligible (evaluate_eligibility alice regular platform_default day_40) ≡ true)
    ↔ Qualifies alice regular platform_default day_40
is_eligible-evaluate_eligibility_example =
    is_eligible-evaluate_eligibility alice regular platform_default day_40

regular-is_eligible :
    is_eligible (evaluate_eligibility alice regular platform_default day_40) ≡ true
unfolding is_eligible evaluate_eligibility platform_default new_user joined days_since ◌-ℤ◌
regular-is_eligible = refl

asks_30_days : platform_default.min_account_age_days ≡ pos 30
unfolding platform_default
asks_30_days = refl

asks_14_days : platform_default.min_membership_days ≡ pos 14
unfolding platform_default
asks_14_days = refl

evaluate_eligibility_dwell_example :
    (alice.created_at +ℤ pos (30 * 86400) ≤ℤ day_40)
    × (regular.joined_at +ℤ pos (14 * 86400) ≤ℤ day_40)
evaluate_eligibility_dwell_example =
    evaluate_eligibility_dwell alice regular platform_default day_40 30 14 asks_30_days asks_14_days
      regular-is_eligible

abbrev ban_ballot : Proposal
ban_ballot = new_proposal 5 7 1 (Governance.ban 2) (pos 0) (pos 259200)

abbrev eight_two : Tally
eight_two = record { aye = 8; nay = 2 }

abbrev nine_two : Tally
nine_two = record { aye = 9; nay = 2 }

ban_passes : (close ban_ballot eight_two 20 chartering (pos 259200)).status ≡ passed (pos 259200)
unfolding close new_proposal
ban_passes = refl

close_passed_example :
    ((close ban_ballot eight_two 20 chartering (pos 259200)).status ≡ passed (pos 259200)) ↔ (
      Carries (decision_class ban_ballot.kind) chartering eight_two 20
      × (pos 259200 ≡ effect_time (decision_class ban_ballot.kind) (pos 259200)))
close_passed_example =
    close_passed ban_ballot eight_two 20 chartering (pos 259200) (pos 259200) (omega arith)

close_mono_example :
    (close ban_ballot nine_two 20 chartering (pos 259200)).status ≡ passed (pos 259200)
close_mono_example =
    close_mono ban_ballot eight_two nine_two 20 chartering (pos 259200) (pos 259200) (omega arith)
      (omega arith) (omega arith) (omega arith) (omega arith) ban_passes

is_settled : reach_verdict 6 1 9 ≢ pending
unfolding reach_verdict
is_settled h = ground arith

reach_verdict_final_example : reach_verdict 6 3 9 ≡ reach_verdict 6 1 9
reach_verdict_final_example =
    reach_verdict_final 6 1 6 3 9 (omega arith) (omega arith) (omega arith) (omega arith)
      (omega arith) is_settled

abbrev pool : List ℕ
pool = 3 ∷ 5 ∷ 8 ∷ []

abbrev pool_swapped : List ℕ
pool_swapped = 5 ∷ 3 ∷ 8 ∷ []

same_pool : Perm pool pool_swapped
same_pool = ∣ Permᴰ.swap refl refl ∣₁

select_jury-perm_example : select_jury pool 8 2 77 ≡ select_jury pool_swapped 8 2 77
select_jury-perm_example = select_jury-perm pool pool_swapped 8 2 77 same_pool

select_jury_members_example :
    All (λ c. (c ≢ 5) × (contains pool c ≡ true)) (select_jury pool 5 2 77)
select_jury_members_example = select_jury_members pool 5 2 77

weight_of_bounds_example :
    (1 ≤ weight_of by_contribution regular day_40) × (weight_of by_contribution regular day_40 ≤ 16)
weight_of_bounds_example = weight_of_bounds by_contribution regular day_40

weighs_four : 3 + 1 ≤ weight_of by_contribution regular day_40
unfolding weight_of isqrt
weighs_four = omega arith

from_name_iff_example :
    (from_name (codes "Ban") ≡ some Ballots.ban) ↔ (codes "Ban" ≡ debug_name Ballots.ban)
from_name_iff_example = from_name_iff (codes "Ban") Ballots.ban

abbrev tea_club : Server
tea_club = new_server 7 (codes "tea-club") (codes "Tea Club") 1 (pos 0)

compose_id_parts_example :
    (compose_id 3 41 < 18446744073709551616)
    × (origin_node (compose_id 3 41) ≡ 3)
    × (local_sequence (compose_id 3 41) ≡ 41)
compose_id_parts_example = compose_id_parts 3 41 (omega arith) (omega arith)

jury_size_bounds_example :
    ((jury_size default_sizing 30 Jury.post ≡ 0) ⊎ (2 * jury_size default_sizing 30 Jury.post < 30))
    × ((0 < jury_size default_sizing 30 Jury.post) ↔ (3 ≤ 30))
jury_size_bounds_example = jury_size_bounds default_sizing 30 Jury.post

reach_verdict_iff_example :
    ((reach_verdict 6 1 9 ≡ guilty) ↔ ((0 < 9) × (2 * 9 ≤ 3 * 6)))
    × ((reach_verdict 6 1 9 ≡ not_guilty) ↔ ((◌≡◌ {A = ℕ} 9 0) ⊎ (3 * (9 - 1) < 2 * 9)))
reach_verdict_iff_example = reach_verdict_iff 6 1 9 (omega arith) (omega arith)

slugify_shape_example :
    All (λ c. is_slug_char c ≡ true) (slugify (codes " Tea  Club!"))
    × Separated false (slugify (codes " Tea  Club!"))
    × (slugify (slugify (codes " Tea  Club!")) ≡ slugify (codes " Tea  Club!"))
slugify_shape_example = slugify_shape (codes " Tea  Club!")
