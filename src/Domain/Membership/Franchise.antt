-- ===== src/Domain/Membership/Franchise.antt =====
-- Who is eligible, and how fast the electorate may grow.
use democrachat.Prelude.{subst, ℕ, ◌+◌, ◌*◌, ◌-◌, ◌≤◌, ◌<◌, max, ◌≡◌, ◌↔◌, true, false, arith}
use democrachat.Prelude.Int.{pos, ◌+ℤ◌, ◌≤ℤ◌}
use democrachat.Prelude.Std.{u64_max, div_ceil}
use democrachat.Domain.Time.{Timestamp, le-days_since}
use democrachat.Domain.Membership.{
  User, Membership, FranchiseCriteria, is_eligible, evaluate_eligibility, account_age_days,
  membership_age_days, enfranchisement_slots,
}

-- What a member needs for the franchise.
pub record Qualifies (u : User) (m : Membership) (c : FranchiseCriteria) (now : Timestamp)
    : Type 0 where
  pub not_barred : u.is_franchise_barred ≡ false
  pub not_sanctioned : m.is_sanctioned ≡ false
  pub old_account : c.min_account_age_days ≤ℤ account_age_days u now
  pub long_member : c.min_membership_days ≤ℤ membership_age_days m now
  pub contributed : c.min_contribution ≤ℤ m.contribution

-- A member is found eligible exactly when the account is not barred, the membership is not
-- sanctioned, and account age, membership age and contribution each reach the server's criteria.
pub is_eligible-evaluate_eligibility :
    (u : User) (m : Membership) (c : FranchiseCriteria) (now : Timestamp)
    → (is_eligible (evaluate_eligibility u m c now) ≡ true) ↔ Qualifies u m c now
unfolding evaluate_eligibility is_eligible account_age_days membership_age_days
is_eligible-evaluate_eligibility u m c now = ground arith

-- When the criteria ask for `a` days of account age and `d` days of membership, the account of an
-- eligible member was created at least `a` times 86,400 seconds ago, and the member joined at
-- least `d` times 86,400 seconds ago.
pub evaluate_eligibility_dwell :
    (u : User) (m : Membership) (c : FranchiseCriteria) (now : Timestamp) (a d : ℕ)
    → c.min_account_age_days ≡ pos a
    → c.min_membership_days ≡ pos d
    → is_eligible (evaluate_eligibility u m c now) ≡ true
    → (u.created_at +ℤ pos (a * 86400) ≤ℤ now) × (m.joined_at +ℤ pos (d * 86400) ≤ℤ now)
unfolding account_age_days membership_age_days
evaluate_eligibility_dwell u m c now a d ea ed h =
    let q = (is_eligible-evaluate_eligibility u m c now).0 h in
    (
      le-days_since a now u.created_at (subst (λ x. x ≤ℤ account_age_days u now) ea q.old_account),
      le-days_since d now m.joined_at
          (subst (λ x. x ≤ℤ membership_age_days m now) ed q.long_member),
    )

-- With a citizen count whose tenfold does not saturate, the open slots are the larger of 5 and a
-- tenth of the citizens, rounded up, less the recent admissions, and none where these are more.
pub enfranchisement_slots_cap :
    (citizens admitted : ℕ)
    → citizens * 10 + 99 ≤ u64_max
    → enfranchisement_slots citizens admitted ≡ max 5 (div_ceil citizens 10) - admitted
unfolding enfranchisement_slots
enfranchisement_slots_cap citizens admitted h = omega arith

-- Where a slot is open, one more admission keeps within the cap.
pub enfranchisement_slots_open :
    (citizens admitted : ℕ)
    → citizens * 10 + 99 ≤ u64_max
    → 0 < enfranchisement_slots citizens admitted
    → admitted + 1 ≤ max 5 (div_ceil citizens 10)
enfranchisement_slots_open citizens admitted h o =
    omega (arith, enfranchisement_slots_cap citizens admitted h)
