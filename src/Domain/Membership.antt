-- ===== src/Domain/Membership.antt =====
-- crates/domain/src/user, membership and franchise: accounts, standing within a server, the earned
-- franchise (layer 1) and the cap on its growth (layer 2).
pub mod Franchise
use democrachat.Prelude.{
  ℕ, ◌+◌, ◌-◌, ◌/◌, max, ◌≡◌, Bool, true, false, not, ◌&&◌, ◌||◌, Option, none, List, [], ◌∷◌, ◌++◌,
  if◌then◌else◌,
}
use democrachat.Prelude.Int.{ℤ, pos, ltb_ℤ, leb_ℤ}
use democrachat.Prelude.Std.{Text, is_empty, saturating_add, saturating_mul}
use democrachat.Domain.Time.{Timestamp, days_since}

-- Who may open a direct message with an account.
pub data DmPolicy : Type 0 where
  everyone friends_only : DmPolicy

pub record User : Type 0 where
  pub id : ℕ
  pub handle : Text
  pub created_at : Timestamp
  pub is_franchise_barred : Bool
  pub dm_policy : DmPolicy
  pub password_hash : Text
  pub email_enc : Text
  pub email_verified : Bool

unfoldable pub new_user : ℕ → Text → Timestamp → User
new_user id handle created_at = record {
  id = id;
  handle = handle;
  created_at = created_at;
  is_franchise_barred = false;
  dm_policy = everyone;
  password_hash = [];
  email_enc = [];
  email_verified = false;
}

pub has_email : User → Bool
has_email u = not (is_empty u.email_enc)

unfoldable pub barred : User → User
barred u = record u { is_franchise_barred = true }

unfoldable pub account_age_days : User → Timestamp → ℤ
account_age_days u now = days_since now u.created_at

pub data Tier : Type 0 where
  guest member citizen : Tier

abbrev pub is_citizen_tier : Tier → Bool
is_citizen_tier citizen = true
is_citizen_tier _ = false

pub record Membership : Type 0 where
  pub user_id : ℕ
  pub server_id : ℕ
  pub joined_at : Timestamp
  pub tier : Tier
  pub is_sanctioned : Bool
  pub contribution : ℤ
  pub enfranchised_at : Option Timestamp
  pub granted_weight : ℕ
  pub shares_history_with_newcomers : Bool

unfoldable pub joined : ℕ → ℕ → Timestamp → Membership
joined user_id server_id joined_at = record {
  user_id = user_id;
  server_id = server_id;
  joined_at = joined_at;
  tier = member;
  is_sanctioned = false;
  contribution = pos 0;
  enfranchised_at = none;
  granted_weight = 1;
  shares_history_with_newcomers = true;
}

unfoldable pub shows_message_to : Membership → Timestamp → Timestamp → Bool
shows_message_to m posted_at viewer_joined_at =
    m.shares_history_with_newcomers || leb_ℤ viewer_joined_at posted_at

unfoldable pub is_citizen : Membership → Bool
is_citizen m = is_citizen_tier m.tier

unfoldable pub is_franchised : Membership → Bool
unfolding is_citizen
is_franchised m = is_citizen m && not m.is_sanctioned

unfoldable pub membership_age_days : Membership → Timestamp → ℤ
membership_age_days m now = days_since now m.joined_at

pub record FranchiseCriteria : Type 0 where
  pub min_account_age_days : ℤ
  pub min_membership_days : ℤ
  pub min_contribution : ℤ

unfoldable pub platform_default : FranchiseCriteria
platform_default = record {
  min_account_age_days = pos 30;
  min_membership_days = pos 14;
  min_contribution = pos 5;
}

pub data Unmet : Type 0 where
  account_too_young : (need_days have_days : ℤ) → Unmet
  membership_too_short : (need_days have_days : ℤ) → Unmet
  insufficient_contribution : (need have : ℤ) → Unmet
  sanctioned : Unmet
  barred_account : Unmet

pub record Eligibility : Type 0 where
  pub unmet : List Unmet

unfoldable pub is_eligible : Eligibility → Bool
is_eligible e = is_empty e.unmet

-- `if test { unmet.push(reason) }`, after what is there already.
abbrev push_if : Bool → Unmet → List Unmet → List Unmet
push_if true reason rest = rest ++ reason ∷ []
push_if false reason rest = rest

unfoldable pub evaluate_eligibility :
    User → Membership → FranchiseCriteria → Timestamp → Eligibility
unfolding account_age_days membership_age_days
evaluate_eligibility user membership criteria now =
    if user.is_franchise_barred then record { unmet = barred_account ∷ [] } else record {
      unmet =
          let account_age = account_age_days user now in
          let member_age = membership_age_days membership now in
          push_if membership.is_sanctioned sanctioned (
            push_if (ltb_ℤ membership.contribution criteria.min_contribution)
              (insufficient_contribution criteria.min_contribution membership.contribution)
              (push_if (ltb_ℤ member_age criteria.min_membership_days)
                (membership_too_short criteria.min_membership_days member_age)
                (push_if (ltb_ℤ account_age criteria.min_account_age_days)
                  (account_too_young criteria.min_account_age_days account_age) [])));
    }

-- How many new citizens a server may admit now, from its citizens and the admissions of the
-- trailing window.
unfoldable pub enfranchisement_slots : ℕ → ℕ → ℕ
unfolding saturating_add saturating_mul
enfranchisement_slots citizen_count admitted_last_30d =
    let ten_percent = saturating_add (saturating_mul citizen_count 10) 99 / 100 in
    let cap = max ten_percent 5 in cap - admitted_last_30d
