-- ===== src/Examples/Services.antt =====
-- The theorems of the use-cases at a small store.
use democrachat.App.Actions.{Action, perform, perform_all}
use democrachat.App.Actions.Paths.{perform_paths}
use democrachat.App.Actions.Runs.{Stamped, perform_all-Stamped}
use democrachat.App.Franchise.{admit, try_enfranchise, window_start}
use democrachat.App.Franchise.Growth.{Candidate, try_enfranchise_admitted}
use democrachat.App.Governance.{open_proposal, cast_vote_as, resolve_due}
use democrachat.App.Governance.Ballots.{Opened, open_proposal-Opened, Voted, cast_vote_as-Voted}
use democrachat.App.Governance.Resolution.{SettledAt, resolve_due_settles}
use democrachat.App.Governance.Standing.{resolve_due_standing}
use democrachat.App.Governance.Steps.{Resolves}
use democrachat.App.Paths.{Way}
use democrachat.App.Results.{ok, EnfranchiseOutcome}
use democrachat.Domain.Ballots.{platform_default_surface}
use democrachat.Domain.Governance.{ballot_kind, threshold_for, Proposal, new_proposal}
use democrachat.Domain.Membership.{
  enfranchisement_slots, evaluate_eligibility, is_eligible, platform_default, is_franchised,
  is_citizen, User, new_user, Membership, joined,
}
use democrachat.Domain.Membership.Franchise.{Qualifies}
use democrachat.Domain.Node.{compose_id}
use democrachat.Domain.Server.{governs, Server, new_server, from_citizen_count}
use democrachat.Domain.Time.{plus_days, days_since, Timestamp}
use democrachat.Prelude.{
  All, refl, ◌+◌, ◌*◌, ◌≤◌, max, ℕ, ◌≡◌, true, false, List, [], ◌∷◌, arith, some, nat_eq, list_eq,
  pair_eq, triple_eq,
}
use democrachat.Prelude.Int.{◌+ℤ◌, ◌-ℤ◌, pos}
use democrachat.Prelude.Lists.{sort_by_key, insert_by}
use democrachat.Prelude.Maps.{get}
use democrachat.Prelude.Std.{trim, u64_max, codes, div_ceil, Text}
use democrachat.Store.{
  find_by_slug, upsert_membership, find_by_handle, get_membership, Inner, citizen_count,
  admitted_since,
}
use democrachat.Store.Members.{Keyed, SameStanding}
use democrachat.Store.Votes.{proposals_of, next_proposal_id, upsert_vote, put_proposal, OneBallot}
use democrachat.Domain.Membership
use democrachat.Domain.Governance
use democrachat.App.Actions

-- Alice is the founder of the tea club, and Bob has been a member for 40 days.

abbrev pub alice : User
alice = new_user 1 (codes "alice") (pos 0)

abbrev pub bob : User
bob = new_user 2 (codes "bob") (pos 0)

abbrev pub tea_club : Server
tea_club = new_server 7 (codes "tea-club") (codes "Tea Club") 1 (pos 0)

abbrev founder : Membership
founder = record (joined 1 7 (pos 0)) { tier = Membership.citizen; enfranchised_at = some (pos 0) }

abbrev newcomer : Membership
newcomer = record (joined 2 7 (pos 0)) { contribution = pos 9 }

abbrev ban_ballot : Proposal
ban_ballot = new_proposal 5 7 1 (Governance.ban 2) (pos 0) (pos 259200)

abbrev pub store : Inner
store = record {
  users = (1, alice) ∷ (2, bob) ∷ [];
  servers = (7, tea_club) ∷ [];
  memberships = ((1, 7), founder) ∷ ((2, 7), newcomer) ∷ [];
  channels = [];
  messages = [];
  reactions = [];
  proposals = (5, ban_ballot) ∷ [];
  votes = [];
  emojis = [];
  emoji_votes = [];
  rules = [];
  dms = [];
  blocks = [];
  friends = [];
  roles = [];
  role_assignments = [];
  invites = [];
  media = [];
  media_seq = 0;
  user_keys = [];
  channel_grants = [];
  next_user = 2;
  next_server = 7;
  next_channel = 0;
  next_message = 0;
  next_proposal = 5;
  next_rule = 0;
  next_dm = 0;
  next_role = 0;
  next_emoji = 0;
  node = 0;
  outbox = [];
  next_outbox = 0;
  cursors = [];
  nonces = [];
  verification_tokens = [];
}

abbrev pub day_40 : Timestamp
day_40 = pos 3456000

-- A stand-in for the digest and for the lower-casing of names.
abbrev pub same_text : Text → Text
same_text t = t

store-Keyed : Keyed store
unfolding joined
store-Keyed = (refl, (refl, tt))

perform_paths_example :
    Keyed (
      perform same_text same_text store day_40
        (Actions.claims_franchise (codes "bob") (codes "tea-club")))
    × ((u v : ℕ)
        → Way store
            (perform same_text same_text store day_40
              (Actions.claims_franchise (codes "bob") (codes "tea-club")))
            day_40
            u
            v)
perform_paths_example =
    perform_paths same_text same_text store day_40
      (Actions.claims_franchise (codes "bob") (codes "tea-club")) store-Keyed

abbrev nobody : Inner
nobody = record store { memberships = [] }

nobody-Stamped : Stamped nobody
unfolding get_membership get
nobody-Stamped u v = refl

abbrev history : List (Timestamp × Action)
history =
    (pos 0, Actions.founds (codes "alice") (codes "Chess") false)
    ∷ (pos 5, Actions.joins (codes "bob") (codes "chess"))
    ∷ []

perform_all-Stamped_example :
    Keyed (perform_all same_text same_text nobody history)
    × Stamped (perform_all same_text same_text nobody history)
perform_all-Stamped_example =
    perform_all-Stamped same_text same_text nobody history tt nobody-Stamped

bob_is_Candidate : Candidate store (codes "bob") (codes "tea-club") bob tea_club newcomer
unfolding find_by_handle find_by_slug get_membership is_citizen new_user joined new_server trim get
bob_is_Candidate = record { is_user = refl; is_server = refl; is_member = refl; not_yet = refl }

abbrev after_bob : Inner
after_bob = upsert_membership store (admit newcomer day_40)

bob_admitted :
    try_enfranchise store day_40 (codes "bob") (codes "tea-club")
    ≡ ok (EnfranchiseOutcome.admitted, after_bob)
unfolding try_enfranchise find_by_handle find_by_slug get_membership is_citizen new_user joined
    new_server upsert_membership citizen_count admitted_since platform_default trim get is_eligible
    evaluate_eligibility days_since ◌-ℤ◌ enfranchisement_slots
bob_admitted = refl

few_citizens : citizen_count store 7 * 10 + 99 ≤ u64_max
unfolding citizen_count joined is_citizen
few_citizens = omega arith

try_enfranchise_admitted_example :
    Qualifies bob newcomer tea_club.criteria day_40
    × (citizen_count after_bob 7 ≡ citizen_count store 7 + 1)
    × (admitted_since after_bob 7 (window_start day_40)
        ≤ max 5 (div_ceil (citizen_count store 7) 10))
unfolding new_server
try_enfranchise_admitted_example =
    try_enfranchise_admitted store after_bob day_40 (codes "bob") (codes "tea-club") bob tea_club
      newcomer store-Keyed few_citizens bob_is_Candidate bob_admitted

resolve_due_standing_example :
    Keyed (resolve_due same_text store day_40 (codes "tea-club"))
    × SameStanding store (resolve_due same_text store day_40 (codes "tea-club"))
resolve_due_standing_example =
    resolve_due_standing same_text store day_40 (codes "tea-club") store-Keyed

no_votes : OneBallot store
no_votes p u = omega arith

abbrev after_vote : Inner
after_vote = upsert_vote store (record { proposal_id = 5; voter = 1; is_aye = true })

alice_votes : cast_vote_as store 1 5 true ≡ ok after_vote
unfolding cast_vote_as get_membership joined new_proposal is_franchised upsert_vote get
alice_votes = refl

cast_vote_as-Voted_example : Voted store 1 5 true after_vote × OneBallot after_vote
cast_vote_as-Voted_example = cast_vote_as-Voted store 1 5 true after_vote no_votes alice_votes

abbrev ban_again : Proposal
ban_again = new_proposal 6 7 1 (Governance.ban 2) day_40 (pos 3715200)

abbrev after_proposal : Inner
after_proposal = put_proposal (next_proposal_id store).1 ban_again

alice_proposes :
    open_proposal store day_40 (codes "alice") (codes "tea-club") (Governance.ban 2)
    ≡ ok (ban_again, after_proposal)
unfolding open_proposal find_by_handle find_by_slug get_membership joined new_user new_server
    new_proposal is_franchised citizen_count governs next_proposal_id put_proposal compose_id trim
    get platform_default_surface ballot_kind threshold_for Governance.decision_class plus_days ◌+ℤ◌
alice_proposes = refl

open_proposal-Opened_example :
    Opened store day_40
      (codes "alice")
      (codes "tea-club")
      (Governance.ban 2)
      ban_again
      after_proposal
open_proposal-Opened_example =
    open_proposal-Opened store day_40 (codes "alice") (codes "tea-club") (Governance.ban 2)
      ban_again after_proposal alice_proposes

is_tea_club : find_by_slug store (trim (codes "tea-club")) ≡ some tea_club
unfolding find_by_slug new_server trim
is_tea_club = refl

stored_ballots : All (λ p. get p.id store.proposals ≡ some p) (proposals_of store tea_club.id)
unfolding proposals_of new_server new_proposal get sort_by_key insert_by
stored_ballots = (refl, tt)

resolve_due_settles_example :
    Resolves same_text tea_club
      (from_citizen_count (citizen_count store tea_club.id))
      (citizen_count store tea_club.id)
      day_40
      store
      (proposals_of store tea_club.id)
      (resolve_due same_text store day_40 (codes "tea-club"))
    × All
        (λ p. SettledAt day_40 (resolve_due same_text store day_40 (codes "tea-club")) p.id)
        (proposals_of store tea_club.id)
resolve_due_settles_example =
    resolve_due_settles same_text store day_40 (codes "tea-club") tea_club is_tea_club
      stored_ballots
