-- ===== src/App/Actions.antt =====
-- The use-cases of accounts, servers and governance as one step of the store.
pub mod Paths
pub mod Runs
use democrachat.App.Franchise.{
  enfranchise, live_only, standing, admit, window_start, is_some, register_account,
  found_server_with_visibility, join_server, create_invite, accept_invite, revoke_invite,
  try_enfranchise, set_contribution,
}
use democrachat.App.Franchise.Growth.{Admission, enfranchise_admits}
use democrachat.App.Governance.{open_proposal, cast_vote, cast_vote_by_id, resolve_due}
use democrachat.App.Paths.{
  Way, Sound, Sound-of_Keeps, Sound-of_eq, Sound-upsert, Sound-joined, Sound-founded, Sound-earned,
}
use democrachat.App.Results.{◌>>=◌, EnfranchiseError, Result, ok, err, ok_inj}
use democrachat.Domain.Governance.{ProposalKind}
use democrachat.Domain.Membership.{
  User, Membership, Tier, is_citizen, joined, enfranchisement_slots, evaluate_eligibility,
  is_eligible,
}
use democrachat.Domain.Membership.Franchise.{Qualifies}
use democrachat.Domain.Server.{allows_member_invites, new_server, Server}
use democrachat.Domain.Time.{Timestamp}
use democrachat.Prelude.{
  ◌∷◌, [], List, arith, subst, beq_refl, ◌∙◌, sym, ℕ, ◌<◌, ◌≡◌, refl, Bool-cases, Option-cases,
  Bool, true, false, none, some, pair_eq, nat_eq, list_eq, inl, inr, triple_eq,
}
use democrachat.Prelude.Int.{ℤ}
use democrachat.Prelude.Maps.{get-insert, get}
use democrachat.Prelude.Std.{is_empty, trim, Text}
use democrachat.Store.{
  find_by_slug, find_by_handle, next_server_id, put_user, next_user_id, put_server, Inner,
  get_membership, upsert_membership, citizen_count, admitted_since,
}
use democrachat.Store.Members.{
  Keeps-upsert, stored_at, get-upsert, Keyed-upsert, is_at_iff, is_at, Keyed, standing_of, Keeps,
  Keeps-refl, Keeps-of_eq,
}
use democrachat.Store.People.{add_invite, revoke, by_hash}
use democrachat.Store.Votes.{next_proposal_id, put_proposal, upsert_vote}
use mathlib.Core.Option
use democrachat.Domain.Membership

-- A request to one of the use-cases.
pub data Action : Type 0 where
  registers : Text → Action
  founds : Text → Text → Bool → Action
  joins : Text → Text → Action
  invites_with : (code handle server_slug : Text) → Action
  accepts : (handle code : Text) → Action
  revokes : (handle server_slug code_hash : Text) → Action
  claims_franchise : Text → Text → Action
  contributes : Text → Text → ℤ → Action
  proposes : Text → Text → ProposalKind → Action
  votes_as : Text → ℕ → Bool → Action
  votes_by_id : ℕ → ℕ → Bool → Action
  resolves : Text → Action

-- A failed use-case leaves the store as it was.
abbrev pub settle {ℓ κ} : {E : Type ℓ} {A : Type κ} → Inner → (A → Inner) → Result E A → Inner
settle s f (err e) = s
settle s f (ok a) = f a

module _ (hash_code lower : Text → Text) where
  unfoldable pub perform : Inner → Timestamp → Action → Inner
  perform s now (registers handle) = settle s (λ r. r.1) (register_account s now handle)
  perform s now (founds handle name is_private) =
      settle s (λ r. r.1) (found_server_with_visibility s now handle name is_private)
  perform s now (joins handle slug) = settle s (λ r. r.1) (join_server s now handle slug)
  perform s now (invites_with code handle slug) =
      settle s (λ r. r.1) (create_invite hash_code s now code handle slug)
  perform s now (accepts handle code) =
      settle s (λ r. r.1) (accept_invite hash_code s now handle code)
  perform s now (revokes handle slug code_hash) =
      settle s (λ r. r) (revoke_invite s handle slug code_hash)
  perform s now (claims_franchise handle slug) =
      settle s (λ r. r.1) (try_enfranchise s now handle slug)
  perform s now (contributes handle slug c) = settle s (λ r. r) (set_contribution s handle slug c)
  perform s now (proposes handle slug kind) =
      settle s (λ r. r.1) (open_proposal s now handle slug kind)
  perform s now (votes_as handle proposal is_aye) =
      settle s (λ r. r) (cast_vote s handle proposal is_aye)
  perform s now (votes_by_id voter proposal is_aye) =
      settle s (λ r. r) (cast_vote_by_id s voter proposal is_aye)
  perform s now (resolves slug) = resolve_due lower s now slug

-- A history: requests in the order they are served, each at its instant.
unfoldable pub perform_all :
    (hash_code lower : Text → Text) → Inner → List (Timestamp × Action) → Inner
unfolding perform
perform_all hash_code lower s [] = s
perform_all hash_code lower s ((now, a) ∷ rest) =
    perform_all hash_code lower (perform hash_code lower s now a) rest
