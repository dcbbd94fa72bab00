-- ===== src/App/Franchise.antt =====
-- crates/app/src/services.rs: founding a server, joining it, invites, and the franchise.
-- The digest of an invite code is a parameter, since it comes from the `sha2` crate; a fresh code
-- is an argument. A use-case that fails leaves the store as it was.
pub mod Growth
use democrachat.App.Results.{
  Result, ok, err, ok_or, fail_if, ◌>>=◌, ◌>>◌, RegisterError, EnfranchiseError, EnfranchiseOutcome,
  JoinError, FoundError, InviteError, admitted,
}
use democrachat.Domain.Membership.{
  User, new_user, Membership, joined, is_citizen, Tier, Eligibility, is_eligible,
  evaluate_eligibility, enfranchisement_slots,
}
use democrachat.Domain.Names.{slugify}
use democrachat.Domain.Server.{
  Server, new_server, Invite, new_invite, is_live, allows_member_invites, Phase, from_citizen_count,
}
use democrachat.Domain.Time.{Timestamp, seconds_per_day}
use democrachat.Prelude.{
  nat_eq, list_eq, Eq, ℕ, ◌*◌, Bool, true, false, not, Option, none, some, List, [], ◌∷◌, retain,
  nat_beq, if◌then◌else◌, pair_eq, sort_by_key, triple_eq,
}
use democrachat.Prelude.Int.{ℤ, pos, ◌-ℤ◌}
use democrachat.Prelude.Maps.{get, values}
use democrachat.Prelude.Std.{Text, trim, is_empty}
use democrachat.Store.{
  Inner, next_user_id, put_user, find_by_handle, next_server_id, put_server, find_by_slug,
  get_membership, upsert_membership, citizen_count, admitted_since,
}
use democrachat.Store.People.{add_invite, by_hash, invites_of, revoke}
use democrachat.Domain.Membership

abbrev pub rate_cap_window_days : ℕ
rate_cap_window_days = 30

abbrev pub is_some {ℓ} : {A : Type ℓ} → Option A → Bool
is_some none = false
is_some (some _) = true

unfoldable pub register_account : Inner → Timestamp → Text → Result RegisterError (User × Inner)
register_account s now handle = do
  let name = trim handle
  fail_if (is_empty name) RegisterError.empty_handle
  fail_if (is_some (find_by_handle s name)) (RegisterError.handle_taken name)
  let (id, t) = next_user_id s
  let user = record (new_user id name now) { email_verified = true }
  ok (user, put_user t user)

-- The new server, and the seat of its founder, citizen #1.
abbrev pub home : ℕ → Text → ℕ → Timestamp → Bool → Server
unfolding new_server
home id name founder now is_private =
    record (new_server id (slugify name) (trim name) founder now) { is_private = is_private }

abbrev pub founder_seat : ℕ → ℕ → Timestamp → Membership
unfolding joined
founder_seat founder server now = record (joined founder server now) {
  tier = Membership.citizen;
  enfranchised_at = some now;
}

unfoldable pub found_server_with_visibility :
    Inner → Timestamp → Text → Text → Bool → Result FoundError (Server × Inner)
found_server_with_visibility s now founder_handle name is_private = do
  founder ← ok_or (find_by_handle s (trim founder_handle)) (FoundError.no_such_user founder_handle)
  fail_if founder.is_franchise_barred FoundError.founder_barred
  let slug = slugify name
  fail_if (is_empty slug) FoundError.empty_name
  fail_if (is_some (find_by_slug s slug)) (FoundError.slug_taken slug)
  let (id, t) = next_server_id s
  let server = home id name founder.id now is_private
  ok (server, upsert_membership (put_server t server) (founder_seat founder.id server.id now))

unfoldable pub found_server : Inner → Timestamp → Text → Text → Result FoundError (Server × Inner)
unfolding found_server_with_visibility
found_server s now founder_handle name =
    found_server_with_visibility s now founder_handle name false

unfoldable pub join_server : Inner → Timestamp → Text → Text → Result JoinError (Membership × Inner)
join_server s now handle server_slug = do
  user ← ok_or (find_by_handle s (trim handle)) (JoinError.no_such_user handle)
  server ← ok_or (find_by_slug s (trim server_slug)) (JoinError.no_such_server server_slug)
  fail_if (is_some (get_membership s user.id server.id)) (JoinError.already_member server_slug)
  let m = joined user.id server.id now
  ok (m, upsert_membership s m)

-- The member, read as a triple with the account and the server.
abbrev pub standing : Inner → Text → Text → Result EnfranchiseError (User × Server × Membership)
standing s handle server_slug = do
  user ← ok_or (find_by_handle s (trim handle)) (EnfranchiseError.no_such_user handle)
  server ← ok_or (find_by_slug s (trim server_slug)) (EnfranchiseError.no_such_server server_slug)
  membership ← ok_or (get_membership s user.id server.id) (EnfranchiseError.not_a_member handle)
  ok (user, server, membership)

abbrev pub window_start : Timestamp → Timestamp
window_start now = now -ℤ pos (rate_cap_window_days * seconds_per_day)

-- What admission writes.
abbrev pub admit : Membership → Timestamp → Membership
admit m now = record m { tier = Membership.citizen; enfranchised_at = some now }

-- Layer 1, then layer 2, for a member who is not yet a citizen.
unfoldable pub enfranchise :
    Inner → Timestamp → User → Server → Membership → EnfranchiseOutcome × Inner
enfranchise s now user server membership =
    let eligibility = evaluate_eligibility user membership server.criteria now in
    let admitted = admitted_since s server.id (window_start now) in
    if not (is_eligible eligibility)
    then (EnfranchiseOutcome.not_eligible eligibility.unmet, s)
    else if nat_beq (enfranchisement_slots (citizen_count s server.id) admitted) 0
    then (EnfranchiseOutcome.rate_capped admitted, s)
    else (EnfranchiseOutcome.admitted, upsert_membership s (admit membership now))

unfoldable pub try_enfranchise :
    Inner → Timestamp → Text → Text → Result EnfranchiseError (EnfranchiseOutcome × Inner)
unfolding enfranchise
try_enfranchise s now handle server_slug = do
  (user, server, membership) ← standing s handle server_slug
  fail_if (is_citizen membership) (EnfranchiseError.already_citizen handle)
  ok (enfranchise s now user server membership)

unfoldable pub eligibility : Inner → Timestamp → Text → Text → Result EnfranchiseError Eligibility
eligibility s now handle server_slug = do
  (user, server, membership) ← standing s handle server_slug
  ok (evaluate_eligibility user membership server.criteria now)

unfoldable pub set_contribution : Inner → Text → Text → ℤ → Result EnfranchiseError Inner
set_contribution s handle server_slug contribution = do
  (user, server, membership) ← standing s handle server_slug
  ok (upsert_membership s (record membership { contribution = contribution }))

-- A member of the server and the server, as the invite use-cases read them.
abbrev pub host : Inner → Text → Text → Result InviteError (User × Server)
host s handle server_slug = do
  user ← ok_or (find_by_handle s (trim handle)) (InviteError.no_such_user handle)
  server ← ok_or (find_by_slug s (trim server_slug)) (InviteError.no_such_server server_slug)
  fail_if (not (is_some (get_membership s user.id server.id))) (InviteError.not_member server_slug)
  ok (user, server)

abbrev pub live_only : Option Invite → Option Invite
live_only none = none
live_only (some i) = if is_live i then some i else none

abbrev belongs_to : Option Invite → ℕ → Bool
belongs_to none server = false
belongs_to (some i) server = nat_beq i.server_id server

module _ (hash_code : Text → Text) where
  unfoldable pub create_invite :
      Inner → Timestamp → (code : Text) → Text → Text → Result InviteError (Text × Inner)
  create_invite s now code handle server_slug = do
    (user, server) ← host s handle server_slug
    fail_if (not (allows_member_invites server)) (InviteError.closed_to server_slug)
    ok (code, add_invite s (new_invite (hash_code code) server.id user.id now))

  unfoldable pub accept_invite :
      Inner → Timestamp → Text → Text → Result InviteError (Membership × Inner)
  accept_invite s now handle code = do
    user ← ok_or (find_by_handle s (trim handle)) (InviteError.no_such_user handle)
    invite ← ok_or (live_only (by_hash s (hash_code code))) InviteError.invalid_code
    server ← ok_or (get invite.server_id s.servers) InviteError.invalid_code
    fail_if (not (allows_member_invites server)) (InviteError.closed_to server.slug)
    fail_if (is_some (get_membership s user.id server.id)) (InviteError.already_member server.slug)
    let m = joined user.id server.id now
    ok (m, upsert_membership s m)

unfoldable pub list_invites : Inner → Text → Text → Result InviteError (List Invite)
list_invites s handle server_slug = do
  (user, server) ← host s handle server_slug
  ok (retain is_live (invites_of s server.id))

-- A code that is another server's is left alone.
unfoldable pub revoke_invite : Inner → Text → Text → Text → Result InviteError Inner
revoke_invite s handle server_slug code_hash = do
  (user, server) ← host s handle server_slug
  ok (if belongs_to (by_hash s code_hash) server.id then revoke s code_hash else s)

-- A server with its phase and its citizens.
abbrev pub snapshot : Inner → Server → Server × Phase × ℕ
snapshot s server =
    let citizens = citizen_count s server.id in (server, from_citizen_count citizens, citizens)

abbrev snapshots : Inner → List Server → List (Server × Phase × ℕ)
snapshots s [] = []
snapshots s (v ∷ l) = snapshot s v ∷ snapshots s l

unfoldable pub list_servers : Inner → List (Server × Phase × ℕ)
list_servers s = snapshots s (sort_by_key (λ v. v.id) (values s.servers))

unfoldable pub my_servers : Inner → Text → List (Server × Phase × ℕ)
unfolding list_servers
my_servers s handle = elim (find_by_handle s (trim handle)) [
  | none ↦ []
  | some user ↦ retain (λ e. is_some (get_membership s user.id e.0.id)) (list_servers s)
]

unfoldable pub list_public_servers : Inner → List (Server × Phase × ℕ)
unfolding list_servers
list_public_servers s = retain (λ e. not e.0.is_private) (list_servers s)
