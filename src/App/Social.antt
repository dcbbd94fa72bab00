-- ===== src/App/Social.antt =====
-- crates/app/src/social_service.rs: direct messages, permanent blocks, friendships.
-- A by-handle entry point and a by-id one share a core, which takes the two accounts.

pub mod Silence
pub mod Friends
use democrachat.Prelude.{
  ◌||◌, ℕ, Bool, not, ◌&&◌, Option, none, some, nat_beq, nat_eq, if◌then◌else◌,
}
use democrachat.Prelude.Maps.{get}
use democrachat.Prelude.Std.{Text, trim, is_empty}
use democrachat.Domain.Time.{Timestamp}
use democrachat.Domain.Membership.{User, DmPolicy}
use democrachat.Domain.Social.{Friendship, new_request, accept, are_friends, DmMessage, can_dm}
use democrachat.Store.{Inner, put_user, find_by_handle}
use democrachat.Store.People.{
  add_block, blocks_involving, add_friendship, update_friendship, friendship_of, friends_involving,
  next_dm_id, insert_dm,
}
use democrachat.App.Results.{Result, ok, ok_or, fail_if, ◌>>=◌, ◌>>◌}

pub data DmError : Type 0 where
  no_such_user : Text → DmError
  no_such_user_id : ℕ → DmError
  to_self empty_body not_allowed : DmError

pub data SocialError : Type 0 where
  no_such_user : Text → SocialError
  no_such_user_id : ℕ → SocialError
  to_self no_pending_request : SocialError

unfoldable pub may_dm : Inner → User → User → Bool
may_dm s sender recipient =
    can_dm sender.id recipient.id recipient.dm_policy (blocks_involving s recipient.id)
      (friends_involving s recipient.id)

unfoldable pub send_sealed_dm_core :
    Inner → Timestamp → User → User → Text → Text → Result DmError (DmMessage × Inner)
unfolding may_dm
send_sealed_dm_core s now sender recipient sealed_for_recipient sealed_for_sender = do
  fail_if (nat_beq sender.id recipient.id) DmError.to_self
  fail_if (is_empty (trim sealed_for_recipient) || is_empty (trim sealed_for_sender))
      DmError.empty_body
  fail_if (not (may_dm s sender recipient)) DmError.not_allowed
  let (id, t) = next_dm_id s
  let message : DmMessage = record {
    id = id;
    sender = sender.id;
    recipient = recipient.id;
    sealed_for_recipient = trim sealed_for_recipient;
    sealed_for_sender = trim sealed_for_sender;
    created_at = now;
  }
  ok (message, insert_dm t message)

unfoldable pub send_sealed_dm :
    Inner → Timestamp → Text → Text → Text → Text → Result DmError (DmMessage × Inner)
unfolding send_sealed_dm_core
send_sealed_dm s now from_handle to_handle for_recipient for_sender = do
  sender ← ok_or (find_by_handle s (trim from_handle)) (DmError.no_such_user from_handle)
  recipient ← ok_or (find_by_handle s (trim to_handle)) (DmError.no_such_user to_handle)
  send_sealed_dm_core s now sender recipient for_recipient for_sender

unfoldable pub send_sealed_dm_by_id :
    Inner → Timestamp → ℕ → ℕ → Text → Text → Result DmError (DmMessage × Inner)
unfolding send_sealed_dm_core
send_sealed_dm_by_id s now from_id to_id for_recipient for_sender = do
  sender ← ok_or (get from_id s.users) (DmError.no_such_user_id from_id)
  recipient ← ok_or (get to_id s.users) (DmError.no_such_user_id to_id)
  send_sealed_dm_core s now sender recipient for_recipient for_sender

unfoldable pub set_dm_policy : Inner → Text → DmPolicy → Result SocialError Inner
set_dm_policy s handle policy = do
  user ← ok_or (find_by_handle s (trim handle)) (SocialError.no_such_user handle)
  ok (put_user s (record user { dm_policy = policy }))

-- Two accounts by handle, and by id.
abbrev pub pair_of : Inner → Text → Text → Result SocialError (User × User)
pair_of s a b = do
  first ← ok_or (find_by_handle s (trim a)) (SocialError.no_such_user a)
  second ← ok_or (find_by_handle s (trim b)) (SocialError.no_such_user b)
  ok (first, second)

abbrev pub pair_by_id : Inner → ℕ → ℕ → Result SocialError (User × User)
pair_by_id s a b = do
  first ← ok_or (get a s.users) (SocialError.no_such_user_id a)
  second ← ok_or (get b s.users) (SocialError.no_such_user_id b)
  ok (first, second)

unfoldable pub block_users : Inner → Timestamp → User → User → Result SocialError Inner
block_users s now blocker blocked = do
  fail_if (nat_beq blocker.id blocked.id) SocialError.to_self
  ok ((add_block s (record { blocker = blocker.id; blocked = blocked.id; created_at = now })).1)

unfoldable pub block_user : Inner → Timestamp → Text → Text → Result SocialError Inner
unfolding block_users
block_user s now blocker_handle blocked_handle = do
  (blocker, blocked) ← pair_of s blocker_handle blocked_handle
  block_users s now blocker blocked

unfoldable pub block_user_by_id : Inner → Timestamp → ℕ → ℕ → Result SocialError Inner
unfolding block_users
block_user_by_id s now blocker_id blocked_id = do
  (blocker, blocked) ← pair_by_id s blocker_id blocked_id
  block_users s now blocker blocked

unfoldable pub request_friend_between : Inner → Timestamp → User → User → Result SocialError Inner
request_friend_between s now requester addressee = do
  fail_if (nat_beq requester.id addressee.id) SocialError.to_self
  ok ((add_friendship s (new_request requester.id addressee.id now)).1)

unfoldable pub request_friend : Inner → Timestamp → Text → Text → Result SocialError Inner
unfolding request_friend_between
request_friend s now requester_handle addressee_handle = do
  (requester, addressee) ← pair_of s requester_handle addressee_handle
  request_friend_between s now requester addressee

unfoldable pub request_friend_by_id : Inner → Timestamp → ℕ → ℕ → Result SocialError Inner
unfolding request_friend_between
request_friend_by_id s now requester_id addressee_id = do
  (requester, addressee) ← pair_by_id s requester_id addressee_id
  request_friend_between s now requester addressee

-- The filter of `accept_friend_between`: a pending request from `other` to `me`.
abbrev pub acceptable : ℕ → ℕ → Option Friendship → Option Friendship
acceptable me other none = none
acceptable me other (some f) =
    if not (are_friends f) && nat_beq f.requester other && nat_beq f.addressee me
    then some f
    else none

unfoldable pub accept_friend_between : Inner → User → User → Result SocialError Inner
accept_friend_between s me other = do
  friendship ←
      ok_or (acceptable me.id other.id (friendship_of s me.id other.id))
        SocialError.no_pending_request
  ok (update_friendship s (accept friendship))

unfoldable pub accept_friend : Inner → Text → Text → Result SocialError Inner
unfolding accept_friend_between
accept_friend s me_handle other_handle = do
  (me, other) ← pair_of s me_handle other_handle
  accept_friend_between s me other

unfoldable pub accept_friend_by_id : Inner → ℕ → ℕ → Result SocialError Inner
unfolding accept_friend_between
accept_friend_by_id s accepter_id requester_id = do
  (me, other) ← pair_by_id s accepter_id requester_id
  accept_friend_between s me other
