-- ===== src/Examples/Social.antt =====
-- The theorems of direct messages, blocks and friendships at a small store.
use democrachat.Prelude.{refl, ◌≡◌, not, ◌&&◌, true, false, List, [], ◌∷◌, some, nat_eq, list_eq}
use democrachat.Prelude.Int.{pos}
use democrachat.Prelude.Std.{codes}
use democrachat.Domain.Time.{Timestamp}
use democrachat.Domain.Membership.{new_user}
use democrachat.Domain.Social.{
  pending_request, block_between, friendship_between, Friendship, new_request, accept, are_friends,
  policy_allows,
}
use democrachat.Store.{Inner}
use democrachat.Store.People.{is_blocked_between, friendship_of, update_friendship}
use democrachat.App.Results.{ok}
use democrachat.App.Social.{may_dm, accept_friend_between}
use democrachat.App.Social.Silence
use democrachat.App.Social.Silence.{SocialAction, perform_each, may_dm_iff, perform_each_silent}
use democrachat.App.Social.Friends.{Befriended, accept_friend_between_accepts}
use democrachat.Examples.Services.{alice, bob, store}

may_dm_iff_example : may_dm store alice bob ≡ (
    not (is_blocked_between store alice.id bob.id)
    && policy_allows bob.dm_policy alice.id bob.id store.friends)
may_dm_iff_example = may_dm_iff store alice bob

abbrev blocked : Inner
blocked = record store { blocks = record { blocker = 2; blocked = 1; created_at = pos 3 } ∷ [] }

is_blocked : is_blocked_between blocked alice.id bob.id ≡ true
unfolding is_blocked_between new_user block_between
is_blocked = refl

abbrev history : List (Timestamp × SocialAction)
history =
    (pos 4, Silence.requests (codes "alice") (codes "bob"))
    ∷ (pos 5, Silence.accepts_from (codes "bob") (codes "alice"))
    ∷ []

perform_each_silent_example :
    (may_dm (perform_each blocked history) alice bob ≡ false)
    × (may_dm (perform_each blocked history) bob alice ≡ false)
perform_each_silent_example = perform_each_silent blocked history alice bob is_blocked

abbrev request : Friendship
request = new_request 1 2 (pos 4)

abbrev asked : Inner
asked = record store { friends = request ∷ [] }

abbrev befriended : Inner
befriended = update_friendship asked (accept request)

bob_accepts : accept_friend_between asked bob alice ≡ ok befriended
unfolding accept_friend_between friendship_of are_friends accept new_request new_user
    update_friendship friendship_between
bob_accepts = refl

accept_friend_between_accepts_example :
    (f : Friendship) × (friendship_of asked bob.id alice.id ≡ some f)
    × (f.requester ≡ alice.id)
    × (f.addressee ≡ bob.id)
    × (f.status ≡ pending_request)
    × Befriended befriended bob alice
accept_friend_between_accepts_example =
    accept_friend_between_accepts asked befriended bob alice bob_accepts
