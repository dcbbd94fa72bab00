-- ===== src/App/Social/Silence.antt =====
-- Who may write to whom, and that a block is never lifted.
use democrachat.Prelude.{
  ℕ, ◌≡◌, refl, Bool-cases, Option-cases, Bool, true, false, not, ◌&&◌, ◌||◌, List, [], ◌∷◌, ◌++◌,
  any, retain, nat_beq, nat_eq, inl, inr, arith,
}
use democrachat.Prelude.Std.{Text, trim}
use democrachat.Domain.Time.{Timestamp}
use democrachat.Domain.Membership
use democrachat.Prelude.Maps.{get}
use democrachat.Store.{find_by_handle}
use democrachat.App.Social.{block_users}
use democrachat.Domain.Membership.{User, DmPolicy}
use democrachat.Domain.Social.{
  Block, block_between, Friendship, friendship_between, are_friends, can_dm, policy_allows,
}
use democrachat.Store.{Inner, put_user}
use democrachat.Store.People.{
  add_block, blocks_involving, is_blocked_between, friends_involving, add_friendship,
  update_friendship, next_dm_id, insert_dm,
}
use democrachat.App.Actions.{settle}
use democrachat.App.Social.{
  may_dm, send_sealed_dm, send_sealed_dm_by_id, set_dm_policy, block_user, block_user_by_id,
  request_friend, request_friend_by_id, accept_friend, accept_friend_by_id,
}

any-blocks :
    (a b : ℕ) (l : List Block)
    → any (block_between a b) (retain (λ k. nat_beq k.blocker b || nat_beq k.blocked b) l)
      ≡ any (block_between a b) l
unfolding block_between
any-blocks a b [] = refl
any-blocks a b (k ∷ l) = ground (arith, any-blocks a b l)

any-friends :
    (a b : ℕ) (l : List Friendship)
    → any
        (λ f. are_friends f && friendship_between a b f)
        (retain (λ f. nat_beq f.requester b || nat_beq f.addressee b) l)
      ≡ any (λ f. are_friends f && friendship_between a b f) l
unfolding friendship_between are_friends
any-friends a b [] = refl
any-friends a b (k ∷ l) = ground (arith, any-friends a b l)

block_between_comm :
    (a b : ℕ) (l : List Block) → any (block_between a b) l ≡ any (block_between b a) l
unfolding block_between
block_between_comm a b [] = refl
block_between_comm a b (k ∷ l) = ground (arith, block_between_comm a b l)

policy_allows-friends :
    (p : DmPolicy) (a b : ℕ) (l : List Friendship)
    → policy_allows p a b (retain (λ f. nat_beq f.requester b || nat_beq f.addressee b) l)
      ≡ policy_allows p a b l
policy_allows-friends Membership.everyone a b l = refl
policy_allows-friends Membership.friends_only a b l = any-friends a b l

-- The gate on a message decides by every block and friendship of the store: there is no block
-- between the two in either direction, and a recipient who takes messages of friends only has an
-- accepted friendship with the sender.
pub may_dm_iff :
    (s : Inner) (sender recipient : User)
    → may_dm s sender recipient ≡ (
        not (is_blocked_between s sender.id recipient.id)
        && policy_allows recipient.dm_policy sender.id recipient.id s.friends)
unfolding may_dm can_dm blocks_involving friends_involving is_blocked_between
may_dm_iff s sender recipient = ground (
  arith,
  any-blocks sender.id recipient.id s.blocks,
  policy_allows-friends recipient.dm_policy sender.id recipient.id s.friends,
)

-- A request to the social use-cases.
pub data SocialAction : Type 0 where
  sends : (from to for_recipient for_sender : Text) → SocialAction
  sends_by_id : (from to : ℕ) → (for_recipient for_sender : Text) → SocialAction
  sets_policy : Text → DmPolicy → SocialAction
  blocks_user : Text → Text → SocialAction
  blocks_by_id : ℕ → ℕ → SocialAction
  requests : Text → Text → SocialAction
  requests_by_id : ℕ → ℕ → SocialAction
  accepts_from : Text → Text → SocialAction
  accepts_by_id : ℕ → ℕ → SocialAction

unfoldable pub perform_social : Inner → Timestamp → SocialAction → Inner
perform_social s now (sends from to r o) = settle s (λ x. x.1) (send_sealed_dm s now from to r o)
perform_social s now (sends_by_id from to r o) =
    settle s (λ x. x.1) (send_sealed_dm_by_id s now from to r o)
perform_social s now (sets_policy handle policy) = settle s (λ x. x) (set_dm_policy s handle policy)
perform_social s now (blocks_user a b) = settle s (λ x. x) (block_user s now a b)
perform_social s now (blocks_by_id a b) = settle s (λ x. x) (block_user_by_id s now a b)
perform_social s now (requests a b) = settle s (λ x. x) (request_friend s now a b)
perform_social s now (requests_by_id a b) = settle s (λ x. x) (request_friend_by_id s now a b)
perform_social s now (accepts_from a b) = settle s (λ x. x) (accept_friend s a b)
perform_social s now (accepts_by_id a b) = settle s (λ x. x) (accept_friend_by_id s a b)

-- A history of social requests, each at its instant.
unfoldable pub perform_each : Inner → List (Timestamp × SocialAction) → Inner
unfolding perform_social
perform_each s [] = s
perform_each s ((now, a) ∷ rest) = perform_each (perform_social s now a) rest

any-snoc :
    (p : Block → Bool) (b : Block) (l : List Block) → any p l ≡ true → any p (l ++ b ∷ []) ≡ true
any-snoc p b [] h = ground arith
any-snoc p b (k ∷ l) h = ground (arith, any-snoc p b l)

module _ (u v : ℕ) (s : Inner) (now : Timestamp) (held : is_blocked_between s u v ≡ true) where
  blocked-add : (b : Block) → is_blocked_between (add_block s b).1 u v ≡ true
  unfolding is_blocked_between add_block
  blocked-add b = ground (arith, any-snoc (block_between u v) b s.blocks)

  blocked-block_users :
      (blocker blocked : User)
      → is_blocked_between (settle s (λ x. x) (block_users s now blocker blocked)) u v ≡ true
  unfolding block_users
  blocked-block_users blocker blocked = elim (Bool-cases (nat_beq blocker.id blocked.id)) [
    | inl e ↦ rw (block_users, e) held
    | inr e ↦ rw (block_users, e) (blocked-add _)
  ]

  blocked-perform : (a : SocialAction) → is_blocked_between (perform_social s now a) u v ≡ true
  unfolding perform_social send_sealed_dm send_sealed_dm_by_id set_dm_policy block_user
      block_user_by_id request_friend request_friend_by_id accept_friend accept_friend_by_id
      is_blocked_between insert_dm next_dm_id put_user add_friendship update_friendship
  blocked-perform (sends from to r o) = ground arith
  blocked-perform (sends_by_id from to r o) = ground arith
  blocked-perform (sets_policy handle policy) = ground arith
  blocked-perform (blocks_user a b) = elim (Option-cases (find_by_handle s (trim a))) [
    | inl e ↦ rw (perform_social, block_user, e) held
    | inr (x, ex) ↦ elim (Option-cases (find_by_handle s (trim b))) [
      | inl e ↦ rw (perform_social, block_user, ex, e) held
      | inr (y, ey) ↦ rw (perform_social, block_user, ex, ey) (blocked-block_users x y)
    ]
  ]
  blocked-perform (blocks_by_id a b) = elim (Option-cases (get a s.users)) [
    | inl e ↦ rw (perform_social, block_user_by_id, e) held
    | inr (x, ex) ↦ elim (Option-cases (get b s.users)) [
      | inl e ↦ rw (perform_social, block_user_by_id, ex, e) held
      | inr (y, ey) ↦ rw (perform_social, block_user_by_id, ex, ey) (blocked-block_users x y)
    ]
  ]
  blocked-perform (requests a b) = ground arith
  blocked-perform (requests_by_id a b) = ground arith
  blocked-perform (accepts_from a b) = ground arith
  blocked-perform (accepts_by_id a b) = ground arith

blocked-each :
    (u v : ℕ) (s : Inner) (history : List (Timestamp × SocialAction))
    → is_blocked_between s u v ≡ true
    → is_blocked_between (perform_each s history) u v ≡ true
unfolding perform_each
blocked-each u v s [] h = h
blocked-each u v s ((now, a) ∷ rest) h =
    blocked-each u v (perform_social s now a) rest (blocked-perform u v s now h a)

-- Once there is a block between two accounts, whichever set it, then after any history of social
-- requests neither may write to the other.
pub perform_each_silent :
    (s : Inner) (history : List (Timestamp × SocialAction)) (a b : User)
    → is_blocked_between s a.id b.id ≡ true
    → (may_dm (perform_each s history) a b ≡ false) × (may_dm (perform_each s history) b a ≡ false)
unfolding is_blocked_between
perform_each_silent s history a b h =
    let t = perform_each s history in
    let k = blocked-each a.id b.id s history h in
    (
      ground (arith, may_dm_iff t a b),
      ground (arith, may_dm_iff t b a, block_between_comm a.id b.id t.blocks),
    )
