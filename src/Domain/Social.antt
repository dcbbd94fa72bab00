-- ===== src/Domain/Social.antt =====
-- crates/domain/src/social: blocks, friendships, and who may open a direct message with whom.
use democrachat.Prelude.{ℕ, Bool, true, false, ◌&&◌, ◌||◌, List, nat_beq, if◌then◌else◌, any}
use democrachat.Prelude.Std.{Text}
use democrachat.Domain.Time.{Timestamp}
use democrachat.Domain.Membership.{DmPolicy, everyone, friends_only}

pub record Block : Type 0 where
  pub blocker : ℕ
  pub blocked : ℕ
  pub created_at : Timestamp

-- `Block::is_between`.
unfoldable pub block_between : ℕ → ℕ → Block → Bool
block_between a b k =
    nat_beq k.blocker a && nat_beq k.blocked b || nat_beq k.blocker b && nat_beq k.blocked a

pub data FriendStatus : Type 0 where
  pending_request accepted : FriendStatus

abbrev pub is_accepted : FriendStatus → Bool
is_accepted accepted = true
is_accepted pending_request = false

pub record Friendship : Type 0 where
  pub requester : ℕ
  pub addressee : ℕ
  pub status : FriendStatus
  pub created_at : Timestamp

unfoldable pub new_request : ℕ → ℕ → Timestamp → Friendship
new_request requester addressee created_at = record {
  requester = requester;
  addressee = addressee;
  status = pending_request;
  created_at = created_at;
}

unfoldable pub accept : Friendship → Friendship
accept f = record f { status = accepted }

unfoldable pub are_friends : Friendship → Bool
are_friends f = is_accepted f.status

-- `Friendship::is_between`.
unfoldable pub friendship_between : ℕ → ℕ → Friendship → Bool
friendship_between a b f =
    nat_beq f.requester a && nat_beq f.addressee b || nat_beq f.requester b && nat_beq f.addressee a

pub record DmMessage : Type 0 where
  pub id : ℕ
  pub sender : ℕ
  pub recipient : ℕ
  pub sealed_for_recipient : Text
  pub sealed_for_sender : Text
  pub created_at : Timestamp

-- `DmMessage::is_between`.
unfoldable pub dm_between : ℕ → ℕ → DmMessage → Bool
dm_between a b m =
    nat_beq m.sender a && nat_beq m.recipient b || nat_beq m.sender b && nat_beq m.recipient a

abbrev pub policy_allows : DmPolicy → ℕ → ℕ → List Friendship → Bool
policy_allows everyone sender recipient friendships = true
policy_allows friends_only sender recipient friendships =
    any (λ f. are_friends f && friendship_between sender recipient f) friendships

unfoldable pub can_dm : ℕ → ℕ → DmPolicy → List Block → List Friendship → Bool
can_dm sender recipient recipient_policy blocks friendships =
    if any (block_between sender recipient) blocks
    then false
    else policy_allows recipient_policy sender recipient friendships
