-- ===== src/Store.antt =====
-- crates/adapter-store-memory/src/lib.rs: the store behind every port. A port's method takes the
-- locked state and returns it, with its result. A row stands for the JSON that serde makes of it, and
-- the JSON snapshot is left out.
pub mod Content
pub mod Votes
pub mod People
pub mod Members
pub mod Chat
pub mod Emojis
pub mod Outbox
pub mod Replica
use democrachat.Prelude.{
  ℕ, ◌+◌, ◌≡◌, Bool, true, false, ◌&&◌, not, Option, none, some, List, [], ◌∷◌, ◌++◌, any, retain,
  count, nat_beq, nat_eq, list_eq, pair_eq, Eq, ◌==◌, find, sort_by_key, if◌then◌else◌,
}
use democrachat.Prelude.Int.{leb_ℤ}
use democrachat.Prelude.Maps.{Map, get, insert, remove, values}
use democrachat.Prelude.Int.{ℤ, ltb_ℤ}
use democrachat.Prelude.Std.{Text, codes, u64_add}
use democrachat.Domain.Time.{Timestamp}
use democrachat.Domain.Node.{compose_id}
use democrachat.Domain.Membership.{User, Membership, is_citizen}
use democrachat.Domain.Server.{Server, Invite}
use democrachat.Domain.Governance.{Proposal, Vote}
use democrachat.Domain.Social.{Block, Friendship, DmMessage, friendship_between, block_between}
use democrachat.Domain.Chat.{
  Channel, Message, Reaction, Rule, Role, RoleAssignment, Emoji, EmojiVote, UserKeys,
  ChannelKeyGrant,
}

pub data ChangeOp : Type 0 where
  upsert_row delete_row : ChangeOp

-- A row on its way to the outbox, before serde turns it into JSON.
pub data Row : Type 0 where
  user_row : User → Row
  server_row : Server → Row
  membership_row : Membership → Row
  channel_row : Channel → Row
  message_row : Message → Row
  reaction_row : Reaction → Row
  proposal_row : Proposal → Row
  vote_row : Vote → Row
  emoji_row : Emoji → Row
  emoji_vote_row : EmojiVote → Row
  rule_row : Rule → Row
  dm_row : DmMessage → Row
  block_row : Block → Row
  friendship_row : Friendship → Row
  role_row : Role → Row
  assignment_row : RoleAssignment → Row
  invite_row : Invite → Row
  keys_row : UserKeys → Row
  grant_row : ChannelKeyGrant → Row

abbrev pub entity_of : Row → Text
entity_of (user_row _) = codes "users"
entity_of (server_row _) = codes "servers"
entity_of (membership_row _) = codes "memberships"
entity_of (channel_row _) = codes "channels"
entity_of (message_row _) = codes "messages"
entity_of (reaction_row _) = codes "reactions"
entity_of (proposal_row _) = codes "proposals"
entity_of (vote_row _) = codes "votes"
entity_of (emoji_row _) = codes "emojis"
entity_of (emoji_vote_row _) = codes "emoji_votes"
entity_of (rule_row _) = codes "rules"
entity_of (dm_row _) = codes "dms"
entity_of (block_row _) = codes "blocks"
entity_of (friendship_row _) = codes "friendships"
entity_of (role_row _) = codes "roles"
entity_of (assignment_row _) = codes "role_assignments"
entity_of (invite_row _) = codes "invites"
entity_of (keys_row _) = codes "user_keys"
entity_of (grant_row _) = codes "channel_grants"

pub record ChangeRecord : Type 0 where
  pub seq : ℕ
  pub entity : Text
  pub op : ChangeOp
  pub payload : Row

pub record Inner : Type 0 where
  pub users : Map ℕ User
  pub servers : Map ℕ Server
  pub memberships : Map (ℕ × ℕ) Membership
  pub channels : Map ℕ Channel
  pub messages : Map ℕ Message
  pub reactions : List Reaction
  pub proposals : Map ℕ Proposal
  pub votes : List Vote
  pub emojis : Map ℕ Emoji
  pub emoji_votes : List EmojiVote
  pub rules : Map ℕ Rule
  pub dms : List DmMessage
  pub blocks : List Block
  pub friends : List Friendship
  pub roles : Map ℕ Role
  pub role_assignments : List RoleAssignment
  pub invites : Map Text Invite
  pub media : Map Text (Text × List ℕ)
  pub media_seq : ℕ
  pub user_keys : Map ℕ UserKeys
  pub channel_grants : Map (ℕ × ℕ × ℕ) ChannelKeyGrant
  pub next_user : ℕ
  pub next_server : ℕ
  pub next_channel : ℕ
  pub next_message : ℕ
  pub next_proposal : ℕ
  pub next_rule : ℕ
  pub next_dm : ℕ
  pub next_role : ℕ
  pub next_emoji : ℕ
  pub node : ℕ
  pub outbox : List ChangeRecord
  pub next_outbox : ℕ
  pub cursors : Map ℕ ℕ
  pub nonces : Map (ℕ × Text) ℤ
  pub verification_tokens : Map Text (ℕ × ℤ)

unfoldable pub record_row : Inner → ChangeOp → Row → Inner
record_row s op row = record s {
  next_outbox = u64_add s.next_outbox 1;
  outbox =
      s.outbox
      ++ record { seq = u64_add s.next_outbox 1; entity = entity_of row; op = op; payload = row }
        ∷ [];
}

-- Users.
unfoldable pub next_user_id : Inner → ℕ × Inner
next_user_id s = let n = u64_add s.next_user 1 in (compose_id s.node n, record s { next_user = n })

-- `insert_user` and `update_user`.
unfoldable pub put_user : Inner → User → Inner
unfolding record_row
put_user s u =
    let t = record_row s upsert_row (user_row u) in record t { users = insert u.id u t.users }

unfoldable pub find_by_handle : Inner → Text → Option User
find_by_handle s handle = find (λ u. u.handle == handle) (values s.users)

-- Servers.
unfoldable pub next_server_id : Inner → ℕ × Inner
next_server_id s =
    let n = u64_add s.next_server 1 in (compose_id s.node n, record s { next_server = n })

-- `insert_server` and `update_server`.
unfoldable pub put_server : Inner → Server → Inner
unfolding record_row
put_server s v =
    let t = record_row s upsert_row (server_row v) in record t { servers = insert v.id v t.servers }

unfoldable pub find_by_slug : Inner → Text → Option Server
find_by_slug s slug = find (λ v. v.slug == slug) (values s.servers)

-- Memberships.
unfoldable pub upsert_membership : Inner → Membership → Inner
unfolding record_row
upsert_membership s m =
    let t = record_row s upsert_row (membership_row m) in
    record t { memberships = insert (m.user_id, m.server_id) m t.memberships }

unfoldable pub get_membership : Inner → ℕ → ℕ → Option Membership
get_membership s user server = get (user, server) s.memberships

abbrev pub citizen_of : ℕ → Membership → Bool
citizen_of server m = nat_beq m.server_id server && is_citizen m

unfoldable pub citizen_count : Inner → ℕ → ℕ
citizen_count s server = count (citizen_of server) (values s.memberships)

abbrev pub enfranchised_since : Option Timestamp → Timestamp → Bool
enfranchised_since none since = false
enfranchised_since (some at) since = leb_ℤ since at

abbrev pub admitted_to : ℕ → Timestamp → Membership → Bool
admitted_to server since m =
    nat_beq m.server_id server && enfranchised_since m.enfranchised_at since

unfoldable pub admitted_since : Inner → ℕ → Timestamp → ℕ
admitted_since s server since = count (admitted_to server since) (values s.memberships)
