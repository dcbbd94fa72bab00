-- ===== src/Store/Replica.antt =====
-- The writes of the ports as one step, and what it is for a replica to mirror a store.
pub mod Friends
pub mod Steps
pub mod Removals
pub mod Writes
pub mod History
use democrachat.Domain.Chat.{
  Channel, ChannelKeyGrant, Emoji, EmojiVote, Message, Reaction, Role, RoleAssignment, Rule,
  UserKeys,
}
use democrachat.Domain.Governance.{Proposal, Vote}
use democrachat.Domain.Membership.{Membership, User}
use democrachat.Domain.Server.{Invite, Server}
use democrachat.Domain.Social.{Block, DmMessage, Friendship}
use democrachat.Prelude.{
  All, List, [], any, false, length, list_eq, nat_beq, nat_eq, pair_eq, some, triple_eq, ℕ, ◌++◌,
  ◌+◌, ◌∷◌, ◌≡◌, ◌≤◌,
}
use democrachat.Prelude.Maps.{Map}
use democrachat.Prelude.Std.{Text}
use democrachat.Store.{ChangeRecord, Inner, put_server, put_user, upsert_membership}
use democrachat.Store.Chat.{add_reaction, put_message, remove_reaction}
use democrachat.Store.Content.{
  remove_rule, assign, insert_channel, insert_role, insert_rule, remove_channel, remove_role,
  unassign,
}
use democrachat.Store.Emojis.{insert_emoji, put_grant, put_keys, upsert_emoji_vote}
use democrachat.Store.Outbox.{apply_rows}
use democrachat.Store.People.{
  add_block, add_friendship, add_invite, friendship_of, insert_dm, revoke, update_friendship,
}
use democrachat.Store.Votes.{put_proposal, upsert_vote}

-- A change to the replicated tables.
pub data Write : Type 0 where
  puts_user : User → Write
  puts_server : Server → Write
  puts_membership : Membership → Write
  puts_channel : Channel → Write
  drops_channel : ℕ → Write
  puts_message : Message → Write
  adds_reaction : Reaction → Write
  drops_reaction : ℕ → ℕ → Text → Write
  puts_proposal : Proposal → Write
  puts_vote : Vote → Write
  puts_emoji : Emoji → Write
  puts_emoji_vote : EmojiVote → Write
  puts_rule : Rule → Write
  drops_rule : ℕ → Write
  adds_dm : DmMessage → Write
  adds_block : Block → Write
  adds_friendship : Friendship → Write
  updates_friendship : Friendship → Write
  puts_role : Role → Write
  drops_role : ℕ → Write
  adds_assignment : RoleAssignment → Write
  drops_assignment : ℕ → ℕ → Write
  adds_invite : Invite → Write
  revokes_invite : Text → Write
  puts_user_keys : UserKeys → Write
  puts_key_grant : ChannelKeyGrant → Write

unfoldable pub write : Inner → Write → Inner
write s (puts_user u) = put_user s u
write s (puts_server v) = put_server s v
write s (puts_membership m) = upsert_membership s m
write s (puts_channel c) = insert_channel s c
write s (drops_channel id) = (remove_channel s id).1
write s (puts_message m) = put_message s m
write s (adds_reaction r) = (add_reaction s r).1
write s (drops_reaction m u e) = (remove_reaction s m u e).1
write s (puts_proposal p) = put_proposal s p
write s (puts_vote v) = upsert_vote s v
write s (puts_emoji e) = insert_emoji s e
write s (puts_emoji_vote v) = upsert_emoji_vote s v
write s (puts_rule r) = insert_rule s r
write s (drops_rule id) = (remove_rule s id).1
write s (adds_dm m) = insert_dm s m
write s (adds_block b) = (add_block s b).1
write s (adds_friendship f) = (add_friendship s f).1
write s (updates_friendship f) = update_friendship s f
write s (puts_role r) = insert_role s r
write s (drops_role id) = (remove_role s id).1
write s (adds_assignment a) = (assign s a).1
write s (drops_assignment role user) = (unassign s role user).1
write s (adds_invite i) = add_invite s i
write s (revokes_invite code_hash) = revoke s code_hash
write s (puts_user_keys k) = put_keys s k
write s (puts_key_grant g) = put_grant s g

-- The replicated tables, but for the friendships.
pub record Tables : Type 0 where
  pub users : Map ℕ User
  pub servers : Map ℕ Server
  pub memberships : Map (ℕ × ℕ) Membership
  pub channels : Map ℕ Channel
  pub messages : Map ℕ Message
  pub reactions : List Reaction
  pub proposals : Map ℕ Proposal
  pub votes : List Vote
  pub emojis : Map ℕ Emoji
  pub emoji_votes : List EmojiVote
  pub rules : Map ℕ Rule
  pub dms : List DmMessage
  pub blocks : List Block
  pub roles : Map ℕ Role
  pub role_assignments : List RoleAssignment
  pub invites : Map Text Invite
  pub user_keys : Map ℕ UserKeys
  pub channel_grants : Map (ℕ × ℕ × ℕ) ChannelKeyGrant

abbrev pub tables : Inner → Tables
tables s = record {
  users = s.users;
  servers = s.servers;
  memberships = s.memberships;
  channels = s.channels;
  messages = s.messages;
  reactions = s.reactions;
  proposals = s.proposals;
  votes = s.votes;
  emojis = s.emojis;
  emoji_votes = s.emoji_votes;
  rules = s.rules;
  dms = s.dms;
  blocks = s.blocks;
  roles = s.roles;
  role_assignments = s.role_assignments;
  invites = s.invites;
  user_keys = s.user_keys;
  channel_grants = s.channel_grants;
}

-- The replica has the store's tables, and finds the friendship of any two accounts that the store
-- finds: the two may list friendships in another order.
abbrev pub Mirrors : Inner → Inner → Type 0
Mirrors s r = (tables s ≡ tables r) × ((a b : ℕ) → friendship_of s a b ≡ friendship_of r a b)

-- Channels, rules and roles stand under their own ids.
abbrev pub IsFiled : Inner → Type 0
IsFiled s =
    All (λ (e : ℕ × Channel). e.0 ≡ e.1.id) s.channels
    × All (λ (e : ℕ × Rule). e.0 ≡ e.1.id) s.rules
    × All (λ (e : ℕ × Role). e.0 ≡ e.1.id) s.roles

-- A direct message that is written has an id of its own.
abbrev pub Fresh : Inner → Write → Type 0
Fresh s (adds_dm m) = any (λ x. nat_beq x.id m.id) s.dms ≡ false
Fresh s _ = Unit

-- Rows numbered one by one after `n`.
abbrev pub Numbered : ℕ → List ChangeRecord → Type 0
Numbered n [] = Unit
Numbered n (row ∷ rows) = (row.seq ≡ n + 1) × Numbered (n + 1) rows

-- From `s` to `t` the outbox has grown by rows that are numbered in order, and a replica `r` that
-- applies them mirrors `t`.
pub record Replays (n : ℕ) (s t r : Inner) : Type 0 where
  pub rows : List ChangeRecord
  pub appended : t.outbox ≡ s.outbox ++ rows
  pub numbered : Numbered s.next_outbox rows
  pub counted : t.next_outbox ≡ s.next_outbox + length rows
  pub few : length rows ≤ n
  pub replica : Inner
  pub applied : apply_rows r rows ≡ some replica
  pub mirrors : Mirrors t replica

-- The state that a history of writes leaves.
unfoldable pub write_all : Inner → List Write → Inner
unfolding write
write_all s [] = s
write_all s (w ∷ ws) = write_all (write s w) ws

abbrev pub AllFresh : Inner → List Write → Type 0
AllFresh s [] = Unit
AllFresh s (w ∷ ws) = Fresh s w × AllFresh (write s w) ws

-- The outbox holds no row that is numbered past its counter.
abbrev pub Ready : Inner → Type 0
Ready s = IsFiled s × All (λ row. row.seq ≤ s.next_outbox) s.outbox
