-- ===== src/Store/Replica/Writes.antt =====
-- Every write of the ports, replayed on a replica.
use democrachat.Prelude.{ap, list_eq, nat_eq, pair_eq, refl, triple_eq}
use democrachat.Prelude.Maps.{insert}
use democrachat.Store.{
  Inner, channel_row, emoji_row, emoji_vote_row, grant_row, invite_row, keys_row, membership_row,
  message_row, proposal_row, put_server, put_user, role_row, rule_row, server_row,
  upsert_membership, user_row, vote_row,
}
use democrachat.Store.Chat.{put_message}
use democrachat.Store.Content.{insert_channel, insert_role, insert_rule}
use democrachat.Store.Emojis.{insert_emoji, is_emoji_vote, put_grant, put_keys, upsert_emoji_vote}
use democrachat.Store.Outbox.{replace, upsert_incoming}
use democrachat.Store.People.{add_invite, friendship_of}
use democrachat.Store.Replica.{
  Fresh, IsFiled, Mirrors, Replays, Tables, Write, adds_assignment, adds_block, adds_dm,
  adds_friendship, adds_invite, adds_reaction, drops_assignment, drops_channel, drops_reaction,
  drops_role, drops_rule, puts_channel, puts_emoji, puts_emoji_vote, puts_key_grant,
  puts_membership, puts_message, puts_proposal, puts_role, puts_rule, puts_server, puts_user,
  puts_user_keys, puts_vote, revokes_invite, updates_friendship, write,
}
use democrachat.Store.Replica.Removals.{
  replayed_remove_channel, replayed_remove_role, replayed_remove_rule, replayed_revoke,
  replayed_unassign, replayed_unreact,
}
use democrachat.Store.Replica.Steps.{
  Room, replayed_assignment, replayed_block, replayed_dm, replayed_friendship, replayed_reaction,
  replayed_update, upserted,
}
use democrachat.Store.Votes.{is_vote, put_proposal, upsert_vote}

-- A write appends at most one row, and a replica that applies it mirrors the store again.
pub write-Replays :
    (s r : Inner) (w : Write)
    → Room s
    → IsFiled s
    → Fresh s w
    → Mirrors s r
    → Replays 1 s (write s w) r
unfolding write put_user put_server upsert_membership insert_channel put_message put_proposal
    upsert_vote insert_emoji upsert_emoji_vote insert_rule insert_role add_invite put_keys put_grant
    upsert_incoming friendship_of
write-Replays s r (puts_user u) room filed fresh m =
    upserted s _ r (user_row u) room refl refl
      (ap (λ (t : Tables). record t { users = insert u.id u t.users }) m.0, m.1)
write-Replays s r (puts_server v) room filed fresh m =
    upserted s _ r (server_row v) room refl refl
      (ap (λ (t : Tables). record t { servers = insert v.id v t.servers }) m.0, m.1)
write-Replays s r (puts_membership x) room filed fresh m =
    upserted s _ r (membership_row x) room refl refl (
      ap
          (λ (t : Tables). record t {
            memberships = insert (x.user_id, x.server_id) x t.memberships;
          })
          m.0,
      m.1,
    )
write-Replays s r (puts_channel c) room filed fresh m =
    upserted s _ r (channel_row c) room refl refl
      (ap (λ (t : Tables). record t { channels = insert c.id c t.channels }) m.0, m.1)
write-Replays s r (drops_channel id) room filed fresh m =
    replayed_remove_channel s r room m filed id
write-Replays s r (puts_message x) room filed fresh m =
    upserted s _ r (message_row x) room refl refl
      (ap (λ (t : Tables). record t { messages = insert x.id x t.messages }) m.0, m.1)
write-Replays s r (adds_reaction x) room filed fresh m = replayed_reaction s r room m x
write-Replays s r (drops_reaction message user emoji) room filed fresh m =
    replayed_unreact s r room m message user emoji
write-Replays s r (puts_proposal p) room filed fresh m =
    upserted s _ r (proposal_row p) room refl refl
      (ap (λ (t : Tables). record t { proposals = insert p.id p t.proposals }) m.0, m.1)
write-Replays s r (puts_vote v) room filed fresh m = upserted s _ r (vote_row v) room refl refl (
  ap (λ (t : Tables). record t { votes = replace (is_vote v.proposal_id v.voter) v t.votes }) m.0,
  m.1,
)
write-Replays s r (puts_emoji e) room filed fresh m =
    upserted s _ r (emoji_row e) room refl refl
      (ap (λ (t : Tables). record t { emojis = insert e.id e t.emojis }) m.0, m.1)
write-Replays s r (puts_emoji_vote v) room filed fresh m =
    upserted s _ r (emoji_vote_row v) room refl refl (
      ap
          (λ (t : Tables). record t {
            emoji_votes = replace (is_emoji_vote v.emoji_id v.voter) v t.emoji_votes;
          })
          m.0,
      m.1,
    )
write-Replays s r (puts_rule x) room filed fresh m =
    upserted s _ r (rule_row x) room refl refl
      (ap (λ (t : Tables). record t { rules = insert x.id x t.rules }) m.0, m.1)
write-Replays s r (drops_rule id) room filed fresh m = replayed_remove_rule s r room m filed id
write-Replays s r (adds_dm x) room filed fresh m = replayed_dm s r room m x fresh
write-Replays s r (adds_block b) room filed fresh m = replayed_block s r room m b
write-Replays s r (adds_friendship f) room filed fresh m = replayed_friendship s r room m f
write-Replays s r (updates_friendship f) room filed fresh m = replayed_update s r room m f
write-Replays s r (puts_role x) room filed fresh m =
    upserted s _ r (role_row x) room refl refl
      (ap (λ (t : Tables). record t { roles = insert x.id x t.roles }) m.0, m.1)
write-Replays s r (drops_role id) room filed fresh m = replayed_remove_role s r room m filed id
write-Replays s r (adds_assignment a) room filed fresh m = replayed_assignment s r room m a
write-Replays s r (drops_assignment role user) room filed fresh m =
    replayed_unassign s r room m role user
write-Replays s r (adds_invite i) room filed fresh m =
    upserted s _ r (invite_row i) room refl refl
      (ap (λ (t : Tables). record t { invites = insert i.code_hash i t.invites }) m.0, m.1)
write-Replays s r (revokes_invite code_hash) room filed fresh m =
    replayed_revoke s r room m code_hash
write-Replays s r (puts_user_keys k) room filed fresh m =
    upserted s _ r (keys_row k) room refl refl
      (ap (λ (t : Tables). record t { user_keys = insert k.user_id k t.user_keys }) m.0, m.1)
write-Replays s r (puts_key_grant g) room filed fresh m =
    upserted s _ r (grant_row g) room refl refl (
      ap
          (λ (t : Tables). record t {
            channel_grants = insert (g.channel_id, g.epoch, g.grantee) g t.channel_grants;
          })
          m.0,
      m.1,
    )
