-- ===== src/Store/Outbox.antt =====
-- The two ends of replication: what a peer pulls from the outbox, and a row of a peer applied to the
-- replica, once serde has decoded it.
use democrachat.Domain.Social.{friendship_between}
use democrachat.Prelude.{
  triple_eq, list_eq, nat_eq, none, pair_eq, [], ◌∷◌, ◌++◌, ltb, not, any, some, take, ◌&&◌, retain,
  Option, if◌then◌else◌, nat_beq, List, Bool, ℕ,
}
use democrachat.Store.{
  assignment_row, block_row, delete_row, dm_row, emoji_row, emoji_vote_row, friendship_row,
  grant_row, keys_row, message_row, proposal_row, reaction_row, role_row, rule_row, upsert_row,
  vote_row, channel_row, invite_row, membership_row, server_row, remove, insert, user_row,
  ChangeRecord, Row, ChangeOp, Block, Inner,
}
use democrachat.Store.Chat.{is_reaction}
use democrachat.Store.Content.{is_assignment, retain_values}
use democrachat.Store.Emojis.{is_emoji_vote}
use democrachat.Store.Votes.{is_vote}

unfoldable pub changes_since : Inner → ℕ → ℕ → List ChangeRecord
changes_since s after_seq limit = take limit (retain (λ r. ltb after_seq r.seq) s.outbox)

-- An upsert of a row that its list holds at most once.
abbrev pub push_new {ℓ} : {A : Type ℓ} → (A → Bool) → A → List A → List A
push_new same a l = if any same l then l else l ++ a ∷ []

abbrev pub same_block : Block → Block → Bool
same_block b x = nat_beq x.blocker b.blocker && nat_beq x.blocked b.blocked

abbrev pub replace {ℓ} : {A : Type ℓ} → (A → Bool) → A → List A → List A
replace same a l = retain (λ x. not (same x)) l ++ a ∷ []

unfoldable pub upsert_incoming : Inner → Row → Inner
upsert_incoming s (user_row u) = record s { users = insert u.id u s.users }
upsert_incoming s (server_row v) = record s { servers = insert v.id v s.servers }
upsert_incoming s (invite_row i) = record s { invites = insert i.code_hash i s.invites }
upsert_incoming s (membership_row m) = record s {
  memberships = insert (m.user_id, m.server_id) m s.memberships;
}
upsert_incoming s (channel_row c) = record s { channels = insert c.id c s.channels }
upsert_incoming s (message_row m) = record s { messages = insert m.id m s.messages }
upsert_incoming s (reaction_row r) = record s {
  reactions = push_new (is_reaction r.message_id r.user r.emoji) r s.reactions;
}
upsert_incoming s (proposal_row p) = record s { proposals = insert p.id p s.proposals }
upsert_incoming s (vote_row v) = record s {
  votes = replace (is_vote v.proposal_id v.voter) v s.votes;
}
upsert_incoming s (emoji_row e) = record s { emojis = insert e.id e s.emojis }
upsert_incoming s (emoji_vote_row v) = record s {
  emoji_votes = replace (is_emoji_vote v.emoji_id v.voter) v s.emoji_votes;
}
upsert_incoming s (rule_row r) = record s { rules = insert r.id r s.rules }
upsert_incoming s (dm_row m) = record s { dms = push_new (λ x. nat_beq x.id m.id) m s.dms }
upsert_incoming s (block_row b) = record s { blocks = push_new (same_block b) b s.blocks }
upsert_incoming s (friendship_row f) = record s {
  friends = replace (friendship_between f.requester f.addressee) f s.friends;
}
upsert_incoming s (keys_row k) = record s { user_keys = insert k.user_id k s.user_keys }
upsert_incoming s (grant_row g) = record s {
  channel_grants = insert (g.channel_id, g.epoch, g.grantee) g s.channel_grants;
}
upsert_incoming s (role_row r) = record s { roles = insert r.id r s.roles }
upsert_incoming s (assignment_row a) = record s {
  role_assignments = push_new (is_assignment a.role_id a.user) a s.role_assignments;
}

-- `none` for an entity that no deletion of is known: the catch-all error.
unfoldable pub delete_incoming : Inner → Row → Option Inner
delete_incoming s (user_row u) = some (record s { users = remove u.id s.users })
delete_incoming s (server_row v) = some (record s { servers = remove v.id s.servers })
delete_incoming s (membership_row m) =
    some (record s { memberships = remove (m.user_id, m.server_id) s.memberships })
delete_incoming s (channel_row c) = some (record s {
  channels = remove c.id s.channels;
  messages = retain_values (λ m. not (nat_beq m.channel_id c.id)) s.messages;
})
delete_incoming s (message_row m) = some (record s { messages = remove m.id s.messages })
delete_incoming s (reaction_row r) = some (record s {
  reactions = retain (λ x. not (is_reaction r.message_id r.user r.emoji x)) s.reactions;
})
delete_incoming s (proposal_row p) = some (record s { proposals = remove p.id s.proposals })
delete_incoming s (rule_row r) = some (record s { rules = remove r.id s.rules })
delete_incoming s (role_row r) = some (record s {
  roles = remove r.id s.roles;
  role_assignments = retain (λ a. not (nat_beq a.role_id r.id)) s.role_assignments;
})
delete_incoming s (assignment_row a) = some (record s {
  role_assignments = retain (λ x. not (is_assignment a.role_id a.user x)) s.role_assignments;
})
delete_incoming s (invite_row _) = none
delete_incoming s (vote_row _) = none
delete_incoming s (emoji_row _) = none
delete_incoming s (emoji_vote_row _) = none
delete_incoming s (dm_row _) = none
delete_incoming s (block_row _) = none
delete_incoming s (friendship_row _) = none
delete_incoming s (keys_row _) = none
delete_incoming s (grant_row _) = none

-- `apply_row`, on a row that serde has decoded.
unfoldable pub apply_row : Inner → ChangeOp → Row → Option Inner
unfolding upsert_incoming delete_incoming
apply_row s upsert_row row = some (upsert_incoming s row)
apply_row s delete_row row = delete_incoming s row

-- The rows of a batch, in the order of their numbers.
unfoldable pub apply_rows : Inner → List ChangeRecord → Option Inner
unfolding apply_row
apply_rows s [] = some s
apply_rows s (row ∷ rows) = elim (apply_row s row.op row.payload) [
  | none ↦ none
  | some t ↦ apply_rows t rows
]
