-- ===== src/Store/Emojis.antt =====
-- The ports of emojis, their votes, keys and key grants, and the queries on direct messages.
use democrachat.Domain.Social.{dm_between}
use democrachat.Prelude.{
  triple_eq, list_eq, nat_eq, pair_eq, contains, ◌==◌, none, ◌++◌, some, ◌&&◌, nat_beq, not,
  sort_by_key, if◌then◌else◌, ◌∷◌, [], find, retain, Bool, List, Option, ℕ,
}
use democrachat.Store.{
  values, compose_id, insert, Emoji, EmojiVote, ChannelKeyGrant, Text, u64_add, DmMessage, UserKeys,
  Inner, upsert_row, record_row, emoji_row, emoji_vote_row, keys_row, grant_row,
}
use mathlib.Core.List.{reverse}

unfoldable pub next_emoji_id : Inner → ℕ × Inner
next_emoji_id s =
    let n = u64_add s.next_emoji 1 in (compose_id s.node n, record s { next_emoji = n })

unfoldable pub insert_emoji : Inner → Emoji → Inner
unfolding record_row
insert_emoji s e =
    let t = record_row s upsert_row (emoji_row e) in record t { emojis = insert e.id e t.emojis }

unfoldable pub find_emoji : Inner → ℕ → Text → Option Emoji
find_emoji s server name =
    find (λ e. nat_beq e.server_id server && e.name == name) (values s.emojis)

unfoldable pub emojis_of : Inner → ℕ → List Emoji
emojis_of s server =
    sort_by_key (λ e. e.id) (retain (λ e. nat_beq e.server_id server) (values s.emojis))

abbrev pub is_emoji_vote : ℕ → ℕ → EmojiVote → Bool
is_emoji_vote emoji voter v = nat_beq v.emoji_id emoji && nat_beq v.voter voter

unfoldable pub upsert_emoji_vote : Inner → EmojiVote → Inner
unfolding record_row
upsert_emoji_vote s v =
    let t = record s {
      emoji_votes = retain (λ x. not (is_emoji_vote v.emoji_id v.voter x)) s.emoji_votes;
    } in
    let u = record_row t upsert_row (emoji_vote_row v) in
    record u { emoji_votes = u.emoji_votes ++ v ∷ [] }

unfoldable pub emoji_votes_of : Inner → ℕ → List EmojiVote
emoji_votes_of s server = retain (λ v. nat_beq v.server_id server) s.emoji_votes

unfoldable pub my_emoji_vote : Inner → ℕ → ℕ → Option Bool
my_emoji_vote s emoji voter = elim (find (is_emoji_vote emoji voter) s.emoji_votes) [
  | none ↦ none
  | some v ↦ some v.is_up
]

unfoldable pub put_keys : Inner → UserKeys → Inner
unfolding record_row
put_keys s k =
    let t = record_row s upsert_row (keys_row k) in
    record t { user_keys = insert k.user_id k t.user_keys }

unfoldable pub put_grant : Inner → ChannelKeyGrant → Inner
unfolding record_row
put_grant s g =
    let t = record_row s upsert_row (grant_row g) in
    record t { channel_grants = insert (g.channel_id, g.epoch, g.grantee) g t.channel_grants }

unfoldable pub grants_for : Inner → ℕ → ℕ → List ChannelKeyGrant
grants_for s channel user =
    sort_by_key (λ g. g.epoch)
      (retain (λ g. nat_beq g.channel_id channel && nat_beq g.grantee user)
        (values s.channel_grants))

unfoldable pub conversation : Inner → ℕ → ℕ → List DmMessage
conversation s a b = sort_by_key (λ m. m.id) (retain (dm_between a b) s.dms)

abbrev pub other_party : ℕ → DmMessage → Option ℕ
other_party who m =
    if nat_beq m.sender who
    then some m.recipient
    else if nat_beq m.recipient who
    then some m.sender
    else none

-- The loop of `partners`, on messages newest first and the partners seen so far.
unfoldable pub sightings : ℕ → List ℕ → List DmMessage → List ℕ
sightings who seen [] = seen
sightings who seen (m ∷ l) =
    sightings who
      (elim (other_party who m) [
        | none ↦ seen
        | some other ↦ if contains seen other then seen else seen ++ other ∷ []
      ])
      l

unfoldable pub partners : Inner → ℕ → List ℕ
unfolding sightings
partners s who = sightings who [] (reverse s.dms)
