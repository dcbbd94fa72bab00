-- ===== src/App/Emojis.antt =====
-- crates/app/src/emoji_service.rs: custom emoji, added and voted on by citizens.
pub mod Names
use democrachat.App.Franchise.{is_some, standing}
use democrachat.App.Governance.{franchised_only}
use democrachat.App.Results.{Result, fail_if, ok, ok_or, ◌>>=◌, ◌>>◌}
use democrachat.Domain.Chat.{Emoji}
use democrachat.Domain.Membership.{member}
use democrachat.Domain.Names.{normalize_emoji_name}
use democrachat.Domain.Server.{Server}
use democrachat.Domain.Time.{Timestamp}
use democrachat.Prelude.{
  Bool, List, Option, [], if◌then◌else◌, list_eq, map, nat_beq, nat_eq, none, pair_eq, some,
  triple_eq, ℕ,
}
use democrachat.Prelude.Maps.{get}
use democrachat.Prelude.Std.{Text, is_empty, trim}
use democrachat.Store.{Inner, find_by_handle, find_by_slug, get_membership}
use democrachat.Store.Emojis.{emojis_of, find_emoji, insert_emoji, next_emoji_id, upsert_emoji_vote}

pub data EmojiError : Type 0 where
  no_such_user no_such_server : Text → EmojiError
  not_a_citizen bad_name : EmojiError
  name_taken bad_image : Text → EmojiError
  no_such_emoji : ℕ → EmojiError

unfoldable pub add_emoji :
    Inner → Timestamp → Text → Text → (name url : Text) → Result EmojiError (Emoji × Inner)
unfolding find_by_slug find_by_handle get_membership normalize_emoji_name find_emoji next_emoji_id
    insert_emoji
add_emoji s now adder_handle server_slug name url = do
  server ← ok_or (find_by_slug s (trim server_slug)) (EmojiError.no_such_server server_slug)
  user ← ok_or (find_by_handle s (trim adder_handle)) (EmojiError.no_such_user adder_handle)
  standing ← ok_or (franchised_only (get_membership s user.id server.id)) EmojiError.not_a_citizen
  let short = normalize_emoji_name name
  fail_if (is_empty short) EmojiError.bad_name
  fail_if (is_some (find_emoji s server.id short)) (EmojiError.name_taken short)
  let (id, t) = next_emoji_id s
  let emoji : Emoji = record {
    id = id;
    server_id = server.id;
    name = short;
    url = url;
    added_by = user.id;
    added_at = now;
  }
  ok (emoji, insert_emoji t emoji)

-- `get_emoji(..).filter(|e| e.server_id == server.id)`.
abbrev pub on_this : ℕ → Option Emoji → Option Emoji
on_this server none = none
on_this server (some e) = if nat_beq e.server_id server then some e else none

unfoldable pub vote_emoji : Inner → Text → Text → ℕ → Bool → Result EmojiError Inner
unfolding find_by_slug find_by_handle get_membership upsert_emoji_vote
vote_emoji s voter_handle server_slug emoji_id is_up = do
  server ← ok_or (find_by_slug s (trim server_slug)) (EmojiError.no_such_server server_slug)
  user ← ok_or (find_by_handle s (trim voter_handle)) (EmojiError.no_such_user voter_handle)
  standing ← ok_or (franchised_only (get_membership s user.id server.id)) EmojiError.not_a_citizen
  emoji ← ok_or (on_this server.id (get emoji_id s.emojis)) (EmojiError.no_such_emoji emoji_id)
  ok (
      upsert_emoji_vote s
        (record { server_id = server.id; emoji_id = emoji.id; voter = user.id; is_up = is_up }))

abbrev pub named : Option Server → Inner → List (Text × Text)
named none s = []
named (some server) s = map (λ e. (e.name, e.url)) (emojis_of s server.id)

unfoldable pub emoji_name_map : Inner → Text → List (Text × Text)
unfolding find_by_slug emojis_of
emoji_name_map s server_slug = named (find_by_slug s (trim server_slug)) s
