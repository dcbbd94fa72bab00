-- ===== src/App/Chat.antt =====
-- crates/app/src/chat_service.rs: channels, and the messages that are posted, edited, deleted and
-- read in them. The decimal rendering of an id, which two errors carry, is a parameter.
pub mod Posts
pub mod Authors
use democrachat.App.Franchise.{is_some}
use democrachat.App.Results.{Result, err, fail_if, ok, ok_or, ◌>>=◌, ◌>>◌}
use democrachat.Domain.Chat.{
  Attachment, Channel, Message, edit, new_channel, new_message, sealed_message, tombstone,
}
use democrachat.Domain.Membership.{Membership, User, shows_message_to}
use democrachat.Domain.Names.{normalize_channel_name}
use democrachat.Domain.Server.{Server, founder_may_provision, from_citizen_count}
use democrachat.Domain.Time.{Timestamp}
use democrachat.Prelude.{
  Bool, List, Option, [], false, list_eq, nat_beq, nat_eq, none, not, pair_eq, retain, some,
  triple_eq, true, ℕ, ◌&&◌, ◌||◌, ◌∷◌,
}
use democrachat.Prelude.Maps.{get}
use democrachat.Prelude.Std.{Text, is_empty, trim}
use democrachat.Store.{
  Inner, citizen_count, find_by_handle, find_by_slug, get_membership, upsert_membership,
}
use democrachat.Store.Chat.{channels_of, delete_media, messages_of, next_message_id, put_message}
use democrachat.Store.Content.{find_channel, insert_channel, next_channel_id}

pub data ChannelError : Type 0 where
  no_such_user : Text → ChannelError
  no_such_server : Text → ChannelError
  empty_name : ChannelError
  name_taken : Text → ChannelError
  not_provisionable : ChannelError

pub data MessageError : Type 0 where
  no_such_user : Text → MessageError
  no_such_server : Text → MessageError
  no_such_channel : Text → MessageError
  no_such_message : ℕ → MessageError
  not_a_member : Text → MessageError
  is_banned : Text → MessageError
  not_the_author empty_body cross_channel_reply channel_encrypted not_encrypted : MessageError

unfoldable pub create_channel :
    Inner → Timestamp → Text → Text → Text → Text → Result ChannelError (Channel × Inner)
create_channel s now founder_handle server_slug name topic = do
  user ← ok_or (find_by_handle s (trim founder_handle)) (ChannelError.no_such_user founder_handle)
  server ← ok_or (find_by_slug s (trim server_slug)) (ChannelError.no_such_server server_slug)
  let phase = from_citizen_count (citizen_count s server.id)
  fail_if (not (founder_may_provision phase && nat_beq user.id server.founder_id))
      ChannelError.not_provisionable
  let normal = normalize_channel_name name
  fail_if (is_empty normal) ChannelError.empty_name
  fail_if (is_some (find_channel s server.id normal)) (ChannelError.name_taken normal)
  let (id, t) = next_channel_id s
  let channel = new_channel id server.id normal (trim topic) now
  ok (channel, insert_channel t channel)

unfoldable pub list_channels : Inner → Text → Option (List Channel)
list_channels s server_slug = elim (find_by_slug s (trim server_slug)) [
  | none ↦ none
  | some server ↦ some (channels_of s server.id)
]

abbrev name_of_channel : Inner → Text → ℕ → Option (Text × Text)
name_of_channel s slug id = elim (get id s.channels) [ none ↦ none | some c ↦ some (slug, c.name) ]

unfoldable pub message_context : Inner → ℕ → Option (Text × Text)
message_context s message_id = elim (get message_id s.messages) [
  | none ↦ none
  | some m ↦ elim (get m.server_id s.servers) [
    | none ↦ none
    | some server ↦ name_of_channel s server.slug m.channel_id
  ]
]

-- A member who may post: neither a stranger nor banned.
unfoldable pub admit_poster : Text → Option Membership → Result MessageError (Unit {0})
admit_poster handle none = err (MessageError.not_a_member handle)
admit_poster handle (some m) = fail_if m.is_sanctioned (MessageError.is_banned handle)

-- The author's id stands for the account; the source passes the server on as well.
unfoldable pub resolve_poster :
    Inner → Text → Text → Text → Result MessageError (User × Server × Channel)
unfolding admit_poster
resolve_poster s handle server_slug channel_name = do
  user ← ok_or (find_by_handle s (trim handle)) (MessageError.no_such_user handle)
  server ← ok_or (find_by_slug s (trim server_slug)) (MessageError.no_such_server server_slug)
  admit_poster handle (get_membership s user.id server.id)
  channel ←
      ok_or (find_channel s server.id (normalize_channel_name channel_name))
        (MessageError.no_such_channel channel_name)
  ok (user, server, channel)

unfoldable pub insert_message :
    Inner
    → Timestamp
    → (author : ℕ) → Channel
    → Text
    → Option ℕ
    → List Attachment
    → Result MessageError (Message × Inner)
insert_message s now author channel body parent attachments = do
  fail_if channel.is_encrypted MessageError.channel_encrypted
  fail_if (is_empty (trim body) && is_empty attachments) MessageError.empty_body
  let (id, t) = next_message_id s
  let message = record (new_message id channel.id channel.server_id author (trim body) parent now) {
    attachments = attachments;
  }
  ok (message, put_message t message)

unfoldable pub post_message_with_attachments :
    Inner
    → Timestamp
    → Text
    → Text
    → Text
    → Text
    → List Attachment
    → Result MessageError (Message × Inner)
unfolding resolve_poster insert_message
post_message_with_attachments s now handle server_slug channel_name body attachments = do
  (user, server, channel) ← resolve_poster s handle server_slug channel_name
  insert_message s now user.id channel body none attachments

unfoldable pub post_message :
    Inner → Timestamp → Text → Text → Text → Text → Result MessageError (Message × Inner)
unfolding resolve_poster insert_message
post_message s now handle server_slug channel_name body = do
  (user, server, channel) ← resolve_poster s handle server_slug channel_name
  insert_message s now user.id channel body none []

-- The parent of a sealed reply lives in the same channel.
unfoldable pub sealed_parent : Inner → Channel → Option ℕ → Result MessageError (Option ℕ)
sealed_parent s channel none = ok none
sealed_parent s channel (some pid) = do
  p ← ok_or (get pid s.messages) (MessageError.no_such_message pid)
  fail_if (not (nat_beq p.channel_id channel.id)) MessageError.cross_channel_reply
  ok (some p.id)

unfoldable pub post_sealed_message :
    Inner
    → Timestamp
    → Text
    → Text
    → Text
    → Text
    → (key_epoch : ℕ) → Option ℕ
    → Result MessageError (Message × Inner)
unfolding resolve_poster sealed_parent
post_sealed_message s now handle server_slug channel_name ciphertext key_epoch parent = do
  (user, server, channel) ← resolve_poster s handle server_slug channel_name
  fail_if (not channel.is_encrypted) MessageError.not_encrypted
  fail_if (is_empty (trim ciphertext)) MessageError.empty_body
  parent_id ← sealed_parent s channel parent
  let (id, t) = next_message_id s
  let message =
      sealed_message id channel.id channel.server_id user.id (trim ciphertext) key_epoch parent_id
        now
  ok (message, put_message t message)

module _ (show_id : ℕ → Text) where
  unfoldable pub reply_message :
      Inner → Timestamp → Text → ℕ → Text → Result MessageError (Message × Inner)
  unfolding admit_poster insert_message
  reply_message s now handle parent_id body = do
    parent ← ok_or (get parent_id s.messages) (MessageError.no_such_message parent_id)
    channel ←
        ok_or (get parent.channel_id s.channels)
          (MessageError.no_such_channel (show_id parent.channel_id))
    server ←
        ok_or (get parent.server_id s.servers)
          (MessageError.no_such_server (show_id parent.server_id))
    user ← ok_or (find_by_handle s (trim handle)) (MessageError.no_such_user handle)
    admit_poster handle (get_membership s user.id server.id)
    insert_message s now user.id channel body (some parent.id) []

unfoldable pub authored_message : Inner → Text → ℕ → Result MessageError Message
authored_message s handle message_id = do
  user ← ok_or (find_by_handle s (trim handle)) (MessageError.no_such_user handle)
  message ← ok_or (get message_id s.messages) (MessageError.no_such_message message_id)
  fail_if (not (nat_beq message.author user.id)) MessageError.not_the_author
  ok message

unfoldable pub edit_message :
    Inner → Timestamp → Text → ℕ → Text → Result MessageError (Message × Inner)
unfolding authored_message
edit_message s now handle message_id body = do
  fail_if (is_empty (trim body)) MessageError.empty_body
  message ← authored_message s handle message_id
  let edited = edit message (trim body) now
  ok (edited, put_message s edited)

-- The blobs of a message's attachments.
unfoldable pub drop_blobs : Inner → List Attachment → Inner
drop_blobs s [] = s
drop_blobs s (a ∷ l) = drop_blobs (delete_media s a.key) l

unfoldable pub delete_message : Inner → Text → ℕ → Result MessageError Inner
unfolding authored_message drop_blobs
delete_message s handle message_id = do
  message ← authored_message s handle message_id
  ok (put_message (drop_blobs s message.attachments) (tombstone message))

unfoldable pub channel_messages : Inner → Text → Text → Result MessageError (List Message)
channel_messages s server_slug channel_name = do
  server ← ok_or (find_by_slug s (trim server_slug)) (MessageError.no_such_server server_slug)
  channel ←
      ok_or (find_channel s server.id (normalize_channel_name channel_name))
        (MessageError.no_such_channel channel_name)
  ok (messages_of s channel.id)

-- When the viewer joined: now, if they are no member.
abbrev pub joined_by : Inner → Timestamp → ℕ → Option User → Timestamp
joined_by s now server none = now
joined_by s now server (some u) = elim (get_membership s u.id server) [
  | none ↦ now
  | some m ↦ m.joined_at
]

abbrev pub is_viewer : Option User → ℕ → Bool
is_viewer none author = false
is_viewer (some u) author = nat_beq u.id author

-- A message that its author shows to someone who joined at the given instant. The cache of authors
-- holds what the lookup gives, since the store does not change meanwhile.
abbrev pub shown_by : Option Membership → Message → Timestamp → Bool
shown_by none m viewer_joined = true
shown_by (some a) m viewer_joined = shows_message_to a m.created_at viewer_joined

unfoldable pub channel_messages_for :
    Inner → Timestamp → Text → Text → Text → Result MessageError (List Message)
unfolding channel_messages
channel_messages_for s now viewer_handle server_slug channel_name = do
  messages ← channel_messages s server_slug channel_name
  server ← ok_or (find_by_slug s (trim server_slug)) (MessageError.no_such_server server_slug)
  let viewer = find_by_handle s (trim viewer_handle)
  let viewer_joined = joined_by s now server.id viewer
  ok (
      retain
        (λ m.
          is_viewer viewer m.author
          || shown_by (get_membership s m.author server.id) m viewer_joined)
        messages)

unfoldable pub history_sharing : Inner → Text → Text → Option Bool
history_sharing s handle server_slug = elim (find_by_handle s (trim handle)) [
  | none ↦ none
  | some user ↦ elim (find_by_slug s (trim server_slug)) [
    | none ↦ none
    | some server ↦ elim (get_membership s user.id server.id) [
      | none ↦ none
      | some m ↦ some m.shares_history_with_newcomers
    ]
  ]
]

unfoldable pub set_history_sharing : Inner → Text → Text → Bool → Result MessageError Inner
set_history_sharing s handle server_slug shares = do
  user ← ok_or (find_by_handle s (trim handle)) (MessageError.no_such_user handle)
  server ← ok_or (find_by_slug s (trim server_slug)) (MessageError.no_such_server server_slug)
  m ← ok_or (get_membership s user.id server.id) (MessageError.not_a_member handle)
  ok (upsert_membership s (record m { shares_history_with_newcomers = shares }))
