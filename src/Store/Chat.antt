-- ===== src/Store/Chat.antt =====
-- The ports of messages, reactions and media blobs, and the queries on channels and members.
use democrachat.Prelude.{
  triple_eq, list_eq, nat_eq, pair_eq, [], ◌∷◌, ◌==◌, length, true, ◌&&◌, not, false, nat_beq,
  retain, if◌then◌else◌, sort_by_key, ◌++◌, any, List, Bool, ℕ,
}
use democrachat.Store.{
  values, remove, Channel, compose_id, Membership, insert, Text, Message, Reaction, u64_add, Inner,
  upsert_row, delete_row, record_row, message_row, reaction_row,
}

unfoldable pub next_message_id : Inner → ℕ × Inner
next_message_id s =
    let n = u64_add s.next_message 1 in (compose_id s.node n, record s { next_message = n })

-- `insert_message` and `update_message`.
unfoldable pub put_message : Inner → Message → Inner
unfolding record_row
put_message s m =
    let t = record_row s upsert_row (message_row m) in
    record t { messages = insert m.id m t.messages }

unfoldable pub messages_of : Inner → ℕ → List Message
messages_of s channel =
    sort_by_key (λ m. m.id) (retain (λ m. nat_beq m.channel_id channel) (values s.messages))

abbrev pub is_reaction : ℕ → ℕ → Text → Reaction → Bool
is_reaction message user emoji r =
    nat_beq r.message_id message && nat_beq r.user user && r.emoji == emoji

unfoldable pub add_reaction : Inner → Reaction → Bool × Inner
unfolding record_row
add_reaction s r =
    if any (is_reaction r.message_id r.user r.emoji) s.reactions then (false, s) else (
      true,
      (let t = record_row s upsert_row (reaction_row r) in
          record t { reactions = t.reactions ++ r ∷ [] }),
    )

-- The lengths before and after tell whether anything was removed.
unfoldable pub remove_reaction : Inner → ℕ → ℕ → Text → Bool × Inner
unfolding record_row
remove_reaction s message user emoji =
    let kept = retain (λ r. not (is_reaction message user emoji r)) s.reactions in
    let t = record s { reactions = kept } in
    if nat_beq (length kept) (length s.reactions) then (false, t) else (
      true,
      record_row t delete_row
          (reaction_row (record { message_id = message; user = user; emoji = emoji })),
    )

unfoldable pub reactions_on : Inner → ℕ → List Reaction
reactions_on s message = retain (λ r. nat_beq r.message_id message) s.reactions

abbrev pub is_by : ℕ → ℕ → Reaction → Bool
is_by message user r = nat_beq r.message_id message && nat_beq r.user user

unfoldable pub user_has_any : Inner → ℕ → ℕ → Bool
user_has_any s message user = any (is_by message user) s.reactions

unfoldable pub channels_of : Inner → ℕ → List Channel
channels_of s server =
    sort_by_key (λ c. c.id) (retain (λ c. nat_beq c.server_id server) (values s.channels))

unfoldable pub members_of : Inner → ℕ → List Membership
members_of s server = retain (λ m. nat_beq m.server_id server) (values s.memberships)

-- The key is the time in nanoseconds and the new sequence number, both in hexadecimal.
unfoldable pub put_media : (hex : ℕ → Text) → Inner → (nanos : ℕ) → Text → List ℕ → Text × Inner
put_media hex s nanos content_type bytes =
    let seq = u64_add s.media_seq 1 in
    let key = hex nanos ++ hex seq in
    (key, record s { media_seq = seq; media = insert key (content_type, bytes) s.media })

unfoldable pub delete_media : Inner → Text → Inner
delete_media s key = record s { media = remove key s.media }
