-- ===== src/Examples/Emojis.antt =====
-- The theorem of custom emoji, at the first of a server.
use democrachat.App.Emojis.{add_emoji}
use democrachat.App.Emojis.Names.{Added, NamedOnce, add_emoji-Added}
use democrachat.App.Results.{ok}
use democrachat.Domain.Chat.{Emoji}
use democrachat.Domain.Membership.{is_franchised, joined, new_user}
use democrachat.Domain.Server.{new_server}
use democrachat.Examples.Services.{store, alice, tea_club, day_40}
use democrachat.Prelude.{arith, list_eq, nat_eq, pair_eq, refl, triple_eq, ◌≡◌}
use democrachat.Prelude.Maps.{get}
use democrachat.Prelude.Std.{codes, trim}
use democrachat.Store.Emojis.{insert_emoji, next_emoji_id}

abbrev kettle : Emoji
kettle = record {
  id = (next_emoji_id store).0;
  server_id = tea_club.id;
  name = codes "kettle";
  url = codes "data:k";
  added_by = alice.id;
  added_at = day_40;
}

kettle_added :
    add_emoji store day_40 alice.handle tea_club.slug (codes ":Kettle:") (codes "data:k")
    ≡ ok (kettle, insert_emoji (next_emoji_id store).1 kettle)
unfolding add_emoji new_server trim new_user get is_franchised joined
kettle_added = refl

none_named : NamedOnce store
none_named server name = omega arith

add_emoji-Added_example :
    Added store (codes ":Kettle:") kettle (insert_emoji (next_emoji_id store).1 kettle)
unfolding get
add_emoji-Added_example =
    add_emoji-Added store day_40 alice.handle tea_club.slug (codes ":Kettle:") (codes "data:k")
      none_named refl kettle (insert_emoji (next_emoji_id store).1 kettle) kettle_added
