-- ===== src/Examples/Chat.antt =====
-- The theorems of chat at a small server.
use democrachat.App.Chat.{
  MessageError, delete_message, edit_message, post_message, post_message_with_attachments,
  post_sealed_message, reply_message,
}
use democrachat.App.Chat.Authors.{Deleted, Edited, authors_only, others_refused}
use democrachat.App.Chat.Posts.{PostedIn, RepliedTo, posting_rules}
use democrachat.App.Reactions.{ReactionError, react, unreact, adjust_contribution}
use democrachat.App.Reactions.Endorsements.{Reacted, react_endorses}
use democrachat.App.Reactions.Returns.{unreact-react}
use democrachat.App.Reactions.Withdrawals.{NoDebt, Unreacted, unreact_withdraws}
use democrachat.App.Results.{Holds, Result, err, ok}
use democrachat.Domain.Chat.{Channel, Message, new_message, open_history}
use democrachat.Domain.Membership.{joined, new_user, is_citizen, is_franchised}
use democrachat.Domain.Server.{new_server}
use democrachat.Examples.Services.{alice, store}
use democrachat.Prelude.{
  [], arith, false, list_eq, nat_eq, none, pair_eq, refl, some, triple_eq, ℕ, ◌∷◌, ◌≡◌, ◌≢◌,
}
use democrachat.Prelude.Int.{pos, ◌+ℤ◌}
use democrachat.Prelude.Maps.{get, insert}
use democrachat.Prelude.Std.{Text, codes, is_empty, trim}
use democrachat.Store.{Inner, find_by_handle, get_membership, upsert_membership, record_row}
use democrachat.Store.Chat.{add_reaction, user_has_any, remove_reaction}
use democrachat.Store.Members.{Keyed}

abbrev tearoom : Channel
tearoom = record {
  id = 5;
  server_id = 7;
  name = codes "tearoom";
  topic = [];
  created_at = pos 0;
  is_encrypted = false;
  history_mode = open_history;
}

-- Bob's message, which Alice, a citizen, has not reacted to.
abbrev welcome : Message
unfolding new_message
welcome = new_message 9 5 7 2 (codes "hi") none (pos 10)

abbrev tea_house : Inner
tea_house = record store { channels = (5, tearoom) ∷ []; messages = (9, welcome) ∷ [] }

house-Keyed : Keyed tea_house
unfolding joined
house-Keyed = (refl, (refl, tt))

house-NoDebt : NoDebt tea_house
unfolding joined
house-NoDebt = (refl, (refl, tt))

abbrev tea : Text
tea = codes "tea"

abbrev decimal : ℕ → Text
decimal n = n ∷ []

posting_rules_example :
    Holds (PostedIn tea_house (pos 50) (codes "tea-club") (codes "tearoom")) (
      post_message_with_attachments tea_house
        (pos 50)
        (codes "bob")
        (codes "tea-club")
        (codes "tearoom")
        tea
        [])
    × Holds
        (PostedIn tea_house (pos 50) (codes "tea-club") (codes "tearoom"))
        (post_message tea_house (pos 50) (codes "bob") (codes "tea-club") (codes "tearoom") tea)
    × Holds (PostedIn tea_house (pos 50) (codes "tea-club") (codes "tearoom")) (
        post_sealed_message tea_house
          (pos 50)
          (codes "bob")
          (codes "tea-club")
          (codes "tearoom")
          tea
          1
          none)
    × Holds
        (RepliedTo tea_house (pos 50) 9)
        (reply_message decimal tea_house (pos 50) (codes "bob") 9 tea)
posting_rules_example =
    posting_rules tea_house (pos 50) decimal (codes "bob") (codes "tea-club") (codes "tearoom") tea
      [] 1 9 none

authors_only_example :
    Holds
      (Edited tea_house (pos 50) (codes "bob") 9 tea)
      (edit_message tea_house (pos 50) (codes "bob") 9 tea)
    × Holds (Deleted tea_house (codes "bob") 9) (delete_message tea_house (codes "bob") 9)
authors_only_example = authors_only tea_house (pos 50) (codes "bob") 9 tea

alice_found : find_by_handle tea_house (trim (codes "alice")) ≡ some alice
unfolding find_by_handle trim new_user
alice_found = refl

welcome_found : get 9 tea_house.messages ≡ some welcome
unfolding get
welcome_found = refl

someone_else : welcome.author ≢ alice.id
unfolding new_message new_user
someone_else h = absurd (omega arith)

says_tea : is_empty (trim tea) ≡ false
unfolding trim
says_tea = refl

others_refused_example :
    (delete_message tea_house (codes "alice") 9 ≡ err MessageError.not_the_author)
    × (edit_message tea_house (pos 50) (codes "alice") 9 tea ≡ err MessageError.not_the_author)
others_refused_example =
    others_refused tea_house (pos 50) (codes "alice") 9 tea alice welcome alice_found welcome_found
      someone_else says_tea

react_endorses_example :
    Holds (Reacted tea_house (codes "alice") 9 tea) (react tea_house (codes "alice") 9 tea)
react_endorses_example = react_endorses tea_house (codes "alice") 9 tea house-Keyed

unreact_withdraws_example :
    Holds (Unreacted tea_house (codes "alice") 9 tea) (unreact tea_house (codes "alice") 9 tea)
unreact_withdraws_example = unreact_withdraws tea_house (codes "alice") 9 tea house-Keyed

abbrev state_after : Result ReactionError Inner → Inner
state_after (ok t) = t
state_after (err e) = store

abbrev reacted : Inner
reacted = state_after (react tea_house (codes "alice") 9 tea)

abbrev undone : Inner
undone = state_after (unreact reacted (codes "alice") 9 tea)

no_reaction : user_has_any tea_house welcome.id alice.id ≡ false
unfolding user_has_any
no_reaction = refl

reacts : react tea_house (codes "alice") 9 tea ≡ ok reacted
unfolding react find_by_handle get_membership get trim new_user welcome
reacts = refl

takes_back : unreact reacted (codes "alice") 9 tea ≡ ok undone
unfolding unreact react find_by_handle get_membership get trim new_user add_reaction
    upsert_membership insert welcome new_message joined remove_reaction user_has_any is_franchised
    is_citizen record_row adjust_contribution ◌+ℤ◌ new_server
takes_back = refl

unreact-react_example :
    (undone.reactions ≡ tea_house.reactions)
    × ((a b : ℕ) → get_membership undone a b ≡ get_membership tea_house a b)
unreact-react_example =
    unreact-react tea_house reacted undone (codes "alice") 9 tea alice welcome house-Keyed
      house-NoDebt alice_found welcome_found no_reaction reacts takes_back
