-- ===== src/App/Reactions.antt =====
-- crates/app/src/chat_service.rs: reactions, and the contribution that a citizen's reaction brings to
-- a message's author. A contribution is an integer: that it stays an `i64` is not modelled.
pub mod Endorsements
pub mod Withdrawals
pub mod Returns
use democrachat.App.Results.{Result, fail_if, ok, ok_or, ◌>>=◌, ◌>>◌}
use democrachat.Domain.Chat.{Message}
use democrachat.Domain.Membership.{Membership, is_franchised}
use democrachat.Prelude.{
  Bool, Option, false, if◌then◌else◌, list_eq, nat_beq, nat_eq, none, not, pair_eq, some, triple_eq,
  ℕ, ◌&&◌,
}
use democrachat.Prelude.Int.{negsuc, pos, pos_part, ℤ, ◌+ℤ◌}
use democrachat.Prelude.Maps.{get}
use democrachat.Prelude.Std.{Text, is_empty, trim}
use democrachat.Store.{Inner, find_by_handle, get_membership, upsert_membership}
use democrachat.Store.Chat.{add_reaction, remove_reaction, user_has_any}

pub data ReactionError : Type 0 where
  no_such_user : Text → ReactionError
  no_such_message : ℕ → ReactionError
  not_a_member : Text → ReactionError
  empty_emoji : ReactionError

-- `x.max(0)`.
abbrev pub at_least_zero : ℤ → ℤ
at_least_zero a = pos (pos_part a)

unfoldable pub adjust_contribution : Inner → ℕ → ℕ → ℤ → Inner
adjust_contribution s author server delta = elim (get_membership s author server) [
  | none ↦ s
  | some m ↦
      upsert_membership s (record m { contribution = at_least_zero (m.contribution +ℤ delta) })
]

unfoldable pub react : Inner → Text → ℕ → Text → Result ReactionError Inner
unfolding adjust_contribution
react s handle message_id emoji = do
  fail_if (is_empty (trim emoji)) ReactionError.empty_emoji
  user ← ok_or (find_by_handle s (trim handle)) (ReactionError.no_such_user handle)
  message ← ok_or (get message_id s.messages) (ReactionError.no_such_message message_id)
  reactor ← ok_or (get_membership s user.id message.server_id) (ReactionError.not_a_member handle)
  let endorses =
      not (user_has_any s message.id user.id)
      && is_franchised reactor
      && not (nat_beq user.id message.author)
  let (added, t) =
      add_reaction s (record { message_id = message.id; user = user.id; emoji = trim emoji })
  ok (
      if added && endorses
      then adjust_contribution t message.author message.server_id (pos 1)
      else t)

-- A citizen who has no reaction left on someone else's message withdraws the endorsement.
abbrev pub withdraws : Inner → ℕ → Message → Option Membership → Bool
withdraws t user message none = false
withdraws t user message (some reactor) =
    not (user_has_any t message.id user)
    && is_franchised reactor
    && not (nat_beq user message.author)

unfoldable pub unreact : Inner → Text → ℕ → Text → Result ReactionError Inner
unfolding adjust_contribution
unreact s handle message_id emoji = do
  user ← ok_or (find_by_handle s (trim handle)) (ReactionError.no_such_user handle)
  message ← ok_or (get message_id s.messages) (ReactionError.no_such_message message_id)
  let (removed, t) = remove_reaction s message.id user.id (trim emoji)
  ok (
      if removed && withdraws t user.id message (get_membership t user.id message.server_id)
      then adjust_contribution t message.author message.server_id (negsuc 0)
      else t)
