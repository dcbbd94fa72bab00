-- ===== src/App/Reactions/Returns.antt =====
-- A reaction that is taken back, and an endorsement that was never given.
use democrachat.App.Reactions.{react, unreact}
use democrachat.App.Reactions.Endorsements.{Moved, Reacted, react_endorses}
use democrachat.App.Reactions.Withdrawals.{
  NoDebt, Unreacted, restored, unreact_withdraws, withdrawn,
}
use democrachat.App.Results.{of_Holds, ok}
use democrachat.Domain.Chat.{Message}
use democrachat.Domain.Membership.{User}
use democrachat.Prelude.{
  Option, ap, false, find, list_eq, nat_eq, none, not, pair_eq, retain, some, subst, sym, triple_eq,
  ℕ, ◌==◌, ◌∙◌, ◌≡◌,
}
use democrachat.Prelude.Int.{negsuc}
use democrachat.Prelude.Maps.{get, values}
use democrachat.Prelude.Std.{Text, trim}
use democrachat.Store.{Inner, find_by_handle, get_membership}
use democrachat.Store.Chat.{is_reaction, user_has_any}
use democrachat.Store.Members.{Keyed}

found_by : (s t : Inner) (h : Text) → t.users ≡ s.users → find_by_handle t h ≡ find_by_handle s h
unfolding find_by_handle
found_by s t h e = ap (λ us. find (λ u. u.handle == h) (values us)) e

some_inj {ℓ} : {A : Type ℓ} {a b : A} → ◌≡◌ {A = Option A} (some a) (some b) → a ≡ b
some_inj {a} h = ap (λ o. elim o [ none ↦ a | some x ↦ x ]) h

-- Someone's first reaction on a message, once taken back, leaves every reaction and every
-- membership as it was, with the contributions: what the reaction endorsed is withdrawn. The store
-- has each membership under its user and server, and no contribution below zero.
pub unreact-react :
    (s t u : Inner) (handle : Text) (id : ℕ) (emoji : Text) (user : User) (message : Message)
    → Keyed s
    → NoDebt s
    → find_by_handle s (trim handle) ≡ some user
    → get id s.messages ≡ some message
    → user_has_any s message.id user.id ≡ false
    → react s handle id emoji ≡ ok t
    → unreact t handle id emoji ≡ ok u
    → (u.reactions ≡ s.reactions) × ((a b : ℕ) → get_membership u a b ≡ get_membership s a b)
unreact-react s t u handle id emoji user message keyed no_debt eu em fresh there back =
    let r =
      of_Holds (Reacted s handle id emoji) (react s handle id emoji) t
        (react_endorses s handle id emoji keyed) there in
    let w =
      of_Holds (Unreacted t handle id emoji) (unreact t handle id emoji) u
        (unreact_withdraws t handle id emoji r.keyed) back in
    let same_user : w.user ≡ r.user =
      some_inj (sym w.is_user ∙ found_by s t (trim handle) r.kept.1 ∙ r.is_user) in
    let same_message : w.message ≡ r.message =
      some_inj (sym w.is_message ∙ ap (get id) r.kept.0 ∙ r.is_message) in
    let p : (w.user, w.message) ≡ (r.user, r.message) = λ i. (same_user i, same_message i) in
    restored s t u r.user.id r.message r.reactor emoji
      (subst (λ (x : User × Message). user_has_any s x.1.id x.0.id ≡ false)
        (λ i. (some_inj (sym eu ∙ r.is_user) i, some_inj (sym em ∙ r.is_message) i)) fresh)
      r.is_reactor no_debt r.endorsed r.added
      (subst
        (λ (x : User × Message).
          Moved t (withdrawn t x.0.id x.1 emoji (get_membership t x.0.id x.1.server_id)) x.1.author
            x.1.server_id (negsuc 0) u)
        p w.withdrew)
      (subst
        (λ (x : User × Message).
          u.reactions ≡ retain (λ y. not (is_reaction x.1.id x.0.id (trim emoji) y)) t.reactions)
        p w.removed)
