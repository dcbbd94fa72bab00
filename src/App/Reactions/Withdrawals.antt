-- ===== src/App/Reactions/Withdrawals.antt =====
-- What taking a reaction back does, and the round trip of a reaction.
use democrachat.App.Reactions.{unreact, withdraws, adjust_contribution}
use democrachat.App.Reactions.Endorsements.{
  Moved, adjusted_if, reactions-adjust_if, moved, Keyed-of_eq, endorses, fresh-absent, reaction_by,
}
use democrachat.App.Results.{Holds}
use democrachat.Domain.Chat.{Message, Reaction}
use democrachat.Domain.Membership.{Membership, User, is_citizen, is_franchised}
use democrachat.Prelude.{
  All, Bool, Option, Option-cases, arith, inl, inr, list_eq, nat_eq, not, pair_eq, retain, some,
  subst, triple_eq, ℕ, ◌&&◌, ◌∙◌, ◌≡◌, if◌then◌else◌, nat_beq, List, [], any, beq_refl, false, none,
  refl, ◌++◌, ◌∷◌, Bool-cases, ap, beq_false, length, length-append, true, length-retain-le, suc,
  ◌==◌, sym,
}
use democrachat.Prelude.Int.{negsuc, ℤ, neg_part, pos, ◌+ℤ◌}
use democrachat.Prelude.Maps.{get, get-All}
use democrachat.Prelude.Std.{Text, trim}
use democrachat.Store.{Inner, find_by_handle, get_membership}
use democrachat.Store.Chat.{is_reaction, remove_reaction, is_by, add_reaction, user_has_any}
use democrachat.Store.Members.{Keyed}

abbrev citizenship : Option Membership → Bool
citizenship none = false
citizenship (some m) = is_citizen m && not m.is_sanctioned

abbrev reacts_with : ℕ → ℕ → Text → Reaction → Bool
reacts_with message user emoji r =
    nat_beq r.message_id message && nat_beq r.user user && r.emoji == emoji

abbrev reacts_otherwise : ℕ → ℕ → Text → Reaction → Bool
reacts_otherwise message user emoji r =
    nat_beq r.message_id message && nat_beq r.user user && not (r.emoji == emoji)

-- Whether an endorsement is withdrawn: the user reacted to the message with this emoji and with no
-- other, is a citizen who is not banned, and is not its author.
abbrev pub withdrawn : Inner → ℕ → Message → Text → Option Membership → Bool
withdrawn s user message emoji reactor =
    any (reacts_with message.id user (trim emoji)) s.reactions
    && (not (any (reacts_otherwise message.id user (trim emoji)) s.reactions)
        && citizenship reactor
        && not (nat_beq user message.author))

-- The same, as `unreact` computes it.
abbrev pub taken_back : Inner → ℕ → Message → Text → Option Membership → Bool
taken_back s user message emoji reactor =
    let (removed, t) = remove_reaction s message.id user (trim emoji) in
    removed && withdraws t user message reactor

same_suc : (a b : ℕ) → nat_beq (suc a) (suc b) ≡ nat_beq a b
same_suc a b = ground arith

shortened :
    (m u : ℕ) (e : Text) (l : List Reaction)
    → nat_beq (length (retain (λ r. not (is_reaction m u e r)) l)) (length l)
      ≡ not (any (reacts_with m u e) l)
shortened m u e [] = refl
shortened m u e (x ∷ l) = elim (Bool-cases (is_reaction m u e x)) [
  | inl k ↦
      let short = length-retain-le (λ r. not (is_reaction m u e r)) l in
      rw k (
        beq_false (length (retain (λ r. not (is_reaction m u e r)) l)) (suc (length l))
          (λ h. omega arith))
  | inr k ↦ rw k (same_suc _ _ ∙ shortened m u e l)
]

left_over_any :
    (m u : ℕ) (e : Text) (l : List Reaction)
    → any (is_by m u) (retain (λ r. not (is_reaction m u e r)) l) ≡ any (reacts_otherwise m u e) l
left_over_any m u e [] = refl
left_over_any m u e (x ∷ l) = ground (arith, left_over_any m u e l)

remove_reaction-keeps :
    (s : Inner) (m u : ℕ) (e : Text)
    → let t = (remove_reaction s m u e).1 in
      (t.reactions ≡ retain (λ r. not (is_reaction m u e r)) s.reactions)
      × (t.memberships ≡ s.memberships)
unfolding remove_reaction
remove_reaction-keeps s m u e = ground arith

removed-any :
    (s : Inner) (m u : ℕ) (e : Text)
    → (remove_reaction s m u e).0 ≡ any (reacts_with m u e) s.reactions
unfolding remove_reaction
removed-any s m u e =
    let kept = retain (λ r. not (is_reaction m u e r)) s.reactions in
    let short = shortened m u e s.reactions in
    elim (Bool-cases (nat_beq (length kept) (length s.reactions))) [
      | inl k ↦ rw (remove_reaction, k) (ground (arith, short, k))
      | inr k ↦ rw (remove_reaction, k) (ground (arith, short, k))
    ]

any_left :
    (s : Inner) (m u : ℕ) (e : Text)
    → user_has_any (remove_reaction s m u e).1 m u ≡ any (reacts_otherwise m u e) s.reactions
unfolding user_has_any
any_left s m u e =
    ap (any (is_by m u)) (remove_reaction-keeps s m u e).0 ∙ left_over_any m u e s.reactions

pub taken_back-withdrawn :
    (s : Inner) (user : ℕ) (message : Message) (emoji : Text) (reactor : Option Membership)
    → taken_back s user message emoji reactor ≡ withdrawn s user message emoji reactor
unfolding is_franchised
taken_back-withdrawn s user message emoji none = ground arith
taken_back-withdrawn s user message emoji (some m) =
    rw (removed-any s message.id user (trim emoji), any_left s message.id user (trim emoji)) refl

pub record Unreacted (s : Inner) (handle : Text) (id : ℕ) (emoji : Text) (t : Inner) : Type 0 where
  pub user : User
  pub message : Message
  pub is_user : find_by_handle s (trim handle) ≡ some user
  pub is_message : get id s.messages ≡ some message
  pub withdrew :
      Moved s
        (withdrawn s user.id message emoji (get_membership s user.id message.server_id))
        message.author
        message.server_id
        (negsuc 0)
        t
  pub removed :
      t.reactions ≡ retain (λ r. not (is_reaction message.id user.id (trim emoji) r)) s.reactions

-- A store with the same memberships serves as well.
Moved-from :
    (s s' t : Inner) (b : Bool) (author server : ℕ) (delta : ℤ)
    → s'.memberships ≡ s.memberships
    → Moved s' b author server delta t
    → Moved s b author server delta t
unfolding get_membership
Moved-from s s' t b author server delta e h u v =
    subst
      (λ m. get (u, v) t.memberships ≡ (
        if b && (nat_beq author u && nat_beq server v)
        then moved delta (get (u, v) m)
        else get (u, v) m))
      e (h u v)

-- Taking back a reaction withdraws an endorsement exactly if it was the only reaction on the message
-- by a citizen who is not banned and not the message's author: then the author's contribution there falls by one,
-- to zero at least, and no other membership changes. The store has each membership under its user and
-- server.
pub unreact_withdraws :
    (s : Inner) (handle : Text) (id : ℕ) (emoji : Text)
    → Keyed s
    → Holds (Unreacted s handle id emoji) (unreact s handle id emoji)
unfolding unreact get_membership
unreact_withdraws s handle id emoji keyed = elim (Option-cases (find_by_handle s (trim handle))) [
  | inl e ↦ rw (unreact, e) tt
  | inr (user, eu) ↦ elim (Option-cases (get id s.messages)) [
    | inl e ↦ rw (unreact, eu, e) tt
    | inr (message, em) ↦
        let p = remove_reaction s message.id user.id (trim emoji) in
        let same = remove_reaction-keeps s message.id user.id (trim emoji) in
        let w : Bool =
          p.0 && withdraws p.1 user.id message (get_membership p.1 user.id message.server_id) in
        let t : Inner =
          if w then adjust_contribution p.1 message.author message.server_id (negsuc 0) else p.1 in
        let rest = reactions-adjust_if w p.1 message.author message.server_id (negsuc 0) in
        rw (unreact, eu, em)
          (record {
            user = user;
            message = message;
            is_user = eu;
            is_message = em;
            withdrew =
                subst (λ b. Moved s b message.author message.server_id (negsuc 0) t)
                  (taken_back-withdrawn s user.id message emoji
                    (get_membership s user.id message.server_id))
                  (subst
                    (λ x.
                      Moved s
                        (taken_back s user.id message emoji (get (user.id, message.server_id) x))
                        message.author message.server_id (negsuc 0) t)
                    same.1
                    (Moved-from s p.1 t w message.author message.server_id (negsuc 0) same.1 (
                      adjusted_if w p.1 message.author message.server_id (negsuc 0)
                        (Keyed-of_eq s p.1 same.1 keyed))));
            removed = rest.0 ∙ same.0;
          })
  ]
]

-- No contribution is below zero.
abbrev pub NoDebt : Inner → Type 0
NoDebt s = All (λ (e : (ℕ × ℕ) × Membership). neg_part e.1.contribution ≡ 0) s.memberships

there_and_back :
    (o : Option Membership)
    → ((m : Membership) → o ≡ some m → neg_part m.contribution ≡ 0)
    → moved (negsuc 0) (moved (pos 1) o) ≡ o
unfolding ◌+ℤ◌
there_and_back none h = refl
there_and_back (some m) h = ground (arith, h m refl)

retain-absent :
    (l : List Reaction) (message user : ℕ) (emoji : Text)
    → any (is_by message user) l ≡ false
    → retain (λ r. not (is_reaction message user emoji r)) l ≡ l
retain-absent [] message user emoji h = refl
retain-absent (x ∷ l) message user emoji h = ground (arith, retain-absent l message user emoji)

retain-added :
    (l : List Reaction) (message user : ℕ) (emoji : Text)
    → any (is_by message user) l ≡ false
    → retain
        (λ r. not (is_reaction message user emoji r))
        (l ++ record { message_id = message; user = user; emoji = emoji } ∷ [])
      ≡ l
retain-added [] message user emoji h = ground (arith, beq_refl emoji)
retain-added (x ∷ l) message user emoji h = ground (arith, retain-added l message user emoji)

module _ (s t u : Inner) (user : ℕ) (message : Message) (reactor : Membership) (emoji : Text)
    (fresh : user_has_any s message.id user ≡ false)
    (is_reactor : get_membership s user message.server_id ≡ some reactor) (no_debt : NoDebt s)
    (reacted : Moved s (endorses s user message reactor) message.author message.server_id (pos 1) t)
    (added : t.reactions ≡ (add_reaction s (reaction_by user message emoji)).1.reactions)
    (unreacted : Moved t
      (withdrawn t user message emoji (get_membership t user message.server_id))
      message.author
      message.server_id
      (negsuc 0)
      u)
    (removed : u.reactions
      ≡ retain (λ r. not (is_reaction message.id user (trim emoji) r)) t.reactions) where
  one_more : t.reactions ≡ s.reactions ++ reaction_by user message emoji ∷ []
  unfolding add_reaction user_has_any
  one_more =
      added ∙ rw (add_reaction, fresh-absent s.reactions message.id user (trim emoji) fresh) refl

  left_over :
      retain (λ r. not (is_reaction message.id user (trim emoji) r)) t.reactions ≡ s.reactions
  unfolding user_has_any
  left_over =
      ap (retain (λ r. not (is_reaction message.id user (trim emoji) r))) one_more
      ∙ retain-added s.reactions message.id user (trim emoji) fresh

  is_removed : (remove_reaction t message.id user (trim emoji)).0 ≡ true
  unfolding remove_reaction
  is_removed =
      let p : Reaction → Bool = λ r. not (is_reaction message.id user (trim emoji) r) in
      let shorter = ap length left_over in
      let longer = ap length one_more in
      let more = length-append s.reactions (reaction_by user message emoji ∷ []) in
      rw
        (
          remove_reaction,
          beq_false (length (retain p t.reactions)) (length t.reactions) (λ e. omega arith),
        )
        refl

  none_left :
      user_has_any (remove_reaction t message.id user (trim emoji)).1 message.id user ≡ false
  unfolding user_has_any
  none_left =
      ap (any (is_by message.id user))
        ((remove_reaction-keeps t message.id user (trim emoji)).0 ∙ left_over)
      ∙ fresh

  as_endorsed :
      withdrawn t user message emoji (get_membership t user message.server_id)
      ≡ endorses s user message reactor
  as_endorsed =
      sym (taken_back-withdrawn t user message emoji _)
      ∙ elim (Bool-cases (nat_beq user message.author)) [
        | inl own ↦ ground arith
        | inr other ↦
            let same : get_membership t user message.server_id ≡ some reactor =
              ground (arith, reacted user message.server_id, is_reactor) in
            rw (same, is_removed, none_left, fresh, other) refl
      ]

  pub restored :
      (u.reactions ≡ s.reactions) × ((a b : ℕ) → get_membership u a b ≡ get_membership s a b)
  unfolding get_membership
  restored = (
    removed ∙ left_over,
    λ a b.
        let back = there_and_back (get (a, b) s.memberships) (λ m e.
          get-All (λ (e : (ℕ × ℕ) × Membership). neg_part e.1.contribution ≡ 0) (a, b) m
            s.memberships no_debt e) in
        ground (arith, reacted a b, unreacted a b, as_endorsed, back),
  )
