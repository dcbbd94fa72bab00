-- ===== src/App/Reactions/Endorsements.antt =====
-- What reacting does to contributions: an endorsement for each message and citizen, and no more.
use democrachat.App.Reactions.{adjust_contribution, at_least_zero, react}
use democrachat.App.Results.{Holds}
use democrachat.Domain.Chat.{Message, Reaction}
use democrachat.Domain.Membership.{Membership, User, is_franchised}
use democrachat.Prelude.{
  Bool, Option, Option-cases, arith, false, if◌then◌else◌, inl, inr, list_eq, nat_beq, nat_beq_iff,
  nat_eq, none, pair_eq, refl, some, triple_eq, true, ℕ, ◌&&◌, ◌≡◌, Bool-cases, List, [], any, not,
  ◌++◌, ◌∷◌, ◌∙◌, All, subst, sym,
}
use democrachat.Prelude.Int.{ℤ, ◌+ℤ◌, pos}
use democrachat.Prelude.Maps.{get}
use democrachat.Prelude.Std.{Text, trim, is_empty}
use democrachat.Store.{
  Inner, get_membership, upsert_membership, find_by_handle, reaction_row, record_row, upsert_row,
}
use democrachat.Store.Chat.{add_reaction, is_by, is_reaction, user_has_any}
use democrachat.Store.Members.{Keyed, get-upsert, stored_at, Keyed-upsert}

abbrev pub moved : ℤ → Option Membership → Option Membership
moved delta none = none
moved delta (some m) = some (record m { contribution = at_least_zero (m.contribution +ℤ delta) })

-- The memberships after the author's contribution moved by `delta`, if `moves`, and nothing else.
abbrev pub Moved : Inner → Bool → ℕ → ℕ → ℤ → Inner → Type 0
Moved s moves author server delta t =
    (u v : ℕ)
    → get_membership t u v ≡ (
        if moves && (nat_beq author u && nat_beq server v)
        then moved delta (get_membership s u v)
        else get_membership s u v)

pub adjusted :
    (s : Inner) (author server : ℕ) (delta : ℤ)
    → Keyed s
    → Moved s true author server delta (adjust_contribution s author server delta)
unfolding adjust_contribution
adjusted s author server delta k u v = elim (Option-cases (get_membership s author server)) [
  | inl e ↦ rw (adjust_contribution, e) (ground arith)
  | inr (m, e) ↦
      let n : Membership = record m { contribution = at_least_zero (m.contribution +ℤ delta) } in
      let at = stored_at s author server m n e refl refl k in
      rw (adjust_contribution, e)
        (ground (arith, get-upsert s n u v, nat_beq_iff author u, nat_beq_iff server v))
]

pub adjusted_if :
    (b : Bool) (s : Inner) (author server : ℕ) (delta : ℤ)
    → Keyed s
    → Moved s b author server delta (if b then adjust_contribution s author server delta else s)
adjusted_if true s author server delta k u v = adjusted s author server delta k u v
adjusted_if false s author server delta k u v = refl

-- What a move leaves alone.
pub reactions-adjust_if :
    (b : Bool) (s : Inner) (author server : ℕ) (delta : ℤ)
    → let t = if b then adjust_contribution s author server delta else s in
      (t.reactions ≡ s.reactions) × (t.messages ≡ s.messages) × (t.users ≡ s.users)
unfolding adjust_contribution upsert_membership
reactions-adjust_if b s author server delta = ground arith

pub Keyed-of_eq : (s s' : Inner) → s'.memberships ≡ s.memberships → Keyed s → Keyed s'
Keyed-of_eq s s' e k =
    subst (All (λ (e : (ℕ × ℕ) × Membership). e.0 ≡ (e.1.user_id, e.1.server_id))) (sym e) k

Keyed-adjust_if :
    (b : Bool) (s : Inner) (author server : ℕ) (delta : ℤ)
    → Keyed s
    → Keyed (if b then adjust_contribution s author server delta else s)
unfolding adjust_contribution
Keyed-adjust_if true s author server delta k =
    elim (Option-cases (get_membership s author server)) [
      | inl e ↦ rw (adjust_contribution, e) k
      | inr (m, e) ↦ rw (adjust_contribution, e) (Keyed-upsert s _ k)
    ]
Keyed-adjust_if false s author server delta k = k

-- A reaction by someone who had none on the message is none that is there already.
pub fresh-absent :
    (l : List Reaction) (message user : ℕ) (emoji : Text)
    → any (is_by message user) l ≡ false
    → any (is_reaction message user emoji) l ≡ false
fresh-absent [] message user emoji h = refl
fresh-absent (x ∷ l) message user emoji h = ground (arith, fresh-absent l message user emoji)

-- Whose endorsement a reaction is: a franchised citizen's first on someone else's message.
abbrev pub endorses : Inner → ℕ → Message → Membership → Bool
endorses s user message reactor =
    not (user_has_any s message.id user)
    && is_franchised reactor
    && not (nat_beq user message.author)

abbrev pub reaction_by : ℕ → Message → Text → Reaction
reaction_by user message emoji = record { message_id = message.id; user = user; emoji = trim emoji }

pub record Reacted (s : Inner) (handle : Text) (id : ℕ) (emoji : Text) (t : Inner) : Type 0 where
  pub user : User
  pub message : Message
  pub reactor : Membership
  pub is_user : find_by_handle s (trim handle) ≡ some user
  pub is_message : get id s.messages ≡ some message
  pub is_reactor : get_membership s user.id message.server_id ≡ some reactor
  pub endorsed :
      Moved s (endorses s user.id message reactor) message.author message.server_id (pos 1) t
  pub added : t.reactions ≡ (add_reaction s (reaction_by user.id message emoji)).1.reactions
  pub keyed : Keyed t
  pub kept : (t.messages ≡ s.messages) × (t.users ≡ s.users)

module _ (s : Inner) (user : ℕ) (message : Message) (reactor : Membership) (emoji : Text)
    (keyed : Keyed s) where
  abbrev after : Bool × Inner → Inner
  after (added, t) =
      if added && endorses s user message reactor
      then adjust_contribution t message.author message.server_id (pos 1)
      else t

  abbrev placed : Bool × Inner
  placed = add_reaction s (reaction_by user message emoji)

  react_moves :
      Moved s
        (endorses s user message reactor)
        message.author
        message.server_id
        (pos 1)
        (after placed)
  unfolding add_reaction get_membership user_has_any
  react_moves u v = elim (Bool-cases (any (is_reaction message.id user (trim emoji)) s.reactions)) [
    | inl dup ↦ elim (Bool-cases (any (is_by message.id user) s.reactions)) [
      | inl had ↦ rw (add_reaction, dup, had) refl
      | inr none_yet ↦
          absurd (ground (arith, fresh-absent s.reactions message.id user (trim emoji) none_yet))
    ]
    | inr new ↦
        rw (add_reaction, new)
          (adjusted_if (endorses s user message reactor)
            (record (record_row s upsert_row (reaction_row (reaction_by user message emoji))) {
              reactions = s.reactions ++ reaction_by user message emoji ∷ [];
            })
            message.author message.server_id (pos 1) keyed u v)
  ]

add_reaction-keeps :
    (s : Inner) (r : Reaction)
    → ((add_reaction s r).1.messages ≡ s.messages)
      × ((add_reaction s r).1.users ≡ s.users)
      × ((add_reaction s r).1.memberships ≡ s.memberships)
unfolding add_reaction
add_reaction-keeps s r = ground arith

-- A reaction that succeeds is a member's, and endorses the message's author exactly if it is a
-- franchised citizen's first on someone else's message: then the author's contribution there grows by
-- one, and no other membership changes. The store has each membership under its user and server.
pub react_endorses :
    (s : Inner) (handle : Text) (id : ℕ) (emoji : Text)
    → Keyed s
    → Holds (Reacted s handle id emoji) (react s handle id emoji)
unfolding react
react_endorses s handle id emoji keyed = elim (Bool-cases (is_empty (trim emoji))) [
  | inl e ↦ rw (react, e) tt
  | inr named ↦ elim (Option-cases (find_by_handle s (trim handle))) [
    | inl e ↦ rw (react, named, e) tt
    | inr (user, eu) ↦ elim (Option-cases (get id s.messages)) [
      | inl e ↦ rw (react, named, eu, e) tt
      | inr (message, em) ↦ elim (Option-cases (get_membership s user.id message.server_id)) [
        | inl e ↦ rw (react, named, eu, em, e) tt
        | inr (reactor, er) ↦
            let p : Bool × Inner = placed s user.id message reactor emoji keyed in
            let rest =
              reactions-adjust_if (p.0 && endorses s user.id message reactor) p.1 message.author
                message.server_id (pos 1) in
            let same = add_reaction-keeps s (reaction_by user.id message emoji) in
            rw (react, named, eu, em, er)
              (record {
                user = user;
                message = message;
                reactor = reactor;
                is_user = eu;
                is_message = em;
                is_reactor = er;
                endorsed = react_moves s user.id message reactor emoji keyed;
                added = rest.0;
                keyed =
                    Keyed-adjust_if (p.0 && endorses s user.id message reactor) p.1 message.author
                      message.server_id (pos 1) (Keyed-of_eq s p.1 same.2 keyed);
                kept = (rest.1 ∙ same.0, rest.2 ∙ same.1);
              })
      ]
    ]
  ]
]
