-- ===== src/Store/Replica/Removals.antt =====
-- The removals of the ports, replayed on a replica.
use democrachat.Domain.Chat.{Channel, Reaction, Role, Rule}
use democrachat.Domain.Server.{Invite}
use democrachat.Prelude.{
  Bool, Bool-cases, List, Option-cases, [], ap, arith, find, find-holds, inl, inr, length,
  length-retain-le, list_eq, nat_beq, nat_beq_iff, nat_eq, not, pair_eq, refl, retain, some, sym,
  triple_eq, true, ℕ, ◌++◌, ◌∙◌, ◌∷◌, ◌≡◌,
}
use democrachat.Prelude.Maps.{get, get-All, insert, remove}
use democrachat.Prelude.Std.{Text, u64_add}
use democrachat.Store.{
  Inner, Row, assignment_row, channel_row, delete_row, invite_row, reaction_row, role_row, rule_row,
}
use democrachat.Store.Chat.{is_reaction, remove_reaction}
use democrachat.Store.Content.{
  remove_rule, is_assignment, remove_channel, remove_role, retain_values, unassign,
}
use democrachat.Store.Outbox.{apply_row, delete_incoming, upsert_incoming}
use democrachat.Store.People.{friendship_of, revoke}
use democrachat.Store.Replica.{IsFiled, Mirrors, Replays, Tables, tables}
use democrachat.Store.Replica.Steps.{Room, entry, one_row, quiet, unchanged, upserted}

-- A removal that took away nothing left the list as it was.
retain-full {ℓ} :
    {A : Type ℓ} (p : A → Bool) (l : List A) → length (retain p l) ≡ length l → retain p l ≡ l
retain-full p [] h = refl
retain-full p (x ∷ l) h = ground (arith, retain-full p l, length-retain-le p l)

module _ (s t r r' : Inner) (row : Row) (room : Room s)
    (outbox : t.outbox ≡ s.outbox ++ entry s delete_row row ∷ [])
    (next : t.next_outbox ≡ u64_add s.next_outbox 1) (done : delete_incoming r row ≡ some r') where
  deleted : Mirrors t r' → Replays 1 s t r
  unfolding apply_row
  deleted = one_row s t r r' delete_row row room outbox next done

module _ (s r : Inner) (room : Room s) (m : Mirrors s r) where
  pub replayed_unreact :
      (message user : ℕ) (emoji : Text) → Replays 1 s (remove_reaction s message user emoji).1 r
  unfolding remove_reaction friendship_of delete_incoming
  replayed_unreact message user emoji =
      let p : Reaction → Bool = λ x. not (is_reaction message user emoji x) in
      elim (Bool-cases (
        nat_beq (length (retain (λ x. not (is_reaction message user emoji x)) s.reactions))
          (length s.reactions))) [
            | inl none_left ↦ rw none_left (
                unchanged s _ r refl refl (
                  (λ i. record (tables s) {
                    reactions =
                        retain-full p s.reactions
                          ((nat_beq_iff (length (retain p s.reactions)) (length s.reactions)).0
                            none_left)
                          i;
                  })
                      ∙ m.0,
                  m.1,
                ))
            | inr some_left ↦ rw some_left (
                deleted s _ r _
                  (reaction_row (record { message_id = message; user = user; emoji = emoji })) room
                  refl refl refl
                  (ap (λ (t : Tables). record t { reactions = retain p t.reactions }) m.0, m.1))
          ]

  pub replayed_remove_channel : IsFiled s → (id : ℕ) → Replays 1 s (remove_channel s id).1 r
  unfolding remove_channel friendship_of delete_incoming
  replayed_remove_channel filed id = elim (Option-cases (get id s.channels)) [
    | inl absent ↦ rw (remove_channel, absent) (quiet s r m)
    | inr (c, found) ↦
        rw (remove_channel, found)
          (deleted s _ r
            (record r {
              channels = remove id r.channels;
              messages = retain_values (λ x. not (nat_beq x.channel_id id)) r.messages;
            })
            (channel_row c) room refl refl
            (rw (sym (get-All (λ (e : ℕ × Channel). e.0 ≡ e.1.id) id c s.channels filed.0 found)))
            (
              ap
                  (λ (t : Tables). record t {
                    channels = remove id t.channels;
                    messages = retain_values (λ x. not (nat_beq x.channel_id id)) t.messages;
                  })
                  m.0,
              m.1,
            ))
  ]

  pub replayed_remove_rule : IsFiled s → (id : ℕ) → Replays 1 s (remove_rule s id).1 r
  unfolding remove_rule friendship_of delete_incoming
  replayed_remove_rule filed id = elim (Option-cases (get id s.rules)) [
    | inl absent ↦ rw (remove_rule, absent) (quiet s r m)
    | inr (c, found) ↦
        rw (remove_rule, found)
          (deleted s _ r (record r { rules = remove id r.rules }) (rule_row c) room refl refl
            (rw (sym (get-All (λ (e : ℕ × Rule). e.0 ≡ e.1.id) id c s.rules filed.1 found)))
            (ap (λ (t : Tables). record t { rules = remove id t.rules }) m.0, m.1))
  ]

  pub replayed_remove_role : IsFiled s → (id : ℕ) → Replays 1 s (remove_role s id).1 r
  unfolding remove_role friendship_of delete_incoming
  replayed_remove_role filed id = elim (Option-cases (get id s.roles)) [
    | inl absent ↦ rw (remove_role, absent) (quiet s r m)
    | inr (c, found) ↦
        rw (remove_role, found)
          (deleted s _ r
            (record r {
              roles = remove id r.roles;
              role_assignments = retain (λ a. not (nat_beq a.role_id id)) r.role_assignments;
            })
            (role_row c) room refl refl
            (rw (sym (get-All (λ (e : ℕ × Role). e.0 ≡ e.1.id) id c s.roles filed.2 found)))
            (
              ap
                  (λ (t : Tables). record t {
                    roles = remove id t.roles;
                    role_assignments = retain (λ a. not (nat_beq a.role_id id)) t.role_assignments;
                  })
                  m.0,
              m.1,
            ))
  ]

  pub replayed_unassign : (role user : ℕ) → Replays 1 s (unassign s role user).1 r
  unfolding unassign friendship_of delete_incoming
  replayed_unassign role user =
      elim (Option-cases (find (is_assignment role user) s.role_assignments)) [
        | inl absent ↦ rw (unassign, absent) (quiet s r m)
        | inr (a, found) ↦
            let at : is_assignment role user a ≡ true =
              find-holds (is_assignment role user) s.role_assignments a found in
            let is_role : a.role_id ≡ role = ground arith in
            let is_user : a.user ≡ user = ground arith in
            rw (unassign, found)
              (deleted s _ r
                (record r {
                  role_assignments =
                      retain (λ b. not (is_assignment role user b)) r.role_assignments;
                })
                (assignment_row a) room refl refl
                (λ i. some (record r {
                  role_assignments =
                      retain (λ b. not (is_assignment (is_role i) (is_user i) b))
                        r.role_assignments;
                }))
                (
                  ap
                      (λ (t : Tables). record t {
                        role_assignments =
                            retain (λ b. not (is_assignment role user b)) t.role_assignments;
                      })
                      m.0,
                  m.1,
                ))
      ]

  pub replayed_revoke : (code_hash : Text) → Replays 1 s (revoke s code_hash) r
  unfolding revoke friendship_of upsert_incoming
  replayed_revoke code_hash = elim (Option-cases (get code_hash s.invites)) [
    | inl absent ↦ rw (revoke, absent) (quiet s r m)
    | inr (i, found) ↦
        let j : Invite = record i { is_revoked = true } in
        rw (revoke, found)
          (upserted s _ r (invite_row j) room refl refl
            (ap (λ (t : Tables). record t { invites = insert j.code_hash j t.invites }) m.0, m.1))
  ]
