-- ===== src/Store/Replica/Steps.antt =====
-- Each write of the ports, replayed on a replica.
use democrachat.Domain.Chat.{Reaction, RoleAssignment}
use democrachat.Domain.Social.{Block, DmMessage, Friendship, friendship_between}
use democrachat.Prelude.{
  [], ap, arith, list_eq, nat_eq, pair_eq, refl, some, sym, triple_eq, ◌++◌, ◌+◌, ◌<◌, ◌∷◌, ◌≡◌,
  Bool, Bool-cases, List, any, false, inl, inr, ◌∙◌, nat_beq, ℕ,
}
use democrachat.Prelude.Std.{u64_add, u64_mod}
use democrachat.Store.{
  ChangeOp, ChangeRecord, Inner, Row, entity_of, upsert_row, reaction_row, assignment_row,
  block_row, dm_row, friendship_row, record_row,
}
use democrachat.Store.Chat.{add_reaction, is_reaction}
use democrachat.Store.Content.{assign, is_assignment}
use democrachat.Store.Outbox.{apply_row, apply_rows, upsert_incoming, push_new, same_block}
use democrachat.Store.People.{
  friendship_of, add_block, add_friendship, insert_dm, update_friendship, overwrite,
}
use democrachat.Store.Replica.{Mirrors, Replays, Tables, tables}
use democrachat.Store.Replica.Friends.{
  find-added, find-overwrite, find-overwrite_absent, find-replace, found_after, found_after-eq,
}
use mathlib.Core.List.{append-nil}

push_new-new {ℓ} :
    {A : Type ℓ} (same : A → Bool) (a : A) (l : List A)
    → any same l ≡ false
    → l ++ a ∷ [] ≡ push_new same a l
push_new-new same a l new = rw new

-- The row that a port appends to the outbox.
abbrev pub entry : Inner → ChangeOp → Row → ChangeRecord
entry s op row = record {
  seq = u64_add s.next_outbox 1;
  entity = entity_of row;
  op = op;
  payload = row;
}

abbrev pub Room : Inner → Type 0
Room s = s.next_outbox + 1 < u64_mod

-- A write that changes nothing.
pub unchanged :
    (s t r : Inner)
    → t.outbox ≡ s.outbox
    → t.next_outbox ≡ s.next_outbox
    → Mirrors t r
    → Replays 1 s t r
unfolding apply_rows
unchanged s t r outbox next m = record {
  rows = [];
  appended = outbox ∙ sym (append-nil s.outbox);
  numbered = tt;
  counted = omega arith;
  few = omega arith;
  replica = r;
  applied = refl;
  mirrors = m;
}

pub quiet : (s r : Inner) → Mirrors s r → Replays 1 s s r
quiet s r m = unchanged s s r refl refl m

-- A write that appends one row.
module _ (s t r r' : Inner) (op : ChangeOp) (row : Row) (room : Room s)
    (outbox : t.outbox ≡ s.outbox ++ entry s op row ∷ [])
    (next : t.next_outbox ≡ u64_add s.next_outbox 1) (done : apply_row r op row ≡ some r') where
  pub one_row : Mirrors t r' → Replays 1 s t r
  unfolding apply_rows
  one_row m = record {
    rows = entry s op row ∷ [];
    appended = outbox;
    numbered = (omega arith, tt);
    counted = omega (arith, next);
    few = omega arith;
    replica = r';
    applied = rw done;
    mirrors = m;
  }

-- A port that upserts its row in every case.
module _ (s t r : Inner) (row : Row) (room : Room s)
    (outbox : t.outbox ≡ s.outbox ++ entry s upsert_row row ∷ [])
    (next : t.next_outbox ≡ u64_add s.next_outbox 1) where
  pub upserted : Mirrors t (upsert_incoming r row) → Replays 1 s t r
  unfolding apply_row
  upserted = one_row s t r (upsert_incoming r row) upsert_row row room outbox next refl

-- Lists that a row joins where no other stands for the same thing.
module _ (s r : Inner) (room : Room s) (m : Mirrors s r) where
  pub replayed_reaction : (x : Reaction) → Replays 1 s (add_reaction s x).1 r
  unfolding add_reaction friendship_of upsert_incoming
  replayed_reaction x =
      let same : Reaction → Bool = is_reaction x.message_id x.user x.emoji in
      elim (Bool-cases (any (is_reaction x.message_id x.user x.emoji) s.reactions)) [
        | inl dup ↦ rw dup (quiet s r m)
        | inr new ↦ rw new (
            upserted s _ r (reaction_row x) room refl refl (
              (λ i. record (tables s) { reactions = push_new-new same x s.reactions new i })
                  ∙ ap (λ (t : Tables). record t { reactions = push_new same x t.reactions }) m.0,
              m.1,
            ))
      ]

  pub replayed_block : (x : Block) → Replays 1 s (add_block s x).1 r
  unfolding add_block friendship_of upsert_incoming
  replayed_block x = elim (Bool-cases (any (same_block x) s.blocks)) [
    | inl dup ↦ rw dup (quiet s r m)
    | inr new ↦ rw new (
        upserted s _ r (block_row x) room refl refl (
          (λ i. record (tables s) { blocks = push_new-new (same_block x) x s.blocks new i })
              ∙ ap (λ (t : Tables). record t { blocks = push_new (same_block x) x t.blocks }) m.0,
          m.1,
        ))
  ]

  pub replayed_assignment : (x : RoleAssignment) → Replays 1 s (assign s x).1 r
  unfolding assign friendship_of upsert_incoming
  replayed_assignment x =
      let same : RoleAssignment → Bool = is_assignment x.role_id x.user in
      elim (Bool-cases (any (is_assignment x.role_id x.user) s.role_assignments)) [
        | inl dup ↦ rw dup (quiet s r m)
        | inr new ↦ rw new (
            upserted s _ r (assignment_row x) room refl refl (
              (λ i. record (tables s) {
                role_assignments = push_new-new same x s.role_assignments new i;
              })
                  ∙ ap
                      (λ (t : Tables). record t {
                        role_assignments = push_new same x t.role_assignments;
                      })
                      m.0,
              m.1,
            ))
      ]

  pub replayed_dm :
      (x : DmMessage) → any (λ y. nat_beq y.id x.id) s.dms ≡ false → Replays 1 s (insert_dm s x) r
  unfolding insert_dm friendship_of upsert_incoming
  replayed_dm x new = upserted s _ r (dm_row x) room refl refl (
    (λ i. record (tables s) { dms = push_new-new (λ y. nat_beq y.id x.id) x s.dms new i })
        ∙ ap (λ (t : Tables). record t { dms = push_new (λ y. nat_beq y.id x.id) x t.dms }) m.0,
    m.1,
  )

-- Friendships.
module _ (s r : Inner) (room : Room s) (m : Mirrors s r) (f : Friendship) where
  -- The friendships of `t` are found as after `f` was recorded in `s`.
  abbrev RecordedIn : Inner → Type 0
  RecordedIn t = (a b : ℕ) → friendship_of t a b ≡ found_after f s.friends a b

  befriended :
      (t : Inner)
      → tables t ≡ tables s
      → RecordedIn t
      → Mirrors t (upsert_incoming r (friendship_row f))
  unfolding friendship_of upsert_incoming
  befriended t e h = (
    e ∙ m.0,
    λ a b.
        h a b
        ∙ found_after-eq f a b s.friends r.friends (m.1 a b)
        ∙ sym (find-replace f a b r.friends),
  )

  pub replayed_friendship : Replays 1 s (add_friendship s f).1 r
  unfolding add_friendship friendship_of
  replayed_friendship =
      elim (Bool-cases (any (friendship_between f.requester f.addressee) s.friends)) [
        | inl dup ↦ rw dup (quiet s r m)
        | inr new ↦ rw new (
            upserted s _ r (friendship_row f) room refl refl (
              befriended
                (record (record_row s upsert_row (friendship_row f)) {
                  friends = s.friends ++ f ∷ [];
                })
                refl (λ a b. find-added f a b s.friends new)))
      ]

  pub replayed_update : Replays 1 s (update_friendship s f) r
  unfolding update_friendship friendship_of
  replayed_update = elim (Bool-cases (any (friendship_between f.requester f.addressee) s.friends)) [
    | inl found ↦ rw found (
        upserted s _ r (friendship_row f) room refl refl (
          befriended
            (record_row (record s { friends = overwrite f s.friends }) upsert_row
              (friendship_row f))
            refl (λ a b. find-overwrite f a b s.friends found)))
    | inr absent ↦ rw absent (
        unchanged s _ r refl refl
          (m.0, λ a b. find-overwrite_absent f a b s.friends absent ∙ m.1 a b))
  ]
