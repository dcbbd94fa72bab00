-- ===== src/Store/Replica/History.antt =====
-- A history of writes, and the pull of a replica that catches up with it.
use democrachat.Domain.Chat.{Channel, Role, Rule}
use democrachat.Prelude.{
  All, All-append, All-imp, List, Option-cases, [], ap, arith, inl, inr, length, length-append,
  list_eq, ltb, nat_eq, pair_eq, refl, retain, some, subst, suc, sym, take, triple_eq, zero, ℕ,
  ◌++◌, ◌+◌, ◌<◌, ◌∙◌, ◌∷◌, ◌≡◌, ◌≤◌,
}
use democrachat.Prelude.Maps.{All-insert, All-remove, get}
use democrachat.Prelude.Std.{u64_mod}
use democrachat.Store.{ChangeRecord, Inner, put_server, put_user, upsert_membership}
use democrachat.Store.Chat.{add_reaction, put_message, remove_reaction}
use democrachat.Store.Content.{
  remove_rule, assign, insert_channel, insert_role, insert_rule, remove_channel, remove_role,
  unassign,
}
use democrachat.Store.Emojis.{insert_emoji, put_grant, put_keys, upsert_emoji_vote}
use democrachat.Store.Outbox.{apply_row, apply_rows, changes_since}
use democrachat.Store.People.{
  add_block, add_friendship, add_invite, insert_dm, revoke, update_friendship,
}
use democrachat.Store.Replica.{
  AllFresh, IsFiled, Mirrors, Numbered, Ready, Replays, Write, adds_assignment, adds_block, adds_dm,
  adds_friendship, adds_invite, adds_reaction, drops_assignment, drops_channel, drops_reaction,
  drops_role, drops_rule, puts_channel, puts_emoji, puts_emoji_vote, puts_key_grant,
  puts_membership, puts_message, puts_proposal, puts_role, puts_rule, puts_server, puts_user,
  puts_user_keys, puts_vote, revokes_invite, updates_friendship, write, write_all,
}
use democrachat.Store.Replica.Writes.{write-Replays}
use democrachat.Store.Votes.{put_proposal, upsert_vote}
use mathlib.Core.List.{append-nil, append_assoc}

-- Channels, rules and roles stay under their ids.
write-IsFiled : (s : Inner) (w : Write) → IsFiled s → IsFiled (write s w)
unfolding write put_user put_server upsert_membership insert_channel put_message put_proposal
    upsert_vote insert_emoji upsert_emoji_vote insert_rule insert_role add_invite put_keys put_grant
    add_reaction remove_reaction add_block assign insert_dm add_friendship update_friendship
    remove_channel remove_rule remove_role unassign revoke
write-IsFiled s (puts_user u) h = h
write-IsFiled s (puts_server v) h = h
write-IsFiled s (puts_membership x) h = h
write-IsFiled s (puts_channel c) h =
    (All-insert (λ (e : ℕ × Channel). e.0 ≡ e.1.id) c.id c s.channels refl h.0, h.1, h.2)
write-IsFiled s (drops_channel id) h = elim (Option-cases (get id s.channels)) [
  | inl e ↦ rw (write, remove_channel, e) h
  | inr (c, e) ↦
      rw (write, remove_channel, e)
        (All-remove (λ (e : ℕ × Channel). e.0 ≡ e.1.id) id s.channels h.0, h.1, h.2)
]
write-IsFiled s (puts_message x) h = h
write-IsFiled s (adds_reaction x) h = ground arith
write-IsFiled s (drops_reaction message user emoji) h = ground arith
write-IsFiled s (puts_proposal p) h = h
write-IsFiled s (puts_vote v) h = h
write-IsFiled s (puts_emoji e) h = h
write-IsFiled s (puts_emoji_vote v) h = h
write-IsFiled s (puts_rule x) h =
    (h.0, All-insert (λ (e : ℕ × Rule). e.0 ≡ e.1.id) x.id x s.rules refl h.1, h.2)
write-IsFiled s (drops_rule id) h = elim (Option-cases (get id s.rules)) [
  | inl e ↦ rw (write, remove_rule, e) h
  | inr (c, e) ↦
      rw (write, remove_rule, e)
        (h.0, All-remove (λ (e : ℕ × Rule). e.0 ≡ e.1.id) id s.rules h.1, h.2)
]
write-IsFiled s (adds_dm x) h = h
write-IsFiled s (adds_block b) h = ground arith
write-IsFiled s (adds_friendship f) h = ground arith
write-IsFiled s (updates_friendship f) h = ground arith
write-IsFiled s (puts_role x) h =
    (h.0, h.1, All-insert (λ (e : ℕ × Role). e.0 ≡ e.1.id) x.id x s.roles refl h.2)
write-IsFiled s (drops_role id) h = elim (Option-cases (get id s.roles)) [
  | inl e ↦ rw (write, remove_role, e) h
  | inr (c, e) ↦
      rw (write, remove_role, e)
        (h.0, h.1, All-remove (λ (e : ℕ × Role). e.0 ≡ e.1.id) id s.roles h.2)
]
write-IsFiled s (adds_assignment a) h = ground arith
write-IsFiled s (drops_assignment role user) h = ground arith
write-IsFiled s (adds_invite i) h = h
write-IsFiled s (revokes_invite code_hash) h = ground arith
write-IsFiled s (puts_user_keys k) h = h
write-IsFiled s (puts_key_grant g) h = h

write_all-IsFiled : (s : Inner) (ws : List Write) → IsFiled s → IsFiled (write_all s ws)
unfolding write_all
write_all-IsFiled s [] h = h
write_all-IsFiled s (w ∷ ws) h = write_all-IsFiled (write s w) ws (write-IsFiled s w h)

Numbered-append :
    (n : ℕ) (xs ys : List ChangeRecord)
    → Numbered n xs
    → Numbered (n + length xs) ys
    → Numbered n (xs ++ ys)
Numbered-append n [] ys h k = subst (λ m. Numbered m ys) (omega arith) k
Numbered-append n (x ∷ xs) ys h k =
    (h.0, Numbered-append (n + 1) xs ys h.1 (subst (λ m. Numbered m ys) (omega arith) k))

apply_rows-append :
    (r t : Inner) (xs ys : List ChangeRecord)
    → apply_rows r xs ≡ some t
    → apply_rows r (xs ++ ys) ≡ apply_rows t ys
unfolding apply_rows
apply_rows-append r t [] ys h = ground arith
apply_rows-append r t (x ∷ xs) ys h = elim (Option-cases (apply_row r x.op x.payload)) [
  | inl e ↦ absurd (ground arith)
  | inr (u, e) ↦ rw (apply_rows, e) (apply_rows-append u t xs ys (ground arith))
]

Replays-trans :
    (m n : ℕ) (s t u r : Inner)
    → (a : Replays m s t r) → Replays n t u a.replica
    → Replays (m + n) s u r
Replays-trans m n s t u r a b = record {
  rows = a.rows ++ b.rows;
  appended = b.appended ∙ ap (λ l. l ++ b.rows) a.appended ∙ append_assoc s.outbox a.rows b.rows;
  numbered =
      Numbered-append s.next_outbox a.rows b.rows a.numbered
        (subst (λ k. Numbered k b.rows) a.counted b.numbered);
  counted = omega (arith, a.counted, b.counted, length-append a.rows b.rows);
  few = omega (arith, a.few, b.few, length-append a.rows b.rows);
  replica = b.replica;
  applied = apply_rows-append r a.replica a.rows b.rows a.applied ∙ b.applied;
  mirrors = b.mirrors;
}

pub write_all-Replays :
    (s r : Inner) (ws : List Write)
    → s.next_outbox + length ws < u64_mod
    → IsFiled s
    → AllFresh s ws
    → Mirrors s r
    → Replays (length ws) s (write_all s ws) r
unfolding write_all apply_rows
write_all-Replays s r [] small filed fresh m = record {
  rows = [];
  appended = sym (append-nil s.outbox);
  numbered = tt;
  counted = omega arith;
  few = omega arith;
  replica = r;
  applied = refl;
  mirrors = m;
}
write_all-Replays s r (w ∷ ws) small filed fresh m =
    let a = write-Replays s r w (omega arith) filed fresh.0 m in
    subst (λ n. Replays n s (write_all s (w ∷ ws)) r) (omega arith)
      (Replays-trans 1 (length ws) s (write s w) (write_all s (w ∷ ws)) r a (
        write_all-Replays (write s w) a.replica ws (omega (arith, a.counted, a.few))
          (write-IsFiled s w filed) fresh.1 a.mirrors))

retain-past :
    (k : ℕ) (old rows : List ChangeRecord)
    → All (λ row. row.seq ≤ k) old
    → retain (λ row. ltb k row.seq) (old ++ rows) ≡ retain (λ row. ltb k row.seq) rows
retain-past k [] rows h = refl
retain-past k (x ∷ old) rows h = ground (arith, retain-past k old rows h.1)

retain-Numbered :
    (k n : ℕ) (rows : List ChangeRecord)
    → k ≤ n
    → Numbered n rows
    → retain (λ row. ltb k row.seq) rows ≡ rows
retain-Numbered k n [] le h = refl
retain-Numbered k n (x ∷ rows) le h =
    ground (arith, retain-Numbered k (n + 1) rows (omega arith) h.1)

take-all {ℓ} : {A : Type ℓ} (n : ℕ) (xs : List A) → length xs ≤ n → take n xs ≡ xs
take-all zero [] h = refl
take-all zero (x ∷ xs) h = absurd (omega arith)
take-all (suc n) [] h = refl
take-all (suc n) (x ∷ xs) h = ap (λ l. x ∷ l) (take-all n xs (omega arith))

Numbered-le :
    (n : ℕ) (rows : List ChangeRecord)
    → Numbered n rows
    → All (λ row. row.seq ≤ n + length rows) rows
Numbered-le n [] h = tt
Numbered-le n (x ∷ rows) h = (
  omega arith,
  All-imp (λ row. row.seq ≤ n + 1 + length rows) (λ row. row.seq ≤ n + length (x ∷ rows))
      (λ row e. omega arith) rows (Numbered-le (n + 1) rows h.1),
)

-- A pull past the counter that the store stood at brings the rows that were written since.
pub changes_since-write_all :
    (s r : Inner) (ws : List Write) (limit : ℕ) (a : Replays (length ws) s (write_all s ws) r)
    → All (λ row. row.seq ≤ s.next_outbox) s.outbox
    → length ws ≤ limit
    → changes_since (write_all s ws) s.next_outbox limit ≡ a.rows
unfolding changes_since
changes_since-write_all s r ws limit a bounded enough =
    let k = s.next_outbox in
    ap (λ l. take limit (retain (λ row. ltb k row.seq) l)) a.appended
    ∙ ap (take limit) (
        retain-past k s.outbox a.rows bounded ∙ retain-Numbered k k a.rows (omega arith) a.numbered)
    ∙ take-all limit a.rows (omega (arith, a.few))

-- A replica that mirrors the store, and after any history of writes pulls the rows past the
-- outbox counter it stood at, applies them all and mirrors the store again, which is ready for the
-- next pull. The pull's limit is at least the number of writes, the counter does not wrap, and each
-- direct message has a fresh id.
pub catch_up :
    (s r : Inner) (ws : List Write) (limit : ℕ)
    → Ready s
    → Mirrors s r
    → AllFresh s ws
    → s.next_outbox + length ws < u64_mod
    → length ws ≤ limit
    → (r' : Inner) × (apply_rows r (changes_since (write_all s ws) s.next_outbox limit) ≡ some r')
      × Mirrors (write_all s ws) r'
      × Ready (write_all s ws)
catch_up s r ws limit (filed, bounded) m fresh small enough =
    let a = write_all-Replays s r ws small filed fresh m in
    let k = s.next_outbox in
    let pulled = changes_since-write_all s r ws limit a bounded enough in
    (
      a.replica,
      ap (apply_rows r) pulled ∙ a.applied,
      a.mirrors,
      (
        write_all-IsFiled s ws filed,
        subst (All (λ row. row.seq ≤ (write_all s ws).next_outbox)) (sym a.appended) (
            All-append (λ row. row.seq ≤ (write_all s ws).next_outbox) s.outbox a.rows
              (All-imp (λ row. row.seq ≤ k) (λ row. row.seq ≤ (write_all s ws).next_outbox)
                (λ row e. omega (arith, a.counted)) s.outbox bounded)
              (All-imp (λ row. row.seq ≤ k + length a.rows)
                (λ row. row.seq ≤ (write_all s ws).next_outbox) (λ row e. omega (arith, a.counted))
                a.rows (Numbered-le k a.rows a.numbered))),
      ),
    )
