-- ===== src/Store/People.antt =====
-- The ports of invites, blocks, friendships, direct messages, nonces and verification tokens.
use democrachat.Prelude.{
  ℕ, Bool, true, false, ◌&&◌, ◌||◌, Option, none, some, List, [], ◌∷◌, ◌++◌, any, retain, find,
  nat_beq, nat_eq, list_eq, pair_eq, if◌then◌else◌, max,
}
use democrachat.Prelude.Int.{ℤ, ltb_ℤ}
use democrachat.Prelude.Maps.{get, insert, remove, values}
use democrachat.Prelude.Std.{Text, u64_add}
use democrachat.Domain.Node.{compose_id}
use democrachat.Domain.Server.{Invite}
use democrachat.Domain.Social.{Block, block_between, Friendship, friendship_between, DmMessage}
use democrachat.Store.{Inner, upsert_row, record_row, invite_row, block_row, friendship_row, dm_row}
use democrachat.Store.Content.{retain_values}

unfoldable pub add_invite : Inner → Invite → Inner
unfolding record_row
add_invite s i =
    let t = record_row s upsert_row (invite_row i) in
    record t { invites = insert i.code_hash i t.invites }

unfoldable pub by_hash : Inner → Text → Option Invite
by_hash s code_hash = get code_hash s.invites

unfoldable pub invites_of : Inner → ℕ → List Invite
invites_of s server = retain (λ i. nat_beq i.server_id server) (values s.invites)

unfoldable pub revoke : Inner → Text → Inner
unfolding record_row
revoke s code_hash = elim (get code_hash s.invites) [
  | none ↦ s
  | some i ↦
      let j = record i { is_revoked = true } in
      let t = record_row s upsert_row (invite_row j) in
      record t { invites = insert j.code_hash j t.invites }
]

unfoldable pub add_block : Inner → Block → Bool × Inner
unfolding record_row
add_block s b =
    if any (λ x. nat_beq x.blocker b.blocker && nat_beq x.blocked b.blocked) s.blocks
    then (false, s)
    else (
      true,
      (let t = record_row s upsert_row (block_row b) in record t { blocks = t.blocks ++ b ∷ [] }),
    )

unfoldable pub blocks_involving : Inner → ℕ → List Block
blocks_involving s who = retain (λ b. nat_beq b.blocker who || nat_beq b.blocked who) s.blocks

unfoldable pub is_blocked_between : Inner → ℕ → ℕ → Bool
is_blocked_between s a b = any (block_between a b) s.blocks

unfoldable pub add_friendship : Inner → Friendship → Bool × Inner
unfolding record_row
add_friendship s f =
    if any (friendship_between f.requester f.addressee) s.friends then (false, s) else (
      true,
      (let t = record_row s upsert_row (friendship_row f) in
          record t { friends = t.friends ++ f ∷ [] }),
    )

-- `iter_mut().find(..)`: the first record between the two is overwritten.
abbrev pub overwrite : Friendship → List Friendship → List Friendship
overwrite f [] = []
overwrite f (x ∷ l) =
    if friendship_between f.requester f.addressee x then f ∷ l else x ∷ overwrite f l

unfoldable pub update_friendship : Inner → Friendship → Inner
unfolding record_row
update_friendship s f =
    let t = record s { friends = overwrite f s.friends } in
    if any (friendship_between f.requester f.addressee) s.friends
    then record_row t upsert_row (friendship_row f)
    else t

unfoldable pub friendship_of : Inner → ℕ → ℕ → Option Friendship
friendship_of s a b = find (friendship_between a b) s.friends

unfoldable pub friends_involving : Inner → ℕ → List Friendship
friends_involving s who = retain (λ f. nat_beq f.requester who || nat_beq f.addressee who) s.friends

unfoldable pub next_dm_id : Inner → ℕ × Inner
next_dm_id s = let n = u64_add s.next_dm 1 in (compose_id s.node n, record s { next_dm = n })

unfoldable pub insert_dm : Inner → DmMessage → Inner
unfolding record_row
insert_dm s m = let t = record_row s upsert_row (dm_row m) in record t { dms = t.dms ++ m ∷ [] }

-- Entries whose expiry is past are pruned before the new one is written.
unfoldable pub remember_nonce : Inner → ℕ → Text → ℤ → ℤ → Bool × Inner
remember_nonce s node nonce now expiry_at =
    let kept = retain_values (λ expiry. ltb_ℤ now expiry) s.nonces in
    let is_new : Bool = elim (get (node, nonce) kept) [ none ↦ true | some _ ↦ false ] in
    (is_new, record s { nonces = insert (node, nonce) expiry_at kept })

unfoldable pub add_token : Inner → Text → ℕ → ℤ → Inner
add_token s token_hash user expires_at = record s {
  verification_tokens = insert token_hash (user, expires_at) s.verification_tokens;
}

unfoldable pub take_token : Inner → Text → ℤ → Option ℕ × Inner
take_token s token_hash now =
    let kept = retain_values (λ e. ltb_ℤ now e.1) s.verification_tokens in
    (
      elim (get token_hash kept) [ none ↦ none | some e ↦ some (e.0) ],
      record s { verification_tokens = remove token_hash kept },
    )

unfoldable pub replication_cursor : Inner → ℕ → ℕ
replication_cursor s peer = elim (get peer s.cursors) [ none ↦ 0 | some n ↦ n ]

unfoldable pub advance_cursor : Inner → ℕ → ℕ → Inner
unfolding replication_cursor
advance_cursor s peer seq = record s {
  cursors = insert peer (max (replication_cursor s peer) seq) s.cursors;
}
