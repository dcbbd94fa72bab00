-- ===== src/Store/Replica/Friends.antt =====
-- Friendships are overwritten in place by the store, and replaced at the end by a replica: the
-- lookups agree.
use democrachat.Domain.Social.{Friendship, friendship_between}
use democrachat.Prelude.{
  List, Option, [], any, arith, false, find, if◌then◌else◌, list_eq, nat_eq, pair_eq, refl, some,
  triple_eq, true, ℕ, ◌++◌, ◌∷◌, ◌≡◌,
}
use democrachat.Store.Outbox.{replace}
use democrachat.Store.People.{overwrite}

-- What a lookup finds once `f` is the record of its two accounts.
abbrev pub found_after : Friendship → List Friendship → ℕ → ℕ → Option Friendship
found_after f l a b = if friendship_between a b f then some f else find (friendship_between a b) l

module _ (f x : Friendship) (a b : ℕ) where
  same_parties :
      friendship_between f.requester f.addressee x ≡ true
      → friendship_between a b x ≡ friendship_between a b f
  unfolding friendship_between
  same_parties h = ground arith

  between_same :
      friendship_between a b f ≡ true
      → friendship_between a b x ≡ true
      → friendship_between f.requester f.addressee x ≡ true
  unfolding friendship_between
  between_same h k = ground arith

module _ (f : Friendship) (a b : ℕ) where
  pub find-replace :
      (l : List Friendship)
      → find (friendship_between a b) (replace (friendship_between f.requester f.addressee) f l)
        ≡ found_after f l a b
  find-replace [] = refl
  find-replace (x ∷ l) = ground (arith, same_parties f x a b, between_same f x a b, find-replace l)

  pub find-overwrite :
      (l : List Friendship)
      → any (friendship_between f.requester f.addressee) l ≡ true
      → find (friendship_between a b) (overwrite f l) ≡ found_after f l a b
  find-overwrite [] h = absurd (cc)
  find-overwrite (x ∷ l) h =
      ground (arith, same_parties f x a b, between_same f x a b, find-overwrite l)

  pub find-added :
      (l : List Friendship)
      → any (friendship_between f.requester f.addressee) l ≡ false
      → find (friendship_between a b) (l ++ f ∷ []) ≡ found_after f l a b
  find-added [] h = refl
  find-added (x ∷ l) h = ground (arith, same_parties f x a b, between_same f x a b, find-added l)

  pub find-overwrite_absent :
      (l : List Friendship)
      → any (friendship_between f.requester f.addressee) l ≡ false
      → find (friendship_between a b) (overwrite f l) ≡ find (friendship_between a b) l
  find-overwrite_absent [] h = refl
  find-overwrite_absent (x ∷ l) h =
      ground (arith, same_parties f x a b, between_same f x a b, find-overwrite_absent l)

  -- Equal lookups stay equal.
  pub found_after-eq :
      (l l' : List Friendship)
      → find (friendship_between a b) l ≡ find (friendship_between a b) l'
      → found_after f l a b ≡ found_after f l' a b
  found_after-eq l l' e = rw e
