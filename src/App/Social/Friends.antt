-- ===== src/App/Social/Friends.antt =====
-- Who may accept a friendship, and what that writes.
use democrachat.App.Results.{ok, ok_inj}
use democrachat.App.Social.{accept_friend_between}
use democrachat.Domain.Membership.{User}
use democrachat.Domain.Social.{
  Friendship, friendship_between, accept, are_friends, accepted, pending_request,
}
use democrachat.Prelude.{
  ◌∙◌, find, ℕ, ◌≡◌, refl, subst, sym, Bool-cases, Option-cases, true, not, ◌&&◌, some, List, [],
  ◌∷◌, any, nat_beq, nat_eq, inl, inr, arith, list_eq, pair_eq, triple_eq,
}
use democrachat.Store.{Inner}
use democrachat.Store.People.{update_friendship, friendship_of, overwrite}

friendship_of-update :
    (a b : ℕ) (f : Friendship) (l : List Friendship)
    → friendship_between a b f ≡ true
    → any (friendship_between f.requester f.addressee) l ≡ true
    → find (friendship_between a b) (overwrite f l) ≡ some f
unfolding friendship_between
friendship_of-update a b f [] h k = absurd (cc)
friendship_of-update a b f (x ∷ l) h k = ground (arith, friendship_of-update a b f l)

find-any :
    (a b : ℕ) (f g : Friendship) (l : List Friendship)
    → find (friendship_between a b) l ≡ some g
    → f.requester ≡ b
    → f.addressee ≡ a
    → any (friendship_between f.requester f.addressee) l ≡ true
unfolding friendship_between
find-any a b f g [] h e k = absurd (cc)
find-any a b f g (x ∷ l) h e k = ground (arith, find-any a b f g l)

friendship_of-accept :
    (s : Inner) (a b : ℕ) (f : Friendship)
    → friendship_of s a b ≡ some f
    → f.requester ≡ b
    → f.addressee ≡ a
    → friendship_of (update_friendship s (accept f)) a b ≡ some (accept f)
unfolding friendship_of update_friendship accept friendship_between
friendship_of-accept s a b f e r d =
    ground (arith, friendship_of-update a b (accept f) s.friends, find-any a b f f s.friends e r d)

-- The request of `other` to `me` is found accepted.
abbrev pub Befriended : Inner → User → User → Type 0
Befriended t me other =
    (g : Friendship) × (friendship_of t me.id other.id ≡ some g)
    × (g.requester ≡ other.id)
    × (g.addressee ≡ me.id)
    × (g.status ≡ accepted)

-- A friendship is accepted only by the addressee of a pending request that the other made; the
-- friendship that is then found between the two has the same requester and addressee, and is
-- accepted.
pub accept_friend_between_accepts :
    (s t : Inner) (me other : User)
    → accept_friend_between s me other ≡ ok t
    → (f : Friendship) × (friendship_of s me.id other.id ≡ some f)
      × (f.requester ≡ other.id)
      × (f.addressee ≡ me.id)
      × (f.status ≡ pending_request)
      × Befriended t me other
unfolding accept_friend_between friendship_of update_friendship accept are_friends
accept_friend_between_accepts s t me other h =
    elim (Option-cases (friendship_of s me.id other.id)) [
      | inl e ↦ absurd (ground arith)
      | inr (f, e) ↦
          elim (Bool-cases
            (not (are_friends f) && nat_beq f.requester other.id && nat_beq f.addressee me.id)) [
              | inr k ↦ absurd (ground arith)
              | inl k ↦ (
                f,
                e,
                ground arith,
                ground arith,
                ground arith,
                (let et : accept_friend_between s me other ≡ ok (update_friendship s (accept f)) =
                      rw (accept_friend_between, e, k) refl in
                    let found =
                      subst (λ x. friendship_of x me.id other.id ≡ some (accept f))
                        (ok_inj (sym et ∙ h))
                        (friendship_of-accept s me.id other.id f e (ground arith) (ground arith)) in
                    (accept f, found, ground arith, ground arith, refl)),
              )
            ]
    ]
