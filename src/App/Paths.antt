-- ===== src/App/Paths.antt =====
-- The ways to the vote: what any use-case of accounts, servers and governance may do to a member's
-- standing.
use democrachat.App.Franchise.{admit, window_start, is_some}
use democrachat.App.Franchise.Growth.{Admission, Candidate}
use democrachat.Domain.Membership.{
  User, Membership, Tier, is_citizen, joined, enfranchisement_slots, evaluate_eligibility,
  is_eligible,
}
use democrachat.Domain.Membership.Franchise.{Qualifies}
use democrachat.Domain.Server.{Server}
use democrachat.Domain.Time.{Timestamp}
use democrachat.Prelude.{
  subst, beq_refl, ◌∙◌, sym, ℕ, ◌<◌, ◌≡◌, refl, Bool-cases, Option-cases, true, false, none, some,
  pair_eq, nat_eq, list_eq, inl, inr, triple_eq,
}
use democrachat.Prelude.Maps.{get-insert, get}
use democrachat.Prelude.Std.{Text}
use democrachat.Store.{
  put_server, Inner, get_membership, upsert_membership, citizen_count, admitted_since,
}
use democrachat.Store.Members.{
  stored_at, get-upsert, Keyed-upsert, is_at_iff, is_at, Keyed, standing_of, Keeps, Keeps-of_eq,
}
use democrachat.Domain.Membership

-- The ways a use-case may touch the standing of user `u` in server `v`.
pub data Way (s t : Inner) (now : Timestamp) (u v : ℕ) : Type 0 where
  unchanged :
      standing_of (get_membership t u v) ≡ standing_of (get_membership s u v) → Way s t now u v
  entered :
      get_membership s u v ≡ none
      → standing_of (get_membership t u v) ≡ some (Membership.member, none)
      → Way s t now u v
  earned :
      (handle slug : Text) (user : User) (server : Server) (m : Membership)
      → Candidate s handle slug user server m
      → user.id ≡ u
      → server.id ≡ v
      → Qualifies user m server.criteria now
      → 0 < enfranchisement_slots (citizen_count s v) (admitted_since s v (window_start now))
      → standing_of (get_membership t u v) ≡ some (Membership.citizen, some now)
      → Way s t now u v
  founded :
      (server : Server)
      → server.founder_id ≡ u
      → server.created_at ≡ now
      → get v t.servers ≡ some server
      → standing_of (get_membership t u v) ≡ some (Membership.citizen, some now)
      → Way s t now u v

abbrev pub Sound : Inner → Inner → Timestamp → Type 0
Sound s t now = Keyed s → Keyed t × ((u v : ℕ) → Way s t now u v)

pub Sound-of_Keeps : (s t : Inner) (now : Timestamp) → Keeps s t → Sound s t now
Sound-of_Keeps s t now keeps k = ((keeps k).0, λ u v. unchanged ((keeps k).1 u v))

pub Sound-of_eq : (s t : Inner) (now : Timestamp) → t.memberships ≡ s.memberships → Sound s t now
Sound-of_eq s t now e = Sound-of_Keeps s t now (Keeps-of_eq s t e)

memberships-put_server : (r : Inner) (v : Server) → (put_server r v).memberships ≡ r.memberships
unfolding put_server
memberships-put_server r v = refl

get-put_server :
    (r : Inner) (v : Server) (n : Membership)
    → get v.id (upsert_membership (put_server r v) n).servers ≡ some v
unfolding put_server upsert_membership
get-put_server r v n = rw (get-insert v.id v.id v r.servers, beq_refl v.id) refl

-- A membership is written: the standing changes at its place alone.
pub Sound-upsert :
    (s r : Inner) (now : Timestamp) (n : Membership)
    → r.memberships ≡ s.memberships
    → ((u v : ℕ)
        → is_at n u v ≡ true
        → standing_of (get_membership (upsert_membership r n) u v)
          ≡ some (n.tier, n.enfranchised_at)
        → Way s (upsert_membership r n) now u v)
    → Sound s (upsert_membership r n) now
Sound-upsert s r now n same h k =
    let (k', e) = Keeps-of_eq s r same k in
    (
      Keyed-upsert r n k',
      λ u v. elim (Bool-cases (is_at n u v)) [
        | inl f ↦ h u v f (rw (get-upsert r n u v, f) refl)
        | inr f ↦ unchanged (rw (get-upsert r n u v, f) (e u v))
      ],
    )

-- A new member enters without the vote.
pub Sound-joined :
    (s : Inner) (now : Timestamp) (user server : ℕ)
    → is_some (get_membership s user server) ≡ false
    → Sound s (upsert_membership s (joined user server now)) now
unfolding joined
Sound-joined s now user server absent =
    Sound-upsert s s now (joined user server now) refl (λ u v e f.
      let at = is_at_iff (joined user server now) u v e in
      elim (Option-cases (get_membership s u v)) [ inl g ↦ entered g f | inr (m, g) ↦ absurd (cc) ])

-- The founder of a new server is a citizen at once.
pub Sound-founded :
    (s r : Inner) (now : Timestamp) (server : Server) (n : Membership)
    → r.memberships ≡ s.memberships
    → n.user_id ≡ server.founder_id
    → n.server_id ≡ server.id
    → n.tier ≡ Membership.citizen
    → n.enfranchised_at ≡ some now
    → server.created_at ≡ now
    → Sound s (upsert_membership (put_server r server) n) now
Sound-founded s r now server n same eu ev et ea ec =
    Sound-upsert s (put_server r server) now n (memberships-put_server r server ∙ same) (λ u v e f.
      let (au, av) = is_at_iff n u v e in
      founded server (cc (au, eu)) ec
        (subst (λ x. get x (upsert_membership (put_server r server) n).servers ≡ some server)
          (sym ev ∙ av) (get-put_server r server n))
        (cc (f, et, ea)))

-- A member who qualifies, while a slot is open, becomes a citizen.
pub Sound-earned :
    (s t : Inner) (now : Timestamp) (handle slug : Text) (user : User) (server : Server)
    (m : Membership)
    → Candidate s handle slug user server m
    → Admission s t now user server m
    → Sound s t now
Sound-earned s t now handle slug user server m c a k =
    let found = c.is_member in
    let at = stored_at s user.id server.id m (admit m now) found refl refl k in
    subst (λ x. Sound s x now) (sym a.written)
      (Sound-upsert s s now (admit m now) refl (λ u v e f.
        let (au, av) = is_at_iff (admit m now) u v e in
        let same_user = sym at.0 ∙ au in
        let same_server = sym at.1 ∙ av in
        earned handle slug user server m c same_user same_server a.qualifies
          (subst
            (λ w.
              0 < enfranchisement_slots (citizen_count s w) (admitted_since s w (window_start now)))
            same_server a.slot)
          f))
      k
