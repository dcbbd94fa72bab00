-- ===== src/Store/Members.antt =====
-- Memberships in the store: where they stand, and what leaves the franchise alone.
use democrachat.Prelude.{
  if◌then◌else◌, true, Bool, ◌&&◌, nat_beq, ℕ, ◌≡◌, refl, ◌∙◌, sym, ap, Option, none, some, arith,
  All, pair_eq, nat_eq, pair_beq_iff,
}
use democrachat.Prelude.Maps.{get-insert, All-insert, get-All}
use democrachat.Domain.Time.{Timestamp}
use democrachat.Domain.Membership.{Membership, Tier}
use democrachat.Store.{Inner, get_membership, upsert_membership}

-- Every membership is stored under its user and its server.
abbrev pub Keyed : Inner → Type 0
Keyed s = All (λ (e : (ℕ × ℕ) × Membership). e.0 ≡ (e.1.user_id, e.1.server_id)) s.memberships

-- What counts for the franchise: the tier and the instant of admission.
abbrev pub standing_of : Option Membership → Option (Tier × Option Timestamp)
standing_of none = none
standing_of (some m) = some (m.tier, m.enfranchised_at)

-- From one state to another no member's standing changes, and no member comes or goes.
abbrev pub SameStanding : Inner → Inner → Type 0
SameStanding s t =
    (u v : ℕ) → standing_of (get_membership t u v) ≡ standing_of (get_membership s u v)

abbrev pub Keeps : Inner → Inner → Type 0
Keeps s t = Keyed s → Keyed t × SameStanding s t

pub Keeps-refl : (s : Inner) → Keeps s s
Keeps-refl s k = (k, λ u v. refl)

pub Keeps-trans : (s t r : Inner) → Keeps s t → Keeps t r → Keeps s r
Keeps-trans s t r a b k = let (k', e) = a k in let (k'', f) = b k' in (k'', λ u v. f u v ∙ e u v)

pub Keeps-of_eq : (s t : Inner) → t.memberships ≡ s.memberships → Keeps s t
unfolding get_membership
Keeps-of_eq s t e k = (rw e k, λ u v. rw e refl)

module _ (s : Inner) (u v : ℕ) (m n : Membership) (found : get_membership s u v ≡ some m)
    (user : n.user_id ≡ m.user_id) (server : n.server_id ≡ m.server_id) where
  pub stored_at : Keyed s → (m.user_id ≡ u) × (m.server_id ≡ v)
  unfolding get_membership
  stored_at k =
      let e =
        get-All (λ (e : (ℕ × ℕ) × Membership). e.0 ≡ (e.1.user_id, e.1.server_id)) (u, v) m
          s.memberships k found in
      (sym (ap (λ p. p.0) e), sym (ap (λ p. p.1) e))

  -- Writing back a member that was read, with tier and admission as they were, keeps the standing.
  pub Keeps-upsert :
      n.tier ≡ m.tier → n.enfranchised_at ≡ m.enfranchised_at → Keeps s (upsert_membership s n)
  unfolding upsert_membership get_membership
  Keeps-upsert tier admitted k = (
    All-insert (λ (e : (ℕ × ℕ) × Membership). e.0 ≡ (e.1.user_id, e.1.server_id))
        (n.user_id, n.server_id) n s.memberships refl k,
    λ x y.
        let at = stored_at k in
        ground (
          arith,
          get-insert (n.user_id, n.server_id) (x, y) n s.memberships,
          pair_beq_iff (n.user_id, n.server_id) (x, y),
        ),
  )

abbrev pub is_at : Membership → ℕ → ℕ → Bool
is_at n u v = nat_beq n.user_id u && nat_beq n.server_id v

pub get-upsert :
    (s : Inner) (n : Membership) (u v : ℕ)
    → get_membership (upsert_membership s n) u v
      ≡ (if is_at n u v then some n else get_membership s u v)
unfolding get_membership upsert_membership
get-upsert s n u v = get-insert (n.user_id, n.server_id) (u, v) n s.memberships

pub is_at_iff :
    (n : Membership) (u v : ℕ) → is_at n u v ≡ true → (n.user_id ≡ u) × (n.server_id ≡ v)
is_at_iff n u v h = ground arith

pub Keyed-upsert : (s : Inner) (n : Membership) → Keyed s → Keyed (upsert_membership s n)
unfolding upsert_membership
Keyed-upsert s n k =
    All-insert (λ (e : (ℕ × ℕ) × Membership). e.0 ≡ (e.1.user_id, e.1.server_id))
      (n.user_id, n.server_id) n s.memberships refl k
