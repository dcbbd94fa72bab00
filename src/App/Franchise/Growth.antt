-- ===== src/App/Franchise/Growth.antt =====
-- The franchise is earned, and the electorate grows no faster than the cap.
use democrachat.Prelude.{
  ◌⊎◌, max, ◌≤◌, ℕ, ◌*◌, ◌+◌, ◌<◌, ◌≡◌, refl, Bool-cases, bit, false, some, arith, pair_eq, nat_eq,
  nat_beq, inl, inr,
}
use democrachat.Prelude.Maps.{count-insert-some}
use democrachat.Prelude.Std.{div_ceil, u64_max, Text, trim}
use democrachat.Domain.Time.{Timestamp}
use democrachat.Domain.Membership.{
  User, Membership, is_citizen, is_eligible, evaluate_eligibility, enfranchisement_slots,
}
use democrachat.Domain.Membership.Franchise.{
  enfranchisement_slots_open, Qualifies, is_eligible-evaluate_eligibility,
}
use democrachat.Domain.Server.{Server}
use democrachat.Store.{
  Inner, find_by_handle, find_by_slug, get_membership, upsert_membership, citizen_count, citizen_of,
  admitted_since, admitted_to,
}
use democrachat.Store.Members.{Keyed, stored_at}
use democrachat.App.Results.{ok, EnfranchiseOutcome}
use democrachat.App.Franchise.{admit, window_start, enfranchise, try_enfranchise}

-- Writing back a member that was read moves the count of citizens and of admissions by that member.
module _ (s : Inner) (u v : ℕ) (m n : Membership) (keyed : Keyed s)
    (found : get_membership s u v ≡ some m) (user : n.user_id ≡ m.user_id)
    (server : n.server_id ≡ m.server_id) where
  same_key : ◌≡◌ {A = ℕ × ℕ} (n.user_id, n.server_id) (u, v)
  same_key =
      let at = stored_at s u v m n found user server keyed in rw (user, server, at.0, at.1) refl

  pub citizen_count-upsert :
      (w : ℕ)
      → citizen_count (upsert_membership s n) w + bit (citizen_of w m)
        ≡ citizen_count s w + bit (citizen_of w n)
  unfolding citizen_count upsert_membership get_membership
  citizen_count-upsert w =
      rw same_key (count-insert-some (citizen_of w) (u, v) m n s.memberships found)

  pub admitted_since-upsert :
      (w : ℕ) (since : Timestamp)
      → admitted_since (upsert_membership s n) w since + bit (admitted_to w since m)
        ≡ admitted_since s w since + bit (admitted_to w since n)
  unfolding admitted_since upsert_membership get_membership
  admitted_since-upsert w since =
      rw same_key (count-insert-some (admitted_to w since) (u, v) m n s.memberships found)

-- What an admission rests on and what it leaves.
pub record Admission (s t : Inner) (now : Timestamp) (user : User) (server : Server)
    (m : Membership) : Type 0 where
  pub qualifies : Qualifies user m server.criteria now
  pub slot :
      0
      < enfranchisement_slots
          (citizen_count s server.id)
          (admitted_since s server.id (window_start now))
  pub written : t ≡ upsert_membership s (admit m now)

module _ (s : Inner) (now : Timestamp) (user : User) (server : Server) (m : Membership) where
  pub enfranchise_admits :
      (t : Inner)
      → enfranchise s now user server m ≡ (EnfranchiseOutcome.admitted, t)
      → Admission s t now user server m
  unfolding enfranchise
  enfranchise_admits t h =
      elim (Bool-cases (is_eligible (evaluate_eligibility user m server.criteria now))) [
        | inr e ↦ absurd (ground arith)
        | inl e ↦
            elim (Bool-cases (
              nat_beq
                (enfranchisement_slots (citizen_count s server.id)
                  (admitted_since s server.id (window_start now)))
                0)) [
                  | inl f ↦ absurd (ground arith)
                  | inr f ↦ record {
                    qualifies = (is_eligible-evaluate_eligibility user m server.criteria now).0 e;
                    slot = ground arith;
                    written = ground arith;
                  }
                ]
      ]

  -- An attempt leaves the store alone or admits.
  pub enfranchise_store :
      ((enfranchise s now user server m).1 ≡ s)
      ⊎ Admission s (enfranchise s now user server m).1 now user server m
  unfolding enfranchise
  enfranchise_store =
      elim (Bool-cases (is_eligible (evaluate_eligibility user m server.criteria now))) [
        | inr e ↦ inl (rw e refl)
        | inl e ↦
            elim (Bool-cases (
              nat_beq
                (enfranchisement_slots (citizen_count s server.id)
                  (admitted_since s server.id (window_start now)))
                0)) [
                  | inl f ↦ inl (rw (e, f) refl)
                  | inr f ↦ inr (
                      enfranchise_admits (enfranchise s now user server m).1
                        (rw (enfranchise, e, f) refl))
                ]
      ]

-- A member read from the store by handle and slug, not a citizen yet.
pub record Candidate (s : Inner) (handle server_slug : Text) (user : User) (server : Server)
    (m : Membership) : Type 0 where
  pub is_user : find_by_handle s (trim handle) ≡ some user
  pub is_server : find_by_slug s (trim server_slug) ≡ some server
  pub is_member : get_membership s user.id server.id ≡ some m
  pub not_yet : is_citizen m ≡ false

-- For a member found by handle and slug who is no citizen, an attempt is the two layers.
pub try_enfranchise-Candidate :
    (s : Inner) (now : Timestamp) (handle slug : Text) (user : User) (server : Server)
    (m : Membership)
    → Candidate s handle slug user server m
    → try_enfranchise s now handle slug ≡ ok (enfranchise s now user server m)
unfolding try_enfranchise
try_enfranchise-Candidate s now handle slug user server m c =
    rw (try_enfranchise, c.is_user, c.is_server, c.is_member, c.not_yet) refl

module _ (s t : Inner) (now : Timestamp) (handle slug : Text) (user : User) (server : Server)
    (m : Membership) (keyed : Keyed s) (small : citizen_count s server.id * 10 + 99 ≤ u64_max)
    (c : Candidate s handle slug user server m)
    (h : try_enfranchise s now handle slug ≡ ok (EnfranchiseOutcome.admitted, t)) where
  admission : Admission s t now user server m
  admission =
      enfranchise_admits s now user server m t
        (cc (h, try_enfranchise-Candidate s now handle slug user server m c))

  -- An admitted member was eligible; the server gains exactly one citizen; and the admissions of
  -- the last 30 days, this one included, are at most the larger of 5 and a tenth of the citizens
  -- there were, rounded up. The store has every membership under its own user and server, and ten
  -- times the citizens do not saturate.
  pub try_enfranchise_admitted :
      Qualifies user m server.criteria now
      × (citizen_count t server.id ≡ citizen_count s server.id + 1)
      × (admitted_since t server.id (window_start now)
          ≤ max 5 (div_ceil (citizen_count s server.id) 10))
  unfolding is_citizen
  try_enfranchise_admitted =
      let at = stored_at s user.id server.id m (admit m now) c.is_member refl refl keyed in
      let e =
        citizen_count-upsert s user.id server.id m (admit m now) keyed c.is_member refl refl
          server.id in
      let f =
        admitted_since-upsert s user.id server.id m (admit m now) keyed c.is_member refl refl
          server.id (window_start now) in
      let o =
        enfranchisement_slots_open (citizen_count s server.id)
          (admitted_since s server.id (window_start now)) small admission.slot in
      (
        admission.qualifies,
        rw (admission.written) (ground arith),
        rw (admission.written) (ground arith),
      )
