-- ===== src/Federation/Registry/Keys.antt =====
-- A node's published key is never replaced.
use democrachat.Prelude.{
  ℕ, ◌≡◌, Bool-cases, Option-cases, inl, inr, true, false, some, List, [], ◌∷◌, nat_eq, nat_beq,
  nat_beq_iff, list_eq, contains,
}
use democrachat.Prelude.Maps.{get, get-insert}
use democrachat.Prelude.Std.{Text}
use democrachat.Federation.Registry.{
  scope_eq, RegistryState, claim, release, is_owner, set_standby, set_rehoming, publish_key,
  report_load,
}
use democrachat.Federation.Registry.Fencing
use democrachat.Federation.Registry.Fencing.{RegistryAction, serve, serve_all}

module _ (node : ℕ) (key : Text) where
  key-serve :
      (r : RegistryState) (a : RegistryAction)
      → get node r.keys ≡ some key
      → get node (serve r a).keys ≡ some key
  unfolding serve claim release set_standby set_rehoming publish_key report_load
  key-serve r (Fencing.claims s m) h = elim (Option-cases (get s r.owners)) [
    | inl e ↦ rw (serve, claim, e) h
    | inr (o, e) ↦ rw (serve, claim, e) h
  ]
  key-serve r (Fencing.releases s m) h = elim (Bool-cases (is_owner (get s r.owners) m)) [
    | inl e ↦ rw (serve, release, e) h
    | inr e ↦ rw (serve, release, e) h
  ]
  key-serve r (Fencing.sets_standby s m) h = h
  key-serve r (Fencing.sets_rehoming s true) h = h
  key-serve r (Fencing.sets_rehoming s false) h =
      elim (Bool-cases (contains r.rehoming_disabled s)) [
        | inl e ↦ rw (serve, set_rehoming, e) h
        | inr e ↦ rw (serve, set_rehoming, e) h
      ]
  key-serve r (Fencing.publishes m k) h = elim (Option-cases (get m r.keys)) [
    | inr (o, e) ↦ rw (serve, publish_key, e) h
    | inl e ↦
        let at = get-insert m node k r.keys in
        elim (Bool-cases (nat_beq m node)) [
          | inl same ↦ absurd (let eq = (nat_beq_iff m node).0 same in cc)
          | inr other ↦ rw (serve, publish_key, e) (rw (at, other) h)
        ]
  ]
  key-serve r (Fencing.reports m l) h = h

  -- Once a node's key is published, no history of requests to the registry replaces it.
  pub key-serve_all :
      (r : RegistryState) (history : List RegistryAction)
      → get node r.keys ≡ some key
      → get node (serve_all r history).keys ≡ some key
  unfolding serve_all
  key-serve_all r [] h = h
  key-serve_all r (a ∷ rest) h = key-serve_all (serve r a) rest (key-serve r a h)
