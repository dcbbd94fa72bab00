-- ===== src/Examples/Rehoming.antt =====
-- The theorems of rehoming at a scope whose owner is gone.
use democrachat.Federation.Registry.{
  NodeLoad, RegistryState, can_rehome, claim, owner_of, server_scope, set_standby, standbys,
  user_home,
}
use democrachat.Federation.Registry.Fencing.{RegistryAction, serve_all}
use democrachat.Federation.Rehome.{
  NodeStatus, busier, by_load, choose_new_owner, choose_new_standby, consider, live_nodes, promoted,
  tick,
}
use democrachat.Federation.Rehome.Agreement.{choose_new_owner_agreed}
use democrachat.Federation.Rehome.Least.{Chosen, Chosen-choose_new_owner, Orders, report_of}
use democrachat.Federation.Rehome.Promotions.{Considered, Considered-consider}
use democrachat.Federation.Rehome.Ticks.{consider-stands, tick_rehomes}
use democrachat.Prelude.{
  All, List, Option, [], arith, contains, if◌then◌else◌, list_eq, ltb, ltb_iff, nat_eq, none,
  pair_eq, refl, some, triple_eq, true, ℕ, ◌&&◌, ◌∷◌, ◌≡◌, ◌≢◌,
}
use democrachat.Prelude.Maps.{get, insert}
use Prim.Native.Nat.{compare, Ordering}
use democrachat.Federation.Registry.Fencing

-- Rates by their bits, as `f64::partial_cmp` has them where both are finite and not negative.
abbrev rate_cmp : ℕ → ℕ → Option Ordering
rate_cmp a b =
    if ltb a 9218868437227405312 && ltb b 9218868437227405312 then some (compare a b) else none

rate_cmp-Orders : Orders rate_cmp
rate_cmp-Orders a b h k =
    rw ((ltb_iff a 9218868437227405312).1 h, (ltb_iff b 9218868437227405312).1 k) refl

abbrev load : ℕ → ℕ → NodeLoad
load scopes rate = record { hosted_scopes = scopes; requests_per_sec = rate }

-- Server 7 was node 1's under epoch 1, and nodes 2 and 3 stand by.
abbrev lapsed : RegistryState
lapsed = record {
  owners = [];
  max_epoch = (server_scope 7, 1) ∷ [];
  keys = [];
  loads = (2, load 5 10) ∷ (3, load 1 2) ∷ [];
  standby_nodes = (server_scope 7, 2 ∷ 3 ∷ []) ∷ [];
  rehoming_disabled = [];
}

abbrev status : ℕ → NodeLoad → NodeStatus
status n l = record { node = n; load = l }

abbrev statuses : List NodeStatus
statuses = status 2 (load 5 10) ∷ status 3 (load 1 2) ∷ []

abbrev backwards : List NodeStatus
backwards = status 3 (load 1 2) ∷ status 2 (load 5 10) ∷ []

quietest_found : choose_new_owner rate_cmp (2 ∷ 3 ∷ []) statuses ≡ some 3
unfolding choose_new_owner by_load busier
quietest_found = refl

Chosen-choose_new_owner_example :
    Chosen (2 ∷ 3 ∷ []) statuses (choose_new_owner rate_cmp (2 ∷ 3 ∷ []) statuses)
Chosen-choose_new_owner_example =
    Chosen-choose_new_owner rate_cmp rate_cmp-Orders statuses (omega arith, (omega arith, tt))
      (2 ∷ 3 ∷ [])

same_standbys : (n : ℕ) → contains (2 ∷ 3 ∷ []) n ≡ contains (3 ∷ 2 ∷ []) n
same_standbys n = ground arith

same_reports : (n : ℕ) → report_of statuses n ≡ report_of backwards n
same_reports n = ground arith

choose_new_owner_agreed_example :
    choose_new_owner rate_cmp (2 ∷ 3 ∷ []) statuses
    ≡ choose_new_owner rate_cmp (3 ∷ 2 ∷ []) backwards
choose_new_owner_agreed_example =
    choose_new_owner_agreed rate_cmp (2 ∷ 3 ∷ []) (3 ∷ 2 ∷ []) statuses backwards rate_cmp-Orders
      (omega arith, (omega arith, tt)) (omega arith, (omega arith, tt)) same_standbys same_reports

Considered-consider_example :
    Considered rate_cmp 3 lapsed lapsed
      (server_scope 7)
      (consider rate_cmp 3 lapsed lapsed (server_scope 7)).0
      (consider rate_cmp 3 lapsed lapsed (server_scope 7)).1
Considered-consider_example = Considered-consider rate_cmp 3 lapsed lapsed (server_scope 7)

taken_over : (consider rate_cmp 3 lapsed lapsed (server_scope 7)).0 ≡ promoted (server_scope 7) 2
unfolding consider owner_of claim standbys set_standby can_rehome live_nodes choose_new_owner
    choose_new_standby by_load busier get insert
taken_over = refl

abbrev meanwhile : List RegistryAction
meanwhile = Fencing.reports 2 (load 0 0) ∷ Fencing.claims (server_scope 7) 2 ∷ []

no_release : All (λ a. a ≢ Fencing.releases (server_scope 7) 3) meanwhile
no_release = ((λ e. absurd (cc)), ((λ e. absurd (cc)), tt))

consider-stands_example :
    owner_of
      (consider rate_cmp 2 lapsed
        (serve_all (consider rate_cmp 3 lapsed lapsed (server_scope 7)).1 meanwhile)
        (server_scope 7)).1
      (server_scope 7)
    ≡ some (record { scope = server_scope 7; owner = 3; epoch = 2 })
consider-stands_example =
    consider-stands rate_cmp 3 2 lapsed lapsed lapsed (server_scope 7) 2 meanwhile taken_over
      no_release

standby_best :
    choose_new_owner rate_cmp (standbys lapsed (server_scope 7)) (live_nodes lapsed) ≡ some 3
unfolding choose_new_owner standbys live_nodes by_load busier get
standby_best = refl

is_lapsed : owner_of lapsed (server_scope 7) ≡ none
unfolding owner_of get
is_lapsed = refl

is_mobile : can_rehome lapsed (server_scope 7) ≡ true
unfolding can_rehome
is_mobile = refl

tick_rehomes_example :
    (e : ℕ) × (owner_of
        (tick rate_cmp 3 lapsed (user_home 4 ∷ server_scope 7 ∷ [])).1
        (server_scope 7)
      ≡ some (record { scope = server_scope 7; owner = 3; epoch = e }))
tick_rehomes_example =
    tick_rehomes rate_cmp 3 (server_scope 7) lapsed (user_home 4 ∷ server_scope 7 ∷ []) refl
      is_lapsed is_mobile standby_best
