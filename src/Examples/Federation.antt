-- ===== src/Examples/Federation.antt =====
-- The theorems of federation at a small registry, with a stand-in for the wire format.
use democrachat.Prelude.{
  subst, refl, ℕ, ◌+◌, ◌≤◌, ◌<◌, ◌≡◌, ◌≢◌, ◌⊎◌, ◌↔◌, Option, some, List, [], ◌∷◌, length, arith,
  nat_eq, list_eq,
}
use democrachat.Prelude.Int.{pos, ◌+ℤ◌, ◌-ℤ◌}
use democrachat.Prelude.Std.{Text, codes, u64_mod}
use democrachat.Prelude.Maps.{get, insert, remove}
use democrachat.Store.{upsert_row}
use democrachat.Federation.Registry.{
  release, claim, OwnedScope, server_scope, RegistryState, Ownership, owner_of,
}
use democrachat.Federation.Registry.Keys.{key-serve_all}
use democrachat.Federation.Registry.Fencing
use democrachat.Federation.Registry.Fencing.{RegistryAction, serve_all, serve_all_fenced, top}
use democrachat.Federation.Events
use democrachat.Federation.Events.{Verifier, classify, SignedPart, AuthError, ingest, Ingested}
use democrachat.Federation.Events.Gate.{Passes, gate, authorize_iff, authorize_fenced}
use democrachat.Federation.Events.Intake.{seen-ingest, ingest-kept}
use democrachat.Federation.Replay.{admit, admit_all, admit_all_refuses, Attempt, NonceLog}
use democrachat.App.Results.{ok_inj, Result, ok}

-- The payload is the id that every field has, an event is a part in clear, and a key is its node with
-- its text.
abbrev field : ℕ → Text → Option ℕ
field payload name = some payload

abbrev peek : SignedPart ℕ → Result ℕ (SignedPart ℕ)
peek event = ok event

abbrev from_hex : ℕ → Text → Result ℕ (ℕ × Text)
from_hex node hex = ok (node, hex)

abbrev verify : Verifier ℕ (SignedPart ℕ) (ℕ × Text) ℕ
verify = record { node_of = λ key. key.0; read = λ key event. ok event; bad_signature = 0 }

abbrev parent : ℕ → Option ℕ
parent id = some 7

abbrev tea : OwnedScope
tea = server_scope 7

-- Node 3 holds server 7 under epoch 1.
abbrev before : RegistryState
before = record {
  owners = (tea, (3, 1)) ∷ [];
  max_epoch = (tea, 1) ∷ [];
  keys = (3, codes "k3") ∷ (4, codes "k4") ∷ [];
  loads = [];
  standby_nodes = [];
  rehoming_disabled = [];
}

abbrev old_owner : Ownership
old_owner = record { scope = tea; owner = 3; epoch = 1 }

abbrev new_owner : Ownership
new_owner = record { scope = tea; owner = 4; epoch = 2 }

abbrev handoff : List RegistryAction
handoff = Fencing.releases tea 3 ∷ Fencing.claims tea 4 ∷ []

is_old_owner : owner_of before tea ≡ some old_owner
unfolding owner_of get
is_old_owner = refl

is_new_owner : owner_of (serve_all before handoff) tea ≡ some new_owner
unfolding owner_of get serve_all claim release remove insert
is_new_owner = refl

epoch_is_reached : 1 ≤ top before tea
unfolding get
epoch_is_reached = omega arith

epochs_fit : top before tea + 2 < u64_mod
unfolding get
epochs_fit = omega arith

serve_all_fenced_example : ((◌≡◌ {A = ℕ} 4 3) × (◌≡◌ {A = ℕ} 2 1)) ⊎ (1 < 2)
serve_all_fenced_example =
    serve_all_fenced before tea old_owner new_owner handoff is_old_owner epoch_is_reached epochs_fit
      is_new_owner

abbrev rename : SignedPart ℕ
rename = record {
  node = 3;
  epoch = 1;
  seq = 9;
  scope = Events.on_server 7;
  entity = codes "servers";
  op = upsert_row;
  payload = 7;
}

authorize_iff_example :
    (gate field peek from_hex verify parent parent before rename ≡ ok rename)
    ↔ Passes field peek from_hex verify parent parent before rename rename
authorize_iff_example = authorize_iff field peek from_hex verify parent parent before rename rename

other_node : new_owner.owner ≢ old_owner.owner
other_node h = omega arith

authorize_fenced_example :
    gate field peek from_hex verify parent parent (serve_all before handoff) rename ≢ ok rename
unfolding classify
authorize_fenced_example =
    authorize_fenced field peek from_hex verify parent parent before handoff tea old_owner new_owner
      rename rename is_old_owner epoch_is_reached epochs_fit is_new_owner other_node refl
      (omega arith)

-- A replica that keeps the events it is given.
abbrev keep : List (SignedPart ℕ) → SignedPart ℕ → Result ℕ (List (SignedPart ℕ))
keep sink part = ok (part ∷ sink)

abbrev batch : List (SignedPart ℕ)
batch = rename ∷ record rename { node = 4 } ∷ []

seen-ingest_example :
    (ingest field peek from_hex verify parent parent keep before [] batch).1.applied
      + length (ingest field peek from_hex verify parent parent keep before [] batch).1.rejected
      + length (ingest field peek from_hex verify parent parent keep before [] batch).1.apply_errors
    ≡ 2
seen-ingest_example =
    seen-ingest field peek from_hex verify parent parent keep before [] batch (omega arith)

-- Every event that was kept passes the gate.
abbrev AllPass : List (SignedPart ℕ) → Type 0
AllPass [] = Unit {0}
AllPass (part ∷ sink) =
    ((event : SignedPart ℕ) × Passes field peek from_hex verify parent parent before event part)
    × AllPass sink

keep-AllPass :
    (t t' : List (SignedPart ℕ)) (event part : SignedPart ℕ)
    → AllPass t
    → Passes field peek from_hex verify parent parent before event part
    → keep t part ≡ ok t'
    → AllPass t'
keep-AllPass t t' event part all passes e = subst AllPass (ok_inj e) ((event, passes), all)

ingest-kept_example :
    AllPass (ingest field peek from_hex verify parent parent keep before [] batch).0
ingest-kept_example =
    ingest-kept field peek from_hex verify parent parent keep before AllPass keep-AllPass [] batch
      tt

abbrev no_nonces : NonceLog
no_nonces = []

is_admitted : (admit no_nonces 3 (codes "n1") (pos 1000) (pos 1000)).0 ≡ ok tt
unfolding admit get ◌-ℤ◌
is_admitted = refl

abbrev others : List Attempt
others = record { node = 4; nonce = codes "n1"; issued_at = pos 1001; at = pos 1002 } ∷ []

admit_all_refuses_example :
    (admit
      (admit_all (admit no_nonces 3 (codes "n1") (pos 1000) (pos 1000)).1 others)
      3
      (codes "n1")
      (pos 1000)
      (pos 1003)).0
    ≢ ok tt
unfolding ◌+ℤ◌
admit_all_refuses_example =
    admit_all_refuses no_nonces 3 (codes "n1") (pos 1000) (pos 1000) (pos 1003) others is_admitted
      (omega arith) ((omega arith, omega arith), tt)

-- A command issued a full 120 seconds ahead passes twice: at once, and 240 seconds later.
passes_again :
    ((admit no_nonces 3 (codes "n1") (pos 1120) (pos 1000)).0 ≡ ok tt)
    × ((admit
          (admit no_nonces 3 (codes "n1") (pos 1120) (pos 1000)).1
          3
          (codes "n1")
          (pos 1120)
          (pos 1240)).0
        ≡ ok tt)
unfolding admit get ◌-ℤ◌ insert ◌+ℤ◌
passes_again = (refl, refl)

has_key : get 3 before.keys ≡ some (codes "k3")
unfolding get
has_key = refl

key-serve_all_example :
    get 3 (serve_all before (Fencing.publishes 3 (codes "forged") ∷ handoff)).keys
    ≡ some (codes "k3")
key-serve_all_example =
    key-serve_all 3 (codes "k3") before (Fencing.publishes 3 (codes "forged") ∷ handoff) has_key
