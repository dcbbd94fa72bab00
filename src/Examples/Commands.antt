-- ===== src/Examples/Commands.antt =====
-- The theorems of forwarded commands, at a block that node 9 sends to node 1.
use democrachat.App.Results.{Result, ok}
use democrachat.Domain.Membership.{new_user}
use democrachat.Examples.Services.{store, alice, bob}
use democrachat.Federation.Commands.{
  Command, ForwardError, SignedCommand, block, execute, target_scopes,
}
use democrachat.Federation.Commands.Owner.{Executed, Executed-execute, execute_once}
use democrachat.Federation.Commands.Payload.{IsLine, signing_payload_injective}
use democrachat.Federation.Commands.Router.{Submitted, Submitted-submit}
use democrachat.Federation.Registry.{RegistryState, owner_of, user_home}
use democrachat.Federation.Replay.{Attempt, NonceLog, admit_all}
use democrachat.Prelude.{
  Bool, List, Option, [], ap, arith, if◌then◌else◌, list_eq, nat_eq, none, pair_eq, refl, some, suc,
  triple_eq, true, zero, ℕ, ◌==◌, ◌∷◌, ◌≡◌,
}
use democrachat.Prelude.Int.{negsuc, pos, ℤ, ◌+ℤ◌, ◌-ℤ◌}
use democrachat.Prelude.Maps.{get}
use democrachat.Prelude.Std.{Text, codes}
use democrachat.Store.{Inner}

-- Numbers in unary, a stand-in for decimals.
abbrev ones : ℕ → Text
ones zero = []
ones (suc n) = 49 ∷ ones n

abbrev signed_ones : ℤ → Text
signed_ones (pos n) = ones n
signed_ones (negsuc n) = 45 ∷ ones n

ones-IsLine : (n : ℕ) → IsLine (ones n)
ones-IsLine zero = refl
ones-IsLine (suc n) = ones-IsLine n

signed_ones-IsLine : (i : ℤ) → IsLine (signed_ones i)
signed_ones-IsLine (pos n) = ones-IsLine n
signed_ones-IsLine (negsuc n) = ones-IsLine n

ones_inj : (m n : ℕ) → ones m ≡ ones n → m ≡ n
ones_inj zero zero e = refl
ones_inj zero (suc n) e = absurd (cc)
ones_inj (suc m) zero e = absurd (cc)
ones_inj (suc m) (suc n) e = ground (arith, e, ones_inj m n)

signed_ones_inj : (i j : ℤ) → signed_ones i ≡ signed_ones j → i ≡ j
signed_ones_inj (pos m) (pos n) e = ap pos (ones_inj m n e)
signed_ones_inj (pos zero) (negsuc n) e = absurd (cc)
signed_ones_inj (pos (suc m)) (negsuc n) e = absurd (ground (arith, e))
signed_ones_inj (negsuc m) (pos zero) e = absurd (cc)
signed_ones_inj (negsuc m) (pos (suc n)) e = absurd (ground (arith, e))
signed_ones_inj (negsuc m) (negsuc n) e = ground (arith, e, ones_inj m n)

signing_payload_injective_example :
    (◌≡◌ {A = ℕ} 9 9) × (pos 5 ≡ pos 5) × (codes "n1" ≡ codes "n1") × (codes "b" ≡ codes "b")
signing_payload_injective_example =
    signing_payload_injective ones signed_ones 9 9 (pos 5) (pos 5) (codes "n1") (codes "n1")
      (codes "b") (codes "b") ones-IsLine signed_ones-IsLine ones_inj signed_ones_inj refl refl refl

-- Node 1 owns both homes, and knows node 9's key.
abbrev homes : RegistryState
homes = record {
  owners = (user_home alice.id, (1, 1)) ∷ (user_home bob.id, (1, 4)) ∷ [];
  max_epoch = (user_home alice.id, 1) ∷ (user_home bob.id, 4) ∷ [];
  keys = (9, codes "k9") ∷ [];
  loads = [];
  standby_nodes = [];
  rehoming_disabled = [];
}

abbrev blocking : Command
blocking = block alice.id bob.id

abbrev read_key : ℕ → Text → Result ℕ Text
read_key node hex = ok hex

-- A signature is the key itself, and "b" the body of the one command.
abbrev matches : Text → Text → Text → Bool
matches key payload signature = key == signature

abbrev read_body : Text → Option Command
read_body body = if body == codes "b" then some blocking else none

abbrev sent : SignedCommand
sent = record {
  node = 9;
  body = codes "b";
  issued_at = pos 5;
  nonce = codes "n1";
  signature = codes "k9";
}

abbrev no_nonces : NonceLog
no_nonces = []

abbrev run : Result (ForwardError ℕ) (Unit {0}) × (NonceLog × Inner)
run =
    execute read_key matches read_body ones signed_ones 1 homes no_nonces store sent (pos 6) (pos 6)

is_run : run.0 ≡ ok tt
unfolding execute get new_user ◌-ℤ◌
is_run = refl

Executed-execute_example :
    Executed read_key matches read_body ones signed_ones 1 homes no_nonces store sent
      (pos 6)
      (pos 6)
      run.0
      run.1
unfolding execute
Executed-execute_example =
    Executed-execute read_key matches read_body ones signed_ones 1 homes no_nonces store sent
      (pos 6) (pos 6)

abbrev others : List Attempt
others = record { node = 4; nonce = codes "n1"; issued_at = pos 7; at = pos 7 } ∷ []

execute_once_example :
    (execute read_key matches read_body ones signed_ones 1 homes
      (admit_all run.1.0 others)
      store
      sent
      (pos 8)
      (pos 8)).1.1
    ≡ store
unfolding ◌+ℤ◌
execute_once_example =
    execute_once read_key matches read_body ones signed_ones 1 homes homes no_nonces store store
      sent (pos 6) (pos 8) (pos 6) (pos 8) others is_run (omega arith)
      ((omega arith, omega arith), tt)

abbrev no_peer : ℕ → Option (SignedCommand → ℕ → Result (ForwardError ℕ) (Unit {0}) × ℕ)
no_peer n = none

abbrev as_sent : Command → SignedCommand
as_sent cmd = sent

Submitted-submit_example : Submitted no_peer as_sent 1 homes (pos 6) blocking store 0 true
unfolding target_scopes owner_of get new_user
Submitted-submit_example = Submitted-submit no_peer as_sent 1 homes (pos 6) blocking store 0
