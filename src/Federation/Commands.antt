-- ===== src/Federation/Commands.antt =====
-- crates/adapter-federation/src/command and crates/democrachat/src/command_executor.rs: a write to a
-- scope that another node owns, sent to its owner and run there. Keys and their signatures, the JSON
-- of a command, and the printing of numbers are parameters, and so is the HTTP client of each peer.
pub mod Owner
pub mod Router
pub mod Payload
use democrachat.App.Governance.{cast_vote_by_id}
use democrachat.App.Results.{Result, VoteError, err, fail_if, ok, ok_or, ◌>>=◌, ◌>>◌}
use democrachat.App.Social.{
  DmError, SocialError, accept_friend_by_id, block_user_by_id, request_friend_by_id,
  send_sealed_dm_by_id,
}
use democrachat.Domain.Time.{Timestamp}
use democrachat.Federation.Feed.{sign}
use democrachat.Federation.Registry.{
  OwnedScope, RegistryState, is_owner, scope_eq, server_scope, user_home, Ownership, owner_of,
}
use democrachat.Federation.Replay.{admit, NonceLog, Refusal}
use democrachat.Federation.Replicator.{proposal_server}
use democrachat.Prelude.{
  Bool, List, Option, [], any, if◌then◌else◌, list_eq, nat_eq, none, not, pair_eq, some, triple_eq,
  ℕ, ◌++◌, ◌∷◌, contains, false, nat_beq,
}
use democrachat.Prelude.Int.{ℤ}
use democrachat.Prelude.Maps.{get}
use democrachat.Prelude.Std.{Text, codes}
use democrachat.Store.{Inner}

-- What a node wants done on a scope that it may not own.
pub data Command : Type 0 where
  cast_vote : (proposal voter : ℕ) (is_aye : Bool) → Command
  send_dm : (from_id to : ℕ) (for_recipient for_sender : Text) → Command
  block : (blocker blocked : ℕ) → Command
  request_friend accept_friend : (by other : ℕ) → Command

pub record SignedCommand : Type 0 where
  pub node : ℕ
  pub body : Text
  pub issued_at : ℤ
  pub nonce : Text
  pub signature : Text

-- The texts of `ForwardError::Rejected`, by where they are made.
pub data Rejection : Type 0 where
  unknown_forwarder : ℕ → Rejection
  bad_signature malformed owns_none : Rejection
  replayed : Refusal → Rejection
  no_vote : VoteError → Rejection
  no_dm : DmError → Rejection
  no_social : SocialError → Rejection

-- `OwnerUnreachable` carries a fault of the registry, or names a node without a route.
pub data ForwardError (Fault : Type 0) : Type 0 where
  unowned : ForwardError Fault
  owner_unreachable : Fault → ForwardError Fault
  no_route : ℕ → ForwardError Fault
  rejected : Rejection → ForwardError Fault

abbrev as_server : Option ℕ → List OwnedScope
as_server none = []
as_server (some id) = server_scope id ∷ []

unfoldable pub target_scopes : Inner → Command → List OwnedScope
unfolding proposal_server
target_scopes s (cast_vote proposal voter is_aye) = as_server (proposal_server s proposal)
target_scopes s (send_dm from_id to a b) = user_home from_id ∷ []
target_scopes s (block blocker blocked) = user_home blocker ∷ user_home blocked ∷ []
target_scopes s (request_friend by other) = user_home by ∷ user_home other ∷ []
target_scopes s (accept_friend by other) = user_home by ∷ user_home other ∷ []

abbrev rejected_as {ℓ} :
    {E : Type 0} {A : Type ℓ} {Fault : Type 0}
    → (E → Rejection)
    → Result E A
    → Result (ForwardError Fault) A
rejected_as f (ok a) = ok a
rejected_as f (err e) = err (rejected (f e))

abbrev state_of {ℓ} : {E : Type 0} {A : Type ℓ} → Result E (A × Inner) → Result E Inner
state_of (ok a) = ok (a.1)
state_of (err e) = err e

-- `ServiceCommandExecutor::execute`.
unfoldable pub run_command :
    {Fault : Type 0} → Inner → Timestamp → Command → Result (ForwardError Fault) Inner
unfolding cast_vote_by_id send_sealed_dm_by_id block_user_by_id request_friend_by_id
    accept_friend_by_id
run_command s clock (cast_vote proposal voter is_aye) =
    rejected_as no_vote (cast_vote_by_id s voter proposal is_aye)
run_command s clock (send_dm from_id to for_recipient for_sender) =
    rejected_as no_dm (state_of (send_sealed_dm_by_id s clock from_id to for_recipient for_sender))
run_command s clock (block blocker blocked) =
    rejected_as no_social (block_user_by_id s clock blocker blocked)
run_command s clock (request_friend by other) =
    rejected_as no_social (request_friend_by_id s clock by other)
run_command s clock (accept_friend by other) =
    rejected_as no_social (accept_friend_by_id s by other)

abbrev pub is_held_by : ℕ → Option Ownership → Bool
is_held_by node none = false
is_held_by node (some o) = nat_beq o.owner node

unfoldable pub is_owned_by : RegistryState → ℕ → OwnedScope → Bool
unfolding owner_of
is_owned_by r node scope = is_held_by node (owner_of r scope)

-- `execute`, for a command that is authentic and the scopes that it is about.
unfoldable pub run_owned :
    {Fault : Type 0} (node : ℕ)
    → RegistryState
    → NonceLog
    → Inner
    → SignedCommand
    → (now : ℤ) (clock : Timestamp) → Command
    → List OwnedScope
    → Result (ForwardError Fault) (Unit {0}) × (NonceLog × Inner)
unfolding admit run_command is_owned_by
run_owned node r log s signed now clock cmd [] = (err unowned, (log, s))
run_owned node r log s signed now clock cmd (scope ∷ rest) =
    if not (any (is_owned_by r node) (scope ∷ rest))
    then (err (rejected owns_none), (log, s))
    else (let (is_new, seen) = admit log signed.node signed.nonce signed.issued_at now in
        elim is_new [
          | err e ↦ (err (rejected (replayed e)), (seen, s))
          | ok _ ↦ elim (run_command s clock cmd) [
            | err e ↦ (err e, (seen, s))
            | ok t ↦ (ok tt, (seen, t))
          ]
        ])

module _ (show_u16 : ℕ → Text) (show_i64 : ℤ → Text) where
  -- The prefix "democrachat:cmd:v1", and 10 for the end of a line.
  unfoldable pub signing_payload : ℕ → ℤ → (nonce body : Text) → Text
  signing_payload node issued_at nonce body =
      codes "democrachat:cmd:v1"
      ++ 10 ∷ (show_u16 node ++ 10 ∷ (show_i64 issued_at ++ 10 ∷ (nonce ++ 10 ∷ body)))

module _ {Key Fault : Type 0} (from_hex : ℕ → Text → Result Fault Key)
    (verify_hex : Key → (payload signature : Text) → Bool) (parse : Text → Option Command)
    (show_u16 : ℕ → Text) (show_i64 : ℤ → Text) where
  abbrev pub published : RegistryState → ℕ → Result (ForwardError Fault) Key
  published r node = elim (get node r.keys) [
    | none ↦ err (rejected (unknown_forwarder node))
    | some hex ↦ elim (from_hex node hex) [ ok key ↦ ok key | err e ↦ err (owner_unreachable e) ]
  ]

  unfoldable pub verify_signed : RegistryState → SignedCommand → Result (ForwardError Fault) Command
  unfolding signing_payload
  verify_signed r signed = do
    key ← published r signed.node
    let payload =
        signing_payload show_u16 show_i64 signed.node signed.issued_at signed.nonce signed.body
    fail_if (not (verify_hex key payload signed.signature)) (rejected bad_signature)
    ok_or (parse signed.body) (rejected malformed)

  -- `execute`: authenticity, ownership, freshness, and then the use-case, in this order. The guard
  -- and the services each have a clock.
  unfoldable pub execute :
      (node : ℕ)
      → RegistryState
      → NonceLog
      → Inner
      → SignedCommand
      → (now : ℤ) (clock : Timestamp) → Result (ForwardError Fault) (Unit {0}) × (NonceLog × Inner)
  unfolding verify_signed target_scopes run_owned
  execute node r log s signed now clock = elim (verify_signed r signed) [
    | err e ↦ (err e, (log, s))
    | ok cmd ↦ run_owned node r log s signed now clock cmd (target_scopes s cmd)
  ]

abbrev pub with_owner : List ℕ → ℕ → List ℕ
with_owner owners n = if contains owners n then owners else owners ++ n ∷ []

-- The distinct owners of the scopes, after those that are already listed.
unfoldable pub owners_from :
    {Fault : Type 0}
    → RegistryState
    → List ℕ
    → List OwnedScope
    → Result (ForwardError Fault) (List ℕ)
unfolding owner_of
owners_from r owners [] = ok owners
owners_from r owners (scope ∷ rest) = elim (owner_of r scope) [
  | none ↦ err unowned
  | some o ↦ owners_from r (with_owner owners o.owner) rest
]

-- What a node's submission changes: its own store, and what the other nodes make of what they are
-- sent, of a type `Fleet` that is left open.
module _ {Fault Fleet : Type 0}
    (forward : ℕ → Option (SignedCommand → Fleet → Result (ForwardError Fault) (Unit {0}) × Fleet))
    (sign : Command → SignedCommand) where
  abbrev pub deliver_to :
      (node : ℕ)
      → Timestamp
      → Command
      → ℕ
      → Inner × Fleet
      → Result (ForwardError Fault) (Unit {0}) × (Inner × Fleet)
  deliver_to node clock cmd owner (s, fleet) =
      if nat_beq owner node
      then elim (run_command s clock cmd) [
        | ok t ↦ (ok tt, (t, fleet))
        | err e ↦ (err e, (s, fleet))
      ]
      else elim (forward owner) [
        | none ↦ (err (no_route owner), (s, fleet))
        | some send ↦ (let (sent, after) = send (sign cmd) fleet in (sent, (s, after)))
      ]

  -- One owner after the other, up to the first failure.
  unfoldable pub deliver :
      (node : ℕ)
      → Timestamp
      → Command
      → List ℕ
      → Inner × Fleet
      → Result (ForwardError Fault) (Unit {0}) × (Inner × Fleet)
  unfolding run_command
  deliver node clock cmd [] x = (ok tt, x)
  deliver node clock cmd (owner ∷ rest) x =
      let (sent, y) = deliver_to node clock cmd owner x in
      let others = deliver node clock cmd rest y in elim sent [ ok _ ↦ others | err e ↦ (err e, y) ]

  -- `WriteRouter::submit`.
  unfoldable pub submit :
      (node : ℕ)
      → RegistryState
      → Timestamp
      → Command
      → Inner × Fleet
      → Result (ForwardError Fault) (Unit {0}) × (Inner × Fleet)
  unfolding target_scopes owners_from deliver
  submit node r clock cmd (s, fleet) = elim (target_scopes s cmd) [
    | [] ↦ (err unowned, (s, fleet))
    | scope ∷ rest ↦ elim (owners_from r [] (scope ∷ rest)) [
      | err e ↦ (err e, (s, fleet))
      | ok owners ↦ deliver node clock cmd owners (s, fleet)
    ]
  ]
