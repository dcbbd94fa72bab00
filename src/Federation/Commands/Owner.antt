-- ===== src/Federation/Commands/Owner.antt =====
-- What a node applies that is sent a command: only what a known node signed for a scope of its own,
-- and once.
use democrachat.App.Results.{Result, Result-cases, err, ok, Holds, of_Holds}
use democrachat.Domain.Time.{Timestamp}
use democrachat.Federation.Commands.{
  Command, ForwardError, SignedCommand, is_owned_by, run_command, signing_payload, target_scopes,
  verify_signed, execute, run_owned,
}
use democrachat.Federation.Registry.{RegistryState, OwnedScope, scope_eq}
use democrachat.Federation.Replay.{admit, NonceLog, Attempt, admit_all, admit_all_refuses}
use democrachat.Prelude.{
  Bool, Bool-cases, Option, Option-cases, any, inl, inr, list_eq, nat_eq, pair_eq, some, triple_eq,
  true, ℕ, ◌≡◌, ◌⊎◌, refl, List, [], ap, ◌∙◌, ◌∷◌, All, subst, ◌≢◌,
}
use democrachat.Prelude.Int.{ℤ, pos, ◌+ℤ◌, ◌<ℤ◌, ◌≤ℤ◌}
use democrachat.Prelude.Maps.{get}
use democrachat.Prelude.Std.{Text}
use democrachat.Store.{Inner}

module _ {Key Fault : Type 0} (from_hex : ℕ → Text → Result Fault Key)
    (verify_hex : Key → (payload signature : Text) → Bool) (parse : Text → Option Command)
    (show_u16 : ℕ → Text) (show_i64 : ℤ → Text) where
  -- The sending node's published key verifies the signature over all that is sent, and the body is
  -- the command.
  pub record IsAuthentic (r : RegistryState) (signed : SignedCommand) (cmd : Command) : Type 0 where
    pub hex : Text
    pub key : Key
    pub is_published : get signed.node r.keys ≡ some hex
    pub is_key : from_hex signed.node hex ≡ ok key
    pub is_signed :
        verify_hex key
          (signing_payload show_u16 show_i64 signed.node signed.issued_at signed.nonce signed.body)
          signed.signature
        ≡ true
    pub is_body : parse signed.body ≡ some cmd

  IsAuthentic-verify_signed :
      (r : RegistryState) (signed : SignedCommand)
      → Holds
          (IsAuthentic r signed)
          (verify_signed from_hex verify_hex parse show_u16 show_i64 r signed)
  unfolding verify_signed
  IsAuthentic-verify_signed r signed =
      let payload =
        signing_payload show_u16 show_i64 signed.node signed.issued_at signed.nonce signed.body in
      elim (Option-cases (get signed.node r.keys)) [
        | inl e ↦ rw (Holds, verify_signed, e) tt
        | inr (hex, e) ↦ elim (Result-cases (from_hex signed.node hex)) [
          | inl (f, k) ↦ rw (Holds, verify_signed, e, k) tt
          | inr (key, k) ↦ elim (Bool-cases (verify_hex key payload signed.signature)) [
            | inr v ↦ rw (Holds, verify_signed, e, k, v) tt
            | inl v ↦ elim (Option-cases (parse signed.body)) [
              | inl p ↦ rw (Holds, verify_signed, e, k, v, p) tt
              | inr (c, p) ↦
                  rw (Holds, verify_signed, e, k, v, p)
                    (record {
                      hex = hex;
                      key = key;
                      is_published = e;
                      is_key = k;
                      is_signed = v;
                      is_body = p;
                    })
            ]
          ]
        ]
      ]

  module _ (node : ℕ) (r : RegistryState) (log : NonceLog) (s : Inner) (signed : SignedCommand)
      (now : ℤ) (clock : Timestamp) where
    abbrev pub Executed : Result (ForwardError Fault) (Unit {0}) → NonceLog × Inner → Type 0
    Executed (ok _) (seen, t) =
        (cmd : Command) × IsAuthentic r signed cmd
        × (any (is_owned_by r node) (target_scopes s cmd) ≡ true)
        × (admit log signed.node signed.nonce signed.issued_at now ≡ (ok tt, seen))
        × (run_command {Fault = Fault} s clock cmd ≡ ok t)
    Executed (err e) (seen, t) =
        (t ≡ s)
        × ((seen ≡ log)
            ⊎ ((cmd : Command) × IsAuthentic r signed cmd
                × (any (is_owned_by r node) (target_scopes s cmd) ≡ true)))

    Executed-run_owned :
        (cmd : Command)
        → IsAuthentic r signed cmd
        → (scopes : List OwnedScope) → target_scopes s cmd ≡ scopes
        → Executed
            (run_owned {Fault = Fault} node r log s signed now clock cmd scopes).0
            (run_owned {Fault = Fault} node r log s signed now clock cmd scopes).1
    unfolding run_owned
    Executed-run_owned cmd authentic [] at = (refl, inl refl)
    Executed-run_owned cmd authentic (scope ∷ rest) at =
        let guard = admit log signed.node signed.nonce signed.issued_at now in
        elim (Bool-cases (any (is_owned_by r node) (scope ∷ rest))) [
          | inr other ↦ rw (run_owned, other) (refl, inl refl)
          | inl ours ↦
              let here : any (is_owned_by r node) (target_scopes s cmd) ≡ true =
                ap (any (is_owned_by r node)) at ∙ ours in
              elim (Result-cases (guard.0)) [
                | inl (e, k) ↦ rw (run_owned, ours, k) (refl, inr (cmd, authentic, here))
                | inr (u, k) ↦ elim (Result-cases (run_command {Fault = Fault} s clock cmd)) [
                  | inl (e, g) ↦ rw (run_owned, ours, k, g) (refl, inr (cmd, authentic, here))
                  | inr (t, g) ↦
                      rw (run_owned, ours, k, g) (cmd, authentic, here, ap (λ x. (x, guard.1)) k, g)
                ]
              ]
        ]

    -- A node applies a command only if a known node signed it, this node owns one of the scopes that
    -- the command is about, and the guard admits it; it then becomes what the use-case makes of it.
    -- In every other case the store is left as it was, and a nonce is remembered only for a command
    -- that was rightly addressed.
    pub Executed-execute :
        Executed
          (execute from_hex verify_hex parse show_u16 show_i64 node r log s signed now clock).0
          (execute from_hex verify_hex parse show_u16 show_i64 node r log s signed now clock).1
    unfolding execute
    Executed-execute =
        let verified = verify_signed from_hex verify_hex parse show_u16 show_i64 r signed in
        elim (Result-cases verified) [
          | inl (e, h) ↦ rw (execute, h) (refl, inl refl)
          | inr (cmd, h) ↦
              let authentic : IsAuthentic r signed cmd =
                of_Holds (IsAuthentic r signed) verified cmd (IsAuthentic-verify_signed r signed)
                  h in
              rw (execute, h) (Executed-run_owned cmd authentic (target_scopes s cmd) refl)
        ]

    unapplied :
        (o : Result (ForwardError Fault) (Unit {0})) (x : NonceLog × Inner)
        → (admit log signed.node signed.nonce signed.issued_at now).0 ≢ ok tt
        → Executed o x
        → x.1 ≡ s
    unapplied (ok _) (seen, t) refused h = absurd (refused (ap (λ a. a.0) h.3))
    unapplied (err e) (seen, t) refused h = h.0

  -- A command that a node has run successfully is not run by it again, whatever reaches the guard in
  -- between and whatever store and registry it meets then, if it was issued less than 120 seconds
  -- ahead of the guard's clock, and the clock showed the others no time before the first run and none
  -- after the second attempt.
  pub execute_once :
      (node : ℕ) (r later : RegistryState) (log : NonceLog) (s t : Inner) (signed : SignedCommand)
      (now again : ℤ) (clock clock' : Timestamp) (between : List Attempt)
      → (execute from_hex verify_hex parse show_u16 show_i64 node r log s signed now clock).0
        ≡ ok tt
      → signed.issued_at <ℤ now +ℤ pos 120
      → All (λ a. (now ≤ℤ a.at) × (a.at ≤ℤ again)) between
      → (execute from_hex verify_hex parse show_u16 show_i64 node later
          (admit_all
            (execute from_hex verify_hex parse show_u16 show_i64 node r log s signed now clock).1.0
            between)
          t
          signed
          again
          clock').1.1
        ≡ t
  execute_once node r later log s t signed now again clock clock' between h ahead ordered =
      let run = execute from_hex verify_hex parse show_u16 show_i64 node r log s signed now clock in
      let first : Executed node r log s signed now clock (ok tt) run.1 =
        subst (λ o. Executed node r log s signed now clock o run.1) h
          (Executed-execute node r log s signed now clock) in
      let was = first.3 in
      let log' = admit_all run.1.0 between in
      let refused =
        subst
          (λ l.
            (admit (admit_all l between) signed.node signed.nonce signed.issued_at again).0 ≢ ok tt)
          (ap (λ a. a.1) was)
          (admit_all_refuses log signed.node signed.nonce signed.issued_at now again between
            (ap (λ a. a.0) was) ahead ordered) in
      unapplied node later log' t signed again clock' _ _ refused
        (Executed-execute node later log' t signed again clock')
