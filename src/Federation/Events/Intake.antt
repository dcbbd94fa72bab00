-- ===== src/Federation/Events/Intake.antt =====
-- What a batch of events may do to the replica.
use democrachat.App.Results.{Result-cases, Result, ok, err}
use democrachat.Federation.Events.{
  Verifier, SignedPart, AuthError, Ingested, taken, ingest_from, ingest,
}
use democrachat.Federation.Events.Gate.{gate, Passes, authorize_iff}
use democrachat.Federation.Registry.{RegistryState}
use democrachat.Prelude.{
  ℕ, ◌+◌, ◌<◌, ◌≡◌, inl, inr, Option, List, [], ◌∷◌, length, length-append, arith, list_eq, nat_eq,
  pair_eq, triple_eq,
}
use democrachat.Prelude.Std.{Text, u64_mod}

module _ {Payload Event Key FedError Sink ApplyError : Type 0} (field : Payload → Text → Option ℕ)
    (peek : Event → Result FedError (SignedPart Payload))
    (from_hex : ℕ → Text → Result FedError Key) (verify : Verifier Payload Event Key FedError)
    (proposal_server message_server : ℕ → Option ℕ)
    (apply : Sink → SignedPart Payload → Result ApplyError Sink) (r : RegistryState) where
  abbrev Tallied : Type 0
  Tallied = Ingested field peek from_hex verify proposal_server message_server ApplyError

  abbrev fed_by : Sink → Tallied → List Event → Sink × Tallied
  fed_by = ingest_from field peek from_hex verify proposal_server message_server apply r

  abbrev fed : Sink → List Event → Sink × Tallied
  fed = ingest field peek from_hex verify proposal_server message_server apply r

  abbrev seen : Tallied → ℕ
  seen out = out.applied + length out.rejected + length out.apply_errors

  seen-taken :
      (s : Sink) (out : Tallied) (x : Result (AuthError FedError) (SignedPart Payload))
      → seen out + 1 < u64_mod
      → seen (taken field peek from_hex verify proposal_server message_server apply s out x).1
        ≡ seen out + 1
  seen-taken s out (err e) small = omega (arith, length-append out.rejected (e ∷ []))
  seen-taken s out (ok part) small = elim (Result-cases (apply s part)) [
    | inl (x, e) ↦ rw e (omega (arith, length-append out.apply_errors (x ∷ [])))
    | inr (t, e) ↦ rw e (omega arith)
  ]

  seen-ingest_from :
      (s : Sink) (out : Tallied) (events : List Event)
      → seen out + length events < u64_mod
      → seen (fed_by s out events).1 ≡ seen out + length events
  unfolding ingest_from
  seen-ingest_from s out [] small = omega arith
  seen-ingest_from s out (event ∷ events) small =
      let x = gate field peek from_hex verify proposal_server message_server r event in
      let next = taken field peek from_hex verify proposal_server message_server apply s out x in
      let one = seen-taken s out x (omega arith) in
      omega (arith, seen-ingest_from (next.0) (next.1) events (omega arith))

  -- Every event of a batch is counted once: as applied, as refused by the gate, or as failed in the
  -- store. The batch is shorter than 2 ^ 64.
  pub seen-ingest :
      (s : Sink) (events : List Event)
      → length events < u64_mod
      → (fed s events).1.applied
          + length (fed s events).1.rejected
          + length (fed s events).1.apply_errors
        ≡ length events
  unfolding ingest
  seen-ingest s events small = omega (
    arith,
    seen-ingest_from s (record { applied = 0; rejected = []; apply_errors = [] }) events
        (omega arith),
  )

  module _ (P : Sink → Type 0)
      (step : (t t' : Sink) (event : Event) (part : SignedPart Payload)
        → P t
        → Passes field peek from_hex verify proposal_server message_server r event part
        → apply t part ≡ ok t'
        → P t') where
    taken-kept :
        (s : Sink) (out : Tallied) (event : Event)
        → P s
        → P
            (taken field peek from_hex verify proposal_server message_server apply s out
              (gate field peek from_hex verify proposal_server message_server r event)).0
    taken-kept s out event p =
        elim (Result-cases
          (gate field peek from_hex verify proposal_server message_server r event)) [
            | inl (x, e) ↦ rw e p
            | inr (part, e) ↦ elim (Result-cases (apply s part)) [
              | inl (x, f) ↦ rw (e, f) p
              | inr (t, f) ↦
                  rw (e, f)
                    (step s t event part p
                      ((authorize_iff field peek from_hex verify proposal_server message_server r
                          event part).0
                        e)
                      f)
            ]
          ]

    ingest_from-kept :
        (s : Sink) (out : Tallied) (events : List Event) → P s → P (fed_by s out events).0
    unfolding ingest_from
    ingest_from-kept s out [] p = p
    ingest_from-kept s out (event ∷ events) p =
        let next =
          taken field peek from_hex verify proposal_server message_server apply s out
            (gate field peek from_hex verify proposal_server message_server r event) in
        ingest_from-kept (next.0) (next.1) events (taken-kept s out event p)

    -- What every event that passes the gate preserves when it is applied is preserved by a batch: no
    -- other event has any effect on the replica.
    pub ingest-kept : (s : Sink) (events : List Event) → P s → P (fed s events).0
    unfolding ingest
    ingest-kept s events p =
        ingest_from-kept s (record { applied = 0; rejected = []; apply_errors = [] }) events p
