-- ===== src/Federation/Replicator/Resume.antt =====
-- Where a peer's next pull resumes.
use democrachat.App.Results.{Result, err, ok}
use democrachat.Federation.Events.{Verifier, AuthError, SignedPart}
use democrachat.Federation.Events.Gate.{authorize_iff}
use democrachat.Federation.Registry.{RegistryState}
use democrachat.Federation.Replicator.{
  ingest, Intake, message_server, proposal_server, take_in, apply_incoming,
}
use democrachat.Federation.Replicator.Handled.{
  Handles, Handles-applied, HandlesAll, IsTemporary, and_next, is_refused, lasting-IsTemporary,
  no_more, transient-IsTemporary,
}
use democrachat.Federation.Replicator.Cursor.{
  after_ok, after_skip, check, fate, numbered, take_in-ok, take_in-skip, take_in-stop, takes,
}
use democrachat.Prelude.{
  All, List, Option, [], ap, arith, inl, inr, list_eq, nat_eq, pair_eq, refl, some, subst, sym,
  triple_eq, ℕ, ◌++◌, ◌<◌, ◌∷◌, ◌≡◌, ◌≤◌, Option-cases, beq_refl, max, none, ◌∙◌,
}
use democrachat.Prelude.Maps.{Map, get, get-insert}
use democrachat.Prelude.Std.{Text}
use democrachat.Store.{ChangeOp, Inner, Row, delete_row, upsert_row, user_row}
use democrachat.Store.Outbox.{apply_row, delete_incoming, upsert_incoming}
use democrachat.Store.People.{advance_cursor, replication_cursor}

-- Applying a row leaves the cursors alone.
cursors-apply_row :
    (s t : Inner) (op : ChangeOp) (row : Row) → apply_row s op row ≡ some t → t.cursors ≡ s.cursors
unfolding apply_row upsert_incoming delete_incoming
cursors-apply_row s t upsert_row (user_row u) h = ground arith
cursors-apply_row s t upsert_row row h = ground arith
cursors-apply_row s t delete_row (user_row u) h = ground arith
cursors-apply_row s t delete_row row h = ground arith

abbrev pub cursor_in : Map ℕ ℕ → ℕ → ℕ
cursor_in m peer = elim (get peer m) [ none ↦ 0 | some n ↦ n ]

pub cursor-advance :
    (s : Inner) (peer n : ℕ)
    → replication_cursor (advance_cursor s peer n) peer ≡ max (cursor_in s.cursors peer) n
unfolding replication_cursor advance_cursor
cursor-advance s peer n =
    ap (λ o. elim o [ none ↦ 0 | some n ↦ n ])
      (get-insert peer peer (max (cursor_in s.cursors peer) n) s.cursors)
    ∙ rw (beq_refl peer) refl

max-of_le : (a b : ℕ) → a ≤ b → max a b ≡ b
max-of_le a b h = omega arith

module _ {Payload Event Key FedError : Type 0} (field : Payload → Text → Option ℕ)
    (peek : Event → Result FedError (SignedPart Payload))
    (from_hex : ℕ → Text → Result FedError Key) (verify : Verifier Payload Event Key FedError)
    (decode : Text → ChangeOp → Payload → Option Row) (registry : RegistryState) where
  abbrev taken_by : Intake FedError → List Event → Intake FedError
  taken_by = takes field peek from_hex verify decode registry

  abbrev num : Event → ℕ
  num = numbered field peek from_hex verify decode registry

  abbrev judged : Intake FedError → Event → Result (AuthError FedError) (SignedPart Payload)
  judged = check field peek from_hex verify decode registry

  -- Events numbered upwards from `n`.
  abbrev pub Ascending : ℕ → List Event → Type 0
  Ascending n [] = Unit
  Ascending n (event ∷ events) = (n < num event) × Ascending (num event) events

  past :
      (m n : ℕ) (events : List Event)
      → m ≤ n
      → Ascending n events
      → All (λ event. m < num event) events
  past m n [] le h = tt
  past m n (event ∷ events) le h = (omega arith, past m (num event) events (omega arith) h.1)

  -- Why the loop left some events: there are none, or the first is to be retried.
  abbrev pub Waits : Intake FedError → List Event → Type 0
  Waits x [] = Unit
  Waits x (event ∷ events) =
      (before : Intake FedError) × (why : AuthError FedError) × (before.store ≡ x.store)
      × (judged before event ≡ err why)
      × IsTemporary why

  abbrev HandlesOne : Inner → Event → Inner → Type 0
  HandlesOne = Handles field peek from_hex verify decode registry

  pub record Resumes (x : Intake FedError) (events : List Event) : Type 0 where
    pub done : List Event
    pub left_over : List Event
    pub in_order : events ≡ done ++ left_over
    pub handles :
        HandlesAll field peek from_hex verify decode registry x.store done (taken_by x events).store
    pub behind : All (λ event. num event ≤ (taken_by x events).handled_high) done
    pub ahead : All (λ event. (taken_by x events).handled_high < num event) left_over
    pub waits : Waits (taken_by x events) left_over
    pub no_regress : x.handled_high ≤ (taken_by x events).handled_high

  abbrev GoesOn : Intake FedError → Event → List Event → Intake FedError → Type 0
  GoesOn x event events y =
      (taken_by x (event ∷ events) ≡ taken_by y events)
      × (x.handled_high ≤ y.handled_high)
      × (num event ≤ y.handled_high)

  Resumes-step :
      (x y : Intake FedError) (event : Event) (events : List Event)
      → GoesOn x event events y
      → HandlesOne x.store event y.store
      → Resumes y events
      → Resumes x (event ∷ events)
  Resumes-step x y event events (same, up, over) one r = record {
    done = event ∷ r.done;
    left_over = r.left_over;
    in_order = ap (λ l. event ∷ l) r.in_order;
    handles =
        subst
          (λ (z : Intake FedError).
            HandlesAll field peek from_hex verify decode registry x.store (event ∷ r.done) z.store)
          (sym same) (and_next one r.handles);
    behind =
        subst (λ (z : Intake FedError). All (λ e. num e ≤ z.handled_high) (event ∷ r.done))
          (sym same) (omega (arith, r.no_regress), r.behind);
    ahead =
        subst (λ (z : Intake FedError). All (λ e. z.handled_high < num e) r.left_over) (sym same)
          r.ahead;
    waits = subst (λ z. Waits z r.left_over) (sym same) r.waits;
    no_regress =
        subst (λ (z : Intake FedError). x.handled_high ≤ z.handled_high) (sym same)
          (omega (arith, r.no_regress));
  }

  cursors-after_ok :
      (x : Intake FedError) (part : SignedPart Payload)
      → (after_ok field peek from_hex verify decode registry x part).store.cursors ≡ x.store.cursors
  unfolding apply_incoming
  cursors-after_ok x part = elim (Option-cases (decode part.entity part.op part.payload)) [
    | inl e ↦ rw (apply_incoming, e) refl
    | inr (row, e) ↦ elim (Option-cases (apply_row x.store part.op row)) [
      | inl f ↦ rw (apply_incoming, e, f) refl
      | inr (t, f) ↦ rw (apply_incoming, e, f) (cursors-apply_row x.store t part.op row f)
    ]
  ]

  pub cursors-take_in :
      (x : Intake FedError) (events : List Event)
      → (taken_by x events).store.cursors ≡ x.store.cursors
  unfolding take_in apply_incoming
  cursors-take_in x [] = refl
  cursors-take_in x (event ∷ events) =
      elim (fate field peek from_hex verify decode registry x event) [
        | inl (part, e) ↦
            let y = after_ok field peek from_hex verify decode registry x part in
            ap (λ (z : Intake FedError). z.store.cursors)
              (take_in-ok field peek from_hex verify decode registry x event events part e)
            ∙ cursors-take_in y events
            ∙ cursors-after_ok x part
        | inr (inl (why, e, f)) ↦
            ap (λ (z : Intake FedError). z.store.cursors)
              (take_in-stop field peek from_hex verify decode registry x event events why e f)
        | inr (inr (why, e, f)) ↦
            ap (λ (z : Intake FedError). z.store.cursors)
              (take_in-skip field peek from_hex verify decode registry x event events why e f)
            ∙ cursors-take_in (after_skip field peek from_hex verify decode registry x event why)
                events
      ]

  -- The loop's state before the first event.
  abbrev pub start : Inner → ℕ → Intake FedError
  start s peer = record {
    store = s;
    out = record { applied = 0; rejected = []; apply_errors = 0 };
    handled_high = replication_cursor s peer;
  }

  -- A verified part is the one that peeking reads.
  module _
      (peek-verify : (key : Key) (event : Event) (part : SignedPart Payload)
        → verify.read key event ≡ ok part
        → peek event ≡ ok part) where
    seq-authorize :
        (x : Intake FedError) (event : Event) (part : SignedPart Payload)
        → judged x event ≡ ok part
        → num event ≡ part.seq
    seq-authorize x event part e =
        let p =
          (authorize_iff field peek from_hex verify (proposal_server x.store)
              (message_server x.store) registry event part).0
            e in
        rw (peek-verify p.key event part p.is_signed) refl

    pub take_in-Resumes :
        (x : Intake FedError) (events : List Event)
        → Ascending x.handled_high events
        → Resumes x events
    unfolding take_in
    take_in-Resumes x [] h = record {
      done = [];
      left_over = [];
      in_order = refl;
      handles = no_more;
      behind = tt;
      ahead = tt;
      waits = tt;
      no_regress = omega arith;
    }
    take_in-Resumes x (event ∷ events) h =
        elim (fate field peek from_hex verify decode registry x event) [
          | inl (part, e) ↦
              let y = after_ok field peek from_hex verify decode registry x part in
              let same = seq-authorize x event part e in
              let high : y.handled_high ≡ num event = omega (arith, same) in
              Resumes-step x y event events
                (
                  take_in-ok field peek from_hex verify decode registry x event events part e,
                  omega (arith, same),
                  omega (arith, same),
                )
                (Handles-applied field peek from_hex verify decode registry x event part e)
                (take_in-Resumes y events (subst (λ n. Ascending n events) (sym high) h.1))
          | inr (inl (why, e, f)) ↦
              let stops =
                take_in-stop field peek from_hex verify decode registry x event events why e f in
              record {
                done = [];
                left_over = event ∷ events;
                in_order = refl;
                handles =
                    subst
                      (λ (z : Intake FedError).
                        HandlesAll field peek from_hex verify decode registry x.store [] z.store)
                      (sym stops) no_more;
                behind = tt;
                ahead =
                    subst
                      (λ (z : Intake FedError). All (λ e. z.handled_high < num e) (event ∷ events))
                      (sym stops)
                      (past x.handled_high x.handled_high (event ∷ events) (omega arith) h);
                waits =
                    subst (λ z. Waits z (event ∷ events)) (sym stops)
                      (x, why, refl, e, transient-IsTemporary why f);
                no_regress =
                    subst (λ (z : Intake FedError). x.handled_high ≤ z.handled_high) (sym stops)
                      (omega arith);
              }
          | inr (inr (why, e, f)) ↦
              let y = after_skip field peek from_hex verify decode registry x event why in
              let high : y.handled_high ≡ num event = omega arith in
              Resumes-step x y event events
                (
                  take_in-skip field peek from_hex verify decode registry x event events why e f,
                  omega arith,
                  omega arith,
                )
                (is_refused why e (lasting-IsTemporary why f))
                (take_in-Resumes y events (subst (λ n. Ascending n events) (sym high) h.1))
        ]

    -- The batch splits where the replicator stopped. The events before are handled in order, each
    -- against the store that the ones before it left: its row is applied, or it passed the gate and
    -- its row cannot be decoded or applied, or it is refused for a reason that does not pass. They
    -- are numbered at or below the peer's new cursor, every event after them above, and the first of
    -- those is to be retried, for it was refused for a reason that may pass; and the cursor never
    -- moves back. The events are numbered upwards past the cursor, and a verified part is the one
    -- that peeking reads.
    pub ingest-Resumes :
        (s : Inner) (peer : ℕ) (events : List Event)
        → Ascending (replication_cursor s peer) events
        → Resumes (start s peer) events
          × (replication_cursor
                (ingest field peek from_hex verify decode registry s peer events).0
                peer
              ≡ (taken_by (start s peer) events).handled_high)
    unfolding ingest advance_cursor replication_cursor
    ingest-Resumes s peer events h =
        let r = take_in-Resumes (start s peer) events h in
        let x = taken_by (start s peer) events in
        let same = ap (λ m. cursor_in m peer) (cursors-take_in (start s peer) events) in
        (
          r,
          cursor-advance x.store peer x.handled_high
              ∙ omega (
                arith,
                same,
                r.no_regress,
                max-of_le (cursor_in x.store.cursors peer) x.handled_high,
              ),
        )
