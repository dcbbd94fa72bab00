-- ===== src/Federation/Replicator/Sync.antt =====
-- One node writes, signs its outbox and serves it; another pulls it, checks it and applies it.
use democrachat.App.Results.{Result, ok}
use democrachat.Federation.Events.{Verifier, SignedPart, classify, owned}
use democrachat.Federation.Feed.{NodeKeypair, draft, mine, offer, offer_all, sign, sign_feed}
use democrachat.Federation.Feed.Accepted.{sealed-accepted, signed_part}
use democrachat.Federation.Feed.Cache.{sign_feed-offer_all}
use democrachat.Federation.Registry.{OwnedScope, RegistryState, scope_eq}
use democrachat.Federation.Replicator.{
  ingest, Intake, apply_incoming, message_server, proposal_server, take_in, poll_peer,
}
use democrachat.Federation.Replicator.Cursor.{after_ok, take_in-ok, takes}
use democrachat.Federation.Replicator.Resume.{start, cursor-advance, cursor_in, cursors-take_in}
use democrachat.Prelude.{
  All, List, Option, Option-cases, [], ap, arith, inl, inr, length, list_eq, nat_eq, pair_eq, refl,
  some, subst, sym, triple_eq, ℕ, ◌+◌, ◌∙◌, ◌∷◌, ◌≡◌, Bool-cases, true, ◌<◌, ◌≤◌, false,
  if◌then◌else◌,
}
use democrachat.Prelude.Maps.{get}
use democrachat.Prelude.Std.{Text, is_empty, u64_mod}
use democrachat.Store.{ChangeOp, ChangeRecord, Inner, Row}
use democrachat.Store.Outbox.{apply_row, apply_rows, changes_since}
use democrachat.Store.People.{advance_cursor, friendship_of, replication_cursor}
use democrachat.Store.Replica.{Numbered, AllFresh, Mirrors, Ready, Write, write_all}
use democrachat.Store.Replica.History.{catch_up, changes_since-write_all, write_all-Replays}

module _ {Payload Event Key FedError : Type 0} (encode : Row → Payload)
    (field : Payload → Text → Option ℕ) (peek : Event → Result FedError (SignedPart Payload))
    (from_hex : ℕ → Text → Result FedError Key) (verify : Verifier Payload Event Key FedError)
    (decode : Text → ChangeOp → Payload → Option Row) (registry : RegistryState)
    (keypair : NodeKeypair Payload Event) where
  abbrev pulls : Intake FedError → List Event → Intake FedError
  pulls = takes field peek from_hex verify decode registry

  -- The row's scope is read from the row itself, and the node owns it.
  abbrev Direct : (ℕ → Option ℕ) → (ℕ → Option ℕ) → ChangeRecord → Type 0
  Direct ps ms rec =
      (scope : OwnedScope) × (epoch : ℕ) × (classify field (draft encode field ps ms keypair rec)
        ≡ owned scope)
      × (mine encode field ps ms keypair registry scope ≡ some epoch)
      × (decode rec.entity rec.op (encode rec.payload) ≡ some rec.payload)

  -- A part whose row decodes is applied as that row.
  after-row :
      (x : Intake FedError) (part : SignedPart Payload) (row : Row) (u : Inner)
      → decode part.entity part.op part.payload ≡ some row
      → apply_row x.store part.op row ≡ some u
      → (after_ok field peek from_hex verify decode registry x part).store ≡ u
  unfolding apply_incoming
  after-row x part row u e f = rw (apply_incoming, e, f) refl

  module _ (key : Key) (hex : Text) (published : get keypair.node registry.keys ≡ some hex)
      (decoded : from_hex keypair.node hex ≡ ok key)
      (peek-seal : (p : SignedPart Payload) → p.node ≡ keypair.node → peek (keypair.seal p) ≡ ok p)
      (verify-seal : (p : SignedPart Payload)
        → p.node ≡ keypair.node
        → (verify.read key (keypair.seal p) ≡ ok p) × (verify.node_of key ≡ p.node))
      (ps ms : ℕ → Option ℕ) where
    offer-Direct :
        (rec : ChangeRecord) (d : Direct ps ms rec)
        → offer encode field ps ms keypair registry rec
          ≡ some (
              keypair.seal
                (signed_part encode field peek from_hex verify ps ms keypair rec (d.0) (d.1)))
    unfolding offer sign
    offer-Direct rec (scope, epoch, at, own, same) = rw (offer, at, own) refl

    -- A batch of such rows is applied in order, and moves the loop's counter to the last of them.
    pulls-Direct :
        (records : List ChangeRecord) (n : ℕ) (x : Intake FedError) (t : Inner)
        → All (Direct ps ms) records
        → Numbered n records
        → x.handled_high ≡ n
        → apply_rows x.store records ≡ some t
        → let y = pulls x (offer_all encode field ps ms keypair registry records) in
          (y.store ≡ t) × (y.handled_high ≡ n + length records)
    unfolding take_in apply_rows offer_all mine
    pulls-Direct [] n x t d num high h = ground arith
    pulls-Direct (rec ∷ records) n x t (d, ds) num high h =
        elim (Option-cases (apply_row x.store rec.op rec.payload)) [
          | inl e ↦ absurd (ground arith)
          | inr (u, e) ↦
              let part =
                signed_part encode field peek from_hex verify ps ms keypair rec (d.0) (d.1) in
              let let_in =
                sealed-accepted encode field peek from_hex verify (proposal_server x.store)
                  (message_server x.store) keypair registry key hex published decoded peek-seal
                  verify-seal rec (d.0) (d.1) (rw (d.2) refl) (d.3) in
              let y = after_ok field peek from_hex verify decode registry x part in
              let store : y.store ≡ u = after-row x part rec.payload u (d.4) e in
              let rest = pulls-Direct records (n + 1) y t ds num.1 (omega (arith, num.0, high)) (
                ap (λ s. apply_rows s records) store
                ∙ subst (λ o. o ≡ some t) (rw (apply_rows, e) refl) h) in
              let stepped =
                take_in-ok field peek from_hex verify decode registry x (keypair.seal part)
                  (offer_all encode field ps ms keypair registry records) part let_in in
              rw (offer_all, offer-Direct rec d)
                (subst
                  (λ (z : Intake FedError).
                    (z.store ≡ t) × (z.handled_high ≡ n + length (rec ∷ records)))
                  (sym stepped) (rest.0, omega (arith, rest.1)))
        ]

    -- The other node mirrors the store, and has its outbox up to the counter.
    abbrev pub InSync : Inner → Inner → Type 0
    InSync a b = Mirrors a b × (replication_cursor b keypair.node ≡ a.next_outbox)

    abbrev feed_of : Inner → ℕ → ℕ → List Event
    feed_of a limit since = sign_feed encode field ps ms keypair registry a since limit

    nothing : (l : List Event) → is_empty l ≡ true → l ≡ []
    nothing [] h = refl
    nothing (x ∷ l) h = absurd (cc)

    sync-advance :
        (a t : Inner) (n : ℕ)
        → Mirrors a t
        → n ≡ a.next_outbox
        → replication_cursor t keypair.node ≤ n
        → InSync a (advance_cursor t keypair.node n)
    unfolding advance_cursor friendship_of
    sync-advance a t n m e le = (m, cursor-advance t keypair.node n ∙ omega (arith, e, le))

    abbrev begin : Inner → Intake FedError
    begin b = start field peek from_hex verify decode registry b keypair.node

    abbrev polled : Inner → (ℕ → List Event) → Inner
    polled b feed = (poll_peer field peek from_hex verify decode registry b keypair.node feed).0

    poll-idle :
        (b : Inner) (feed : ℕ → List Event)
        → is_empty (feed (replication_cursor b keypair.node)) ≡ true
        → polled b feed ≡ b
    unfolding poll_peer
    poll-idle b feed e =
        let l = feed (replication_cursor b keypair.node) in
        let r = ingest field peek from_hex verify decode registry b keypair.node l in
        ap (λ t. (if◌then◌else◌ {A = Inner × ℕ} t (b, 0) (r.0, r.1.applied)).0) e

    poll-ingest :
        (b : Inner) (feed : ℕ → List Event)
        → is_empty (feed (replication_cursor b keypair.node)) ≡ false
        → let x = pulls (begin b) (feed (replication_cursor b keypair.node)) in
          polled b feed ≡ advance_cursor x.store keypair.node x.handled_high
    unfolding poll_peer ingest
    poll-ingest b feed e =
        let l = feed (replication_cursor b keypair.node) in
        let r = ingest field peek from_hex verify decode registry b keypair.node l in
        ap (λ t. (if◌then◌else◌ {A = Inner × ℕ} t (b, 0) (r.0, r.1.applied)).0) e

    -- What the loop makes of the feed is what polling leaves in the store.
    poll-settles :
        (a b : Inner) (feed : ℕ → List Event)
        → let x = pulls (begin b) (feed (replication_cursor b keypair.node)) in
          Mirrors a x.store
          → x.handled_high ≡ a.next_outbox
          → replication_cursor b keypair.node ≤ a.next_outbox
          → InSync a (polled b feed)
    unfolding take_in replication_cursor
    poll-settles a b feed m high le =
        let events = feed (replication_cursor b keypair.node) in
        elim (Bool-cases (is_empty (feed (replication_cursor b keypair.node)))) [
          | inl e ↦ subst (InSync a) (sym (poll-idle b feed e)) (
              subst
                (λ l.
                  Mirrors a (pulls (begin b) l).store
                  × ((pulls (begin b) l).handled_high ≡ a.next_outbox))
                (nothing events e) (m, high))
          | inr e ↦
              let x = pulls (begin b) events in
              let same =
                ap (λ c. cursor_in c keypair.node)
                  (cursors-take_in field peek from_hex verify decode registry (begin b) events) in
              subst (InSync a) (sym (poll-ingest b feed e))
                (sync-advance a x.store x.handled_high m high (omega (arith, same, high)))
        ]

    -- One node makes any history of writes and serves its feed; another, which was in sync with it,
    -- pulls once and is in sync again, so that the next pull may follow. The writes are no more than
    -- the limit and do not exhaust the outbox's counter, each direct message has a fresh id, and
    -- each new row tells its own scope, which the first node owns, and decodes to what was encoded
    -- (so there are no votes or reactions among them, whose rows name a parent). The first node's key
    -- is published and is of that node, and decoding and verifying a sealed part gives it back.
    pub poll_peer-InSync :
        (a b : Inner) (ws : List Write) (limit : ℕ)
        → Ready a
        → InSync a b
        → AllFresh a ws
        → a.next_outbox + length ws < u64_mod
        → length ws ≤ limit
        → All (Direct ps ms) (changes_since (write_all a ws) a.next_outbox limit)
        → InSync
            (write_all a ws)
            (poll_peer field peek from_hex verify decode registry b keypair.node
              (feed_of (write_all a ws) limit)).0
          × Ready (write_all a ws)
    poll_peer-InSync a b ws limit ready (mirrors, at) fresh small enough direct =
        let replay = write_all-Replays a b ws small ready.0 fresh mirrors in
        let rows = changes_since-write_all a b ws limit replay ready.1 enough in
        let caught = catch_up a b ws limit ready mirrors fresh small enough in
        let events = feed_of (write_all a ws) limit (replication_cursor b keypair.node) in
        let records = changes_since (write_all a ws) a.next_outbox limit in
        let x : Intake FedError = start field peek from_hex verify decode registry b keypair.node in
        let served : events ≡ offer_all encode field ps ms keypair registry records =
          ap (feed_of (write_all a ws) limit) at
          ∙ sign_feed-offer_all encode field ps ms keypair registry (write_all a ws) a.next_outbox
              limit in
        let y =
          pulls-Direct records a.next_outbox x replay.replica direct
            (subst (Numbered a.next_outbox) (sym rows) replay.numbered) at
            (ap (apply_rows b) rows ∙ replay.applied) in
        let z =
          subst
            (λ l.
              ((pulls x l).store ≡ replay.replica)
              × ((pulls x l).handled_high ≡ a.next_outbox + length records))
            (sym served) y in
        let high : (pulls x events).handled_high ≡ (write_all a ws).next_outbox =
          z.1 ∙ ap (λ l. a.next_outbox + length l) rows ∙ sym replay.counted in
        let reflected : Mirrors (write_all a ws) (pulls x events).store =
          subst (Mirrors (write_all a ws)) (sym z.0) replay.mirrors in
        (
          poll-settles (write_all a ws) b (feed_of (write_all a ws) limit) reflected high
              (omega (arith, at, replay.counted)),
          caught.3,
        )
