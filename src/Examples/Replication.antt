-- ===== src/Examples/Replication.antt =====
-- The theorems of replication at two small nodes.
-- A stand-in for JSON, keys and signatures: a row is its own payload, and a part its own event, which
-- the key "k1" verifies.
use democrachat.App.Results.{Result, err, ok}
use democrachat.Domain.Chat.{Channel, open_history}
use democrachat.Examples.Services.{store}
use democrachat.Federation.Events.{Verifier, SignedPart, classify, on_server, owned}
use democrachat.Federation.Feed.{NodeKeypair, draft, mine, sign_feed}
use democrachat.Federation.Feed.Accepted.{Accepted, sign_feed-Accepted}
use democrachat.Federation.Registry.{OwnedScope, RegistryState, owner_of, scope_eq, server_scope}
use democrachat.Federation.Replicator.{ingest, poll_peer}
use democrachat.Federation.Replicator.Cursor.{takes}
use democrachat.Federation.Replicator.Resume.{Resumes, ingest-Resumes, start}
use democrachat.Federation.Replicator.Sync.{poll_peer-InSync}
use democrachat.Prelude.{
  All, List, Option, [], arith, false, if◌then◌else◌, list_eq, nat_eq, none, pair_eq, refl, some,
  sym, triple_eq, ℕ, ◌==◌, ◌∷◌, ◌≡◌,
}
use democrachat.Prelude.Int.{pos}
use democrachat.Prelude.Maps.{get, insert, remove}
use democrachat.Prelude.Std.{Text, codes}
use democrachat.Store.{ChangeOp, Inner, Row, channel_row, rule_row, upsert_row}
use democrachat.Store.Content.{insert_channel, remove_channel}
use democrachat.Store.Outbox.{apply_rows, changes_since}
use democrachat.Store.People.{replication_cursor}
use democrachat.Store.Replica.{Mirrors, Ready, Write, drops_channel, puts_channel, write_all}
use democrachat.Store.Replica.History.{catch_up}

abbrev row_field : Row → Text → Option ℕ
row_field (channel_row c) t = if t == codes "server_id" then some c.server_id else none
row_field (rule_row r) t = if t == codes "server_id" then some r.server_id else none
row_field _ t = none

abbrev row_as_is : Row → Row
row_as_is row = row

abbrev decode_row : Text → ChangeOp → Row → Option Row
decode_row entity op row = some row

abbrev peek_part : SignedPart Row → Result ℕ (SignedPart Row)
peek_part part = ok part

abbrev read_key : ℕ → Text → Result ℕ Text
read_key node hex = ok hex

abbrev verify_part : Verifier Row (SignedPart Row) Text ℕ
verify_part = record {
  node_of = λ key. 1;
  read = λ key part. if key == codes "k1" then ok part else err 0;
  bad_signature = 0;
}

abbrev node_1 : NodeKeypair Row (SignedPart Row)
node_1 = record { node = 1; seal = λ part. part }

abbrev no_parent : ℕ → Option ℕ
no_parent n = none

-- Node 1 owns server 7 under epoch 3.
abbrev agreed : RegistryState
agreed = record {
  owners = (server_scope 7, (1, 3)) ∷ [];
  max_epoch = (server_scope 7, 3) ∷ [];
  keys = (1, codes "k1") ∷ [];
  loads = [];
  standby_nodes = [];
  rehoming_disabled = [];
}

abbrev tearoom : Channel
tearoom = record {
  id = 5;
  server_id = 7;
  name = codes "tearoom";
  topic = [];
  created_at = pos 0;
  is_encrypted = false;
  history_mode = open_history;
}

abbrev writes : List Write
writes = puts_channel tearoom ∷ drops_channel 5 ∷ []

store-Ready : Ready store
store-Ready = ((tt, tt, tt), tt)

store-Mirrors : Mirrors store store
store-Mirrors = (refl, λ a b. refl)

catch_up_example :
    (r' : Inner) × (apply_rows store (changes_since (write_all store writes) store.next_outbox 10)
      ≡ some r')
    × Mirrors (write_all store writes) r'
    × Ready (write_all store writes)
catch_up_example =
    catch_up store store writes 10 store-Ready store-Mirrors (tt, (tt, tt)) (omega arith)
      (omega arith)

published : get node_1.node agreed.keys ≡ some (codes "k1")
unfolding get
published = refl

seal-peek : (p : SignedPart Row) → p.node ≡ node_1.node → peek_part (node_1.seal p) ≡ ok p
seal-peek p h = refl

seal-verify :
    (p : SignedPart Row)
    → p.node ≡ node_1.node
    → (verify_part.read (codes "k1") (node_1.seal p) ≡ ok p)
      × (verify_part.node_of (codes "k1") ≡ p.node)
seal-verify p h = (refl, sym h)

abbrev posted_channel : Inner
posted_channel = write_all store writes

abbrev served : ℕ → List (SignedPart Row)
served since =
    sign_feed row_as_is row_field no_parent no_parent node_1 agreed posted_channel since 10

rows_tell :
    All
      (λ rec.
        (scope : OwnedScope) × (epoch : ℕ) × (classify row_field
            (draft row_as_is row_field no_parent no_parent node_1 rec)
          ≡ owned scope)
        × (mine row_as_is row_field no_parent no_parent node_1 agreed scope ≡ some epoch)
        × (decode_row rec.entity rec.op (row_as_is rec.payload) ≡ some rec.payload))
      (changes_since posted_channel store.next_outbox 10)
unfolding changes_since write_all insert_channel remove_channel get insert remove classify mine
    owner_of
rows_tell = ((server_scope 7, 3, refl, refl, refl), ((server_scope 7, 3, refl, refl, refl), tt))

no_cursor : replication_cursor store node_1.node ≡ store.next_outbox
unfolding replication_cursor get
no_cursor = refl

poll_peer-InSync_example :
    (Mirrors posted_channel
        (poll_peer row_field peek_part read_key verify_part decode_row agreed store 1 served).0
      × (replication_cursor
            (poll_peer row_field peek_part read_key verify_part decode_row agreed store 1 served).0
            1
          ≡ posted_channel.next_outbox))
    × Ready posted_channel
unfolding replication_cursor
poll_peer-InSync_example =
    poll_peer-InSync row_as_is row_field peek_part read_key verify_part decode_row agreed node_1
      (codes "k1") (codes "k1") published refl seal-peek seal-verify no_parent no_parent store store
      writes 10 store-Ready (store-Mirrors, no_cursor) (tt, (tt, tt)) (omega arith) (omega arith)
      rows_tell

sign_feed-Accepted_example :
    All
      (Accepted row_as_is row_field peek_part read_key verify_part no_parent no_parent node_1 agreed
        posted_channel.outbox 0)
      (served 0)
sign_feed-Accepted_example =
    sign_feed-Accepted row_as_is row_field peek_part read_key verify_part no_parent no_parent node_1
      agreed (codes "k1") (codes "k1") published refl seal-peek seal-verify posted_channel 0 10

-- Two events of a node that has published no key: the first is to be retried.
abbrev early : List (SignedPart Row)
early =
    record {
      node = 2;
      epoch = 1;
      seq = 4;
      scope = on_server 7;
      entity = codes "channels";
      op = upsert_row;
      payload = channel_row tearoom;
    }
    ∷ []

verify_is_peek :
    (key : Text) (event part : SignedPart Row)
    → verify_part.read key event ≡ ok part
    → peek_part event ≡ ok part
verify_is_peek key event part h = ground arith

ingest-Resumes_example :
    Resumes row_field peek_part read_key verify_part decode_row agreed
      (start row_field peek_part read_key verify_part decode_row agreed store 2)
      early
    × (replication_cursor
          (ingest row_field peek_part read_key verify_part decode_row agreed store 2 early).0
          2
        ≡ (takes row_field peek_part read_key verify_part decode_row agreed
            (start row_field peek_part read_key verify_part decode_row agreed store 2)
            early).handled_high)
unfolding replication_cursor get
ingest-Resumes_example =
    ingest-Resumes row_field peek_part read_key verify_part decode_row agreed verify_is_peek store 2
      early (omega arith, tt)
