-- ===== src/Lib.antt =====
-- democrachat: a chat server whose communities govern themselves by ballot. This library models the
-- domain rules, the memory store and the use-cases that decide who has a vote and what a vote does.
--
-- The parts, each a module, and the code that each is about:
--   Prelude: tests, lists, maps, integers over the native naturals, and what is used of Rust's
--     standard library (saturating and wrapping 64-bit arithmetic, `isqrt`, trimming, ASCII).
--   Domain (crates/domain/src): the pure rules. Time, Node (ids), Membership (accounts, tiers, the
--     franchise), Weighting, Ballots and Governance, Jury, Server, Social, Names, Chat.
--   Store (crates/adapter-store-memory/src/lib.rs): the locked state `Inner` as a record, each
--     port's method as a function that takes the state and returns it; Content, Votes, People, Chat
--     and Emojis have the ports by subject, Outbox the rows that a node hands out (changes_since)
--     and takes in (apply_row), Members and Replica what holds of them.
--   App (crates/app/src): the use-cases. Results (error), Governance (governance_service.rs),
--     Franchise (services.rs), Social (social_service.rs), Chat, Reactions and Media
--     (chat_service.rs), Emojis (emoji_service.rs). Each takes the state, the instant the clock shows and the request, and
--     returns an error or the new state. Actions makes one step of any of Governance and Franchise,
--     and histories of steps; Paths says what a step may do to a member's standing.
--   Federation: how nodes share one network. Registry (crates/federation/src/ownership) has the
--     owner of each scope, under an epoch; Feed (crates/federation/src/sign_feed.rs) signs the rows
--     of the scopes a node owns; Events (classify.rs, authorize.rs, ingest.rs) and Replicator
--     (crates/adapter-federation/src/replicator.rs, http/poll_peer.rs) check and take in a peer's
--     rows; Commands and Replay (crates/adapter-federation/src/command and
--     crates/democrachat/src/command_executor.rs) send a write to the owner, which runs App's
--     use-case; Rehome (crates/federation/src/rehome) hands a scope whose owner is gone to a standby.
--   Examples: each theorem at a concrete input.
--
-- How the code is read:
--   * A lock is held for each port's call, and the use-cases are taken one at a time: a history is a
--     list of requests with their instants. Nothing is assumed of the instants' order.
--   * Text is a list of code points. `u64` values are naturals, with `% 2 ^ 64` where the code can
--     wrap; `i64` values are integers without bound, since no sum or difference of
--     clock times that the code forms comes near the end of 64 bits.
--   * A hash map is an association list. `HashMap` fixes no order, and the order here is one of the
--     orders that it may have; where two accounts had the same handle, the first would be found.
--   * Every loop of the code runs over a list, so its model is structural; there is no fuel.
--   * The outbox keeps rows before serialisation. The digest of an invite code (crate sha2) and
--     the lower-casing of role names (Unicode tables) are parameters, and so are in Federation the
--     JSON of payloads and commands, node keys and signatures, the printing of numbers and the
--     comparison of request rates (f64). HTTP is left out: a pull hands over the feed itself, and
--     what a peer makes of a command is a parameter.
--   * A node that rehomes a scope may read the registry earlier than it claims: `consider` has both
--     states. Calls of the in-memory registry do not fail, so their error branches do not occur.
--
-- Not modelled: password and e-mail paths (argon2, the e-mail vault), the services of juries,
-- roles and keys, the ranked list of emoji, the etcd registry, SQL and object storage, the web and
-- command-line front ends, the JSON snapshot of the store.
pub mod Prelude
pub mod Domain
pub mod Store
pub mod App
pub mod Federation
pub mod Examples
