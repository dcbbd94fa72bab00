-- ===== src/Store/Votes.antt =====
-- The ports of proposals and votes.
use democrachat.Prelude.{
  ℕ, ◌≤◌, ◌≡◌, refl, Bool, true, false, ◌&&◌, not, Option, some, List, [], ◌∷◌, ◌++◌, retain, find,
  count, nat_beq, nat_eq, if◌then◌else◌, sort_by_key, arith, count-append, count-retain,
}
use democrachat.Prelude.Maps.{insert, values}
use democrachat.Prelude.Std.{u64_add}
use democrachat.Domain.Node.{compose_id}
use democrachat.Domain.Governance.{Proposal, Vote}
use democrachat.Store.{Inner, upsert_row, record_row, proposal_row, vote_row}

unfoldable pub next_proposal_id : Inner → ℕ × Inner
next_proposal_id s =
    let n = u64_add s.next_proposal 1 in (compose_id s.node n, record s { next_proposal = n })

-- `insert_proposal` and `update_proposal`.
unfoldable pub put_proposal : Inner → Proposal → Inner
unfolding record_row
put_proposal s p =
    let t = record_row s upsert_row (proposal_row p) in
    record t { proposals = insert p.id p t.proposals }

unfoldable pub proposals_of : Inner → ℕ → List Proposal
proposals_of s server =
    sort_by_key (λ p. p.id) (retain (λ p. nat_beq p.server_id server) (values s.proposals))

abbrev pub is_vote : ℕ → ℕ → Vote → Bool
is_vote proposal voter v = nat_beq v.proposal_id proposal && nat_beq v.voter voter

unfoldable pub upsert_vote : Inner → Vote → Inner
unfolding record_row
upsert_vote s v =
    let t = record s { votes = retain (λ x. not (is_vote v.proposal_id v.voter x)) s.votes } in
    let u = record_row t upsert_row (vote_row v) in record u { votes = u.votes ++ v ∷ [] }

unfoldable pub get_vote : Inner → ℕ → ℕ → Option Vote
get_vote s proposal voter = find (is_vote proposal voter) s.votes

unfoldable pub votes_on : Inner → ℕ → List Vote
votes_on s proposal = retain (λ v. nat_beq v.proposal_id proposal) s.votes

module _ (p u : ℕ) (v : Vote) where
  find-upsert_self :
      (l : List Vote)
      → is_vote p u v ≡ true
      → find (is_vote p u) (retain (λ x. not (is_vote v.proposal_id v.voter x)) l ++ v ∷ [])
        ≡ some v
  find-upsert_self [] h = ground arith
  find-upsert_self (x ∷ l) h = ground (arith, find-upsert_self l)

  find-upsert_other :
      (l : List Vote)
      → is_vote p u v ≡ false
      → find (is_vote p u) (retain (λ x. not (is_vote v.proposal_id v.voter x)) l ++ v ∷ [])
        ≡ find (is_vote p u) l
  find-upsert_other [] h = ground arith
  find-upsert_other (x ∷ l) h = ground (arith, find-upsert_other l)

-- After a vote is stored, the vote of its voter on its proposal is that one, and any other voter's
-- vote, and any vote on another proposal, is what it was.
pub get_vote-upsert_vote :
    (s : Inner) (v : Vote) (p u : ℕ)
    → get_vote (upsert_vote s v) p u ≡ (if is_vote p u v then some v else get_vote s p u)
unfolding get_vote upsert_vote
get_vote-upsert_vote s v p u =
    ground (arith, find-upsert_self p u v s.votes, find-upsert_other p u v s.votes)

-- At most one vote for each proposal and voter.
abbrev pub OneBallot : Inner → Type 0
OneBallot s = (p u : ℕ) → count (is_vote p u) s.votes ≤ 1

module _ (p u : ℕ) (v : Vote) where
  count-replaced :
      (l : List Vote)
      → is_vote p u v ≡ true
      → count (is_vote p u) (retain (λ x. not (is_vote v.proposal_id v.voter x)) l) ≡ 0
  count-replaced [] h = refl
  count-replaced (x ∷ l) h = ground (arith, count-replaced l)

  count-upsert :
      (l : List Vote)
      → count (is_vote p u) l ≤ 1
      → count (is_vote p u) (retain (λ x. not (is_vote v.proposal_id v.voter x)) l ++ v ∷ []) ≤ 1
  count-upsert l h =
      let kept : List Vote = retain (λ x. not (is_vote v.proposal_id v.voter x)) l in
      ground (
        arith,
        count-append (is_vote p u) kept (v ∷ []),
        count-replaced l,
        count-retain (is_vote p u) (λ x. not (is_vote v.proposal_id v.voter x)) l,
      )

-- Storing a vote keeps at most one ballot for each voter and proposal.
pub upsert_vote-OneBallot : (s : Inner) (v : Vote) → OneBallot s → OneBallot (upsert_vote s v)
unfolding upsert_vote
upsert_vote-OneBallot s v h p u = count-upsert p u v s.votes (h p u)
