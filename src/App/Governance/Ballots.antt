-- ===== src/App/Governance/Ballots.antt =====
-- What a proposal or a vote that was accepted rests on, and what it leaves in the store.
use democrachat.App.Governance.{open_proposal, cast_vote_as, franchised_only, is_none}
use democrachat.App.Results.{Holds, of_Holds, ok}
use democrachat.Domain.Governance.{
  ProposalKind, ballot_kind, decision_class, threshold_for, Proposal, new_proposal, open_status,
  is_open, Vote,
}
use democrachat.Domain.Membership.{User, Membership}
use democrachat.Domain.Server.{Server, from_citizen_count, governs}
use democrachat.Domain.Time.{Timestamp, plus_days}
use democrachat.Prelude.{
  ◌&&◌, ℕ, ◌≡◌, refl, Bool-cases, Option-cases, Bool, true, false, some, nat_beq, nat_eq, beq_refl,
  if◌then◌else◌, inl, inr, list_eq, pair_eq, triple_eq,
}
use democrachat.Prelude.Maps.{get, get-insert}
use democrachat.Prelude.Std.{Text, trim}
use democrachat.Store.{Inner, find_by_handle, find_by_slug, get_membership, citizen_count}
use democrachat.Store.Votes.{
  next_proposal_id, put_proposal, get_vote, get_vote-upsert_vote, OneBallot, upsert_vote-OneBallot,
}

-- Who may open a proposal, and what opening it leaves.
pub record Opened (s : Inner) (now : Timestamp) (handle slug : Text) (kind : ProposalKind)
    (p : Proposal) (t : Inner) : Type 0 where
  pub user : User
  pub server : Server
  pub member : Membership
  pub is_user : find_by_handle s (trim handle) ≡ some user
  pub is_server : find_by_slug s (trim slug) ≡ some server
  pub is_member : franchised_only (get_membership s user.id server.id) ≡ some member
  pub is_governed : governs server (ballot_kind kind) ≡ true
  pub in_phase :
      is_none (threshold_for (decision_class kind) (from_citizen_count (citizen_count s server.id)))
      ≡ false
  pub about : (p.server_id ≡ server.id) × (p.proposer ≡ user.id) × (p.kind ≡ kind)
  pub is_open_till : (p.status ≡ open_status) × (p.closes_at ≡ plus_days now 3)
  pub stored : get p.id t.proposals ≡ some p
  pub same_votes : t.votes ≡ s.votes

get-put_proposal : (s : Inner) (p : Proposal) → get p.id (put_proposal s p).proposals ≡ some p
unfolding put_proposal
get-put_proposal s p = rw (get-insert p.id p.id p s.proposals, beq_refl p.id) refl

module _ (s : Inner) (now : Timestamp) (handle slug : Text) (kind : ProposalKind) where
  open_proposal-Holds :
      Holds (λ r. Opened s now handle slug kind r.0 r.1) (open_proposal s now handle slug kind)
  unfolding open_proposal new_proposal next_proposal_id put_proposal
  open_proposal-Holds = elim (Option-cases (find_by_handle s (trim handle))) [
    | inl e ↦ rw (open_proposal, e) tt
    | inr (user, eu) ↦ elim (Option-cases (find_by_slug s (trim slug))) [
      | inl e ↦ rw (open_proposal, eu, e) tt
      | inr (server, ev) ↦
          elim (Option-cases (franchised_only (get_membership s user.id server.id))) [
            | inl e ↦ rw (open_proposal, eu, ev, e) tt
            | inr (m, em) ↦ elim (Bool-cases (governs server (ballot_kind kind))) [
              | inr e ↦ rw (open_proposal, eu, ev, em, e) tt
              | inl eg ↦
                  elim (Bool-cases (
                    is_none (
                      threshold_for (decision_class kind)
                        (from_citizen_count (citizen_count s server.id))))) [
                          | inl e ↦ rw (open_proposal, eu, ev, em, eg, e) tt
                          | inr et ↦
                              rw (open_proposal, eu, ev, em, eg, et)
                                (record {
                                  user = user;
                                  server = server;
                                  member = m;
                                  is_user = eu;
                                  is_server = ev;
                                  is_member = em;
                                  is_governed = eg;
                                  in_phase = et;
                                  about = (refl, refl, refl);
                                  is_open_till = (refl, refl);
                                  stored = get-put_proposal (next_proposal_id s).1 _;
                                  same_votes = refl;
                                })
                        ]
            ]
          ]
    ]
  ]

  -- A proposal that is opened comes from a franchised member of the server, on a matter the server
  -- decides by ballot and its phase allows; it is stored open, closes three days from now, and no
  -- vote is touched.
  pub open_proposal-Opened :
      (p : Proposal) (t : Inner)
      → open_proposal s now handle slug kind ≡ ok (p, t)
      → Opened s now handle slug kind p t
  open_proposal-Opened p t h =
      of_Holds (λ r. Opened s now handle slug kind r.0 r.1) (open_proposal s now handle slug kind)
        (p, t) open_proposal-Holds h

-- Who may vote, and what the vote leaves.
pub record Voted (s : Inner) (voter proposal : ℕ) (is_aye : Bool) (t : Inner) : Type 0 where
  pub ballot : Proposal
  pub member : Membership
  pub is_ballot : get proposal s.proposals ≡ some ballot
  pub is_open_ballot : is_open ballot.status ≡ true
  pub is_member : franchised_only (get_membership s voter ballot.server_id) ≡ some member
  pub recorded :
      (p u : ℕ)
      → get_vote t p u ≡ (
          if nat_beq ballot.id p && nat_beq voter u
          then some (record { proposal_id = ballot.id; voter = voter; is_aye = is_aye })
          else get_vote s p u)

module _ (s : Inner) (voter proposal : ℕ) (is_aye : Bool) where
  cast_vote_as-Holds : Holds (Voted s voter proposal is_aye) (cast_vote_as s voter proposal is_aye)
  unfolding cast_vote_as
  cast_vote_as-Holds = elim (Option-cases (get proposal s.proposals)) [
    | inl e ↦ rw (cast_vote_as, e) tt
    | inr (p, ep) ↦ elim (Bool-cases (is_open p.status)) [
      | inr e ↦ rw (cast_vote_as, ep, e) tt
      | inl eo ↦ elim (Option-cases (franchised_only (get_membership s voter p.server_id))) [
        | inl e ↦ rw (cast_vote_as, ep, eo, e) tt
        | inr (m, em) ↦
            let v : Vote = record { proposal_id = p.id; voter = voter; is_aye = is_aye } in
            rw (cast_vote_as, ep, eo, em)
              (record {
                ballot = p;
                member = m;
                is_ballot = ep;
                is_open_ballot = eo;
                is_member = em;
                recorded = get_vote-upsert_vote s v;
              })
      ]
    ]
  ]

  cast_vote_as_one : OneBallot s → Holds OneBallot (cast_vote_as s voter proposal is_aye)
  unfolding cast_vote_as
  cast_vote_as_one h = elim (Option-cases (get proposal s.proposals)) [
    | inl e ↦ rw (cast_vote_as, e) tt
    | inr (p, ep) ↦ elim (Bool-cases (is_open p.status)) [
      | inr e ↦ rw (cast_vote_as, ep, e) tt
      | inl eo ↦ elim (Option-cases (franchised_only (get_membership s voter p.server_id))) [
        | inl e ↦ rw (cast_vote_as, ep, eo, e) tt
        | inr (m, em) ↦ rw (cast_vote_as, ep, eo, em) (upsert_vote-OneBallot s _ h)
      ]
    ]
  ]

  -- A vote that is accepted is on an open ballot, by a franchised member of the ballot's server; it
  -- is then the voter's vote on that ballot, replacing an earlier one, and every other vote stands.
  -- Where no voter had two votes on a ballot, none has afterwards.
  pub cast_vote_as-Voted :
      (t : Inner)
      → OneBallot s
      → cast_vote_as s voter proposal is_aye ≡ ok t
      → Voted s voter proposal is_aye t × OneBallot t
  cast_vote_as-Voted t one h = (
    of_Holds (Voted s voter proposal is_aye) (cast_vote_as s voter proposal is_aye) t
        cast_vote_as-Holds h,
    of_Holds OneBallot (cast_vote_as s voter proposal is_aye) t (cast_vote_as_one one) h,
  )
