-- ===== src/App/Actions/Paths.antt =====
-- The ways to the vote, over every use-case.
use democrachat.App.Actions.{
  resolves, contributes, registers, founds, joins, accepts, revokes, proposes, invites_with,
  votes_by_id, claims_franchise, votes_as, perform, Action, settle,
}
use democrachat.App.Franchise.{
  founder_seat, home, enfranchise, live_only, is_some, register_account,
  found_server_with_visibility, join_server, create_invite, accept_invite, revoke_invite,
  try_enfranchise, set_contribution,
}
use democrachat.App.Franchise.Growth.{enfranchise_store, Candidate}
use democrachat.App.Governance.{open_proposal, cast_vote, cast_vote_by_id}
use democrachat.App.Governance.Standing.{Keeps-resolve_due}
use democrachat.App.Paths.{
  Way, Sound, Sound-of_Keeps, Sound-of_eq, Sound-joined, Sound-founded, Sound-earned,
}
use democrachat.App.Results.{Result, ok, err}
use democrachat.Domain.Governance.{ProposalKind}
use democrachat.Domain.Membership.{User, Membership, is_citizen, joined}
use democrachat.Domain.Names.{slugify}
use democrachat.Domain.Server.{allows_member_invites, new_server, Server}
use democrachat.Domain.Time.{Timestamp}
use democrachat.Prelude.{
  arith, subst, sym, ℕ, ◌≡◌, refl, Bool-cases, Option-cases, Bool, pair_eq, nat_eq, list_eq, inl,
  inr, triple_eq,
}
use democrachat.Prelude.Int.{ℤ}
use democrachat.Prelude.Maps.{get}
use democrachat.Prelude.Std.{is_empty, trim, Text}
use democrachat.Store.{
  find_by_slug, find_by_handle, next_server_id, put_user, next_user_id, Inner, get_membership,
}
use democrachat.Store.Members.{Keeps-upsert, Keyed, Keeps-refl}
use democrachat.Store.People.{add_invite, revoke, by_hash}
use democrachat.Store.Votes.{next_proposal_id, put_proposal, upsert_vote}

Sound-settle {ℓ κ} :
    {E : Type ℓ} {A : Type κ} (s : Inner) (now : Timestamp) (f : A → Inner) (r : Result E A)
    → ((a : A) → r ≡ ok a → Sound s (f a) now)
    → Sound s (settle s f r) now
Sound-settle s now f (err e) h = Sound-of_Keeps s s now (Keeps-refl s)
Sound-settle s now f (ok a) h = h a refl

module _ (hash_code lower : Text → Text) (s : Inner) (now : Timestamp) where
  Sound-register : (handle : Text) → Sound s (perform hash_code lower s now (registers handle)) now
  unfolding perform register_account next_user_id put_user
  Sound-register handle =
      Sound-settle s now (λ r. r.1) (register_account s now handle)
        (λ a h. Sound-of_eq s a.1 now (ground arith))

  Sound-invite :
      (code handle slug : Text)
      → Sound s (perform hash_code lower s now (invites_with code handle slug)) now
  unfolding perform create_invite add_invite
  Sound-invite code handle slug =
      Sound-settle s now (λ r. r.1) (create_invite hash_code s now code handle slug)
        (λ a h. Sound-of_eq s a.1 now (ground arith))

  Sound-revoke :
      (handle slug code_hash : Text)
      → Sound s (perform hash_code lower s now (revokes handle slug code_hash)) now
  unfolding perform revoke_invite revoke
  Sound-revoke handle slug code_hash =
      Sound-settle s now (λ r. r) (revoke_invite s handle slug code_hash)
        (λ a h. Sound-of_eq s a now (ground arith))

  Sound-propose :
      (handle slug : Text) (kind : ProposalKind)
      → Sound s (perform hash_code lower s now (proposes handle slug kind)) now
  unfolding perform open_proposal next_proposal_id put_proposal
  Sound-propose handle slug kind =
      Sound-settle s now (λ r. r.1) (open_proposal s now handle slug kind)
        (λ a h. Sound-of_eq s a.1 now (ground arith))

  Sound-vote :
      (voter proposal : ℕ) (is_aye : Bool)
      → Sound s (perform hash_code lower s now (votes_by_id voter proposal is_aye)) now
  unfolding perform cast_vote_by_id upsert_vote
  Sound-vote voter proposal is_aye =
      Sound-settle s now (λ r. r) (cast_vote_by_id s voter proposal is_aye)
        (λ a h. Sound-of_eq s a now (ground arith))

  Sound-vote_as :
      (voter : Text) (proposal : ℕ) (is_aye : Bool)
      → Sound s (perform hash_code lower s now (votes_as voter proposal is_aye)) now
  unfolding perform cast_vote upsert_vote
  Sound-vote_as voter proposal is_aye =
      Sound-settle s now (λ r. r) (cast_vote s voter proposal is_aye)
        (λ a h. Sound-of_eq s a now (ground arith))

  still : Sound s s now
  still = Sound-of_eq s s now refl

  Sound-join :
      (handle slug : Text) → Sound s (perform hash_code lower s now (joins handle slug)) now
  unfolding perform join_server
  Sound-join handle slug = elim (Option-cases (find_by_handle s (trim handle))) [
    | inl e ↦ rw (perform, join_server, e) still
    | inr (user, eu) ↦ elim (Option-cases (find_by_slug s (trim slug))) [
      | inl e ↦ rw (perform, join_server, eu, e) still
      | inr (server, ev) ↦ elim (Bool-cases (is_some (get_membership s user.id server.id))) [
        | inl e ↦ rw (perform, join_server, eu, ev, e) still
        | inr e ↦ rw (perform, join_server, eu, ev, e) (Sound-joined s now user.id server.id e)
      ]
    ]
  ]

  Sound-accept :
      (handle code : Text) → Sound s (perform hash_code lower s now (accepts handle code)) now
  unfolding perform accept_invite
  Sound-accept handle code = elim (Option-cases (find_by_handle s (trim handle))) [
    | inl e ↦ rw (perform, accept_invite, e) still
    | inr (user, eu) ↦ elim (Option-cases (live_only (by_hash s (hash_code code)))) [
      | inl e ↦ rw (perform, accept_invite, eu, e) still
      | inr (invite, ei) ↦ elim (Option-cases (get invite.server_id s.servers)) [
        | inl e ↦ rw (perform, accept_invite, eu, ei, e) still
        | inr (server, ev) ↦ elim (Bool-cases (allows_member_invites server)) [
          | inr e ↦ rw (perform, accept_invite, eu, ei, ev, e) still
          | inl ea ↦ elim (Bool-cases (is_some (get_membership s user.id server.id))) [
            | inl e ↦ rw (perform, accept_invite, eu, ei, ev, ea, e) still
            | inr e ↦
                rw (perform, accept_invite, eu, ei, ev, ea, e)
                  (Sound-joined s now user.id server.id e)
          ]
        ]
      ]
    ]
  ]

  Sound-contribute :
      (handle slug : Text) (c : ℤ)
      → Sound s (perform hash_code lower s now (contributes handle slug c)) now
  unfolding perform set_contribution
  Sound-contribute handle slug c = elim (Option-cases (find_by_handle s (trim handle))) [
    | inl e ↦ rw (perform, set_contribution, e) still
    | inr (user, eu) ↦ elim (Option-cases (find_by_slug s (trim slug))) [
      | inl e ↦ rw (perform, set_contribution, eu, e) still
      | inr (server, ev) ↦ elim (Option-cases (get_membership s user.id server.id)) [
        | inl e ↦ rw (perform, set_contribution, eu, ev, e) still
        | inr (m, e) ↦
            rw (perform, set_contribution, eu, ev, e)
              (Sound-of_Keeps s _ now (
                Keeps-upsert s user.id server.id m (record m { contribution = c }) e refl refl refl
                  refl))
      ]
    ]
  ]

  Sound-enfranchise :
      (handle slug : Text) (user : User) (server : Server) (m : Membership)
      → Candidate s handle slug user server m
      → Sound s (enfranchise s now user server m).1 now
  unfolding enfranchise
  Sound-enfranchise handle slug user server m c = elim (enfranchise_store s now user server m) [
    | inl e ↦ subst (λ x. Sound s x now) (sym e) still
    | inr a ↦ Sound-earned s (enfranchise s now user server m).1 now handle slug user server m c a
  ]

  Sound-claim :
      (handle slug : Text)
      → Sound s (perform hash_code lower s now (claims_franchise handle slug)) now
  unfolding perform try_enfranchise
  Sound-claim handle slug = elim (Option-cases (find_by_handle s (trim handle))) [
    | inl e ↦ rw (perform, try_enfranchise, e) still
    | inr (user, eu) ↦ elim (Option-cases (find_by_slug s (trim slug))) [
      | inl e ↦ rw (perform, try_enfranchise, eu, e) still
      | inr (server, ev) ↦ elim (Option-cases (get_membership s user.id server.id)) [
        | inl e ↦ rw (perform, try_enfranchise, eu, ev, e) still
        | inr (m, em) ↦ elim (Bool-cases (is_citizen m)) [
          | inl e ↦ rw (perform, try_enfranchise, eu, ev, em, e) still
          | inr e ↦
              rw (perform, try_enfranchise, eu, ev, em, e)
                (Sound-enfranchise handle slug user server m
                  (record { is_user = eu; is_server = ev; is_member = em; not_yet = e }))
        ]
      ]
    ]
  ]

  Sound-found :
      (handle name : Text) (is_private : Bool)
      → Sound s (perform hash_code lower s now (founds handle name is_private)) now
  unfolding perform found_server_with_visibility next_server_id new_server joined
  Sound-found handle name is_private = elim (Option-cases (find_by_handle s (trim handle))) [
    | inl e ↦ rw (perform, found_server_with_visibility, e) still
    | inr (user, eu) ↦ elim (Bool-cases user.is_franchise_barred) [
      | inl e ↦ rw (perform, found_server_with_visibility, eu, e) still
      | inr eb ↦ elim (Bool-cases (is_empty (slugify name))) [
        | inl e ↦ rw (perform, found_server_with_visibility, eu, eb, e) still
        | inr en ↦ elim (Bool-cases (is_some (find_by_slug s (slugify name)))) [
          | inl e ↦ rw (perform, found_server_with_visibility, eu, eb, en, e) still
          | inr es ↦
              let id = (next_server_id s).0 in
              let server = home id name user.id now is_private in
              rw (perform, found_server_with_visibility, eu, eb, en, es)
                (Sound-founded s (next_server_id s).1 now server (founder_seat user.id id now) refl
                  refl refl refl refl refl)
        ]
      ]
    ]
  ]

-- Whatever a use-case does, it leaves each member's standing alone, or lets in a new member without
-- the vote, or makes a citizen of a stored member, not a citizen yet, who met every criterion of
-- the stored server while a slot was open, or of the founder of a server founded at that instant. The store has each membership under its own user and
-- server, and that stays so.
pub perform_paths :
    (hash_code lower : Text → Text) (s : Inner) (now : Timestamp) (a : Action)
    → Keyed s
    → Keyed (perform hash_code lower s now a)
      × ((u v : ℕ) → Way s (perform hash_code lower s now a) now u v)
unfolding perform
perform_paths h l s now (registers handle) = Sound-register h l s now handle
perform_paths h l s now (founds handle name is_private) =
    Sound-found h l s now handle name is_private
perform_paths h l s now (joins handle slug) = Sound-join h l s now handle slug
perform_paths h l s now (invites_with code handle slug) = Sound-invite h l s now code handle slug
perform_paths h l s now (accepts handle code) = Sound-accept h l s now handle code
perform_paths h l s now (revokes handle slug code_hash) =
    Sound-revoke h l s now handle slug code_hash
perform_paths h l s now (claims_franchise handle slug) = Sound-claim h l s now handle slug
perform_paths h l s now (contributes handle slug c) = Sound-contribute h l s now handle slug c
perform_paths h l s now (proposes handle slug kind) = Sound-propose h l s now handle slug kind
perform_paths h l s now (votes_as voter proposal is_aye) =
    Sound-vote_as h l s now voter proposal is_aye
perform_paths h l s now (votes_by_id voter proposal is_aye) =
    Sound-vote h l s now voter proposal is_aye
perform_paths h l s now (resolves slug) =
    Sound-of_Keeps s (perform h l s now (resolves slug)) now (Keeps-resolve_due l s now slug)
