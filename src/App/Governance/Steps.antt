-- ===== src/App/Governance/Steps.antt =====
-- The resolution of a server's ballots as steps: what is closed, and what takes effect.
use democrachat.App.Governance.{
  apply_due, apply_effect, apply_kind, close_due, matured, resolve_each, resolve_one,
  weighted_tally,
}
use democrachat.Domain.Governance.{Proposal, close, is_open}
use democrachat.Domain.Server.{Phase, Server}
use democrachat.Domain.Time.{Timestamp}
use democrachat.Prelude.{
  Bool-cases, List, [], arith, false, inl, inr, list_eq, nat_eq, not, pair_eq, refl, subst, sym,
  triple_eq, true, ℕ, ◌&&◌, ◌∷◌, ◌≡◌,
}
use democrachat.Prelude.Int.{leb_ℤ}
use democrachat.Prelude.Std.{Text}
use democrachat.Store.{Inner}
use democrachat.Store.Votes.{put_proposal}

module _ (lower : Text → Text) (server : Server) (phase : Phase) (citizens : ℕ)
    (now : Timestamp) where
  -- A ballot is closed by its tally when it is open and its closing time has come, and else kept.
  pub data Closes (s : Inner) (p : Proposal) : Proposal → Inner → Type 0 where
    is_kept : (is_open p.status && leb_ℤ p.closes_at now) ≡ false → Closes s p p s
    is_closed :
        is_open p.status ≡ true
        → leb_ℤ p.closes_at now ≡ true
        → Closes s p
            (close p (weighted_tally s server p now) citizens phase now)
            (put_proposal s (close p (weighted_tally s server p now) citizens phase now))

  -- A passed ballot whose time has come, and that has had no effect, has its effect and is marked;
  -- any other is left.
  pub data Applies (s : Inner) (p : Proposal) : Inner → Type 0 where
    is_left : (matured p.status now && not p.is_applied) ≡ false → Applies s p s
    is_put_in_force :
        matured p.status now ≡ true
        → p.is_applied ≡ false
        → Applies s p (
            put_proposal
              (apply_kind lower s p.server_id now p.kind)
              (record p { is_applied = true }))

  -- The ballots one after the other: each is closed if due, and then has its effect if due.
  pub data Resolves : Inner → List Proposal → Inner → Type 0 where
    no_more : {s : Inner} → Resolves s [] s
    and_next :
        {s t u v : Inner} {p q : Proposal} {ps : List Proposal}
        → Closes s p q t
        → Applies t q u
        → Resolves u ps v
        → Resolves s (p ∷ ps) v

  Closes-close_due :
      (s : Inner) (p : Proposal)
      → Closes s p
          (close_due s server phase citizens now p).0
          (close_due s server phase citizens now p).1
  unfolding close_due
  Closes-close_due s p = elim (Bool-cases (is_open p.status && leb_ℤ p.closes_at now)) [
    | inr e ↦
        let same : close_due s server phase citizens now p ≡ (p, s) = rw (close_due, e) refl in
        subst (λ (x : Proposal × Inner). Closes s p x.0 x.1) (sym same) (is_kept e)
    | inl e ↦
        let q = close p (weighted_tally s server p now) citizens phase now in
        let same : close_due s server phase citizens now p ≡ (q, put_proposal s q) =
          rw (close_due, e) refl in
        subst (λ (x : Proposal × Inner). Closes s p x.0 x.1) (sym same)
          (is_closed (ground arith) (ground arith))
  ]

  Applies-apply_due : (s : Inner) (p : Proposal) → Applies s p (apply_due lower s now p)
  unfolding apply_due apply_effect
  Applies-apply_due s p = elim (Bool-cases (matured p.status now && not p.is_applied)) [
    | inr e ↦
        let same : apply_due lower s now p ≡ s = rw (apply_due, e) refl in
        subst (Applies s p) (sym same) (is_left e)
    | inl e ↦
        let t =
          put_proposal (apply_kind lower s p.server_id now p.kind)
            (record p { is_applied = true }) in
        let same : apply_due lower s now p ≡ t = rw (apply_due, e) refl in
        subst (Applies s p) (sym same) (is_put_in_force (ground arith) (ground arith))
  ]

  pub Resolves-resolve_each :
      (s : Inner) (ps : List Proposal)
      → Resolves s ps (resolve_each lower server phase citizens now s ps)
  unfolding resolve_each resolve_one
  Resolves-resolve_each s [] = no_more
  Resolves-resolve_each s (p ∷ ps) =
      let x = close_due s server phase citizens now p in
      and_next (Closes-close_due s p) (Applies-apply_due x.1 x.0)
        (Resolves-resolve_each (apply_due lower x.1 now x.0) ps)
