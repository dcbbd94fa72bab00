-- ===== src/Domain/Governance/Bars.antt =====
-- What it takes to pass a proposal.
use democrachat.Prelude.{refl, ℕ, ◌+◌, ◌*◌, ◌≤◌, ◌<◌, ◌≡◌, ◌↔◌, false, arith}
use democrachat.Prelude.Int.{pos, ◌+ℤ◌}
use democrachat.Prelude.Std.{u64_mod}
use democrachat.Domain.Time.{Timestamp, plus_days}
use democrachat.Domain.Server.{Phase, seed, chartering, sovereign}
use democrachat.Domain.Governance.{
  DecisionClass, moderation, rule_change, ban_or_recall, constitutional, decision_class,
  threshold_for, Tally, decide, passed, Proposal, close, status_of, is_open,
}

-- The published bars, in whole votes: a simple majority with a tenth of the citizens voting; more
-- than 60% with 30% voting; for the constitution more than 75% with 60% while chartering, more
-- than 66.66% with one half when sovereign, and no way at all in the seed phase.
abbrev pub Carries : DecisionClass → Phase → Tally → ℕ → Type 0
Carries moderation _ t n = (0 < n) × (n ≤ 10 * (t.aye + t.nay)) × (t.nay < t.aye)
Carries rule_change _ t n = (0 < n) × (3 * n ≤ 10 * (t.aye + t.nay)) × (3 * t.nay < 2 * t.aye)
Carries ban_or_recall _ t n = (0 < n) × (3 * n ≤ 10 * (t.aye + t.nay)) × (3 * t.nay < 2 * t.aye)
Carries constitutional seed t n = ⊥
Carries constitutional chartering t n =
    (0 < n) × (3 * n ≤ 5 * (t.aye + t.nay)) × (3 * t.nay < t.aye)
Carries constitutional sovereign t n =
    (0 < n) × (n ≤ 2 * (t.aye + t.nay)) × (6666 * t.nay < 3334 * t.aye)

-- A constitutional change waits seven days of 86,400 seconds, any other takes effect at once.
abbrev pub effect_time : DecisionClass → Timestamp → Timestamp
effect_time constitutional closed_at = closed_at +ℤ pos 604800
effect_time _ closed_at = closed_at

module _ (t : Tally) (n : ℕ) (at : Timestamp) (fits : t.aye + t.nay < u64_mod) where
  -- A threshold that `decide` applies is the published bar.
  status_of-Carries :
      (c : DecisionClass) (ph : Phase) (e : Timestamp)
      → (status_of c (threshold_for c ph) t n at ≡ passed e)
        ↔ (Carries c ph t n × (e ≡ effect_time c at))
  unfolding decide threshold_for plus_days
  status_of-Carries moderation ph e = ground arith
  status_of-Carries rule_change ph e = ground arith
  status_of-Carries ban_or_recall ph e = ground arith
  status_of-Carries constitutional seed e = ground arith
  status_of-Carries constitutional chartering e = ground arith
  status_of-Carries constitutional sovereign e = ground arith

-- With a vote total that fits 64 bits, closing a proposal passes it exactly when the tally carries
-- its class in the phase, and then it takes effect at the close, or seven days later for a
-- constitutional change.
pub close_passed :
    (p : Proposal) (t : Tally) (n : ℕ) (ph : Phase) (at e : Timestamp)
    → t.aye + t.nay < u64_mod
    → ((close p t n ph at).status ≡ passed e)
      ↔ (Carries (decision_class p.kind) ph t n × (e ≡ effect_time (decision_class p.kind) at))
unfolding close
close_passed p t n ph at e fits = status_of-Carries t n at fits (decision_class p.kind) ph e

-- A closed proposal is no longer open, and closing changes nothing of it but the status.
pub close_settles :
    (p : Proposal) (t : Tally) (n : ℕ) (ph : Phase) (at : Timestamp)
    → (is_open (close p t n ph at).status ≡ false)
      × (record (close p t n ph at) { status = p.status } ≡ p)
unfolding close
close_settles p t n ph at = (ground arith, refl)

Carries-mono :
    (c : DecisionClass) (ph : Phase) (t u : Tally) (n : ℕ)
    → t.aye ≤ u.aye
    → u.nay ≤ t.nay
    → t.aye + t.nay ≤ u.aye + u.nay
    → Carries c ph t n
    → Carries c ph u n
Carries-mono moderation ph t u n p q r h = omega arith
Carries-mono rule_change ph t u n p q r h = omega arith
Carries-mono ban_or_recall ph t u n p q r h = omega arith
Carries-mono constitutional seed t u n p q r h = h
Carries-mono constitutional chartering t u n p q r h = omega arith
Carries-mono constitutional sovereign t u n p q r h = omega arith

-- More ayes, no more nays and no fewer votes never turn a passed proposal into a failed one, as
-- long as the totals fit 64 bits.
pub close_mono :
    (p : Proposal) (t u : Tally) (n : ℕ) (ph : Phase) (at e : Timestamp)
    → t.aye + t.nay < u64_mod
    → u.aye + u.nay < u64_mod
    → t.aye ≤ u.aye
    → u.nay ≤ t.nay
    → t.aye + t.nay ≤ u.aye + u.nay
    → (close p t n ph at).status ≡ passed e
    → (close p u n ph at).status ≡ passed e
close_mono p t u n ph at e f g a b c h =
    let (carried, when) = (close_passed p t n ph at e f).0 h in
    (close_passed p u n ph at e g).1
      (Carries-mono (decision_class p.kind) ph t u n a b c carried, when)

Carries-stricter :
    (c : DecisionClass) (t : Tally) (n : ℕ) → Carries c chartering t n → Carries c sovereign t n
Carries-stricter moderation t n h = h
Carries-stricter rule_change t n h = h
Carries-stricter ban_or_recall t n h = h
Carries-stricter constitutional t n h = omega arith

-- The chartering phase is the stricter one: with a vote total that fits 64 bits, what passes there
-- passes in the sovereign phase too, with the same effect time.
pub close_stricter :
    (p : Proposal) (t : Tally) (n : ℕ) (at e : Timestamp)
    → t.aye + t.nay < u64_mod
    → (close p t n chartering at).status ≡ passed e
    → (close p t n sovereign at).status ≡ passed e
close_stricter p t n at e f h =
    let (carried, when) = (close_passed p t n chartering at e f).0 h in
    (close_passed p t n sovereign at e f).1
      (Carries-stricter (decision_class p.kind) t n carried, when)
