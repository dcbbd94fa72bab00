-- ===== src/Domain/Jury/Verdicts.antt =====
-- The size of a panel and the verdict it reaches.
use democrachat.Prelude.{ℕ, ◌+◌, ◌-◌, ◌*◌, ◌≤◌, ◌<◌, ◌≡◌, ◌≢◌, ◌↔◌, ◌⊎◌, arith}
use democrachat.Prelude.Std.{u64_mod}
use democrachat.Domain.Jury.{
  JurySizing, ContentScale, jury_size, pending, guilty, not_guilty, reach_verdict,
}

-- Under every sizing law a panel is empty, or it is a strict minority of the citizens, and it is
-- not empty exactly when the server has at least three citizens.
pub jury_size_bounds :
    (s : JurySizing) (citizens : ℕ) (scale : ContentScale)
    → ((jury_size s citizens scale ≡ 0) ⊎ (2 * jury_size s citizens scale < citizens))
      × ((0 < jury_size s citizens scale) ↔ (3 ≤ citizens))
unfolding jury_size
jury_size_bounds s citizens scale = (ground arith, ground arith)

module _ (g n w : ℕ) (small : w * 2 < u64_mod) (voted : g + n ≤ w) where
  -- With no more votes than the jury's weight, and twice that weight within 64 bits: the verdict is
  -- guilty exactly when the jury is not empty and the guilty votes reach two thirds of its weight, and
  -- an acquittal exactly when two thirds can no longer be reached, were every vote that is still out
  -- to be guilty, or when the jury is empty.
  pub reach_verdict_iff :
      ((reach_verdict g n w ≡ guilty) ↔ ((0 < w) × (2 * w ≤ 3 * g)))
      × ((reach_verdict g n w ≡ not_guilty) ↔ ((w ≡ 0) ⊎ (3 * (w - n) < 2 * w)))
  unfolding reach_verdict
  reach_verdict_iff = (ground arith, ground arith)

  -- When all votes are in, the verdict is not pending.
  pub reach_verdict_settled : g + n ≡ w → reach_verdict g n w ≢ pending
  unfolding reach_verdict
  reach_verdict_settled e h = ground arith

-- A verdict is final: with twice the jury's weight within 64 bits, votes that come in later, within
-- that weight, do not change a verdict that is not pending.
pub reach_verdict_final :
    (g n g' n' w : ℕ)
    → w * 2 < u64_mod
    → g + n ≤ w
    → g' + n' ≤ w
    → g ≤ g'
    → n ≤ n'
    → reach_verdict g n w ≢ pending
    → reach_verdict g' n' w ≡ reach_verdict g n w
unfolding reach_verdict
reach_verdict_final g n g' n' w small v v' p q h = ground arith
