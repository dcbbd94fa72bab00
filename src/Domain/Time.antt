-- ===== src/Domain/Time.antt =====
-- crates/domain/src/time.rs: a point in time, as whole seconds since the epoch.
-- The `i64` operations are those of the integers: no overflow is modelled.
use democrachat.Prelude.{ℕ, ◌*◌, arith}
use democrachat.Prelude.Int.{ℤ, pos, ◌+ℤ◌, ◌-ℤ◌, ◌≤ℤ◌, div_euclid, le-div_euclid, int_laws}

abbrev pub Timestamp : Type 0
Timestamp = ℤ

abbrev pub seconds_per_day : ℕ
seconds_per_day = 86400

unfoldable pub days_since : Timestamp → Timestamp → ℤ
days_since self earlier = div_euclid (self -ℤ earlier) seconds_per_day

-- The only calls add a constant number of days.
unfoldable pub plus_days : Timestamp → ℕ → Timestamp
plus_days self days = self +ℤ pos (days * seconds_per_day)

-- Two instants that are `k` whole days apart are `k` times a day's seconds apart.
pub le-days_since :
    (k : ℕ) (now then' : Timestamp)
    → pos k ≤ℤ days_since now then'
    → then' +ℤ pos (k * seconds_per_day) ≤ℤ now
unfolding days_since
le-days_since k now then' h = omega (int_laws, le-div_euclid k 86400 (now -ℤ then') (omega arith) h)
