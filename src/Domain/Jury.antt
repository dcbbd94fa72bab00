-- ===== src/Domain/Jury.antt =====
-- crates/domain/src/jury: how large a panel is, who sits on it and what it decides.
pub mod Verdicts
pub mod Selection
use democrachat.Prelude.{
  ℕ, zero, suc, ◌+◌, ◌-◌, ◌*◌, ◌/◌, ◌^◌, ◌%◌, Bool, true, false, ◌&&◌, ◌||◌, not, Option, none,
  some, List, [], ◌∷◌, map, ltb, leb, nat_beq, if◌then◌else◌, Eq, ◌==◌, nat_eq, contains, get_elem?,
  take, retain,
}
use democrachat.Prelude.Std.{isqrt, clamp, div_ceil, u64_mod, u64_sub, u64_mul}
use democrachat.Domain.Time.{Timestamp}
use Prim.Native.Nat.{bit_xor}

pub data ContentScale : Type 0 where
  post comment : ContentScale

-- Factors and shares are in basis points.
pub data JurySizing : Type 0 where
  sqrt : (post_factor_bp comment_factor_bp : ℕ) → JurySizing
  proportion : (post_bp comment_bp : ℕ) → JurySizing
  fixed : (post comment : ℕ) → JurySizing

unfoldable pub default_sizing : JurySizing
default_sizing = sqrt 10000 5000

abbrev target_size : JurySizing → ContentScale → ℕ → ℕ
target_size (sqrt p c) post citizens = u64_mul (isqrt citizens) p / 10000
target_size (sqrt p c) comment citizens = u64_mul (isqrt citizens) c / 10000
target_size (proportion p c) post citizens = u64_mul citizens p / 10000
target_size (proportion p c) comment citizens = u64_mul citizens c / 10000
target_size (fixed p c) post citizens = p
target_size (fixed p c) comment citizens = c

-- `usize` is 64 bits wide.
unfoldable pub jury_size : JurySizing → ℕ → ContentScale → ℕ
jury_size sizing citizens scale =
    let cap = (citizens - 1) / 2 in
    if nat_beq cap 0 then 0 else clamp (target_size sizing scale citizens) 1 cap

pub data Verdict : Type 0 where
  pending guilty not_guilty : Verdict

unfoldable pub reach_verdict : ℕ → ℕ → ℕ → Verdict
reach_verdict guilty_weight not_guilty_weight jury_weight =
    if nat_beq jury_weight 0
    then not_guilty
    else let need_guilty = div_ceil (u64_mul jury_weight 2) 3 in
      if leb need_guilty guilty_weight
      then guilty
      else if ltb (u64_sub jury_weight not_guilty_weight) need_guilty
      then not_guilty
      else pending

-- The finalizer of SplitMix64, on 64-bit words.
unfoldable pub mix : ℕ → ℕ
mix x0 =
    let x1 = (x0 + 0x9E3779B97F4A7C15) % u64_mod in
    let x2 = bit_xor x1 (x1 / 2 ^ 30) * 0xBF58476D1CE4E5B9 % u64_mod in
    let x3 = bit_xor x2 (x2 / 2 ^ 27) * 0x94D049BB133111EB % u64_mod in bit_xor x3 (x3 / 2 ^ 31)

-- Candidates are ordered by hash, and by id where the hashes are equal.
unfoldable pub scored_before : ℕ × ℕ → ℕ × ℕ → Bool
scored_before (h, i) (k, j) = ltb h k || nat_beq h k && leb i j

-- `sort_by`, a stable sort, by insertion.
unfoldable pub insert_scored : ℕ × ℕ → List (ℕ × ℕ) → List (ℕ × ℕ)
unfolding scored_before
insert_scored p [] = p ∷ []
insert_scored p (q ∷ l) = if scored_before p q then p ∷ q ∷ l else q ∷ insert_scored p l

unfoldable pub sort_scored : List (ℕ × ℕ) → List (ℕ × ℕ)
sort_scored [] = []
sort_scored (p ∷ l) = insert_scored p (sort_scored l)

abbrev pub not_accused : ℕ → ℕ → Bool
not_accused accused c = not (nat_beq c accused)

abbrev pub score : ℕ → ℕ → ℕ × ℕ
score seed c = (mix (bit_xor seed c), c)

abbrev pub voter_of : ℕ × ℕ → ℕ
voter_of p = p.1

unfoldable pub select_jury : List ℕ → ℕ → ℕ → ℕ → List ℕ
unfolding sort_scored insert_scored mix
select_jury candidates accused size seed =
    let scored = map (score seed) (retain (not_accused accused) candidates) in
    map voter_of (take size (sort_scored scored))

pub record Trial : Type 0 where
  pub id : ℕ
  pub server_id : ℕ
  pub report_id : ℕ
  pub accused : ℕ
  pub jurors : List ℕ
  pub jury_weight : ℕ
  pub juror_weights : List ℕ
  pub opened_at : Timestamp
  pub closes_at : Timestamp
  pub verdict : Verdict

unfoldable pub new_trial : ℕ → ℕ → ℕ → ℕ → List ℕ → ℕ → List ℕ → Timestamp → Timestamp → Trial
new_trial id server_id report_id accused jurors jury_weight juror_weights opened_at closes_at =
    record {
      id = id;
      server_id = server_id;
      report_id = report_id;
      accused = accused;
      jurors = jurors;
      jury_weight = jury_weight;
      juror_weights = juror_weights;
      opened_at = opened_at;
      closes_at = closes_at;
      verdict = pending;
    }

unfoldable pub is_juror : Trial → ℕ → Bool
is_juror t user = contains t.jurors user

abbrev position : ℕ → List ℕ → Option ℕ
position u [] = none
position u (x ∷ xs) =
    let later = position u xs in
    if x == u then some 0 else elim later [ none ↦ none | some i ↦ some (suc i) ]

abbrev weight_at : Option ℕ → List ℕ → ℕ
weight_at none ws = 1
weight_at (some i) ws = elim (get_elem? ws i) [ none ↦ 1 | some w ↦ w ]

unfoldable pub juror_weight : Trial → ℕ → ℕ
juror_weight t user = weight_at (position user t.jurors) t.juror_weights
