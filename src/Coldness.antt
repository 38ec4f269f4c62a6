-- ===== src/Coldness.antt =====
-- crates/polis-core/src/coldness.rs: whether a branch may be collapsed without a person. Whether an
-- age is at least 0.34 of a span, a comparison of two f64, is a parameter.
pub mod Rollup
use polis_memory.Prelude.{ℕ, Bool, false, Option, none, some, if◌then◌else◌, ltb}
use polis_memory.Prelude.Int.{ℤ, ◌-ℤ◌, pos_part}

pub record BranchStat : Type 0 where
  pub last_ts : Option ℤ
  pub item_count : ℕ
  pub pinned : Bool

pub record LakeEnvelope : Type 0 where
  pub oldest : ℤ
  pub newest : ℤ

unfoldable pub span : LakeEnvelope → ℕ
span env = pos_part (env.newest -ℤ env.oldest)

module _ (is_cold_age : ℕ → ℕ → Bool) where
  unfoldable pub auto_collapse_safe : BranchStat → LakeEnvelope → Bool
  unfolding span
  auto_collapse_safe stat env = if stat.pinned then false else elim stat.last_ts [
    | none ↦ false
    | some last ↦
        if ltb 0 (span env) then is_cold_age (pos_part (env.newest -ℤ last)) (span env) else false
  ]
