-- ===== src/Sched/Budget.antt =====
-- src/suiban/sched/budget.py: the analytic VRAM priors and the measured overrides.
-- GiB constants are in hundredths, KV bytes per element in sixteenths: the source's values exactly.
mod Models
pub mod Rounding
pub mod Provider
pub use Models.{
  Model, bonsai_27b, bonsai_8b, bonsai_4b, bonsai_1_7b, Family, ternary, one_bit, KvType, f16, q8_0,
  tq4_0, tq3_0, Quant, q2_0, q1_0,
}
unfoldable pub use Models.{
  weights_gib, buffer_prior_gib, max_ctx, same_model, same_family, quant_name,
}
