-- ===== src/Chaos/Policy.antt =====
-- `RetryPolicy.normalized` and `RetryPolicy.delay_for_attempt` of tools/chaos_lab/model.py.
pub mod Closed
use helix_grid.Prelude.{ℕ, zero, suc, ◌-◌, ◌*◌, min, ◌==◌, if◌then◌else◌}
use helix_grid.Prelude.Int.{pos, max_ℕ}
use helix_grid.Chaos.Types.{RetryPolicy}

unfoldable pub normalized : RetryPolicy → RetryPolicy
normalized p =
    let base = max_ℕ 1 p.base_delay_ms in
    record {
      max_attempts = pos (min 100 (max_ℕ 1 p.max_attempts));
      base_delay_ms = pos base;
      max_delay_ms = pos (max_ℕ base p.max_delay_ms);
    }

-- The `for` loop over `range(exponent)`, with its `break`.
unfoldable pub double_up : ℕ → ℕ → ℕ → ℕ
double_up maximum zero delay = delay
double_up maximum (suc rounds) delay =
    let next = min maximum (delay * 2) in
    let rest = double_up maximum rounds next in if next == maximum then next else rest

-- The fields of a normalized policy are positive, so `max_ℕ 0` only reads them.
unfoldable pub delay_for_attempt : RetryPolicy → ℕ → ℕ
unfolding normalized double_up
delay_for_attempt p attempt =
    let policy = normalized p in
    double_up (max_ℕ 0 policy.max_delay_ms) (attempt - 1) (max_ℕ 0 policy.base_delay_ms)
