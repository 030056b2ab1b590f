-- ===== src/Chaos/Policy/Closed.antt =====
-- The retry delay of tools/chaos_lab/model.py in closed form, and its bounds.
use native.Mathlib.Nat.{pow-suc}
use helix_grid.Prelude.{ℕ, zero, suc, ◌-◌, ◌*◌, ◌^◌, ◌≤◌, min, ◌≡◌, arith}
use helix_grid.Prelude.Int.{pos, max_ℕ}
use helix_grid.Chaos.Types.{RetryPolicy}
use helix_grid.Chaos.Policy.{double_up, delay_for_attempt}

pow-pos : (k : ℕ) → 1 ≤ 2 ^ k
pow-pos zero = omega arith
pow-pos (suc k) = omega (arith, pow-pos k, pow-suc 2 k)

le-mul : (d p : ℕ) → 1 ≤ p → d ≤ d * p
le-mul d p h = grind arith

mul-two_pow : (d k : ℕ) → d * 2 ^ suc k ≡ d * 2 * 2 ^ k
mul-two_pow d k = rw (pow-suc 2 k) (omega arith)

read_pos : (n : ℕ) → max_ℕ 0 (pos n) ≡ n
read_pos n = ground arith

double_up-eq :
    (maximum rounds delay : ℕ)
    → delay ≤ maximum
    → double_up maximum rounds delay ≡ min maximum (delay * 2 ^ rounds)
unfolding double_up
double_up-eq maximum zero delay h = omega arith
double_up-eq maximum (suc rounds) delay h = rw (mul-two_pow delay rounds) (
    ground (
      arith,
      le-mul (delay * 2) (2 ^ rounds) (pow-pos rounds),
      double_up-eq maximum rounds (min maximum (delay * 2)),
    ))

pow-le : (j k : ℕ) → j ≤ k → 2 ^ j ≤ 2 ^ k
pow-le j zero h = let e : j ≡ 0 = omega arith in rw e (omega arith)
pow-le j (suc k) h = grind (arith, pow-le j k, pow-suc 2 k)

mul_mono : (d a b : ℕ) → a ≤ b → d * a ≤ d * b
mul_mono d a b h = grind arith

base-le :
    (p : RetryPolicy) → max_ℕ 1 p.base_delay_ms ≤ max_ℕ (max_ℕ 1 p.base_delay_ms) p.max_delay_ms
base-le p = ground arith

-- The delay before retry `attempt` is the base delay doubled `attempt - 1` times and capped by the
-- maximal delay, both as `normalized` makes them: the loop with its early exit computes a power.
pub delay_for_attempt-eq :
    (p : RetryPolicy) (attempt : ℕ)
    → let base = max_ℕ 1 p.base_delay_ms in
      delay_for_attempt p attempt ≡ min (max_ℕ base p.max_delay_ms) (base * 2 ^ (attempt - 1))
unfolding delay_for_attempt
delay_for_attempt-eq p attempt =
    simp read_pos (double_up-eq _ (attempt - 1) (max_ℕ 1 p.base_delay_ms) (base-le p))

-- Every delay is at least the normalized base delay and at most the normalized maximal delay, and
-- a later attempt never waits for less.
pub delay_for_attempt_bounds :
    (p : RetryPolicy) (attempt later : ℕ)
    → attempt ≤ later
    → let base = max_ℕ 1 p.base_delay_ms in
      (base ≤ delay_for_attempt p attempt)
      × (delay_for_attempt p later ≤ max_ℕ base p.max_delay_ms)
      × (delay_for_attempt p attempt ≤ delay_for_attempt p later)
delay_for_attempt_bounds p attempt later h =
    let base = max_ℕ 1 p.base_delay_ms in
    let early = delay_for_attempt-eq p attempt in
    let late = delay_for_attempt-eq p later in
    let grown = le-mul base (2 ^ (attempt - 1)) (pow-pos (attempt - 1)) in
    let wider =
      mul_mono base (2 ^ (attempt - 1)) (2 ^ (later - 1))
        (pow-le (attempt - 1) (later - 1) (omega arith)) in
    let room = base-le p in (omega arith, omega arith, omega arith)
