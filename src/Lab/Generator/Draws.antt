-- ===== src/Lab/Generator/Draws.antt =====
-- Python's `random.Random` as tools/chaos_lab/generator.py calls it, and `GeneratorConfig`.
use helix_grid.Prelude.{
  ℕ, zero, suc, ◌≤◌, ◌<◌, ◌≡◌, String, ◌&◌, mem_text, ltb, leb, Bool, true, false, List, [], ◌∷◌,
  if◌then◌else◌, length,
}
use helix_grid.Prelude.Int.{ℤ}
use helix_grid.Prelude.Exec.{Result, ok, err, Exec}
use helix_grid.Chaos.Types.{Error, value_error}
use helix_grid.Chaos.Dag.Members.{IsDistinct}

-- The methods, on the state of the generator: `random`, `randint` on a range that is not empty, the
-- index that `choice` takes from a sequence of some length, and `sample` of texts
pub record Random : Type 1 where
  pub Rng : Type 0
  pub seeded : ℤ → Rng
  pub random : Rng → ℕ × Rng
  pub randint : ℕ → ℕ → Rng → ℕ × Rng
  pub index : ℕ → Rng → ℕ × Rng
  pub sample : List String → ℕ → Rng → List String × Rng

-- What Python documents of them: the bounds, and that a sample takes members, none twice
pub record IsRandom (r : Random) : Type 0 where
  pub randint_bounds :
      (lo hi : ℕ) (g : r.Rng)
      → lo ≤ hi
      → (lo ≤ (r.randint lo hi g).0) × ((r.randint lo hi g).0 ≤ hi)
  pub index_bound : (n : ℕ) (g : r.Rng) → 0 < n → (r.index n g).0 < n
  pub sample_member :
      (xs : List String) (k : ℕ) (g : r.Rng) (x : String)
      → mem_text x (r.sample xs k g).0 ≡ true
      → mem_text x xs ≡ true
  pub sample_distinct :
      (xs : List String) (k : ℕ) (g : r.Rng) → IsDistinct xs → IsDistinct (r.sample xs k g).0

pub record GeneratorConfig : Type 0 where
  pub min_tasks : ℕ
  pub max_tasks : ℕ
  pub max_dependencies : ℕ
  pub max_workers : ℕ
  pub max_capacity : ℕ
  pub label_probability : ℕ
  pub retry_probability : ℕ
  pub failure_probability : ℕ
  pub timeout_probability : ℕ
  pub stale_operation_probability : ℕ
  pub cancel_probability : ℕ
  pub worker_drop_probability : ℕ
  pub log_probability : ℕ
  pub heartbeat_probability : ℕ
  pub renew_probability : ℕ
  pub max_time_step_ms : ℕ

abbrev pub one : ℕ
one = 9_007_199_254_740_992

abbrev pub default_config : GeneratorConfig
default_config = record {
  min_tasks = 3;
  max_tasks = 24;
  max_dependencies = 4;
  max_workers = 6;
  max_capacity = 4;
  label_probability = 1_981_583_836_043_019;
  retry_probability = 3_152_519_739_159_347;
  failure_probability = 1_621_295_865_853_379;
  timeout_probability = 1_080_863_910_568_919;
  stale_operation_probability = 720_575_940_379_280;
  cancel_probability = 270_215_977_642_230;
  worker_drop_probability = 360_287_970_189_640;
  log_probability = 2_251_799_813_685_248;
  heartbeat_probability = 1_351_079_888_211_149;
  renew_probability = 1_801_439_850_948_199;
  max_time_step_ms = 8_000;
}

abbrev sensible : Bool → String → Result Error Unit → Result Error Unit
sensible true message rest = rest
sensible false message rest = err (value_error message)

abbrev checked_probability : String → ℕ → Result Error Unit → Result Error Unit
checked_probability name p rest = sensible (leb p one) (name & " must be in [0,1]") rest

-- `GeneratorConfig.__post_init__`
unfoldable pub config_check : GeneratorConfig → Result Error Unit
config_check c = sensible (leb 1 c.min_tasks) "min_tasks must be positive" (
    sensible (leb c.min_tasks c.max_tasks) "max_tasks must be >= min_tasks" (
      sensible (leb 1 c.max_workers) "max_workers must be positive" (
        sensible (leb 1 c.max_capacity) "max_capacity must be positive" (
          checked_probability "label_probability" c.label_probability (
            checked_probability "retry_probability" c.retry_probability (
              checked_probability "failure_probability" c.failure_probability (
                checked_probability "timeout_probability" c.timeout_probability (
                  checked_probability "stale_operation_probability" c.stale_operation_probability (
                    checked_probability "cancel_probability" c.cancel_probability (
                      checked_probability "worker_drop_probability" c.worker_drop_probability (
                        checked_probability "log_probability" c.log_probability (
                          checked_probability "heartbeat_probability" c.heartbeat_probability (
                            checked_probability "renew_probability" c.renew_probability (
                              sensible (leb 1 c.max_time_step_ms)
                                "max_time_step_ms must be positive" (ok tt)))))))))))))))

module _ (r : Random) where
  open r use {Rng, random, randint, index, sample}

  abbrev pub Draw : Type 0 → Type 0
  Draw A = Exec Rng Error A

  abbrev pub drawn : {A : Type 0} → A × Rng → Result Error A × Rng
  drawn (a, g) = (ok a, g)

  -- `rng.random() < p`
  unfoldable pub chance : ℕ → Draw Bool
  chance p g = (ok (ltb (random g).0 p), (random g).1)

  -- `rng.randint(lo, hi)`
  unfoldable pub between : ℕ → ℕ → Draw ℕ
  between lo hi g =
      if leb lo hi then drawn (randint lo hi g) else (err (value_error "empty range"), g)

  abbrev nth : {A : Type 0} → A → List A → ℕ → A
  nth x [] i = x
  nth x (y ∷ ys) zero = x
  nth x (y ∷ ys) (suc i) = nth y ys i

  -- `rng.choice` on a sequence that is not empty, given by its first item and the others
  unfoldable pub choice : {A : Type 0} → A → List A → Draw A
  choice x xs g = let (i, g') = index (suc (length xs)) g in (ok (nth x xs i), g')

  -- `rng.sample(xs, k)`
  unfoldable pub sampled : List String → ℕ → Draw (List String)
  sampled xs k g =
      if leb k (length xs)
      then drawn (sample xs k g)
      else (err (value_error "Sample larger than population or is negative"), g)
