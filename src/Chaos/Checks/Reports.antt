-- ===== src/Chaos/Checks/Reports.antt =====
-- Which violations `_check_worker_capacity` and `_check_lease_bijection` of
-- tools/chaos_lab/model.py can report, by what holds of the workers and the leases.
use helix_grid.Prelude.{
  String, text_eq, text_eq_iff, Bool, true, false, ◌≡◌, ◌≢◌, refl, ◌≤◌, ◌<◌, List, [], ◌∷◌, none,
  some, arith, length, leb, ltb, not, inl, inr, Option-cases,
}
use helix_grid.Prelude.Dict.{Dict, Every, Every-map, lookup}
use helix_grid.Chaos.Types.{Worker, Lease}
use helix_grid.Chaos.Checks.{
  Violation, and_then, unless, check_all, check_token, check_tokens, check_worker, check_lease,
  check_leases, tracked, mem_key,
}

-- The check does not report that code.
abbrev pub Spares : String → Violation → Type 0
Spares code v = v ≢ some code

and_then-Spares :
    (code : String) (a b : Violation) → Spares code a → Spares code b → Spares code (and_then a b)
and_then-Spares code none b p q = q
and_then-Spares code (some c) b p q = p

-- The code of another violation
unless-Spares :
    (code other : String) (b : Bool) → text_eq other code ≡ false → Spares code (unless b other)
unless-Spares code other true different e = absurd (cc)
unless-Spares code other false different e =
    let same : other ≡ code = cc in absurd (cc ((text_eq_iff other code).1 same, different))

unless-Spares-true : (code : String) (b : Bool) → b ≡ true → Spares code (unless b code)
unless-Spares-true code b holds = rw holds (λ e. absurd (cc))

check_token-Spares :
    (leases : Dict Lease) (w : Worker) (token : String)
    → Spares "WORKER_CAPACITY" (check_token leases w token)
check_token-Spares leases w token = elim (Option-cases (lookup token leases)) [
  | inl e ↦ rw (e, check_token) (unless-Spares _ "WORKER_GHOST_LEASE" false refl)
  | inr (lease, e) ↦
      rw (e, check_token) (unless-Spares _ "WORKER_LEASE_OWNER" (text_eq lease.worker_id w.id) refl)
]

check_tokens-Spares :
    (leases : Dict Lease) (w : Worker) (tokens : List String)
    → Spares "WORKER_CAPACITY" (check_tokens leases w tokens)
unfolding check_tokens
check_tokens-Spares leases w [] = λ e. absurd (cc)
check_tokens-Spares leases w (token ∷ tokens) =
    and_then-Spares _ (check_token leases w token) _ (check_token-Spares leases w token)
      (check_tokens-Spares leases w tokens)

pub check_worker-Spares :
    (leases : Dict Lease) (workers : Dict Worker)
    → Every (λ w. length w.active_tokens ≤ w.capacity) workers
    → Spares "WORKER_CAPACITY" (check_all (check_worker leases) workers)
unfolding check_all check_worker
check_worker-Spares leases [] h = λ e. absurd (cc)
check_worker-Spares leases ((id, w) ∷ workers) h =
    and_then-Spares _ _ _
      (and_then-Spares _ _ _
        (unless-Spares-true _ (leb (length w.active_tokens) w.capacity) (ground (arith, h.0)))
        (check_tokens-Spares leases w w.active_tokens))
      (check_worker-Spares leases workers h.1)

module _ (code : String) (workers : Dict Worker) where
  -- A code that is neither of the key, the task nor the worker of a lease
  check_lease-Spares :
      (seen : List (String × String)) (token : String) (l : Lease)
      → (text_eq "LEASE_KEY" code ≡ false)
        × (text_eq "OVERLAPPING_LEASE" code ≡ false)
        × (text_eq "LEASE_WORKER_INDEX" code ≡ false)
      → Spares code (unless (not l.closed) "ACTIVE_CLOSED_LEASE")
      → Spares code (unless (ltb l.acquired_ms l.expires_ms) "LEASE_DURATION")
      → Spares code (check_lease workers seen token l)
  unfolding check_lease
  check_lease-Spares seen token l (key, overlap, index) open_l lasts =
      let worker = unless (tracked token (lookup l.worker_id workers)) "LEASE_WORKER_INDEX" in
      let lasting = unless (ltb l.acquired_ms l.expires_ms) "LEASE_DURATION" in
      let active = unless (not l.closed) "ACTIVE_CLOSED_LEASE" in
      let task = unless (not (mem_key (l.workflow_id, l.task_id) seen)) "OVERLAPPING_LEASE" in
      and_then-Spares code (unless (text_eq token l.token) "LEASE_KEY") _
        (unless-Spares code "LEASE_KEY" _ key)
        (and_then-Spares code task (and_then active (and_then lasting worker))
          (unless-Spares code "OVERLAPPING_LEASE" _ overlap)
          (and_then-Spares code active (and_then lasting worker) open_l (
            and_then-Spares code lasting worker lasts
              (unless-Spares code "LEASE_WORKER_INDEX" _ index))))

  check_leases-Spares :
      (seen : List (String × String)) (leases : Dict Lease)
      → Every
          (λ l.
            (met : List (String × String)) (token : String)
            → Spares code (check_lease workers met token l))
          leases
      → Spares code (check_leases workers seen leases)
  unfolding check_leases
  check_leases-Spares seen [] h = λ e. absurd (cc)
  check_leases-Spares seen ((token, l) ∷ leases) h =
      and_then-Spares code (check_lease workers seen token l) _ (h.0 seen token)
        (check_leases-Spares ((l.workflow_id, l.task_id) ∷ seen) leases h.1)

-- What is checked of a lease by itself: that it is open and lasts
abbrev pub IsProper : Lease → Type 0
IsProper l = (l.closed ≡ false) × (l.acquired_ms < l.expires_ms)

pub check_lease_bijection-Spares :
    (workers : Dict Worker) (leases : Dict Lease)
    → Every IsProper leases
    → Spares "ACTIVE_CLOSED_LEASE" (check_leases workers [] leases)
      × Spares "LEASE_DURATION" (check_leases workers [] leases)
check_lease_bijection-Spares workers leases h = (
  check_leases-Spares "ACTIVE_CLOSED_LEASE" workers [] leases (
      Every-map leases
        (λ l proper met token.
          check_lease-Spares "ACTIVE_CLOSED_LEASE" workers met token l (refl, refl, refl)
            (unless-Spares-true _ (not l.closed) (rw (proper.0) refl))
            (unless-Spares _ "LEASE_DURATION" _ refl))
        h),
  check_leases-Spares "LEASE_DURATION" workers [] leases (
      Every-map leases
        (λ l proper met token.
          check_lease-Spares "LEASE_DURATION" workers met token l (refl, refl, refl)
            (unless-Spares _ "ACTIVE_CLOSED_LEASE" (not l.closed) refl)
            (unless-Spares-true _ (ltb l.acquired_ms l.expires_ms) (ground (arith, proper.1))))
        h),
)
