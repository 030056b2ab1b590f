-- ===== src/Chaos/Handlers/Late.antt =====
-- Calls on a lease that is no longer active, in tools/chaos_lab/model.py.
use helix_grid.Prelude.{String, ◌&◌, ◌≡◌, refl, true, none}
use helix_grid.Prelude.Int.{ℤ}
use helix_grid.Prelude.Dict.{lookup, contains}
use helix_grid.Prelude.Exec.{Result, err, Exec, ◌>>=◌}
use helix_grid.Chaos.Types.{Error, model_error}
use helix_grid.Chaos.State.{Model, count_up, reject}
use helix_grid.Chaos.Leases.{missing_lease, require_active_lease}
use helix_grid.Chaos.Handlers.{
  live_lease, start, renew, append_log, complete, refuse_closed, stale_complete, stale_renew,
  duplicate_complete,
}

-- What a refusal leaves: an error, and the state with one more rejection under the code.
abbrev pub refused : {A : Type 0} → String → String → Model → Result Error A × Model
refused code message m = (
  err (model_error (code & ": " & message)),
  record m { rejections = count_up code m.rejections },
)

-- A block whose first action raises ends there.
bind-err :
    {A B : Type 0} (a : Exec Model Error A) (f : A → Exec Model Error B) (m n : Model) {e : Error}
    → a m ≡ (err e, n)
    → (a >>= f) m ≡ (err e, n)
unfolding ◌>>=◌
bind-err a f m n h = rw h refl

missing_lease-refused :
    (token : String) (m : Model)
    → contains token m.closed_leases ≡ true
    → missing_lease token m ≡ refused "stale_lease" "lease is already closed" m
unfolding missing_lease reject ◌>>=◌
missing_lease-refused token m closed = rw closed refl

require_active_lease-refused :
    (token : String) (m : Model)
    → lookup token m.leases ≡ none
    → contains token m.closed_leases ≡ true
    → require_active_lease token m ≡ refused "stale_lease" "lease is already closed" m
unfolding require_active_lease ◌>>=◌
require_active_lease-refused token m gone closed = rw gone (missing_lease-refused token m closed)

live_lease-refused :
    (token : String) (m : Model)
    → lookup token m.leases ≡ none
    → contains token m.closed_leases ≡ true
    → live_lease token m ≡ refused "stale_lease" "lease is already closed" m
unfolding live_lease
live_lease-refused token m gone closed =
    bind-err (require_active_lease token) _ m _ (require_active_lease-refused token m gone closed)

refuse_closed-refused :
    (active_code code message token : String) (m : Model)
    → lookup token m.leases ≡ none
    → contains token m.closed_leases ≡ true
    → refuse_closed active_code code message token m ≡ refused code message m
unfolding refuse_closed reject ◌>>=◌
refuse_closed-refused active_code code message token m gone closed = rw (gone, closed) refl

-- A call on a lease that is closed and not active is refused and changes nothing but the count of
-- rejections: `start`, `renew`, `append_log` and `complete` as a stale lease, and the three calls
-- that report a late message under their codes.
pub closed_lease_refused :
    (token : String) (m : Model) (exit_code : ℤ) (error text stream : String)
    → lookup token m.leases ≡ none
    → contains token m.closed_leases ≡ true
    → (start token m ≡ refused "stale_lease" "lease is already closed" m)
      × (renew token m ≡ refused "stale_lease" "lease is already closed" m)
      × (append_log token text stream m ≡ refused "stale_lease" "lease is already closed" m)
      × (complete token exit_code error m ≡ refused "stale_lease" "lease is already closed" m)
      × (stale_complete token m ≡ refused "stale_lease" "completion for closed lease rejected" m)
      × (stale_renew token m ≡ refused "stale_lease" "renewal for closed lease rejected" m)
      × (duplicate_complete token m ≡ refused "duplicate_completion" "completion already applied" m)
unfolding start renew append_log complete stale_complete stale_renew duplicate_complete
closed_lease_refused token m exit_code error text stream gone closed =
    let late = live_lease-refused token m gone closed in
    (
      bind-err (live_lease token) _ m _ late,
      bind-err (live_lease token) _ m _ late,
      bind-err (live_lease token) _ m _ late,
      bind-err (live_lease token) _ m _ late,
      refuse_closed-refused "not_stale" "stale_lease" _ token m gone closed,
      refuse_closed-refused "not_stale" "stale_lease" _ token m gone closed,
      refuse_closed-refused "not_completed" "duplicate_completion" _ token m gone closed,
    )
