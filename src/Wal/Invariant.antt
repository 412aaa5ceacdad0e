-- ===== src/Wal/Invariant.antt =====
-- budget.go: what holds of the controller between calls.
use awesome_sftp_cli.Base.{
  ℕ, ◌≤◌, String, ◌≡◌, refl, ◌≢◌, ◌⊎◌, Bool, true, some, List, [], ◌∷◌, arith, Result, ok, err,
  string_eq,
}
use awesome_sftp_cli.Base.Map.{lookup}
use awesome_sftp_cli.Base.Map.Keys.{Unique, insert-Unique, delete-Unique}
use awesome_sftp_cli.Base.Map.Totals.{total, total-insert, total-delete}
use awesome_sftp_cli.Wal.{
  Controller, Error, transaction_growth_limit_bytes, absolute_ceiling_bytes, new_controller,
  reserve, release, observe_write, observe_boundary, observe_checkpoint,
}
use awesome_sftp_cli.Wal.Reservations.{
  Granted, with_reservation, without_reservation, reserve-Granted, release-ok,
}

abbrev pub reserved : List (String × ℕ) → ℕ
reserved = total (λ n. n)

pub record IsSound (c : Controller) : Type 0 where
  pub summed : c.reserved_bytes ≡ reserved c.reservations
  pub unique : Unique c.reservations
  pub within : c.reserved_bytes ≤ transaction_growth_limit_bytes
  pub ceiling : (c.wal_bytes ≤ absolute_ceiling_bytes) ⊎ (c.read_only ≡ true)

new_controller-IsSound : (n : ℕ) (c : Controller) → new_controller n ≡ ok c → IsSound c
unfolding new_controller
new_controller-IsSound n c h = ground arith

with_reservation-IsSound :
    (c : Controller) (w : String) (n : ℕ)
    → IsSound c
    → Granted c w n
    → IsSound (with_reservation c w n)
with_reservation-IsSound c w n s g = record {
  summed = omega (arith, s.summed, total-insert (λ (k : ℕ). k) w n c.reservations g.new);
  unique = insert-Unique w n c.reservations s.unique;
  within = g.within;
  ceiling = s.ceiling;
}

reserve-IsSound :
    (c c' : Controller) (w : String) (n : ℕ) → IsSound c → reserve c w n ≡ ok c' → IsSound c'
reserve-IsSound c c' w n s h =
    let (g, e) = reserve-Granted c c' w n h in rw e (with_reservation-IsSound c w n s g)

without_reservation-IsSound :
    (c : Controller) (w : String) (n : ℕ)
    → IsSound c
    → lookup w c.reservations ≡ some n
    → IsSound (without_reservation c w n)
without_reservation-IsSound c w n s found =
    let freed = total-delete (λ (k : ℕ). k) w n c.reservations s.unique found in
    record {
      summed = omega (arith, s.summed, s.within, freed);
      unique = delete-Unique w c.reservations s.unique;
      within = omega (arith, s.summed, s.within, freed);
      ceiling = s.ceiling;
    }

release-IsSound : (c c' : Controller) (w : String) → IsSound c → release c w ≡ ok c' → IsSound c'
release-IsSound c c' w s h =
    let (n, found, e) = release-ok c c' w h in rw e (without_reservation-IsSound c w n s found)

-- The calls on a controller, and the state after each: an error leaves it as it is, but for the
-- observations, which record what happened.
pub data Call : Type 0 where
  reserves : String → ℕ → Call
  releases : String → Call
  writes boundaries : ℕ → ℕ → ℕ → Bool → Call
  checkpoints : ℕ → Call

abbrev pub after : Controller → Result Error Controller → Controller
after c (ok c') = c'
after c (err e) = c

unfoldable pub step : Controller → Call → Controller
step c (reserves w n) = after c (reserve c w n)
step c (releases w) = after c (release c w)
step c (writes b a d k) = (observe_write c b a d k).0
step c (boundaries b a d k) = (observe_boundary c b a d k).0
step c (checkpoints n) = (observe_checkpoint c n).0

unfoldable pub run : Controller → List Call → Controller
run c [] = c
run c (x ∷ xs) = run (step c x) xs

after-IsSound :
    (c : Controller) (r : Result Error Controller)
    → IsSound c
    → ((c' : Controller) → r ≡ ok c' → IsSound c')
    → IsSound (after c r)
after-IsSound c (ok c') s f = f c' refl
after-IsSound c (err e) s f = s

step-IsSound : (c : Controller) (x : Call) → IsSound c → IsSound (step c x)
unfolding step observe_write observe_boundary observe_checkpoint
step-IsSound c (reserves w n) s = after-IsSound c _ s (λ c' h. reserve-IsSound c c' w n s h)
step-IsSound c (releases w) s = after-IsSound c _ s (λ c' h. release-IsSound c c' w s h)
step-IsSound c (writes b a d k) s = ground arith
step-IsSound c (boundaries b a d k) s = ground arith
step-IsSound c (checkpoints n) s = ground arith

run-IsSound : (c : Controller) (xs : List Call) → IsSound c → IsSound (run c xs)
unfolding run
run-IsSound c [] s = s
run-IsSound c (x ∷ xs) s = run-IsSound (step c x) xs (step-IsSound c x s)

-- After any calls on a new controller the reserved bytes are the sum of the reservations, one at
-- most for each worker, and within one transaction's growth; and either the log is within its
-- ceiling or the controller is read-only.
pub run-new_controller-IsSound :
    (n : ℕ) (c : Controller) (xs : List Call) → new_controller n ≡ ok c → IsSound (run c xs)
run-new_controller-IsSound n c xs h = run-IsSound c xs (new_controller-IsSound n c h)

read_only-step : (c : Controller) (x : Call) → c.read_only ≡ true → (step c x).read_only ≡ true
unfolding step reserve release observe_write observe_boundary observe_checkpoint
read_only-step c (reserves w n) h = ground arith
read_only-step c (releases w) h = ground arith
read_only-step c (writes b a d k) h = ground arith
read_only-step c (boundaries b a d k) h = ground arith
read_only-step c (checkpoints n) h = ground arith

-- A controller that has become read-only stays so whatever is called, and grants no reservation.
pub read_only_sticks :
    (c : Controller) (xs : List Call)
    → c.read_only ≡ true
    → ((run c xs).read_only ≡ true)
      × ((w : String) (n : ℕ) (c' : Controller) → reserve (run c xs) w n ≢ ok c')
unfolding run
read_only_sticks c [] h = (h, λ w n c' e. unfold reserve in ground arith)
read_only_sticks c (x ∷ xs) h = read_only_sticks (step c x) xs (read_only-step c x h)
