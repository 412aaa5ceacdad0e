-- ===== src/Wal/Tests.antt =====
-- budget.go at concrete controllers.
use awesome_sftp_cli.Base.{
  ℕ, ◌+◌, ◌*◌, ◌≤◌, ◌<◌, String, ◌≡◌, refl, ◌≢◌, ◌↔◌, inl, true, false, none, List, [], ◌∷◌, arith,
  length, All, ok, err, string_eq,
}
use awesome_sftp_cli.Base.Map.{lookup}
use awesome_sftp_cli.Wal.{
  Controller, hard_stop_bytes, max_operations_per_transaction, transaction_growth_limit_bytes,
  no_reservation, project, add, new_controller, reserve, release, transaction_budget,
  preflight_transaction, pressure,
}
use awesome_sftp_cli.Wal.Invariant.{
  IsSound, reserves, releases, writes, checkpoints, run, run-new_controller-IsSound,
  read_only_sticks,
}
use awesome_sftp_cli.Wal.Reservations.{
  Granted, with_reservation, reserve_iff, release-reserve, release_twice,
}
use awesome_sftp_cli.Wal.Transactions.{
  IsBudget, sum, declared, grown, observe_all, transaction_budget_iff, preflight_protects,
  pressure_lem,
}

abbrev fresh : Controller
fresh = record { wal_bytes = 1000; reserved_bytes = 0; reservations = []; read_only = false }

fresh_lem : new_controller 1000 ≡ ok fresh
unfolding new_controller
fresh_lem = refl

fresh-IsSound : IsSound fresh
fresh-IsSound = record {
  summed = refl;
  unique = tt;
  within = omega arith;
  ceiling = inl (omega arith);
}

run-new_controller-IsSound_example :
    IsSound
      (run fresh (reserves "a" 10 ∷ writes 1000 1200 300 true ∷ releases "a" ∷ checkpoints 0 ∷ []))
run-new_controller-IsSound_example =
    run-new_controller-IsSound 1000 fresh
      (reserves "a" 10 ∷ writes 1000 1200 300 true ∷ releases "a" ∷ checkpoints 0 ∷ []) fresh_lem

read_only_sticks_example :
    ((run (record fresh { read_only = true }) (checkpoints 0 ∷ [])).read_only ≡ true)
    × ((w : String) (n : ℕ) (c' : Controller)
        → reserve (run (record fresh { read_only = true }) (checkpoints 0 ∷ [])) w n ≢ ok c')
read_only_sticks_example =
    read_only_sticks (record fresh { read_only = true }) (checkpoints 0 ∷ []) refl

reserve_iff_example :
    (reserve fresh "a" 10 ≡ ok (with_reservation fresh "a" 10))
    ↔ (Granted fresh "a" 10 × (with_reservation fresh "a" 10 ≡ with_reservation fresh "a" 10))
reserve_iff_example = reserve_iff fresh (with_reservation fresh "a" 10) "a" 10

reserved_fresh : reserve fresh "a" 10 ≡ ok (with_reservation fresh "a" 10)
unfolding reserve lookup
reserved_fresh = refl

release-reserve_example :
    (release (with_reservation fresh "a" 10) "a" ≡ ok fresh)
    × ((m : ℕ) (c'' : Controller) → reserve (with_reservation fresh "a" 10) "a" m ≢ ok c'')
release-reserve_example =
    release-reserve fresh (with_reservation fresh "a" 10) "a" 10 reserved_fresh

release_twice_example : release fresh "a" ≡ err no_reservation
release_twice_example =
    release_twice (with_reservation fresh "a" 10) fresh "a" release-reserve_example.0

abbrev budgets : List ℕ
budgets = 5 ∷ 7 ∷ []

transaction_budget_iff_example : (transaction_budget budgets ≡ ok 12) ↔ (
    (0 < length budgets)
    × (length budgets ≤ max_operations_per_transaction)
    × All IsBudget budgets
    × (sum budgets ≤ transaction_growth_limit_bytes)
    × (12 ≡ sum budgets))
transaction_budget_iff_example = transaction_budget_iff budgets 12

abbrev statements : List (ℕ × ℕ)
statements = (500, 200) ∷ (700, 700) ∷ []

preflight_fresh : preflight_transaction fresh (declared statements) ≡ ok tt
unfolding preflight_transaction project transaction_budget add
preflight_fresh = refl

preflight_protects_example :
    let (c', e) = observe_all fresh statements in
    (e ≡ none)
    × (c'.wal_bytes ≡ fresh.wal_bytes + grown statements)
    × (c'.wal_bytes + c'.reserved_bytes < hard_stop_bytes)
    × (c'.read_only ≡ false)
    × (c'.reservations ≡ fresh.reservations)
preflight_protects_example =
    preflight_protects fresh statements fresh-IsSound preflight_fresh
      (omega arith, (omega arith, tt))

abbrev full : Controller
full = record fresh { wal_bytes = 256 * 1024 * 1024 }

pressure_lem_example :
    let p = pressure full in
    (p.read_only ≡ true → p.stop_writes ≡ true)
    × (p.stop_writes ≡ true
        → (p.pause_new_readers ≡ true)
          × (p.pause_job_claims ≡ true)
          × ((w : String) (n : ℕ) (c' : Controller) → reserve full w n ≢ ok c')
          × ((budgets : List ℕ) → preflight_transaction full budgets ≢ ok tt))
pressure_lem_example =
    pressure_lem full
      (record { summed = refl; unique = tt; within = omega arith; ceiling = inl (omega arith) })
