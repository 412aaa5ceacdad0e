-- ===== src/Wal/Transactions.antt =====
-- budget.go: PreflightTransaction against the observations of the writes that follow, and Pressure.
use awesome_sftp_cli.Base.{
  ℕ, ◌+◌, ◌≤◌, ◌<◌, String, ◌≡◌, refl, ap, ◌∙◌, ◌≢◌, ◌↔◌, inl, inr, Bool, true, false, Option, none,
  some, List, [], ◌∷◌, map, arith, length, All, ok, Result-cases,
}
use awesome_sftp_cli.Wal.{
  add_if, project, add, Controller, Error, statement_growth_limit_bytes,
  transaction_growth_limit_bytes, hard_stop_bytes, max_operations_per_transaction, reserve,
  sum_budgets, transaction_budget, preflight_transaction, observe_write, pressure,
}
use awesome_sftp_cli.Wal.Invariant.{IsSound}
use awesome_sftp_cli.Wal.Reservations.{reserve-Granted}

abbrev pub sum : List ℕ → ℕ
sum [] = 0
sum (n ∷ ns) = n + sum ns

-- A statement's budget: between 1 and the statement limit.
abbrev pub IsBudget : ℕ → Type 0
IsBudget n = (0 < n) × (n ≤ statement_growth_limit_bytes)

sum_budgets_ok :
    (budgets : List ℕ) (start total : ℕ)
    → start ≤ transaction_growth_limit_bytes
    → sum_budgets start budgets ≡ ok total
    → All IsBudget budgets
      × (total ≡ start + sum budgets)
      × (total ≤ transaction_growth_limit_bytes)
unfolding sum_budgets
sum_budgets_ok [] start total h e = ground arith
sum_budgets_ok (n ∷ ns) start total h e = ground (arith, sum_budgets_ok ns (start + n) total)

ok_sum_budgets :
    (budgets : List ℕ) (start : ℕ)
    → All IsBudget budgets
    → start + sum budgets ≤ transaction_growth_limit_bytes
    → sum_budgets start budgets ≡ ok (start + sum budgets)
unfolding sum_budgets
ok_sum_budgets [] start a h = ground arith
ok_sum_budgets (n ∷ ns) start a h = ground (arith, ok_sum_budgets ns (start + n) a.1)

-- The budgets of a transaction are accepted exactly when there are 1 to 256 of them, each is
-- positive and within the statement limit, and their sum is within the transaction limit; the
-- result is then that sum.
pub transaction_budget_iff :
    (budgets : List ℕ) (total : ℕ)
    → (transaction_budget budgets ≡ ok total) ↔ (
        (0 < length budgets)
        × (length budgets ≤ max_operations_per_transaction)
        × All IsBudget budgets
        × (sum budgets ≤ transaction_growth_limit_bytes)
        × (total ≡ sum budgets))
unfolding transaction_budget
transaction_budget_iff budgets total = (
  λ h. ground (arith, sum_budgets_ok budgets 0 total),
  λ h. ground (arith, ok_sum_budgets budgets 0),
)

-- The statements of a transaction, each with its declared budget and the growth that it causes.
abbrev pub declared : List (ℕ × ℕ) → List ℕ
declared = map (λ s. s.0)

-- Each write is observed in turn, from the size that the log has then; the first error ends it.
unfoldable pub observe_all : Controller → List (ℕ × ℕ) → Controller × Option Error
observe_all c [] = (c, none)
observe_all c ((budget, growth) ∷ rest) =
    let r = observe_write c c.wal_bytes (c.wal_bytes + growth) budget true in
    elim r.1 [ none ↦ observe_all r.0 rest | some e ↦ (r.0, some e) ]

abbrev pub grown : List (ℕ × ℕ) → ℕ
grown [] = 0
grown ((budget, growth) ∷ rest) = growth + grown rest

-- Each statement grows the log by its budget at most.
abbrev pub KeepsBudget : ℕ × ℕ → Type 0
KeepsBudget (budget, growth) = growth ≤ budget

grown-le-sum : (xs : List (ℕ × ℕ)) → All KeepsBudget xs → grown xs ≤ sum (declared xs)
grown-le-sum [] k = omega arith
grown-le-sum ((b, g) ∷ xs) k = omega (arith, grown-le-sum xs k.1)

observe_all_ok :
    (c : Controller) (xs : List (ℕ × ℕ))
    → All IsBudget (declared xs)
    → All KeepsBudget xs
    → c.wal_bytes + sum (declared xs) < hard_stop_bytes
    → observe_all c xs ≡ (record c { wal_bytes = c.wal_bytes + grown xs }, none)
unfolding observe_all observe_write
observe_all_ok c [] b k h = ground arith
observe_all_ok c ((n, g) ∷ xs) b k h =
    let d = record c { wal_bytes = c.wal_bytes + g } in ground (arith, observe_all_ok d xs b.1 k.1)

add_fits : (a b : ℕ) → b ≤ transaction_growth_limit_bytes → (add a b).1 ≡ true → (add a b).0 ≡ a + b
unfolding add
add_fits a b small h = ground arith

add_if_fits :
    (r : ℕ × Bool) (total : ℕ)
    → total ≤ transaction_growth_limit_bytes
    → (add_if r total).1 ≡ true
    → (r.1 ≡ true) × ((add_if r total).0 ≡ r.0 + total)
unfolding add_if
add_if_fits (n, true) total small h = (refl, add_fits n total small h)
add_if_fits (n, false) total small h = cc

project_fits :
    (c : Controller) (total : ℕ)
    → c.reserved_bytes ≤ transaction_growth_limit_bytes
    → total ≤ transaction_growth_limit_bytes
    → (project c total).1 ≡ true
    → (project c total).0 ≡ c.wal_bytes + c.reserved_bytes + total
unfolding project
project_fits c total within small h =
    let (fits, e) = add_if_fits (add c.wal_bytes c.reserved_bytes) total small h in
    e ∙ ap (λ n. n + total) (add_fits c.wal_bytes c.reserved_bytes within fits)

preflight_ok :
    (c : Controller) (budgets : List ℕ)
    → c.reserved_bytes ≤ transaction_growth_limit_bytes
    → preflight_transaction c budgets ≡ ok tt
    → (c.read_only ≡ false)
      × ((total : ℕ) × (transaction_budget budgets ≡ ok total)
          × (c.wal_bytes + c.reserved_bytes + total < hard_stop_bytes))
unfolding preflight_transaction
preflight_ok c budgets within h = elim (Result-cases (transaction_budget budgets)) [
  | inl (total, e) ↦ (
    ground arith,
    (
      total,
      e,
      ground (arith, project_fits c total within, (transaction_budget_iff budgets total).0 e),
    ),
  )
  | inr (x, e) ↦ absurd (ground arith)
]

-- A transaction that passes the preflight of a sound controller, and whose statements keep their budgets, is observed
-- with no error: the log ends below the hard stop, the controller stays writable, and the
-- reservations are untouched.
pub preflight_protects :
    (c : Controller) (xs : List (ℕ × ℕ))
    → IsSound c
    → preflight_transaction c (declared xs) ≡ ok tt
    → All KeepsBudget xs
    → let (c', e) = observe_all c xs in
      (e ≡ none)
      × (c'.wal_bytes ≡ c.wal_bytes + grown xs)
      × (c'.wal_bytes + c'.reserved_bytes < hard_stop_bytes)
      × (c'.read_only ≡ false)
      × (c'.reservations ≡ c.reservations)
preflight_protects c xs s h k =
    let (w, (total, e, below)) = preflight_ok c (declared xs) s.within h in
    let (_, _, budgets, _, same) = (transaction_budget_iff (declared xs) total).0 e in
    let small = grown-le-sum xs k in
    rw (observe_all_ok c xs budgets k (omega arith)) (refl, refl, omega arith, w, refl)

stop_writes_refuses :
    (c : Controller) (total : ℕ)
    → c.reserved_bytes ≤ transaction_growth_limit_bytes
    → (pressure c).stop_writes ≡ true
    → c.read_only ≡ false
    → hard_stop_bytes ≤ c.wal_bytes + c.reserved_bytes + total
unfolding pressure
stop_writes_refuses c total within h w = ground arith

-- The pressure rises in order: read-only stops the writes, which pauses readers and claims. While
-- the writes of a sound controller are stopped no reservation is granted and no transaction passes the preflight.
pub pressure_lem :
    (c : Controller)
    → IsSound c
    → let p = pressure c in
      (p.read_only ≡ true → p.stop_writes ≡ true)
      × (p.stop_writes ≡ true
          → (p.pause_new_readers ≡ true)
            × (p.pause_job_claims ≡ true)
            × ((w : String) (n : ℕ) (c' : Controller) → reserve c w n ≢ ok c')
            × ((budgets : List ℕ) → preflight_transaction c budgets ≢ ok tt))
unfolding pressure
pressure_lem c s = (
  λ h. ground arith,
  λ h. (
    ground arith,
    ground arith,
    λ w n c' e.
        let g = (reserve-Granted c c' w n e).0 in
        absurd (omega (arith, g.below_stop, stop_writes_refuses c n s.within h g.writable)),
    λ budgets e.
        let (w, (total, _, below)) = preflight_ok c budgets s.within e in
        absurd (omega (arith, below, stop_writes_refuses c total s.within h w)),
  ),
)
