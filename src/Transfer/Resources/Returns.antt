-- ===== src/Transfer/Resources/Returns.antt =====
-- resource_ledger.go: release against the leases that are out.
use text.Mathlib.Text.{◌==◌ as str_beq}
use native.Mathlib.Nat.{mod-eq_of_lt}
use awesome_sftp_cli.Base.{
  ℕ, ◌+◌, ◌%◌, String, ◌≡◌, sym, ap, ◌∙◌, true, List, [], ◌∷◌, ◌++◌, arith, string_eq,
}
use awesome_sftp_cli.Transfer.Usage.{
  Field, get, modulus, zero_usage, active_jobs, connections, subtract_usage,
}
use awesome_sftp_cli.Transfer.Resources.{
  ResourceRequest, ResourceLedger, usage_at, contains, endpoint_usage, release,
}
use awesome_sftp_cli.Transfer.Resources.Columns.{limit-lt-modulus, usage_ext, get-zero_usage}
use awesome_sftp_cli.Transfer.Resources.Charges.{
  get_subtracted, usage_at-update_settle, usage_at-refund,
}
use awesome_sftp_cli.Transfer.Resources.Accounts.{
  Accounts, IsNormal, sum_of, held_by, sum_of-middle, held_at, mod_zero,
}

module _ (ledger : ResourceLedger) (xs : List ResourceRequest) (r : ResourceRequest)
    (ys : List ResourceRequest) (a : Accounts ledger (xs ++ r ∷ ys)) (n : IsNormal r) where
  rest : (h : ResourceRequest → ℕ) → sum_of h (xs ++ r ∷ ys) ≡ h r + sum_of h (xs ++ ys)
  rest h = sum_of-middle h xs r ys

  release_total :
      (f : Field)
      → get f (subtract_usage ledger.total r.usage) ≡ sum_of (λ r. get f r.usage) (xs ++ ys)
  release_total f =
      let s = sum_of (λ r. get f r.usage) (xs ++ ys) in
      let small = limit-lt-modulus f ledger.limits a.tight in
      let whole = rest (λ r. get f r.usage) in
      get_subtracted true f ledger.total r.usage s (n.in_range f)
        (a.total f ∙ whole ∙ sym (mod-eq_of_lt (omega (arith, a.fits f, whole, small))))
      ∙ mod-eq_of_lt (omega (arith, a.fits f, whole, small))

  pub release-Accounts : Accounts (release ledger r) (xs ++ ys)
  unfolding release
  release-Accounts = record {
    tight = a.tight;
    total = release_total;
    fits = λ f. omega (arith, a.fits f, rest (λ r. get f r.usage));
    jobs = λ f j.
        ap (get f)
          (usage_at-update_settle (λ u. subtract_usage u r.usage) r.job_id j ledger.per_job)
        ∙ get_subtracted (str_beq r.job_id j) f (usage_at j ledger.per_job) r.usage
            (sum_of (held_by f j) (xs ++ ys)) (n.in_range f)
            (a.jobs f j ∙ ap (λ s. s % modulus f) (rest (held_by f j)));
    endpoints = λ f e.
        ap (get f) (usage_at-refund r r.endpoint_ids ledger.per_endpoint e n.distinct)
        ∙ get_subtracted (contains r.endpoint_ids e) f (usage_at e ledger.per_endpoint)
            (endpoint_usage r e) (sum_of (held_at f e) (xs ++ ys)) (n.each_in_range f e)
            (a.endpoints f e ∙ ap (λ s. s % modulus f) (rest (held_at f e)));
    jobs_each = λ e. omega (arith, a.jobs_each e, rest (held_at active_jobs e));
    connections_each = λ e. omega (arith, a.connections_each e, rest (held_at connections e));
  }

-- With no lease out nothing is in use: every amount of the books reads zero.
pub Accounts-idle :
    (ledger : ResourceLedger)
    → Accounts ledger []
    → (ledger.total ≡ zero_usage)
      × ((k : String)
          → (usage_at k ledger.per_job ≡ zero_usage)
            × (usage_at k ledger.per_endpoint ≡ zero_usage))
Accounts-idle ledger a = (
  usage_ext _ _ (λ f. a.total f ∙ sym (get-zero_usage f)),
  λ k. (
    usage_ext _ _ (λ f. a.jobs f k ∙ mod_zero f ∙ sym (get-zero_usage f)),
    usage_ext _ _ (λ f. a.endpoints f k ∙ mod_zero f ∙ sym (get-zero_usage f)),
  ),
)
