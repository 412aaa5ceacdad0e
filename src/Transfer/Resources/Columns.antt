-- ===== src/Transfer/Resources/Columns.antt =====
-- The arithmetic on amounts, column by column.
use awesome_sftp_cli.Base.{
  ℕ, ◌+◌, ◌-◌, ◌%◌, ◌≤◌, ◌<◌, ◌≡◌, refl, ◌↔◌, true, false, List, [], ◌∷◌, arith, All, ok,
}
use awesome_sftp_cli.Transfer.Usage.{
  Field, ResourceUsage, ResourceLimits, get, limit, modulus, usage_of, active_jobs, queued_jobs,
  connections, ssh_processes, helper_processes, file_descriptors, goroutines, memory_bytes,
  event_bytes, log_bytes, zero_usage, add_usage, subtract_usage, is_zero, exceeds, checks,
  run_checks, usage_fits, hard_resource_ceilings, tighten_resource_limits,
}

pub get-usage_of : (f : Field) (g : Field → ℕ) → get f (usage_of g) ≡ g f
get-usage_of active_jobs g = refl
get-usage_of _ g = refl

pub usage_ext : (u v : ResourceUsage) → ((f : Field) → get f u ≡ get f v) → u ≡ v
usage_ext u v h = ground (
  arith,
  h active_jobs,
  h queued_jobs,
  h connections,
  h ssh_processes,
  h helper_processes,
  h file_descriptors,
  h goroutines,
  h memory_bytes,
  h event_bytes,
  h log_bytes,
)

pub get-add_usage :
    (f : Field) (u v : ResourceUsage) → get f (add_usage u v) ≡ (get f u + get f v) % modulus f
unfolding add_usage
get-add_usage f u v = get-usage_of f (λ x. (get x u + get x v) % modulus x)

pub get-subtract_usage :
    (f : Field) (u v : ResourceUsage)
    → get f (subtract_usage u v) ≡ (get f u + modulus f - get f v) % modulus f
unfolding subtract_usage
get-subtract_usage f u v = get-usage_of f (λ x. (get x u + modulus x - get x v) % modulus x)

pub get-zero_usage : (f : Field) → get f zero_usage ≡ 0
get-zero_usage f = get-usage_of f (λ x. 0)

pub is_zero-get : (u : ResourceUsage) → is_zero u ≡ true → (f : Field) → get f u ≡ 0
unfolding is_zero
is_zero-get u h active_jobs = ground arith
is_zero-get u h _ = ground arith

pub exceeds-false : (c r l : ℕ) → (exceeds c r l ≡ false) ↔ (c + r ≤ l)
unfolding exceeds
exceeds-false c r l = ground arith

-- Each column of the request fits beside what is in use.
abbrev pub Fits : ResourceUsage → ResourceUsage → ResourceLimits → Type 0
Fits current requested limits = (f : Field) → get f current + get f requested ≤ limit f limits

run_checks_iff :
    (fs : List Field) (c r : ResourceUsage) (l : ResourceLimits)
    → (run_checks fs c r l ≡ ok tt) ↔ All (λ f. get f c + get f r ≤ limit f l) fs
unfolding run_checks
run_checks_iff [] c r l = (λ _. tt, λ _. refl)
run_checks_iff (f ∷ fs) c r l =
    ground (arith, run_checks_iff fs c r l, exceeds-false (get f c) (get f r) (limit f l))

-- `checks` names every column.
All-checks {ℓ} : (P : Field → Type ℓ) → All P checks ↔ ((f : Field) → P f)
All-checks P = (
  spread,
  λ h. (
    h active_jobs,
    (
      h queued_jobs,
      (
        h connections,
        (
          h ssh_processes,
          (
            h helper_processes,
            (
              h file_descriptors,
              (h goroutines, (h memory_bytes, (h event_bytes, (h log_bytes, tt)))),
            ),
          ),
        ),
      ),
    ),
  ),
)
  where
    spread : All P checks → (f : Field) → P f
    spread a active_jobs = a.0
    spread a queued_jobs = a.1.0
    spread a connections = a.1.1.0
    spread a ssh_processes = a.1.1.1.0
    spread a helper_processes = a.1.1.1.1.0
    spread a file_descriptors = a.1.1.1.1.1.0
    spread a goroutines = a.1.1.1.1.1.1.0
    spread a memory_bytes = a.1.1.1.1.1.1.1.0
    spread a event_bytes = a.1.1.1.1.1.1.1.1.0
    spread a log_bytes = a.1.1.1.1.1.1.1.1.1.0

-- The checks pass exactly when no column would exceed its ceiling.
pub usage_fits_iff :
    (c r : ResourceUsage) (l : ResourceLimits) → (usage_fits c r l ≡ ok tt) ↔ Fits c r l
unfolding usage_fits
usage_fits_iff c r l =
    let each = All-checks (λ f. get f c + get f r ≤ limit f l) in
    let run = run_checks_iff checks c r l in (λ h. each.0 (run.0 h), λ h. run.1 (each.1 h))

-- Ceilings within the hard ones.
pub record IsTight (l : ResourceLimits) : Type 0 where
  pub columns : All (λ f. limit f l ≤ limit f hard_resource_ceilings) checks
  pub endpoints : l.endpoints ≤ hard_resource_ceilings.endpoints
  pub jobs_each : l.active_jobs_per_endpoint ≤ hard_resource_ceilings.active_jobs_per_endpoint
  pub connections_each :
      l.connections_per_endpoint ≤ hard_resource_ceilings.connections_per_endpoint

tighten-IsTight : (l l' : ResourceLimits) → tighten_resource_limits l ≡ ok l' → (l' ≡ l) × IsTight l
unfolding tighten_resource_limits
tighten-IsTight l l' h = (ground arith, ground arith)

IsTight-tighten : (l : ResourceLimits) → IsTight l → tighten_resource_limits l ≡ ok l
unfolding tighten_resource_limits
IsTight-tighten l t = ground arith

-- Limits are accepted, unchanged, exactly when none is above its hard ceiling.
pub tighten_iff :
    (l l' : ResourceLimits) → (tighten_resource_limits l ≡ ok l') ↔ ((l' ≡ l) × IsTight l)
tighten_iff l l' = (tighten-IsTight l l', λ t. rw t.0 (IsTight-tighten l t.1))

hard-lt-modulus : (f : Field) → limit f hard_resource_ceilings < modulus f
unfolding hard_resource_ceilings
hard-lt-modulus active_jobs = omega arith
hard-lt-modulus _ = omega arith

-- So no column wraps while it keeps its ceiling.
pub limit-lt-modulus : (f : Field) (l : ResourceLimits) → IsTight l → limit f l < modulus f
limit-lt-modulus f l t = omega (
  arith,
  (All-checks (λ f. limit f l ≤ limit f hard_resource_ceilings)).0 t.columns f,
  hard-lt-modulus f,
)
