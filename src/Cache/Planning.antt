-- ===== src/Cache/Planning.antt =====
-- internal/cache/quota.go: what holds of the catalog, of its usage and of the targets in each
-- round of a plan.
use awesome_sftp_cli.Base.{
  ℕ, ◌≡◌, refl, sym, ap, ◌∙◌, Bool, Option, List, [], ◌∷◌, All, ok, ok-injective, string_eq,
}
use awesome_sftp_cli.Cache.Leases.{LeaseManager}
use awesome_sftp_cli.Cache.Evictions.{
  PlanState, counted, inspected, select_candidate, try_candidates,
}
use awesome_sftp_cli.Cache.Accounting.{Limits, Usage, account_validated}
use awesome_sftp_cli.Cache.Records.{Snapshot}
use awesome_sftp_cli.Cache.Removing.{
  IsPart, evict, evict-IsPart, apply_candidate-evict, evict-append,
}
use mathlib.Core.Path.{subst}
use awesome_sftp_cli.Cache.Protections.{EvictionCandidate, inspect_protections}
use awesome_sftp_cli.Cache.Safety.{MayEvict, apply-MayEvict}
use awesome_sftp_cli.Cache.Integrity.{IsIntact}
use awesome_sftp_cli.Cache.Candidates.{Sound}
use awesome_sftp_cli.Cache.Plans.{start_plan}
use awesome_sftp_cli.Cache.Trying.{stops, passes_over, selects, trial_of, tried}
use awesome_sftp_cli.Base.Has.{All-append}
use awesome_sftp_cli.Cache.Applying.{apply-IsIntact}

-- A state of the plan for the catalog `s`.
pub record Follows (manager : Option LeaseManager) (s : Snapshot) (st : PlanState) : Type 0 where
  pub working : st.working ≡ evict s st.targets
  pub accounted : account_validated st.working ≡ ok st.after
  pub allowed : All (MayEvict manager s) st.targets
  pub intact : IsIntact st.working

-- Counting candidates and reading the clock changes nothing of that.
abbrev SameCatalog : PlanState → PlanState → Type 0
SameCatalog a b = (a.working ≡ b.working) × (a.after ≡ b.after) × (a.targets ≡ b.targets)

pub start-Follows :
    (manager : Option LeaseManager) (s : Snapshot) (before : Usage)
    → account_validated s ≡ ok before
    → IsIntact s
    → Follows manager s (start_plan s before)
start-Follows manager s before h i = record {
  working = refl;
  accounted = h;
  allowed = tt;
  intact = i;
}

pub inspected-Follows :
    (manager : Option LeaseManager) (s : Snapshot) (st : PlanState)
    → Follows manager s st
    → Follows manager s (inspected st)
unfolding inspected
inspected-Follows manager s st f = record {
  working = f.working;
  accounted = f.accounted;
  allowed = f.allowed;
  intact = f.intact;
}

pub counted-Follows :
    (manager : Option LeaseManager) (s : Snapshot) (st : PlanState)
    → Follows manager s st
    → Follows manager s (counted st)
unfolding counted
counted-Follows manager s st f = record {
  working = f.working;
  accounted = f.accounted;
  allowed = f.allowed;
  intact = f.intact;
}

Follows-IsPart :
    (manager : Option LeaseManager) (s : Snapshot) (st : PlanState)
    → Follows manager s st
    → IsPart st.working s
Follows-IsPart manager s st f = subst (λ t. IsPart t s) (sym f.working) (evict-IsPart s st.targets)

module _ (limits : Limits) (manager : Option LeaseManager) (reads : ℕ) (allow_shared : Bool)
    (s : Snapshot) where
  -- Selecting a candidate that passes the tests in the catalog of the state.
  select-Follows :
      (st : PlanState) (c : EvictionCandidate) (usage : Usage)
      → Follows manager s st
      → Sound (inspect_protections manager reads st.working) st.working allow_shared c
      → account_validated (trial_of (inspect_protections manager reads st.working) st c).0
        ≡ ok usage
      → let trial = trial_of (inspect_protections manager reads st.working) st c in
        Follows manager s (select_candidate (counted st) trial.0 usage trial.1)
  unfolding counted select_candidate
  select-Follows st c usage f sound h =
      let p = inspect_protections manager reads st.working in
      let trial = trial_of p st c in
      record {
        working =
            apply_candidate-evict st.working c.target p
            ∙ ap (λ t. evict t trial.1) f.working
            ∙ sym (evict-append s st.targets trial.1);
        accounted = h;
        allowed = All-append _ st.targets trial.1 f.allowed (
            apply-MayEvict manager reads st.working s allow_shared c.target
              (Follows-IsPart manager s st f) sound);
        intact = apply-IsIntact manager reads st.working f.intact allow_shared c.target sound;
      }

  pub try-Follows :
      (cs : List EvictionCandidate) (st : PlanState) (r : PlanState × Bool)
      → Follows manager s st
      → All (Sound (inspect_protections manager reads st.working) st.working allow_shared) cs
      → try_candidates limits (inspect_protections manager reads st.working) cs st ≡ ok r
      → Follows manager s r.0
  unfolding try_candidates counted
  try-Follows [] st r f sound h = subst (λ x. Follows manager s x.0) (ok-injective h) f
  try-Follows (c ∷ cs) st r f sound h =
      elim (tried limits (inspect_protections manager reads st.working) c cs st r h) [
        | stops full e ↦ subst (λ x. Follows manager s x.0) (sym e) f
        | passes_over no_gain next ↦
            try-Follows cs (counted st) r (counted-Follows manager s st f) sound.1 next
        | selects usage accounted e ↦
            subst (λ x. Follows manager s x.0) (sym e)
              (select-Follows st c usage f sound.0 accounted)
      ]
