-- ===== src/Transfer/Scheduler/Releasing.antt =====
-- internal/transfer/scheduler.go: ReleaseJob ends a job's buckets, and the shared ones with their
-- last job.
use awesome_sftp_cli.Base.{
  String, ◌≡◌, refl, ◌⊎◌, true, false, ◌||◌, none, List, [], ◌∷◌, arith, if◌then◌else◌, string_eq,
}
use awesome_sftp_cli.Transfer.Scheduler.Queues.{
  endpoint_referenced, release_job, has_waiter_for_job, drop_endpoints,
}
use awesome_sftp_cli.Transfer.Scheduler.Buckets.{TransferScheduler}
use awesome_sftp_cli.Base.Map.{lookup, delete, lookup-delete}
use awesome_sftp_cli.Base.Map.Keys.{Unique, delete-Unique, delete_missing}
use awesome_sftp_cli.Transfer.Scheduler.Leaving.{lookup-drop_endpoints}
use awesome_sftp_cli.Base.Members.{value_or, contains}

referenced-delete :
    (job_id : String) (m : List (String × List String)) (name : String)
    → Unique m
    → endpoint_referenced m name ≡ (
        contains name (value_or [] (lookup job_id m)) || endpoint_referenced (delete job_id m) name)
unfolding endpoint_referenced lookup delete contains
referenced-delete job_id [] name u = refl
referenced-delete job_id ((other, names) ∷ rest) name u = ground (
  arith,
  string_eq.equal_iff other job_id,
  delete_missing job_id rest,
  referenced-delete job_id rest name u.1,
)

-- Each job is known once, and each endpoint bucket belongs to a job that is known.
pub record IsReferenced (s : TransferScheduler) : Type 0 where
  pub unique : Unique s.job_endpoints
  pub owned :
      (name : String)
      → (lookup name s.endpoints ≡ none) ⊎ (endpoint_referenced s.job_endpoints name ≡ true)

pub record IsReleased (s s' : TransferScheduler) (job_id : String) : Type 0 where
  pub jobs :
      (name : String)
      → lookup name s'.jobs ≡ (if string_eq.equal job_id name then none else lookup name s.jobs)
  pub shared :
      (name : String)
      → lookup name s'.endpoints
        ≡ (if endpoint_referenced s'.job_endpoints name then lookup name s.endpoints else none)
  pub known : s'.job_endpoints ≡ delete job_id s.job_endpoints
  pub referenced : IsReferenced s'

release_shared :
    (s : TransferScheduler) (job_id : String)
    → IsReferenced s
    → (name : String)
    → lookup name (
        drop_endpoints
          (delete job_id s.job_endpoints)
          (value_or [] (lookup job_id s.job_endpoints))
          s.endpoints)
      ≡ (if endpoint_referenced (delete job_id s.job_endpoints) name
          then lookup name s.endpoints
          else none)
release_shared s job_id i name = ground (
  arith,
  i.owned name,
  referenced-delete job_id s.job_endpoints name i.unique,
  lookup-drop_endpoints (delete job_id s.job_endpoints)
      (value_or [] (lookup job_id s.job_endpoints)) s.endpoints name,
)

-- ReleaseJob on a job without waiters, in a state where each endpoint bucket belongs to a known
-- job, deletes the job's bucket and no other job's; an endpoint bucket stays, unchanged, exactly
-- when a job that remains refers to it; and each endpoint bucket still belongs to a known job.
pub release_job_lem :
    (s : TransferScheduler) (job_id : String)
    → IsReferenced s
    → string_eq.equal job_id "" ≡ false
    → has_waiter_for_job s job_id ≡ false
    → IsReleased s (release_job s job_id) job_id
unfolding release_job
release_job_lem s job_id i named idle =
    rw (named, idle)
      (record {
        jobs = λ name. lookup-delete job_id name s.jobs;
        shared = release_shared s job_id i;
        known = refl;
        referenced = record {
          unique = delete-Unique job_id s.job_endpoints i.unique;
          owned = λ name. ground (arith, release_shared s job_id i name);
        };
      })
