-- ===== src/Transfer/Resources/Tests.antt =====
-- resource_ledger.go: one ledger, two Jobs, and the endpoints "a" and "b".
use text.Mathlib.Text.{◌==◌ as str_beq}
use awesome_sftp_cli.Base.{
  String, ◌≡◌, refl, ◌↔◌, false, none, some, List, [], ◌∷◌, arith, if◌then◌else◌, All, ok,
  string_eq,
}
use awesome_sftp_cli.Transfer.Usage.{
  active_jobs, ResourceLimits, ResourceUsage, tighten_resource_limits, usage_fits,
  hard_resource_ceilings, is_unset, zero_usage, is_zero, exceeds, add_usage,
}
use awesome_sftp_cli.Transfer.Resources.{
  ResourceLedger, ResourceRequest, new_resource_ledger, normalize_resource_request, contains,
  unique_endpoints, try_acquire, usage_at, enter_acquire, can_acquire, can_ever_acquire,
  acquire_round, endpoint_usage, release_lease, release, check_endpoints, check_endpoints_ever,
  acquire_locked, charge, new_endpoint_count,
}
use awesome_sftp_cli.Transfer.Resources.Requests.{IsTyped, InRange, normalize_lem}
use awesome_sftp_cli.Transfer.Resources.Sessions.{
  Event, EventIsTyped, IsSound, run, step, tries, enters, rounds, releases, outstanding,
}
use awesome_sftp_cli.Transfer.Resources.Charges.{Distinct}
use awesome_sftp_cli.Transfer.Resources.Sessions.Releasing.{run-new-IsSound}
use awesome_sftp_cli.Transfer.Resources.Columns.{Fits, IsTight, tighten_iff, usage_fits_iff}
use awesome_sftp_cli.Transfer.Resources.Progress.{idle_after_releases, empty_usage_uncharged}
use awesome_sftp_cli.Base.Map.{lookup, insert}

abbrev one_connection : ResourceUsage
one_connection = record zero_usage { active_jobs = 1; connections = 1 }

abbrev copying : ResourceRequest
copying = record {
  job_id = "copy";
  endpoint_ids = "a" ∷ "b" ∷ "a" ∷ [];
  usage = one_connection;
  per_endpoint_usage = zero_usage;
  endpoint_usage = none;
}

abbrev copying_normal : ResourceRequest
copying_normal = record copying {
  endpoint_ids = "a" ∷ "b" ∷ [];
  per_endpoint_usage = one_connection;
}

copying_normalizes : normalize_resource_request copying ≡ ok copying_normal
unfolding normalize_resource_request unique_endpoints contains is_zero
copying_normalizes = refl

abbrev unset : ResourceLimits
unset = record {
  active_jobs = 0;
  active_jobs_per_endpoint = 0;
  queued_jobs = 0;
  endpoints = 0;
  connections = 0;
  connections_per_endpoint = 0;
  ssh_processes = 0;
  helper_processes = 0;
  file_descriptors = 0;
  goroutines = 0;
  memory_bytes = 0;
  event_bytes = 0;
  log_bytes = 0;
}

abbrev new_ledger : ResourceLedger
new_ledger = record {
  limits = hard_resource_ceilings;
  total = zero_usage;
  per_endpoint = [];
  per_job = [];
  waiters = 0;
  wake = 0;
}

new_ledger_lem : new_resource_ledger unset ≡ ok new_ledger
unfolding new_resource_ledger tighten_resource_limits is_unset
new_ledger_lem = refl

copying-IsTyped : IsTyped copying
copying-IsTyped = record { usage = small; uniform = none_used; specific = tt }
  where
    small : InRange one_connection
    small active_jobs = omega arith
    small _ = omega arith

    none_used : InRange zero_usage
    none_used active_jobs = omega arith
    none_used _ = omega arith

abbrev events : List Event
events = tries copying ∷ enters copying ∷ rounds 0 false ∷ releases 0 ∷ releases 1 ∷ releases 1 ∷ []

events-IsTyped : All EventIsTyped events
events-IsTyped = (copying-IsTyped, (copying-IsTyped, (tt, (tt, (tt, (tt, tt))))))

run-new-IsSound_example :
    IsSound (run (record { ledger = new_ledger; leases = []; pending = [] }) events)
run-new-IsSound_example = run-new-IsSound unset new_ledger events new_ledger_lem events-IsTyped

all_released :
    outstanding (run (record { ledger = new_ledger; leases = []; pending = [] }) events).leases ≡ []
unfolding run step try_acquire enter_acquire acquire_round release_lease release can_acquire
    can_ever_acquire normalize_resource_request unique_endpoints contains is_zero usage_fits exceeds
    check_endpoints check_endpoints_ever acquire_locked charge usage_at lookup endpoint_usage
    new_endpoint_count hard_resource_ceilings insert add_usage
all_released = refl

idle_after_releases_example :
    let idle = (run (record { ledger = new_ledger; leases = []; pending = [] }) events).ledger in
    (idle.total ≡ zero_usage)
    × ((k : String)
        → (usage_at k idle.per_job ≡ zero_usage) × (usage_at k idle.per_endpoint ≡ zero_usage))
idle_after_releases_example =
    idle_after_releases unset new_ledger events new_ledger_lem events-IsTyped all_released

usage_fits_iff_example :
    (usage_fits one_connection one_connection hard_resource_ceilings ≡ ok tt)
    ↔ Fits one_connection one_connection hard_resource_ceilings
usage_fits_iff_example = usage_fits_iff one_connection one_connection hard_resource_ceilings

tighten_iff_example :
    (tighten_resource_limits hard_resource_ceilings ≡ ok hard_resource_ceilings)
    ↔ ((hard_resource_ceilings ≡ hard_resource_ceilings) × IsTight hard_resource_ceilings)
tighten_iff_example = tighten_iff hard_resource_ceilings hard_resource_ceilings

normalize_lem_example :
    (str_beq "copy" "" ≡ false)
    × (copying_normal.job_id ≡ "copy")
    × (copying_normal.usage ≡ one_connection)
    × Distinct copying_normal.endpoint_ids
    × ((j : String) → contains copying_normal.endpoint_ids j ≡ contains copying.endpoint_ids j)
    × (contains copying.endpoint_ids "" ≡ false)
normalize_lem_example = normalize_lem copying copying_normal copying_normalizes

abbrev uncharged : ResourceRequest
uncharged = record copying { endpoint_usage = some [] }

uncharged_normalizes :
    normalize_resource_request uncharged ≡ ok (record copying_normal { endpoint_usage = some [] })
unfolding normalize_resource_request unique_endpoints contains is_zero
uncharged_normalizes = refl

empty_usage_uncharged_example :
    (normalize_resource_request copying ≡ ok copying_normal)
    × (endpoint_usage (record copying_normal { endpoint_usage = some [] }) "a" ≡ zero_usage)
    × (endpoint_usage copying_normal "a" ≡ (
        if is_zero copying.per_endpoint_usage then copying.usage else copying.per_endpoint_usage))
empty_usage_uncharged_example = empty_usage_uncharged uncharged _ "a" refl uncharged_normalizes
