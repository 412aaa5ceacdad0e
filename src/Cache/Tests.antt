-- ===== src/Cache/Tests.antt =====
-- internal/cache at concrete catalogs and leases.
use awesome_sftp_cli.Base.{
  ◌≐◌, ◌+◌, String, ◌≡◌, refl, ◌↔◌, ◌⊎◌, true, false, not, ◌||◌, some, [], ◌∷◌, arith, All, ok,
  ◌>>=◌, string_eq,
}
use awesome_sftp_cli.Cache.Planned.{end_of, plan_evictions-IsSafe, plan_evictions-Ends}
use awesome_sftp_cli.Cache.Ids.{is_lower_hex_id}
use awesome_sftp_cli.Base.Map.{lookup, insert}
use awesome_sftp_cli.Cache.Held.{IsOver, classify-reclaimable, heartbeat-classify}
use awesome_sftp_cli.Cache.Totals.{account-total}
use awesome_sftp_cli.Cache.Rounds.{Ends}
use awesome_sftp_cli.Cache.Leases.{
  process_gone, LeaseManager, classify, heartbeat, reclaimable, protected_active, lease_released,
}
use awesome_sftp_cli.Cache.Records.{Blob, Entry, Lease, Snapshot, ProcessIdentity}
use awesome_sftp_cli.Cache.Accounting.{
  Limits, Usage, valid_limits, account, account_validated, within_limits,
}
use awesome_sftp_cli.Cache.Validation.{valid_lease, valid_snapshot}
use awesome_sftp_cli.Cache.Plans.{EvictionPlan, is_empty_leases, plan_evictions, is_absent}
use awesome_sftp_cli.Cache.Protections.{blob_eviction}
use awesome_sftp_cli.Cache.Removing.{evict}
use awesome_sftp_cli.Cache.Safety.{MayEvict}
use awesome_sftp_cli.Cache.Integrity.{IsIntact}

abbrev content : String
content = "0123456789abcdef0123456789abcdef0123456789abcdef0123456789abcdef"

abbrev other_content : String
other_content = "fedcba9876543210fedcba9876543210fedcba9876543210fedcba9876543210"

abbrev identity : String
identity = "0123456789abcdef0123456789abcdef"

abbrev first_blob : Blob
first_blob = record {
  id = content;
  size = 70;
  state = "published";
  created_at = 1;
  last_access_at = 5;
}

abbrev second_blob : Blob
second_blob = record {
  id = other_content;
  size = 50;
  state = "published";
  created_at = 1;
  last_access_at = 2;
}

abbrev one_entry : Entry
one_entry = record {
  id = content;
  endpoint_id = "host";
  canonical_path = 47 ∷ [];
  fingerprint = record { strength = "weak"; canonical = 1 ∷ [] };
  freshness = "fresh";
  policy = "lru";
  workspace_id = "w";
  pinned = false;
  blob_id = content;
  created_at = 1;
  last_access_at = 3;
}

abbrev one_lease : Lease
one_lease = record {
  id = identity;
  owner_kind = "preview";
  owner_id = "p";
  daemon_instance_id = "d";
  target = record { blob_id = content; materialization_id = "" };
  state = "active";
  heartbeat_at = 1;
  expires_at = 4;
  grace_until = 6;
  released_at = 0;
  process = some (record { pid = 7; birth_id = "b" });
}

-- An entry whose lease is over, and a blob that no entry has.
abbrev catalog : Snapshot
catalog = record {
  blobs = first_blob ∷ second_blob ∷ [];
  entries = one_entry ∷ [];
  materializations = [];
  references = [];
  leases = one_lease ∷ [];
}

abbrev manager : LeaseManager
manager = record {
  clock = λ reading. 10 + reading;
  processes = some (λ (process : ProcessIdentity). process_gone);
  expiry = 30;
  grace = 10;
}

abbrev limits : Limits
limits = record {
  global_bytes = 100;
  global_entries = 10;
  workspace_bytes = 80;
  max_candidates = 4;
}

catalog_valid : valid_snapshot catalog ≡ true
unfolding valid_snapshot is_lower_hex_id
catalog_valid = refl

limits_valid : valid_limits limits ≡ true
unfolding valid_limits
limits_valid = refl

managed : is_empty_leases catalog.leases || not (is_absent (some manager)) ≡ true
unfolding is_empty_leases is_absent
managed = refl

plan_evictions-IsSafe_example :
    (plan : EvictionPlan) × (plan_evictions catalog limits (some manager) ≡ ok plan)
    × (account catalog ≡ ok plan.before)
    × (account_validated (evict catalog plan.targets) ≡ ok plan.after)
    × (plan.satisfied ≡ within_limits plan.after limits)
    × All (MayEvict (some manager) catalog) plan.targets
    × IsIntact (evict catalog plan.targets)
plan_evictions-IsSafe_example =
    plan_evictions-IsSafe catalog limits (some manager) catalog_valid (omega arith) limits_valid
      managed

plan_evictions-Ends_example :
    (plan : EvictionPlan) × (plan_evictions catalog limits (some manager) ≡ ok plan)
    × Ends limits (some manager) (end_of catalog plan)
plan_evictions-Ends_example =
    plan_evictions-Ends catalog limits (some manager) catalog_valid (omega arith) limits_valid
      managed

classify-reclaimable_example :
    (classify (some manager) 10 one_lease ≡ reclaimable)
    ↔ ((one_lease.state ≐ lease_released ≡ true) ⊎ IsOver manager 10 one_lease)
classify-reclaimable_example = classify-reclaimable manager 10 one_lease

lease_valid : valid_lease one_lease ≡ true
unfolding valid_lease is_lower_hex_id
lease_valid = refl

heartbeat-classify_example :
    (renewed : Lease) × (heartbeat manager 10 one_lease ≡ ok renewed)
    × (valid_lease renewed ≡ true)
    × (classify (some manager) 39 renewed ≡ protected_active)
heartbeat-classify_example =
    heartbeat-classify manager one_lease 10 39 lease_valid refl (omega arith) (omega arith)

account-total_example :
    (usage : Usage) × (account_validated catalog ≡ ok usage) × (usage.global.bytes ≡ 120)
account-total_example = account-total catalog (omega arith)

-- The plan evicts the blob that no entry has, which was used first.
planned_targets :
    (plan_evictions catalog limits (some manager) >>= λ plan. ok plan.targets)
    ≡ ok (blob_eviction other_content ∷ [])
unfolding plan_evictions is_lower_hex_id lookup insert
planned_targets = refl
