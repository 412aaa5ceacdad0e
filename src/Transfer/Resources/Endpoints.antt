-- ===== src/Transfer/Resources/Endpoints.antt =====
-- resource_ledger.go: newEndpointCountLocked against the loop of acquireLocked.
use awesome_sftp_cli.Base.{
  ℕ, ◌+◌, ◌%◌, ◌^◌, ◌≤◌, ◌<◌, String, ◌≡◌, refl, inl, inr, List, [], ◌∷◌, arith, if◌then◌else◌,
  Option-cases, length, ok, string_eq,
}
use awesome_sftp_cli.Base.Map.{lookup, insert, lookup-insert}
use awesome_sftp_cli.Base.Map.Keys.{length-insert, length-insert_present}
use awesome_sftp_cli.Transfer.Usage.{ResourceUsage, add_usage}
use awesome_sftp_cli.Transfer.Resources.{
  ResourceRequest, ResourceLedger, is_present, new_endpoint_count, charge, can_acquire,
  acquire_locked, usage_at, endpoint_usage,
}

-- The endpoints of the list that have no entry, in plain numbers.
abbrev count_missing : List (String × ResourceUsage) → List String → ℕ
count_missing m [] = 0
count_missing m (e ∷ es) = (if is_present (lookup e m) then 0 else 1) + count_missing m es

count_missing-length :
    (m : List (String × ResourceUsage)) (es : List String) → count_missing m es ≤ length es
count_missing-length m [] = omega arith
count_missing-length m (e ∷ es) = ground (arith, count_missing-length m es)

-- Another entry makes none missing.
missing-insert :
    (k e : String) (u : ResourceUsage) (m : List (String × ResourceUsage))
    → (if is_present (lookup e (insert k u m)) then 0 else 1)
      ≤ (if is_present (lookup e m) then 0 else 1)
missing-insert k e u m = ground (arith, lookup-insert k e u m)

count_missing-insert :
    (k : String) (u : ResourceUsage) (m : List (String × ResourceUsage)) (es : List String)
    → count_missing (insert k u m) es ≤ count_missing m es
count_missing-insert k u m [] = omega arith
count_missing-insert k u m (e ∷ es) =
    omega (arith, count_missing-insert k u m es, missing-insert k e u m)

length-insert_any :
    (k : String) (u : ResourceUsage) (m : List (String × ResourceUsage))
    → length (insert k u m) ≡ length m + (if is_present (lookup k m) then 0 else 1)
length-insert_any k u m = elim (Option-cases (lookup k m)) [
  | inl missing ↦ rw missing (length-insert k u m missing)
  | inr (w, found) ↦ rw found (omega (arith, length-insert_present k u w m found))
]

length-charge :
    (r : ResourceRequest) (es : List String) (m : List (String × ResourceUsage))
    → length (charge r es m) ≤ length m + count_missing m es
unfolding charge
length-charge r [] m = omega arith
length-charge r (e ∷ es) m =
    let u = add_usage (usage_at e m) (endpoint_usage r e) in
    omega (
      arith,
      length-charge r es (insert e u m),
      count_missing-insert e u m es,
      length-insert_any e u m,
    )

-- The count of newEndpointCountLocked does not wrap on fewer than 2 ^ 32 endpoints.
new_endpoint_count-exact :
    (ledger : ResourceLedger) (es : List String)
    → length es < 2 ^ 32
    → new_endpoint_count ledger es ≡ count_missing ledger.per_endpoint es
unfolding new_endpoint_count
new_endpoint_count-exact ledger [] h = refl
new_endpoint_count-exact ledger (e ∷ es) h =
    ground (arith, new_endpoint_count-exact ledger es, count_missing-length ledger.per_endpoint es)

can_acquire-endpoints :
    (ledger : ResourceLedger) (r : ResourceRequest)
    → can_acquire ledger r ≡ ok tt
    → (length ledger.per_endpoint % 2 ^ 32 + new_endpoint_count ledger r.endpoint_ids) % 2 ^ 32
      ≤ ledger.limits.endpoints
unfolding can_acquire
can_acquire-endpoints ledger r h = ground arith

-- A granted request leaves no more endpoints in the ledger than the ceiling on their number, as
-- long as the entries and the endpoints of the request are fewer than 2 ^ 32 together.
acquire_locked-endpoints :
    (ledger : ResourceLedger) (r : ResourceRequest)
    → can_acquire ledger r ≡ ok tt
    → length ledger.per_endpoint + length r.endpoint_ids < 2 ^ 32
    → length (acquire_locked ledger r).per_endpoint ≤ ledger.limits.endpoints
unfolding acquire_locked
acquire_locked-endpoints ledger r h few =
    let es = r.endpoint_ids in
    let m = ledger.per_endpoint in
    let counted = new_endpoint_count-exact ledger es (omega arith) in
    omega (
      arith,
      can_acquire-endpoints ledger r h,
      counted,
      length-charge r es m,
      count_missing-length m es,
    )
