-- ===== src/Cache/Evictions.antt =====
-- internal/cache/quota.go: the plan of evictions, for a catalog and for an admission to it.
use Prim.Native.Char.{code}
use awesome_sftp_cli.Base.{
  ℕ, zero, suc, ◌+◌, String, Bool, true, false, not, ◌&&◌, ◌||◌, Option, List, [], ◌∷◌, ◌++◌, ltb,
  leb, ◌==◌, if◌then◌else◌, length, Result, ok, ◌>>=◌, string_eq, ◌≐◌,
}
use awesome_sftp_cli.Cache.Protections.{
  EvictionCandidate, blob_reachable, inspect_protections, EvictionTarget, enumerate_candidates,
  ProtectionIndex, target_blob_protected, blob_eviction,
}
use awesome_sftp_cli.Cache.Records.{Blob, Entry, Materialization, Snapshot}
use awesome_sftp_cli.Cache.Accounting.{
  account_validated, within_limits, Limits, Usage, improves_violation, within_byte_limits,
  CacheError,
}
use awesome_sftp_cli.Cache.Leases.{LeaseManager}

-- Go's `<` on texts of single-byte characters, which identifiers and kinds are.
unfoldable pub text_ltb : String → String → Bool
text_ltb String.[] String.[] = false
text_ltb String.[] (String.◌∷◌ d t) = true
text_ltb (String.◌∷◌ c s) String.[] = false
text_ltb (String.◌∷◌ c s) (String.◌∷◌ d t) =
    ltb (code c) (code d) || code c == code d && text_ltb s t

unfoldable pub before_candidate : EvictionCandidate → EvictionCandidate → Bool
unfolding text_ltb
before_candidate a b =
    if not (a.last_access == b.last_access)
    then ltb a.last_access b.last_access
    else if not (a.kind ≐ b.kind)
    then text_ltb a.kind b.kind
    else text_ltb a.id b.id

-- sort.Slice with that order; identifiers of a kind are different, so the order is total.
unfoldable pub insert_candidate :
    EvictionCandidate → List EvictionCandidate → List EvictionCandidate
unfolding before_candidate
insert_candidate c [] = c ∷ []
insert_candidate c (d ∷ rest) =
    if before_candidate d c then d ∷ insert_candidate c rest else c ∷ d ∷ rest

unfoldable pub sort_candidates : List EvictionCandidate → List EvictionCandidate
unfolding insert_candidate
sort_candidates [] = []
sort_candidates (c ∷ rest) = insert_candidate c (sort_candidates rest)

unfoldable pub remove_entry : String → List Entry → List Entry
remove_entry id [] = []
remove_entry id (entry ∷ rest) =
    if entry.id ≐ id then remove_entry id rest else entry ∷ remove_entry id rest

-- The blob of the last entry that is removed, "" if there is none.
unfoldable pub blob_of_entry : String → List Entry → String → String
blob_of_entry id [] found = found
blob_of_entry id (entry ∷ rest) found =
    blob_of_entry id rest (if entry.id ≐ id then entry.blob_id else found)

unfoldable pub remove_materialization : String → List Materialization → List Materialization
remove_materialization id [] = []
remove_materialization id (m ∷ rest) =
    if not (m.id ≐ id) then m ∷ remove_materialization id rest else remove_materialization id rest

unfoldable pub remove_from_blobs : String → List Blob → List Blob
remove_from_blobs id [] = []
remove_from_blobs id (blob ∷ rest) =
    if not (blob.id ≐ id) then blob ∷ remove_from_blobs id rest else remove_from_blobs id rest

unfoldable pub remove_blob : Snapshot → String → Snapshot
unfolding remove_from_blobs
remove_blob s id = record s { blobs = remove_from_blobs id s.blobs }

unfoldable pub apply_candidate :
    Snapshot → EvictionTarget → ProtectionIndex → Snapshot × List EvictionTarget
unfolding remove_entry blob_of_entry remove_materialization remove_blob blob_reachable
apply_candidate s target p =
    let blob_id = blob_of_entry target.entry_id s.entries "" in
    let s' : Snapshot = record s { entries = remove_entry target.entry_id s.entries } in
    if not (target.entry_id ≐ "")
    then (if not (blob_id ≐ "")
          && not (blob_reachable blob_id s')
          && not (target_blob_protected blob_id p)
        then (remove_blob s' blob_id, target ∷ blob_eviction blob_id ∷ [])
        else (s', target ∷ []))
    else if not (target.materialization_id ≐ "")
    then (
      record s {
        materializations = remove_materialization target.materialization_id s.materializations;
      },
      target ∷ [],
    )
    else (remove_blob s target.blob_id, target ∷ [])

-- The variables of the loop: the catalog so far, its usage, the targets, and the counts of
-- candidates and of readings of the clock.
pub record PlanState : Type 0 where
  pub working : Snapshot
  pub after : Usage
  pub targets : List EvictionTarget
  pub considered : ℕ
  pub reads : ℕ

unfoldable pub counted : PlanState → PlanState
counted s = record s { considered = s.considered + 1 }

unfoldable pub select_candidate : PlanState → Snapshot → Usage → List EvictionTarget → PlanState
select_candidate s trial usage targets = record s {
  working = trial;
  after = usage;
  targets = s.targets ++ targets;
}

-- The loop over the sorted candidates; the Boolean is `selected`.
unfoldable pub try_candidates :
    Limits
    → ProtectionIndex
    → List EvictionCandidate
    → PlanState
    → Result CacheError (PlanState × Bool)
unfolding counted select_candidate apply_candidate account_validated improves_violation
try_candidates limits p [] s = ok (s, false)
try_candidates limits p (candidate ∷ rest) s =
    let s' = counted s in
    let (trial, targets) = apply_candidate s'.working candidate.target p in
    let next = try_candidates limits p rest s' in
    if leb limits.max_candidates s.considered
    then ok (s, false)
    else account_validated trial >>= λ usage.
        if not (improves_violation s'.after usage limits)
        then next
        else ok (select_candidate s' trial usage targets, true)

unfoldable pub inspected : PlanState → PlanState
inspected s = record s { reads = s.reads + length s.working.leases }

unfoldable pub is_none_left : List EvictionCandidate → Bool
is_none_left [] = true
is_none_left (candidate ∷ rest) = false

-- The candidates of one round, sorted.
unfoldable pub round_candidates : Limits → Option LeaseManager → PlanState → List EvictionCandidate
unfolding inspect_protections enumerate_candidates within_byte_limits sort_candidates
round_candidates limits manager s = sort_candidates (
    enumerate_candidates s.working (inspect_protections manager s.reads s.working)
      (within_byte_limits s.after limits))

-- The outer loop. A round that goes on has considered a candidate, so `max_candidates` rounds of
-- fuel are never used up before its test fails.
unfoldable pub plan_loop :
    Limits → Option LeaseManager → ℕ → PlanState → Result CacheError PlanState
unfolding inspected round_candidates try_candidates is_none_left within_limits
plan_loop limits manager zero s = ok s
plan_loop limits manager (suc fuel) s =
    let candidates = round_candidates limits manager s in
    let p = inspect_protections manager s.reads s.working in
    let go = plan_loop limits manager fuel in
    if within_limits s.after limits || leb limits.max_candidates s.considered
    then ok s
    else if is_none_left candidates
    then ok (inspected s)
    else try_candidates limits p candidates (inspected s) >>= λ (s', selected).
        if selected then go s' else ok s'
