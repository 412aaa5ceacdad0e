-- ===== src/Transfer/Scheduler/Leaving.antt =====
-- internal/transfer/scheduler.go: what remove and ReleaseJob take away.
use awesome_sftp_cli.Base.{
  String, ◌≡◌, refl, ap, ◌≢◌, ◌⊎◌, inl, inr, true, false, not, ◌&&◌, none, List, [], ◌∷◌, ◌++◌,
  arith, ◌==◌, if◌then◌else◌, ==_iff, Bool-cases, All, string_eq,
}
use awesome_sftp_cli.Transfer.Scheduler.Buckets.{BandwidthWaiter}
use awesome_sftp_cli.Transfer.Scheduler.Queues.{drop_endpoints, remove_waiter, endpoint_referenced}
use awesome_sftp_cli.Transfer.Bucket.{IntegerTokenBucket}
use awesome_sftp_cli.Base.Map.{lookup, lookup-delete, delete}
use awesome_sftp_cli.Base.Members.{contains}

abbrev pub IsOther : BandwidthWaiter → BandwidthWaiter → Type 0
IsOther target waiter = waiter.id ≢ target.id

-- The queue splits around the first waiter with the target's identity and closes behind it, or no
-- waiter has that identity and the queue stays.
abbrev pub IsRemoval : List BandwidthWaiter → BandwidthWaiter → Type 0
IsRemoval queue target =
    ((before : List BandwidthWaiter) × (waiter : BandwidthWaiter) × (after : List BandwidthWaiter)
      × (queue ≡ before ++ waiter ∷ after)
      × (waiter.id ≡ target.id)
      × All (IsOther target) before
      × (remove_waiter queue target ≡ (before ++ after, true)))
    ⊎ (All (IsOther target) queue × (remove_waiter queue target ≡ (queue, false)))

-- removeWaiter takes out the first waiter with the target's identity and keeps the order of the
-- others; without such a waiter it changes nothing and says so.
pub remove_waiter_lem :
    (queue : List BandwidthWaiter) (target : BandwidthWaiter) → IsRemoval queue target
unfolding remove_waiter
remove_waiter_lem [] target = inr (tt, refl)
remove_waiter_lem (waiter ∷ rest) target = elim (Bool-cases (waiter.id == target.id)) [
  | inl same ↦ inl ([], waiter, rest, refl, omega (arith, (==_iff _ _).0 same), tt, rw same refl)
  | inr other ↦ elim (remove_waiter_lem rest target) [
    | inl (before, found, after, e, i, o, r) ↦
        inl (
          waiter ∷ before,
          found,
          after,
          ap (λ q. waiter ∷ q) e,
          i,
          (ground arith, o),
          rw (other, r),
        )
    | inr (o, r) ↦ inr ((ground arith, o), rw (other, r))
  ]
]

pub lookup-drop_endpoints :
    (references : List (String × List String)) (names : List String)
    (buckets : List (String × IntegerTokenBucket)) (name : String)
    → lookup name (drop_endpoints references names buckets) ≡ (
        if contains name names && not (endpoint_referenced references name)
        then none
        else lookup name buckets)
unfolding drop_endpoints contains
lookup-drop_endpoints references [] buckets name = refl
lookup-drop_endpoints references (first ∷ rest) buckets name = ground (
  arith,
  string_eq.equal_iff first name,
  lookup-delete first name buckets,
  lookup-drop_endpoints references rest (delete first buckets) name,
  lookup-drop_endpoints references rest buckets name,
)
