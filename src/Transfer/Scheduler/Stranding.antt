-- ===== src/Transfer/Scheduler/Stranding.antt =====
-- internal/transfer/scheduler.go: the test of Update for a queued request that is larger than the
-- burst. It goes by the rate that the request states, not by the rate that its Job's bucket has.
use native.Mathlib.Nat.{le_trans}
use awesome_sftp_cli.Base.{◌≡◌, refl, false, List, [], ◌∷◌, ◌++◌, arith, le→leb, ok, string_eq}
use awesome_sftp_cli.Transfer.Scheduler.Waits.{is_stranded, strands}
use awesome_sftp_cli.Transfer.Scheduler.Policy.{SchedulerPolicy, BandwidthRequest, validate_request}
use awesome_sftp_cli.Transfer.Scheduler.Queues.{remove_waiter, tail_of}
use awesome_sftp_cli.Transfer.Scheduler.Buckets.{BandwidthWaiter}
use awesome_sftp_cli.Transfer.Scheduler.Limits.{IsNormalPolicy, validate_bounds}

pub strands-append :
    (p : SchedulerPolicy) (xs ys : List BandwidthWaiter)
    → strands p xs ≡ false
    → strands p ys ≡ false
    → strands p (xs ++ ys) ≡ false
unfolding strands
strands-append p [] ys h k = k
strands-append p (x ∷ xs) ys h k = ground (arith, strands-append p xs ys)

pub strands-tail :
    (p : SchedulerPolicy) (q : List BandwidthWaiter)
    → strands p q ≡ false
    → strands p (tail_of q) ≡ false
unfolding strands tail_of
strands-tail p [] h = refl
strands-tail p (x ∷ q) h = ground arith

pub strands-remove_waiter :
    (p : SchedulerPolicy) (q : List BandwidthWaiter) (target : BandwidthWaiter)
    → strands p q ≡ false
    → strands p (remove_waiter q target).0 ≡ false
unfolding strands remove_waiter
strands-remove_waiter p [] target h = refl
strands-remove_waiter p (x ∷ q) target h = ground (arith, strands-remove_waiter p q target)

pub validated_fits :
    (p : SchedulerPolicy) (r : BandwidthRequest)
    → IsNormalPolicy p
    → validate_request p r ≡ ok tt
    → is_stranded p r ≡ false
unfolding is_stranded
validated_fits p r n v =
    let (some_bytes, within, named) = validate_bounds p r v in
    rw (le→leb r.bytes p.burst_bytes (le_trans within n.covers)) refl

pub single_fits :
    (p : SchedulerPolicy) (waiter : BandwidthWaiter)
    → is_stranded p waiter.request ≡ false
    → strands p (waiter ∷ []) ≡ false
unfolding strands
single_fits p waiter h = rw h refl
