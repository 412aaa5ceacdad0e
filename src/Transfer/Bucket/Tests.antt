-- ===== src/Transfer/Bucket/Tests.antt =====
-- scheduler.go: a bucket of 1000 bytes a second.
use awesome_sftp_cli.Base.{
  ◌+◌, ◌-◌, ◌*◌, ◌/◌, ◌%◌, ◌≤◌, ◌<◌, min, ◌≡◌, refl, true, false, List, [], ◌∷◌, arith, ◌==◌,
  if◌then◌else◌,
}
use awesome_sftp_cli.Transfer.Bucket.{
  IntegerTokenBucket, available, refill, second, wait_duration, consume, add_tokens,
}
use awesome_sftp_cli.Transfer.Bucket.Refill.{IsBucket, credit, refill_lem}
use awesome_sftp_cli.Transfer.Bucket.Throughput.{
  Op, run, apply, grants, refills, throughput_bounded,
}
use awesome_sftp_cli.Transfer.Bucket.Waiting.{wait_duration_exact}

abbrev slow_bucket : IntegerTokenBucket
slow_bucket = record { rate = 1000; capacity = 500; tokens = 100; remainder = 7; last = 50 }

slow_bucket-IsBucket : IsBucket slow_bucket
slow_bucket-IsBucket = omega arith

refill_lem_example :
    let b' = refill slow_bucket (50 + 3_000_000) in
    (b'.tokens ≡ min ((credit slow_bucket + 1000 * 3_000_000) / second) 500)
    × (b'.remainder
        ≡ (if b'.tokens == 500 then 0 else (credit slow_bucket + 1000 * 3_000_000) % second))
    × (b'.last ≡ 50 + 3_000_000)
    × (b'.rate ≡ 1000)
    × (b'.capacity ≡ 500)
refill_lem_example =
    refill_lem slow_bucket 3_000_000 slow_bucket-IsBucket (omega arith) (omega arith) (omega arith)
      (omega arith)

abbrev traffic : List Op
traffic = grants 80 ∷ refills 2_000_000 ∷ grants 30 ∷ refills 40_000_000 ∷ grants 50 ∷ []

throughput_bounded_example :
    let (b', granted) = run slow_bucket traffic in
    (granted * second ≤ credit slow_bucket + 1000 * (b'.last - 50)) × IsBucket b' × (b'.rate ≡ 1000)
throughput_bounded_example =
    throughput_bounded slow_bucket traffic (omega arith)
      (tt, (omega arith, (tt, (omega arith, (tt, tt))))) slow_bucket-IsBucket

traffic_granted : (run slow_bucket traffic).1 ≡ 130
unfolding run apply available consume refill add_tokens
traffic_granted = refl

wait_duration_exact_example :
    (available (refill slow_bucket (50 + wait_duration slow_bucket 120)) 120 ≡ true)
    × (9_000_000 < wait_duration slow_bucket 120
        → available (refill slow_bucket (50 + 9_000_000)) 120 ≡ false)
unfolding available
wait_duration_exact_example =
    wait_duration_exact slow_bucket 120 9_000_000 slow_bucket-IsBucket (omega arith) refl
      (omega arith)
