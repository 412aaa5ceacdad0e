-- ===== src/Transfer/Bucket/Throughput.antt =====
-- scheduler.go: what a bucket lets through over any sequence of refills and grants.
use awesome_sftp_cli.Base.{
  ℕ, ◌+◌, ◌-◌, ◌*◌, ◌/◌, ◌%◌, ◌≤◌, ◌<◌, min, max, ◌≡◌, refl, ap, ◌∙◌, inl, inr, List, [], ◌∷◌,
  arith, ◌==◌, if◌then◌else◌, All,
}
use awesome_sftp_cli.Transfer.Bucket.{
  IntegerTokenBucket, max_duration, refill, available, consume, second,
}
use awesome_sftp_cli.Transfer.Bucket.Refill.{
  IsBucket, credit, refill_lem, refill_still, refill_full,
}
use native.Mathlib.Nat.{mul-le-mul_left}
use native.Mathlib.Decide.{dec_lt}
use mathlib.Core.Path.{subst}

-- What a refill leaves: within the limits, and at most the credit that the time earned.
pub record Refilled (b : IntegerTokenBucket) (now : ℕ) (b' : IntegerTokenBucket) : Type 0 where
  pub bucket : IsBucket b'
  pub bounded : credit b' + b.rate * b.last ≤ credit b + b.rate * b'.last
  pub clock : b'.last ≡ max b.last now
  pub rate : b'.rate ≡ b.rate
  pub capacity : b'.capacity ≡ b.capacity

-- A bucket filled from a credit holds no more than that.
credit-le :
    (b : IntegerTokenBucket) (total capacity : ℕ)
    → b.tokens ≡ min (total / second) capacity
    → b.remainder ≡ (if b.tokens == capacity then 0 else total % second)
    → credit b ≤ total
credit-le b total capacity h k = ground arith

refill_earns :
    (b : IntegerTokenBucket) (t : ℕ)
    → IsBucket b
    → 0 < b.rate
    → b.tokens < b.capacity
    → 0 < t
    → t ≤ max_duration
    → Refilled b (b.last + t) (refill b (b.last + t))
refill_earns b t v r c p m =
    let (tokens, remainder, last, rate, capacity) = refill_lem b t v r c p m in
    record {
      bucket = record {
        slow = omega (arith, v.slow, rate);
        small = omega (arith, v.small, capacity);
        within = omega (arith, tokens, capacity);
        fraction = ground (arith, remainder);
      };
      bounded = rw last (
          omega (
            arith,
            credit-le (refill b (b.last + t)) (credit b + b.rate * t) b.capacity tokens remainder,
          ));
      clock = omega (arith, last);
      rate = rate;
      capacity = capacity;
    }

pub refill-Refilled :
    (b : IntegerTokenBucket) (now : ℕ)
    → now ≤ b.last + max_duration
    → IsBucket b
    → Refilled b now (refill b now)
refill-Refilled b now h v = elim (dec_lt b.last now) [
  | no early ↦ rw (refill_still b now (omega arith)) (record {
    bucket = v;
    bounded = omega arith;
    clock = omega arith;
    rate = refl;
    capacity = refl;
  })
  | yes later ↦ elim (dec_lt 0 b.rate) [
    | no unlimited ↦ rw (refill_full b now later (inl (omega arith))) (full v later)
    | yes limited ↦ elim (dec_lt b.tokens b.capacity) [
      | no filled ↦ rw (refill_full b now later (inr (omega arith))) (full v later)
      | yes room ↦
          let t : b.last + (now - b.last) ≡ now = omega arith in
          subst (λ n. Refilled b n (refill b n)) t
            (refill_earns b (now - b.last) v limited room (omega arith) (omega arith))
    ]
  ]
]
  where
    full : IsBucket b → b.last < now → Refilled b now (record b { last = now; remainder = 0 })
    full w later = record {
      bucket = record { slow = w.slow; small = w.small; within = w.within; fraction = omega arith };
      bounded = omega (arith, mul-le-mul_left b.rate later);
      clock = omega arith;
      rate = refl;
      capacity = refl;
    }

-- The calls on one bucket: the clock is read, or a request is granted if there are tokens for it.
pub data Op : Type 0 where
  refills grants : ℕ → Op

-- The bucket after an operation, and the bytes that it lets through.
unfoldable pub apply : IntegerTokenBucket → Op → IntegerTokenBucket × ℕ
apply b (refills now) = (refill b now, 0)
apply b (grants bytes) = if available b bytes then (consume b bytes, bytes) else (b, 0)

unfoldable pub run : IntegerTokenBucket → List Op → IntegerTokenBucket × ℕ
run b [] = (b, 0)
run b (o ∷ os) =
    let (b', granted) = apply b o in let (last, later) = run b' os in (last, granted + later)

-- The clock is read within a duration of the time at which the sequence starts.
abbrev pub IsTimely : ℕ → Op → Type 0
IsTimely start (refills now) = now ≤ start + max_duration
IsTimely start (grants bytes) = Unit {0}

-- One step pays for what it lets through out of the credit.
record Paid (b : IntegerTokenBucket) (r : IntegerTokenBucket × ℕ) : Type 0 where
  bucket : IsBucket r.0
  paid : r.1 * second + credit r.0 + b.rate * b.last ≤ credit b + b.rate * r.0.last
  later : b.last ≤ r.0.last
  rate : r.0.rate ≡ b.rate

apply-Paid :
    (b : IntegerTokenBucket) (o : Op)
    → 0 < b.rate
    → IsTimely b.last o
    → IsBucket b
    → Paid b (apply b o)
unfolding apply consume available
apply-Paid b (refills now) p h v =
    let r = refill-Refilled b now h v in
    record {
      bucket = r.bucket;
      paid = omega (arith, r.bounded);
      later = omega (arith, r.clock);
      rate = r.rate;
    }
apply-Paid b (grants bytes) p h v = ground arith

IsTimely-later :
    (start start' : ℕ) (os : List Op)
    → start ≤ start'
    → All (IsTimely start) os
    → All (IsTimely start') os
IsTimely-later start start' [] h t = tt
IsTimely-later start start' (refills now ∷ os) h t =
    (omega (arith, t.0), IsTimely-later start start' os h t.1)
IsTimely-later start start' (grants bytes ∷ os) h t = (tt, IsTimely-later start start' os h t.1)

run-Paid :
    (b : IntegerTokenBucket) (os : List Op)
    → 0 < b.rate
    → All (IsTimely b.last) os
    → IsBucket b
    → Paid b (run b os)
unfolding run
run-Paid b [] p t v = record { bucket = v; paid = omega arith; later = omega arith; rate = refl }
run-Paid b (o ∷ os) p t v =
    let first = apply-Paid b o p t.0 v in
    let b' = (apply b o).0 in
    let rest =
      run-Paid b' os (omega (arith, first.rate)) (IsTimely-later b.last b'.last os first.later t.1)
        first.bucket in
    record {
      bucket = rest.bucket;
      paid = omega (
        arith,
        first.paid,
        rest.paid,
        ap (λ r. r * b'.last) first.rate,
        ap (λ r. r * (run b' os).0.last) first.rate,
      );
      later = omega (arith, first.later, rest.later);
      rate = rest.rate ∙ first.rate;
    }

rate_over :
    (rate from to n m : ℕ)
    → from ≤ to
    → n + rate * from ≤ m + rate * to
    → n ≤ m + rate * (to - from)
rate_over rate from to n m h e =
    let later : from + (to - from) ≡ to = omega arith in omega (arith, e, ap (λ t. rate * t) later)

-- Over any sequence of refills and grants, what a bucket with a rate lets through is at most the
-- credit that it had and its rate over the time that passed on its clock; and the bucket stays
-- within its limits, with the same rate. The clock is read within the longest duration.
pub throughput_bounded :
    (b : IntegerTokenBucket) (os : List Op)
    → 0 < b.rate
    → All (IsTimely b.last) os
    → IsBucket b
    → let (b', granted) = run b os in
      (granted * second ≤ credit b + b.rate * (b'.last - b.last)) × IsBucket b' × (b'.rate ≡ b.rate)
throughput_bounded b os p t v =
    let whole = run-Paid b os p t v in
    (
      rate_over b.rate b.last (run b os).0.last ((run b os).1 * second) (credit b) whole.later
          (omega (arith, whole.paid)),
      whole.bucket,
      whole.rate,
    )
