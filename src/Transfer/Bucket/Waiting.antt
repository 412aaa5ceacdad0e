-- ===== src/Transfer/Bucket/Waiting.antt =====
-- scheduler.go: waitDuration against refill.
use awesome_sftp_cli.Base.{
  ℕ, zero, suc, ◌+◌, ◌-◌, ◌*◌, ◌/◌, ◌%◌, ◌^◌, ◌≤◌, ◌<◌, ◌≡◌, ap, ◌∙◌, inl, inr, true, false, arith,
  leb, ◌==◌, if◌then◌else◌, lt→ltb, le→leb, ==_iff, Bool-cases,
}
use native.Mathlib.Nat.{
  div-add-mod, mod-lt, mod-eq_of_lt, div-le_self, mul-le-mul_right, mul-le-mul_left,
}
use awesome_sftp_cli.Transfer.Bucket.{
  IntegerTokenBucket, wait_duration, second, available, max_duration, refill,
}
use awesome_sftp_cli.Transfer.Bucket.Refill.{IsBucket, credit, refill_lem, refill_still}

-- Division that rounds up.
abbrev ceiling_div : ℕ → ℕ → ℕ
ceiling_div n d = if n % d == 0 then n / d else n / d + 1

mul_pred : (d k n : ℕ) → 0 < d → d * k ≤ n → 0 < n → d * (k - 1) < n
mul_pred d zero n p h q = omega arith
mul_pred d (suc k) n p h q = omega (arith, ap (λ t. d * t) (pred_suc k))
  where
    pred_suc : (k : ℕ) → suc k - 1 ≡ k
    pred_suc k = omega arith

ceiling_div_lem :
    (n d : ℕ)
    → 0 < d
    → 0 < n
    → (n ≤ d * ceiling_div n d) × (d * (ceiling_div n d - 1) < n) × (0 < ceiling_div n d)
ceiling_div_lem n d p q = elim (Bool-cases (n % d == 0)) [
  | inl exact ↦
      let whole : d * (n / d) ≡ n = omega (arith, div-add-mod n d, (==_iff (n % d) 0).0 exact) in
      rw exact (
        omega (arith, whole),
        mul_pred d (n / d) n p (omega (arith, whole)) q,
        positive d (n / d) n whole q,
      )
  | inr more ↦
      let left : 0 < n % d = ground (arith, ==_iff (n % d) 0) in
      let back : n / d + 1 - 1 ≡ n / d = omega arith in
      rw more (
        omega (arith, div-add-mod n d, mod-lt n p),
        rw back (omega (arith, div-add-mod n d, left)),
        omega arith,
      )
]
  where
    positive : (d k n : ℕ) → d * k ≡ n → 0 < n → 0 < k
    positive d zero n e h = omega (arith, e)
    positive d (suc k) n e h = omega arith

-- The credit that is missing for a request.
abbrev missing : IntegerTokenBucket → ℕ → ℕ
missing b bytes = bytes * second - credit b

wait_duration-ceiling_div :
    (b : IntegerTokenBucket) (bytes : ℕ)
    → IsBucket b
    → 0 < b.rate
    → b.tokens < bytes
    → bytes ≤ b.capacity
    → wait_duration b bytes ≡ ceiling_div (missing b bytes) b.rate
unfolding wait_duration
wait_duration-ceiling_div b bytes v p short fits =
    let wide : (bytes - b.tokens) * second % 2 ^ 64 ≡ (bytes - b.tokens) * second =
      mod-eq_of_lt (omega (arith, v.small)) in
    let n : (bytes - b.tokens) * second - b.remainder ≡ missing b bytes = omega arith in
    let q : missing b bytes / b.rate ≤ missing b bytes = div-le_self _ _ in
    rw (wide, lt→ltb b.remainder ((bytes - b.tokens) * second) (omega (arith, v.fraction)), n)
      (ground arith)

-- After t nanoseconds a refilled bucket has the tokens exactly when the rate has earned what is
-- missing.
available_after :
    (b : IntegerTokenBucket) (bytes t : ℕ)
    → IsBucket b
    → 0 < b.rate
    → b.tokens < bytes
    → bytes ≤ b.capacity
    → 0 < t
    → t ≤ max_duration
    → available (refill b (b.last + t)) bytes ≡ leb (missing b bytes) (b.rate * t)
unfolding available
available_after b bytes t v p short fits q m =
    let (tokens, _, _, rate, _) = refill_lem b t v p (omega arith) q m in
    ground (arith, tokens, rate)

-- The wait is positive, fits a duration, earns what is missing, and a nanosecond less does not.
wait_duration_lem :
    (b : IntegerTokenBucket) (bytes : ℕ)
    → IsBucket b
    → 0 < b.rate
    → b.tokens < bytes
    → bytes ≤ b.capacity
    → let w = wait_duration b bytes in
      (0 < w)
      × (w ≤ max_duration)
      × (missing b bytes ≤ b.rate * w)
      × (b.rate * (w - 1) < missing b bytes)
wait_duration_lem b bytes v p short fits =
    let (enough, tight, positive) =
      ceiling_div_lem (missing b bytes) b.rate p (omega (arith, v.fraction)) in
    let least = mul-le-mul_right (ceiling_div (missing b bytes) b.rate - 1) p in
    rw (wait_duration-ceiling_div b bytes v p short fits)
      (positive, omega (arith, tight, least, v.small), enough, tight)

available_before :
    (b : IntegerTokenBucket) (bytes t : ℕ)
    → IsBucket b
    → 0 < b.rate
    → b.tokens < bytes
    → bytes ≤ b.capacity
    → t < wait_duration b bytes
    → available (refill b (b.last + t)) bytes ≡ false
available_before b bytes zero v p short fits h =
    rw (refill_still b (b.last + 0) (omega arith)) (unfold available in ground arith)
available_before b bytes (suc t) v p short fits h =
    let (_, m, _, tight) = wait_duration_lem b bytes v p short fits in
    let less =
      mul-le-mul_left {m = suc t} {n = wait_duration b bytes - 1} b.rate (omega (arith, h)) in
    available_after b bytes (suc t) v p short fits (omega arith) (omega (arith, h, m))
    ∙ ground (arith, less, tight)

-- A request that a bucket cannot serve now, and that its capacity allows, is served by the refill
-- after `wait_duration`, and by none before: the wait is enough and never too long.
pub wait_duration_exact :
    (b : IntegerTokenBucket) (bytes t : ℕ)
    → IsBucket b
    → 0 < b.rate
    → available b bytes ≡ false
    → bytes ≤ b.capacity
    → (available (refill b (b.last + wait_duration b bytes)) bytes ≡ true)
      × (t < wait_duration b bytes → available (refill b (b.last + t)) bytes ≡ false)
unfolding available
wait_duration_exact b bytes t v p short fits =
    let few : b.tokens < bytes = ground arith in
    let (positive, m, enough, _) = wait_duration_lem b bytes v p few fits in
    (
      available_after b bytes (wait_duration b bytes) v p few fits positive m ∙ le→leb _ _ enough,
      available_before b bytes t v p few fits,
    )
