-- ===== src/Transfer/Bucket/Refill.antt =====
-- scheduler.go: refill computes the exact credit, with no loss between calls and no overflow.
use native.Mathlib.Nat.{div-lt_iff_lt-mul, mul-le-mul, mod-eq_of_lt}
use awesome_sftp_cli.Base.{
  ℕ, zero, suc, ◌+◌, ◌-◌, ◌*◌, ◌/◌, ◌%◌, ◌^◌, ◌≤◌, ◌<◌, min, ◌≡◌, refl, ◌∙◌, ◌⊎◌, arith, ◌==◌,
  if◌then◌else◌,
}
use awesome_sftp_cli.Transfer.Bucket.{
  IntegerTokenBucket, saturating_add, saturating_multiply, second, add_tokens, refill, max_duration,
}

pub saturating_multiply_lem : (l r c : ℕ) → c < 2 ^ 64 → saturating_multiply l r c ≡ min (l * r) c
unfolding saturating_multiply
saturating_multiply_lem l zero c h = ground arith
saturating_multiply_lem l (suc r) c h =
    ground (arith, div-lt_iff_lt-mul {k = suc r} {x = c} {y = l} (omega arith))

pub saturating_add_lem : (l r c : ℕ) → c < 2 ^ 64 → saturating_add l r c ≡ min (l + r) c
unfolding saturating_add
saturating_add_lem l r c h = ground arith

-- The limits that the scheduler's policy puts on a bucket.
pub record IsBucket (b : IntegerTokenBucket) : Type 0 where
  pub slow : b.rate ≤ 2 ^ 40
  pub small : b.capacity ≤ 2 ^ 19
  pub within : b.tokens ≤ b.capacity
  pub fraction : b.remainder < second

-- Tokens in units of a billionth, with the fraction.
abbrev pub credit : IntegerTokenBucket → ℕ
credit b = b.tokens * second + b.remainder

product_split :
    (rate t r q s n : ℕ)
    → rate ≡ r * second + q
    → t ≡ s * second + n
    → rate * t ≡ (s * rate + r * n) * second + q * n
product_split rate t r q s n e d = rw (e, d) (omega arith)

-- A rate over a time, each cut at a second.
rate_split :
    (rate t : ℕ)
    → rate * t
      ≡ (t / second * rate + rate / second * (t % second)) * second + rate % second * (t % second)
rate_split rate t =
    product_split rate t (rate / second) (rate % second) (t / second) (t % second) (omega arith)
      (omega arith)

mul_small : (a b : ℕ) → a < second → b < second → a * b ≤ (second - 1) * (second - 1)
mul_small a b ha hb =
    mul-le-mul {n₁ = a} {m₁ = b} {n₂ = second - 1} {m₂ = second - 1} (omega arith) (omega arith)

mul_whole : (a b : ℕ) → a ≤ 1100 → b < second → a * b ≤ 1100 * second
mul_whole a b ha hb =
    mul-le-mul {n₁ = a} {m₁ = b} {n₂ = 1100} {m₂ = second} (omega arith) (omega arith)

-- Three saturating additions in the room that is left, and one up to the capacity, are one minimum.
saturated_sum :
    (tokens m w f capacity : ℕ)
    → tokens ≤ capacity
    → capacity < 2 ^ 64
    → let room = capacity - tokens in
      saturating_add tokens (saturating_add (saturating_add (min m room) w room) f room) capacity
      ≡ min (tokens + m + w + f) capacity
saturated_sum tokens m w f capacity h k =
    let room = capacity - tokens in
    rw
      (
        saturating_add_lem (min m room) w room (omega arith),
        saturating_add_lem (min (min m room + w) room) f room (omega arith),
      )
      (saturating_add_lem tokens _ capacity k ∙ omega arith)

-- The tokens earned in a time, and the fraction that is left over.
abbrev pub earned : IntegerTokenBucket → ℕ → ℕ
earned b t =
    b.tokens
    + t / second * b.rate
    + b.rate / second * (t % second)
    + (b.rate % second * (t % second) + b.remainder) / second

abbrev pub left_over : IntegerTokenBucket → ℕ → ℕ
left_over b t = (b.rate % second * (t % second) + b.remainder) % second

-- What add_tokens computes in wrapping and saturating arithmetic.
add_tokens_lem :
    (b : IntegerTokenBucket) (t : ℕ)
    → IsBucket b
    → ((add_tokens b t).tokens ≡ min (earned b t) b.capacity)
      × ((add_tokens b t).remainder
          ≡ (if min (earned b t) b.capacity == b.capacity then 0 else left_over b t))
unfolding add_tokens
add_tokens_lem b t v =
    let whole : (b.rate / second * (t % second)) % 2 ^ 64 ≡ b.rate / second * (t % second) =
      mod-eq_of_lt (
        omega (
          arith,
          v.slow,
          mul_whole (b.rate / second) (t % second) (omega (arith, v.slow)) (omega arith),
        )) in
    let part : ((b.rate % second * (t % second)) % 2 ^ 64 + b.remainder) % 2 ^ 64
        ≡ b.rate % second * (t % second) + b.remainder =
      omega
        (arith, v.fraction, mul_small (b.rate % second) (t % second) (omega arith) (omega arith)) in
    let sum =
      saturated_sum b.tokens (t / second * b.rate) (b.rate / second * (t % second))
        ((b.rate % second * (t % second) + b.remainder) / second) b.capacity v.within
        (omega (arith, v.small)) in
    rw
      (
        whole,
        part,
        saturating_multiply_lem (t / second) b.rate (b.capacity - b.tokens)
            (omega (arith, v.small)),
      )
      (sum, rw sum refl)

-- In a billionth of a token, the credit grows by exactly the rate for each nanosecond.
earned-credit :
    (b : IntegerTokenBucket) (t : ℕ) → earned b t * second + left_over b t ≡ credit b + b.rate * t
earned-credit b t = omega (arith, rate_split b.rate t)

refill-add_tokens :
    (b : IntegerTokenBucket) (t : ℕ)
    → 0 < b.rate
    → b.tokens < b.capacity
    → 0 < t
    → t ≤ max_duration
    → refill b (b.last + t) ≡ add_tokens (record b { last = b.last + t }) t
unfolding refill
refill-add_tokens b t r c p m = ground arith

add_tokens_keeps :
    (b : IntegerTokenBucket) (t : ℕ)
    → ((add_tokens b t).last ≡ b.last)
      × ((add_tokens b t).rate ≡ b.rate)
      × ((add_tokens b t).capacity ≡ b.capacity)
unfolding add_tokens
add_tokens_keeps b t = (refl, refl, refl)

-- Below its capacity a bucket with a rate earns exactly the rate for each nanosecond, with the
-- fraction of a token carried over, up to the capacity; a full bucket drops the fraction.
pub refill_lem :
    (b : IntegerTokenBucket) (t : ℕ)
    → IsBucket b
    → 0 < b.rate
    → b.tokens < b.capacity
    → 0 < t
    → t ≤ max_duration
    → let b' = refill b (b.last + t) in
      (b'.tokens ≡ min ((credit b + b.rate * t) / second) b.capacity)
      × (b'.remainder ≡ (if b'.tokens == b.capacity then 0 else (credit b + b.rate * t) % second))
      × (b'.last ≡ b.last + t)
      × (b'.rate ≡ b.rate)
      × (b'.capacity ≡ b.capacity)
refill_lem b t v r c p m =
    let d = record b { last = b.last + t } in
    let (tokens, remainder) =
      add_tokens_lem d t
        (record { slow = v.slow; small = v.small; within = v.within; fraction = v.fraction }) in
    let (last, rate, capacity) = add_tokens_keeps d t in
    let quotient : (credit b + b.rate * t) / second ≡ earned b t =
      omega (arith, earned-credit b t) in
    let fraction : (credit b + b.rate * t) % second ≡ left_over b t =
      omega (arith, earned-credit b t) in
    rw (refill-add_tokens b t r c p m, quotient, fraction)
      (tokens, rw tokens remainder, last, rate, capacity)

-- The other branches: nothing changes while the clock stands or runs back, and a bucket with no
-- rate or no room only drops its fraction.
pub refill_still : (b : IntegerTokenBucket) (now : ℕ) → now ≤ b.last → refill b now ≡ b
unfolding refill
refill_still b now h = ground arith

pub refill_full :
    (b : IntegerTokenBucket) (now : ℕ)
    → b.last < now
    → (b.rate ≡ 0) ⊎ (b.capacity ≤ b.tokens)
    → refill b now ≡ record b { last = now; remainder = 0 }
unfolding refill
refill_full b now h k = ground arith
