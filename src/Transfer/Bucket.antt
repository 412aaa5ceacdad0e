-- ===== src/Transfer/Bucket.antt =====
-- internal/transfer/scheduler.go: the integer token bucket. Times are nanoseconds of one clock, and
-- a difference of times stops at the largest duration, as Go's Sub does; amounts are uint64.
pub mod Refill
pub mod Waiting
pub mod Throughput
mod Tests
use awesome_sftp_cli.Base.{
  ℕ, ◌+◌, ◌-◌, ◌*◌, ◌/◌, ◌%◌, ◌^◌, min, Bool, not, ◌&&◌, ◌||◌, ltb, leb, ◌==◌, if◌then◌else◌,
}

abbrev pub second : ℕ
second = 1_000_000_000

abbrev pub max_duration : ℕ
max_duration = 2 ^ 63 - 1

pub record IntegerTokenBucket : Type 0 where
  pub rate : ℕ
  pub capacity : ℕ
  pub tokens : ℕ
  pub remainder : ℕ
  pub last : ℕ

unfoldable pub bucket_capacity : ℕ → ℕ → ℕ
bucket_capacity rate burst = burst

unfoldable pub initial_bucket_tokens : ℕ → ℕ → ℕ
initial_bucket_tokens rate capacity = if ltb 0 rate && ltb rate capacity then rate else capacity

unfoldable pub new_integer_token_bucket : ℕ → ℕ → ℕ → ℕ → IntegerTokenBucket
new_integer_token_bucket rate capacity initial now = record {
  rate = rate;
  capacity = capacity;
  tokens = if ltb capacity initial then capacity else initial;
  remainder = 0;
  last = now;
}

unfoldable pub update : IntegerTokenBucket → ℕ → ℕ → ℕ → IntegerTokenBucket
update b rate capacity now = record b {
  rate = rate;
  capacity = capacity;
  tokens = if ltb capacity b.tokens then capacity else b.tokens;
  last = now;
}

unfoldable pub saturating_multiply : ℕ → ℕ → ℕ → ℕ
saturating_multiply left right ceiling =
    let product = left * right % 2 ^ 64 in
    if left == 0 || right == 0
    then 0
    else if ltb (ceiling / right) left
    then ceiling
    else if ltb ceiling product
    then ceiling
    else product

unfoldable pub saturating_add : ℕ → ℕ → ℕ → ℕ
saturating_add left right ceiling =
    if leb ceiling left || leb (ceiling - left) right then ceiling else (left + right) % 2 ^ 64

-- The part of refill behind its early returns: `elapsed` has passed, and there is room.
unfoldable pub add_tokens : IntegerTokenBucket → ℕ → IntegerTokenBucket
unfolding saturating_multiply saturating_add
add_tokens b elapsed =
    let room = b.capacity - b.tokens in
    let seconds = elapsed / second in
    let nanoseconds = elapsed % second in
    let fractional = ((b.rate % second * nanoseconds) % 2 ^ 64 + b.remainder) % 2 ^ 64 in
    let whole = saturating_multiply seconds b.rate room in
    let part = saturating_add whole (b.rate / second * nanoseconds % 2 ^ 64) room in
    let added = saturating_add part (fractional / second) room in
    let tokens = saturating_add b.tokens added b.capacity in
    record b {
      tokens = tokens;
      remainder = if tokens == b.capacity then 0 else fractional % second;
    }

unfoldable pub refill : IntegerTokenBucket → ℕ → IntegerTokenBucket
refill b now =
    let b' = record b { last = now } in
    if not (ltb b.last now)
    then b
    else if b.rate == 0 || leb b.capacity b.tokens
    then record b' { remainder = 0 }
    else add_tokens b' (min (now - b.last) max_duration)

unfoldable pub available : IntegerTokenBucket → ℕ → Bool
available b bytes = b.rate == 0 || leb bytes b.tokens

unfoldable pub consume : IntegerTokenBucket → ℕ → IntegerTokenBucket
consume b bytes =
    if not (b.rate == 0) then record b { tokens = (b.tokens + 2 ^ 64 - bytes) % 2 ^ 64 } else b

unfoldable pub wait_duration : IntegerTokenBucket → ℕ → ℕ
wait_duration b bytes =
    let missing = bytes - b.tokens in
    let product = missing * second % 2 ^ 64 in
    let numerator = if ltb b.remainder product then product - b.remainder else 1 in
    let nanoseconds = numerator / b.rate in
    let rounded =
      if not (numerator % b.rate == 0) then (nanoseconds + 1) % 2 ^ 64 else nanoseconds in
    if b.rate == 0 || leb bytes b.tokens
    then 0
    else if ltb max_duration rounded
    then max_duration
    else rounded
