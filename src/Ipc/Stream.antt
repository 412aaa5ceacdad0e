-- ===== src/Ipc/Stream.antt =====
-- internal/ipc/frame.go: readFull and writeAll, over an io.Reader and an io.Writer that are not part
-- of this code. What a call of Read or Write does to the connection is a parameter.
use awesome_sftp_cli.Base.{
  ℕ, zero, suc, ◌+◌, ◌-◌, String, Option, none, some, List, [], ◌∷◌, ◌++◌, ltb, leb, ◌==◌,
  if◌then◌else◌, length, Result, ok, err,
}

pub data StreamError : Type 0 where
  end_of_file unexpected_end no_progress short_write out_of_fuel : StreamError
  other_failure : String → StreamError

abbrev pub max_empty_reads : ℕ
max_empty_reads = 100

abbrev pub cut_short : ℕ → StreamError → StreamError
cut_short total end_of_file = if total == 0 then end_of_file else unexpected_end
cut_short total unexpected_end = unexpected_end
cut_short total no_progress = no_progress
cut_short total short_write = short_write
cut_short total out_of_fuel = out_of_fuel
cut_short total (other_failure text) = other_failure text

-- The loop of readFull behind a Read that leaves some of the room; `again` goes on.
unfoldable pub after_read {ℓ} :
    {S : Type ℓ}
    → (ℕ → S × Result StreamError (List ℕ))
    → ℕ
    → ℕ
    → ℕ
    → S
    → Option StreamError
    → S × Result StreamError (List ℕ)
after_read again read_bytes total empty_reads s (some problem) = (s, err (cut_short total problem))
after_read again read_bytes total empty_reads s none =
    if ltb 0 read_bytes
    then again 0
    else if leb max_empty_reads (empty_reads + 1)
    then (s, err no_progress)
    else again (empty_reads + 1)

-- `read s n` is Read with room for n bytes: the connection after it, the bytes, the error if any.
-- `need` is the room that is left, `got` what was read.
unfoldable pub read_full {ℓ} :
    {S : Type ℓ}
    → (S → ℕ → S × List ℕ × Option StreamError)
    → ℕ
    → ℕ
    → ℕ
    → List ℕ
    → S
    → S × Result StreamError (List ℕ)
unfolding after_read
read_full read fuel zero empty_reads got s = (s, ok got)
read_full read zero (suc need) empty_reads got s = (s, err out_of_fuel)
read_full read (suc fuel) (suc need) empty_reads got s =
    let (s', chunk, problem) = read s (suc need) in
    let again =
      λ (empties : ℕ). read_full read fuel (suc need - length chunk) empties (got ++ chunk) s' in
    if length chunk == suc need
    then (s', ok (got ++ chunk))
    else after_read again (length chunk) (length (got ++ chunk)) empty_reads s' problem

-- The loop of writeAll behind a Write of some of the bytes.
unfoldable pub after_write {ℓ} :
    {S : Type ℓ}
    → S × Result StreamError (Unit {0})
    → ℕ
    → S
    → Option StreamError
    → S × Result StreamError (Unit {0})
after_write again written s (some problem) = (s, err problem)
after_write again written s none = if written == 0 then (s, err short_write) else again

unfoldable pub drop : ℕ → List ℕ → List ℕ
drop zero value = value
drop (suc n) [] = []
drop (suc n) (byte ∷ rest) = drop n rest

-- A negative count counts as one beyond the bytes: both are refused.
unfoldable pub write_all {ℓ} :
    {S : Type ℓ}
    → (S → List ℕ → S × ℕ × Option StreamError)
    → ℕ
    → List ℕ
    → S
    → S × Result StreamError (Unit {0})
unfolding after_write drop
write_all write fuel [] s = (s, ok tt)
write_all write zero (byte ∷ rest) s = (s, err out_of_fuel)
write_all write (suc fuel) (byte ∷ rest) s =
    let (s', written, problem) = write s (byte ∷ rest) in
    let again = write_all write fuel (drop written (byte ∷ rest)) s' in
    if ltb (length (byte ∷ rest)) written
    then (s', err short_write)
    else after_write again written s' problem
