-- ===== src/Ipc/Returning.antt =====
-- internal/ipc/frame.go: the fuel of readFull and writeAll is enough for any connection.
use awesome_sftp_cli.Base.{
  ℕ, zero, suc, ◌+◌, ◌-◌, ◌*◌, ◌≤◌, ◌<◌, ◌≡◌, refl, ap, ◌∙◌, ◌≢◌, inl, inr, Option, some, List, [],
  ◌∷◌, ◌++◌, arith, ltb, leb, ◌==◌, ltb→lt, Bool-cases, Option-cases, length, Result, err,
}
use awesome_sftp_cli.Ipc.Stream.{
  StreamError, read_full, write_all, drop, end_of_file, unexpected_end, no_progress, short_write,
  out_of_fuel, other_failure, after_read, after_write, cut_short, max_empty_reads,
}
use awesome_sftp_cli.Ipc.Streaming.{length-drop}

cut_short-own :
    (total : ℕ) (problem : StreamError)
    → cut_short total problem ≡ out_of_fuel
    → problem ≡ out_of_fuel
cut_short-own total end_of_file h = absurd (ground arith)
cut_short-own total unexpected_end h = absurd (ground arith)
cut_short-own total no_progress h = absurd (ground arith)
cut_short-own total short_write h = absurd (ground arith)
cut_short-own total out_of_fuel h = refl
cut_short-own total (other_failure text) h = absurd (ground arith)

err-injective : {A E : Type 0} {e f : E} → ◌≡◌ {A = Result E A} (err e) (err f) → e ≡ f
err-injective h = cc

module _ {S : Type 0} (read : S → ℕ → S × List ℕ × Option StreamError)
    (room_kept : (s : S) (room : ℕ) → length (read s room).1 ≤ room)
    (own_errors : (s : S) (room : ℕ) → (read s room).2 ≢ some out_of_fuel) where
  -- Each byte of the room may come after fewer than a hundred empty reads.
  pub read_full-returns :
      (fuel need empty_reads : ℕ) (got : List ℕ) (s : S)
      → empty_reads < 100
      → 100 * need < fuel + empty_reads + 1
      → (read_full read fuel need empty_reads got s).1 ≢ err out_of_fuel
  unfolding read_full after_read
  read_full-returns fuel zero empty_reads got s e f = λ h. cc
  read_full-returns zero (suc need) empty_reads got s e f = absurd (omega arith)
  read_full-returns (suc fuel) (suc need) empty_reads got s e f =
      let s' = (read s (suc need)).0 in
      let chunk = (read s (suc need)).1 in
      let kept = room_kept s (suc need) in
      let left = suc need - length chunk in
      elim (Bool-cases (length chunk == suc need)) [
        | inl full ↦ rw full (λ h. cc)
        | inr part ↦ elim (Option-cases (read s (suc need)).2) [
          | inr (problem, failed) ↦
              rw (part, failed)
                (λ h. own_errors s (suc need) (
                  failed
                  ∙ ap some (cut_short-own (length (got ++ chunk)) problem (err-injective h))))
          | inl fine ↦ elim (Bool-cases (ltb 0 (length chunk))) [
            | inl some_bytes ↦
                rw (part, fine, some_bytes)
                  (read_full-returns fuel left 0 (got ++ chunk) s' (omega arith)
                    (let k = ltb→lt 0 (length chunk) some_bytes in omega arith))
            | inr no_bytes ↦ elim (Bool-cases (leb max_empty_reads (empty_reads + 1))) [
              | inl stuck ↦ rw (part, fine, no_bytes, stuck) (λ h. cc)
              | inr again ↦
                  rw (part, fine, no_bytes, again)
                    (read_full-returns fuel left (empty_reads + 1) (got ++ chunk) s' (ground arith)
                      (omega arith))
            ]
          ]
        ]
      ]

module _ {S : Type 0} (write : S → List ℕ → S × ℕ × Option StreamError)
    (own_errors : (s : S) (value : List ℕ) → (write s value).2 ≢ some out_of_fuel) where
  -- Each Write that goes on takes a byte.
  pub write_all-returns :
      (fuel : ℕ) (value : List ℕ) (s : S)
      → length value ≤ fuel
      → (write_all write fuel value s).1 ≢ err out_of_fuel
  unfolding write_all after_write
  write_all-returns fuel [] s f = λ h. cc
  write_all-returns zero (x ∷ xs) s f = absurd (omega arith)
  write_all-returns (suc fuel) (x ∷ xs) s f =
      let value = x ∷ xs in
      let s' = (write s value).0 in
      let n = (write s value).1 in
      elim (Bool-cases (ltb (length value) n)) [
        | inl beyond ↦ rw beyond (λ h. cc)
        | inr within ↦ elim (Option-cases (write s value).2) [
          | inr (problem, failed) ↦
              rw (within, failed) (λ h. own_errors s value (failed ∙ ap some (err-injective h)))
          | inl fine ↦ elim (Bool-cases (n == 0)) [
            | inl stuck ↦ rw (within, fine, stuck) (λ h. cc)
            | inr moved ↦
                let size = length-drop n value (ground arith) in
                rw (within, fine, moved) (write_all-returns fuel (drop n value) s' (ground arith))
          ]
        ]
      ]
