-- ===== src/Ipc/Streaming.antt =====
-- internal/ipc/frame.go: readFull and writeAll over connections that keep their contracts.
use awesome_sftp_cli.Base.{
  ℕ, zero, suc, ◌+◌, ◌-◌, ◌≤◌, ◌≡◌, refl, sym, ap, ◌∙◌, inl, inr, true, false, Option, none, List,
  [], ◌∷◌, ◌++◌, arith, ltb, ◌==◌, lt→ltb, ==_iff, Bool-cases, length, length-append, ok,
}
use awesome_sftp_cli.Ipc.Stream.{StreamError, read_full, write_all, drop, after_read, after_write}

pub length-drop : (n : ℕ) (xs : List ℕ) → n ≤ length xs → length (drop n xs) + n ≡ length xs
unfolding drop
length-drop zero xs h = omega arith
length-drop (suc n) [] h = absurd (omega arith)
length-drop (suc n) (x ∷ xs) h = let l = length-drop n xs (omega arith) in omega arith

pub append_assoc : (xs ys zs : List ℕ) → (xs ++ ys) ++ zs ≡ xs ++ (ys ++ zs)
append_assoc [] ys zs = refl
append_assoc (x ∷ xs) ys zs = ap (λ l. x ∷ l) (append_assoc xs ys zs)

append_nil : (xs : List ℕ) → xs ++ [] ≡ xs
append_nil [] = refl
append_nil (x ∷ xs) = ap (λ l. x ∷ l) (append_nil xs)

-- A reader that has bytes pending hands over at least one of them, at most as many as there is
-- room for, in order and without an error.
module _ {S : Type 0} (read : S → ℕ → S × List ℕ × Option StreamError) (pending : S → List ℕ)
    (hands_over : (s : S) (room : ℕ)
      → 1 ≤ room
      → room ≤ length (pending s)
      → (pending s ≡ (read s room).1 ++ pending (read s room).0)
        × (1 ≤ length (read s room).1)
        × (length (read s room).1 ≤ room)
        × ((read s room).2 ≡ none)) where
  pub read_full_lem :
      (fuel need empty_reads : ℕ) (got : List ℕ) (s : S)
      → need ≤ fuel
      → need ≤ length (pending s)
      → (s' : S) × (front : List ℕ) × (read_full read fuel need empty_reads got s
          ≡ (s', ok (got ++ front)))
        × (pending s ≡ front ++ pending s')
        × (length front ≡ need)
  unfolding read_full after_read
  read_full_lem fuel zero empty_reads got s f n =
      (s, [], ap (λ l. (s, ok l)) (sym (append_nil got)), refl, refl)
  read_full_lem zero (suc need) empty_reads got s f n = absurd (omega arith)
  read_full_lem (suc fuel) (suc need) empty_reads got s f n =
      let (split, some_bytes, room, fine) = hands_over s (suc need) (omega arith) n in
      let s' = (read s (suc need)).0 in
      let chunk = (read s (suc need)).1 in
      elim (Bool-cases (length chunk == suc need)) [
        | inl full ↦ (s', chunk, rw full refl, split, (==_iff (length chunk) (suc need)).0 full)
        | inr part ↦
            let less : suc need - length chunk ≤ fuel = omega arith in
            let more : suc need - length chunk ≤ length (pending s') =
              (let l = ap length split ∙ length-append chunk (pending s') in omega arith) in
            let (last, front, e, rest, size) =
              read_full_lem fuel (suc need - length chunk) 0 (got ++ chunk) s' less more in
            let one : ltb 0 (length chunk) ≡ true = lt→ltb _ _ some_bytes in
            (
              last,
              chunk ++ front,
              rw (part, fine, one) (e ∙ ap (λ l. (last, ok l)) (append_assoc got chunk front)),
              split ∙ ap (λ l. chunk ++ l) rest ∙ sym (append_assoc chunk front (pending last)),
              (let l = length-append chunk front in omega arith),
            )
      ]

-- A writer takes at least one of the bytes, in order and without an error.
module _ {S : Type 0} (write : S → List ℕ → S × ℕ × Option StreamError) (out : S → List ℕ)
    (takes : (s : S) (value : List ℕ)
      → 1 ≤ length value
      → (front : List ℕ) × (value ≡ front ++ drop (write s value).1 value)
        × (out (write s value).0 ≡ out s ++ front)
        × (1 ≤ (write s value).1)
        × ((write s value).1 ≤ length value)
        × ((write s value).2 ≡ none)) where
  pub write_all_lem :
      (fuel : ℕ) (value : List ℕ) (s : S)
      → length value ≤ fuel
      → (s' : S) × (write_all write fuel value s ≡ (s', ok tt)) × (out s' ≡ out s ++ value)
  unfolding write_all after_write
  write_all_lem fuel [] s f = (s, refl, sym (append_nil (out s)))
  write_all_lem zero (x ∷ xs) s f = absurd (omega arith)
  write_all_lem (suc fuel) (x ∷ xs) s f =
      let value = x ∷ xs in
      let (front, split, sent, some_bytes, room, fine) = takes s value (omega arith) in
      let s' = (write s value).0 in
      let n = (write s value).1 in
      let size = length-drop n value room in
      let (last, e, done) = write_all_lem fuel (drop n value) s' (omega arith) in
      let fits : ltb (length value) n ≡ false = ground arith in
      let moved : (n == 0) ≡ false = ground arith in
      (
        last,
        rw (fits, fine, moved) e,
        done
            ∙ ap (λ l. l ++ drop n value) sent
            ∙ append_assoc (out s) front (drop n value)
            ∙ ap (λ l. out s ++ l) (sym split),
      )
