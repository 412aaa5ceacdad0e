-- ===== src/Ipc/RoundTrip.antt =====
-- internal/ipc/frame.go: what WriteFrame writes, ReadFrame reads.
use awesome_sftp_cli.Base.{
  ℕ, ◌-◌, ◌^◌, ◌≤◌, ◌<◌, ◌≡◌, refl, sym, ap, ◌∙◌, false, ◌||◌, Option, none, List, [], ◌∷◌, ◌++◌,
  arith, ltb, ◌==◌, length, length-append, ok,
}
use awesome_sftp_cli.Ipc.Stream.{StreamError, drop}
use awesome_sftp_cli.Ipc.Streaming.{read_full_lem, write_all_lem, append_assoc}
use awesome_sftp_cli.Ipc.Frame.{
  read_frame, uint32_of, write_frame, put_uint32, read_payload, write_payload, read_framed,
  write_framed, read_fuel,
}
use mathlib.Core.Path.{subst}

abbrev pub Read : Type 0 → Type 0
Read S = S → ℕ → S × List ℕ × Option StreamError

abbrev pub Write : Type 0 → Type 0
Write S = S → List ℕ → S × ℕ × Option StreamError

-- An io.Reader that hands over pending bytes in order, at least one when it has one.
abbrev pub HandsOver : {S : Type 0} → Read S → (S → List ℕ) → Type 0
HandsOver {S = S} read pending =
    (s : S) (room : ℕ)
    → 1 ≤ room
    → room ≤ length (pending s)
    → (pending s ≡ (read s room).1 ++ pending (read s room).0)
      × (1 ≤ length (read s room).1)
      × (length (read s room).1 ≤ room)
      × ((read s room).2 ≡ none)

-- An io.Writer that takes bytes in order, at least one of them.
abbrev pub TakesUp : {S : Type 0} → Write S → (S → List ℕ) → Type 0
TakesUp {S = S} write out =
    (s : S) (value : List ℕ)
    → 1 ≤ length value
    → (front : List ℕ) × (value ≡ front ++ drop (write s value).1 value)
      × (out (write s value).0 ≡ out s ++ front)
      × (1 ≤ (write s value).1)
      × ((write s value).1 ≤ length value)
      × ((write s value).2 ≡ none)

uint32-put : (n : ℕ) → n < 2 ^ 32 → uint32_of (put_uint32 n) ≡ n
unfolding uint32_of put_uint32
uint32-put n h = omega arith

length-put : (n : ℕ) → length (put_uint32 n) ≡ 4
unfolding put_uint32
length-put n = refl

same-front :
    (xs ys us vs : List ℕ) → xs ++ us ≡ ys ++ vs → length xs ≡ length ys → (xs ≡ ys) × (us ≡ vs)
same-front [] [] us vs h e = (refl, h)
same-front [] (y ∷ ys) us vs h e = absurd (omega arith)
same-front (x ∷ xs) [] us vs h e = absurd (omega arith)
same-front (x ∷ xs) (y ∷ ys) us vs h e =
    let first : x ≡ y = cc in
    let rest : xs ++ us ≡ ys ++ vs = cc in
    let (a, b) = same-front xs ys us vs rest (omega arith) in
    (ap (λ z. z ∷ xs) first ∙ ap (λ l. y ∷ l) a, b)

written :
    {S : Type 0} (write : Write S) (out : S → List ℕ) (maximum : ℕ) (payload : List ℕ) (s : S)
    → TakesUp write out
    → 1 ≤ length payload
    → length payload ≤ maximum
    → length payload < 2 ^ 32
    → (s' : S) × (write_frame write maximum payload s ≡ (s', ok tt))
      × (out s' ≡ out s ++ (put_uint32 (length payload) ++ payload))
unfolding write_frame write_payload write_framed
written write out maximum payload s takes some_bytes fits short =
    let header = put_uint32 (length payload) in
    let (s1, e1, o1) =
      write_all_lem write out takes 4 header s
        (subst (λ k. k ≤ 4) (sym (length-put (length payload))) (omega arith)) in
    let (s2, e2, o2) = write_all_lem write out takes (length payload) payload s1 (omega arith) in
    let a : (length payload == 0) ≡ false = ground arith in
    let c : ltb (2 ^ 32 - 1) (length payload) || ltb maximum (length payload) ≡ false =
      ground arith in
    (
      s2,
      rw (a, c, e1, e2) refl,
      o2 ∙ ap (λ l. l ++ payload) o1 ∙ append_assoc (out s) header payload,
    )

received :
    {S : Type 0} (read : Read S) (pending : S → List ℕ) (maximum : ℕ) (payload rest : List ℕ)
    (s : S)
    → HandsOver read pending
    → 1 ≤ length payload
    → length payload ≤ maximum
    → length payload < 2 ^ 32
    → pending s ≡ put_uint32 (length payload) ++ (payload ++ rest)
    → (s' : S) × (read_frame read maximum s ≡ (s', ok payload)) × (pending s' ≡ rest)
unfolding read_frame read_payload read_framed
received read pending maximum payload rest s hands some_bytes fits short waits =
    let n = length payload in
    let header = put_uint32 n in
    let (s1, f1, e1, p1, l1) =
      read_full_lem read pending hands (read_fuel 4) 4 0 [] s (omega arith) (
        let l = ap length waits ∙ length-append header (payload ++ rest) in
        let h = length-put n in omega arith) in
    let (h1, w1) =
      same-front f1 header (pending s1) (payload ++ rest) (sym p1 ∙ waits)
        (l1 ∙ sym (length-put n)) in
    let (s2, f2, e2, p2, l2) =
      read_full_lem read pending hands (read_fuel n) n 0 [] s1 (omega arith)
        (let l = ap length w1 ∙ length-append payload rest in omega arith) in
    let (h2, w2) = same-front f2 payload (pending s2) rest (sym p2 ∙ w1) l2 in
    (let a : (n == 0) ≡ false = ground arith in
      let c : ltb maximum n ≡ false = ground arith in
      (s2, rw (e1, h1, uint32-put n short, a, c, e2, h2) refl, w2))

-- A payload that is not empty, within the maximum and a uint32's length, is written by a writer that
-- takes bytes in order; and a reader on whose connection those bytes arrive, whatever pieces it hands
-- over, reads the payload and leaves what follows.
pub read_frame-write_frame :
    {S R : Type 0} (write : Write S) (out : S → List ℕ) (read : Read R) (pending : R → List ℕ)
    (maximum : ℕ) (payload rest : List ℕ) (s : S) (r : R)
    → TakesUp write out
    → HandsOver read pending
    → 1 ≤ length payload
    → length payload ≤ maximum
    → length payload < 2 ^ 32
    → out s ≡ []
    → pending r ≡ out (write_frame write maximum payload s).0 ++ rest
    → ((write_frame write maximum payload s).1 ≡ ok tt)
      × ((read_frame read maximum r).1 ≡ ok payload)
      × (pending (read_frame read maximum r).0 ≡ rest)
read_frame-write_frame write out read pending maximum payload rest s r takes hands some_bytes fits
      short empty arrives =
    let frame = put_uint32 (length payload) ++ payload in
    let (s', e, o) = written write out maximum payload s takes some_bytes fits short in
    let sent : out (write_frame write maximum payload s).0 ≡ frame =
      ap (λ x. out x.0) e ∙ o ∙ ap (λ l. l ++ frame) empty in
    let (r', f, left) = received read pending maximum payload rest r hands some_bytes fits short (
      arrives
      ∙ ap (λ l. l ++ rest) sent
      ∙ append_assoc (put_uint32 (length payload)) payload rest) in
    (ap (λ x. x.1) e, ap (λ x. x.1) f, ap (λ x. pending x.0) f ∙ left)
