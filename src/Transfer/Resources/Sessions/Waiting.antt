-- ===== src/Transfer/Resources/Sessions/Waiting.antt =====
-- resource_ledger.go: TryAcquire and Acquire keep the books.
use mathlib.Core.Path.{subst}
use awesome_sftp_cli.Base.{
  ℕ, zero, suc, ◌-◌, ◌≡◌, refl, ap, inl, inr, Bool, true, false, Option, none, some, List, [], ◌∷◌,
  arith, length, get_elem?, All, ok, Result-cases, string_eq,
}
use awesome_sftp_cli.Transfer.Resources.{
  ResourceRequest, ResourceLedger, abandon_acquire, acquire_locked, acquire_round, try_acquire,
  enter_acquire, normalize_resource_request, can_acquire, can_ever_acquire,
}
use awesome_sftp_cli.Transfer.Resources.Accounts.{Accounts, IsNormal, acquire-Accounts}
use awesome_sftp_cli.Transfer.Resources.Requests.{IsTyped, normalize-IsNormal}
use awesome_sftp_cli.Transfer.Resources.Sessions.{
  Session, abandon_at, after_enter, after_try, remove_at, round_at, IsSound, outstanding,
}

grant-IsSound :
    (s : Session) (q : ResourceRequest)
    → IsSound s
    → IsNormal q
    → can_acquire s.ledger q ≡ ok tt
    → IsSound (record s {
      ledger = acquire_locked s.ledger q;
      leases = record { request = q; released = false } ∷ s.leases;
    })
unfolding acquire_locked
grant-IsSound s q v n h = record {
  accounts = acquire-Accounts s.ledger (outstanding s.leases) q v.accounts h n.distinct;
  normal = (n, v.normal);
  waiting = v.waiting;
  counted = v.counted;
}

-- The books do not depend on who waits.
waiters-Accounts :
    (ledger : ResourceLedger) (out : List ResourceRequest) (w : ℕ)
    → Accounts ledger out
    → Accounts (record ledger { waiters = w }) out
waiters-Accounts ledger out w a = record {
  tight = a.tight;
  total = a.total;
  fits = a.fits;
  jobs = a.jobs;
  endpoints = a.endpoints;
  jobs_each = a.jobs_each;
  connections_each = a.connections_each;
}

pub try-IsSound :
    (s : Session) (r : ResourceRequest)
    → IsSound s
    → IsTyped r
    → IsSound (after_try s (try_acquire s.ledger r))
unfolding after_try try_acquire
try-IsSound s r v t = elim (Result-cases (normalize_resource_request r)) [
  | inl (q, e) ↦ elim (Result-cases (can_acquire s.ledger q)) [
    | inl (u, h) ↦
        rw (e, try_acquire) (rw (h, after_try) (grant-IsSound s q v (normalize-IsNormal r q t e) h))
    | inr (x, h) ↦ rw (e, try_acquire) (rw (h, after_try) v)
  ]
  | inr (x, e) ↦ rw (e, try_acquire) v
]

pub enter-IsSound :
    (s : Session) (r : ResourceRequest)
    → IsSound s
    → IsTyped r
    → IsSound (after_enter s (enter_acquire s.ledger r))
unfolding after_enter enter_acquire
enter-IsSound s r v t = elim (Result-cases (normalize_resource_request r)) [
  | inl (q, e) ↦ elim (Result-cases (can_ever_acquire s.ledger q)) [
    | inl (u, h) ↦
        rw (e, enter_acquire)
          (rw (h, after_enter)
            (record {
              accounts = waiters-Accounts s.ledger _ _ v.accounts;
              normal = v.normal;
              waiting = (normalize-IsNormal r q t e, v.waiting);
              counted = omega (arith, v.counted);
            }))
    | inr (x, h) ↦ rw (e, enter_acquire) (rw (h, after_enter) v)
  ]
  | inr (x, e) ↦ rw (e, enter_acquire) v
]

All-remove_at {ℓ κ} :
    {A : Type ℓ} (P : A → Type κ) (i : ℕ) (xs : List A) → All P xs → All P (remove_at i xs)
All-remove_at P i [] h = h
All-remove_at P zero (x ∷ xs) h = h.1
All-remove_at P (suc i) (x ∷ xs) h = (h.0, All-remove_at P i xs h.1)

length-remove_at {ℓ} :
    {A : Type ℓ} (i : ℕ) (xs : List A) (x : A)
    → get_elem? xs i ≡ some x
    → length xs ≡ suc (length (remove_at i xs))
length-remove_at i [] x h = cc
length-remove_at zero (y ∷ ys) x h = refl
length-remove_at (suc i) (y ∷ ys) x h = ap suc (length-remove_at i ys x h)

All-get_elem? {ℓ κ} :
    {A : Type ℓ} (P : A → Type κ) (i : ℕ) (xs : List A) (x : A)
    → All P xs
    → get_elem? xs i ≡ some x
    → P x
All-get_elem? P i [] x a h = absurd (cc)
All-get_elem? P zero (y ∷ ys) x a h = let e : y ≡ x = cc in subst P e a.0
All-get_elem? P (suc i) (y ∷ ys) x a h = All-get_elem? P i ys x a.1 h

-- The i-th caller stops waiting.
stop-IsSound :
    (s : Session) (i : ℕ) (q : ResourceRequest)
    → IsSound s
    → get_elem? s.pending i ≡ some q
    → IsSound (record s {
      ledger = record s.ledger { waiters = s.ledger.waiters - 1 };
      pending = remove_at i s.pending;
    })
stop-IsSound s i q v h = record {
  accounts = waiters-Accounts s.ledger _ _ v.accounts;
  normal = v.normal;
  waiting = All-remove_at IsNormal i s.pending v.waiting;
  counted = omega (arith, v.counted, length-remove_at i s.pending q h);
}

pub abandon-IsSound :
    (s : Session) (i : ℕ) (o : Option ResourceRequest)
    → IsSound s
    → get_elem? s.pending i ≡ o
    → IsSound (abandon_at s i o)
unfolding abandon_at abandon_acquire
abandon-IsSound s i none v h = v
abandon-IsSound s i (some q) v h = stop-IsSound s i q v h

pub round-IsSound :
    (s : Session) (i : ℕ) (done : Bool) (o : Option ResourceRequest)
    → IsSound s
    → get_elem? s.pending i ≡ o
    → IsSound (round_at s i done o)
unfolding round_at acquire_round
round-IsSound s i done none v h = v
round-IsSound s i true (some q) v h = stop-IsSound s i q v h
round-IsSound s i false (some q) v h = elim (Result-cases (can_acquire s.ledger q)) [
  | inl (u, fits) ↦
      rw (fits, acquire_round)
        (stop-IsSound
          (record s {
            ledger = acquire_locked s.ledger q;
            leases = record { request = q; released = false } ∷ s.leases;
          })
          i q (grant-IsSound s q v (All-get_elem? IsNormal i s.pending q v.waiting h) fits) h)
  | inr (x, refused) ↦ rw (refused, acquire_round) v
]
