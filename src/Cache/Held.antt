-- ===== src/Cache/Held.antt =====
-- internal/cache/lease.go: when a lease may be taken back.
use awesome_sftp_cli.Base.{
  ◌≐◌, ℕ, ◌+◌, ◌-◌, ◌≤◌, ◌<◌, ◌≡◌, refl, ◌↔◌, ◌⊎◌, inl, inr, true, false, Option, none, some, arith,
  ltb, if◌then◌else◌, Bool-cases, ok, string_eq,
}
use awesome_sftp_cli.Cache.Leases.{
  process_gone, process_birth_mismatch, protection_of, classify_owner, classify_held, LeaseManager,
  ProcessStatus, classify, heartbeat, reclaimable, process_other, lease_active, lease_released,
  process_matches, process_uncertain, protected_active,
}
use awesome_sftp_cli.Cache.Records.{ProcessIdentity, Lease}
use awesome_sftp_cli.Cache.Validation.{valid_lease}

-- The process that holds the lease is known not to run.
abbrev pub IsGone : LeaseManager → Lease → Type 0
IsGone manager lease =
    (processes : ProcessIdentity → ProcessStatus) × (identity : ProcessIdentity)
    × (manager.processes ≡ some processes)
    × (lease.process ≡ some identity)
    × ((processes identity ≡ process_gone) ⊎ (processes identity ≡ process_birth_mismatch))

-- Its time and its grace are over, and its process is gone.
abbrev pub IsOver : LeaseManager → ℕ → Lease → Type 0
IsOver manager now lease =
    (valid_lease lease ≡ true)
    × (lease.expires_at ≤ now)
    × (lease.grace_until ≤ now)
    × IsGone manager lease

protection-gone :
    (status : ProcessStatus)
    → protection_of status ≡ reclaimable
    → (status ≡ process_gone) ⊎ (status ≡ process_birth_mismatch)
unfolding protection_of
protection-gone process_gone h = inl refl
protection-gone process_birth_mismatch h = inr refl
protection-gone process_matches h = absurd (ground arith)
protection-gone process_uncertain h = absurd (ground arith)
protection-gone (process_other text) h = absurd (ground arith)

owner-gone :
    (processes : Option (ProcessIdentity → ProcessStatus)) (identity : Option ProcessIdentity)
    → classify_owner processes identity ≡ reclaimable
    → (f : ProcessIdentity → ProcessStatus) × (i : ProcessIdentity) × (processes ≡ some f)
      × (identity ≡ some i)
      × ((f i ≡ process_gone) ⊎ (f i ≡ process_birth_mismatch))
unfolding classify_owner
owner-gone none identity h = absurd (ground arith)
owner-gone (some f) none h = absurd (ground arith)
owner-gone (some f) (some i) h = (f, i, refl, refl, protection-gone (f i) h)

held-IsOver :
    (manager : LeaseManager) (now : ℕ) (lease : Lease)
    → classify_held manager now lease ≡ reclaimable
    → IsOver manager now lease
unfolding classify_held
held-IsOver manager now lease h = (
  ground arith,
  ground arith,
  ground arith,
  owner-gone manager.processes lease.process (ground arith),
)

IsOver-held :
    (manager : LeaseManager) (now : ℕ) (lease : Lease)
    → IsOver manager now lease
    → classify_held manager now lease ≡ reclaimable
unfolding classify_held classify_owner protection_of
IsOver-held manager now lease (valid, expired, late, (f, i, pf, pi, gone)) =
    let early : ltb now lease.expires_at ≡ false = ground arith in
    let grace : ltb now lease.grace_until ≡ false = ground arith in
    rw (valid, early, grace, pf, pi)
      (elim gone [ inl dead ↦ rw dead refl | inr reborn ↦ rw reborn refl ])

-- A lease is reclaimable just when it is released, or it is valid, its expiry and its grace are
-- over, and the manager's classifier says that the lease's process is gone or was born anew.
pub classify-reclaimable :
    (manager : LeaseManager) (now : ℕ) (lease : Lease)
    → (classify (some manager) now lease ≡ reclaimable)
      ↔ ((lease.state ≐ lease_released ≡ true) ⊎ IsOver manager now lease)
unfolding classify
classify-reclaimable manager now lease = elim (Bool-cases (lease.state ≐ lease_released)) [
  | inl released ↦ rw released ((λ h. inl refl), λ h. refl)
  | inr held ↦ rw held (
    (λ h. inr (held-IsOver manager now lease h)),
    λ h. elim h [
      | inl impossible ↦ absurd (ground arith)
      | inr over ↦ IsOver-held manager now lease over
    ],
  )
]

abbrev renew : Lease → ℕ → ℕ → ℕ → Lease
renew lease now expires grace = record lease {
  heartbeat_at = now;
  expires_at = expires;
  grace_until = grace;
}

renew-valid :
    (lease : Lease) (now expires grace : ℕ)
    → valid_lease lease ≡ true
    → 1 ≤ now
    → now ≤ expires
    → expires ≤ grace
    → valid_lease (renew lease now expires grace) ≡ true
unfolding valid_lease
renew-valid lease now expires grace h a b c = ground arith

active-classify :
    (manager : LeaseManager) (lease : Lease) (later : ℕ)
    → valid_lease lease ≡ true
    → lease.state ≐ lease_active ≡ true
    → later < lease.expires_at
    → classify (some manager) later lease ≡ protected_active
unfolding classify classify_held
active-classify manager lease later valid active soon =
    let name : lease.state ≡ lease_active =
      (string_eq.equal_iff lease.state lease_active).0 active in
    let held : lease.state ≐ lease_released ≡ false = rw name refl in
    let early : ltb later lease.expires_at ≡ true = ground arith in rw (held, valid, early) refl

-- A heartbeat of a valid active lease returns a valid lease that is active until the manager's
-- expiry has passed since.
pub heartbeat-classify :
    (manager : LeaseManager) (lease : Lease) (now later : ℕ)
    → valid_lease lease ≡ true
    → lease.state ≐ lease_active ≡ true
    → 1 ≤ now
    → later < now + manager.expiry
    → (renewed : Lease) × (heartbeat manager now lease ≡ ok renewed)
      × (valid_lease renewed ≡ true)
      × (classify (some manager) later renewed ≡ protected_active)
unfolding heartbeat classify classify_held
heartbeat-classify manager lease now later valid active started soon =
    let kept = lease.grace_until - lease.expires_at in
    let grace = if ltb manager.grace kept then manager.grace else kept in
    let renewed = renew lease now (now + manager.expiry) (now + manager.expiry + grace) in
    let still : valid_lease renewed ≡ true =
      renew-valid lease now (now + manager.expiry) (now + manager.expiry + grace) valid started
        (omega arith) (omega arith) in
    (
      renewed,
      rw (valid, active) refl,
      still,
      active-classify manager renewed later still active soon,
    )
