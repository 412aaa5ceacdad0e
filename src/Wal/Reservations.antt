-- ===== src/Wal/Reservations.antt =====
-- budget.go: Reserve and Release.
use Prim.Native.String.{len}
use text.Mathlib.Text.{◌==◌ as str_beq}
use text.Mathlib.TextEquality.{eq_iff}
use awesome_sftp_cli.Base.{
  ℕ, ◌+◌, ◌-◌, ◌%◌, ◌^◌, ◌≤◌, ◌<◌, String, ◌≡◌, ap, ◌≢◌, ◌↔◌, inl, inr, false, none, some, arith,
  Option-cases, ok, err, string_eq,
}
use awesome_sftp_cli.Base.Map.{lookup, insert, delete, lookup-insert, lookup-delete}
use awesome_sftp_cli.Base.Map.Keys.{delete-insert}
use awesome_sftp_cli.Wal.{
  Controller, transaction_growth_limit_bytes, hard_stop_bytes, reserve, release, no_reservation,
}

-- What Reserve checks of a worker, its bytes and the controller.
pub record Granted (c : Controller) (w : String) (n : ℕ) : Type 0 where
  pub writable : c.read_only ≡ false
  pub named : str_beq w "" ≡ false
  pub short : len w ≤ 128
  pub positive : 0 < n
  pub new : lookup w c.reservations ≡ none
  pub within : c.reserved_bytes + n ≤ transaction_growth_limit_bytes
  pub below_stop : c.wal_bytes + c.reserved_bytes + n < hard_stop_bytes

abbrev pub with_reservation : Controller → String → ℕ → Controller
with_reservation c w n = record c {
  reservations = insert w n c.reservations;
  reserved_bytes = c.reserved_bytes + n;
}

abbrev pub without_reservation : Controller → String → ℕ → Controller
without_reservation c w n = record c {
  reservations = delete w c.reservations;
  reserved_bytes = (c.reserved_bytes + 2 ^ 64 - n) % 2 ^ 64;
}

pub reserve-Granted :
    (c c' : Controller) (w : String) (n : ℕ)
    → reserve c w n ≡ ok c'
    → Granted c w n × (c' ≡ with_reservation c w n)
unfolding reserve
reserve-Granted c c' w n h = elim (Option-cases (lookup w c.reservations)) [
  | inl missing ↦ (ground arith, ground arith)
  | inr (m, found) ↦ absurd (ground arith)
]

Granted-reserve :
    (c : Controller) (w : String) (n : ℕ)
    → Granted c w n
    → reserve c w n ≡ ok (with_reservation c w n)
unfolding reserve
Granted-reserve c w n g = ground arith

-- A reservation is granted exactly when the controller is not read-only, the worker has a name of 1
-- to 128 bytes and no reservation yet, the bytes are positive, all reservations stay within one
-- transaction's growth, and the log with them stays below the hard stop. The new controller is then
-- the old one with exactly that reservation and its bytes added.
pub reserve_iff :
    (c c' : Controller) (w : String) (n : ℕ)
    → (reserve c w n ≡ ok c') ↔ (Granted c w n × (c' ≡ with_reservation c w n))
reserve_iff c c' w n = (reserve-Granted c c' w n, λ g. rw g.1 (Granted-reserve c w n g.0))

pub release-ok :
    (c c' : Controller) (w : String)
    → release c w ≡ ok c'
    → (n : ℕ) × (lookup w c.reservations ≡ some n) × (c' ≡ without_reservation c w n)
unfolding release
release-ok c c' w h = ground arith

release-with_reservation :
    (c : Controller) (w : String) (n : ℕ)
    → Granted c w n
    → release (with_reservation c w n) w ≡ ok c
unfolding release
release-with_reservation c w n g =
    ground (
      arith,
      lookup-insert w w n c.reservations,
      eq_iff w w,
      delete-insert w n c.reservations g.new,
    )

reserve_twice :
    (c c' : Controller) (w : String) (n m : ℕ) (c'' : Controller)
    → reserve c w n ≡ ok c'
    → reserve c' w m ≢ ok c''
reserve_twice c c' w n m c'' h twice =
    let granted = (reserve-Granted c' c'' w m twice).0 in
    let first = (reserve-Granted c c' w n h).1 in
    ground (
      arith,
      granted.new,
      ap (λ (k : Controller). k.reservations) first,
      lookup-insert w w n c.reservations,
      eq_iff w w,
    )

-- A release takes a granted reservation back: the controller is as it was before. Until then the
-- same worker gets no second reservation.
pub release-reserve :
    (c c' : Controller) (w : String) (n : ℕ)
    → reserve c w n ≡ ok c'
    → (release c' w ≡ ok c) × ((m : ℕ) (c'' : Controller) → reserve c' w m ≢ ok c'')
release-reserve c c' w n h =
    let (g, e) = reserve-Granted c c' w n h in
    (rw e (release-with_reservation c w n g), λ m c''. reserve_twice c c' w n m c'' h)

release_nameless : (c c' : Controller) (w : String) → release c w ≡ ok c' → str_beq w "" ≡ false
unfolding release
release_nameless c c' w h = ground arith

release_missing :
    (c : Controller) (w : String)
    → str_beq w "" ≡ false
    → lookup w c.reservations ≡ none
    → release c w ≡ err no_reservation
unfolding release
release_missing c w h k = ground arith

-- A reservation can be released once.
pub release_twice :
    (c c' : Controller) (w : String) → release c w ≡ ok c' → release c' w ≡ err no_reservation
release_twice c c' w h =
    let (n, found, e) = release-ok c c' w h in
    release_missing c' w (release_nameless c c' w h) (
      ground (
        arith,
        ap (λ (k : Controller). k.reservations) e,
        lookup-delete w w c.reservations,
        eq_iff w w,
      ))
