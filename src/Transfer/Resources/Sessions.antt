-- ===== src/Transfer/Resources/Sessions.antt =====
-- resource_ledger.go: any calls on one ledger, by callers that try, wait, give up and release.
pub mod Waiting
pub mod Releasing
use awesome_sftp_cli.Base.{
  ℕ, zero, suc, ◌≡◌, Bool, Option, none, some, List, [], ◌∷◌, if◌then◌else◌, length, get_elem?, All,
  Result, ok, err, string_eq,
}
use awesome_sftp_cli.Transfer.Usage.{Error}
use awesome_sftp_cli.Transfer.Resources.{
  ResourceRequest, ResourceLedger, ResourceLease, Round, abandon_acquire, acquire_round,
  release_lease, try_acquire, enter_acquire, returned, waits_on,
}
use awesome_sftp_cli.Transfer.Resources.Accounts.{Accounts, IsNormal}
use awesome_sftp_cli.Transfer.Resources.Requests.{IsTyped}

-- A ledger, the leases that were handed out, newest first, and the requests that wait in Acquire.
pub record Session : Type 0 where
  pub ledger : ResourceLedger
  pub leases : List ResourceLease
  pub pending : List ResourceRequest

pub data Event : Type 0 where
  tries : ResourceRequest → Event
  enters : ResourceRequest → Event
  rounds : ℕ → Bool → Event
  abandons : ℕ → Event
  releases : ℕ → Event

abbrev pub remove_at {ℓ} : {A : Type ℓ} → ℕ → List A → List A
remove_at i [] = []
remove_at zero (x ∷ xs) = xs
remove_at (suc i) (x ∷ xs) = x ∷ remove_at i xs

pub after_try : Session → Result Error (ResourceLedger × ResourceLease) → Session
after_try s (ok (ledger, lease)) = record s { ledger = ledger; leases = lease ∷ s.leases }
after_try s (err e) = s

pub after_enter : Session → Result Error (ResourceLedger × ResourceRequest) → Session
after_enter s (ok (ledger, request)) = record s { ledger = ledger; pending = request ∷ s.pending }
after_enter s (err e) = s

after_round : Session → ℕ → ResourceLedger × Round → Session
after_round s i (ledger, returned (ok lease)) = record {
  ledger = ledger;
  leases = lease ∷ s.leases;
  pending = remove_at i s.pending;
}
after_round s i (ledger, returned (err e)) = record s {
  ledger = ledger;
  pending = remove_at i s.pending;
}
after_round s i (ledger, waits_on wake) = record s { ledger = ledger }

pub round_at : Session → ℕ → Bool → Option ResourceRequest → Session
unfolding after_round
round_at s i done none = s
round_at s i done (some request) = after_round s i (acquire_round s.ledger request done)

pub abandon_at : Session → ℕ → Option ResourceRequest → Session
abandon_at s i none = s
abandon_at s i (some request) = record s {
  ledger = abandon_acquire s.ledger;
  pending = remove_at i s.pending;
}

-- Release on the i-th lease.
pub release_at : ResourceLedger → List ResourceLease → ℕ → ResourceLedger × List ResourceLease
release_at ledger [] i = (ledger, [])
release_at ledger (l ∷ ls) zero = let (ledger', l') = release_lease ledger l in (ledger', l' ∷ ls)
release_at ledger (l ∷ ls) (suc i) =
    let (ledger', ls') = release_at ledger ls i in (ledger', l ∷ ls')

unfoldable pub step : Session → Event → Session
unfolding after_try after_enter round_at abandon_at release_at
step s (tries r) = after_try s (try_acquire s.ledger r)
step s (enters r) = after_enter s (enter_acquire s.ledger r)
step s (rounds i done) = round_at s i done (get_elem? s.pending i)
step s (abandons i) = abandon_at s i (get_elem? s.pending i)
step s (releases i) =
    let (ledger, leases) = release_at s.ledger s.leases i in
    record s { ledger = ledger; leases = leases }

unfoldable pub run : Session → List Event → Session
run s [] = s
run s (e ∷ es) = run (step s e) es

-- The requests of the leases that are not released.
abbrev pub outstanding : List ResourceLease → List ResourceRequest
outstanding [] = []
outstanding (l ∷ ls) = if l.released then outstanding ls else l.request ∷ outstanding ls

pub record IsSound (s : Session) : Type 0 where
  pub accounts : Accounts s.ledger (outstanding s.leases)
  pub normal : All IsNormal (outstanding s.leases)
  pub waiting : All IsNormal s.pending
  pub counted : s.ledger.waiters ≡ length s.pending

-- The requests that the callers pass have amounts of their machine types.
abbrev pub EventIsTyped : Event → Type 0
EventIsTyped (tries r) = IsTyped r
EventIsTyped (enters r) = IsTyped r
EventIsTyped _ = Unit {0}
