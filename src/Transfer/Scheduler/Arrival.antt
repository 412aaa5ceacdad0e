-- ===== src/Transfer/Scheduler/Arrival.antt =====
-- internal/transfer/scheduler.go: the arrival order of the waiters of a queue. The id of a waiter is
-- its number among all that were ever queued.
use awesome_sftp_cli.Base.{
  ℕ, ◌+◌, ◌<◌, inl, inr, List, [], ◌∷◌, ◌++◌, arith, ◌==◌, Bool-cases, All, string_eq,
}
use awesome_sftp_cli.Transfer.Scheduler.Buckets.{BandwidthWaiter}
use awesome_sftp_cli.Transfer.Scheduler.Queues.{tail_of, remove_waiter}

abbrev pub CameAfter : ℕ → List BandwidthWaiter → Type 0
CameAfter id queue = All (λ (other : BandwidthWaiter). id < other.id) queue

-- Each waiter came before those behind it, and `made` of them were queued so far.
abbrev pub InOrder : ℕ → List BandwidthWaiter → Type 0
InOrder made [] = Unit {0}
InOrder made (waiter ∷ rest) = (waiter.id < made) × CameAfter waiter.id rest × InOrder made rest

pub InOrder-more : (made : ℕ) (q : List BandwidthWaiter) → InOrder made q → InOrder (made + 1) q
InOrder-more made [] h = tt
InOrder-more made (x ∷ q) (new, behind, rest) = (omega arith, behind, InOrder-more made q rest)

CameAfter-append :
    (id : ℕ) (q : List BandwidthWaiter) (waiter : BandwidthWaiter)
    → id < waiter.id
    → CameAfter id q
    → CameAfter id (q ++ (waiter ∷ []))
CameAfter-append id [] waiter lt h = (lt, tt)
CameAfter-append id (x ∷ q) waiter lt h = (h.0, CameAfter-append id q waiter lt h.1)

pub InOrder-append :
    (q : List BandwidthWaiter) (waiter : BandwidthWaiter)
    → InOrder waiter.id q
    → InOrder (waiter.id + 1) (q ++ (waiter ∷ []))
InOrder-append [] waiter h = (omega arith, tt, tt)
InOrder-append (x ∷ q) waiter (new, behind, rest) =
    (omega arith, CameAfter-append x.id q waiter new behind, InOrder-append q waiter rest)

pub InOrder-tail : (made : ℕ) (q : List BandwidthWaiter) → InOrder made q → InOrder made (tail_of q)
unfolding tail_of
InOrder-tail made [] h = tt
InOrder-tail made (x ∷ q) h = h.2

CameAfter-remove_waiter :
    (id : ℕ) (q : List BandwidthWaiter) (target : BandwidthWaiter)
    → CameAfter id q
    → CameAfter id (remove_waiter q target).0
unfolding remove_waiter
CameAfter-remove_waiter id [] target h = tt
CameAfter-remove_waiter id (x ∷ q) target h = elim (Bool-cases (x.id == target.id)) [
  | inl same ↦ rw same h.1
  | inr other ↦ rw other (h.0, CameAfter-remove_waiter id q target h.1)
]

pub InOrder-remove_waiter :
    (made : ℕ) (q : List BandwidthWaiter) (target : BandwidthWaiter)
    → InOrder made q
    → InOrder made (remove_waiter q target).0
unfolding remove_waiter
InOrder-remove_waiter made [] target h = tt
InOrder-remove_waiter made (x ∷ q) target (new, behind, rest) =
    elim (Bool-cases (x.id == target.id)) [
      | inl same ↦ rw same rest
      | inr other ↦ rw other (
        new,
        CameAfter-remove_waiter x.id q target behind,
        InOrder-remove_waiter made q target rest,
      )
    ]
