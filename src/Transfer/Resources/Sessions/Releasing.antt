-- ===== src/Transfer/Resources/Sessions/Releasing.antt =====
-- resource_ledger.go: Release, and with it every call, keeps the books.
use mathlib.Core.Path.{subst}
use awesome_sftp_cli.Base.{
  ℕ, zero, suc, ◌≡◌, refl, sym, ◌∙◌, Bool, true, false, List, [], ◌∷◌, ◌++◌, get_elem?, All, ok,
  string_eq,
}
use awesome_sftp_cli.Transfer.Usage.{ResourceLimits}
use awesome_sftp_cli.Transfer.Resources.{
  ResourceRequest, ResourceLedger, ResourceLease, new_resource_ledger, release_lease, release,
}
use awesome_sftp_cli.Transfer.Resources.Accounts.{Accounts, IsNormal, new-Accounts, IsTight-new}
use mathlib.Core.List.{append_assoc}
use awesome_sftp_cli.Transfer.Resources.Returns.{release-Accounts}
use awesome_sftp_cli.Transfer.Resources.Sessions.{
  Event, outstanding, release_at, run, step, EventIsTyped, Session, IsSound, tries, enters, rounds,
  abandons, releases,
}
use awesome_sftp_cli.Transfer.Resources.Sessions.Waiting.{
  try-IsSound, enter-IsSound, round-IsSound, abandon-IsSound,
}

All-middle {ℓ κ} :
    {A : Type ℓ} (P : A → Type κ) (xs : List A) (y : A) (ys : List A)
    → All P (xs ++ y ∷ ys)
    → P y × All P (xs ++ ys)
All-middle P [] y ys h = h
All-middle P (x ∷ xs) y ys h = let (p, rest) = All-middle P xs y ys h.1 in (p, (h.0, rest))

-- The books after a release that started from `ledger`, with the leases `ys` in front.
abbrev pub Kept :
    ResourceLedger → List ResourceRequest → ResourceLedger × List ResourceLease → Type 0
Kept ledger ys (ledger', ls') =
    Accounts ledger' (ys ++ outstanding ls')
    × All IsNormal (ys ++ outstanding ls')
    × (ledger'.waiters ≡ ledger.waiters)

abbrev lease_of : ResourceRequest → Bool → ResourceLease
lease_of q b = record { request = q; released = b }

release_first :
    (ledger : ResourceLedger) (ys : List ResourceRequest) (q : ResourceRequest) (b : Bool)
    (ls : List ResourceLease)
    → Accounts ledger (ys ++ outstanding (lease_of q b ∷ ls))
    → All IsNormal (ys ++ outstanding (lease_of q b ∷ ls))
    → Kept ledger ys (release_at ledger (lease_of q b ∷ ls) zero)
unfolding release_at release_lease release
release_first ledger ys q true ls a n = (a, n, refl)
release_first ledger ys q false ls a n =
    let (normal, others) = All-middle IsNormal ys q (outstanding ls) n in
    (release-Accounts ledger ys q (outstanding ls) a normal, others, refl)

release_later :
    (ledger : ResourceLedger) (ys : List ResourceRequest) (q : ResourceRequest) (b : Bool)
    (ls : List ResourceLease) (r : ResourceLedger × List ResourceLease)
    → ((zs : List ResourceRequest)
        → Accounts ledger (zs ++ outstanding ls)
        → All IsNormal (zs ++ outstanding ls)
        → Kept ledger zs r)
    → Accounts ledger (ys ++ outstanding (lease_of q b ∷ ls))
    → All IsNormal (ys ++ outstanding (lease_of q b ∷ ls))
    → Kept ledger ys (r.0, lease_of q b ∷ r.1)
release_later ledger ys q true ls r kept a n = kept ys a n
release_later ledger ys q false ls r kept a n =
    let move = λ (zs : List ResourceRequest). append_assoc ys (q ∷ []) zs in
    let (a', n', w) =
      kept (ys ++ q ∷ []) (subst (Accounts ledger) (sym (move (outstanding ls))) a)
        (subst (All IsNormal) (sym (move (outstanding ls))) n) in
    (
      subst (Accounts r.0) (move (outstanding r.1)) a',
      subst (All IsNormal) (move (outstanding r.1)) n',
      w,
    )

release_at-Accounts :
    (ledger : ResourceLedger) (ys : List ResourceRequest) (ls : List ResourceLease) (i : ℕ)
    → Accounts ledger (ys ++ outstanding ls)
    → All IsNormal (ys ++ outstanding ls)
    → Kept ledger ys (release_at ledger ls i)
unfolding release_at
release_at-Accounts ledger ys [] i a n = (a, n, refl)
release_at-Accounts ledger ys (l ∷ ls) zero a n =
    release_first ledger ys l.request l.released ls a n
release_at-Accounts ledger ys (l ∷ ls) (suc i) a n =
    release_later ledger ys l.request l.released ls (release_at ledger ls i)
      (λ zs. release_at-Accounts ledger zs ls i) a n

step-IsSound : (s : Session) (e : Event) → EventIsTyped e → IsSound s → IsSound (step s e)
unfolding step
step-IsSound s (tries r) t v = try-IsSound s r v t
step-IsSound s (enters r) t v = enter-IsSound s r v t
step-IsSound s (rounds i done) t v = round-IsSound s i done (get_elem? s.pending i) v refl
step-IsSound s (abandons i) t v = abandon-IsSound s i (get_elem? s.pending i) v refl
step-IsSound s (releases i) t v =
    let (a, n, w) = release_at-Accounts s.ledger [] s.leases i v.accounts v.normal in
    record { accounts = a; normal = n; waiting = v.waiting; counted = w ∙ v.counted }

run-IsSound : (s : Session) (es : List Event) → All EventIsTyped es → IsSound s → IsSound (run s es)
unfolding run
run-IsSound s [] t v = v
run-IsSound s (e ∷ es) t v = run-IsSound (step s e) es t.1 (step-IsSound s e t.0 v)

-- After any calls on a new ledger, with amounts of their machine types, the books agree with the
-- leases that are out, the totals of all columns keep their ceilings, the active Jobs and the
-- connections of the leases at each endpoint keep theirs, and `waiters` counts the callers in
-- Acquire. The ceiling on the number of endpoints is not part of this.
pub run-new-IsSound :
    (limits : ResourceLimits) (ledger : ResourceLedger) (es : List Event)
    → new_resource_ledger limits ≡ ok ledger
    → All EventIsTyped es
    → IsSound (run (record { ledger = ledger; leases = []; pending = [] }) es)
run-new-IsSound limits ledger es h t =
    run-IsSound (record { ledger = ledger; leases = []; pending = [] }) es t
      (record {
        accounts = new-Accounts limits ledger h;
        normal = tt;
        waiting = tt;
        counted = (IsTight-new limits ledger h).4;
      })
