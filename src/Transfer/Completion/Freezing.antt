-- ===== src/Transfer/Completion/Freezing.antt =====
-- internal/transfer/completion.go: what freezing a completion policy gives is valid.
use mathlib.Core.Path.{subst}
use awesome_sftp_cli.Base.{
  ◌≡◌, refl, ◌∙◌, ◌⊎◌, inl, inr, Bool, true, false, not, ◌&&◌, ◌||◌, arith, if◌then◌else◌,
  Bool-cases, ok, string_eq,
}
use awesome_sftp_cli.Transfer.Completion.{
  freeze_completion_policy, default_verification, default_durability, settle_policy, freeze_streams,
  valid_completion_policy, checkpoint_sync, Plan, Intent, is_copy, is_move, streams, is_sha256,
  is_protocol, no_durability, is_other, operation_move, operation_copy, verify_sha256,
  OperationKind, Durability,
}

moved-valid :
    (p : Plan) → p.kind ≡ operation_move → valid_completion_policy (settle_policy p) ≡ true
unfolding settle_policy valid_completion_policy checkpoint_sync
moved-valid p k = ground arith

copied-valid :
    (p : Plan)
    → p.version ≡ 1
    → p.kind ≡ operation_copy
    → streams p.route ≡ true
    → is_protocol p.verification || is_sha256 p.verification ≡ true
    → is_other p.durability ≡ false
    → no_durability p.durability ≡ false
    → (p.require_strong ≡ true → is_sha256 p.verification ≡ true)
    → valid_completion_policy (settle_policy p) ≡ true
unfolding settle_policy valid_completion_policy checkpoint_sync
copied-valid p v k r c o d s = ground arith

-- The plan with the intent's policy, before the rules of its kind.
abbrev asked : Plan → Intent → Plan
asked p i = record p {
  verification = if i.require_strong then verify_sha256 else default_verification i.verification;
  durability = default_durability i.durability;
}

abbrev refused : Intent → Bool
refused i =
    not (is_protocol (default_verification i.verification))
      && not (is_sha256 (default_verification i.verification))
    || is_other (default_durability i.durability)

freeze_value :
    (p : Plan) (i : Intent) (q : Plan)
    → freeze_completion_policy p i ≡ ok q
    → (refused i ≡ false) × (freeze_streams (settle_policy (asked p i)) ≡ q)
unfolding freeze_completion_policy
freeze_value p i q h = elim (Bool-cases (refused i)) [
  | inl declined ↦ absurd (ground arith)
  | inr accepted ↦ (accepted, ground arith)
]

default-named : (d : Durability) → no_durability (default_durability d) ≡ false
unfolding default_durability
default-named d = ground arith

asked_verified :
    (p : Plan) (i : Intent)
    → refused i ≡ false
    → is_protocol (asked p i).verification || is_sha256 (asked p i).verification ≡ true
asked_verified p i h = ground arith

asked_strong :
    (p : Plan) (i : Intent)
    → p.require_strong ≡ i.require_strong
    → p.require_strong ≡ true
    → is_sha256 (asked p i).verification ≡ true
asked_strong p i s h = ground arith

kind-cases :
    (k : OperationKind)
    → is_copy k || is_move k ≡ true
    → (k ≡ operation_copy) ⊎ (k ≡ operation_move)
kind-cases k h = ground arith

settled-valid :
    (p : Plan) (i : Intent)
    → p.version ≡ 1
    → is_copy p.kind || is_move p.kind ≡ true
    → streams p.route ≡ true
    → p.require_strong ≡ i.require_strong
    → refused i ≡ false
    → valid_completion_policy (settle_policy (asked p i)) ≡ true
settled-valid p i v k r s h = elim (kind-cases p.kind k) [
  | inr moves ↦ moved-valid (asked p i) moves
  | inl copies ↦
      copied-valid (asked p i) v copies r (asked_verified p i h) (ground arith)
        (default-named i.durability) (asked_strong p i s)
]

freeze_streams-valid :
    (p : Plan) → valid_completion_policy (freeze_streams p) ≡ valid_completion_policy p
unfolding valid_completion_policy freeze_streams checkpoint_sync
freeze_streams-valid p = refl

-- A first-version plan for a copy or a move over a streaming route, whose direct policy is the
-- intent's: what freezeCompletionPolicy makes of it is valid.
pub freeze-valid :
    (p : Plan) (i : Intent) (q : Plan)
    → p.version ≡ 1
    → is_copy p.kind || is_move p.kind ≡ true
    → streams p.route ≡ true
    → p.require_strong ≡ i.require_strong
    → freeze_completion_policy p i ≡ ok q
    → valid_completion_policy q ≡ true
freeze-valid p i q v k r s h =
    let (accepted, value) = freeze_value p i q h in
    subst (λ u. valid_completion_policy u ≡ true) value
      (freeze_streams-valid (settle_policy (asked p i)) ∙ settled-valid p i v k r s accepted)
