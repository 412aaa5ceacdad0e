-- ===== src/Transfer/Completion.antt =====
-- internal/transfer/completion.go: durability and verification of a transfer. A plan, an intent and
-- a checkpoint have the fields that this file and stream_budget.go read. Go's strings with named
-- values are data types whose last constructor is any other text.
pub mod Freezing
use awesome_sftp_cli.Base.{
  ℕ, String, Bool, true, false, not, ◌&&◌, ◌||◌, Option, ◌==◌, if◌then◌else◌, Result, ok, ◌>>◌,
  refuse_if, string_eq,
}

pub data Durability : Type 0 where
  durability_unset durability_none durability_completion durability_checkpoint : Durability
  durability_other : String → Durability

pub data Verification : Type 0 where
  verify_unset verify_sha256 verify_protocol : Verification
  verify_other : String → Verification

pub data OperationKind : Type 0 where
  operation_copy operation_move operation_delete : OperationKind
  operation_other : String → OperationKind

pub data Route : Type 0 where
  route_local route_sftp_relay route_helper_same_host : Route
  route_other : String → Route

pub record StreamPolicy : Type 0 where
  pub checkpoint_bytes : ℕ
  pub checkpoint_interval_ms : ℕ
  pub directory_workers : ℕ

pub record Endpoint : Type 0 where
  pub id : String
  pub is_ssh : Bool

pub record Plan : Type 0 where
  pub durability : Durability
  pub version : ℕ
  pub kind : OperationKind
  pub route : Route
  pub require_strong : Bool
  pub verification : Verification
  pub stream_policy : StreamPolicy
  pub buffer_bytes : ℕ
  pub source_is_directory : Bool
  pub source_size : Option ℕ
  pub source_endpoint : Endpoint
  pub destination_endpoint : Endpoint

pub record Intent : Type 0 where
  pub verification : Verification
  pub durability : Durability
  pub require_strong : Bool

pub data FreezeError : Type 0 where
  unsupported_completion_policy : FreezeError

abbrev pub no_durability : Durability → Bool
no_durability durability_unset = true
no_durability durability_none = false
no_durability durability_completion = false
no_durability durability_checkpoint = false
no_durability (durability_other text) = false

abbrev pub is_checkpoint : Durability → Bool
is_checkpoint durability_unset = false
is_checkpoint durability_none = false
is_checkpoint durability_completion = false
is_checkpoint durability_checkpoint = true
is_checkpoint (durability_other text) = false

abbrev pub is_other : Durability → Bool
is_other durability_unset = false
is_other durability_none = false
is_other durability_completion = false
is_other durability_checkpoint = false
is_other (durability_other text) = true

abbrev pub is_sha256 : Verification → Bool
is_sha256 verify_unset = false
is_sha256 verify_sha256 = true
is_sha256 verify_protocol = false
is_sha256 (verify_other text) = false

abbrev pub is_protocol : Verification → Bool
is_protocol verify_unset = false
is_protocol verify_sha256 = false
is_protocol verify_protocol = true
is_protocol (verify_other text) = false

abbrev pub is_copy : OperationKind → Bool
is_copy operation_copy = true
is_copy operation_move = false
is_copy operation_delete = false
is_copy (operation_other text) = false

abbrev pub is_move : OperationKind → Bool
is_move operation_copy = false
is_move operation_move = true
is_move operation_delete = false
is_move (operation_other text) = false

-- `p.Route != RouteLocal && p.Route != RouteSFTPRelay`, negated.
abbrev pub streams : Route → Bool
streams route_local = true
streams route_sftp_relay = true
streams route_helper_same_host = false
streams (route_other text) = false

unfoldable pub default_verification : Verification → Verification
default_verification verify_unset = verify_protocol
default_verification verify_sha256 = verify_sha256
default_verification verify_protocol = verify_protocol
default_verification (verify_other text) = verify_other text

unfoldable pub default_durability : Durability → Durability
default_durability durability_unset = durability_none
default_durability durability_none = durability_none
default_durability durability_completion = durability_completion
default_durability durability_checkpoint = durability_checkpoint
default_durability (durability_other text) = durability_other text

-- Move, and the spelling that asks for the legacy contract.
unfoldable pub settle_policy : Plan → Plan
settle_policy plan =
    let moved =
      if is_move plan.kind
      then record plan { verification = verify_sha256; durability = durability_unset }
      else plan in
    if is_sha256 moved.verification && is_checkpoint moved.durability
    then record moved { durability = durability_unset }
    else moved

unfoldable pub freeze_streams : Plan → Plan
freeze_streams plan =
    let policy = plan.stream_policy in
    let paced =
      if not (no_durability plan.durability) && not (policy.checkpoint_bytes == 0)
      then record policy { checkpoint_interval_ms = 5000 }
      else policy in
    record plan {
      stream_policy =
          if not (no_durability plan.durability) && plan.source_is_directory
          then record paced { directory_workers = 8 }
          else paced;
    }

unfoldable pub freeze_completion_policy : Plan → Intent → Result FreezeError Plan
unfolding default_verification default_durability settle_policy freeze_streams
freeze_completion_policy plan intent = do
  let verification = default_verification intent.verification
  let durability = default_durability intent.durability
  refuse_if (not (is_protocol verification) && not (is_sha256 verification) || is_other durability)
      unsupported_completion_policy
  let verified = if intent.require_strong then verify_sha256 else verification
  ok (
      freeze_streams
        (settle_policy (record plan { verification = verified; durability = durability })))

unfoldable pub checkpoint_sync : Plan → Bool
checkpoint_sync p = no_durability p.durability || is_checkpoint p.durability

unfoldable pub valid_completion_policy : Plan → Bool
unfolding checkpoint_sync
valid_completion_policy p =
    let plain = p.version == 1 && is_copy p.kind && streams p.route in
    if not (no_durability p.durability) && not plain
    then false
    else if p.require_strong && not (is_sha256 p.verification)
    then false
    else if not (is_sha256 p.verification) && not (is_protocol p.verification)
    then false
    else if is_other p.durability
    then false
    else if is_protocol p.verification && (not plain || no_durability p.durability)
    then false
    else if (is_move p.kind || p.version == 2)
        && (not (is_sha256 p.verification) || not (checkpoint_sync p))
    then false
    else true

pub record CompletionEvidence : Type 0 where
  pub version : ℕ
  pub durable_bytes : ℕ
  pub content_verified : Bool

pub record Checkpoint : Type 0 where
  pub completion : CompletionEvidence
  pub offset : ℕ

unfoldable pub new_completion_evidence : Plan → CompletionEvidence
new_completion_evidence plan = record {
  version = if not (no_durability plan.durability) then 1 else 0;
  durable_bytes = 0;
  content_verified = false;
}

unfoldable pub durable_bytes_of : Checkpoint → ℕ
durable_bytes_of c = if c.completion.version == 0 then c.offset else c.completion.durable_bytes

unfoldable pub record_durable : Checkpoint → Checkpoint
record_durable c =
    if not (c.completion.version == 0)
    then record c { completion = record c.completion { durable_bytes = c.offset } }
    else c

unfoldable pub record_content_verified : Checkpoint → Checkpoint
record_content_verified c =
    if not (c.completion.version == 0)
    then record c { completion = record c.completion { content_verified = true } }
    else c
