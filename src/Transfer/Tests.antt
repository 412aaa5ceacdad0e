-- ===== src/Transfer/Tests.antt =====
-- internal/transfer: the theorems on plans at concrete inputs.
use awesome_sftp_cli.Base.{◌*◌, ◌≡◌, refl, true, false, none, arith, ok, string_eq}
use awesome_sftp_cli.Transfer.Completion.{
  Intent, Plan, freeze_completion_policy, valid_completion_policy, default_verification,
  durability_completion, durability_unset, verify_protocol, default_durability, operation_copy,
  verify_sha256, route_sftp_relay, settle_policy, freeze_streams, verify_unset,
}
use awesome_sftp_cli.Transfer.Streams.Budget.{IsExactBudget, windowed_usage_within}
use awesome_sftp_cli.Transfer.Streams.{windowed_execution_resource_usage, default_stream_policy}
use awesome_sftp_cli.Transfer.Completion.Freezing.{freeze-valid}

abbrev copy_plan : Plan
copy_plan = record {
  durability = durability_unset;
  version = 1;
  kind = operation_copy;
  route = route_sftp_relay;
  require_strong = true;
  verification = verify_unset;
  stream_policy = default_stream_policy;
  buffer_bytes = 256 * 1024;
  source_is_directory = true;
  source_size = none;
  source_endpoint = record { id = "here"; is_ssh = false };
  destination_endpoint = record { id = "there"; is_ssh = true };
}

abbrev strong_intent : Intent
strong_intent = record {
  verification = verify_protocol;
  durability = durability_completion;
  require_strong = true;
}

abbrev frozen_plan : Plan
frozen_plan = record copy_plan {
  durability = durability_completion;
  verification = verify_sha256;
  stream_policy = record {
    checkpoint_bytes = 64 * 1024 * 1024;
    checkpoint_interval_ms = 5000;
    directory_workers = 8;
  };
}

frozen : freeze_completion_policy copy_plan strong_intent ≡ ok frozen_plan
unfolding freeze_completion_policy default_verification default_durability settle_policy
    freeze_streams
frozen = refl

freeze-valid_example : valid_completion_policy frozen_plan ≡ true
freeze-valid_example = freeze-valid copy_plan strong_intent frozen_plan refl refl refl refl frozen

windowed_usage_within_example :
    IsExactBudget frozen_plan (windowed_execution_resource_usage frozen_plan)
windowed_usage_within_example = windowed_usage_within frozen_plan (omega arith)
