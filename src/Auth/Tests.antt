-- ===== src/Auth/Tests.antt =====
-- internal/auth/broker.go: one prompt and its answer.
use awesome_sftp_cli.Base.{
  ◌≡◌, refl, false, none, some, List, [], ◌∷◌, arith, ok, err, string_eq, nat_eq,
}
use awesome_sftp_cli.Base.Map.{lookup, insert}
use awesome_sftp_cli.Auth.Invariant.{
  Call, begins, asks, claims, resolves, detaches, closes, abandons, run, IsKept,
  run-new_broker-IsKept,
}
use awesome_sftp_cli.Auth.Answers.{resolve_lem}
use awesome_sftp_cli.Auth.{
  Broker, ChallengeState, Resolution, begin_attempt, new_broker, ask, resolve, challenge_not_found,
  claim,
}

abbrev new : Broker
new = record {
  max_prompts = 2;
  attempts = [];
  challenges = [];
  order = [];
  changed = 0;
  channels = 0;
  sent = [];
}

abbrev answer : Resolution
answer = record { answer = 115 ∷ []; cancel = false }

-- Two prompts of an attempt; one is claimed and detached, the other times out, the attempt closes.
abbrev calls : List Call
calls =
    begins none "host" 5 (some "t") 9
    ∷ asks none none "t" "Password:" "secret" (some "c")
    ∷ asks none none "t" "Code:" "secret" (some "d")
    ∷ claims 4
    ∷ claims 5
    ∷ detaches 4
    ∷ abandons "c"
    ∷ resolves 5 "d" answer
    ∷ closes "t" none
    ∷ []

new_lem : new_broker 2 ≡ ok new
unfolding new_broker
new_lem = refl

run-new_broker-IsKept_example : IsKept (run new calls)
run-new_broker-IsKept_example = run-new_broker-IsKept 2 new calls new_lem

abbrev claimed : ChallengeState
claimed = record {
  challenge = record {
    id = "c";
    endpoint = "host";
    kind = "secret";
    prompt = "Password:";
    expires_at = 9;
  };
  attempt = "t";
  owner = 4;
  result = 0;
}

abbrev waiting : Broker
waiting = record {
  max_prompts = 2;
  attempts = ("t", record { token = "t"; endpoint = "host"; deadline = 9; prompts = 1 }) ∷ [];
  challenges = ("c", claimed) ∷ [];
  order = "c" ∷ [];
  changed = 2;
  channels = 1;
  sent = [];
}

waiting_lem :
    run new (
      begins none "host" 5 (some "t") 9
      ∷ asks none none "t" "Password:" "secret" (some "c")
      ∷ claims 4
      ∷ [])
    ≡ waiting
unfolding begin_attempt ask claim lookup insert
waiting_lem = refl

found_lem : lookup "c" waiting.challenges ≡ some claimed
unfolding lookup
found_lem = refl

resolve_lem_example :
    (b' : Broker) × (resolve 4 "c" answer waiting ≡ (b', ok tt))
    × (lookup 0 b'.sent ≡ some (ok (115 ∷ [])))
    × (lookup "c" b'.challenges ≡ none)
    × (resolve 4 "c" answer b' ≡ (b', err challenge_not_found))
resolve_lem_example =
    resolve_lem 4 "c" answer waiting claimed (omega arith) refl refl found_lem refl
