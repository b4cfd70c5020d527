-- ===== src/Pulumido/Job/Wait.antt =====
-- internal/pulumido/job.go and runner.go: the wait for a Job's end, the logs of its pod, and what
-- they say. The answers of the API server are parameters, in the order in which they are asked for.
use doplane.Common.{
  ℕ, zero, suc, Text, bytes, Bool, true, false, Option, none, some, List, [], ◌∷◌, ◌++◌, ◌||◌, ltb,
  if◌then◌else◌, contains,
}
use doplane.Json.{Json, Fields, lookup}
use doplane.Runnerops.Path.{is_empty}
use doplane.Runnerops.Spec.{Result}
use doplane.Runnerops.Machine.{Try, ok, err}
use doplane.Runnerops.Output.{last_json_object}
use doplane.Runnerops.Failures.{truncate, provider_error_text}
use doplane.Pulumido.Runner.{RunError, other, infra_read_not_supported}

pub data ConditionType : Type 0 where
  complete : ConditionType
  job_failed : Text → ConditionType
  other_type : ConditionType

pub record Condition : Type 0 where
  pub is_true : Bool
  pub kind : ConditionType

-- What `Get` answers of a Job: that there is none, another error, or its conditions.
pub data Poll : Type 0 where
  missing transient : Poll
  found : List Condition → Poll

-- How the wait ends: the Job is complete or failed, it is gone, or the context is cancelled.
pub data Waited : Type 0 where
  completed : Waited
  has_failed : Text → Waited
  disappeared cancelled : Waited

-- The first condition that ends the wait.
unfoldable pub ending : List Condition → Option Waited
ending [] = none
ending (c ∷ cs) = let rest = ending cs in if c.is_true then of_kind c.kind rest else rest
  where
    of_kind : ConditionType → Option Waited → Option Waited
    of_kind complete rest = some completed
    of_kind (job_failed message) rest = some (has_failed message)
    of_kind other_type rest = rest

abbrev pub ended_or : Option Waited → Waited → Waited
ended_or none rest = rest
ended_or (some w) rest = w

-- `wait.PollUntilContextCancel`: the context is cancelled after the last answer.
unfoldable pub poll_until : List Poll → Waited
poll_until [] = cancelled
poll_until (missing ∷ polls) = disappeared
poll_until (transient ∷ polls) = poll_until polls
poll_until (found conditions ∷ polls) = ended_or (ending conditions) (poll_until polls)

pub record Pod : Type 0 where
  pub created : ℕ
  pub logs : Try Text

-- One round of podLogs: the pods, or the error of `List`; `interrupted` is the context's error where
-- it ends before the round.
pub record Attempt : Type 0 where
  pub interrupted : Option Text
  pub pods : Try (List Pod)

-- The last of the pods when they are sorted by their time; of the pods of one time the last listed.
unfoldable pub most_recent : Pod → List Pod → Pod
most_recent p [] = p
most_recent p (q ∷ pods) =
    if ltb q.created p.created then most_recent p pods else most_recent q pods

abbrev pub logs_of : Text → Try (List Pod) → Try Text
logs_of job (err e) = err e
logs_of job (ok []) = err (bytes "no pods found for job " ++ job)
logs_of job (ok (p ∷ pods)) = (most_recent p pods).logs

abbrev pub or_retry : Try Text → (Text → Try Text) → Try Text
or_retry (ok logs) retry = ok logs
or_retry (err e) retry = retry e

abbrev pub unless_interrupted : Option Text → Text → Try Text → Try Text
unless_interrupted none last_err next = next
unless_interrupted (some e) last_err next = err (last_err ++ 10 ∷ e)

-- The rounds after the first, the last error at hand.
unfoldable pub retry_logs : Text → ℕ → (ℕ → Attempt) → Text → Try Text
retry_logs job zero attempts last_err = err last_err
retry_logs job (suc left) attempts last_err =
    unless_interrupted (attempts (suc left)).interrupted last_err
      (or_retry (logs_of job (attempts (suc left)).pods) (retry_logs job left attempts))

-- `podLogs`; a round is numbered by how many are left, itself among them: 5 to 1.
unfoldable pub pod_logs : Text → (ℕ → Attempt) → Try Text
pod_logs job attempts = or_retry (logs_of job (attempts 5).pods) (retry_logs job 4 attempts)

-- `classifyInfraFailure`: whether it gives ErrReadNotSupported.
unfoldable pub classify_infra_failure : Text → Text → Bool
classify_infra_failure logs fail_msg =
    let text = provider_error_text logs fail_msg in
    if is_empty text
    then false
    else contains (bytes "not support import") text
      || contains (bytes "import not implemented") text

-- The error for a failed Job, from the message of the plain one.
abbrev pub failed_job : Bool → Text → RunError
failed_job true message = infra_read_not_supported
failed_job false message = other message

-- The decoding of encoding/json: the object at a text's start, and the envelope of an object.
pub record Decoding : Type 0 where
  pub object : Text → Option (Fields × ℕ)
  pub envelope : Fields → Try Result

abbrev pub with_ok : Text → Option Json → Result → Try Result
with_ok out none res =
    err (bytes "runner output is not a result envelope (output: " ++ truncate out 2000 ++ bytes ")")
with_ok out (some v) res = ok res

abbrev pub envelope_of : Text → Option Json → Try Result → Try Result
envelope_of out has_ok (err e) = err (bytes "decoding result envelope: " ++ e)
envelope_of out has_ok (ok res) = with_ok out has_ok res

abbrev pub envelope_in : Decoding → Text → Option Fields → Try Result
envelope_in d out none =
    err (bytes "no result envelope in runner output (output: " ++ truncate out 2000 ++ bytes ")")
envelope_in d out (some fs) = envelope_of out (lookup (bytes "ok") fs) (d.envelope fs)

-- `decodeEnvelope`
unfoldable pub decode_envelope : Decoding → Text → Try Result
decode_envelope d out = envelope_in d out (last_json_object d.object out)
