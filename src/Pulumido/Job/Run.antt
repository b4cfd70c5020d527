-- ===== src/Pulumido/Job/Run.antt =====
-- internal/pulumido/job.go: cacheAvailable, ensureJob and executeOp on the Jobs of the cluster. Why the
-- API server refuses a Job, its other answers, the clock and encoding/json are parameters.
use doplane.Common.{
  ℕ, ◌-◌, Text, bytes, text_eq, Bool, true, false, Option, none, some, List, [], ◌∷◌, ◌++◌, ◌&&◌,
  ◌||◌, not, ltb, if◌then◌else◌, trim_space,
}
use doplane.Runnerops.Path.{is_empty}
use doplane.Runnerops.Spec.{Verb, Op, Result, takes_secret_inputs}
use doplane.Runnerops.Machine.{Try, ok, err}
use doplane.Runnerops.Output.{verb_text}
use doplane.Runnerops.Failures.{truncate}
use doplane.Pulumido.Runner.{RunError, other, result_err}
use doplane.Pulumido.Inputs.{SecretInput, secret_inputs_plan}
use doplane.Pulumido.Job.{
  JobRunner, Tags, Job, Digests, job_namespace, job_name, build_job, secret_env_of, teardown_verb,
}
use doplane.Pulumido.Job.Wait.{
  Poll, Waited, completed, has_failed, disappeared, cancelled, Attempt, Decoding, poll_until,
  pod_logs, classify_infra_failure, failed_job, decode_envelope,
}

-- `tenantCacheEntry`, its time in nanoseconds.
pub record TenantCacheEntry : Type 0 where
  pub present : Bool
  pub checked : ℕ

-- The Jobs that the cluster holds, all that it ever started, and the runner's remembered look-ups.
pub record Cluster : Type 0 where
  pub jobs : List Job
  pub started : List Job
  pub tenant_caches : List (Text × TenantCacheEntry)

-- Why `Create` fails, other than by a Job of that name.
pub data Refusal : Type 0 where
  namespace_terminating : Text → Refusal
  refused_otherwise : Text → Refusal

pub record Answers : Type 0 where
  -- What `Create` answers of a Job, before its name is looked up.
  pub refusal : Job → Option Refusal
  -- Whether `Get` finds the claim of that name in that namespace.
  pub has_claim : Text → Text → Bool
  -- `time.Since(entry.checked)` is taken at `now`, the new entry's time is `later`.
  pub now : ℕ
  pub later : ℕ
  pub polls : Text → Text → List Poll
  pub attempts : Text → Text → ℕ → Attempt

abbrev pub is_named : Text → Text → Job → Bool
is_named namespace name job = text_eq job.namespace namespace && text_eq job.name name

unfoldable pub has_job : Text → Text → List Job → Bool
has_job namespace name [] = false
has_job namespace name (job ∷ jobs) = is_named namespace name job || has_job namespace name jobs

-- `Jobs(namespace).Delete`
unfoldable pub delete_job : Text → Text → List Job → List Job
delete_job namespace name [] = []
delete_job namespace name (job ∷ jobs) =
    let rest = delete_job namespace name jobs in
    if is_named namespace name job then rest else job ∷ rest

-- `tenantCacheTTL`
abbrev pub tenant_cache_ttl : ℕ
tenant_cache_ttl = 300000000000

unfoldable pub tenant_entry : Text → List (Text × TenantCacheEntry) → Option TenantCacheEntry
tenant_entry namespace [] = none
tenant_entry namespace ((k, e) ∷ entries) =
    if text_eq k namespace then some e else tenant_entry namespace entries

-- The outcome of `Create`.
pub data Creation : Type 0 where
  created already_exists : Creation
  not_created : Refusal → Creation

abbrev pub created_unless : Job → Option Refusal → Cluster → Creation × Cluster
created_unless job (some refusal) c = (not_created refusal, c)
created_unless job none c =
    if has_job job.namespace job.name c.jobs
    then (already_exists, c)
    else (created, record c { jobs = job ∷ c.jobs; started = job ∷ c.started })

-- The namespace of the Job, or the error of ensureJob.
pub data Ensured : Type 0 where
  lives_in : Text → Ensured
  not_ensured : Text → Ensured

-- What executeOp gives: an envelope's result, the error of the operation, ErrOutputUnavailable, the
-- error of a wait that was cut off, or of one that found the Job gone.
pub data Executed : Type 0 where
  done : Result → Executed
  run_failed : RunError → Executed
  output_unavailable : Text → Executed
  not_waited : Text → Executed
  lost : Text → Executed

abbrev pub refusal_text : Refusal → Text
refusal_text (namespace_terminating e) = e
refusal_text (refused_otherwise e) = e

abbrev pub is_terminating : Refusal → Bool
is_terminating (namespace_terminating e) = true
is_terminating (refused_otherwise e) = false

abbrev pub with_inputs : Tags → Op → List SecretInput → Op
with_inputs tags op [] = op
with_inputs tags op (input ∷ inputs) =
    if takes_secret_inputs op.verb
    then record op { secret_inputs = secret_inputs_plan (input ∷ inputs) }
    else op

abbrev pub ended_with : Option RunError → Result → Executed
ended_with none res = done res
ended_with (some e) res = run_failed e

abbrev pub decoded : Try Result → Executed
decoded (err e) = run_failed (other e)
decoded (ok res) = ended_with (result_err res) res

abbrev pub log_text : Try Text → Text
log_text (err e) = []
log_text (ok logs) = logs

abbrev pub title : Text → Verb → Text
title name verb = bytes "runner job " ++ name ++ bytes " (" ++ verb_text verb ++ bytes ")"

abbrev pub failed_text : Text → Verb → Text → Text → Text
failed_text name verb fail_msg logs =
    title name verb
    ++ bytes " failed: "
    ++ fail_msg
    ++ bytes ": "
    ++ truncate (trim_space logs) 4000

module _ (r : JobRunner) (d : Digests) (m : Decoding) (a : Answers) (tags : Tags) where
  abbrev pub remembered : Text → Option TenantCacheEntry → Option Bool
  remembered namespace none = none
  remembered namespace (some e) =
      if ltb (a.now - e.checked) tenant_cache_ttl then some e.present else none

  abbrev pub looked_up : Text → Option Bool → Cluster → Bool × Cluster
  looked_up namespace (some present) c = (present, c)
  looked_up namespace none c =
      let present = a.has_claim namespace r.plugin_cache_pvc in
      (
        present,
        record c {
          tenant_caches =
              (namespace, record { present = present; checked = a.later }) ∷ c.tenant_caches;
        },
      )

  -- `cacheAvailable`; a new entry hides an older one of its namespace.
  unfoldable pub cache_available : Text → Cluster → Bool × Cluster
  cache_available namespace c =
      if is_empty r.plugin_cache_pvc
      then (false, c)
      else if text_eq namespace r.namespace
      then (true, c)
      else looked_up namespace (remembered namespace (tenant_entry namespace c.tenant_caches)) c

  unfoldable pub create_job : Job → Cluster → Creation × Cluster
  create_job job c = created_unless job (a.refusal job) c

  abbrev pub credentials_of : Text
  credentials_of = if is_empty tags.credentials then r.credentials_secret else tags.credentials

  abbrev pub fell_back : Creation × Cluster → Ensured × Cluster
  fell_back (created, c) = (lives_in r.namespace, c)
  fell_back (already_exists, c) = (lives_in r.namespace, c)
  fell_back (not_created refusal, c) = (not_ensured (refusal_text refusal), c)

  -- The Job of an operation in a namespace.
  abbrev pub job_in : Text → Text → Verb → Text → Bool → Job
  job_in namespace name verb op_json mount_cache =
      build_job r name namespace credentials_of verb op_json (secret_env_of tags verb) mount_cache

  abbrev pub after_creation : Text → Text → Verb → Text → Creation × Cluster → Ensured × Cluster
  after_creation namespace name verb op_json (created, c) = (lives_in namespace, c)
  after_creation namespace name verb op_json (already_exists, c) = (lives_in namespace, c)
  after_creation namespace name verb op_json (not_created refusal, c) =
      if not (text_eq namespace r.namespace) && teardown_verb verb && is_terminating refusal
      then fell_back
          (create_job (job_in r.namespace name verb op_json (not (is_empty r.plugin_cache_pvc))) c)
      else (not_ensured (refusal_text refusal), c)

  -- `ensureJob`
  unfoldable pub ensure_job : Text → Text → Verb → Text → Cluster → Ensured × Cluster
  ensure_job namespace name verb op_json c =
      let (mount_cache, c') = cache_available namespace c in
      after_creation namespace name verb op_json
        (create_job (job_in namespace name verb op_json mount_cache) c')

  abbrev pub cleaned_up : Text → Text → Cluster → Cluster
  cleaned_up namespace name c = record c { jobs = delete_job namespace name c.jobs }

  abbrev pub after_logs : Text → Text → Verb → Try Text → Cluster → Executed × Cluster
  after_logs namespace name verb (err e) c = (
    output_unavailable
        (title name verb ++ bytes " completed but its logs could not be read: " ++ e),
    c,
  )
  after_logs namespace name verb (ok logs) c =
      (decoded (decode_envelope m logs), cleaned_up namespace name c)

  -- What follows the wait. Of the context, the error's text is left out.
  abbrev pub after_wait : Text → Text → Verb → Try Text → Waited → Cluster → Executed × Cluster
  after_wait namespace name verb logs disappeared c = (
    lost (
        bytes "waiting for "
        ++ title name verb
        ++ bytes ": runner job "
        ++ name
        ++ bytes " disappeared"),
    c,
  )
  after_wait namespace name verb logs cancelled c =
      (not_waited (bytes "waiting for " ++ title name verb), c)
  after_wait namespace name verb logs (has_failed fail_msg) c = (
    run_failed (
        failed_job (classify_infra_failure (log_text logs) fail_msg)
          (failed_text name verb fail_msg (log_text logs))),
    cleaned_up namespace name c,
  )
  after_wait namespace name verb logs completed c = after_logs namespace name verb logs c

  abbrev pub after_ensure : Text → Verb → Ensured × Cluster → Executed × Cluster
  after_ensure name verb (not_ensured e, c) = (run_failed (other e), c)
  after_ensure name verb (lives_in namespace, c) =
      after_wait namespace name verb (pod_logs name (a.attempts namespace name))
        (poll_until (a.polls namespace name)) c

  abbrev pub after_marshal : Verb → Try Text → Cluster → Executed × Cluster
  after_marshal verb (err e) c = (run_failed (other e), c)
  after_marshal verb (ok op_json) c =
      let name = job_name d tags verb op_json in
      after_ensure name verb (ensure_job (job_namespace r tags) name verb op_json c)

  -- `executeOp`, with `json.Marshal`.
  unfoldable pub execute_op : (Op → Try Text) → Op → Cluster → Executed × Cluster
  execute_op marshal op c =
      after_marshal op.verb (marshal (with_inputs tags op tags.secret_inputs)) c
