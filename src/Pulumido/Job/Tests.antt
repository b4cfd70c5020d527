-- ===== src/Pulumido/Job/Tests.antt =====
-- internal/pulumido/job.go: Jobs of concrete operations.
use doplane.Common.{◌≡◌, refl, bytes, text_eq, if◌then◌else◌, true, false, none, some, [], ◌∷◌}
use doplane.Json.{end}
use doplane.Runnerops.Spec.{Op, create, delete}
use doplane.Runnerops.Machine.{ok, err}
use doplane.Runnerops.Failures.{take}
use doplane.Pulumido.Job.{JobRunner, Tags, Digests, job_name, build_job}
use doplane.Pulumido.Job.Wait.{
  Decoding, found, transient, complete, pod_logs, poll_until, ending, retry_logs,
}
use doplane.Pulumido.Job.Run.{
  Answers, Cluster, lives_in, namespace_terminating, execute_op, ensure_job, has_job, create_job,
  cache_available,
}
use doplane.Pulumido.Job.Adoption.{execute_op-adopts}
use doplane.Pulumido.Job.Escape.{ensure_job-escapes}

abbrev runner : JobRunner
runner = record {
  namespace = bytes "doplane";
  per_resource_namespace = true;
  image = bytes "runner:dev";
  image_pull_policy = bytes "Always";
  credentials_secret = bytes "cloud";
  plugin_cache_pvc = [];
  plugin_cache_mount_path = [];
  timeout = 0;
}

abbrev tags : Tags
tags = record {
  owner = bytes "team/db";
  credentials = [];
  namespace = bytes "team";
  secret_version_salt = [];
  secret_inputs = [];
}

abbrev digests : Digests
digests = record { sha256_hex = λ s. bytes "0123456789abcdef0123"; random = bytes "aaaaaaaa" }

abbrev decoding : Decoding
decoding = record { object = λ s. none; envelope = λ fs. err (bytes "no envelope") }

-- The Job completes, and the logs of its pods cannot be read.
abbrev unreadable : Answers
unreadable = record {
  refusal = λ job. none;
  has_claim = λ namespace name. false;
  now = 0;
  later = 0;
  polls =
      λ namespace name. transient ∷ found (record { is_true = true; kind = complete } ∷ []) ∷ [];
  attempts = λ namespace name left. record { interrupted = none; pods = ok [] };
}

-- The tenant's namespace is terminating.
abbrev closing : Answers
closing = record unreadable {
  refusal = λ job.
      if text_eq job.namespace (bytes "team")
      then some (namespace_terminating (bytes "terminating"))
      else none;
}

abbrev empty_cluster : Cluster
empty_cluster = record { jobs = []; started = []; tenant_caches = [] }

abbrev create_db : Op
create_db = record {
  verb = create;
  token = bytes "aws:rds:Instance";
  package_ref = [];
  id = [];
  properties = some end;
  engine_state = [];
  state = none;
  secret_inputs = [];
}

execute_op-adopts_example :
    (execute_op runner
      (record digests { random = bytes "b" })
      decoding
      unreadable
      tags
      (λ op. ok (bytes "{}"))
      create_db
      (execute_op runner digests decoding unreadable tags
        (λ op. ok (bytes "{}"))
        create_db
        empty_cluster).1).1.started
    ≡ (execute_op runner digests decoding unreadable tags
        (λ op. ok (bytes "{}"))
        create_db
        empty_cluster).1.started
unfolding execute_op ensure_job cache_available create_job poll_until ending pod_logs retry_logs
    has_job
execute_op-adopts_example =
    execute_op-adopts runner digests decoding tags (λ op. ok (bytes "{}")) create_db unreadable
      unreadable (bytes "b") empty_cluster
      (execute_op runner digests decoding unreadable tags (λ op. ok (bytes "{}")) create_db
        empty_cluster).1
      refl refl tt (λ namespace name h. h)

-- The first attempt does start the Job.
starts_one :
    has_job
      (bytes "team")
      (bytes "do-create-0123456789abcdef")
      (execute_op runner digests decoding unreadable tags
        (λ op. ok (bytes "{}"))
        create_db
        empty_cluster).1.started
    ≡ true
unfolding execute_op ensure_job cache_available create_job poll_until ending pod_logs retry_logs
    has_job build_job job_name text_eq take
starts_one = refl

ensure_job-escapes_example :
    ((ensure_job runner digests decoding closing tags
        (bytes "team")
        (bytes "do-delete-1")
        delete
        (bytes "{}")
        empty_cluster).0
      ≡ lives_in (bytes "doplane"))
    × (has_job
          (bytes "doplane")
          (bytes "do-delete-1")
          (ensure_job runner digests decoding closing tags
            (bytes "team")
            (bytes "do-delete-1")
            delete
            (bytes "{}")
            empty_cluster).1.jobs
        ≡ true)
unfolding text_eq
ensure_job-escapes_example =
    ensure_job-escapes runner digests decoding closing tags (bytes "team") (bytes "do-delete-1")
      delete (bytes "{}") (bytes "terminating") empty_cluster refl refl (λ job e. rw e refl)
      (λ job e. rw e refl)
