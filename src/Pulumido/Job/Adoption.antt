-- ===== src/Pulumido/Job/Adoption.antt =====
-- internal/pulumido/job.go: why executeOp leaves a Job whose outcome it has not read, and how the next
-- attempt finds it.
use doplane.Common.{
  ◌≡◌, refl, ◌∙◌, ap, Text, text_eq, text_eq_refl, Bool, true, false, Bool-cases, Option, none,
  some, inl, inr, ◌∷◌, ◌⊎◌,
}
use doplane.Runnerops.Path.{is_empty}
use doplane.Runnerops.Spec.{Verb, Op, Result}
use doplane.Runnerops.Machine.{Try, ok, err}
use doplane.Pulumido.Job.{
  JobRunner, Tags, Job, Digests, job_namespace, job_name, build_job, teardown_verb,
}
use doplane.Pulumido.Job.Wait.{
  Waited, completed, has_failed, disappeared, cancelled, Decoding, poll_until, pod_logs,
}
use doplane.Pulumido.Runner
use doplane.Pulumido.Job.Wait
use doplane.Pulumido.Job.Run
use doplane.Pulumido.Job.Run.{
  Cluster, Answers, Refusal, Creation, created, already_exists, not_created, Ensured, lives_in,
  not_ensured, Executed, done, run_failed, output_unavailable, not_waited, lost, has_job, is_named,
  cache_available, create_job, created_unless, looked_up, remembered, tenant_entry, job_in,
  after_creation, ensure_job, after_wait, after_ensure, after_marshal, execute_op, with_inputs,
}

-- The operation's outcome is not known yet: the Job did not end in time, or ended without readable
-- logs.
abbrev pub IsUnfinished : Executed → Type 0
IsUnfinished (done res) = ⊥
IsUnfinished (run_failed e) = ⊥
IsUnfinished (output_unavailable e) = Unit
IsUnfinished (not_waited e) = Unit
IsUnfinished (lost e) = ⊥

-- No Job was removed.
abbrev pub IsKept : Cluster → Cluster → Type 0
IsKept c c' =
    (namespace name : Text)
    → has_job namespace name c.jobs ≡ true
    → has_job namespace name c'.jobs ≡ true

-- The Job of that name is in the namespace that ensureJob gives, if it gives one.
abbrev Stands : Text → Text → Ensured × Cluster → Type 0
Stands namespace name (lives_in n, c) = (n ≡ namespace) × (has_job namespace name c.jobs ≡ true)
Stands namespace name (not_ensured e, c) = Unit

is_named_self : (job : Job) → is_named job.namespace job.name job ≡ true
is_named_self job = rw (text_eq_refl job.namespace, text_eq_refl job.name) refl

created_unless-has_job :
    (job : Job) (o : Option Refusal) (c : Cluster)
    → ((refusal : Refusal) × (created_unless job o c ≡ (not_created refusal, c)))
      ⊎ ((created_unless job o c ≡ (already_exists, c))
          × (has_job job.namespace job.name c.jobs ≡ true))
      ⊎ ((created_unless job o c
            ≡ (created, record c { jobs = job ∷ c.jobs; started = job ∷ c.started }))
          × (has_job job.namespace job.name c.jobs ≡ false))
created_unless-has_job job (some refusal) c = inl (refusal, refl)
created_unless-has_job job none c = elim (Bool-cases (has_job job.namespace job.name c.jobs)) [
  | inl h ↦ inr (inl (rw h refl, h))
  | inr h ↦ inr (inr (rw h refl, h))
]

module _ (r : JobRunner) (d : Digests) (m : Decoding) (a : Answers) (tags : Tags) where
  cache_available-jobs :
      (namespace : Text) (c : Cluster)
      → ((cache_available r d m a tags namespace c).1.jobs ≡ c.jobs)
        × ((cache_available r d m a tags namespace c).1.started ≡ c.started)
  unfolding cache_available
  cache_available-jobs namespace c = elim (Bool-cases (is_empty r.plugin_cache_pvc)) [
    | inl h ↦ rw h (refl, refl)
    | inr h ↦ elim (Bool-cases (text_eq namespace r.namespace)) [
      | inl e ↦ rw (h, e) (refl, refl)
      | inr e ↦
          rw (h, e)
            (looked_up-jobs
              (remembered r d m a tags namespace (tenant_entry namespace c.tenant_caches)))
    ]
  ]
    where
      looked_up-jobs :
          (o : Option Bool)
          → ((looked_up r d m a tags namespace o c).1.jobs ≡ c.jobs)
            × ((looked_up r d m a tags namespace o c).1.started ≡ c.started)
      looked_up-jobs none = (refl, refl)
      looked_up-jobs (some present) = (refl, refl)

  after_creation-Stands :
      (namespace name : Text) (verb : Verb) (op_json : Text) (b : Bool) (c : Cluster)
      → teardown_verb verb ≡ false
      → Stands namespace name (
          after_creation r d m a tags namespace name verb op_json
            (create_job r d m a tags (job_in r d m a tags namespace name verb op_json b) c))
  unfolding create_job build_job has_job
  after_creation-Stands namespace name verb op_json b c td =
      elim (created_unless-has_job (job_in r d m a tags namespace name verb op_json b)
        (a.refusal (job_in r d m a tags namespace name verb op_json b)) c) [
          | inl (refusal, e) ↦ rw e (elim (Bool-cases (text_eq namespace r.namespace)) [
            | inl s ↦ rw s tt
            | inr s ↦ rw (s, td) tt
          ])
          | inr (inl (e, h)) ↦ rw e (refl, h)
          | inr (inr (e, h)) ↦ rw e (refl, rw (text_eq_refl namespace, text_eq_refl name) refl)
        ]

  ensure_job-Stands :
      (namespace name : Text) (verb : Verb) (op_json : Text) (c : Cluster)
      → teardown_verb verb ≡ false
      → Stands namespace name (ensure_job r d m a tags namespace name verb op_json c)
  unfolding ensure_job
  ensure_job-Stands namespace name verb op_json c td =
      after_creation-Stands namespace name verb op_json (cache_available r d m a tags namespace c).0
        (cache_available r d m a tags namespace c).1 td

  -- Where the Job stands already, none is started.
  after_creation-started :
      (namespace name : Text) (verb : Verb) (op_json : Text) (b : Bool) (c : Cluster)
      → teardown_verb verb ≡ false
      → has_job namespace name c.jobs ≡ true
      → (after_creation r d m a tags namespace name verb op_json
          (create_job r d m a tags (job_in r d m a tags namespace name verb op_json b) c)).1.started
        ≡ c.started
  unfolding create_job build_job
  after_creation-started namespace name verb op_json b c td h =
      elim (created_unless-has_job (job_in r d m a tags namespace name verb op_json b)
        (a.refusal (job_in r d m a tags namespace name verb op_json b)) c) [
          | inl (refusal, e) ↦ rw e (elim (Bool-cases (text_eq namespace r.namespace)) [
            | inl s ↦ rw s refl
            | inr s ↦ rw (s, td) refl
          ])
          | inr (inl (e, h')) ↦ rw e refl
          | inr (inr (e, h')) ↦ cc
        ]

  ensure_job-started :
      (namespace name : Text) (verb : Verb) (op_json : Text) (c : Cluster)
      → teardown_verb verb ≡ false
      → has_job namespace name c.jobs ≡ true
      → (ensure_job r d m a tags namespace name verb op_json c).1.started ≡ c.started
  unfolding ensure_job
  ensure_job-started namespace name verb op_json c td h =
      let (same, none_new) = cache_available-jobs namespace c in
      after_creation-started namespace name verb op_json
        (cache_available r d m a tags namespace c).0 (cache_available r d m a tags namespace c).1 td
        (ap (has_job namespace name) same ∙ h)
      ∙ none_new

  -- What follows the wait starts no Job, and keeps all of them when the outcome is not known.
  after_wait-started :
      (namespace name : Text) (verb : Verb) (logs : Try Text) (w : Waited) (c : Cluster)
      → (after_wait r d m a tags namespace name verb logs w c).1.started ≡ c.started
  after_wait-started namespace name verb logs disappeared c = refl
  after_wait-started namespace name verb logs cancelled c = refl
  after_wait-started namespace name verb logs (has_failed e) c = refl
  after_wait-started namespace name verb (err e) completed c = refl
  after_wait-started namespace name verb (ok logs) completed c = refl

  decoded_not_unfinished : (t : Try Result) → IsUnfinished (Run.decoded t) → ⊥
  decoded_not_unfinished (err e) u = u
  decoded_not_unfinished (ok res) u = ended (Runner.result_err res) u
    where
      ended : (o : Option Runner.RunError) → IsUnfinished (Run.ended_with o res) → ⊥
      ended none u' = u'
      ended (some e) u' = u'

  after_wait-unfinished :
      (namespace name : Text) (verb : Verb) (logs : Try Text) (w : Waited) (c : Cluster)
      → IsUnfinished (after_wait r d m a tags namespace name verb logs w c).0
      → (after_wait r d m a tags namespace name verb logs w c).1.jobs ≡ c.jobs
  after_wait-unfinished namespace name verb logs disappeared c u = absurd u
  after_wait-unfinished namespace name verb logs cancelled c u = refl
  after_wait-unfinished namespace name verb logs (has_failed e) c u = absurd u
  after_wait-unfinished namespace name verb (err e) completed c u = refl
  after_wait-unfinished namespace name verb (ok logs) completed c u =
      absurd (decoded_not_unfinished (Wait.decode_envelope m logs) u)

  after_ensure-started :
      (name : Text) (verb : Verb) (e : Ensured × Cluster)
      → (after_ensure r d m a tags name verb e).1.started ≡ e.1.started
  after_ensure-started name verb (not_ensured e, c) = refl
  after_ensure-started name verb (lives_in namespace, c) =
      after_wait-started namespace name verb (pod_logs name (a.attempts namespace name))
        (poll_until (a.polls namespace name)) c

  after_ensure-unfinished :
      (namespace name : Text) (verb : Verb) (e : Ensured × Cluster)
      → Stands namespace name e
      → IsUnfinished (after_ensure r d m a tags name verb e).0
      → has_job namespace name (after_ensure r d m a tags name verb e).1.jobs ≡ true
  after_ensure-unfinished namespace name verb (not_ensured e, c) s u = absurd u
  after_ensure-unfinished namespace name verb (lives_in n, c) (same, h) u =
      ap (has_job namespace name) (
        after_wait-unfinished n name verb (pod_logs name (a.attempts n name))
          (poll_until (a.polls n name)) c u)
      ∙ h

-- The name of an owner's Job does not depend on the random suffix.
job_name-random :
    (d : Digests) (random : Text) (tags : Tags) (verb : Verb) (op_json : Text)
    → is_empty tags.owner ≡ false
    → job_name (record d { random = random }) tags verb op_json ≡ job_name d tags verb op_json
unfolding job_name
job_name-random d random tags verb op_json o = rw o refl

module _ (r : JobRunner) (d : Digests) (m : Decoding) (tags : Tags) where
  after_marshal-adopts :
      (a a' : Answers) (random : Text) (verb : Verb) (t : Try Text) (c c'' : Cluster)
      → is_empty tags.owner ≡ false
      → teardown_verb verb ≡ false
      → IsUnfinished (after_marshal r d m a tags verb t c).0
      → IsKept (after_marshal r d m a tags verb t c).1 c''
      → (after_marshal r (record d { random = random }) m a' tags verb t c'').1.started
        ≡ c''.started
  after_marshal-adopts a a' random verb (err e) c c'' o td u k = absurd u
  after_marshal-adopts a a' random verb (ok op_json) c c'' o td u k =
      let namespace = job_namespace r tags in
      let name = job_name d tags verb op_json in
      let d' : Digests = record d { random = random } in
      let first = ensure_job r d m a tags namespace name verb op_json c in
      let stands = k namespace name (
        after_ensure-unfinished r d m a tags namespace name verb first
          (ensure_job-Stands r d m a tags namespace name verb op_json c td) u) in
      let same : job_name d' tags verb op_json ≡ name =
        job_name-random d random tags verb op_json o in
      after_ensure-started r d' m a' tags (job_name d' tags verb op_json) verb
        (ensure_job r d' m a' tags namespace (job_name d' tags verb op_json) verb op_json c'')
      ∙ ensure_job-started r d' m a' tags namespace (job_name d' tags verb op_json) verb op_json c''
          td (ap (λ n. has_job namespace n c''.jobs) same ∙ stands)

-- An operation that does not tear down, of a context with an owner: when an attempt ends without its
-- outcome (the wait was cut off, or the logs could not be read), a later attempt of
-- the same operation starts no Job at all, whatever the API server answers then, as long as no Job
-- was removed in between: it waits for the Job of the first.
pub execute_op-adopts :
    (r : JobRunner) (d : Digests) (m : Decoding) (tags : Tags) (marshal : Op → Try Text) (op : Op)
    (a a' : Answers) (random : Text) (c c'' : Cluster)
    → is_empty tags.owner ≡ false
    → teardown_verb op.verb ≡ false
    → IsUnfinished (execute_op r d m a tags marshal op c).0
    → IsKept (execute_op r d m a tags marshal op c).1 c''
    → (execute_op r (record d { random = random }) m a' tags marshal op c'').1.started ≡ c''.started
unfolding execute_op
execute_op-adopts r d m tags marshal op a a' random c c'' o td u k =
    after_marshal-adopts r d m tags a a' random op.verb
      (marshal (with_inputs tags op tags.secret_inputs)) c c'' o td u k
