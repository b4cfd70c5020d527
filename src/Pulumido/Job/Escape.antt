-- ===== src/Pulumido/Job/Escape.antt =====
-- internal/pulumido/job.go: how ensureJob gets a teardown out of a namespace that is terminating.
use doplane.Common.{
  ◌≡◌, refl, Text, text_eq, text_eq_refl, Bool, true, false, Bool-cases, none, some, inl, inr, not,
}
use doplane.Runnerops.Path.{is_empty}
use doplane.Runnerops.Spec.{Verb}
use doplane.Pulumido.Job.{JobRunner, Tags, Job, Digests, build_job, teardown_verb}
use doplane.Pulumido.Job.Wait.{Decoding}
use doplane.Pulumido.Job.Run.{
  Cluster, Answers, namespace_terminating, Ensured, lives_in, has_job, create_job, cache_available,
  job_in, after_creation, ensure_job, fell_back,
}

module _ (r : JobRunner) (d : Digests) (m : Decoding) (a : Answers) (tags : Tags) where
  -- The Job is in that namespace, under that name.
  abbrev StandsIn : Text → Text → Ensured × Cluster → Type 0
  StandsIn namespace name e = (e.0 ≡ lives_in namespace) × (has_job namespace name e.1.jobs ≡ true)

  fell_back-StandsIn :
      (name : Text) (job : Job) (c : Cluster)
      → job.namespace ≡ r.namespace
      → job.name ≡ name
      → a.refusal job ≡ none
      → StandsIn r.namespace name (fell_back r d m a tags (create_job r d m a tags job c))
  unfolding create_job has_job
  fell_back-StandsIn name job c n e free =
      rw (free, n, e)
        (elim (Bool-cases (has_job r.namespace name c.jobs)) [
          | inl h ↦ rw h (refl, h)
          | inr h ↦ rw h (refl, rw (text_eq_refl r.namespace, text_eq_refl name) refl)
        ])

  after_creation-escapes :
      (namespace name : Text) (verb : Verb) (op_json e : Text) (b : Bool) (c : Cluster)
      → teardown_verb verb ≡ true
      → text_eq namespace r.namespace ≡ false
      → ((job : Job) → job.namespace ≡ namespace → a.refusal job ≡ some (namespace_terminating e))
      → ((job : Job) → job.namespace ≡ r.namespace → a.refusal job ≡ none)
      → StandsIn r.namespace name (
          after_creation r d m a tags namespace name verb op_json
            (create_job r d m a tags (job_in r d m a tags namespace name verb op_json b) c))
  unfolding create_job build_job
  after_creation-escapes namespace name verb op_json e b c td other closed free =
      rw (closed (job_in r d m a tags namespace name verb op_json b) refl, other, td)
        (fell_back-StandsIn name
          (job_in r d m a tags r.namespace name verb op_json (not (is_empty r.plugin_cache_pvc))) c
          refl refl
          (free
            (job_in r d m a tags r.namespace name verb op_json (not (is_empty r.plugin_cache_pvc)))
            refl))

-- When the namespace of a resource is terminating, so that every new Job in it is refused for that, and
-- the operator's namespace takes new Jobs, a teardown gets its Job in the operator's namespace, newly
-- made or left by an earlier attempt.
pub ensure_job-escapes :
    (r : JobRunner) (d : Digests) (m : Decoding) (a : Answers) (tags : Tags) (namespace name : Text)
    (verb : Verb) (op_json e : Text) (c : Cluster)
    → teardown_verb verb ≡ true
    → text_eq namespace r.namespace ≡ false
    → ((job : Job) → job.namespace ≡ namespace → a.refusal job ≡ some (namespace_terminating e))
    → ((job : Job) → job.namespace ≡ r.namespace → a.refusal job ≡ none)
    → ((ensure_job r d m a tags namespace name verb op_json c).0 ≡ lives_in r.namespace)
      × (has_job r.namespace name (ensure_job r d m a tags namespace name verb op_json c).1.jobs
          ≡ true)
unfolding ensure_job
ensure_job-escapes r d m a tags namespace name verb op_json e c td other closed free =
    after_creation-escapes r d m a tags namespace name verb op_json e
      (cache_available r d m a tags namespace c).0 (cache_available r d m a tags namespace c).1 td
      other closed free
