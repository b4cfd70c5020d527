-- ===== src/Pulumido/Job.antt =====
-- internal/pulumido/job.go: the runner's configuration, what an operation's context carries, and the
-- Job that buildJob makes. Text that Kubernetes parses (quantities, policies) stays text.
pub mod Wait
pub mod Run
pub mod Adoption
pub mod Escape
mod Tests
use doplane.Common.{
  ℕ, zero, suc, ◌*◌, ◌/◌, Text, bytes, text_eq, Bool, true, false, Option, none, some, List, [],
  ◌∷◌, ◌++◌, ◌||◌, ◌&&◌, not, if◌then◌else◌,
}
use doplane.Runnerops.Path.{is_empty}
use doplane.Runnerops.Spec.{
  Verb, create, patch, read, delete, schema, engine_up, engine_destroy, unknown,
  takes_secret_inputs,
}
use doplane.Runnerops.Output.{verb_text}
use doplane.Runnerops.Failures.{take}
use doplane.Pulumido.Inputs.{SecretInput, ordered_inputs, secret_env_name}

-- `JobRunner`, its timeout in nanoseconds, where 0 stands for every value that is not positive.
pub record JobRunner : Type 0 where
  pub namespace : Text
  pub per_resource_namespace : Bool
  pub image : Text
  pub image_pull_policy : Text
  pub credentials_secret : Text
  pub plugin_cache_pvc : Text
  pub plugin_cache_mount_path : Text
  pub timeout : ℕ

-- The values that the context is tagged with; an empty text where there is none.
pub record Tags : Type 0 where
  pub owner : Text
  pub credentials : Text
  pub namespace : Text
  pub secret_version_salt : Text
  pub secret_inputs : List SecretInput

abbrev pub is_schema : Verb → Bool
is_schema schema = true
is_schema verb = false

-- `jobTTLSeconds`
abbrev pub job_ttl_seconds : Verb → ℕ
job_ttl_seconds read = 600
job_ttl_seconds schema = 600
job_ttl_seconds verb = 86400

abbrev pub nanoseconds : ℕ
nanoseconds = 1000000000

-- `timeout`
abbrev pub timeout_of : ℕ → ℕ
timeout_of zero = 600 * nanoseconds
timeout_of (suc n) = suc n

-- `teardownVerb`
abbrev pub teardown_verb : Verb → Bool
teardown_verb delete = true
teardown_verb engine_destroy = true
teardown_verb verb = false

-- `jobNamespace`
abbrev pub job_namespace : JobRunner → Tags → Text
job_namespace r tags =
    if r.per_resource_namespace && not (is_empty tags.namespace)
    then tags.namespace
    else r.namespace

-- The digest of crypto/sha256 in hexadecimal, and `rand.String(8)`.
pub record Digests : Type 0 where
  pub sha256_hex : Text → Text
  pub random : Text

-- What is hashed behind the owner and the document.
abbrev pub salt_of : Tags → Verb → Text
salt_of tags verb =
    if not (is_empty tags.secret_version_salt) && takes_secret_inputs verb
    then 0 ∷ tags.secret_version_salt
    else []

abbrev pub named_job : Verb → Text → Text
named_job verb suffix = bytes "do-" ++ (verb_text verb ++ b'-' ∷ suffix)

-- `jobName`
unfoldable pub job_name : Digests → Tags → Verb → Text → Text
job_name d tags verb op_json =
    if is_empty tags.owner && not (is_schema verb)
    then named_job verb d.random
    else named_job verb (take 16 (d.sha256_hex (tags.owner ++ 0 ∷ (op_json ++ salt_of tags verb))))

-- `EnvVar`: a value, or the key of a Secret that may be missing.
pub data EnvVar : Type 0 where
  env_value : Text → Text → EnvVar
  secret_key_ref : Text → Text → Text → EnvVar

pub data Volume : Type 0 where
  empty_dir : Text → Volume
  claim : Text → Text → Volume

pub record SecurityContext : Type 0 where
  pub run_as_non_root : Bool
  pub run_as_user : ℕ
  pub run_as_group : ℕ
  pub fs_group : Option ℕ
  pub seccomp_profile : Text
  pub allow_privilege_escalation : Bool
  pub read_only_root_filesystem : Bool
  pub dropped_capabilities : List Text

-- The pod and its one container, in the Job.
pub record Job : Type 0 where
  pub name : Text
  pub namespace : Text
  pub labels : List (Text × Text)
  pub backoff_limit : ℕ
  pub ttl_seconds : ℕ
  pub active_deadline_seconds : ℕ
  pub pod_labels : List (Text × Text)
  pub restart_policy : Text
  pub automount_token : Bool
  pub security : SecurityContext
  pub image : Text
  pub image_pull_policy : Text
  pub command : List Text
  pub env : List EnvVar
  pub env_from : List Text
  pub mounts : List (Text × Text)
  pub requests : List (Text × Text)
  pub limits : List (Text × Text)
  pub volumes : List Volume

abbrev pub managed_by : List (Text × Text)
managed_by = (bytes "app.kubernetes.io/managed-by", bytes "doplane") ∷ []

-- The variables of the secret inputs, in the order of the paths.
unfoldable pub secret_env_from : ℕ → List (Text × SecretInput) → List EnvVar
secret_env_from i [] = []
secret_env_from i ((path, input) ∷ inputs) =
    secret_key_ref (secret_env_name i) input.secret_name input.secret_key
    ∷ secret_env_from (suc i) inputs

-- `secretEnv`
abbrev pub secret_env_of : Tags → Verb → List EnvVar
secret_env_of tags verb =
    if takes_secret_inputs verb then secret_env_from 0 (ordered_inputs tags.secret_inputs) else []

abbrev pub when {ℓ} : {A : Type ℓ} → Bool → A → List A
when b x = if b then x ∷ [] else []

-- `buildJob`
unfoldable pub build_job : JobRunner → Text → Text → Text → Verb → Text → List EnvVar → Bool → Job
build_job r name namespace credentials verb op_json secret_env mount_cache = record {
  name = name;
  namespace = namespace;
  labels = managed_by ++ (bytes "do.pulumi.com/verb", verb_text verb) ∷ [];
  backoff_limit = 0;
  ttl_seconds = job_ttl_seconds verb;
  active_deadline_seconds = timeout_of r.timeout / nanoseconds;
  pod_labels = managed_by;
  restart_policy = bytes "Never";
  automount_token = false;
  security = record {
    run_as_non_root = true;
    run_as_user = 65532;
    run_as_group = 65532;
    fs_group = if mount_cache then some 65532 else none;
    seccomp_profile = bytes "RuntimeDefault";
    allow_privilege_escalation = false;
    read_only_root_filesystem = true;
    dropped_capabilities = bytes "ALL" ∷ [];
  };
  image = r.image;
  image_pull_policy = r.image_pull_policy;
  command = bytes "/doplane-runner" ∷ [];
  env =
      env_value (bytes "DOPLANE_OP") op_json
      ∷ env_value (bytes "DOPLANE_BAKED_PLUGINS") (bytes "/opt/pulumi-home/plugins")
      ∷ env_value (bytes "PULUMI_SKIP_UPDATE_CHECK") (bytes "true")
      ∷ (secret_env
          ++ when mount_cache (env_value (bytes "DOPLANE_PLUGIN_CACHE") r.plugin_cache_mount_path));
  env_from = when (not (is_empty credentials)) credentials;
  mounts =
      (bytes "tmp", bytes "/tmp")
      ∷ when mount_cache (bytes "plugin-cache", r.plugin_cache_mount_path);
  requests = (bytes "cpu", bytes "100m") ∷ (bytes "memory", bytes "256Mi") ∷ [];
  limits = (bytes "memory", bytes "2Gi") ∷ [];
  volumes =
      empty_dir (bytes "tmp") ∷ when mount_cache (claim (bytes "plugin-cache") r.plugin_cache_pvc);
}
