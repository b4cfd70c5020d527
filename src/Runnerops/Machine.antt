-- ===== src/Runnerops/Machine.antt =====
-- What Execute (internal/runnerops/execute.go) calls and the repository does not hold, or holds
-- elsewhere: processes, files, the registry and JSON. Each answer may depend on all actions before.
use doplane.Common.{ℕ, Text, Option, List, ◌∷◌}
use doplane.Json.{Json, Fields}
use doplane.Runnerops.Path.Access.{AccessError}
use doplane.Runnerops.Spec.{Code, Result}
use doplane.Runnerops.Packages.{RegistryPackage}

-- The directory that a command runs in, or that a file stands in.
pub data Place : Type 0 where
  root project : Place

pub data Action : Type 0 where
  make_workspace : Action
  ensure_plugin : Text → Text → Action
  prepare : Option Text → Action
  write_file : Place → Text → Text → Action
  run : Place → List Text → Action
  read_file : Text → Action
  resolve : Text → Action
  fetch_schema : RegistryPackage → Action

-- The actions so far, the last one first.
abbrev pub Trace : Type 0
Trace = List Action

-- A value, or the text of an error.
pub data Try {ℓ} (A : Type ℓ) : Type ℓ where
  ok : A → Try A
  err : Text → Try A

-- What a process leaves: its two outputs, and the error of `cmd.Run`.
pub record Process : Type 0 where
  pub stdout : Text
  pub stderr : Text
  pub failed : Option Text

-- One resource of a decoded checkpoint.
pub record CheckpointResource : Type 0 where
  pub urn : Text
  pub token : Text
  pub outputs : Option Fields

-- A decoded provider schema, each resource as its JSON text.
pub record FullSchema : Type 0 where
  pub name : Text
  pub version : Text
  pub resources : List (Text × Text)

-- The runner's configuration and its surroundings.
pub record Machine : Type 0 where
  -- `r.PluginCache`
  pub plugin_cache : Text
  -- `r.lookupEnv()`
  pub lookup_env : Text → Option Text
  -- `os.MkdirTemp`: the workspace's path.
  pub make_workspace : Trace → Try Text
  -- `ensurePlugin`: the code and the text of its error.
  pub ensure_plugin : Trace → Text → Text → Option (Code × Text)
  pub prepare : Trace → Text → Option Text → Option Text
  pub write_file : Trace → Place → Text → Text → Option Text
  pub process : Trace → Place → List Text → Process
  pub read_file : Trace → Text → Try Text
  -- The registry client (registry.go).
  pub new_client : Option Text
  pub resolve : Trace → Text → Try RegistryPackage
  pub fetch_schema : Trace → RegistryPackage → Try Text
  -- `json.Marshal`
  pub marshal : Json → Try Text
  -- `json.Decoder.Decode` into a map: the object at the text's start, and how many bytes it takes.
  pub decode_object : Text → Option (Fields × ℕ)
  -- `json.Unmarshal` of a checkpoint and of a schema.
  pub decode_checkpoint : Text → Try (List CheckpointResource)
  pub decode_schema : Text → Try FullSchema
  -- `json.Marshal` of the trimmed schema.
  pub encode_schema : FullSchema → Try Text
  -- `%q`
  pub quote : Text → Text
  -- The text of an error of `SetPath`.
  pub access_error_text : AccessError → Text

-- A part of an operation: it goes on with a value, or the operation ends with a result.
pub data Outcome {ℓ} (A : Type ℓ) : Type ℓ where
  go_on : A → Outcome A
  stop : Result → Outcome A

abbrev pub M : Type 0 → Type 0
M A = Trace → Outcome A × Trace

unfoldable pub and_then : {A B : Type 0} → (A → M B) → Outcome A × Trace → Outcome B × Trace
and_then k (go_on a, t) = k a t
and_then k (stop res, t) = (stop res, t)

infixl 5 ◌>>=◌ ◌>>◌
abbrev pub ◌>>=◌ : {A B : Type 0} → M A → (A → M B) → M B
◌>>=◌ m k t = and_then k (m t)

abbrev pub ◌>>◌ : {B : Type 0} → M (Unit {0}) → M B → M B
m >> k = m >>= λ _. k

abbrev pub return : {A : Type 0} → A → M A
return a t = (go_on a, t)

-- The operation ends here.
abbrev pub exit : {A : Type 0} → Result → M A
exit res t = (stop res, t)

-- An action is made, and answered from the actions before it.
abbrev pub act : {A : Type 0} → Action → (Trace → A) → M A
act a answer t = (go_on (answer t), a ∷ t)

-- An answer that is an error ends the operation by `fail`.
unfoldable pub or_exit : {A : Type 0} → (Text → Result) → Try A → M A
or_exit fail (ok a) = return a
or_exit fail (err e) = exit (fail e)

unfoldable pub unless_failed : (Text → Result) → Option Text → M (Unit {0})
unless_failed fail (Option.none) = return tt
unless_failed fail (Option.some e) = exit (fail e)
