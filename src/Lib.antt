-- ===== src/Lib.antt =====
-- doplane, a Kubernetes operator that drives cloud resources through `pulumi do`.
--
-- Json.antt holds the decoded JSON documents that every part passes around.
-- Common.antt and its children hold what the parts share: Boolean tests, texts as lists of bytes,
-- decimal printing, and predicates on lists.
--
-- Runnerops.antt is internal/runnerops. Runnerops/Path.antt is path.go: parsePath, parseBracket and
-- AppendKeySegment, and the "%s[%d]" step of internal/controller/composite_render.go. A path is read
-- as the text that is left from the source's position on, and an error is its kind, without the
-- quoted text. The loop of parsePath has a round for each byte and one for the end. strconv.Atoi is
-- written out for a 64-bit int. Runnerops/Path/Access.antt is SetPath, DeletePath and GetPath: the
-- source walks the document in a loop and writes in place, and here each round returns the node with
-- the write in it, so what a failed SetPath has written stays written.
--
-- Runnerops/Spec.antt is spec.go. Runnerops/Secrets.antt and its children are secretinput.go: the
-- redaction, the guard of a result's id, applySecretInputs, and redactingWriter as the text that it
-- has passed on. Redaction tests a text with strings.ReplaceAll, written out in Common/Search.antt;
-- the loop of Write has a round for each byte of the buffer, which holds at most that many lines. The
-- environment is an argument.
-- Runnerops/Packages.antt is ClassifyPackageRef, ParsePluginRef, PackageForToken and gitSource
-- (registry.go, plugincache.go, shared.go), with the pattern of registry references written out, and
-- Runnerops/Failures.antt is Truncate, ProviderErrorText and classifyDoFailure (shared.go, execute.go);
-- case and blanks are those of ASCII.
-- Runnerops/Machine.antt holds what Execute calls: processes, files, the registry client and JSON are
-- functions of the actions so far, and an operation is a state monad over those actions that may end
-- with a result. Runnerops/Commands.antt is runIn, runEnv and the loops over steps, Runnerops/Output.antt
-- LastJSONObject and the end of executeDo, Runnerops/Stateless.antt executeDo, Runnerops/Fallback.antt
-- deletefallback.go, Runnerops/Engine.antt executeEngine with engineResultFromCheckpoint, and
-- Runnerops/Execute.antt executeSchema and Execute, all of execute.go but for the fallback. The removal
-- of the workspace and the progress output, which Runnerops/Secrets/Stream.antt redacts, are left out;
-- prepare (env.go) and ensurePlugin are answers of the machine there.
-- Runnerops/PluginCache.antt is ensurePlugin (plugincache.go) as a step relation on the cache volume: a
-- step is one access by one of any number of runners, a runner that dies takes no further step, and
-- whether the plugin's directory is complete is one Boolean.
-- Pulumido/Runner.antt is internal/pulumido/runner.go as far as it names and tests errors.
--
-- Controller/Resource.antt is api/v1alpha1/doresource_types.go: the DoResource with what the
-- controller uses of it; a raw JSON field is what the decoder makes of it. Controller/World.antt is
-- what a reconcile calls: the runner's interface, the API server and the libraries are functions of
-- the calls made so far, so that an answer may depend on anything that happened before. A reconcile
-- is a function of a session, the object in hand with the calls so far, to the outcome (a result and
-- an error) with the session after it. Logging, texts of events and conditions, and contexts are left
-- out, and so is the retry of a conflicting write: a write either lands or
-- fails for good, and one to an object that is gone counts as landed.
-- Controller/Sync.antt is markSynced, markSyncFailed and their helpers (doresource_controller.go and
-- annotations.go), Controller/Create.antt reconcileCreate and adoptExternal (annotations.go),
-- Controller/Replacement.antt replacement.go, Controller/DeleteState.antt delete_state.go,
-- Controller/Settled.antt the last switch of Reconcile and reconcileComponent, and
-- Controller/Deletion.antt reconcileDelete, all under internal/controller. The inputs of Settled are
-- the resolved properties, their hash and whether the schema calls the type a component.
-- Controller/Calls.antt measures what a reconcile called, and Controller/Branches.antt carries a
-- predicate through the branches of Reconcile; the other children prove properties.
--
-- Controller/Graph.antt, Controller/Teardown.antt and Controller/References.antt are references.go: the
-- searches of the reference graph, blockingDependents with the DoUsages, and applyReferences. The
-- cached objects of a namespace are a list; a source is read by a parameter, as are the schema of its
-- outputs and json.Marshal. The searches of the source are bounded, by 64 visited names and by a path
-- of 33, and the recursions here count the same bounds down.
--
-- Controller/Composite.antt and its children are composite_render.go: Expressions renderString with the
-- matches of exprRe and parseResourceExpr, Values renderValue and renderExternalName, Names
-- childResourceName and compositeLabelValue, Children renderChild and renderComposite. A match is found
-- by one pass over the bytes; a `${` outside the matches is two bytes of them in a row, which is what
-- checkUnterminated looks for. The rendered properties stay a document, since json.Marshal of a decoded
-- document does not fail. The rules of Kubernetes for names, SHA-256 and the validation of parameters
-- against a schema (composite_params.go) are parameters.
--
-- Pulumido/Job.antt and its children are job.go: Job the names and the objects that buildJob makes, Wait
-- the polling, the logs and the envelope, Run cacheAvailable, ensureJob and executeOp. They act on a
-- Cluster, which holds the Jobs, all that were ever started, and the remembered claims; what the API
-- server and the clock answer are parameters, a wait is the list of its polls, and podLogs has the five
-- rounds of its loop. Pulumido/Inputs.antt is the plan of the secret inputs. Pulumido/Methods.antt is the
-- Runner interface, whose methods job.go and exec.go write alike, over a way to execute an operation:
-- Methods/Jobs gives executeOp of the first, Methods/Exec execute of the second, which calls Execute.
--
-- Controller/Composite/Outputs.antt is composite_outputs.go: the same expressions, resolved against the
-- children as they were read. A map with no entry stands for the nil that is given where no output is
-- resolved.
--
-- Controller/Revision.antt is composite_revision.go, on the list of the cluster's revisions, with what the
-- cache and the API server answer as parameters; numbers of revisions stay below the end of int64.
--
-- Controller/Watch.antt is mapGraphNeighbors of doresource_controller.go.
--
-- Controller/Provider.antt is provider_resolution.go, with the credentials Secret and the package, which
-- the source puts on the context, as arguments of what follows.
--
-- Controller/Reconcile.antt is Reconcile as a whole, with stageSecretInputs of secret_inputs.go. Its
-- Surroundings are what it reads: the profiles, the sources, the schema's verdict, the hash of the
-- inputs and the lists that blockingDependents reads. The first Get of the object is the session it starts from.
--
-- Not modelled: the schema validation and the hash themselves, the reconcilers of composites, definitions and providers, the generated CRDs, the registry's HTTP client, the seeding of a workspace; of the runners, the text of a context's error. The files under api/, cmd/ and test/ hold declarations, wiring and end-to-end tests.
pub mod Common
pub mod Controller
pub mod Json
pub mod Pulumido
pub mod Runnerops
