-- ===== src/Runnerops/Execute/Deletion.antt =====
-- When a deletion turns to the engine (execute.go, deletefallback.go).
use doplane.Common.{
  ◌≡◌, refl, sym, ◌≢◌, ◌⊎◌, Text, bytes, Bool, true, false, Option, none, some, List, [], ◌∷◌, ◌&&◌,
  All, Any, Bool-cases, inl, inr, if◌then◌else◌,
}
use mathlib.Core.Path.{subst}
use doplane.Json.{Fields, end, field}
use doplane.Runnerops.Spec.{delete, takes_secret_inputs, Op, Result, failure}
use doplane.Runnerops.Secrets.Inputs.{values_of, apply_inputs, apply_secret_inputs}
use doplane.Runnerops.Failures.{code_of_failure}
use doplane.Runnerops.Machine.{
  root, project, Action, make_workspace, ensure_plugin, prepare, run, write_file, read_file,
  resolve, fetch_schema, Trace, Machine, return, M, and_then, ◌>>=◌,
}
use doplane.Runnerops.Commands.{outcome_of, run_in}
use doplane.Runnerops.Output.{is_delete}
use doplane.Runnerops.Stateless.{do_args, write_inputs, fall_back, after_do, execute_do}
use doplane.Runnerops.Fallback.{delete_fallback_applies}
use doplane.Runnerops.Execute.{dispatch, perform, set_up, execute}
use doplane.Runnerops.Execute.Rules.{
  NotCommand, Keeps, bind-Keeps, or_exit-Keeps, unless_failed-Keeps, set_up-Quiet,
}
use doplane.Runnerops.Execute.Verbs.{own_inputs_none}

-- A command in the project directory, where the engine's commands run.
abbrev pub IsEngineCommand : Action → Type 0
IsEngineCommand (run project args) = Unit
IsEngineCommand action = ⊥

abbrev NotEngine : Action → Type 0
NotEngine (run project args) = ⊥
NotEngine action = Unit

NotCommand-NotEngine : (a : Action) → NotCommand a → NotEngine a
NotCommand-NotEngine (run place args) n = absurd n
NotCommand-NotEngine make_workspace n = tt
NotCommand-NotEngine (ensure_plugin name version) n = tt
NotCommand-NotEngine (prepare plugins) n = tt
NotCommand-NotEngine (write_file place name content) n = tt
NotCommand-NotEngine (read_file path) n = tt
NotCommand-NotEngine (resolve path) n = tt
NotCommand-NotEngine (fetch_schema pkg) n = tt

apart : (a : Action) → NotEngine a → IsEngineCommand a → ⊥
apart (run project args) n c = n
apart (run root args) n c = c
apart make_workspace n c = c
apart (ensure_plugin name version) n c = c
apart (prepare plugins) n c = c
apart (write_file place name content) n c = c
apart (read_file path) n c = c
apart (resolve path) n c = c
apart (fetch_schema pkg) n c = c

no_engine : (t : Trace) → All NotEngine t → Any IsEngineCommand t → ⊥
no_engine [] q c = absurd c
no_engine (a ∷ t) q (inl c) = apart a q.0 c
no_engine (a ∷ t) q (inr c) = no_engine t q.1 c

All-NotEngine : (t : Trace) → All NotCommand t → All NotEngine t
All-NotEngine [] q = tt
All-NotEngine (a ∷ t) q = (NotCommand-NotEngine a q.0, All-NotEngine t q.1)

-- The stateless deletion has failed in a way that the fallback is for, and a state is recorded.
pub record NeedsEngine (m : Machine) (op : Op) : Type 0 where
  pub before : Trace
  pub input : List Text
  pub stdout : Text
  pub error : Text
  pub state : Fields
  pub has_failed : outcome_of (m.process before root (do_args op input)) ≡ (stdout, some error)
  pub applies : delete_fallback_applies (failure (code_of_failure error stdout) error) ≡ true
  pub is_recorded : op.state ≡ some state
  pub not_empty : state ≢ end

&&_right : (a b : Bool) → (a && b) ≡ true → b ≡ true
&&_right true b h = h
&&_right false b h = cc

module _ (m : Machine) (op : Op) where
  abbrev Justified : Trace → Type 0
  Justified t = All NotEngine t ⊎ NeedsEngine m op

  quietly : (a : Action) (t : Trace) → NotEngine a → Justified t → Justified (a ∷ t)
  quietly a t n (inl q) = inl (n, q)
  quietly a t n (inr w) = inr w

  write_inputs-Justified : (ws : Text) (o : Option Fields) → Keeps Justified (write_inputs m ws o)
  write_inputs-Justified ws none t j = j
  write_inputs-Justified ws (some end) t j = j
  write_inputs-Justified ws (some (field k v fs)) t j =
      bind-Keeps Justified _ _ (or_exit-Keeps Justified _ _ t j) (λ doc t1 j1.
        bind-Keeps Justified _ _
          (bind-Keeps Justified _ _ (quietly (write_file root (bytes "input.yaml") doc) t1 tt j1)
            (λ failed t2 j2. unless_failed-Keeps Justified _ failed t2 j2))
          (λ u t2 j2. j2))

  if_needed :
      (b : Bool) (x : M Result) (res : Result) (t : Trace)
      → (b ≡ true → NeedsEngine m op)
      → Justified t
      → Justified ((if b then x else return res) t).1
  if_needed true x res t w j = inr (w refl)
  if_needed false x res t w j = j

  fall_back-Justified :
      (ws stdout error : Text) (before : Trace) (input : List Text) (o : Option Fields)
      → outcome_of (m.process before root (do_args op input)) ≡ (stdout, some error)
      → op.state ≡ o
      → Keeps Justified (fall_back m ws op (failure (code_of_failure error stdout) error) o)
  fall_back-Justified ws stdout error before input none f e t j = j
  fall_back-Justified ws stdout error before input (some end) f e t j = j
  fall_back-Justified ws stdout error before input (some (field k v fs)) f e t j =
      if_needed (is_delete op.verb && delete_fallback_applies _) _ _ t
        (λ b. record {
          before = before;
          input = input;
          stdout = stdout;
          error = error;
          state = field k v fs;
          has_failed = f;
          applies = &&_right (is_delete op.verb) _ b;
          is_recorded = e;
          not_empty = λ z. cc z;
        })
        j

  after_do-Justified :
      (ws : Text) (before : Trace) (input : List Text) (r : Text × Option Text)
      → outcome_of (m.process before root (do_args op input)) ≡ r
      → Keeps Justified (after_do m ws op r)
  after_do-Justified ws before input (stdout, some error) f t j =
      fall_back-Justified ws stdout error before input op.state f refl t j
  after_do-Justified ws before input (stdout, none) f t j = elim (Bool-cases (is_delete op.verb)) [
    | inl e ↦ rw e j
    | inr e ↦ rw e j
  ]

  run_do-Justified :
      (ws : Text) (input : List Text)
      → Keeps Justified (run_in m root (do_args op input) >>= λ r. after_do m ws op r)
  unfolding and_then
  run_do-Justified ws input t j =
      after_do-Justified ws t input (outcome_of (m.process t root (do_args op input))) refl
        (run root (do_args op input) ∷ t) (quietly (run root (do_args op input)) t tt j)

  execute_do-Justified : (ws : Text) → Keeps Justified (execute_do m ws op)
  unfolding execute_do
  execute_do-Justified ws t j =
      bind-Keeps Justified _ _ (write_inputs-Justified ws op.properties t j)
        (λ input t1 j1. run_do-Justified ws input t1 j1)

  perform-Justified :
      (ws : Text) → op.verb ≡ delete → Keeps Justified (perform m ws (op, values_of []))
  perform-Justified ws c t j =
      subst (λ v. Justified (dispatch m ws op v t).1) (sym c) (execute_do-Justified ws t j)

takes_none : (op : Op) → op.verb ≡ delete → takes_secret_inputs op.verb ≡ false
unfolding takes_secret_inputs
takes_none op c = rw c refl

execute-Justified :
    (m : Machine) (op : Op)
    → op.verb ≡ delete
    → Justified m (record op { secret_inputs = [] }) (execute m op).1
unfolding execute apply_secret_inputs apply_inputs
execute-Justified m op c =
    let bare = record op { secret_inputs = [] } in
    subst
      (λ o.
        Justified m bare
          (and_then (λ ws. perform m ws (apply_secret_inputs m.lookup_env o)) (set_up m op [])).1)
      (sym (own_inputs_none op (takes_none op c)))
      (bind-Keeps (Justified m bare) _ _ (inl (All-NotEngine _ (set_up-Quiet m op)))
        (λ ws t j. perform-Justified m bare ws c t j))

with_inputs :
    (m : Machine) (op : Op) → NeedsEngine m (record op { secret_inputs = [] }) → NeedsEngine m op
unfolding do_args
with_inputs m op w = record {
  before = w.before;
  input = w.input;
  stdout = w.stdout;
  error = w.error;
  state = w.state;
  has_failed = w.has_failed;
  applies = w.applies;
  is_recorded = w.is_recorded;
  not_empty = w.not_empty;
}

engine_reason :
    (m : Machine) (op : Op) (t : Trace)
    → Justified m op t
    → Any IsEngineCommand t
    → NeedsEngine m op
engine_reason m op t (inl q) e = absurd (no_engine t q e)
engine_reason m op t (inr w) e = w

-- A deletion runs a command of the engine only after the stateless deletion has failed with an
-- error for which the fallback is (the provider cannot read the resource, or an error line of an
-- unclassified failure speaks of an import), and only where a state is recorded.
pub execute-NeedsEngine :
    (m : Machine) (op : Op)
    → op.verb ≡ delete
    → Any IsEngineCommand (execute m op).1
    → NeedsEngine m op
execute-NeedsEngine m op c e = with_inputs m op (engine_reason m _ _ (execute-Justified m op c) e)
