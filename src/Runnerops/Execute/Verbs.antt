-- ===== src/Runnerops/Execute/Verbs.antt =====
-- Which verbs take secret inputs, and when a deletion turns to the engine (execute.go).
use doplane.Common.{◌≡◌, refl, Text, true, false, List, [], All, Bool-cases, inl, inr}
use doplane.Runnerops.Spec.{
  Verb, engine_up, engine_destroy, unknown, takes_secret_inputs, Op, Result,
}
use doplane.Runnerops.Machine.{Trace, Machine, Outcome, go_on, stop, return, M, and_then}
use doplane.Runnerops.Execute.{
  own_inputs, secrets_unsupported, has_inputs, is_engine, result_of, refuse_secrets, set_up,
  execute,
}
use doplane.Runnerops.Execute.Results.{set_up-Post}
use doplane.Runnerops.Execute.Rules.{Post, NotCommand, set_up-Quiet}

not_engine : (v : Verb) → takes_secret_inputs v ≡ false → is_engine v ≡ false
unfolding takes_secret_inputs
not_engine engine_up h = h
not_engine engine_destroy h = h
not_engine (unknown s) h = refl
not_engine verb h = refl

refuse_secrets_none :
    (op : Op) → takes_secret_inputs op.verb ≡ false → refuse_secrets op ≡ return tt
unfolding refuse_secrets
refuse_secrets_none op h = elim (Bool-cases (has_inputs op.secret_inputs)) [
  | inl e ↦ rw (e, not_engine op.verb h) refl
  | inr e ↦ rw e refl
]

pub own_inputs_none :
    (op : Op)
    → takes_secret_inputs op.verb ≡ false
    → own_inputs op ≡ record op { secret_inputs = [] }
own_inputs_none op h = rw h refl

set_up_ignores_inputs :
    (m : Machine) (op : Op) (inputs : List (Text × Text))
    → takes_secret_inputs op.verb ≡ false
    → set_up m (record op { secret_inputs = inputs }) ≡ set_up m op
unfolding set_up
set_up_ignores_inputs m op inputs h =
    rw (refuse_secrets_none (record op { secret_inputs = inputs }) h, refuse_secrets_none op h) refl

-- A verb that takes no secret inputs runs the same way whatever secret inputs the operation names:
-- a missing Secret does not keep a resource from being read or deleted.
pub execute_ignores_inputs :
    (m : Machine) (op : Op) (inputs : List (Text × Text))
    → takes_secret_inputs op.verb ≡ false
    → execute m (record op { secret_inputs = inputs }) ≡ execute m op
unfolding execute
execute_ignores_inputs m op inputs h =
    rw
      (
        set_up_ignores_inputs m op inputs h,
        own_inputs_none op h,
        own_inputs_none (record op { secret_inputs = inputs }) h,
      )
      refl

module _ (m : Machine) (op : Op) (e : is_engine op.verb ≡ true)
    (h : has_inputs op.secret_inputs ≡ true) where
  refuse_secrets_there : (t : Trace) → refuse_secrets op t ≡ (stop secrets_unsupported, t)
  unfolding refuse_secrets
  refuse_secrets_there t = rw (h, e) refl

  -- Set-up ends the operation.
  set_up_stops : Post (λ ws t. ⊥) (λ res t. res.is_ok ≡ false) (set_up m op [])
  unfolding and_then
  set_up_stops =
      set_up-Post (λ res. res.is_ok ≡ false) (λ c message. refl) m op (λ ws t. ⊥)
        (λ ws t. rw (refuse_secrets_there t) refl)

  after_set_up :
      (k : Text → M Result) (x : Outcome Text × Trace)
      → Post (λ ws t. ⊥) (λ res t. res.is_ok ≡ false) x
      → All NotCommand x.1
      → ((result_of (and_then k x).0).is_ok ≡ false) × All NotCommand (and_then k x).1
  unfolding and_then
  after_set_up k (go_on ws, t) p q = absurd p
  after_set_up k (stop res, t) p q = (p, q)

-- An engine verb with secret inputs fails before any command is run: engine checkpoints hold their
-- inputs as they are.
pub execute_refuses_inputs :
    (m : Machine) (op : Op)
    → is_engine op.verb ≡ true
    → has_inputs op.secret_inputs ≡ true
    → ((execute m op).0.is_ok ≡ false) × All NotCommand (execute m op).1
unfolding execute
execute_refuses_inputs m op e h =
    after_set_up m op e h _ (set_up m op []) (set_up_stops m op e h) (set_up-Quiet m op)
