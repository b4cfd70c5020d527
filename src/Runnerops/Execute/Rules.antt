-- ===== src/Runnerops/Execute/Rules.antt =====
-- What the proofs about Execute share: the rule for a bind, and which actions set-up makes.
use doplane.Common.{Text, Option, none, some, [], ◌∷◌, All, Any, inl, inr, Bool-cases, ◌&&◌}
use doplane.Runnerops.Path.{is_empty}
use doplane.Runnerops.Spec.{Code, Op, Result}
use doplane.Runnerops.Packages.{parse_plugin_ref}
use doplane.Runnerops.Machine.{
  Action, make_workspace, ensure_plugin, prepare, write_file, run, read_file, resolve, fetch_schema,
  Trace, Try, ok, err, Machine, or_exit, unless_failed, Outcome, go_on, stop, M, and_then,
}
use doplane.Runnerops.Execute.{
  unless_coded, has_inputs, is_engine, refuse_secrets, set_up, ensure_cached, cache_plugins,
}

-- What holds of the value and the trace with which a part goes on, or of the result and the trace
-- with which the operation ends in it.
abbrev pub Post :
    {A : Type 0} → (A → Trace → Type 0) → (Result → Trace → Type 0) → Outcome A × Trace → Type 0
Post Q R (go_on a, t) = Q a t
Post Q R (stop res, t) = R res t

pub and_then-Post :
    {A B : Type 0} (Q : A → Trace → Type 0) (Q' : B → Trace → Type 0) (R : Result → Trace → Type 0)
    (k : A → M B) (x : Outcome A × Trace)
    → Post Q R x
    → ((a : A) (t : Trace) → Q a t → Post Q' R (k a t))
    → Post Q' R (and_then k x)
unfolding and_then
and_then-Post Q Q' R k (go_on a, t) h next = next a t h
and_then-Post Q Q' R k (stop res, t) h next = h

-- A command of the operation.
abbrev pub IsCommand : Action → Type 0
IsCommand (run place args) = Unit
IsCommand action = ⊥

abbrev pub NotCommand : Action → Type 0
NotCommand (run place args) = ⊥
NotCommand action = Unit

pub no_command : (t : Trace) → All NotCommand t → Any IsCommand t → ⊥
no_command [] q c = c
no_command (a ∷ t) q (inl c) = both a q.0 c
  where
    both : (b : Action) → NotCommand b → IsCommand b → ⊥
    both (run place args) n c = n
    both make_workspace n c = c
    both (ensure_plugin name version) n c = c
    both (prepare plugins) n c = c
    both (write_file place name content) n c = c
    both (read_file path) n c = c
    both (resolve path) n c = c
    both (fetch_schema pkg) n c = c
no_command (a ∷ t) q (inr c) = no_command t q.1 c

-- A part of an operation that keeps a property of the trace.
abbrev pub Keeps : {A : Type 0} → (Trace → Type 0) → M A → Type 0
Keeps P m = (t : Trace) → P t → P (m t).1

module _ (P : Trace → Type 0) where
  pub bind-Keeps :
      {A B : Type 0} (k : A → M B) (x : Outcome A × Trace)
      → P x.1
      → ((a : A) → Keeps P (k a))
      → P (and_then k x).1
  unfolding and_then
  bind-Keeps k (go_on a, t) p next = next a t p
  bind-Keeps k (stop res, t) p next = p

  pub or_exit-Keeps : {A : Type 0} (fail : Text → Result) (r : Try A) → Keeps P (or_exit fail r)
  unfolding or_exit
  or_exit-Keeps fail (ok a) t p = p
  or_exit-Keeps fail (err e) t p = p

  pub unless_failed-Keeps :
      (fail : Text → Result) (o : Option Text) → Keeps P (unless_failed fail o)
  unfolding unless_failed
  unless_failed-Keeps fail none t p = p
  unless_failed-Keeps fail (some e) t p = p

  pub unless_coded-Keeps : (o : Option (Code × Text)) → Keeps P (unless_coded o)
  unfolding unless_coded
  unless_coded-Keeps none t p = p
  unless_coded-Keeps (some (code, e)) t p = p

  pub refuse_secrets-Keeps : (op : Op) → Keeps P (refuse_secrets op)
  unfolding refuse_secrets
  refuse_secrets-Keeps op t p =
      elim (Bool-cases (has_inputs op.secret_inputs && is_engine op.verb)) [
        | inl e ↦ rw e p
        | inr e ↦ rw e p
      ]

module _ (m : Machine) (op : Op) where
  ensure_cached-Quiet : (ref : Option (Text × Text)) → Keeps (All NotCommand) (ensure_cached m ref)
  ensure_cached-Quiet none t q = q
  ensure_cached-Quiet (some (name, version)) t q =
      bind-Keeps (All NotCommand) _ _ (tt, q)
        (λ failed t' q'.
          bind-Keeps (All NotCommand) _ _ (unless_coded-Keeps (All NotCommand) failed t' q')
            (λ u t'' q''. q''))

  cache_plugins-Quiet : Keeps (All NotCommand) (cache_plugins m op)
  cache_plugins-Quiet t q = elim (Bool-cases (is_empty m.plugin_cache)) [
    | inl e ↦ rw e q
    | inr e ↦ rw e (ensure_cached-Quiet (parse_plugin_ref op.package_ref) t q)
  ]

  -- Before the secret inputs no command has been run.
  pub set_up-Quiet : All NotCommand (set_up m op []).1
  unfolding set_up
  set_up-Quiet =
      bind-Keeps (All NotCommand) _ _ (tt, tt)
        (λ made t0 q0.
          bind-Keeps (All NotCommand) _ _ (or_exit-Keeps (All NotCommand) _ made t0 q0) (λ ws t1 q1.
            bind-Keeps (All NotCommand) _ _ (cache_plugins-Quiet t1 q1) (λ plugins t2 q2.
              bind-Keeps (All NotCommand) _ _ (tt, q2)
                (λ unprepared t3 q3.
                  bind-Keeps (All NotCommand) _ _
                    (unless_failed-Keeps (All NotCommand) _ unprepared t3 q3)
                    (λ u t4 q4.
                      bind-Keeps (All NotCommand) _ _
                        (refuse_secrets-Keeps (All NotCommand) op t4 q4) (λ v t5 q5. q5))))))
