-- ===== src/Runnerops/Execute/Results.antt =====
-- What holds of every result of `Execute` (execute.go).
use doplane.Common.{
  ◌≡◌, refl, ◌∙◌, Text, Option, none, some, List, [], ◌∷◌, ◌&&◌, Bool-cases, inl, inr,
}
use doplane.Runnerops.Path.{is_empty}
use doplane.Runnerops.Spec.{takes_secret_inputs, Op, Result, Code, failure}
use doplane.Runnerops.Secrets.Inputs.{
  Applied, values_of, refused, apply_inputs, apply_secret_inputs,
}
use doplane.Runnerops.Packages.{parse_plugin_ref}
use doplane.Runnerops.Machine.{and_then, return, Trace, Machine, Outcome, go_on, stop}
use doplane.Runnerops.Execute.{
  own_inputs, seal, result_of, dispatch, perform, set_up, refuse_secrets, execute, ensure_cached,
  unless_coded, cache_plugins, has_inputs, is_engine,
}
use doplane.Runnerops.Execute.Rules.{Post}
use doplane.Runnerops.Execute.Endings.{
  Gives, Ends, bind-Ends, bind-Post, bind-Gives, or_exit-Ends, unless_failed-Ends,
}

-- The fields that say which resource an operation is about.
abbrev pub Alike : Op → Op → Type 0
Alike op' op = (op'.verb ≡ op.verb) × (op'.token ≡ op.token) × (op'.id ≡ op.id)

apply_inputs-Alike :
    (env : Text → Option Text) (es : List (Text × Text)) (op : Op)
    → Alike (apply_inputs env es op).0 op
unfolding apply_inputs
apply_inputs-Alike env [] op = (refl, refl, refl)
apply_inputs-Alike env (e ∷ es) op = (refl, refl, refl)

own_inputs-Alike : (op : Op) → Alike (own_inputs op) op
own_inputs-Alike op = elim (Bool-cases (takes_secret_inputs op.verb)) [
  | inl e ↦ rw e (refl, refl, refl)
  | inr e ↦ rw e (refl, refl, refl)
]

-- The secret inputs leave those fields as they are.
apply_secret_inputs-Alike :
    (env : Text → Option Text) (op : Op) → Alike (apply_secret_inputs env (own_inputs op)).0 op
unfolding apply_secret_inputs
apply_secret_inputs-Alike env op =
    let (v, t, i) = apply_inputs-Alike env (own_inputs op).secret_inputs (own_inputs op) in
    let (w, u, j) = own_inputs-Alike op in (v ∙ w, t ∙ u, i ∙ j)

module _ (P : Result → Type 0) (fails : (c : Code) (message : Text) → P (failure c message)) where
  unless_coded-Ends : (o : Option (Code × Text)) (t : Trace) → Ends P (unless_coded o t)
  unfolding unless_coded
  unless_coded-Ends none t = tt
  unless_coded-Ends (some (code, e)) t = fails code e

  ensure_cached-Ends :
      (m : Machine) (ref : Option (Text × Text)) (t : Trace) → Ends P (ensure_cached m ref t)
  ensure_cached-Ends m none t = tt
  ensure_cached-Ends m (some (name, version)) t =
      bind-Ends P fails _ _ tt
        (λ failed t1. bind-Ends P fails _ _ (unless_coded-Ends failed t1) (λ u t2. tt))

  cache_plugins-Ends : (m : Machine) (op : Op) (t : Trace) → Ends P (cache_plugins m op t)
  cache_plugins-Ends m op t = elim (Bool-cases (is_empty m.plugin_cache)) [
    | inl e ↦ rw e tt
    | inr e ↦ rw e (ensure_cached-Ends m (parse_plugin_ref op.package_ref) t)
  ]

  refuse_secrets-Ends : (op : Op) (t : Trace) → Ends P (refuse_secrets op t)
  unfolding refuse_secrets
  refuse_secrets-Ends op t = elim (Bool-cases (has_inputs op.secret_inputs && is_engine op.verb)) [
    | inl e ↦ rw e (fails _ _)
    | inr e ↦ rw e tt
  ]

  -- Set-up goes on with what its last step, on secret inputs, goes on with.
  pub set_up-Post :
      (m : Machine) (op : Op) (Q : Text → Trace → Type 0)
      → ((ws : Text) (t : Trace)
          → Post Q (λ res t'. P res) (and_then (λ u. return ws) (refuse_secrets op t)))
      → Post Q (λ res t. P res) (set_up m op [])
  unfolding set_up
  set_up-Post m op Q h = bind-Post P fails Q _ _ tt (λ made t0.
      bind-Post P fails Q _ _ (or_exit-Ends P fails _ made t0 (λ e. fails _ _)) (λ ws t1.
        bind-Post P fails Q _ _ (cache_plugins-Ends m op t1) (λ plugins t2.
          bind-Post P fails Q _ _ tt (λ unprepared t3.
            bind-Post P fails Q _ _ (unless_failed-Ends P fails _ unprepared t3 (λ e. fails _ _))
              (λ u t4. h ws t4)))))

  set_up-Ends : (m : Machine) (op : Op) → Ends P (set_up m op [])
  set_up-Ends m op =
      set_up-Post m op (λ ws t. Unit)
        (λ ws t. bind-Ends P fails _ _ (refuse_secrets-Ends op t) (λ u t'. tt))

module _ (P : Result → Type 0) (fails : (c : Code) (message : Text) → P (failure c message))
    (keeps : (values : List Text) (res : Result) → P res → P (seal values res)) where
  result_of-Meets : (x : Outcome Result × Trace) → Gives P x → P (result_of x.0)
  result_of-Meets (go_on res, t) h = h
  result_of-Meets (stop res, t) h = h

  perform-Meets :
      (m : Machine) (ws : Text) (op : Op) (a : Applied) (t : Trace)
      → Gives P (dispatch m ws op op.verb t)
      → Gives P (perform m ws (op, a) t)
  perform-Meets m ws op (refused e) t h = fails _ _
  perform-Meets m ws op (values_of values) t h = keeps values _ (result_of-Meets _ h)

  -- What failures have, the seal keeps and every verb gives holds of each result.
  pub execute-Meets :
      (m : Machine) (op : Op)
      → ((ws : Text) (op' : Op) (t : Trace) → Alike op' op → Gives P (dispatch m ws op' op'.verb t))
      → P (execute m op).0
  unfolding execute
  execute-Meets m op h = result_of-Meets _ (
      bind-Gives P fails _ (set_up m op []) (set_up-Ends P fails m op) (λ ws t.
        let r = apply_secret_inputs m.lookup_env (own_inputs op) in
        perform-Meets m ws r.0 r.1 t (h ws r.0 t (apply_secret_inputs-Alike m.lookup_env op))))
