-- ===== src/Runnerops/Execute/Endings.antt =====
-- What holds of every result of an operation: the rules, for a property that failures have.
use doplane.Common.{
  Text, Bool, ◌≡◌, refl, true, false, Option, none, some, List, [], ◌∷◌, ◌&&◌, if◌then◌else◌,
}
use doplane.Json.{Fields, end, field}
use doplane.Runnerops.Spec.{Code, not_found, Op, Result, failure}
use doplane.Runnerops.Packages.{PackageKind, plain, git, registry, classify_package_ref}
use doplane.Runnerops.Failures.{code_of_failure}
use doplane.Runnerops.Machine.{
  Place, root, run, Process, Trace, Try, ok, err, Machine, Outcome, M, and_then, or_exit,
  unless_failed,
}
use doplane.Runnerops.Commands.{error_of, outcome_of, go_on_unless, run_steps, write_in}
use doplane.Runnerops.Engine.{
  engine_result, package_source, import_state, execute_engine, after_steps, is_destroy,
}
use doplane.Runnerops.Fallback.{
  delete_plugin_ref, delete_fallback_applies, or_fallback_failed, delete_by_engine,
  execute_state_delete,
}
use doplane.Runnerops.Output.{succeeded, from_state, last_json_object, is_delete}
use doplane.Runnerops.Stateless.{do_args, write_inputs, fall_back, after_do, execute_do}
use doplane.Runnerops.Execute.{get_schema, raw_schema, execute_schema}
use doplane.Runnerops.Execute.Rules.{Post, and_then-Post}

-- A command whose error is none did not fail.
error_of-none : (p : Process) (o : Option Text) → error_of p o ≡ none → o ≡ none
error_of-none p none e = refl
error_of-none p (some f) e = cc

&&_left : (a b : Bool) → (a && b) ≡ true → a ≡ true
&&_left true b h = refl
&&_left false b h = h

-- If the operation ends here, the result has the property.
abbrev pub Ends : (Result → Type 0) → {A : Type 0} → Outcome A × Trace → Type 0
Ends P = Post (λ a t. Unit) (λ res t. P res)

-- The result that is given here has the property.
abbrev pub Gives : (Result → Type 0) → Outcome Result × Trace → Type 0
Gives P = Post (λ res t. P res) (λ res t. P res)

module _ (P : Result → Type 0) (fails : (c : Code) (message : Text) → P (failure c message)) where
  pub bind-Post :
      {A B : Type 0} (Q : B → Trace → Type 0) (k : A → M B) (x : Outcome A × Trace)
      → Ends P x
      → ((a : A) (t : Trace) → Post Q (λ res t'. P res) (k a t))
      → Post Q (λ res t. P res) (and_then k x)
  bind-Post Q k x h next = and_then-Post (λ a t. Unit) Q (λ res t. P res) k x h (λ a t u. next a t)

  pub bind-Ends :
      {A B : Type 0} (k : A → M B) (x : Outcome A × Trace)
      → Ends P x
      → ((a : A) (t : Trace) → Ends P (k a t))
      → Ends P (and_then k x)
  bind-Ends k x h next = bind-Post (λ b t. Unit) k x h next

  pub bind-Gives :
      {A : Type 0} (k : A → M Result) (x : Outcome A × Trace)
      → Ends P x
      → ((a : A) (t : Trace) → Gives P (k a t))
      → Gives P (and_then k x)
  bind-Gives k x h next = bind-Post (λ res t. P res) k x h next

  pub or_exit-Ends :
      {A : Type 0} (fail : Text → Result) (r : Try A) (t : Trace)
      → ((e : Text) → P (fail e))
      → Ends P (or_exit fail r t)
  unfolding or_exit
  or_exit-Ends fail (ok a) t h = tt
  or_exit-Ends fail (err e) t h = h e

  pub unless_failed-Ends :
      (fail : Text → Result) (o : Option Text) (t : Trace)
      → ((e : Text) → P (fail e))
      → Ends P (unless_failed fail o t)
  unfolding unless_failed
  unless_failed-Ends fail none t h = tt
  unless_failed-Ends fail (some e) t h = h e

  pub go_on_unless-Ends :
      (o : Option Text) (fail : Text → Result) (rest : M (Unit {0})) (t : Trace)
      → ((e : Text) → P (fail e))
      → ((t' : Trace) → Ends P (rest t'))
      → Ends P (go_on_unless o fail rest t)
  unfolding go_on_unless
  go_on_unless-Ends none fail rest t h next = next t
  go_on_unless-Ends (some e) fail rest t h next = h e

  pub if-Gives :
      (b : Bool) (x y : M Result) (t : Trace)
      → (b ≡ true → Gives P (x t))
      → (b ≡ false → Gives P (y t))
      → Gives P ((if b then x else y) t)
  if-Gives true x y t h g = h refl
  if-Gives false x y t h g = g refl

  or_fallback_failed-fails :
      (primary : Result) (step : List Text) (e : Text) (c : Code)
      → P (or_fallback_failed primary step e c)
  or_fallback_failed-fails primary step e not_found = fails _ _
  or_fallback_failed-fails primary step e other = fails _ _

  module _ (m : Machine) where
    pub write_in-Ends :
        (place : Place) (name content : Text) (fail : Text → Result) (t : Trace)
        → ((e : Text) → P (fail e))
        → Ends P (write_in m place name content fail t)
    write_in-Ends place name content fail t h =
        bind-Ends _ _ tt (λ failed t'. unless_failed-Ends fail failed t' h)

    pub run_steps-Ends :
        (fail : List Text → Text → Result) (steps : List (List Text)) (t : Trace)
        → ((step : List Text) (e : Text) → P (fail step e))
        → Ends P (run_steps m fail steps t)
    unfolding run_steps
    run_steps-Ends fail [] t h = tt
    run_steps-Ends fail (step ∷ steps) t h = bind-Ends _ _ tt (λ r t1.
        go_on_unless-Ends r.1 (fail step) _ t1 (h step) (λ t2. run_steps-Ends fail steps t2 h))

    pub package_source-Ends :
        (op : Op) (kind : PackageKind) (t : Trace) → Ends P (package_source m op kind t)
    package_source-Ends op plain t = tt
    package_source-Ends op git t = tt
    package_source-Ends op (registry path) t =
        bind-Ends _ _ (unless_failed-Ends _ m.new_client t (λ e. fails _ _)) (λ u t1.
          bind-Ends _ _ (bind-Ends _ _ tt (λ answer t2. or_exit-Ends _ answer t2 (λ e. fails _ _)))
            (λ pkg t2. or_exit-Ends _ _ t2 (λ e. fails _ _)))

    pub import_state-Ends : (ws state : Text) (t : Trace) → Ends P (import_state m ws state t)
    import_state-Ends ws [] t = tt
    import_state-Ends ws (b ∷ state) t =
        bind-Ends _ _ (write_in-Ends _ _ _ _ t (λ e. fails _ _)) (λ u t'. tt)

    pub write_inputs-Ends :
        (ws : Text) (o : Option Fields) (t : Trace) → Ends P (write_inputs m ws o t)
    write_inputs-Ends ws none t = tt
    write_inputs-Ends ws (some end) t = tt
    write_inputs-Ends ws (some (field k v fs)) t =
        bind-Ends _ _ (or_exit-Ends _ _ t (λ e. fails _ _))
          (λ doc t1. bind-Ends _ _ (write_in-Ends _ _ _ _ t1 (λ e. fails _ _)) (λ u t2. tt))

    get_schema-Ends : (ref : Text) (t : Trace) → Ends P (get_schema m ref t)
    get_schema-Ends ref t =
        bind-Ends _ _ tt
          (λ r t1. bind-Ends _ _ (unless_failed-Ends _ r.1 t1 (λ e. fails _ _)) (λ u t2. tt))

    module _ (op : Op) where
      after_steps-Gives :
          (ws : Text) (b : Bool) (t : Trace)
          → (b ≡ true → P (succeeded op.id none))
          → (b ≡ false → (raw : Text) → P (engine_result m op.token raw))
          → Gives P (after_steps m ws op b t)
      after_steps-Gives ws true t destroyed exported = destroyed refl
      after_steps-Gives ws false t destroyed exported = bind-Gives _ _ tt (λ r t1.
          bind-Gives _ _ (unless_failed-Ends _ r.1 t1 (λ e. fails _ _)) (λ u t2.
            bind-Gives _ _ tt (λ answer t3.
              bind-Gives _ _ (or_exit-Ends _ answer t3 (λ e. fails _ _))
                (λ raw t4. exported refl raw))))

      -- The engine gives what its checkpoint shows, or the id of what it has destroyed.
      pub execute_engine-Gives :
          (ws : Text) (t : Trace)
          → (is_destroy op.verb ≡ true → P (succeeded op.id none))
          → (is_destroy op.verb ≡ false → (raw : Text) → P (engine_result m op.token raw))
          → Gives P (execute_engine m ws op t)
      unfolding execute_engine
      execute_engine-Gives ws t destroyed exported =
          bind-Gives _ _ (package_source-Ends op (classify_package_ref op.package_ref) t)
            (λ source t1. bind-Gives _ _ (or_exit-Ends _ _ t1 (λ e. fails _ _)) (λ program t2.
              bind-Gives _ _ (write_in-Ends _ _ _ _ t2 (λ e. fails _ _)) (λ u t3.
                bind-Gives _ _ (import_state-Ends ws op.engine_state t3) (λ imports t4.
                  bind-Gives _ _ (run_steps-Ends _ _ t4 (λ step e. fails _ _))
                    (λ v t5. after_steps-Gives ws (is_destroy op.verb) t5 destroyed exported)))))

      raw_schema-Ends : (kind : PackageKind) (t : Trace) → Ends P (raw_schema m op kind t)
      raw_schema-Ends plain t = get_schema-Ends _ t
      raw_schema-Ends git t = get_schema-Ends _ t
      raw_schema-Ends (registry path) t =
          bind-Ends _ _ (unless_failed-Ends _ m.new_client t (λ e. fails _ _)) (λ u t1.
            bind-Ends _ _
              (bind-Ends _ _ tt (λ answer t2. or_exit-Ends _ answer t2 (λ e. fails _ _)))
              (λ pkg t2. bind-Ends _ _ tt (λ answer t3. or_exit-Ends _ answer t3 (λ e. fails _ _))))

      pub execute_schema-Gives :
          (t : Trace)
          → ((small : Text) → P (record (succeeded [] none) { schema = small }))
          → Gives P (execute_schema m op t)
      unfolding execute_schema
      execute_schema-Gives t h =
          bind-Gives _ _ (raw_schema-Ends (classify_package_ref op.package_ref) t)
            (λ raw t1. bind-Gives _ _ (or_exit-Ends _ _ t1 (λ e. fails _ _)) (λ small t2. h small))

      delete_by_engine-Gives :
          (ws : Text) (state : Fields) (primary : Result) (ref : Option (Text × Text)) (t : Trace)
          → P primary
          → P (succeeded op.id none)
          → Gives P (delete_by_engine m ws op state primary ref t)
      delete_by_engine-Gives ws state primary none t p q = p
      delete_by_engine-Gives ws state primary (some (plugin, version)) t p q =
          bind-Gives _ _ (or_exit-Ends _ _ t (λ e. fails _ _)) (λ checkpoint t1.
            bind-Gives _ _ (write_in-Ends _ _ _ _ t1 (λ e. fails _ _)) (λ u t2.
              bind-Gives _ _ (write_in-Ends _ _ _ _ t2 (λ e. fails _ _)) (λ v t3.
                bind-Gives _ _
                  (run_steps-Ends _ _ t3
                    (λ step e. or_fallback_failed-fails primary step e (code_of_failure e [])))
                  (λ w t4. q))))

      execute_state_delete-Gives :
          (ws : Text) (state : Fields) (primary : Result) (t : Trace)
          → P primary
          → P (succeeded op.id none)
          → Gives P (execute_state_delete m ws op state primary t)
      unfolding execute_state_delete
      execute_state_delete-Gives ws state primary t p q =
          delete_by_engine-Gives ws state primary (delete_plugin_ref op.token op.package_ref) t p q

      fall_back-Gives :
          (ws : Text) (res : Result) (o : Option Fields) (t : Trace)
          → P res
          → (is_delete op.verb ≡ true → P (succeeded op.id none))
          → Gives P (fall_back m ws op res o t)
      fall_back-Gives ws res none t p q = p
      fall_back-Gives ws res (some end) t p q = p
      fall_back-Gives ws res (some (field k v fs)) t p q =
          if-Gives (is_delete op.verb && delete_fallback_applies res) _ _ t
            (λ e. execute_state_delete-Gives ws (field k v fs) res t p (q (&&_left _ _ e))) (λ e. p)

      after_do-Gives :
          (ws : Text) (r : Text × Option Text) (t : Trace)
          → (is_delete op.verb ≡ true → P (succeeded op.id none))
          → (r.1 ≡ none → P (from_state op r.0 (last_json_object m.decode_object r.0)))
          → Gives P (after_do m ws op r t)
      after_do-Gives ws (stdout, some e) t q h = fall_back-Gives ws _ op.state t (fails _ _) q
      after_do-Gives ws (stdout, none) t q h =
          if-Gives (is_delete op.verb) _ _ t (λ e. q e) (λ e. h refl)

      -- A stateless verb gives the id that it has deleted, or what the output of its command shows.
      pub execute_do-Gives :
          (ws : Text) (t : Trace)
          → (is_delete op.verb ≡ true → P (succeeded op.id none))
          → ((t' : Trace) (input : List Text)
              → (m.process t' root (do_args op input)).failed ≡ none
              → P (
                  from_state op (m.process t' root (do_args op input)).stdout (
                    last_json_object m.decode_object
                      (m.process t' root (do_args op input)).stdout)))
          → Gives P (execute_do m ws op t)
      unfolding execute_do and_then
      execute_do-Gives ws t q h = bind-Gives _ _ (write_inputs-Ends ws op.properties t) (λ input t1.
          after_do-Gives ws (outcome_of (m.process t1 root (do_args op input)))
            (run root (do_args op input) ∷ t1) q
            (λ e. h t1 input (error_of-none (m.process t1 root (do_args op input)) _ e)))
