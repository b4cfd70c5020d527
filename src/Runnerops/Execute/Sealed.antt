-- ===== src/Runnerops/Execute/Sealed.antt =====
-- Which secret values the result of `Execute` can show (execute.go, secretinput.go).
use doplane.Common.{
  ◌||◌, text_eq, ◌≡◌, refl, ◌≤◌, Text, true, false, some, List, [], ◌∷◌, All, Any, contains, length,
  Bool-cases, inl, inr,
}
use doplane.Runnerops.Spec.{takes_secret_inputs, Op, Result}
use doplane.Runnerops.Path.{is_empty}
use doplane.Runnerops.Secrets.{
  redact_string, guarded, no_values, redact_result, guard_secret_id, id_embeds_secret,
  min_guarded_secret_len,
}
use doplane.Runnerops.Secrets.Redaction.{IsDistinct, contains-redact_string, contains_nil}
use doplane.Runnerops.Secrets.Guard.{guard_secret_id_refuses}
use doplane.Runnerops.Secrets.Inputs.{
  Applied, values_of, refused, apply_secret_inputs, apply_secret_inputs_covers,
}
use doplane.Runnerops.Machine.{Trace, Machine, Outcome, go_on, stop, and_then}
use doplane.Runnerops.Execute.{own_inputs, seal, result_of, perform, set_up, execute}
use doplane.Runnerops.Execute.Rules.{IsCommand, NotCommand, no_command, set_up-Quiet}

-- The secret value shows neither in the message nor, if it is long enough, in the id.
pub record Hides (v : Text) (res : Result) : Type 0 where
  pub in_message : contains v res.message ≡ false
  pub in_id : min_guarded_secret_len ≤ length v → contains v res.id ≡ false

-- The guard lets a result pass or replaces it.
pub guard_secret_id-Meets :
    (P : Result → Type 0) (res : Result) (values : List Text)
    → P res
    → P id_embeds_secret
    → P (guard_secret_id res values)
unfolding guard_secret_id
guard_secret_id-Meets P res values p q = elim (Bool-cases (is_empty res.id)) [
  | inl e ↦ rw e p
  | inr e ↦
      elim (Bool-cases
        (no_values (guarded values) || text_eq (redact_string res.id (guarded values)) res.id)) [
          | inl f ↦ rw (e, f) p
          | inr f ↦ rw (e, f) q
        ]
]

module _ (v : Text) (d : IsDistinct v) (unlike : contains v id_embeds_secret.message ≡ false) where
  redact_result-message :
      (res : Result) (values : List Text)
      → Any (λ u. u ≡ v) values
      → contains v (redact_result res values).message ≡ false
  unfolding redact_result
  redact_result-message res [] e = absurd e
  redact_result-message res (u ∷ values) e = contains-redact_string res.message (u ∷ values) v d e

  guard_secret_id-id :
      (res : Result) (values : List Text)
      → Any (λ u. u ≡ v) values
      → min_guarded_secret_len ≤ length v
      → contains v (guard_secret_id res values).id ≡ false
  guard_secret_id-id res values e long = elim (Bool-cases (contains v res.id)) [
    | inl f ↦ rw (guard_secret_id_refuses res values v d e long f) (contains_nil v d.nonempty)
    | inr f ↦
        guard_secret_id-Meets (λ r. contains v r.id ≡ false) res values f
          (contains_nil v d.nonempty)
  ]

  seal-Hides :
      (res : Result) (values : List Text) → Any (λ u. u ≡ v) values → Hides v (seal values res)
  unfolding seal
  seal-Hides res values e = record {
    in_message =
        guard_secret_id-Meets (λ r. contains v r.message ≡ false) (redact_result res values) values
          (redact_result-message res values e) unlike;
    in_id = guard_secret_id-id (redact_result res values) values e;
  }

  perform-Hides :
      (m : Machine) (ws name : Text) (op : Op) (a : Applied) (t : Trace)
      → ((values : List Text) → a ≡ values_of values → Any (λ u. u ≡ v) values)
      → All NotCommand t
      → Any IsCommand (perform m ws (op, a) t).1
      → Hides v (result_of (perform m ws (op, a) t).0)
  perform-Hides m ws name op (refused e) t covers q c = absurd (no_command t q c)
  perform-Hides m ws name op (values_of values) t covers q c =
      seal-Hides _ values (covers values refl)

  after_set_up :
      (m : Machine) (name : Text) (r : Op × Applied) (x : Outcome Text × Trace)
      → ((values : List Text) → r.1 ≡ values_of values → Any (λ u. u ≡ v) values)
      → All NotCommand x.1
      → Any IsCommand (and_then (λ ws. perform m ws r) x).1
      → Hides v (result_of (and_then (λ ws. perform m ws r) x).0)
  unfolding and_then
  after_set_up m name r (go_on ws, t) covers q c = perform-Hides m ws name r.0 r.1 t covers q c
  after_set_up m name r (stop res, t) covers q c = absurd (no_command t q c)

-- Once a command of an operation has been run, its result hides each secret value that the
-- operation names: the message never shows it, whichever command failed and whatever it printed,
-- and the id does not when the value has at least six bytes. This holds for the verbs that take
-- secret inputs and for values that cannot be confused with the redaction mark and do not stand in
-- the fixed text of the guard's own refusal.
pub execute-Hides :
    (m : Machine) (op : Op) (name v : Text)
    → takes_secret_inputs op.verb ≡ true
    → m.lookup_env name ≡ some v
    → Any (λ (e : Text × Text). e.1 ≡ name) op.secret_inputs
    → IsDistinct v
    → contains v id_embeds_secret.message ≡ false
    → Any IsCommand (execute m op).1
    → Hides v (execute m op).0
unfolding execute
execute-Hides m op name v takes e named d unlike c =
    after_set_up v d unlike m name (apply_secret_inputs m.lookup_env (own_inputs op))
      (set_up m op [])
      (λ values h.
        apply_secret_inputs_covers m.lookup_env (own_inputs op) name v values h e d.nonempty
          (own_inputs-named op takes named))
      (set_up-Quiet m op) c
  where
    own_inputs-named :
        (op' : Op)
        → takes_secret_inputs op'.verb ≡ true
        → Any (λ (f : Text × Text). f.1 ≡ name) op'.secret_inputs
        → Any (λ (f : Text × Text). f.1 ≡ name) (own_inputs op').secret_inputs
    own_inputs-named op' h a = rw h a
