-- ===== src/Runnerops/Stateless.antt =====
-- internal/runnerops/execute.go: one stateless `pulumi do` verb.
use doplane.Common.{Text, bytes, Option, none, some, List, [], ◌∷◌, ◌++◌, ◌&&◌, if◌then◌else◌}
use doplane.Json.{Fields, end, field, obj}
use doplane.Runnerops.Path.{is_empty}
use doplane.Runnerops.Spec.{Op, Result, failure, invalid_spec, operation_failed}
use doplane.Runnerops.Failures.{code_of_failure}
use doplane.Runnerops.Machine.{root, Machine, M, ◌>>=◌, ◌>>◌, return, or_exit}
use doplane.Runnerops.Commands.{run_in, write_in}
use doplane.Runnerops.Output.{
  verb_text, is_read, is_delete, succeeded, last_json_object, from_state,
}
use doplane.Runnerops.Fallback.{delete_fallback_applies, execute_state_delete}

-- The arguments of `pulumi do`, for an input file or none.
unfoldable pub do_args : Op → List Text → List Text
do_args op input =
    bytes "do"
    ∷ op.token
    ∷ ((if is_empty op.package_ref then [] else bytes "--package" ∷ op.package_ref ∷ [])
        ++ (verb_text op.verb
            ∷ ((if is_empty op.id then [] else op.id ∷ [])
                ++ ((if is_read op.verb then [] else bytes "--yes" ∷ [])
                    ++ (input
                        ++ (bytes "--stateless"
                            ∷ bytes "--non-interactive"
                            ∷ bytes "--color"
                            ∷ bytes "never"
                            ∷ bytes "--output"
                            ∷ bytes "json"
                            ∷ []))))))

module _ (m : Machine) where
  -- `--input-file`
  abbrev pub write_inputs : Text → Option Fields → M (List Text)
  write_inputs ws none = return []
  write_inputs ws (some end) = return []
  write_inputs ws (some (field k v fs)) = do
    doc ←
        or_exit (λ e. failure invalid_spec (bytes "rendering inputs: " ++ e))
          (m.marshal (obj (field k v fs)))
    write_in m root (bytes "input.yaml") doc
        (λ e. failure operation_failed (bytes "writing input file: " ++ e))
    return (bytes "--input-file" ∷ (ws ++ bytes "/input.yaml") ∷ [])

  abbrev pub fall_back : Text → Op → Result → Option Fields → M Result
  fall_back ws op res none = return res
  fall_back ws op res (some end) = return res
  fall_back ws op res (some (field k v fs)) =
      if is_delete op.verb && delete_fallback_applies res
      then execute_state_delete m ws op (field k v fs) res
      else return res

  -- What follows the command of `executeDo`.
  abbrev pub after_do : Text → Op → Text × Option Text → M Result
  after_do ws op (stdout, some e) = fall_back ws op (failure (code_of_failure e stdout) e) op.state
  after_do ws op (stdout, none) =
      if is_delete op.verb
      then return (succeeded op.id none)
      else return (from_state op stdout (last_json_object m.decode_object stdout))

  -- `executeDo`
  unfoldable pub execute_do : Text → Op → M Result
  execute_do ws op = do
    input ← write_inputs ws op.properties
    r ← run_in m root (do_args op input)
    after_do ws op r
