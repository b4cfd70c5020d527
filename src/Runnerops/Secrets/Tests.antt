-- ===== src/Runnerops/Secrets/Tests.antt =====
-- Secret inputs at concrete values (internal/runnerops/secretinput_test.go), and instances of the
-- theorems.
use doplane.Common.{
  Any, All, ◌⊎◌, ◌≡◌, refl, Text, bytes, true, Option, none, some, [], ◌∷◌, ◌++◌, arith, text_eq,
  has_prefix, contains, replace_from, replace_all, text_leb, insert_sorted, sort_by_key,
  if◌then◌else◌,
}
use doplane.Runnerops.Path.Tests.{paths}
use doplane.Runnerops.Spec.{Op, Result, create, failure, operation_failed}
use doplane.Runnerops.Secrets.{redact_string, guarded, guard_secret_id, id_embeds_secret}
use doplane.Runnerops.Secrets.Redaction.{IsDistinct}
use doplane.Runnerops.Secrets.Guard.{Embeds, Spares, guard_secret_id_lem}
use doplane.Runnerops.Secrets.Inputs.{
  apply_from, apply_inputs, apply_secret_inputs, refused, env_not_set,
}
use doplane.Runnerops.Secrets.Stream.{
  next_line, flush, flush_if_large, write_lines, write, write_all, new_redacting_writer,
}
use doplane.Runnerops.Secrets.Stream.Lines.{redact_lines, concat, flush-write_all}

-- Everything that a run of these functions goes through.
unfoldable pub secrets : Unit {0}
unfolding paths redact_string replace_all replace_from has_prefix contains guarded guard_secret_id
    apply_from apply_inputs apply_secret_inputs text_leb insert_sorted sort_by_key next_line flush
    flush_if_large write_lines write write_all redact_lines concat
secrets = tt

abbrev pub password : Text
password = bytes "hunter22"

abbrev named : Text → Result
named id = record (failure operation_failed []) { is_ok = true; code = none; id = id }

redact_tests :
    (redact_string (bytes "pw=hunter22;hunter22") (password ∷ [])
      ≡ bytes "pw=(redacted);(redacted)")
    × (redact_string (bytes "aaa") (bytes "aa" ∷ []) ≡ bytes "(redacted)a")
    × (guard_secret_id (named (bytes "db-7")) (bytes "7" ∷ []) ≡ named (bytes "db-7"))
unfolding secrets
redact_tests = (refl, refl, refl)

pub password-IsDistinct : IsDistinct password
unfolding secrets
password-IsDistinct = record {
  nonempty = λ e. cc;
  no_open = omega arith;
  no_close = omega arith;
  not_in_mark = refl;
}

other_secret-IsDistinct : IsDistinct (bytes "7")
unfolding secrets
other_secret-IsDistinct = record {
  nonempty = λ e. cc;
  no_open = omega arith;
  no_close = omega arith;
  not_in_mark = refl;
}

-- The short value may occur in the id, the long one may not.
guard_secret_id_lem_example :
    (Any (Embeds (bytes "db-7")) (bytes "7" ∷ password ∷ [])
      × (guard_secret_id (named (bytes "db-7")) (bytes "7" ∷ password ∷ []) ≡ id_embeds_secret))
    ⊎ (All (Spares (bytes "db-7")) (bytes "7" ∷ password ∷ [])
        × (guard_secret_id (named (bytes "db-7")) (bytes "7" ∷ password ∷ [])
            ≡ named (bytes "db-7")))
guard_secret_id_lem_example =
    guard_secret_id_lem (named (bytes "db-7")) (bytes "7" ∷ password ∷ [])
      (other_secret-IsDistinct, (password-IsDistinct, tt))

guard_test :
    guard_secret_id (named (bytes "db-hunter22")) (bytes "7" ∷ password ∷ []) ≡ id_embeds_secret
unfolding secrets
guard_test = refl

-- The secret is cut in two by the writes.
flush-write_all_example :
    (flush (
      write_all
        (new_redacting_writer [] (password ∷ []))
        (bytes "a=hun" ∷ (bytes "ter22" ++ 10 ∷ bytes "b") ∷ []))).dst
    ≡ []
      ++ redact_lines
          (password ∷ [])
          []
          (concat (bytes "a=hun" ∷ (bytes "ter22" ++ 10 ∷ bytes "b") ∷ []))
flush-write_all_example =
    flush-write_all [] (password ∷ []) (bytes "a=hun" ∷ (bytes "ter22" ++ 10 ∷ bytes "b") ∷ [])
      (unfold secrets in omega arith)

stream_test :
    redact_lines (password ∷ []) [] (bytes "a=hunter22" ++ 10 ∷ bytes "b")
    ≡ bytes "a=(redacted)" ++ 10 ∷ bytes "b"
unfolding secrets
stream_test = refl

abbrev pub env : Text → Option Text
env name = if text_eq name (bytes "DOPLANE_SECRET_0") then some password else none

abbrev pub creation : Op
creation = record {
  verb = create;
  token = bytes "random:index/randomPet:RandomPet";
  package_ref = [];
  id = [];
  properties = none;
  engine_state = [];
  state = none;
  secret_inputs = (bytes "db.password", bytes "DOPLANE_SECRET_0") ∷ [];
}

missing_secret_test :
    (apply_secret_inputs (λ name. none) creation).1
    ≡ refused (env_not_set (bytes "db.password") (bytes "DOPLANE_SECRET_0"))
unfolding secrets
missing_secret_test = refl
