-- ===== src/Pulumido/Methods/Jobs.antt =====
-- internal/pulumido/job.go: executeOp, as the methods of the Runner interface call it.
use doplane.Common.{Text}
use doplane.Runnerops.Spec.{Op, Result}
use doplane.Runnerops.Machine.{Try}
use doplane.Pulumido.Job.{JobRunner, Digests, Tags}
use doplane.Pulumido.Job.Wait.{Decoding}
use doplane.Pulumido.Job.Run.{Answers, Cluster, Executed, done, execute_op}
use doplane.Pulumido.Methods.{Returned, value, error}

abbrev pub returned_by : Executed × Cluster → Returned Executed Result × Cluster
returned_by (done res, c) = (value res, c)
returned_by (e, c) = (error e, c)

-- The operation of one method, its answers given.
abbrev pub job_op :
    JobRunner
    → Digests
    → Decoding
    → Answers
    → Tags
    → (Op → Try Text)
    → Op
    → Cluster
    → Returned Executed Result × Cluster
job_op r d m a tags marshal op c = returned_by (execute_op r d m a tags marshal op c)
