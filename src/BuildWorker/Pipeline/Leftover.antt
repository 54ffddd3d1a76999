-- ===== src/BuildWorker/Pipeline/Leftover.antt =====
-- The sandbox of a job that never became healthy.
use alpha_exchange.Base.{ℕ, ◌≡◌, refl, ap, ◌∙◌, arith, true, false, List, ◌∷◌, none}
use alpha_exchange.Base.Text.{codes}
use alpha_exchange.Base.Dict.{lookup}
use alpha_exchange.BuildWorker.Containers.{World, stop_container, set_status}
use alpha_exchange.BuildWorker.Pipeline.{
  BuildJob, Environment, wait_healthy, fail, launch, launch_error, sandbox_port, or_return,
  write_status, run_sandbox,
}
use alpha_exchange.BuildWorker.Pipeline.Outcomes.{launched_lem, stop_container-untracked}

run_sandbox-failed :
    (env : Environment) (job : BuildJob) (w : World)
    → launch_error env ≡ none
    → wait_healthy env sandbox_port ≡ false
    → run_sandbox env job w
      ≡ fail env job
          (codes "container did not become healthy")
          (stop_container env.daemon job.submission_id (launch env w))
unfolding run_sandbox
run_sandbox-failed env job w started down = rw (started, down, or_return) refl

fail-containers :
    (env : Environment) (job : BuildJob) (e : List ℕ) (w : World)
    → (fail env job e w).containers ≡ w.containers
unfolding fail write_status set_status
fail-containers env job e w = ground arith

-- Where a sandbox starts and its probe fails, for a submission without a tracked sandbox: the
-- sandbox goes on running, since the stop that the code asks for finds nothing tracked; Docker
-- has what it had before, and this container.
pub run_sandbox-leftover :
    (env : Environment) (job : BuildJob) (w : World)
    → lookup job.submission_id w.active ≡ none
    → launch_error env ≡ none
    → wait_healthy env sandbox_port ≡ false
    → (run_sandbox env job w).containers ≡ record { id = env.new_id; running = true } ∷ w.containers
run_sandbox-leftover env job w fresh started down =
    ap (λ x. x.containers) (run_sandbox-failed env job w started down)
    ∙ fail-containers env job (codes "container did not become healthy") _
    ∙ ap (λ x. (stop_container env.daemon job.submission_id x).containers)
        (launched_lem env w started)
    ∙ ap (λ x. x.containers)
        (stop_container-untracked env.daemon job.submission_id
          (record w { containers = record { id = env.new_id; running = true } ∷ w.containers })
          fresh)
