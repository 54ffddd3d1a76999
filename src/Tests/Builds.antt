-- ===== src/Tests/Builds.antt =====
-- The build worker, the reorder buffer and the pipeline at concrete inputs.
use alpha_exchange.Base.{
  ℕ, ◌+◌, ◌*◌, ◌==◌, ◌≡◌, ◌≢◌, refl, true, false, not, ◌&&◌, ◌||◌, [], ◌∷◌, none, arith, Ascending,
  with_key,
}
use alpha_exchange.Base.Text.{codes}
use alpha_exchange.Base.Dict.{lookup}
use alpha_exchange.BuildWorker.Containers.{World, Daemon, Row, building, cleanup_orphans}
use alpha_exchange.BuildWorker.Containers.Cleanup.{
  has_container, is_kept, cleanup_orphans-containers,
}
use alpha_exchange.BuildWorker.Pipeline.{
  BuildJob, Environment, bare_cpp, probe, probe_fuel, wait_healthy, launch_error, sandbox_port,
  run_sandbox, process_build,
}
use alpha_exchange.BuildWorker.Pipeline.Outcomes.{Concludes, reason, process_build-Concludes}
use alpha_exchange.BuildWorker.Pipeline.Probing.{Waits, IsUp, wait_healthy_ends}
use alpha_exchange.BuildWorker.Pipeline.Leftover.{run_sandbox-leftover}
use alpha_exchange.Tests.Ingester.{sell, buy}
use alpha_exchange.Ingester.Reorder.{new_reorder_buffer, flush}
use alpha_exchange.Ingester.Reorder.Batches.{sequence, batch_of, add_all, flush-batch_lem}
use alpha_exchange.Ingester.Pipeline.{new_pipeline, process_batch}
use alpha_exchange.Ingester.Pipeline.Counting.{events_of, orders_of, process_batch-orders_of}

abbrev docker : Daemon
docker = record {
  lists = true;
  inspects = λ id. true;
  removes = λ id. true;
  removes_image = λ id. true;
}

-- The probe is answered in its second round.
abbrev calm : Environment
calm = record {
  daemon = docker;
  mkdir_error = none;
  mkdir_src_error = none;
  fetch_error = none;
  upload = bare_cpp;
  cpp_error = none;
  open_error = none;
  bomb_text = λ e. codes "bomb";
  entry_error = λ f. none;
  build_error = none;
  scan_critical = none;
  create_error = none;
  start_error = none;
  inspect_error = none;
  image_name = "image";
  new_id = "box";
  new_ip = "10.0.0.2";
  clock = λ round. round * 2_000_000_000;
  healthy = λ round. round == 1;
  cancelled = λ round. false;
  building_ok = true;
  failed_ok = true;
  located_ok = true;
  ready_ok = true;
  hash_ok = true;
  produced_ok = true;
}

-- No round is answered.
abbrev silent : Environment
silent = record calm { healthy = λ round. false }

abbrev job : BuildJob
job = record { submission_id = "s"; contestant_id = "c" }

abbrev queued : Row
queued = record {
  status = building;
  contestant_id = "c";
  error_log = [];
  container_id = none;
  container_ip = "";
  container_port = 0;
}

abbrev idle : World
idle = record {
  active = [];
  rows = ("s", queued) ∷ [];
  hashes = [];
  containers = record { id = "old"; running = true } ∷ [];
  images = [];
  published = [];
}

process_build-Concludes_example :
    Concludes calm job idle (process_build calm job idle) (reason calm)
unfolding lookup
process_build-Concludes_example =
    process_build-Concludes calm job refl refl refl refl refl idle refl

wait_healthy_ends_example :
    (probe calm (0 + 30_000_000_000) 0 probe_fuel ≢ none)
    × (wait_healthy calm sandbox_port ≡ true → IsUp calm (0 + 30_000_000_000))
unfolding Waits
wait_healthy_ends_example = wait_healthy_ends calm sandbox_port (λ round. omega arith)

run_sandbox-leftover_example :
    (run_sandbox silent job idle).containers
    ≡ record { id = "box"; running = true } ∷ record { id = "old"; running = true } ∷ []
unfolding lookup launch_error wait_healthy probe
run_sandbox-leftover_example = run_sandbox-leftover silent job idle refl refl refl

cleanup_orphans-containers_example :
    has_container "old" (cleanup_orphans docker false idle).containers
    ≡ (has_container "old" idle.containers && (is_kept false "old" idle || not true))
cleanup_orphans-containers_example = cleanup_orphans-containers docker false "old" idle refl

flush-batch_lem_example :
    let (left, out) = flush (add_all (buy ∷ sell ∷ []) (flush new_reorder_buffer).0) in
    (left.pending ≡ [])
    × Ascending sequence (batch_of out)
    × ((k : ℕ) → with_key sequence k (batch_of out) ≡ with_key sequence k (buy ∷ sell ∷ []))
flush-batch_lem_example = flush-batch_lem new_reorder_buffer (buy ∷ sell ∷ [])

process_batch-orders_of_example :
    orders_of "c" (process_batch 7 (sell ∷ buy ∷ []) new_pipeline).aggs
    ≡ orders_of "c" new_pipeline.aggs + events_of "c" (sell ∷ buy ∷ [])
process_batch-orders_of_example = process_batch-orders_of 7 "c" (sell ∷ buy ∷ []) new_pipeline
