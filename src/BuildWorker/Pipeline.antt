-- ===== src/BuildWorker/Pipeline.antt =====
-- services/build-worker/worker.go, with the calls of sandbox.go and build_strategies.go: the life
-- of one build job over the world of BuildWorker.Containers. What the file system, MinIO, Docker
-- and the scanner answer, and which requests to Postgres, Redis and Kafka succeed whose errors are
-- only logged or ignored, is an `Environment`. The producer, Redis and Postgres are configured;
-- logs and the resource monitor are left out. `unzip` is taken up to the paths of its entries.
pub mod Leftover
pub mod Outcomes
pub mod Probing
use alpha_exchange.Base.{
  ℕ, zero, suc, ◌+◌, ◌-◌, ◌==◌, ltb, leb, if◌then◌else◌, Bool, true, false, List, [], ◌∷◌, ◌++◌,
  Option, none, some, String, length,
}
use alpha_exchange.Base.Text.{codes}
use alpha_exchange.BuildWorker.Containers.{
  World, Daemon, Container, ContainerInfo, Row, HashStatus, hash_ready, Status, pending, building,
  ready, failed, set_status, track, stop_container,
}
use alpha_exchange.Base.Dict.{insert, update}
use alpha_exchange.Security.{File, BuildError, check_zip_bomb}

pub record BuildJob : Type 0 where
  pub submission_id : String
  pub contestant_id : String

-- A text is its bytes. `s[:n]`.
unfoldable pub take : ℕ → List ℕ → List ℕ
take zero s = []
take (suc n) [] = []
take (suc n) (c ∷ s) = c ∷ take n s

unfoldable pub truncate : List ℕ → ℕ → List ℕ
unfolding take
truncate s n = if leb (length s) n then s else take n s

-- An upload: a bare .cpp file, or an archive with what an extraction of each entry says.
pub data Upload : Type 0 where
  bare_cpp : Upload
  archive : List File → Upload

-- An error is its text.
pub record Environment : Type 0 where
  pub daemon : Daemon
  pub mkdir_error : Option (List ℕ)
  pub mkdir_src_error : Option (List ℕ)
  pub fetch_error : Option (List ℕ)  -- GetObject, Create and Copy
  pub upload : Upload
  pub cpp_error : Option (List ℕ)
  pub open_error : Option (List ℕ)
  pub bomb_text : BuildError → List ℕ
  pub entry_error : File → Option (List ℕ)
  pub build_error : Option (List ℕ)  -- the logs of a build that fails
  pub scan_critical : Option (List ℕ)  -- the output of a scan with CRITICAL findings
  pub create_error : Option (List ℕ)
  pub start_error : Option (List ℕ)
  pub inspect_error : Option (List ℕ)
  pub image_name : String
  pub new_id : String
  pub new_ip : String
  pub clock : ℕ → ℕ  -- the time, in nanoseconds, at the start of each round of the probe
  pub healthy : ℕ → Bool  -- whether a round's request is answered by 200
  pub cancelled : ℕ → Bool  -- whether the context ends in a round's wait
  pub building_ok : Bool  -- the UPDATE to building succeeds
  pub failed_ok : Bool  -- the UPDATE to failed succeeds, as it does not once the context has ended
  pub located_ok : Bool  -- `setContainerInfo` succeeds
  pub ready_ok : Bool  -- the UPDATE to ready succeeds
  pub hash_ok : Bool  -- HSET succeeds
  pub produced_ok : Bool  -- Produce succeeds

-- The loop of `unzip`.
unfoldable pub extract_entries : (File → Option (List ℕ)) → List File → Option (List ℕ)
extract_entries entry_error [] = none
extract_entries entry_error (f ∷ fs) = elim (entry_error f) [
  | some e ↦ some e
  | none ↦ extract_entries entry_error fs
]

unfoldable pub unzip : Environment → List File → Option (List ℕ)
unfolding extract_entries check_zip_bomb
unzip env files = elim env.open_error [
  | some e ↦ some e
  | none ↦ elim (check_zip_bomb files) [
    | some e ↦ some (env.bomb_text e)
    | none ↦ extract_entries env.entry_error files
  ]
]

unfoldable pub extract : Environment → Upload → Option (List ℕ)
unfolding unzip
extract env bare_cpp = env.cpp_error
extract env (archive files) = unzip env files

unfoldable pub download_and_extract : Environment → Option (List ℕ)
unfolding extract
download_and_extract env = elim env.fetch_error [ some e ↦ some e | none ↦ extract env env.upload ]

-- The loop of `waitHealthy`, with the round and the fuel.
unfoldable pub probe : Environment → ℕ → ℕ → ℕ → Option Bool
probe env deadline round zero = none
probe env deadline round (suc fuel) =
    let rest = probe env deadline (suc round) fuel in
    if ltb (env.clock round) deadline
    then (if env.healthy round then some true else if env.cancelled round then some false else rest)
    else some false

-- Thirty seconds, in rounds of two seconds at least (`Probing`).
abbrev pub probe_fuel : ℕ
probe_fuel = 16

unfoldable pub wait_healthy : Environment → ℕ → Bool
unfolding probe
wait_healthy env port =
    let answer : Bool = elim (probe env (env.clock 0 + 30_000_000_000) 0 probe_fuel) [
      | some b ↦ b
      | none ↦ false
    ] in
    if port == 0 then false else answer

-- `setStatus`: where the UPDATE fails, nothing changes.
unfoldable pub write_status : Bool → String → Status → List ℕ → World → World
unfolding set_status
write_status false id status error_log w = w
write_status true id status error_log w = set_status id status error_log w

unfoldable pub fail : Environment → BuildJob → List ℕ → World → World
unfolding write_status
fail env job reason w = write_status env.failed_ok job.submission_id failed reason w

-- The effects on Docker of `launchSandbox`: a created container stays where the start fails.
unfoldable pub launch : Environment → World → World
launch env w = elim env.create_error [
  | some e ↦ w
  | none ↦ record w {
    containers =
        record { id = env.new_id; running = elim env.start_error [ some e ↦ false | none ↦ true ] }
        ∷ w.containers;
  }
]

-- The error of `launchSandbox`.
unfoldable pub launch_error : Environment → Option (List ℕ)
launch_error env = elim env.create_error [
  | some e ↦ some e
  | none ↦ elim env.start_error [ some e ↦ some e | none ↦ env.inspect_error ]
]

abbrev pub sandbox_port : ℕ
sandbox_port = 8_080

unfoldable pub set_container_info : Bool → String → String → ℕ → String → World → World
unfolding update
set_container_info false id ip port container_id w = w
set_container_info true id ip port container_id w = record w {
  rows =
      update id
        (λ r. record r {
          container_ip = ip;
          container_port = port;
          container_id = some container_id;
        })
        w.rows;
}

unfoldable pub set_hash : Bool → String → World → World
unfolding insert
set_hash false id w = w
set_hash true id w = record w { hashes = insert id hash_ready w.hashes }

unfoldable pub publish_ready : Bool → BuildJob → String → ℕ → World → World
publish_ready false job ip port w = w
publish_ready true job ip port w = record w {
  published =
      w.published
      ++ (record {
        submission_id = job.submission_id;
        contestant_id = job.contestant_id;
        ip = ip;
        port = port;
      }
          ∷ []);
}

-- Steps 8 and 9, which go on where a request fails.
unfoldable pub make_ready : Environment → BuildJob → World → World
unfolding write_status set_container_info set_hash track publish_ready
make_ready env job w =
    let id = job.submission_id in
    let located = set_container_info env.located_ok id env.new_ip sandbox_port env.new_id w in
    let hashed = set_hash env.hash_ok id (write_status env.ready_ok id ready [] located) in
    publish_ready env.produced_ok job env.new_ip sandbox_port (
      track id
        (record {
          container_id = env.new_id;
          image_name = env.image_name;
          ip = env.new_ip;
          port = sandbox_port;
          contestant_id = job.contestant_id;
        })
        hashed)

-- An early return: `handle` where there is an error, `next` where there is none.
unfoldable pub or_return : Option (List ℕ) → (List ℕ → World) → World → World
or_return none handle next = next
or_return (some e) handle next = handle e

-- Steps 6 to 9.
unfoldable pub run_sandbox : Environment → BuildJob → World → World
unfolding launch launch_error fail wait_healthy stop_container make_ready or_return
run_sandbox env job w =
    let launched = launch env w in
    or_return (launch_error env) (λ e. fail env job (codes "sandbox launch failed: " ++ e) launched)
      (if wait_healthy env sandbox_port
        then make_ready env job launched
        else fail env job (codes "container did not become healthy")
            (stop_container env.daemon job.submission_id launched))

-- The text before the scanner's output, with its line feed.
abbrev pub critical_text : List ℕ
critical_text = codes "security_scan_failed: CRITICAL vulnerabilities found" ++ 10 ∷ []

-- Steps 4 and 5.
unfoldable pub build : Environment → BuildJob → World → World
unfolding fail truncate run_sandbox or_return
build env job w =
    or_return env.build_error (λ logs. fail env job (truncate logs 10_240) w)
      (or_return env.scan_critical
        (λ output. fail env job (critical_text ++ truncate output 4_096) w) (run_sandbox env job w))

-- Steps 2 and 3.
unfoldable pub prepare : Environment → BuildJob → World → World
unfolding fail download_and_extract build or_return
prepare env job w =
    or_return env.mkdir_error (λ e. fail env job (codes "could not create workdir: " ++ e) w)
      (or_return env.mkdir_src_error (λ e. fail env job e w)
        (or_return (download_and_extract env)
          (λ e. fail env job (codes "download/extract failed: " ++ e) w) (build env job w)))

unfoldable pub process_build : Environment → BuildJob → World → World
unfolding write_status prepare
process_build env job w =
    prepare env job (write_status env.building_ok job.submission_id building [] w)
