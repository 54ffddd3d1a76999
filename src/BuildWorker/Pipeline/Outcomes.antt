-- ===== src/BuildWorker/Pipeline/Outcomes.antt =====
-- What becomes of a build job.
use alpha_exchange.Base.{
  ℕ, ◌≡◌, refl, sym, ap, subst, ◌∙◌, if◌then◌else◌, Bool, true, false, List, [], ◌∷◌, ◌++◌, Option,
  none, some, String, arith, Option-cases, inl, inr,
}
use alpha_exchange.Base.Text.{codes}
use alpha_exchange.Base.Dict.{lookup, lookup-update_self, lookup-insert_self}
use alpha_exchange.BuildWorker.Containers.{
  World, Daemon, Container, ContainerInfo, Row, hash_ready, building, ready, failed, set_status,
  track, stop_container,
}
use alpha_exchange.BuildWorker.Pipeline.{
  BuildJob, Environment, truncate, download_and_extract, wait_healthy, fail, write_status,
  set_container_info, set_hash, publish_ready, launch, launch_error, sandbox_port, make_ready,
  or_return, run_sandbox, critical_text, build, prepare, process_build,
}

-- The first error, its text made by a function, or else the later one.
abbrev first : Option (List ℕ) → (List ℕ → List ℕ) → Option (List ℕ) → Option (List ℕ)
first (some e) text later = some (text e)
first none text later = later

abbrev unhealthy : Bool → Option (List ℕ)
unhealthy true = none
unhealthy false = some (codes "container did not become healthy")

pub sandbox_reason : Environment → Option (List ℕ)
sandbox_reason env =
    first (launch_error env) (λ e. codes "sandbox launch failed: " ++ e)
      (unhealthy (wait_healthy env sandbox_port))

-- The reason for which a job fails: that of the first step that goes wrong.
pub reason : Environment → Option (List ℕ)
unfolding sandbox_reason
reason env =
    first env.mkdir_error (λ e. codes "could not create workdir: " ++ e)
      (first env.mkdir_src_error (λ e. e)
        (first (download_and_extract env) (λ e. codes "download/extract failed: " ++ e)
          (first env.build_error (λ e. truncate e 10_240)
            (first env.scan_critical (λ e. critical_text ++ truncate e 4_096)
              (sandbox_reason env)))))

-- A job that failed: its row says so, and nothing of it is tracked or published.
pub record Failed (job : BuildJob) (e : List ℕ) (before after : World) : Type 0 where
  pub row :
      (r : Row)
      → lookup job.submission_id before.rows ≡ some r
      → lookup job.submission_id after.rows ≡ some (record r { status = failed; error_log = e })
  pub active : after.active ≡ before.active
  pub hashes : after.hashes ≡ before.hashes
  pub published : after.published ≡ before.published

pub info_of : Environment → BuildJob → ContainerInfo
info_of env job = record {
  container_id = env.new_id;
  image_name = env.image_name;
  ip = env.new_ip;
  port = sandbox_port;
  contestant_id = job.contestant_id;
}

-- A job that is ready: its row names the sandbox, which is tracked and published once.
pub record Ready (env : Environment) (job : BuildJob) (before after : World) : Type 0 where
  pub row :
      (r : Row)
      → lookup job.submission_id before.rows ≡ some r
      → lookup job.submission_id after.rows
        ≡ some (record r {
          status = ready;
          error_log = [];
          container_ip = env.new_ip;
          container_port = sandbox_port;
          container_id = some env.new_id;
        })
  pub active : lookup job.submission_id after.active ≡ some (info_of env job)
  pub hash : lookup job.submission_id after.hashes ≡ some hash_ready
  pub published :
      after.published
      ≡ before.published
        ++ (record {
          submission_id = job.submission_id;
          contestant_id = job.contestant_id;
          ip = env.new_ip;
          port = sandbox_port;
        }
            ∷ [])
  pub containers : after.containers ≡ record { id = env.new_id; running = true } ∷ before.containers

-- Whatever containers there are.
fail-Failed :
    (failed_ok : Bool) (job : BuildJob) (e : List ℕ) (w : World) (cs : List Container)
    → failed_ok ≡ true
    → Failed job e w
        (write_status failed_ok job.submission_id failed e (record w { containers = cs }))
unfolding write_status set_status
fail-Failed failed_ok job e w cs ok = rw ok (record {
  row = λ r q. lookup-update_self job.submission_id _ r w.rows q;
  active = refl;
  hashes = refl;
  published = refl;
})

abbrev pub Concludes : Environment → BuildJob → World → World → Option (List ℕ) → Type 0
Concludes env job before after none = Ready env job before after
Concludes env job before after (some e) = Failed job e before after

launch-frame :
    (env : Environment) (w : World)
    → launch env w ≡ record w { containers = (launch env w).containers }
unfolding launch
launch-frame env w = elim (Option-cases env.create_error) [
  | inl none_yet ↦ rw (none_yet, launch) refl
  | inr (e, q) ↦ rw (q, launch) refl
]

pub launched_lem :
    (env : Environment) (w : World)
    → launch_error env ≡ none
    → launch env w
      ≡ record w { containers = record { id = env.new_id; running = true } ∷ w.containers }
unfolding launch launch_error
launched_lem env w q = ground (arith, q)

-- Where the requests of steps 8 and 9 succeed.
ready_chain :
    (located hashed readied produced : Bool) (env : Environment) (job : BuildJob) (w : World)
    → located ≡ true
    → readied ≡ true
    → hashed ≡ true
    → produced ≡ true
    → let id = job.submission_id in
      let started : World = record w {
        containers = record { id = env.new_id; running = true } ∷ w.containers;
      } in
      Ready env job w (
        publish_ready produced job env.new_ip sandbox_port (
          track id (info_of env job) (
            set_hash hashed id (
              write_status readied id ready []
                (set_container_info located id env.new_ip sandbox_port env.new_id started)))))
unfolding publish_ready set_hash write_status set_container_info set_status track info_of
ready_chain located hashed readied produced env job w l r h p =
    rw (l, r, h, p)
      (record {
        row = λ row q.
            lookup-update_self job.submission_id _ _ _
              (lookup-update_self job.submission_id _ row w.rows q);
        active = lookup-insert_self job.submission_id (info_of env job) w.active;
        hash = lookup-insert_self job.submission_id hash_ready w.hashes;
        published = refl;
        containers = refl;
      })

make_ready-Ready :
    (env : Environment) (job : BuildJob) (w : World)
    → env.located_ok ≡ true
    → env.ready_ok ≡ true
    → env.hash_ok ≡ true
    → env.produced_ok ≡ true
    → Ready env job w (
        make_ready env job
          (record w { containers = record { id = env.new_id; running = true } ∷ w.containers }))
unfolding make_ready info_of
make_ready-Ready env job w =
    ready_chain env.located_ok env.hash_ok env.ready_ok env.produced_ok env job w

pub stop_container-untracked :
    (d : Daemon) (id : String) (w : World) → lookup id w.active ≡ none → stop_container d id w ≡ w
unfolding stop_container
stop_container-untracked d id w q = rw (q, stop_container) refl

-- The requests succeed whose errors the code ignores: the UPDATE to failed, and those of steps 8
-- and 9.
module _ (env : Environment) (job : BuildJob) (failed_ok : env.failed_ok ≡ true)
    (located_ok : env.located_ok ≡ true) (ready_ok : env.ready_ok ≡ true)
    (hash_ok : env.hash_ok ≡ true) (produced_ok : env.produced_ok ≡ true) where
  here-Failed :
      (w : World) (e : List ℕ) (cs : List Container)
      → Failed job e w (fail env job e (record w { containers = cs }))
  unfolding fail
  here-Failed w e cs = fail-Failed env.failed_ok job e w cs failed_ok

  launched-Failed : (w : World) (e : List ℕ) → Failed job e w (fail env job e (launch env w))
  launched-Failed w e =
      subst (λ x. Failed job e w (fail env job e x)) (sym (launch-frame env w))
        (here-Failed w e (launch env w).containers)

  unhealthy-Failed :
      (w : World) (e : List ℕ)
      → lookup job.submission_id w.active ≡ none
      → Failed job e w (fail env job e (stop_container env.daemon job.submission_id (launch env w)))
  unhealthy-Failed w e fresh =
      subst (λ x. Failed job e w (fail env job e x))
        (sym (
          stop_container-untracked env.daemon job.submission_id (launch env w)
            (ap (λ x. lookup job.submission_id x.active) (launch-frame env w) ∙ fresh)))
        (launched-Failed w e)

  probed-Concludes :
      (w : World) (b : Bool)
      → lookup job.submission_id w.active ≡ none
      → launch_error env ≡ none
      → Concludes env job w
          (if b
            then make_ready env job (launch env w)
            else fail env job
                (codes "container did not become healthy")
                (stop_container env.daemon job.submission_id (launch env w)))
          (unhealthy b)
  probed-Concludes w true fresh started =
      subst (λ x. Ready env job w (make_ready env job x)) (sym (launched_lem env w started))
        (make_ready-Ready env job w located_ok ready_ok hash_ok produced_ok)
  probed-Concludes w false fresh started =
      unhealthy-Failed w (codes "container did not become healthy") fresh

  or_return-Concludes :
      (w next : World) (o later : Option (List ℕ)) (text : List ℕ → List ℕ)
      (handle : List ℕ → World)
      → ((e : List ℕ) → Failed job (text e) w (handle e))
      → (o ≡ none → Concludes env job w next later)
      → Concludes env job w (or_return o handle next) (first o text later)
  unfolding or_return
  or_return-Concludes w next none later text handle bad k = k refl
  or_return-Concludes w next (some e) later text handle bad k = bad e

  run_sandbox-Concludes :
      (w : World)
      → lookup job.submission_id w.active ≡ none
      → Concludes env job w (run_sandbox env job w) (sandbox_reason env)
  unfolding run_sandbox sandbox_reason
  run_sandbox-Concludes w fresh =
      or_return-Concludes w _ (launch_error env) _ _ _
        (λ e. launched-Failed w (codes "sandbox launch failed: " ++ e))
        (probed-Concludes w (wait_healthy env sandbox_port) fresh)

  prepare-Concludes :
      (w : World)
      → lookup job.submission_id w.active ≡ none
      → Concludes env job w (prepare env job w) (reason env)
  unfolding prepare build reason
  prepare-Concludes w fresh =
      let fails = λ (e : List ℕ). here-Failed w e w.containers in
      or_return-Concludes w _ env.mkdir_error _ _ _
        (λ e. fails (codes "could not create workdir: " ++ e))
        (λ _.
          or_return-Concludes w _ env.mkdir_src_error _ (λ e. e) _ (λ e. fails e)
            (λ _.
              or_return-Concludes w _ (download_and_extract env) _ _ _
                (λ e. fails (codes "download/extract failed: " ++ e))
                (λ _.
                  or_return-Concludes w _ env.build_error _ _ _ (λ e. fails (truncate e 10_240))
                    (λ _.
                      or_return-Concludes w _ env.scan_critical _ _ _
                        (λ e. fails (critical_text ++ truncate e 4_096))
                        (λ _. run_sandbox-Concludes w fresh)))))

  started-Concludes :
      (built : Bool) (w after : World) (o : Option (List ℕ))
      → Concludes env job (write_status built job.submission_id building [] w) after o
      → Concludes env job w after o
  unfolding write_status set_status
  started-Concludes false w after o k = k
  started-Concludes true w after none k = record {
    row = λ r q.
        k.row (record r { status = building; error_log = [] })
          (lookup-update_self job.submission_id _ r w.rows q);
    active = k.active;
    hash = k.hash;
    published = k.published;
    containers = k.containers;
  }
  started-Concludes true w after (some e) k = record {
    row = λ r q.
        k.row (record r { status = building; error_log = [] })
          (lookup-update_self job.submission_id _ r w.rows q);
    active = k.active;
    hashes = k.hashes;
    published = k.published;
  }

  untouched :
      (built : Bool) (w : World)
      → (write_status built job.submission_id building [] w).active ≡ w.active
  unfolding write_status set_status
  untouched false w = refl
  untouched true w = refl

  -- A build job whose submission has no tracked sandbox, and for which the UPDATE to failed and the
  -- requests of steps 8 and 9 (two UPDATEs, HSET, Produce) succeed, ends in one of two ways. Where
  -- no step goes wrong, its row, if it has one, is ready with the new sandbox, which is tracked,
  -- runs, and is published once. Otherwise its row, if it has one, is failed with the reason of the
  -- first step that goes wrong, and the tracked sandboxes, the Redis hashes and the published events
  -- are what they were.
  pub process_build-Concludes :
      (w : World)
      → lookup job.submission_id w.active ≡ none
      → Concludes env job w (process_build env job w) (reason env)
  unfolding process_build
  process_build-Concludes w fresh = started-Concludes env.building_ok w _ (reason env) (
      prepare-Concludes _
        (ap (λ a. lookup job.submission_id a) (untouched env.building_ok w) ∙ fresh))
