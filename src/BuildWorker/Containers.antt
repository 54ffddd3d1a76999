-- ===== src/BuildWorker/Containers.antt =====
-- services/build-worker/container_manager.go and cleanup_job.go: the sandboxes that are tracked,
-- and those that Docker has. Docker's containers and images, the table `submissions` and the Redis
-- hashes container:<id> are explicit; Postgres and Redis are configured and answer, but that the
-- query of the cleanup may fail. Which requests
-- Docker refuses is a `Daemon`, and a removal with Force that it accepts takes the object away.
-- The stop before a removal, the logs and the creation times are left out.
pub mod Cleanup
pub mod Pruning
pub mod Tracking
use alpha_exchange.Base.{
  ℕ, ◌+◌, ◌-◌, ltb, leb, if◌then◌else◌, Bool, true, false, not, ◌&&◌, ◌||◌, List, [], ◌∷◌, Option,
  none, some, String, str_eq, total, sort_stable,
}
use alpha_exchange.Base.Text.{codes}
use alpha_exchange.Base.Dict.{Dict, lookup, insert, erase, update}

pub record ContainerInfo : Type 0 where
  pub container_id : String
  pub image_name : String
  pub ip : String
  pub port : ℕ
  pub contestant_id : String

-- The column `submissions.status`, as far as the build worker writes it.
pub data Status : Type 0 where
  pending building ready failed stopped : Status

-- The columns of `submissions` that the build worker reads or writes. An `error_log` is its bytes,
-- NULL where it is empty.
pub record Row : Type 0 where
  pub status : Status
  pub contestant_id : String
  pub error_log : List ℕ
  pub container_id : Option String
  pub container_ip : String
  pub container_port : ℕ

pub record Container : Type 0 where
  pub id : String
  pub running : Bool

pub record Image : Type 0 where
  pub id : String
  pub size : ℕ
  pub created : ℕ

-- Of the hash container:<id>, the field `status`.
pub data HashStatus : Type 0 where
  hash_ready hash_dead : HashStatus

pub record ContainerReady : Type 0 where
  pub submission_id : String
  pub contestant_id : String
  pub ip : String
  pub port : ℕ

-- `containers` and `images` are Docker's, with the label and the reference that the lists ask for.
pub record World : Type 0 where
  pub active : Dict ContainerInfo
  pub rows : Dict Row
  pub hashes : Dict HashStatus
  pub containers : List Container
  pub images : List Image
  pub published : List ContainerReady

-- The requests that Docker accepts.
pub record Daemon : Type 0 where
  pub lists : Bool
  pub inspects : String → Bool
  pub removes : String → Bool
  pub removes_image : String → Bool

unfoldable pub is_running : String → List Container → Bool
is_running id [] = false
is_running id (c ∷ cs) = if str_eq c.id id then c.running else is_running id cs

unfoldable pub drop_container : String → List Container → List Container
drop_container id [] = []
drop_container id (c ∷ cs) =
    let rest = drop_container id cs in if str_eq c.id id then rest else c ∷ rest

unfoldable pub drop_image : String → List Image → List Image
drop_image id [] = []
drop_image id (i ∷ is) = let rest = drop_image id is in if str_eq i.id id then rest else i ∷ rest

unfoldable pub remove_container : Daemon → String → World → World
unfolding drop_container
remove_container d id w =
    if d.removes id then record w { containers = drop_container id w.containers } else w

unfoldable pub remove_image : Daemon → String → World → World
unfolding drop_image
remove_image d id w = if d.removes_image id then record w { images = drop_image id w.images } else w

unfoldable pub set_status : String → Status → List ℕ → World → World
unfolding update
set_status id status error_log w = record w {
  rows = update id (λ r. record r { status = status; error_log = error_log }) w.rows;
}

unfoldable pub track : String → ContainerInfo → World → World
unfolding insert
track submission_id info w = record w { active = insert submission_id info w.active }

-- A stop, once the submission was found. The UPDATE leaves `error_log`.
unfoldable pub stop_tracked : Daemon → String → ContainerInfo → World → World
unfolding remove_container remove_image update erase
stop_tracked d submission_id info w =
    let removed = remove_container d info.container_id w in
    let cleaned =
      if str_eq info.image_name "" then removed else remove_image d info.image_name removed in
    record cleaned {
      active = erase submission_id cleaned.active;
      hashes = erase submission_id cleaned.hashes;
      rows = update submission_id (λ r. record r { status = stopped }) cleaned.rows;
    }

unfoldable pub stop_container : Daemon → String → World → World
unfolding lookup stop_tracked
stop_container d submission_id w = elim (lookup submission_id w.active) [
  | none ↦ w
  | some info ↦ stop_tracked d submission_id info w
]

-- The loop of `StopAll` over a copy of the map.
unfoldable pub stop_each : Daemon → Dict ContainerInfo → World → World
unfolding stop_container
stop_each d [] w = w
stop_each d (entry ∷ rest) w = stop_each d rest (stop_container d entry.0 w)

unfoldable pub stop_all : Daemon → World → World
unfolding stop_each
stop_all d w = stop_each d w.active w

abbrev pub died : List ℕ
died = codes "container died"

unfoldable pub is_alive : Daemon → ContainerInfo → World → Bool
unfolding is_running
is_alive d info w = d.inspects info.container_id && is_running info.container_id w.containers

unfoldable pub mark_dead : String → World → World
unfolding insert erase set_status
mark_dead id w =
    let marked = set_status id failed died w in
    record marked { hashes = insert id hash_dead w.hashes; active = erase id w.active }

unfoldable pub check_one : Daemon → String → ContainerInfo → World → World
unfolding is_alive mark_dead
check_one d id info w = if is_alive d info w then w else mark_dead id w

-- The loop of `checkAll` over a copy of the map.
unfoldable pub check_each : Daemon → Dict ContainerInfo → World → World
unfolding check_one
check_each d [] w = w
check_each d (entry ∷ rest) w = check_each d rest (check_one d entry.0 entry.1 w)

unfoldable pub check_all : Daemon → World → World
unfolding check_each
check_all d w = check_each d w.active w

unfoldable pub is_ready : Status → Bool
is_ready ready = true
is_ready _ = false

-- What the query of `RecoverActive` selects of a row, with the check of the container.
unfoldable pub recovered_info : Daemon → Row → World → Option ContainerInfo
unfolding is_ready is_running
recovered_info d r w = elim r.container_id [
  | none ↦ none
  | some id ↦
      if is_ready r.status && d.inspects id && is_running id w.containers
      then some (record {
        container_id = id;
        image_name = "";
        ip = r.container_ip;
        port = r.container_port;
        contestant_id = r.contestant_id;
      })
      else none
]

unfoldable pub recover_each : Daemon → Dict Row → World → World
unfolding recovered_info track
recover_each d [] w = w
recover_each d (entry ∷ rest) w =
    recover_each d rest
      (elim (recovered_info d entry.1 w) [ none ↦ w | some info ↦ track entry.0 info w ])

unfoldable pub recover_active : Daemon → World → World
unfolding recover_each
recover_active d w = recover_each d w.rows w

unfoldable pub is_tracked : String → Dict ContainerInfo → Bool
is_tracked id [] = false
is_tracked id (entry ∷ rest) = if str_eq entry.1.container_id id then true else is_tracked id rest

-- What the query of `cleanupOrphans` selects.
unfoldable pub is_db_tracked : String → Dict Row → Bool
unfolding is_ready
is_db_tracked id [] = false
is_db_tracked id (entry ∷ rest) =
    let here : Bool = elim entry.1.container_id [ none ↦ false | some cid ↦ str_eq cid id ] in
    if is_ready entry.1.status && here then true else is_db_tracked id rest

unfoldable pub clean_one : Daemon → Bool → String → World → World
unfolding is_tracked is_db_tracked remove_container
clean_one d selects id w =
    if is_tracked id w.active || (selects && is_db_tracked id w.rows)
    then w
    else remove_container d id w

-- The loop of `cleanupOrphans` over Docker's list. The sets of tracked ids are read before it;
-- it changes neither of what they come from.
unfoldable pub clean_each : Daemon → Bool → List Container → World → World
unfolding clean_one
clean_each d selects [] w = w
clean_each d selects (c ∷ cs) w = clean_each d selects cs (clean_one d selects c.id w)

-- `selects` is whether the query answers; where it fails no id stands for the database.
unfoldable pub cleanup_orphans : Daemon → Bool → World → World
unfolding clean_each
cleanup_orphans d selects w = if d.lists then clean_each d selects w.containers w else w

abbrev pub ten_gb : ℕ
ten_gb = 10_737_418_240

abbrev pub five_gb : ℕ
five_gb = 5_368_709_120

-- The loop of `pruneImages`: the images that stay, and `total`, an int64 that cannot overflow.
unfoldable pub prune_each : Daemon → List Image → ℕ → List Image × ℕ
prune_each d [] total = ([], total)
prune_each d (i ∷ is) total =
    let left = if d.removes_image i.id then total - i.size else total in
    let (kept, end) = prune_each d is left in
    if leb total five_gb
    then (i ∷ is, total)
    else if d.removes_image i.id
    then (kept, end)
    else (i ∷ kept, end)

unfoldable pub older : Image → Image → Bool
older i j = ltb i.created j.created

-- `sort.Slice` orders images of one time in a way of its own; the stable order stands for it.
unfoldable pub prune_images : Daemon → World → World
unfolding prune_each older sort_stable
prune_images d w =
    let sum = total (λ (i : Image). i.size) w.images in
    if d.lists
    then (if leb sum ten_gb
        then w
        else record w { images = (prune_each d (sort_stable older w.images) sum).0 })
    else w
