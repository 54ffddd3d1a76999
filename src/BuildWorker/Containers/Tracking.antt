-- ===== src/BuildWorker/Containers/Tracking.antt =====
-- What the container manager tracks after a health check.
use alpha_exchange.Base.{
  ◌≡◌, refl, ap, if◌then◌else◌, Bool, true, false, not, ◌&&◌, List, [], ◌∷◌, Option, none, some,
  String, str_eq, arith,
}
use mathlib.Core.Option
use alpha_exchange.Base.Dict.{Dict, lookup, lookup-erase, lookup-update}
use alpha_exchange.BuildWorker.Containers.{
  World, Daemon, Container, ContainerInfo, Row, is_running, is_alive, mark_dead, set_status,
  check_one, check_each, check_all, died, failed,
}

-- The submission is tracked with a container that does not run, or that Docker does not show.
unfoldable pub has_dead : Daemon → List Container → String → Dict ContainerInfo → Bool
has_dead d cs id [] = false
has_dead d cs id (entry ∷ rest) =
    if str_eq entry.0 id
      && not (d.inspects entry.1.container_id && is_running entry.1.container_id cs)
    then true
    else has_dead d cs id rest

check_one-containers :
    (d : Daemon) (id : String) (info : ContainerInfo) (w : World)
    → (check_one d id info w).containers ≡ w.containers
unfolding check_one mark_dead set_status
check_one-containers d id info w = ground arith

check_one-active :
    (d : Daemon) (id other : String) (info : ContainerInfo) (w : World)
    → lookup other (check_one d id info w).active ≡ (
        if str_eq id other
          && not (d.inspects info.container_id && is_running info.container_id w.containers)
        then none
        else lookup other w.active)
unfolding check_one is_alive mark_dead set_status
check_one-active d id other info w = ground (arith, lookup-erase id other w.active)

abbrev as_died : Row → Row
as_died r = record r { status = failed; error_log = died }

check_one-rows :
    (d : Daemon) (id other : String) (info : ContainerInfo) (w : World)
    → lookup other (check_one d id info w).rows ≡ (
        if str_eq id other
          && not (d.inspects info.container_id && is_running info.container_id w.containers)
        then Option.map as_died (lookup other w.rows)
        else lookup other w.rows)
unfolding check_one is_alive mark_dead set_status
check_one-rows d id other info w = ground (arith, lookup-update id other as_died w.rows)

as_died_twice : (o : Option Row) → Option.map as_died (Option.map as_died o) ≡ Option.map as_died o
as_died_twice none = refl
as_died_twice (some r) = refl

check_each-lem :
    (d : Daemon) (entries : Dict ContainerInfo) (id : String) (w : World)
    → (lookup id (check_each d entries w).active
        ≡ (if has_dead d w.containers id entries then none else lookup id w.active))
      × (lookup id (check_each d entries w).rows ≡ (
          if has_dead d w.containers id entries
          then Option.map as_died (lookup id w.rows)
          else lookup id w.rows))
unfolding check_each has_dead
check_each-lem d [] id w = (refl, refl)
check_each-lem d (entry ∷ rest) id w =
    let next = check_one d entry.0 entry.1 w in
    let ih = check_each-lem d rest id next in
    let same = check_one-containers d entry.0 entry.1 w in
    let active = check_one-active d entry.0 id entry.1 w in
    let rows = check_one-rows d entry.0 id entry.1 w in
    let dead = ap (λ cs. has_dead d cs id rest) same in
    (
      ground (arith, ih.0, active, dead),
      ground (arith, ih.1, rows, dead, as_died_twice (lookup id w.rows)),
    )

-- After a health check, for each submission: where it was tracked with a container that does not
-- run or that Docker does not show, it is tracked no more and its row, if there is one, is failed
-- with the text "container died"; elsewhere both are as they were.
pub check_all-lem :
    (d : Daemon) (id : String) (w : World)
    → (lookup id (check_all d w).active
        ≡ (if has_dead d w.containers id w.active then none else lookup id w.active))
      × (lookup id (check_all d w).rows ≡ (
          if has_dead d w.containers id w.active
          then Option.map as_died (lookup id w.rows)
          else lookup id w.rows))
unfolding check_all
check_all-lem d id w = check_each-lem d w.active id w
