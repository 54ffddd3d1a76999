-- ===== src/BuildWorker/Containers/Cleanup.antt =====
-- What the cleanup job takes away.
use alpha_exchange.Base.{
  ◌≡◌, refl, ◌∙◌, if◌then◌else◌, Bool, true, false, not, ◌&&◌, ◌||◌, List, [], ◌∷◌, String, str_eq,
  eq_iff, arith, Bool-cases, inl, inr,
}
use alpha_exchange.BuildWorker.Containers.{
  World, Daemon, Container, drop_container, remove_container, is_tracked, is_db_tracked, clean_one,
  clean_each, cleanup_orphans,
}

pub has_container : String → List Container → Bool
has_container id [] = false
has_container id (c ∷ cs) = if str_eq c.id id then true else has_container id cs

has_container-drop :
    (id other : String) (cs : List Container)
    → has_container other (drop_container id cs)
      ≡ (if str_eq id other then false else has_container other cs)
unfolding has_container drop_container
has_container-drop id other [] = ground arith
has_container-drop id other (c ∷ cs) =
    ground
      (arith, has_container-drop id other cs, eq_iff c.id id, eq_iff c.id other, eq_iff id other)

-- A container that a tracked submission names, or a ready row where the query answers.
pub is_kept : Bool → String → World → Bool
is_kept selects id w = is_tracked id w.active || (selects && is_db_tracked id w.rows)

clean_one-containers :
    (d : Daemon) (selects : Bool) (id other : String) (w : World)
    → has_container other (clean_one d selects id w).containers ≡ (
        if str_eq id other && not (is_kept selects id w) && d.removes id
        then false
        else has_container other w.containers)
unfolding clean_one is_kept remove_container
clean_one-containers d selects id other w = ground (arith, has_container-drop id other w.containers)

clean_one-is_kept :
    (d : Daemon) (selects : Bool) (id other : String) (w : World)
    → is_kept selects other (clean_one d selects id w) ≡ is_kept selects other w
unfolding clean_one is_kept remove_container
clean_one-is_kept d selects id other w = ground arith

clean_each-lem :
    (d : Daemon) (selects : Bool) (cs : List Container) (id : String) (w : World)
    → has_container id (clean_each d selects cs w).containers ≡ (
        if has_container id cs && not (is_kept selects id w) && d.removes id
        then false
        else has_container id w.containers)
unfolding clean_each has_container
clean_each-lem d selects [] id w = refl
clean_each-lem d selects (c ∷ cs) id w = elim (Bool-cases (str_eq c.id id)) [
  | inl e ↦ ground (
    arith,
    e,
    (eq_iff c.id id).0 e,
    clean_each-lem d selects cs id (clean_one d selects c.id w),
    clean_one-containers d selects c.id id w,
    clean_one-is_kept d selects c.id id w,
  )
  | inr e ↦ ground (
    arith,
    e,
    clean_each-lem d selects cs id (clean_one d selects c.id w),
    clean_one-containers d selects c.id id w,
    clean_one-is_kept d selects c.id id w,
  )
]

-- Where Docker lists its containers: after the cleanup it has a contestant's container exactly if
-- it had it before, and a tracked submission names it, or the query answered and a ready row names
-- it, or Docker refuses the removal. So where the query fails, a container that only a ready row
-- names is removed, as far as Docker accepts that.
pub cleanup_orphans-containers :
    (d : Daemon) (selects : Bool) (id : String) (w : World)
    → d.lists ≡ true
    → has_container id (cleanup_orphans d selects w).containers
      ≡ (has_container id w.containers && (is_kept selects id w || not (d.removes id)))
unfolding cleanup_orphans
cleanup_orphans-containers d selects id w up =
    rw (up) (clean_each-lem d selects w.containers id w ∙ ground arith)
