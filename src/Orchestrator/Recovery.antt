-- ===== src/Orchestrator/Recovery.antt =====
-- services/orchestrator/crash_recovery.go: one pass over the orphans that FindOrphans returns.
-- Redis is configured. The times are in nanoseconds; an answer of the container's health check and
-- the columns of an orphan's hash are arguments.
pub mod Passes
use alpha_exchange.Base.{
  ℕ, ◌-◌, ◌*◌, ◌==◌, ltb, if◌then◌else◌, Bool, true, false, ◌&&◌, List, [], ◌∷◌, none, some, String,
  str_eq, has, delete, assign,
}
use alpha_exchange.Base.Dict.{Dict, lookup, insert}
use alpha_exchange.Orchestrator.StateMachine.{
  Row, World, Race, register_recovered_timer, stop_test, fail_test,
}

-- An orphan, with what the hash test:<id> holds for it and what its container answers.
pub record Orphan : Type 0 where
  pub id : String
  pub contestant_id : String
  pub target_ip : String
  pub target_port : String
  pub answers_ok : Bool
  pub started_at : ℕ

-- The world, and the keys lock:recover:<id> that exist.
pub record Shared : Type 0 where
  pub world : World
  pub recover_locks : List String

pub record Setting : Type 0 where
  pub instance : String
  pub now : ℕ
  pub default_duration_sec : ℕ
  pub lock_ok : Bool  -- `SetNX` reaches Redis
  pub claim_ok : String → Bool  -- `ClaimRecovery`'s statement succeeds; its error is ignored
  pub first_race : String → Race
  pub second_race : String → Race

unfoldable pub container_healthy : Orphan → Bool
container_healthy o =
    if str_eq o.target_ip "" then false else if str_eq o.target_port "" then false else o.answers_ok

-- A difference below 0 is no duration, as 0 is.
unfoldable pub remaining_duration : Setting → Orphan → ℕ
remaining_duration s o =
    if o.started_at == 0 then 0 else s.default_duration_sec * 1_000_000_000 - (s.now - o.started_at)

-- `ClaimRecovery`.
unfoldable pub claim_recovery : Bool → String → String → Dict Row → Dict Row
claim_recovery false id instance rows = rows
claim_recovery true id instance rows = elim (lookup id rows) [
  | none ↦ rows
  | some r ↦ insert id (record r { instance_id = instance }) rows
]

-- The body of the loop under the lock. What other instances do before its first statement is the
-- first race's `before`. The time that a recovered timer gets is in nanoseconds.
unfoldable pub recover_locked : Setting → Orphan → World → World
unfolding container_healthy remaining_duration claim_recovery register_recovered_timer stop_test
    fail_test
recover_locked s o w =
    let left = remaining_duration s o in
    let claimed : World = record w {
      rows = claim_recovery (s.claim_ok o.id) o.id s.instance ((s.first_race o.id).before w.rows);
    } in
    let stopped =
      (stop_test s.instance (s.first_race o.id) (s.second_race o.id) o.id "recovered_past_duration"
        w).0 in
    if container_healthy o
    then (if ltb 0 left
        then register_recovered_timer o.id o.contestant_id left claimed
        else stopped)
    else (fail_test s.instance (s.first_race o.id) o.id "container_unavailable_after_recovery" w).0

unfoldable pub recover_one : Setting → Orphan → Shared → Shared
unfolding has assign delete recover_locked
recover_one s o h =
    if s.lock_ok && (if has o.id h.recover_locks then false else true)
    then record {
      world = recover_locked s o h.world;
      recover_locks = delete o.id (assign o.id h.recover_locks);
    }
    else h

unfoldable pub recover_once : Setting → List Orphan → Shared → Shared
unfolding recover_one
recover_once s [] h = h
recover_once s (o ∷ os) h = recover_once s os (recover_one s o h)
