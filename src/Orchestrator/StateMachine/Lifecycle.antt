-- ===== src/Orchestrator/StateMachine/Lifecycle.antt =====
-- What starting, stopping and failing a test do to the locks, the timers and the running set.
use alpha_exchange.Base.{
  ℕ, ◌+◌, ◌≡◌, refl, ◌⊎◌, inl, inr, Bool, true, false, none, some, Option-cases, String, str_eq,
  arith,
}
use alpha_exchange.Base.Dict.{lookup, insert, lookup-insert, lookup-erase, str_eq_refl}
use alpha_exchange.Orchestrator.StateMachine.{
  running, Lock, World, Result, ok, err, Race, Error, concurrent_modification, StartTestEvent,
  transition_to, release_lock, finish, publish, started, start_locked, start_test, duration_of,
}
use alpha_exchange.Orchestrator.StateMachine.Transition.{
  Moved, transition_to-ok, transition_to-frame,
}

pub Result-cases : (r : Result) → (r ≡ ok) ⊎ ((e : Error) × (r ≡ err e))
Result-cases ok = inl refl
Result-cases (err e) = inr (e, refl)

-- What `finish` leaves of a test.
pub record Finished (del_ok : Bool) (test_id contestant : String) (w : World) : Type 0 where
  pub inactive : lookup test_id w.active ≡ none
  pub untimed : lookup test_id w.timers ≡ none
  pub unlocked : del_ok ≡ true → str_eq contestant "" ≡ false → lookup contestant w.locks ≡ none

pub finish-Finished :
    (del_ok : Bool) (test_id contestant : String) (w : World)
    → Finished del_ok test_id contestant (finish del_ok test_id contestant w)
unfolding finish
finish-Finished del_ok test_id contestant w = ground (
  arith,
  lookup-erase test_id test_id w.active,
  lookup-erase test_id test_id w.timers,
  lookup-erase contestant contestant w.locks,
  str_eq_refl test_id,
  str_eq_refl contestant,
)

module _ (instance : String) where
  -- What a start that succeeds leaves.
  pub record Started (ev : StartTestEvent) (duration : ℕ) (w : World) : Type 0 where
    pub locked :
        lookup ev.contestant_id w.locks ≡ some (record { holder = ev.test_id; ttl = duration + 30 })
    pub timed : lookup ev.test_id w.timers ≡ some duration
    pub active : lookup ev.test_id w.active ≡ some ev.contestant_id
    pub moved : Moved instance running w.rows ev.test_id

  started-Started :
      (ev : StartTestEvent) (duration : ℕ) (name : String) (w : World)
      → lookup ev.contestant_id w.locks ≡ some (record { holder = ev.test_id; ttl = duration + 30 })
      → Moved instance running w.rows ev.test_id
      → Started ev duration (started instance ev duration name w)
  unfolding started publish
  started-Started ev duration name w h m = record {
    locked = h;
    timed = rw (lookup-insert ev.test_id ev.test_id duration w.timers, str_eq_refl ev.test_id);
    active =
        rw (lookup-insert ev.test_id ev.test_id ev.contestant_id w.active, str_eq_refl ev.test_id);
    moved = m;
  }

  -- The two ends of a start that holds the lock.
  start_locked-cases :
      (race : Race) (ev : StartTestEvent) (duration : ℕ) (name : String) (w : World)
      → let (w', r) = transition_to instance race ev.test_id running none w in
        let result = start_locked instance race ev duration name w in
        ((r ≡ ok) × (result ≡ (started instance ev duration name w', ok)))
        ⊎ ((e : Error) × (r ≡ err e)
            × (result ≡ (release_lock race.del_ok ev.contestant_id w', err e)))
  unfolding start_locked
  start_locked-cases race ev duration name w =
      elim (Result-cases (transition_to instance race ev.test_id running none w).1) [
        | inl e ↦ inl (e, ground (arith, e))
        | inr (x, e) ↦ inr (x, e, ground (arith, e))
      ]

  start_locked-Started :
      (race : Race) (ev : StartTestEvent) (duration : ℕ) (name : String) (w : World)
      → let locked : World = record w {
        locks =
            insert ev.contestant_id (record { holder = ev.test_id; ttl = duration + 30 }) w.locks;
      } in
        (start_locked instance race ev duration name locked).1 ≡ ok
        → Started ev duration (start_locked instance race ev duration name locked).0
  start_locked-Started race ev duration name w e =
      let lock : Lock = record { holder = ev.test_id; ttl = duration + 30 } in
      let locked : World = record w { locks = insert ev.contestant_id lock w.locks } in
      elim (start_locked-cases race ev duration name locked) [
        | inr (x, _, q) ↦ absurd (ground (arith, q))
        | inl (t, q) ↦ rw q (
            started-Started ev duration name _
              (rw (transition_to-frame instance race ev.test_id running none locked).0 (
                rw (
                  lookup-insert ev.contestant_id ev.contestant_id lock w.locks,
                  str_eq_refl ev.contestant_id,
                )))
              (transition_to-ok instance race ev.test_id running none locked t).moved)
      ]

  module _ (default : ℕ) (race : Race) (ev : StartTestEvent) (name : String) (w : World) where
    abbrev duration : ℕ
    duration = duration_of default ev.duration_seconds

    abbrev locked : World
    locked = record w {
      locks = insert ev.contestant_id (record { holder = ev.test_id; ttl = duration + 30 }) w.locks;
    }

    abbrev result : World × Result
    result = start_test instance default true race ev name w

    -- While a contestant's lock is held, no other test of the contestant starts and nothing
    -- changes.
    pub start_test-locked :
        (l : Lock)
        → lookup ev.contestant_id w.locks ≡ some l
        → result ≡ (w, err concurrent_modification)
    unfolding start_test
    start_test-locked l e = ground (arith, e)

    start_test-unlocked :
        lookup ev.contestant_id w.locks ≡ none
        → result ≡ start_locked instance race ev duration name locked
    unfolding start_test
    start_test-unlocked e = ground (arith, e)

    -- A test that starts has found its contestant's lock free; then it holds that lock for 30
    -- seconds more than its timer runs, it is active, and its row has become running under this
    -- instance.
    pub start_test-ok :
        result.1 ≡ ok → (lookup ev.contestant_id w.locks ≡ none) × Started ev duration result.0
    start_test-ok e = elim (Option-cases (lookup ev.contestant_id w.locks)) [
      | inr (l, held) ↦ absurd (cc (start_test-locked l held))
      | inl free ↦ (
        free,
        rw (start_test-unlocked free)
            (start_locked-Started race ev duration name w (rw (start_test-unlocked free) at e)),
      )
    ]

    released :
        (del_ok : Bool) (w' : World)
        → del_ok ≡ true
        → (w'.locks ≡ locked.locks)
          × (w'.hash_contestant ≡ locked.hash_contestant)
          × (w'.active ≡ locked.active)
          × (w'.timers ≡ locked.timers)
          × (w'.metrics ≡ locked.metrics)
          × (w'.published ≡ locked.published)
        → str_eq ev.contestant_id "" ≡ false
        → let w'' = release_lock del_ok ev.contestant_id w' in
          (lookup ev.contestant_id w''.locks ≡ none)
          × (w''.active ≡ w.active)
          × (w''.timers ≡ w.timers)
          × (w''.published ≡ w.published)
    unfolding release_lock
    released del_ok w' deleted frame named = ground (
      arith,
      lookup-erase ev.contestant_id ev.contestant_id w'.locks,
      str_eq_refl ev.contestant_id,
    )

    -- A start that fails, for a contestant whose id is not empty and whose lock was free, and where
    -- the DEL of the lock reaches Redis: it leaves that lock free, and the running set, the timers
    -- and the published events as they were.
    pub start_test-err :
        (e : Error)
        → race.del_ok ≡ true
        → str_eq ev.contestant_id "" ≡ false
        → lookup ev.contestant_id w.locks ≡ none
        → result.1 ≡ err e
        → (lookup ev.contestant_id result.0.locks ≡ none)
          × (result.0.active ≡ w.active)
          × (result.0.timers ≡ w.timers)
          × (result.0.published ≡ w.published)
    start_test-err e deleted named free h =
        rw (start_test-unlocked free) (elim (start_locked-cases race ev duration name locked) [
          | inl (_, q) ↦ absurd (ground (arith, q, start_test-unlocked free))
          | inr (x, _, q) ↦ rw q (
              released race.del_ok _ deleted
                (transition_to-frame instance race ev.test_id running none locked) named)
        ])
