-- ===== src/Orchestrator/StateMachine/Ending.antt =====
-- How a test ends: stopped and completed, or failed.
use alpha_exchange.Base.{
  ◌≡◌, refl, ◌⊎◌, inl, inr, Bool, true, Option, none, some, String, str_eq, arith, false,
}
use alpha_exchange.Base.Dict.{lookup, lookup-insert, str_eq_refl}
use alpha_exchange.Orchestrator.StateMachine.{
  Status, stopping, completed, failed, Row, World, ok, err, Race, Error, illegal_transition,
  stop_published, legal_transitions, transition_to, cancel_timer, finish, contestant_for, publish,
  mark_ended, publish_final_score, complete_test, stop_test, fail_test,
}
use alpha_exchange.Orchestrator.StateMachine.Transition.{
  Moved, Transitioned, transition_to-ok, transition_to-frame, transition_to-calm, calm,
}
use alpha_exchange.Orchestrator.StateMachine.Lifecycle.{Result-cases, Finished, finish-Finished}

-- The row of a test that is over.
pub record Over (test_id : String) (status : Status) (ended : Bool) (w : World) : Type 0 where
  pub row : Row
  pub found : lookup test_id w.rows ≡ some row
  pub row_status : row.status ≡ status
  pub row_ended : row.ended ≡ ended

finish-rows :
    (del_ok : Bool) (test_id contestant : String) (w : World)
    → (finish del_ok test_id contestant w).rows ≡ w.rows
unfolding finish
finish-rows del_ok test_id contestant w = ground arith

module _ (instance : String) where
  complete_test-cases :
      (race : Race) (test_id contestant : String) (w : World)
      → let (w', r) =
          transition_to instance race test_id completed none (publish_final_score contestant w) in
        let result = complete_test instance race test_id contestant w in
        ((r ≡ ok)
          × (result ≡ (
            finish race.del_ok test_id contestant
                (record w' { rows = mark_ended race.ended_ok test_id w'.rows }),
            ok,
          )))
        ⊎ ((e : Error) × (r ≡ err e) × (result ≡ (w', err e)))
  unfolding complete_test
  complete_test-cases race test_id contestant w =
      elim (Result-cases
        (transition_to instance race test_id completed none (publish_final_score contestant w)).1) [
          | inl e ↦ inl (e, ground (arith, e))
          | inr (x, e) ↦ inr (x, e, ground (arith, e))
        ]

  mark_ended-Over :
      (ended_ok del_ok : Bool) (test_id contestant : String) (w : World)
      → ended_ok ≡ true
      → Moved instance completed w.rows test_id
      → Over test_id completed true (
          finish del_ok test_id contestant (record w { rows = mark_ended ended_ok test_id w.rows }))
  unfolding mark_ended
  mark_ended-Over ended_ok del_ok test_id contestant w done m = record {
    row = record m.row { ended = true };
    found =
        rw
          (finish-rows del_ok test_id contestant
            (record w { rows = mark_ended ended_ok test_id w.rows }))
          (rw (done, m.found, mark_ended)
            (rw
              (
                lookup-insert test_id test_id (record m.row { ended = true }) w.rows,
                str_eq_refl test_id,
              )
              refl));
    row_status = m.status;
    row_ended = refl;
  }

  -- What a stop leaves of a test whose contestant is known.
  pub record Stopped (test_id contestant : String) (w : World) : Type 0 where
    pub inactive : lookup test_id w.active ≡ none
    pub untimed : lookup test_id w.timers ≡ none
    pub unlocked : lookup contestant w.locks ≡ none
    pub over : Over test_id completed true w

  Finished-Stopped :
      (del_ok : Bool) (test_id contestant : String) (w : World)
      → del_ok ≡ true
      → str_eq contestant "" ≡ false
      → Finished del_ok test_id contestant w
      → Over test_id completed true w
      → Stopped test_id contestant w
  Finished-Stopped del_ok test_id contestant w deleted named f over = record {
    inactive = f.inactive;
    untimed = f.untimed;
    unlocked = f.unlocked deleted named;
    over = over;
  }

  complete_test-ok :
      (race : Race) (test_id contestant : String) (w : World)
      → race.ended_ok ≡ true
      → race.del_ok ≡ true
      → str_eq contestant "" ≡ false
      → (complete_test instance race test_id contestant w).1 ≡ ok
      → Stopped test_id contestant (complete_test instance race test_id contestant w).0
  complete_test-ok race test_id contestant w ended deleted named e =
      elim (complete_test-cases race test_id contestant w) [
        | inr (x, _, q) ↦ absurd (ground (arith, q))
        | inl (t, q) ↦
            let over = (transition_to-ok instance race test_id completed none _ t).moved in
            rw q (
              Finished-Stopped race.del_ok test_id contestant _ deleted named
                (finish-Finished race.del_ok test_id contestant _)
                (mark_ended-Over race.ended_ok race.del_ok test_id contestant _ ended over))
      ]

  stop_test-cases :
      (race race' : Race) (test_id reason : String) (w : World)
      → let (w', r) = transition_to instance race test_id stopping none (cancel_timer test_id w) in
        let result = stop_test instance race race' test_id reason w in
        ((r ≡ ok)
          × (result
              ≡ complete_test instance race' test_id
                  (contestant_for test_id w')
                  (publish (stop_published test_id reason) w')))
        ⊎ ((e : Error) × (r ≡ err e) × (result ≡ (w', err e)))
  unfolding stop_test
  stop_test-cases race race' test_id reason w =
      elim (Result-cases
        (transition_to instance race test_id stopping none (cancel_timer test_id w)).1) [
          | inl e ↦ inl (e, ground (arith, e))
          | inr (x, e) ↦ inr (x, e, ground (arith, e))
        ]

  -- The contestant of a test does not depend on the table.
  contestant_for-transition :
      (race : Race) (test_id : String) (s : Status) (reason : Option String) (w : World)
      → contestant_for test_id
          (transition_to instance race test_id s reason (cancel_timer test_id w)).0
        ≡ contestant_for test_id w
  unfolding contestant_for cancel_timer
  contestant_for-transition race test_id s reason w =
      ground (arith, transition_to-frame instance race test_id s reason (cancel_timer test_id w))

  -- A stop that succeeds, of a test whose contestant is known, whatever other instances do
  -- meanwhile, and where MarkEnded reaches Postgres and the DEL of the lock reaches Redis: it leaves
  -- the test's row completed and ended, the test neither active nor timed, and the contestant's lock
  -- free.
  pub stop_test-ok :
      (race race' : Race) (test_id reason : String) (w : World)
      → race'.ended_ok ≡ true
      → race'.del_ok ≡ true
      → str_eq (contestant_for test_id w) "" ≡ false
      → (stop_test instance race race' test_id reason w).1 ≡ ok
      → Stopped test_id
          (contestant_for test_id w)
          (stop_test instance race race' test_id reason w).0
  stop_test-ok race race' test_id reason w ended deleted named e =
      elim (stop_test-cases race race' test_id reason w) [
        | inr (x, _, q) ↦ absurd (ground (arith, q))
        | inl (t, q) ↦
            let q' = rw (contestant_for-transition race test_id stopping none w) at q in
            rw q' (
              complete_test-ok race' test_id (contestant_for test_id w) _ ended deleted named
                (rw q' at e))
      ]

  fail_test-cases :
      (race : Race) (test_id reason : String) (w : World)
      → let (w', r) =
          transition_to instance race test_id failed (some reason) (cancel_timer test_id w) in
        let result = fail_test instance race test_id reason w in
        ((r ≡ ok)
          × (result ≡ (
            finish race.del_ok test_id
                (contestant_for test_id (cancel_timer test_id w))
                (publish (stop_published test_id reason) w'),
            ok,
          )))
        ⊎ ((e : Error) × (r ≡ err e) × (result ≡ (w', err e)))
  unfolding fail_test
  fail_test-cases race test_id reason w =
      elim (Result-cases
        (transition_to instance race test_id failed (some reason) (cancel_timer test_id w)).1) [
          | inl e ↦ inl (e, ground (arith, e))
          | inr (x, e) ↦ inr (x, e, ground (arith, e))
        ]

  -- A test that is failed, whatever other instances do meanwhile, has been moved along a legal
  -- edge to failed under this instance, with no other row changed; it is neither active nor
  -- timed, and its contestant, if known, holds no lock where the DEL reaches Redis.
  pub fail_test-ok :
      (race : Race) (test_id reason : String) (w : World)
      → let result = fail_test instance race test_id reason w in
        result.1 ≡ ok
        → Finished race.del_ok test_id (contestant_for test_id w) result.0
          × Transitioned instance test_id failed (race.between (race.before w.rows)) result.0.rows
  unfolding cancel_timer contestant_for
  fail_test-ok race test_id reason w e = elim (fail_test-cases race test_id reason w) [
    | inr (x, _, q) ↦ absurd (ground (arith, q))
    | inl (t, q) ↦ rw q (
      finish-Finished race.del_ok test_id _ _,
      rw (finish-rows race.del_ok test_id _ _) (
          unfold publish in
          transition_to-ok instance race test_id failed (some reason) (cancel_timer test_id w) t),
    )
  ]

  stopping_refused :
      (test_id : String) (w : World) (r : Row)
      → lookup test_id w.rows ≡ some r
      → r.status ≡ stopping
      → transition_to instance calm test_id stopping none (cancel_timer test_id w)
        ≡ (cancel_timer test_id w, err (illegal_transition stopping stopping))
  unfolding cancel_timer legal_transitions
  stopping_refused test_id w r e s = rw s at (
      (transition_to-calm instance test_id stopping none (cancel_timer test_id w) r e).1
        (ground (arith, s)))

  -- A test whose row is already stopping, as a crashed instance leaves it, is never completed by
  -- a stop: undisturbed, the stop is refused and the row stays as it is.
  pub stop_test-stopping :
      (race' : Race) (test_id reason : String) (w : World) (r : Row)
      → lookup test_id w.rows ≡ some r
      → r.status ≡ stopping
      → stop_test instance calm race' test_id reason w
        ≡ (cancel_timer test_id w, err (illegal_transition stopping stopping))
  unfolding stop_test
  stop_test-stopping race' test_id reason w r e s = ground (arith, stopping_refused test_id w r e s)
