-- ===== src/Orchestrator/Recovery/Passes.antt =====
-- What a pass over the orphans leaves behind.
use alpha_exchange.Base.{
  ◌≡◌, refl, ap, ◌∙◌, true, false, List, [], ◌∷◌, some, String, has, has-delete, has-assign, eq_iff,
  delete, assign, arith, Bool-cases, inl, inr,
}
use alpha_exchange.Base.Dict.{lookup}
use alpha_exchange.Orchestrator.StateMachine.{Row, World, stopping, cancel_timer}
use alpha_exchange.Orchestrator.StateMachine.Transition.{calm}
use alpha_exchange.Orchestrator.StateMachine.Ending.{stop_test-stopping}
use alpha_exchange.Orchestrator.Recovery.{
  Orphan, Shared, Setting, container_healthy, remaining_duration, recover_locked, recover_one,
  recover_once,
}

delete-assign :
    (id k : String) (ks : List String)
    → has id ks ≡ false
    → has k (delete id (assign id ks)) ≡ has k ks
delete-assign id k ks free =
    ground (arith, free, has-delete k id (assign id ks), has-assign k id ks, eq_iff id k)

recover_one-locks :
    (s : Setting) (o : Orphan) (h : Shared) (k : String)
    → has k (recover_one s o h).recover_locks ≡ has k h.recover_locks
unfolding recover_one
recover_one-locks s o h k = elim (Bool-cases s.lock_ok) [
  | inr down ↦ rw (down, recover_one) refl
  | inl up ↦ elim (Bool-cases (has o.id h.recover_locks)) [
    | inl held ↦ rw (up, held, recover_one) refl
    | inr free ↦ rw (up, free, recover_one) (delete-assign o.id k h.recover_locks free)
  ]
]

-- After a pass the recovery locks are held that were held before it, no others.
pub recover_once-locks :
    (s : Setting) (os : List Orphan) (h : Shared) (k : String)
    → has k (recover_once s os h).recover_locks ≡ has k h.recover_locks
unfolding recover_once
recover_once-locks s [] h k = refl
recover_once-locks s (o ∷ os) h k =
    recover_once-locks s os (recover_one s o h) k ∙ recover_one-locks s o h k

-- An orphan that is stopping, whose container is healthy and whose time is over: undisturbed by
-- other instances, the recovery only drops its timer, and the test stays as it is.
pub recover_locked-stopping :
    (s : Setting) (o : Orphan) (w : World) (r : Row)
    → s.first_race o.id ≡ calm
    → container_healthy o ≡ true
    → remaining_duration s o ≡ 0
    → lookup o.id w.rows ≡ some r
    → r.status ≡ stopping
    → recover_locked s o w ≡ cancel_timer o.id w
unfolding recover_locked
recover_locked-stopping s o w r undisturbed healthy over e st =
    rw (healthy, over, undisturbed)
      (ap (λ p. p.0)
        (stop_test-stopping s.instance (s.second_race o.id) o.id "recovered_past_duration" w r e
          st))
