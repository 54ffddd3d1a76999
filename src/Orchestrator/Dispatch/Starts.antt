-- ===== src/Orchestrator/Dispatch/Starts.antt =====
-- What a repeated start event does.
use alpha_exchange.Base.{ℕ, Bool, ◌≡◌, refl, ap, true, some, String}
use alpha_exchange.Base.Dict.{lookup}
use alpha_exchange.Orchestrator.StateMachine.{
  StartTestEvent, World, Result, Lock, Race, concurrent_modification, err, start_test,
}
use alpha_exchange.Orchestrator.Dispatch.{
  Setting, start_requested, after_start, handle_start, dispatch,
}

start_test-held :
    (instance : String) (default_duration : ℕ) (setnx_ok : Bool) (race : Race) (ev : StartTestEvent)
    (name : String) (w : World) (l : Lock)
    → setnx_ok ≡ true
    → lookup ev.contestant_id w.locks ≡ some l
    → start_test instance default_duration setnx_ok race ev name w
      ≡ (w, err concurrent_modification)
unfolding start_test
start_test-held instance default_duration setnx_ok race ev name w l up held = rw (up, held) refl

-- Where the contestant's lock is held and Redis answers, a START_TEST changes nothing, whatever
-- other instances do: neither is a second test started, nor is the one that runs failed.
pub dispatch-held :
    (s : Setting) (ev : StartTestEvent) (w : World) (l : Lock)
    → s.setnx_ok ≡ true
    → lookup ev.contestant_id w.locks ≡ some l
    → dispatch s (start_requested ev) w ≡ w
unfolding dispatch handle_start after_start
dispatch-held s ev w l up held =
    ap {A = World × Result} (λ p. after_start s ev p.0 p.1)
      (start_test-held s.instance s.default_duration s.setnx_ok (s.first_race ev.test_id) ev
        (s.name_of ev.contestant_id) w l up held)
