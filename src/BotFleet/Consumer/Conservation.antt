-- ===== src/BotFleet/Consumer/Conservation.antt =====
-- What is started is stopped.
use alpha_exchange.Base.{
  ℕ, ◌+◌, ◌≤◌, ◌≡◌, refl, if◌then◌else◌, List, [], ◌∷◌, ◌++◌, total, total-append, Option, none,
  some, String, str_eq, eq_iff, arith,
}
use alpha_exchange.Base.Dict.{erase, lookup}
use alpha_exchange.BotFleet.Runner.{StartTestEvent, TestRunner, new_test_runner}
use alpha_exchange.BotFleet.Consumer.{
  Action, start, stop, Consumer, Message, start_test, stop_test, container_crashed, ignored,
  new_consumer, start_new, start_runner, stop_found, stop_runner, of_contestant, stop_each,
  stop_by_contestant, dispatch, run, runners_of, close,
}
use alpha_exchange.BotFleet.Consumer.Entries.{
  is_of, entries, Keyed, of_test, erase-Keyed, lookup-none, entries-erase, entries-insert,
  insert-Keyed, contestant-entries, without_contestant-Keyed, runners_of-entries, lookup-some,
}

unfoldable pub is_start : String → Action → ℕ
is_start id (start r) = if str_eq r.test_id id then 1 else 0
is_start id (stop r reason) = 0

unfoldable pub is_stop : String → Action → ℕ
is_stop id (start r) = 0
is_stop id (stop r reason) = if str_eq r.test_id id then 1 else 0

abbrev pub starts : String → Consumer → ℕ
starts id c = total (is_start id) c.log

abbrev pub stops : String → Consumer → ℕ
stops id c = total (is_stop id) c.log

-- The log accounts for the running tests, none of which runs twice.
unfoldable pub IsBalanced : Consumer → Type 0
unfolding entries
IsBalanced c =
    Keyed c.runners
    × ((id : String) → starts id c ≡ stops id c + entries id c.runners)
    × ((id : String) → entries id c.runners ≤ 1)

stop_each-lem :
    (id reason : String) (rs : List TestRunner)
    → (total (is_stop id) (stop_each reason rs) ≡ of_test id rs)
      × (total (is_start id) (stop_each reason rs) ≡ 0)
unfolding stop_each is_stop is_start is_of
stop_each-lem id reason [] = (refl, refl)
stop_each-lem id reason (r ∷ rs) = ground (arith, stop_each-lem id reason rs)

logged_start :
    (k : String) (r : TestRunner) (log : List Action)
    → (total (is_start k) (log ++ (start r ∷ []))
        ≡ total (is_start k) log + (if str_eq r.test_id k then 1 else 0))
      × (total (is_stop k) (log ++ (start r ∷ [])) ≡ total (is_stop k) log)
unfolding is_start is_stop
logged_start k r log = ground (
  arith,
  total-append (is_start k) log (start r ∷ []),
  total-append (is_stop k) log (start r ∷ []),
)

logged_stop :
    (k reason : String) (r : TestRunner) (log : List Action)
    → (total (is_stop k) (log ++ (stop r reason ∷ []))
        ≡ total (is_stop k) log + (if str_eq r.test_id k then 1 else 0))
      × (total (is_start k) (log ++ (stop r reason ∷ [])) ≡ total (is_start k) log)
unfolding is_start is_stop
logged_stop k reason r log = ground (
  arith,
  total-append (is_start k) log (stop r reason ∷ []),
  total-append (is_stop k) log (stop r reason ∷ []),
)

new_test_runner-id : (ev : StartTestEvent) → (new_test_runner ev).test_id ≡ ev.test_id
unfolding new_test_runner
new_test_runner-id ev = refl

start_new-IsBalanced :
    (o : Option TestRunner) (ev : StartTestEvent) (c : Consumer)
    → lookup ev.test_id c.runners ≡ o
    → IsBalanced c
    → IsBalanced (start_new o ev c)
unfolding IsBalanced start_new
start_new-IsBalanced (some r) ev c e b = b
start_new-IsBalanced none ev c e (keyed, balance, single) =
    let r = new_test_runner ev in
    let absent = lookup-none ev.test_id c.runners keyed e in
    let own = new_test_runner-id ev in
    (
      insert-Keyed ev.test_id r c.runners keyed own,
      (λ k. ground (
        arith,
        balance k,
        entries-insert ev.test_id k r c.runners keyed own,
        absent,
        logged_start k r c.log,
        own,
        eq_iff ev.test_id k,
      )),
      (λ k. ground (arith, single k, entries-insert ev.test_id k r c.runners keyed own)),
    )

stop_found-IsBalanced :
    (o : Option TestRunner) (id reason : String) (c : Consumer)
    → lookup id c.runners ≡ o
    → IsBalanced c
    → IsBalanced (stop_found o reason (record c { runners = erase id c.runners }))
unfolding IsBalanced stop_found
stop_found-IsBalanced none id reason c e (keyed, balance, single) =
    let absent = lookup-none id c.runners keyed e in
    (
      erase-Keyed id c.runners keyed,
      (λ k. ground (arith, balance k, entries-erase id k c.runners keyed, absent, eq_iff id k)),
      (λ k. ground (arith, single k, entries-erase id k c.runners keyed)),
    )
stop_found-IsBalanced (some r) id reason c e (keyed, balance, single) =
    let found = lookup-some id r c.runners keyed e in
    (
      erase-Keyed id c.runners keyed,
      (λ k. ground (
        arith,
        balance k,
        single k,
        entries-erase id k c.runners keyed,
        found,
        logged_stop k reason r c.log,
        eq_iff id k,
      )),
      (λ k. ground (arith, single k, entries-erase id k c.runners keyed)),
    )

stop_by_contestant-IsBalanced :
    (contestant reason : String) (c : Consumer)
    → IsBalanced c
    → IsBalanced (stop_by_contestant contestant reason c)
unfolding IsBalanced stop_by_contestant
stop_by_contestant-IsBalanced contestant reason c (keyed, balance, single) = (
  without_contestant-Keyed contestant c.runners keyed,
  (λ id.
      let logged = stop_each reason (of_contestant contestant c.runners) in
      omega (
        arith,
        balance id,
        contestant-entries id contestant c.runners,
        (stop_each-lem id reason (of_contestant contestant c.runners)).0,
        (stop_each-lem id reason (of_contestant contestant c.runners)).1,
        total-append (is_start id) c.log logged,
        total-append (is_stop id) c.log logged,
      )),
  (λ id. omega (arith, single id, contestant-entries id contestant c.runners)),
)

start_runner-IsBalanced :
    (ev : StartTestEvent) (c : Consumer) → IsBalanced c → IsBalanced (start_runner ev c)
unfolding start_runner
start_runner-IsBalanced ev c b = start_new-IsBalanced (lookup ev.test_id c.runners) ev c refl b

stop_runner-IsBalanced :
    (id reason : String) (c : Consumer) → IsBalanced c → IsBalanced (stop_runner id reason c)
unfolding stop_runner
stop_runner-IsBalanced id reason c b =
    stop_found-IsBalanced (lookup id c.runners) id reason c refl b

dispatch-IsBalanced : (m : Message) (c : Consumer) → IsBalanced c → IsBalanced (dispatch m c)
unfolding dispatch
dispatch-IsBalanced (start_test ev) c b = start_runner-IsBalanced ev c b
dispatch-IsBalanced (stop_test id reason) c b = stop_runner-IsBalanced id reason c b
dispatch-IsBalanced (container_crashed contestant) c b =
    stop_by_contestant-IsBalanced contestant "container_crashed" c b
dispatch-IsBalanced ignored c b = b

run-IsBalanced : (ms : List Message) (c : Consumer) → IsBalanced c → IsBalanced (run ms c)
unfolding run
run-IsBalanced [] c b = b
run-IsBalanced (m ∷ ms) c b = run-IsBalanced ms (dispatch m c) (dispatch-IsBalanced m c b)

new_consumer-IsBalanced : IsBalanced new_consumer
unfolding IsBalanced new_consumer entries
new_consumer-IsBalanced = (tt, (λ id. refl), (λ id. omega arith))

close-balanced :
    (c : Consumer) → IsBalanced c → (id : String) → starts id (close c) ≡ stops id (close c)
unfolding IsBalanced close
close-balanced c (keyed, balance, single) id =
    let rs = runners_of c.runners in
    let logged = stop_each "shutdown" rs in
    omega (
      arith,
      balance id,
      runners_of-entries id c.runners,
      (stop_each-lem id "shutdown" rs).0,
      (stop_each-lem id "shutdown" rs).1,
      total-append (is_start id) c.log logged,
      total-append (is_stop id) c.log logged,
    )

-- Whatever messages come from the start on, duplicates and unknown tests among them: of each test,
-- as many runners have been stopped as started, or one fewer while the test runs, since no test has
-- two runners at once; and once the consumer is closed, each runner that was started has been
-- stopped.
pub run-stops :
    (ms : List Message) (id : String)
    → (starts id (run ms new_consumer)
        ≡ stops id (run ms new_consumer) + entries id (run ms new_consumer).runners)
      × (entries id (run ms new_consumer).runners ≤ 1)
      × (starts id (close (run ms new_consumer)) ≡ stops id (close (run ms new_consumer)))
unfolding IsBalanced
run-stops ms id =
    let b = run-IsBalanced ms new_consumer new_consumer-IsBalanced in
    (b.1 id, b.2 id, close-balanced (run ms new_consumer) b id)
