-- ===== src/Orchestrator/StateMachine/Transition.antt =====
-- `TransitionTo`: a status changes only along the diagram, whatever other instances do.
use alpha_exchange.Base.{
  ℕ, ◌∙◌, ◌<◌, ◌≡◌, refl, inl, inr, Bool-cases, true, false, Option, none, some, Option-cases,
  String, str_eq, arith,
}
use alpha_exchange.Base.Dict.{Dict, lookup, insert, lookup-insert, str_eq_refl}
use alpha_exchange.Orchestrator.StateMachine.{
  Status, pending, running, stopping, completed, failed, Row, World, ok, err, Race,
  illegal_transition, legal_transitions, same_status, cas_status, set_failure_reason,
  compare_and_set, transition_to,
}

same_status→eq : (a b : Status) → same_status a b ≡ true → a ≡ b
unfolding same_status
same_status→eq pending b h = ground arith
same_status→eq running b h = ground arith
same_status→eq stopping b h = ground arith
same_status→eq completed b h = ground arith
same_status→eq failed b h = ground arith

same_status_refl : (a : Status) → same_status a a ≡ true
unfolding same_status
same_status_refl a = ground arith

-- A row that has made the transition.
pub record Moved (instance : String) (new_state : Status) (rows : Dict Row) (id : String)
    : Type 0 where
  pub row : Row
  pub found : lookup id rows ≡ some row
  pub status : row.status ≡ new_state
  pub owner : row.instance_id ≡ instance

set_failure_reason-Moved :
    (instance : String) (new_state : Status) (rows : Dict Row) (id : String)
    (reason : Option String)
    → Moved instance new_state rows id
    → Moved instance new_state (set_failure_reason id reason rows) id
unfolding set_failure_reason
set_failure_reason-Moved instance new_state rows id none m = m
set_failure_reason-Moved instance new_state rows id (some reason) m =
    rw (m.found, set_failure_reason)
      (record {
        row = record m.row { failure_reason = some reason };
        found = rw (
          lookup-insert id id (record m.row { failure_reason = some reason }) rows,
          str_eq_refl id,
        );
        status = m.status;
        owner = m.owner;
      })

set_failure_reason-others :
    (rows : Dict Row) (id j : String) (reason : Option String)
    → str_eq id j ≡ false
    → lookup j (set_failure_reason id reason rows) ≡ lookup j rows
unfolding set_failure_reason
set_failure_reason-others rows id j none h = refl
set_failure_reason-others rows id j (some reason) h = elim (Option-cases (lookup id rows)) [
  | inl e ↦ rw (e, set_failure_reason)
  | inr (r, e) ↦ rw (
    e,
    set_failure_reason,
    lookup-insert id j (record r { failure_reason = some reason }) rows,
    h,
  )
]

-- What a transition that succeeds has done to the table that its update met.
pub record Transitioned (instance : String) (id : String) (new_state : Status)
    (met after : Dict Row) : Type 0 where
  pub old : Row
  pub met_old : lookup id met ≡ some old
  pub legal : legal_transitions old.status new_state ≡ true
  pub moved : Moved instance new_state after id
  pub others : (j : String) → str_eq id j ≡ false → lookup j after ≡ lookup j met

-- An update that is done found the row in the state it asked for.
cas_status-done :
    (instance : String) (id : String) (from to : Status) (rows : Dict Row)
    → (cas_status id from to instance rows).1 ≡ true
    → (r : Row) × (lookup id rows ≡ some r)
      × (r.status ≡ from)
      × ((cas_status id from to instance rows).0
          ≡ insert id (record r { status = to; instance_id = instance }) rows)
unfolding cas_status
cas_status-done instance id from to rows done = elim (Option-cases (lookup id rows)) [
  | inl e ↦ absurd (ground (arith, e))
  | inr (r, e) ↦ elim (Bool-cases (same_status r.status from)) [
    | inl s ↦ (r, e, same_status→eq r.status from s, ground (arith, e, s))
    | inr s ↦ absurd (ground (arith, e, s))
  ]
]

cas_status-Transitioned :
    (instance : String) (id : String) (from to : Status) (rows : Dict Row) (reason : Option String)
    → legal_transitions from to ≡ true
    → (cas_status id from to instance rows).1 ≡ true
    → Transitioned instance id to rows
        (set_failure_reason id reason (cas_status id from to instance rows).0)
cas_status-Transitioned instance id from to rows reason legal done =
    let (r, found, s, after) = cas_status-done instance id from to rows done in
    let r' : Row = record r { status = to; instance_id = instance } in
    rw after (record {
      old = r;
      met_old = found;
      legal = rw s legal;
      moved = set_failure_reason-Moved instance to (insert id r' rows) id reason (record {
        row = r';
        found = rw (lookup-insert id id r' rows, str_eq_refl id);
        status = refl;
        owner = refl;
      });
      others = λ j h.
          set_failure_reason-others (insert id r' rows) id j reason h
          ∙ rw (lookup-insert id j r' rows, h);
    })

module _ (instance : String) (race : Race) (id : String) (new_state : Status)
    (reason : Option String) where
  -- The table that the update meets.
  abbrev met : World → Dict Row
  met w = race.between (race.before w.rows)

  compare_and_set-ok :
      (current : Status) (w : World)
      → legal_transitions current new_state ≡ true
      → (compare_and_set instance race id current new_state reason w).1 ≡ ok
      → Transitioned instance id new_state
          (race.between w.rows)
          (compare_and_set instance race id current new_state reason w).0.rows
  unfolding compare_and_set
  compare_and_set-ok current w legal e =
      let rows = race.between w.rows in
      elim (Bool-cases race.cas_ok) [
        | inr c ↦ absurd (ground (arith, c))
        | inl c ↦ elim (Bool-cases (cas_status id current new_state instance rows).1) [
          | inr d ↦ absurd (ground (arith, c, d))
          | inl d ↦ rw (c, d) (cas_status-Transitioned instance id current new_state rows _ legal d)
        ]
      ]

  -- A transition that succeeds has read a row from which it is legal.
  transition_to-reads :
      (w : World)
      → (transition_to instance race id new_state reason w).1 ≡ ok
      → (r : Row) × (legal_transitions r.status new_state ≡ true)
        × (transition_to instance race id new_state reason w
            ≡ compare_and_set instance race id r.status new_state reason
                (record w { rows = race.before w.rows }))
  unfolding transition_to
  transition_to-reads w e = elim (Option-cases (lookup id (race.before w.rows))) [
    | inl n ↦ absurd (ground (arith, n))
    | inr (r, s) ↦ elim (Bool-cases race.read_ok) [
      | inr c ↦ absurd (ground (arith, s, c))
      | inl c ↦ elim (Bool-cases (legal_transitions r.status new_state)) [
        | inr l ↦ absurd (ground (arith, s, c, l))
        | inl l ↦ (r, l, rw (s, c, transition_to) (rw l refl))
      ]
    ]
  ]

  -- Whatever other instances do before and during the call, a transition that reports success
  -- has moved the test's row, as its update met it, along a legal edge to the new state, under
  -- this instance's id, and has changed no other row.
  pub transition_to-ok :
      (w : World)
      → (transition_to instance race id new_state reason w).1 ≡ ok
      → Transitioned instance id new_state
          (met w)
          (transition_to instance race id new_state reason w).0.rows
  transition_to-ok w e =
      let (r, l, q) = transition_to-reads w e in
      rw q (compare_and_set-ok r.status (record w { rows = race.before w.rows }) l (rw q at e))

  -- Beside the table and the cached status a transition changes nothing.
  pub transition_to-frame :
      (w : World)
      → let w' = (transition_to instance race id new_state reason w).0 in
        (w'.locks ≡ w.locks)
        × (w'.hash_contestant ≡ w.hash_contestant)
        × (w'.active ≡ w.active)
        × (w'.timers ≡ w.timers)
        × (w'.metrics ≡ w.metrics)
        × (w'.published ≡ w.published)
  unfolding transition_to compare_and_set
  transition_to-frame w = ground arith

-- No other instance, and no failure.
abbrev pub calm : Race
calm = record {
  before = λ r. r;
  between = λ r. r;
  read_ok = true;
  cas_ok = true;
  reason_ok = true;
  ended_ok = true;
  del_ok = true;
}

-- Undisturbed, a transition along a legal edge succeeds, and any other is refused with nothing
-- changed.
pub transition_to-calm :
    (instance id : String) (new_state : Status) (reason : Option String) (w : World) (r : Row)
    → lookup id w.rows ≡ some r
    → let result = transition_to instance calm id new_state reason w in
      (legal_transitions r.status new_state ≡ true → result.1 ≡ ok)
      × (legal_transitions r.status new_state ≡ false
          → result ≡ (w, err (illegal_transition r.status new_state)))
unfolding transition_to compare_and_set cas_status
transition_to-calm instance id new_state reason w r e =
    (λ l. ground (arith, e, l, same_status_refl r.status), λ l. ground (arith, e, l))

-- How far a test is in its life.
abbrev pub stage : Status → ℕ
stage pending = 0
stage running = 1
stage stopping = 2
stage completed = 3
stage failed = 3

pub legal-stage : (a b : Status) → legal_transitions a b ≡ true → stage a < stage b
unfolding legal_transitions
legal-stage pending b h = ground arith
legal-stage running b h = ground arith
legal-stage stopping b h = ground arith
legal-stage completed b h = absurd (cc h)
legal-stage failed b h = absurd (cc h)
