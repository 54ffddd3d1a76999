-- ===== src/SubmissionApi/Create/Accepted.antt =====
-- When a test is created, and what its creation does.
use alpha_exchange.Base.{
  ℕ, ◌≤◌, ◌≡◌, refl, if◌then◌else◌, Bool, true, false, List, [], ◌∷◌, Option, none, some, String,
  str_eq, eq_iff, arith, All, Bool-cases, ◌⊎◌, inl, inr,
}
use alpha_exchange.Base.Dict.{lookup}
use alpha_exchange.Base.Int.{ℤ, pos, negsuc, to_nat}
use alpha_exchange.BotFleet.Runner.{StartTestEvent, or_defaults}
use alpha_exchange.SubmissionApi.Errors.{
  ApiError, is_persona, out_of_range, validate_personas, validate_test_params,
}
use alpha_exchange.SubmissionApi.Create.{
  CreateTestRequest, Submission, Test, Store, Faults, Response, accepted, refused, not_created,
  get_active_by_contestant_id, or_number, start_event, create_row, check_active, check_submission,
  check_params, create_test,
}

unfoldable pub is_accepted : Response → Bool
is_accepted (accepted id) = true
is_accepted (refused e) = false
is_accepted not_created = false

-- Nothing was done.
abbrev pub Refuses : Store → Response × Store → Type 0
Refuses s r = (r.1 ≡ s) × (is_accepted r.0 ≡ false)

-- The store with the new test and its event.
unfoldable pub with_test : Faults → String → String → CreateTestRequest → Store → Store
with_test faults id contestant req s = record s {
  tests =
      record {
        id = id;
        submission_id = req.submission_id;
        contestant_id = contestant;
        status = "pending";
      }
      ∷ s.tests;
  published = if faults.produce then s.published else start_event id contestant req ∷ s.published;
}

-- The contestant owns the submission, which is ready, and has no active test.
abbrev pub MayStart : String → CreateTestRequest → Store → Type 0
MayStart contestant req s =
    (sub : Submission) × (lookup req.submission_id s.submissions ≡ some sub)
    × (sub.contestant_id ≡ contestant)
    × (sub.status ≡ "ready")
    × (get_active_by_contestant_id contestant s.tests ≡ none)

module _ (faults : Faults) (id contestant : String) (req : CreateTestRequest) where
  abbrev Done : Store → Response × Store → Type 0
  Done s r = r ≡ (accepted id, with_test faults id contestant req s)

  create_row-lem :
      (s : Store)
      → Refuses s (create_row faults id contestant req s)
        ⊎ Done s (create_row faults id contestant req s)
  unfolding create_row with_test is_accepted
  create_row-lem s = elim (Bool-cases faults.create) [
    | inl e ↦ inl (rw (e) (refl, refl))
    | inr e ↦ inr (rw (e) refl)
  ]

  check_active-lem :
      (active : Option Test) (s : Store)
      → Refuses s (check_active faults id contestant req active s)
        ⊎ ((active ≡ none) × Done s (check_active faults id contestant req active s))
  unfolding check_active is_accepted with_test
  check_active-lem none s = elim (Bool-cases faults.get_active) [
    | inl e ↦ inl (rw (e) (refl, refl))
    | inr e ↦ elim (create_row-lem s) [ inl r ↦ inl (rw (e) r) | inr d ↦ inr (refl, rw (e) d) ]
  ]
  check_active-lem (some t) s = elim (Bool-cases faults.get_active) [
    | inl e ↦ inl (rw (e) (refl, refl))
    | inr e ↦ inl (rw (e) (refl, refl))
  ]

  -- The submission was read.
  owned_lem :
      (sub : Submission) (s : Store)
      → lookup req.submission_id s.submissions ≡ some sub
      → faults.get_submission ≡ false
      → Refuses s (check_submission faults id contestant req (some sub) s)
        ⊎ (MayStart contestant req s
            × Done s (check_submission faults id contestant req (some sub) s))
  unfolding check_submission is_accepted with_test
  owned_lem sub s found ok = elim (Bool-cases (str_eq sub.contestant_id contestant)) [
    | inr other ↦ inl (rw (ok, other) (refl, refl))
    | inl own ↦ elim (Bool-cases (str_eq sub.status "ready")) [
      | inr not_ready ↦ inl (rw (ok, own, not_ready) (refl, refl))
      | inl ready ↦ elim (check_active-lem (get_active_by_contestant_id contestant s.tests) s) [
        | inl r ↦ inl (rw (ok, own, ready) r)
        | inr (idle, d) ↦ inr (
          (
            sub,
            found,
            (eq_iff sub.contestant_id contestant).0 own,
            (eq_iff sub.status "ready").0 ready,
            idle,
          ),
          rw (ok, own, ready) d,
        )
      ]
    ]
  ]

  check_submission-lem :
      (found : Option Submission) (s : Store)
      → lookup req.submission_id s.submissions ≡ found
      → Refuses s (check_submission faults id contestant req found s)
        ⊎ (MayStart contestant req s × Done s (check_submission faults id contestant req found s))
  unfolding check_submission is_accepted
  check_submission-lem none s e = elim (Bool-cases faults.get_submission) [
    | inl fault ↦ inl (rw (fault) (refl, refl))
    | inr ok ↦ inl (rw (ok) (refl, refl))
  ]
  check_submission-lem (some sub) s e = elim (Bool-cases faults.get_submission) [
    | inl fault ↦ inl (rw (fault) (refl, refl))
    | inr ok ↦ owned_lem sub s e ok
  ]

  check_params-lem :
      (bad : Option ApiError) (s : Store)
      → Refuses s (check_params faults id contestant req bad s)
        ⊎ ((bad ≡ none)
            × MayStart contestant req s
            × Done s (check_params faults id contestant req bad s))
  unfolding check_params is_accepted
  check_params-lem (some e) s = inl (refl, refl)
  check_params-lem none s =
      elim (check_submission-lem (lookup req.submission_id s.submissions) s refl) [
        | inl r ↦ inl r
        | inr (may, d) ↦ inr (refl, may, d)
      ]

-- What a start event keeps to.
unfoldable pub IsBounded : StartTestEvent → Type 0
IsBounded ev =
    (30 ≤ ev.duration_seconds)
    × (ev.duration_seconds ≤ 600)
    × (1 ≤ ev.bot_count)
    × (ev.bot_count ≤ 1000)
    × All (λ p. is_persona p ≡ true) ev.bot_personas

or_number-bounds :
    (lo hi default : ℕ) (z : ℤ)
    → out_of_range lo hi z ≡ false
    → lo ≤ default
    → default ≤ hi
    → (lo ≤ or_number (to_nat z) default) × (or_number (to_nat z) default ≤ hi)
unfolding out_of_range or_number
or_number-bounds lo hi default (pos n) e l h = (ground (arith, e, l, h), ground (arith, e, l, h))
or_number-bounds lo hi default (negsuc n) e l h = ground (arith, e)

validate_personas-All :
    (ps : List String) → validate_personas ps ≡ none → All (λ p. is_persona p ≡ true) ps
unfolding validate_personas
validate_personas-All [] e = tt
validate_personas-All (p ∷ ps) e = ground (arith, e, validate_personas-All ps)

pub or_defaults-All :
    (ps : List String)
    → All (λ p. is_persona p ≡ true) ps
    → All (λ p. is_persona p ≡ true) (or_defaults ps)
unfolding or_defaults is_persona
or_defaults-All [] h = (refl, (refl, (refl, (refl, tt))))
or_defaults-All (p ∷ ps) h = h

params_lem :
    (d b : ℤ) (ps : List String)
    → validate_test_params d b ps ≡ none
    → (out_of_range 30 600 d ≡ false)
      × (out_of_range 1 1000 b ≡ false)
      × (validate_personas ps ≡ none)
unfolding validate_test_params
params_lem d b ps e = ground (arith, e)

start_event-IsBounded :
    (id contestant : String) (req : CreateTestRequest)
    → validate_test_params req.duration_seconds req.bot_count req.bot_personas ≡ none
    → IsBounded (start_event id contestant req)
unfolding start_event IsBounded
start_event-IsBounded id contestant req e =
    let (d, b, ps) = params_lem req.duration_seconds req.bot_count req.bot_personas e in
    let (d1, d2) = or_number-bounds 30 600 300 req.duration_seconds d (omega arith) (omega arith) in
    let (b1, b2) = or_number-bounds 1 1000 500 req.bot_count b (omega arith) (omega arith) in
    (d1, d2, b1, b2, or_defaults-All req.bot_personas (validate_personas-All req.bot_personas ps))

-- Whatever the request is, and whatever fails on the way: either a request is answered without
-- an acceptance and nothing is stored or published, or a contestant asked for a test of a ready
-- submission of its own while it had no active test, and the answer accepts it. Then the pending
-- test of the contestant is stored in front of the others, and unless Kafka fails its START_TEST
-- event is published, with a duration from 30 to 600 seconds, 1 to 1000 bots and known personas.
pub create_test-settles :
    (faults : Faults) (id : String) (who : Option String) (body : Option CreateTestRequest)
    (s : Store)
    → Refuses s (create_test faults id who body s)
      ⊎ ((contestant : String) × (req : CreateTestRequest) × (who ≡ some contestant)
          × (body ≡ some req)
          × MayStart contestant req s
          × (create_test faults id who body s ≡ (accepted id, with_test faults id contestant req s))
          × IsBounded (start_event id contestant req))
unfolding create_test
create_test-settles faults id none body s = inl (refl, unfold is_accepted in refl)
create_test-settles faults id (some c) none s = inl (refl, unfold is_accepted in refl)
create_test-settles faults id (some c) (some req) s =
    elim (Bool-cases (str_eq req.submission_id "")) [
      | inl no_id ↦ inl (rw (no_id) (refl, unfold is_accepted in refl))
      | inr named ↦
          let bad = validate_test_params req.duration_seconds req.bot_count req.bot_personas in
          elim (check_params-lem faults id c req bad s) [
            | inl r ↦ inl (rw (named) r)
            | inr (good, may, d) ↦
                inr (c, req, refl, refl, may, rw (named) d, start_event-IsBounded id c req good)
          ]
    ]
