-- ===== src/SubmissionApi/Create/Bots.antt =====
-- From an accepted request to the bots of its test.
use alpha_exchange.Base.{
  ◌≤◌, ◌≡◌, sym, subst, true, List, [], ◌∷◌, length, Option, some, String, arith, All, All-map, inl,
  inr,
}
use alpha_exchange.Base.Float.{Float}
use alpha_exchange.BotFleet.Runner.{StartTestEvent, or_defaults, new_test_runner, assign_personas}
use alpha_exchange.BotFleet.Runner.Shares.{Among, assign_personas-new_test_runner}
use alpha_exchange.SubmissionApi.Errors.{is_persona}
use alpha_exchange.SubmissionApi.Create.{CreateTestRequest, Store, Faults, start_event, create_test}
use alpha_exchange.SubmissionApi.Create.Accepted.{
  IsBounded, is_accepted, or_defaults-All, create_test-settles,
}

Among-All : (P : String → Type 0) (ps : List String) (p : String) → All P ps → Among ps p → P p
Among-All P [] p all m = absurd m
Among-All P (q ∷ qs) p (h, all) (inl e) = subst P (sym e) h
Among-All P (q ∷ qs) p (h, all) (inr m) = Among-All P qs p all m

event-bots :
    {W : Type 0}
    → (f : Float W) (ev : StartTestEvent) → IsBounded ev
    → (out : List String) × (assign_personas f (new_test_runner ev) ≡ some out)
      × (1 ≤ length out)
      × (length out ≤ 1000)
      × All (λ p. is_persona p ≡ true) out
unfolding IsBounded
event-bots f ev (d1, d2, b1, b2, known) =
    let (out, e, n, among) = assign_personas-new_test_runner f ev in
    let all = or_defaults-All ev.bot_personas known in
    (
      out,
      e,
      omega (arith, n, b1),
      omega (arith, n, b2),
      All-map (Among (or_defaults ev.bot_personas)) (λ p. is_persona p ≡ true)
          (λ p m. Among-All (λ q. is_persona q ≡ true) (or_defaults ev.bot_personas) p all m) out
          among,
    )

-- Where the submission api accepts a test: the runner that the bot fleet makes of the event gives
-- out from 1 to 1000 personas, without a panic, and all of them are personas that it knows.
pub create_test-bots :
    {W : Type 0}
    → (f : Float W) (faults : Faults) (id : String) (who : Option String)
      (body : Option CreateTestRequest) (s : Store)
    → is_accepted (create_test faults id who body s).0 ≡ true
    → (contestant : String) × (req : CreateTestRequest) × (out : List String) × (body ≡ some req)
      × (who ≡ some contestant)
      × (assign_personas f (new_test_runner (start_event id contestant req)) ≡ some out)
      × (1 ≤ length out)
      × (length out ≤ 1000)
      × All (λ p. is_persona p ≡ true) out
create_test-bots f faults id who body s took = elim (create_test-settles faults id who body s) [
  | inl (same, refused) ↦ ground (arith, took, refused)
  | inr (c, req, named, parsed, may, done, bounded) ↦
      let (out, e, low, high, known) = event-bots f (start_event id c req) bounded in
      (c, req, out, parsed, named, e, low, high, known)
]
