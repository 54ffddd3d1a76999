-- ===== src/BotFleet/Telemetry/Draining.antt =====
-- What the loop writes by its own steps of what waits, while it runs.
use alpha_exchange.Base.{
  ℕ, ◌+◌, ◌≡◌, refl, length, append_assoc, sym, ap, subst, ◌∙◌, false, List, [], ◌∷◌, ◌++◌,
  append-nil, Option, none, some, arith,
}
use alpha_exchange.BotFleet.Telemetry.{
  Producer, LoopStep, loops, flush, append_encoded, flush_full, receive, receives, ticks, Reached,
  steps,
}
use alpha_exchange.BotFleet.Telemetry.Losses.{encoded, Accounts, reached-Accounts}

module _ {E M : Type 0} (encode : E → Option M) where
  -- Two states of one channel, in which the loop runs or not alike.
  abbrev Alike : Producer E M → Producer E M → Type 0
  Alike p q = (p.queue ≡ q.queue) × (p.has_ended ≡ q.has_ended)

  flush_full-Alike : (p : Producer E M) → Alike (flush_full p) p
  unfolding flush_full flush
  flush_full-Alike p = ground arith

  append_encoded-Alike : (o : Option M) (p : Producer E M) → Alike (append_encoded o p) p
  unfolding append_encoded
  append_encoded-Alike none p = (refl, refl)
  append_encoded-Alike (some m) p = (refl, refl)

  receive-Alike :
      (e : E) (rest : List E) (p : Producer E M)
      → Alike (receive encode e rest p) (record p { queue = rest })
  unfolding receive
  receive-Alike e rest p =
      let left = record p { queue = rest } in
      let (q, h) = flush_full-Alike (append_encoded (encode e) left) in
      let (q', h') = append_encoded-Alike (encode e) left in (q ∙ q', h ∙ h')

  -- Steps of the loop alone, with the number of the events that it receives in them.
  pub data Runs (p : Producer E M) : ℕ → Producer E M → Type 0 where
    rests : Runs p 0 p
    takes :
        (k : ℕ) (q : Producer E M) (e : E) (rest : List E)
        → Runs p k q
        → LoopStep encode q (receive encode e rest q)
        → q.queue ≡ e ∷ rest
        → Runs p (k + 1) (receive encode e rest q)
    flushes :
        (k : ℕ) (q : Producer E M) → Runs p k q → LoopStep encode q (flush q) → Runs p k (flush q)

  Runs-Reached :
      (n : ℕ) (taken : List E) (p : Producer E M) (k : ℕ) (q : Producer E M)
      → Reached encode n taken p
      → Runs p k q
      → Reached encode n taken q
  Runs-Reached n taken p _ _ r rests = r
  Runs-Reached n taken p _ _ r (takes k q e rest before s _) =
      steps n taken q _ (Runs-Reached n taken p k q r before) (loops q _ s)
  Runs-Reached n taken p _ _ r (flushes k q before s) =
      steps n taken q _ (Runs-Reached n taken p k q r before) (loops q _ s)

  -- The loop takes the events that wait, and no others, and goes on.
  Runs-queue :
      (p : Producer E M) (k : ℕ) (q : Producer E M)
      → p.has_ended ≡ false
      → Runs p k q
      → (k + length q.queue ≡ length p.queue) × (q.has_ended ≡ false)
  unfolding flush
  Runs-queue p _ _ runs rests = (omega arith, runs)
  Runs-queue p _ _ runs (takes k q e rest before _ head) =
      let (counted, still) = Runs-queue p k q runs before in
      let (same, on) = receive-Alike e rest q in
      (rw same (omega (arith, counted, ap (λ l. length l) head)), on ∙ still)
  Runs-queue p _ _ runs (flushes k q before _) = Runs-queue p k q runs before

  -- The loop receives what waits, and flushes.
  receive_all :
      (queue : List E) (p : Producer E M) (k m : ℕ) (q : Producer E M)
      → k + length queue ≡ m
      → Runs p k q
      → q.queue ≡ queue
      → q.has_ended ≡ false
      → (last : Producer E M) × Runs p m last × (last.queue ≡ []) × (last.batch ≡ [])
  unfolding flush
  receive_all [] p k m q count run e runs =
      let exact : k ≡ m = omega (arith, count) in
      (flush q, subst (λ i. Runs p i (flush q)) exact (flushes k q run (ticks q runs)), e, refl)
  receive_all (x ∷ rest) p k m q count run e runs =
      let next = receive encode x rest q in
      let (same, still) = receive-Alike x rest q in
      receive_all rest p (k + 1) m next (omega (arith, count))
        (takes k q x rest run (receives q x rest runs e) e) same (still ∙ runs)

  all_written :
      (n : ℕ) (taken : List E) (p : Producer E M)
      → Reached encode n taken p
      → p.queue ≡ []
      → p.batch ≡ []
      → p.written ≡ encoded encode taken
  unfolding Accounts encoded
  all_written n taken p r empty flushed =
      let order = (reached-Accounts encode n taken p r).0 in
      let nothing : p.batch ++ encoded encode p.queue ≡ [] =
        ap (λ b. b ++ encoded encode p.queue) flushed ∙ ap (λ l. encoded encode l) empty in
      sym (ap (λ l. p.written ++ l) nothing ∙ append-nil p.written) ∙ order

  written_after :
      (n : ℕ) (taken : List E) (p : Producer E M)
      → Reached encode n taken p
      → (flush p).written ++ encoded encode p.queue ≡ encoded encode taken
  unfolding Accounts flush
  written_after n taken p r =
      append_assoc p.written p.batch (encoded encode p.queue)
      ∙ (reached-Accounts encode n taken p r).0

  -- From every state that is reached and in which the loop runs, and whatever the loop alone has
  -- done from there on, where no event comes in: with each event that it received one fewer waits;
  -- a tick is possible, after which everything is written that it received, in the order in which
  -- `Emit` took it and without what has no JSON text; and the loop alone can go on to receive exactly
  -- the events that still wait, to a state in which nothing waits and all that `Emit` took is written.
  pub reached-drains :
      (n : ℕ) (taken : List E) (p : Producer E M) (k : ℕ) (q : Producer E M)
      → Reached encode n taken p
      → p.has_ended ≡ false
      → Runs p k q
      → (k + length q.queue ≡ length p.queue)
        × LoopStep encode q (flush q)
        × ((flush q).written ++ encoded encode q.queue ≡ encoded encode taken)
        × ((last : Producer E M) × Runs q (length q.queue) last
            × (last.queue ≡ [])
            × (last.batch ≡ [])
            × (last.written ≡ encoded encode taken))
  unfolding flush
  reached-drains n taken p k q r runs run =
      let reached = Runs-Reached n taken p k q r run in
      let (counted, still) = Runs-queue p k q runs run in
      let (last, way, empty, flushed) =
        receive_all q.queue q 0 (length q.queue) q (omega arith) rests refl still in
      (
        counted,
        ticks q still,
        written_after n taken q reached,
        (
          last,
          way,
          empty,
          flushed,
          all_written n taken last (Runs-Reached n taken q _ last reached way) empty flushed,
        ),
      )
