-- ===== src/BotFleet/Telemetry.antt =====
-- services/bot-fleet/telemetry/producer.go: the bots that emit events and the goroutine that writes
-- them, as a step relation. An event is of any type `E`, `encode` is its conversion to JSON, and
-- what Kafka is handed is the list `written`; the error of a write is ignored as in the code. The
-- select takes any of the cases that are ready.
pub mod Draining
pub mod Losses
use alpha_exchange.Base.{
  ℕ, ◌+◌, ◌≡◌, ltb, leb, if◌then◌else◌, Bool, true, false, List, [], ◌∷◌, ◌++◌, length, Option,
  none, some,
}

pub record Producer (E M : Type 0) : Type 0 where
  pub queue : List E  -- batchCh
  pub batch : List M
  pub dropped : ℕ
  pub sent : ℕ
  pub written : List M
  pub is_closed : Bool  -- the channel `done`
  pub has_ended : Bool  -- the loop has returned

module _ {E M : Type 0} where
  unfoldable pub new_producer : Producer E M
  new_producer = record {
    queue = [];
    batch = [];
    dropped = 0;
    sent = 0;
    written = [];
    is_closed = false;
    has_ended = false;
  }

  unfoldable pub emit : E → Producer E M → Bool × Producer E M
  emit e p =
      if ltb (length p.queue) 10000
      then (true, record p { queue = p.queue ++ (e ∷ []) })
      else (false, record p { dropped = p.dropped + 1 })

  -- An empty batch is left alone, which changes nothing either.
  unfoldable pub flush : Producer E M → Producer E M
  flush p = record p { batch = []; sent = p.sent + length p.batch; written = p.written ++ p.batch }

  unfoldable pub append_encoded : Option M → Producer E M → Producer E M
  append_encoded none p = p
  append_encoded (some m) p = record p { batch = p.batch ++ (m ∷ []) }

  unfoldable pub flush_full : Producer E M → Producer E M
  unfolding flush
  flush_full p = let flushed = flush p in if leb 1000 (length p.batch) then flushed else p

  -- An event is received; `rest` is left in the channel.
  unfoldable pub receive : (E → Option M) → E → List E → Producer E M → Producer E M
  unfolding append_encoded flush_full
  receive encode e rest p = flush_full (append_encoded (encode e) (record p { queue = rest }))

  unfoldable pub end_loop : Producer E M → Producer E M
  unfolding flush
  end_loop p = record (flush p) { has_ended = true }

  -- A step of the running loop: the cases of its select but the end.
  pub data LoopStep (encode : E → Option M) : Producer E M → Producer E M → Type 0 where
    receives :
        (p : Producer E M) (e : E) (rest : List E)
        → p.has_ended ≡ false
        → p.queue ≡ e ∷ rest
        → LoopStep encode p (receive encode e rest p)
    ticks : (p : Producer E M) → p.has_ended ≡ false → LoopStep encode p (flush p)

  -- A step of `Close` or of the loop.
  pub data Step (encode : E → Option M) : Producer E M → Producer E M → Type 0 where
    loops : (p q : Producer E M) → LoopStep encode p q → Step encode p q
    closes : (p : Producer E M) → Step encode p (record p { is_closed = true })
    ends :
        (p : Producer E M) → p.has_ended ≡ false → p.is_closed ≡ true → Step encode p (end_loop p)

  -- The states that are reached, with the number of the events that the bots emitted and, in their
  -- order, those that `Emit` took.
  pub data Reached (encode : E → Option M) : ℕ → List E → Producer E M → Type 0 where
    starts : Reached encode 0 [] new_producer
    emits :
        (n : ℕ) (taken : List E) (p : Producer E M) (e : E)
        → Reached encode n taken p
        → Reached encode (n + 1) (if (emit e p).0 then taken ++ (e ∷ []) else taken) (emit e p).1
    steps :
        (n : ℕ) (taken : List E) (p q : Producer E M)
        → Reached encode n taken p
        → Step encode p q
        → Reached encode n taken q
