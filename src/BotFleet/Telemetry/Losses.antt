-- ===== src/BotFleet/Telemetry/Losses.antt =====
-- Where the events of the bots go.
use alpha_exchange.Base.{
  ℕ, ◌+◌, ◌≤◌, ◌≡◌, refl, sym, ap, ◌∙◌, ltb, leb, if◌then◌else◌, true, List, [], ◌∷◌, ◌++◌,
  append_assoc, length, length-append, Option, none, some, arith, Bool-cases, inl, inr,
}
use alpha_exchange.BotFleet.Telemetry.{
  Producer, new_producer, emit, flush, append_encoded, flush_full, receive, end_loop, Step,
  receives, ticks, loops, closes, ends, Reached, starts, emits, steps,
}

module _ {E M : Type 0} (encode : E → Option M) where
  unfoldable pub encoded_one : Option M → List M
  encoded_one none = []
  encoded_one (some m) = m ∷ []

  -- The events that have a JSON text, encoded.
  unfoldable pub encoded : List E → List M
  unfolding encoded_one
  encoded [] = []
  encoded (e ∷ es) = encoded_one (encode e) ++ encoded es

  encoded-append : (xs ys : List E) → encoded (xs ++ ys) ≡ encoded xs ++ encoded ys
  unfolding encoded
  encoded-append [] ys = refl
  encoded-append (e ∷ xs) ys =
      ap (λ l. encoded_one (encode e) ++ l) (encoded-append xs ys)
      ∙ sym (append_assoc (encoded_one (encode e)) (encoded xs) (encoded ys))

  -- Nothing that was taken is lost, nor is its order, and the batch has at most `limit` messages.
  unfoldable pub Accounts : ℕ → ℕ → List E → Producer E M → Type 0
  Accounts limit n taken p =
      (p.written ++ (p.batch ++ encoded p.queue) ≡ encoded taken)
      × (n ≡ p.dropped + length taken)
      × (p.sent ≡ length p.written)
      × (length p.queue ≤ 10000)
      × (length p.batch ≤ limit)

  new_producer-Accounts : Accounts 999 0 [] new_producer
  unfolding Accounts new_producer encoded
  new_producer-Accounts = (refl, refl, refl, omega arith, omega arith)

  snoc_lem :
      (written batch : List M) (queue taken : List E) (e : E)
      → written ++ (batch ++ encoded queue) ≡ encoded taken
      → written ++ (batch ++ encoded (queue ++ (e ∷ []))) ≡ encoded (taken ++ (e ∷ []))
  snoc_lem written batch queue taken e order =
      rw (encoded-append queue (e ∷ []), encoded-append taken (e ∷ []), ← order) simp (append_assoc)

  emit-Accounts :
      (limit n : ℕ) (taken : List E) (p : Producer E M) (e : E)
      → Accounts limit n taken p
      → Accounts limit (n + 1) (if (emit e p).0 then taken ++ (e ∷ []) else taken) (emit e p).1
  unfolding Accounts emit
  emit-Accounts limit n taken p e (order, count, sent, queue, batch) =
      elim (Bool-cases (ltb (length p.queue) 10000)) [
        | inl room ↦ rw (room) (
          snoc_lem p.written p.batch p.queue taken e order,
          omega (arith, count, length-append taken (e ∷ [])),
          sent,
          ground (arith, room, length-append p.queue (e ∷ [])),
          batch,
        )
        | inr full ↦ rw (full) (order, omega (arith, count), sent, queue, batch)
      ]

  flush-Accounts :
      (limit n : ℕ) (taken : List E) (p : Producer E M)
      → Accounts limit n taken p
      → Accounts 999 n taken (flush p)
  unfolding Accounts flush
  flush-Accounts limit n taken p (order, count, sent, queue, batch) = (
    append_assoc p.written p.batch (encoded p.queue) ∙ order,
    count,
    omega (arith, sent, length-append p.written p.batch),
    queue,
    omega arith,
  )

  flush_full-Accounts :
      (n : ℕ) (taken : List E) (p : Producer E M)
      → Accounts 1000 n taken p
      → Accounts 999 n taken (flush_full p)
  unfolding flush_full
  flush_full-Accounts n taken p a = elim (Bool-cases (leb 1000 (length p.batch))) [
    | inl full ↦ rw (full) (flush-Accounts 1000 n taken p a)
    | inr short ↦ rw (short) (unfold Accounts in (a.0, a.1, a.2, a.3, ground (arith, short)))
  ]

  append_encoded-Accounts :
      (n : ℕ) (taken : List E) (p : Producer E M) (e : E) (rest : List E) (o : Option M)
      → encode e ≡ o
      → p.queue ≡ e ∷ rest
      → Accounts 999 n taken p
      → Accounts 1000 n taken (append_encoded o (record p { queue = rest }))
  unfolding Accounts append_encoded encoded encoded_one
  append_encoded-Accounts n taken p e rest none en head (order, count, sent, queue, batch) =
      let split = ap encoded head ∙ ap (λ x. encoded_one x ++ encoded rest) en in
      let size = ap length head in
      (
        ap (λ q. p.written ++ (p.batch ++ q)) (sym split) ∙ order,
        count,
        sent,
        omega (arith, queue, size),
        omega (arith, batch),
      )
  append_encoded-Accounts n taken p e rest (some m) en head (order, count, sent, queue, batch) =
      let split = ap encoded head ∙ ap (λ x. encoded_one x ++ encoded rest) en in
      let size = ap length head in
      (
        ap (λ q. p.written ++ q) (append_assoc p.batch (m ∷ []) (encoded rest))
            ∙ ap (λ q. p.written ++ (p.batch ++ q)) (sym split)
            ∙ order,
        count,
        sent,
        omega (arith, queue, size),
        omega (arith, batch, length-append p.batch (m ∷ [])),
      )

  end_loop-Accounts :
      (n : ℕ) (taken : List E) (p : Producer E M)
      → Accounts 999 n taken p
      → Accounts 999 n taken (end_loop p)
  unfolding end_loop
  end_loop-Accounts n taken p a = unfold Accounts in flush-Accounts 999 n taken p a

  closed-Accounts :
      (n : ℕ) (taken : List E) (p : Producer E M)
      → Accounts 999 n taken p
      → Accounts 999 n taken (record p { is_closed = true })
  unfolding Accounts
  closed-Accounts n taken p a = a

  Step-Accounts :
      (n : ℕ) (taken : List E) (p q : Producer E M)
      → Accounts 999 n taken p
      → Step encode p q
      → Accounts 999 n taken q
  unfolding receive
  Step-Accounts n taken p _ a (loops _ _ (receives _ e rest runs head)) =
      flush_full-Accounts n taken (append_encoded (encode e) (record p { queue = rest }))
        (append_encoded-Accounts n taken p e rest (encode e) refl head a)
  Step-Accounts n taken p _ a (loops _ _ (ticks _ runs)) = flush-Accounts 999 n taken p a
  Step-Accounts n taken p _ a (closes _) = closed-Accounts n taken p a
  Step-Accounts n taken p _ a (ends _ runs closed) = end_loop-Accounts n taken p a

  -- In every state that the bots, the loop and `Close` reach: what was written, what waits in the
  -- batch and what waits in the channel are the events that `Emit` took, in their order, without those
  -- that have no JSON text. All other events that were emitted are counted as dropped, the count of
  -- the sent ones is that of the written ones, the channel never holds more than 10000 events, and
  -- the batch never 1000 messages.
  pub reached-Accounts :
      (n : ℕ) (taken : List E) (p : Producer E M)
      → Reached encode n taken p
      → Accounts 999 n taken p
  reached-Accounts _ _ _ starts = new_producer-Accounts
  reached-Accounts _ _ _ (emits m before q e r) =
      emit-Accounts 999 m before q e (reached-Accounts m before q r)
  reached-Accounts n taken p (steps _ _ q _ r s) =
      Step-Accounts n taken q p (reached-Accounts n taken q r) s
