-- ===== src/Ingester/Reorder/Batches.antt =====
-- What a batch of the reorder buffer holds.
use alpha_exchange.Base.{
  ℕ, ◌≡◌, refl, sym, ap, subst, ◌∙◌, append-nil, by_key, sort_stable, List, [], ◌∷◌, ◌++◌, Option,
  none, some, Ascending, with_key, sort_stable-Ascending, with_key-sort_stable, append_assoc,
}
use alpha_exchange.Ingester.Validator.{TelemetryEvent}
use alpha_exchange.Ingester.Reorder.{ReorderBuffer, add, flush}

abbrev pub sequence : TelemetryEvent → ℕ
sequence e = e.sequence_number

-- The events of the batch, none where `flushFn` is not called.
abbrev pub batch_of : Option (List TelemetryEvent) → List TelemetryEvent
batch_of none = []
batch_of (some batch) = batch

pub add_all : List TelemetryEvent → ReorderBuffer → ReorderBuffer
add_all [] rb = rb
add_all (e ∷ es) rb = add_all es (add e rb)

add_all-pending :
    (es : List TelemetryEvent) (rb : ReorderBuffer) → (add_all es rb).pending ≡ rb.pending ++ es
unfolding add_all add
add_all-pending [] rb = sym (append-nil rb.pending)
add_all-pending (e ∷ es) rb = add_all-pending es (add e rb) ∙ append_assoc rb.pending (e ∷ []) es

sorted_batch : List TelemetryEvent → List TelemetryEvent
sorted_batch = sort_stable (by_key sequence)

flush-batch : (rb : ReorderBuffer) → batch_of (flush rb).1 ≡ sorted_batch rb.pending
unfolding flush sorted_batch
flush-batch rb = flush-batch_at rb.pending
  where
    flush-batch_at :
        (es : List TelemetryEvent) → batch_of (flush (record { pending = es })).1 ≡ sorted_batch es
    flush-batch_at [] = unfold sort_stable in refl
    flush-batch_at (e ∷ es) = refl

flush-pending : (rb : ReorderBuffer) → (flush rb).0.pending ≡ []
unfolding flush
flush-pending rb = flush-pending_at rb.pending
  where
    flush-pending_at : (es : List TelemetryEvent) → (flush (record { pending = es })).0.pending ≡ []
    flush-pending_at [] = refl
    flush-pending_at (e ∷ es) = refl

-- Events that are added after a flush and flushed: the buffer is empty again, the batch is in the
-- order of the sequence numbers, and of each number it holds the events that were added, in their
-- order of arrival.
pub flush-batch_lem :
    (rb : ReorderBuffer) (es : List TelemetryEvent)
    → let (left, out) = flush (add_all es (flush rb).0) in
      (left.pending ≡ [])
      × Ascending sequence (batch_of out)
      × ((k : ℕ) → with_key sequence k (batch_of out) ≡ with_key sequence k es)
unfolding sorted_batch
flush-batch_lem rb es =
    let full = add_all es (flush rb).0 in
    let arrived : full.pending ≡ es =
      add_all-pending es (flush rb).0 ∙ ap (λ l. l ++ es) (flush-pending rb) in
    let sorted = flush-batch full ∙ ap sorted_batch arrived in
    (
      flush-pending full,
      subst (λ l. Ascending sequence l) (sym sorted) (sort_stable-Ascending sequence es),
      λ k. ap (with_key sequence k) sorted ∙ with_key-sort_stable sequence k es,
    )
