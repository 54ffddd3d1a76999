-- ===== src/Ingester/Pipeline/Counting.antt =====
-- That a batch is counted in full, each event under its contestant.
use alpha_exchange.Base.{
  ℕ, suc, ◌+◌, ◌≡◌, refl, sym, ap, ◌∙◌, if◌then◌else◌, List, [], ◌∷◌, length, length-append, total,
  by_key, sort_stable, total-sort_stable, String, str_eq, eq_iff, arith, Bool-cases, inl, inr,
}
use alpha_exchange.Base.Dict.{Dict, insert, lookup-insert}
use alpha_exchange.Ingester.Aggregator.{Aggregator, process_event}
use alpha_exchange.Ingester.Validator.{
  TelemetryEvent, CorrectnessValidator, Verdict, validate_all, validate_batch,
}
use alpha_exchange.Ingester.Pipeline.{
  Pipeline, aggregator_of, append_to, group_onto, sample_of, count_each, process_contestant,
  process_groups, process_batch,
}

-- The events of a contestant.
unfoldable pub events_of : String → List TelemetryEvent → ℕ
events_of c [] = 0
events_of c (e ∷ es) = if str_eq e.contestant_id c then events_of c es + 1 else events_of c es

size_at : String → Dict (List TelemetryEvent) → ℕ
size_at c [] = 0
size_at c (group ∷ rest) =
    if str_eq group.0 c then length group.1 + size_at c rest else size_at c rest

size_at-append_to :
    (c : String) (e : TelemetryEvent) (groups : Dict (List TelemetryEvent))
    → size_at c (append_to e groups)
      ≡ size_at c groups + (if str_eq e.contestant_id c then 1 else 0)
unfolding size_at append_to
size_at-append_to c e [] = ground arith
size_at-append_to c e (group ∷ rest) = ground (
  arith,
  size_at-append_to c e rest,
  length-append group.1 (e ∷ []),
  eq_iff group.0 e.contestant_id,
  eq_iff group.0 c,
  eq_iff e.contestant_id c,
)

size_at-group_onto :
    (c : String) (groups : Dict (List TelemetryEvent)) (es : List TelemetryEvent)
    → size_at c (group_onto groups es) ≡ size_at c groups + events_of c es
unfolding group_onto events_of
size_at-group_onto c groups [] = omega arith
size_at-group_onto c groups (e ∷ es) =
    ground (arith, size_at-group_onto c (append_to e groups) es, size_at-append_to c e groups)

length-validate_all :
    (es : List TelemetryEvent) (v : CorrectnessValidator) → length (validate_all es v).1 ≡ length es
unfolding validate_all
length-validate_all [] v = refl
length-validate_all (e ∷ es) v = ap suc (length-validate_all es _)

length-total : (es : List TelemetryEvent) → total (λ e. 1) es ≡ length es
length-total [] = refl
length-total (e ∷ es) = omega (arith, length-total es)

length-validate_batch :
    (es : List TelemetryEvent) (v : CorrectnessValidator)
    → length (validate_batch es v).1 ≡ length es
unfolding validate_batch
length-validate_batch es v =
    let sorted = sort_stable (by_key λ (e : TelemetryEvent). e.sequence_number) es in
    length-validate_all sorted v
    ∙ sym (length-total sorted)
    ∙ total-sort_stable (by_key λ (e : TelemetryEvent). e.sequence_number) (λ e. 1) es
    ∙ length-total es

count_each-total_orders :
    (sec : ℕ) (es : List TelemetryEvent) (vs : List Verdict) (a : Aggregator)
    → length vs ≡ length es
    → (count_each sec es vs a).total_orders ≡ a.total_orders + length es
unfolding count_each process_event
count_each-total_orders sec [] vs a e = omega arith
count_each-total_orders sec (x ∷ es) [] a e = absurd (omega (arith, e))
count_each-total_orders sec (x ∷ es) (v ∷ vs) a e = omega (
  arith,
  count_each-total_orders sec es vs (process_event sec (sample_of x v) a) (omega (arith, e)),
)

-- How many orders the aggregator of a contestant has counted.
unfoldable pub orders_of : String → Dict Aggregator → ℕ
orders_of c aggs = (aggregator_of c aggs).total_orders

orders_of-insert :
    (key c : String) (a : Aggregator) (aggs : Dict Aggregator)
    → orders_of c (insert key a aggs) ≡ (if str_eq key c then a.total_orders else orders_of c aggs)
unfolding orders_of aggregator_of
orders_of-insert key c a aggs = ground (arith, lookup-insert key c a aggs)

process_contestant-orders_of :
    (sec : ℕ) (key c : String) (evs : List TelemetryEvent) (p : Pipeline)
    → orders_of c (process_contestant sec key evs p).aggs
      ≡ (if str_eq key c then orders_of c p.aggs + length evs else orders_of c p.aggs)
unfolding process_contestant orders_of
process_contestant-orders_of sec key c evs p =
    let results = (validate_batch evs p.validator).1 in
    let counted = count_each sec evs results (aggregator_of key p.aggs) in
    elim (Bool-cases (str_eq key c)) [
      | inr e ↦ orders_of-insert key c counted p.aggs ∙ rw (e) refl
      | inl e ↦
          orders_of-insert key c counted p.aggs
          ∙ rw (e) (
              count_each-total_orders sec evs results (aggregator_of key p.aggs)
                (length-validate_batch evs p.validator)
              ∙ ap (λ k. (aggregator_of k p.aggs).total_orders + length evs) ((eq_iff key c).0 e))
    ]

process_groups-orders_of :
    (sec : ℕ) (c : String) (groups : Dict (List TelemetryEvent)) (p : Pipeline)
    → orders_of c (process_groups sec groups p).aggs ≡ orders_of c p.aggs + size_at c groups
unfolding process_groups size_at
process_groups-orders_of sec c [] p = omega arith
process_groups-orders_of sec c (group ∷ rest) p = ground (
  arith,
  process_groups-orders_of sec c rest (process_contestant sec group.0 group.1 p),
  process_contestant-orders_of sec group.0 c group.1 p,
)

-- After a batch, the aggregator of each contestant has counted as many orders more as the batch
-- has events of the contestant, whatever the order and the mix of the events.
pub process_batch-orders_of :
    (sec : ℕ) (c : String) (events : List TelemetryEvent) (p : Pipeline)
    → orders_of c (process_batch sec events p).aggs ≡ orders_of c p.aggs + events_of c events
unfolding process_batch
process_batch-orders_of sec c events p =
    process_groups-orders_of sec c (group_onto [] events) p
    ∙ ap (λ n. orders_of c p.aggs + n)
        (size_at-group_onto c [] events ∙ unfold size_at in omega arith)
