-- ===== src/Ingester/Validator/Replay.antt =====
-- What the replay of events keeps apart: contestants from each other, a test from the next one.
use alpha_exchange.Base.{
  ◌≡◌, refl, sym, ap, ◌∙◌, false, List, [], ◌∷◌, Option, none, some, String, str_eq, Bool-cases,
  inl, inr, subst, ◌⊎◌, insert_sorted, sort_stable,
}
use alpha_exchange.Base.Dict.{lookup, lookup-insert_self, lookup-insert_other, str_eq_refl}
use alpha_exchange.Ingester.Book.{OrderBook, new_order_book, process_order}
use alpha_exchange.Ingester.Validator.{
  TelemetryEvent, CorrectnessValidator, Verdict, choose_book, book_for, order_of, compare,
  validate_event, validate_all, validate_batch, earlier,
}

-- The verdicts of a book that is fed the orders of the events one after the other.
pub replay : OrderBook → List TelemetryEvent → List Verdict
replay book [] = []
replay book (e ∷ es) =
    let (next, expected) = process_order book (order_of e) in
    compare expected e.actual_fill ∷ replay next es

-- All events are of this contestant and this test.
unfoldable pub Concerns : String → String → List TelemetryEvent → Type 0
Concerns contestant test [] = Unit
Concerns contestant test (e ∷ es) =
    (e.contestant_id ≡ contestant) × (e.test_id ≡ test) × Concerns contestant test es

-- The validator keeps this book for this contestant, in this test.
pub record Keeps (contestant test : String) (book : OrderBook) (v : CorrectnessValidator)
    : Type 0 where
  pub the_book : lookup contestant v.books ≡ some book
  pub the_test : lookup contestant v.last_test_id ≡ some test

choose_book-same :
    (book : OrderBook) (test : String) → choose_book (some book) (some test) test ≡ book
unfolding choose_book
choose_book-same book test = rw (str_eq_refl test) refl

book_for-Keeps :
    (v : CorrectnessValidator) (e : TelemetryEvent) (book : OrderBook)
    → Keeps e.contestant_id e.test_id book v
    → book_for v e ≡ book
unfolding book_for
book_for-Keeps v e book k =
    ap (λ b. choose_book b (lookup e.contestant_id v.last_test_id) e.test_id) k.the_book
    ∙ ap (λ t. choose_book (some book) t e.test_id) k.the_test
    ∙ choose_book-same book e.test_id

validate_event-Keeps :
    (v : CorrectnessValidator) (e : TelemetryEvent)
    → Keeps e.contestant_id e.test_id
        (process_order (book_for v e) (order_of e)).0
        (validate_event e v).0
unfolding validate_event
validate_event-Keeps v e = record {
  the_book = lookup-insert_self e.contestant_id _ v.books;
  the_test = lookup-insert_self e.contestant_id _ v.last_test_id;
}

Keeps-move :
    {c d s t : String} {book : OrderBook} {v : CorrectnessValidator}
    → c ≡ d
    → s ≡ t
    → Keeps c s book v
    → Keeps d t book v
Keeps-move {c} {d} {s} {t} {book} {v} e f k =
    subst (λ x. Keeps x t book v) e (subst (λ y. Keeps c y book v) f k)

abbrev first_verdict : TelemetryEvent → CorrectnessValidator → Verdict
first_verdict e v = compare (process_order (book_for v e) (order_of e)).1 e.actual_fill

-- For events of one contestant in one test, met by a validator that keeps a book for both: the
-- verdicts are those of that book, fed the orders one after the other.
pub validate_all-replay :
    (es : List TelemetryEvent) (c t : String) (book : OrderBook) (v : CorrectnessValidator)
    → Concerns c t es
    → Keeps c t book v
    → (validate_all es v).1 ≡ replay book es
unfolding validate_all replay Concerns
validate_all-replay [] c t book v k kept = refl
validate_all-replay (e ∷ es) c t book v (ec, et, k) kept =
    let met = book_for-Keeps v e book (Keeps-move (sym ec) (sym et) kept) in
    let kept_on = Keeps-move ec et (validate_event-Keeps v e) in
    ap (λ rest. first_verdict e v ∷ rest)
      (validate_all-replay es c t _ (validate_event e v).0 k kept_on)
    ∙ ap (λ b. replay b (e ∷ es)) met

-- The validator knows no book of the contestant's, or one of another test.
unfoldable pub IsFresh : String → String → CorrectnessValidator → Type 0
IsFresh c t v =
    (lookup c v.books ≡ none)
    ⊎ ((prev : String) × (lookup c v.last_test_id ≡ some prev) × (str_eq prev t ≡ false))

choose_book-other :
    (found : Option OrderBook) (prev t : String)
    → str_eq prev t ≡ false
    → choose_book found (some prev) t ≡ new_order_book
unfolding choose_book
choose_book-other none prev t e = refl
choose_book-other (some book) prev t e = rw (e) refl

book_for-IsFresh :
    (v : CorrectnessValidator) (e : TelemetryEvent)
    → IsFresh e.contestant_id e.test_id v
    → book_for v e ≡ new_order_book
unfolding book_for choose_book IsFresh
book_for-IsFresh v e (inl none_yet) =
    ap (λ b. choose_book b (lookup e.contestant_id v.last_test_id) e.test_id) none_yet
book_for-IsFresh v e (inr (prev, seen, other)) =
    ap (λ t. choose_book (lookup e.contestant_id v.books) t e.test_id) seen
    ∙ choose_book-other (lookup e.contestant_id v.books) prev e.test_id other

validate_all-fresh :
    (es : List TelemetryEvent) (c t : String) (v : CorrectnessValidator)
    → Concerns c t es
    → IsFresh c t v
    → (validate_all es v).1 ≡ replay new_order_book es
unfolding validate_all replay Concerns
validate_all-fresh [] c t v k fresh = refl
validate_all-fresh (e ∷ es) c t v (ec, et, k) fresh =
    let fresh_here =
      subst (λ x. IsFresh x e.test_id v) (sym ec) (subst (λ y. IsFresh c y v) (sym et) fresh) in
    let kept_on = Keeps-move ec et (validate_event-Keeps v e) in
    ap (λ rest. first_verdict e v ∷ rest)
      (validate_all-replay es c t _ (validate_event e v).0 k kept_on)
    ∙ ap (λ b. replay b (e ∷ es)) (book_for-IsFresh v e fresh_here)

insert_sorted-Concerns :
    (e : TelemetryEvent) (es : List TelemetryEvent) (c t : String)
    → Concerns c t (e ∷ es)
    → Concerns c t (insert_sorted earlier e es)
unfolding insert_sorted Concerns
insert_sorted-Concerns e [] c t k = k
insert_sorted-Concerns e (x ∷ es) c t (ec, et, (xc, xt, k)) = elim (Bool-cases (earlier x e)) [
  | inl p ↦ rw (p) (xc, xt, insert_sorted-Concerns e es c t (ec, et, k))
  | inr p ↦ rw (p) (ec, et, (xc, xt, k))
]

sort_stable-Concerns :
    (es : List TelemetryEvent) (c t : String)
    → Concerns c t es
    → Concerns c t (sort_stable earlier es)
unfolding sort_stable Concerns
sort_stable-Concerns [] c t k = k
sort_stable-Concerns (e ∷ es) c t (ec, et, k) =
    insert_sorted-Concerns e (sort_stable earlier es) c t (ec, et, sort_stable-Concerns es c t k)

-- For a batch of one contestant's events in one test, where the validator knows no book of the
-- contestant's or one of another test: the verdicts are those of a new book that is fed the
-- orders in the order of their sequence numbers, equal ones as they came.
pub validate_batch-fresh :
    (es : List TelemetryEvent) (c t : String) (v : CorrectnessValidator)
    → Concerns c t es
    → IsFresh c t v
    → (validate_batch es v).1 ≡ replay new_order_book (sort_stable earlier es)
unfolding validate_batch
validate_batch-fresh es c t v k fresh =
    validate_all-fresh (sort_stable earlier es) c t v (sort_stable-Concerns es c t k) fresh

-- An event leaves what the validator keeps for another contestant as it was.
pub validate_event-Keeps_other :
    (v : CorrectnessValidator) (e : TelemetryEvent) (c t : String) (book : OrderBook)
    → str_eq e.contestant_id c ≡ false
    → Keeps c t book v
    → Keeps c t book (validate_event e v).0
unfolding validate_event
validate_event-Keeps_other v e c t book other k = record {
  the_book = lookup-insert_other e.contestant_id c _ v.books other ∙ k.the_book;
  the_test = lookup-insert_other e.contestant_id c _ v.last_test_id other ∙ k.the_test;
}
