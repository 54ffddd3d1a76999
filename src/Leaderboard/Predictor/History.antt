-- ===== src/Leaderboard/Predictor/History.antt =====
-- What the rolling history holds.
use alpha_exchange.Base.{
  ℕ, zero, suc, ◌⊎◌, ◌-◌, ◌≤◌, ◌≡◌, refl, ap, ◌∙◌, ltb, lt→ltb, if◌then◌else◌, Bool, List, [], ◌∷◌,
  ◌++◌, length, length-append, append_assoc, append-nil, Option, some, String, str_eq, eq_iff,
  arith, Bool-cases, inl, inr,
}
use alpha_exchange.Base.Dict.{lookup, lookup-insert}
use alpha_exchange.Leaderboard.Scorer.{Entry}
use alpha_exchange.Leaderboard.Predictor.{
  Predictor, new_predictor, drop, history_of, or_nil, trim, record_score, record_entries,
}

drop-suc : (n x : ℕ) (h : List ℕ) → drop (suc n) (x ∷ h) ≡ drop n h
unfolding drop
drop-suc n x h = refl

drop-zero : (h : List ℕ) → drop 0 h ≡ h
unfolding drop
drop-zero h = refl

drop-split : (n : ℕ) (h : List ℕ) → (old : List ℕ) × (h ≡ old ++ drop n h)
unfolding drop
drop-split zero h = ([], refl)
drop-split (suc n) [] = ([], refl)
drop-split (suc n) (x ∷ h) = let (old, e) = drop-split n h in (x ∷ old, ap (λ l. x ∷ l) e)

length-drop : (n : ℕ) (h : List ℕ) → length (drop n h) ≡ length h - n
unfolding drop
length-drop zero h = omega arith
length-drop (suc n) [] = omega arith
length-drop (suc n) (x ∷ h) = omega (arith, length-drop n h)

trim-long : (n x : ℕ) (h : List ℕ) → n ≤ length h → trim n (x ∷ h) ≡ trim n h
unfolding trim
trim-long n x h le =
    let k : suc (length h) - n ≡ suc (length h - n) = omega (arith, le) in
    elim (Bool-cases (ltb n (length h))) [
      | inl more ↦
          rw (lt→ltb n (suc (length h)) (omega (arith, le)), more, k) (drop-suc (length h - n) x h)
      | inr exact ↦
          let z : length h - n ≡ 0 = ground (arith, le, exact) in
          rw (lt→ltb n (suc (length h)) (omega (arith, le)), exact, k, z)
            (drop-suc 0 x h ∙ drop-zero h)
    ]

trim-short : (n : ℕ) (h : List ℕ) → length h ≤ n → trim n h ≡ h
unfolding trim
trim-short n h le = ground (arith, le)

trim-trim : (n y : ℕ) (h : List ℕ) → trim n (trim n h ++ (y ∷ [])) ≡ trim n (h ++ (y ∷ []))
trim-trim n y [] = rw (trim-short n [] (omega arith)) refl
trim-trim n y (x ∷ h) =
    let again = trim-trim n y h in
    elim (Bool-cases (ltb n (suc (length h)))) [
      | inl long ↦
          let le : n ≤ length h = ground (arith, long) in
          rw
            (
              trim-long n x h le,
              trim-long n x (h ++ (y ∷ [])) (omega (arith, le, length-append h (y ∷ []))),
            )
            again
      | inr short ↦ rw (trim-short n (x ∷ h) (ground (arith, short))) refl
    ]

or_nil-if :
    (b : Bool) (h : List ℕ) (o : Option (List ℕ))
    → or_nil (if b then some h else o) ≡ (if b then h else or_nil o)
unfolding or_nil
or_nil-if b h o = ground arith

history_of-record_score :
    (key id : String) (score : ℕ) (p : Predictor)
    → history_of id (record_score key score p) ≡ (
        if str_eq key id
        then trim p.max_len (history_of key p ++ (score ∷ []))
        else history_of id p)
unfolding history_of record_score
history_of-record_score key id score p =
    rw
      (lookup-insert key id (trim p.max_len (or_nil (lookup key p.history) ++ (score ∷ [])))
        p.history)
      (or_nil-if (str_eq key id) (trim p.max_len (or_nil (lookup key p.history) ++ (score ∷ [])))
        (lookup id p.history))

max_len-record_score :
    (key : String) (score : ℕ) (p : Predictor) → (record_score key score p).max_len ≡ p.max_len
unfolding record_score
max_len-record_score key score p = refl

pushed_lem :
    (key id : String) (max score : ℕ) (p : Predictor) (seen : List ℕ)
    → p.max_len ≡ max
    → key ≡ id
    → history_of id p ≡ trim max seen
    → trim p.max_len (history_of key p ++ (score ∷ [])) ≡ trim max (seen ++ (score ∷ []))
pushed_lem key id max score p seen m k h =
    ap (λ n. trim n (history_of key p ++ (score ∷ []))) m
    ∙ ap (λ j. trim max (history_of j p ++ (score ∷ []))) k
    ∙ ap (λ l. trim max (l ++ (score ∷ []))) h
    ∙ trim-trim max score seen

-- What `scores` ends with: at most `max` of them, and all or `max`.
pub record EndsWith (max : ℕ) (scores last : List ℕ) : Type 0 where
  pub old : List ℕ
  pub in_order : scores ≡ old ++ last
  pub at_most : length last ≤ max
  pub all_or_max : (old ≡ []) ⊎ (length last ≡ max)

trim-EndsWith : (max : ℕ) (h : List ℕ) → EndsWith max h (trim max h)
unfolding trim
trim-EndsWith max h = elim (Bool-cases (ltb max (length h))) [
  | inl long ↦
      let (old, e) = drop-split (length h - max) h in
      let l : length (drop (length h - max) h) ≡ max =
        ground (arith, long, length-drop (length h - max) h) in
      rw long (record { old = old; in_order = e; at_most = omega (arith, l); all_or_max = inr l })
  | inr short ↦
      rw short (record {
        old = [];
        in_order = refl;
        at_most = ground (arith, short);
        all_or_max = inl refl;
      })
]

module _ {W : Type 0} where
  -- All scores of a contestant in the entries, in their order.
  unfoldable pub scores_of : String → List (Entry W) → List ℕ
  scores_of id [] = []
  scores_of id (e ∷ es) =
      let later = scores_of id es in if str_eq e.contestant_id id then e.score ∷ later else later

  history-from :
      (id : String) (max : ℕ) (es : List (Entry W)) (p : Predictor) (seen : List ℕ)
      → p.max_len ≡ max
      → history_of id p ≡ trim max seen
      → history_of id (record_entries es p) ≡ trim max (seen ++ scores_of id es)
  unfolding record_entries scores_of
  history-from id max [] p seen m h = rw (append-nil seen) h
  history-from id max (e ∷ es) p seen m h =
      let next = record_score e.contestant_id e.score p in
      let m' = max_len-record_score e.contestant_id e.score p ∙ m in
      let got = history_of-record_score e.contestant_id id e.score p in
      let later = history-from id max es next in
      elim (Bool-cases (str_eq e.contestant_id id)) [
        | inl same ↦
            let key : e.contestant_id ≡ id = (eq_iff e.contestant_id id).0 same in
            let now = got ∙ rw (same) (pushed_lem e.contestant_id id max e.score p seen m key h) in
            rw (same, ← append_assoc seen (e.score ∷ []) (scores_of id es))
              (later (seen ++ (e.score ∷ [])) m' now)
        | inr apart ↦ rw (apart) (later seen m' (got ∙ rw (apart) h))
      ]

  -- Whatever boards are recorded from the start on: the history of a contestant is the last 60 of
  -- the scores that it got in them, in their order, or all of them where it got fewer.
  pub record_entries-history :
      (id : String) (es : List (Entry W))
      → EndsWith 60 (scores_of id es) (history_of id (record_entries es new_predictor))
  unfolding lookup
  record_entries-history id es =
      let start : history_of id new_predictor ≡ trim 60 [] =
        unfold history_of or_nil new_predictor trim in refl in
      let all = history-from id 60 es new_predictor [] (unfold new_predictor in refl) start in
      rw all (trim-EndsWith 60 (scores_of id es))
