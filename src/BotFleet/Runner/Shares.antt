-- ===== src/BotFleet/Runner/Shares.antt =====
-- The personas of a runner's bots.
use alpha_exchange.Base.{
  ℕ, zero, suc, ◌-◌, ◌≤◌, ◌≡◌, refl, List, [], ◌∷◌, ◌++◌, length, length-append, Option, some,
  String, arith, All, All-append, All-map, ◌⊎◌, inl, inr,
}
use alpha_exchange.Base.Float.{Float}
use alpha_exchange.BotFleet.Runner.{
  StartTestEvent, or_defaults, new_test_runner, repeat, take, persona_ratio, share_out, fill_up,
  cut, assign_personas,
}

-- The persona is one of the list.
abbrev pub Among : List String → String → Type 0
Among [] p = ⊥
Among (q ∷ qs) p = (p ≡ q) ⊎ Among qs p

length-repeat : (n : ℕ) (p : String) → length (repeat n p) ≡ n
unfolding repeat
length-repeat zero p = refl
length-repeat (suc n) p = ground (arith, length-repeat n p)

repeat-All : (P : String → Type 0) (n : ℕ) (p : String) → P p → All P (repeat n p)
unfolding repeat
repeat-All P zero p h = tt
repeat-All P (suc n) p h = (h, repeat-All P n p h)

length-take : (n : ℕ) (ps : List String) → n ≤ length ps → length (take n ps) ≡ n
unfolding take
length-take zero ps h = refl
length-take (suc n) [] h = omega (arith, h)
length-take (suc n) (p ∷ ps) h = ground (arith, length-take n ps (omega (arith, h)))

take-All : (P : String → Type 0) (n : ℕ) (ps : List String) → All P ps → All P (take n ps)
unfolding take
take-All P zero ps h = tt
take-All P (suc n) [] h = tt
take-All P (suc n) (p ∷ ps) (h, k) = (h, take-All P n ps k)

module _ {W : Type 0} (f : Float W) where
  share_out-Among : (n count : ℕ) (ps : List String) → All (Among ps) (share_out f n count ps)
  unfolding share_out
  share_out-Among n count [] = tt
  share_out-Among n count (p ∷ ps) =
      All-append (Among (p ∷ ps)) (repeat (f.trunc (f.mul (f.of_ℕ n) (persona_ratio f count p))) p)
        (share_out f n count ps)
        (repeat-All (Among (p ∷ ps)) (f.trunc (f.mul (f.of_ℕ n) (persona_ratio f count p))) p
          (inl refl))
        (All-map (Among ps) (Among (p ∷ ps)) (λ q h. inr h) (share_out f n count ps)
          (share_out-Among n count ps))

  -- A list that a list of personas is filled up to.
  Filled : ℕ → List String → List String → Type 0
  Filled n personas out = (n ≤ length out) × All (Among personas) out

  fill_up-Filled :
      (n missing : ℕ) (p : String) (ps out : List String)
      → n - length out ≡ missing
      → All (Among (p ∷ ps)) out
      → (all : List String) × (fill_up f missing (p ∷ ps) out ≡ some all) × Filled n (p ∷ ps) all
  unfolding fill_up Filled
  fill_up-Filled n zero p ps out e h = (out, refl, (omega (arith, e), h))
  fill_up-Filled n (suc missing) p ps out e h = (
    out ++ repeat (suc missing) p,
    refl,
    (
      omega (arith, e, length-append out (repeat (suc missing) p), length-repeat (suc missing) p),
      All-append (Among (p ∷ ps)) out (repeat (suc missing) p) h
          (repeat-All (Among (p ∷ ps)) (suc missing) p (inl refl)),
    ),
  )

  -- The outcome of the code for a list of personas.
  Assigned : ℕ → List String → Option (List String) → Type 0
  Assigned n personas result =
      (out : List String) × (result ≡ some out) × (length out ≡ n) × All (Among personas) out

  cut-Assigned :
      (n : ℕ) (personas : List String) (all : List String)
      → Filled n personas all
      → Assigned n personas (cut f n (some all))
  unfolding cut Filled Assigned
  cut-Assigned n personas all (le, h) =
      (take n all, refl, length-take n all le, take-All (Among personas) n all h)

  assign-nonempty :
      (n : ℕ) (p : String) (ps : List String)
      → Assigned n (p ∷ ps) (
          cut f n (
            fill_up f
              (n - length (share_out f n (length (p ∷ ps)) (p ∷ ps)))
              (p ∷ ps)
              (share_out f n (length (p ∷ ps)) (p ∷ ps))))
  assign-nonempty n p ps =
      let out = share_out f n (length (p ∷ ps)) (p ∷ ps) in
      let (all, e, filled) =
        fill_up-Filled n (n - length out) p ps out refl
          (share_out-Among n (length (p ∷ ps)) (p ∷ ps)) in
      rw (e) (cut-Assigned n (p ∷ ps) all filled)

  assign-defaults :
      (n : ℕ) (ps : List String)
      → Assigned n (or_defaults ps) (
          cut f n (
            fill_up f
              (n - length (share_out f n (length (or_defaults ps)) (or_defaults ps)))
              (or_defaults ps)
              (share_out f n (length (or_defaults ps)) (or_defaults ps))))
  unfolding or_defaults
  assign-defaults n [] =
      assign-nonempty n "market_maker" ("aggressive_taker" ∷ "spammer" ∷ "whale" ∷ [])
  assign-defaults n (p ∷ ps) = assign-nonempty n p ps

  -- For every START_TEST event and whatever the arithmetic of the ratios is: the runner that is made
  -- of it gives out exactly as many personas as it has bots, without a panic, and each of them is
  -- one that the event lists, or of the four defaults where it lists none.
  pub assign_personas-new_test_runner :
      (ev : StartTestEvent)
      → (out : List String) × (assign_personas f (new_test_runner ev) ≡ some out)
        × (length out ≡ ev.bot_count)
        × All (Among (or_defaults ev.bot_personas)) out
  unfolding assign_personas new_test_runner Assigned
  assign_personas-new_test_runner ev = assign-defaults ev.bot_count ev.bot_personas
