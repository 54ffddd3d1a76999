-- ===== src/BotFleet/Consumer/Entries.antt =====
-- The entries of the registry, counted by test.
use alpha_exchange.Base.{
  ℕ, ◌+◌, ◌≤◌, ◌≡◌, refl, if◌then◌else◌, List, [], ◌∷◌, total, none, some, String, str_eq, eq_iff,
  arith, All,
}
use alpha_exchange.Base.Dict.{Dict, erase, insert, lookup}
use alpha_exchange.BotFleet.Runner.{TestRunner}
use alpha_exchange.BotFleet.Consumer.{of_contestant, without_contestant, runners_of}

unfoldable pub is_of : String → String × TestRunner → ℕ
is_of id entry = if str_eq entry.1.test_id id then 1 else 0

-- How many entries are of a test.
unfoldable pub entries : String → Dict TestRunner → ℕ
entries id rs = total (is_of id) rs

-- Every entry stands under the id of its test.
abbrev pub Keyed : Dict TestRunner → Type 0
Keyed rs = All (λ entry. entry.1.test_id ≡ entry.0) rs

pub erase-Keyed : (key : String) (rs : Dict TestRunner) → Keyed rs → Keyed (erase key rs)
unfolding erase
erase-Keyed key [] h = tt
erase-Keyed key (entry ∷ rest) (h, k) = ground (arith, erase-Keyed key rest k, h)

pub lookup-none :
    (key : String) (rs : Dict TestRunner) → Keyed rs → lookup key rs ≡ none → entries key rs ≡ 0
unfolding lookup entries is_of
lookup-none key [] h e = refl
lookup-none key (entry ∷ rest) (h, k) e = ground (arith, lookup-none key rest k, h, e)

pub entries-erase :
    (key id : String) (rs : Dict TestRunner)
    → Keyed rs
    → entries id (erase key rs) ≡ (if str_eq key id then 0 else entries id rs)
unfolding erase entries is_of
entries-erase key id [] h = ground arith
entries-erase key id (entry ∷ rest) (h, k) =
    ground
      (arith, entries-erase key id rest k, h, eq_iff entry.0 key, eq_iff entry.0 id, eq_iff key id)

pub entries-insert :
    (key id : String) (r : TestRunner) (rs : Dict TestRunner)
    → Keyed rs
    → r.test_id ≡ key
    → entries id (insert key r rs) ≡ (if str_eq key id then 1 else entries id rs)
unfolding insert entries is_of
entries-insert key id r rs h e = ground (arith, entries-erase key id rs h, e)

pub insert-Keyed :
    (key : String) (r : TestRunner) (rs : Dict TestRunner)
    → Keyed rs
    → r.test_id ≡ key
    → Keyed (insert key r rs)
unfolding insert
insert-Keyed key r rs h e = (e, erase-Keyed key rs h)

-- The runners of a list that are of a test.
abbrev pub of_test : String → List TestRunner → ℕ
of_test id rs = total (λ r. is_of id (id, r)) rs

pub contestant-entries :
    (id contestant : String) (rs : Dict TestRunner)
    → entries id rs
      ≡ entries id (without_contestant contestant rs) + of_test id (of_contestant contestant rs)
unfolding entries is_of without_contestant of_contestant
contestant-entries id contestant [] = refl
contestant-entries id contestant (entry ∷ rest) =
    ground (arith, contestant-entries id contestant rest)

pub without_contestant-Keyed :
    (contestant : String) (rs : Dict TestRunner)
    → Keyed rs
    → Keyed (without_contestant contestant rs)
unfolding without_contestant
without_contestant-Keyed contestant [] h = tt
without_contestant-Keyed contestant (entry ∷ rest) (h, k) =
    ground (arith, without_contestant-Keyed contestant rest k, h)

pub runners_of-entries :
    (id : String) (rs : Dict TestRunner) → of_test id (runners_of rs) ≡ entries id rs
unfolding entries is_of runners_of
runners_of-entries id [] = refl
runners_of-entries id (entry ∷ rest) = ground (arith, runners_of-entries id rest)

pub lookup-some :
    (key : String) (r : TestRunner) (rs : Dict TestRunner)
    → Keyed rs
    → lookup key rs ≡ some r
    → (r.test_id ≡ key) × (1 ≤ entries key rs)
unfolding lookup entries is_of
lookup-some key r [] h e = ground (arith, e)
lookup-some key r (entry ∷ rest) (h, k) e =
    ground (arith, lookup-some key r rest k, h, e, eq_iff entry.0 key)
