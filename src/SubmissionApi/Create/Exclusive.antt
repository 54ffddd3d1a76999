-- ===== src/SubmissionApi/Create/Exclusive.antt =====
-- One test at a time for each contestant.
use alpha_exchange.Base.{
  ℕ, ◌≤◌, ◌≡◌, refl, sym, subst, if◌then◌else◌, ◌&&◌, List, [], ◌∷◌, Option, none, String, str_eq,
  eq_iff, arith, total, inl, inr,
}
use alpha_exchange.SubmissionApi.Create.{
  CreateTestRequest, Test, Store, Faults, is_active_status, get_active_by_contestant_id,
  create_test,
}
use alpha_exchange.SubmissionApi.Create.Accepted.{with_test, create_test-settles}

-- 1 for an active test of the contestant.
unfoldable pub active_of : String → Test → ℕ
unfolding is_active_status
active_of contestant t =
    if str_eq t.contestant_id contestant && is_active_status t.status then 1 else 0

abbrev pub active_tests : String → List Test → ℕ
active_tests contestant ts = total (active_of contestant) ts

-- No contestant has two active tests.
abbrev pub IsExclusive : List Test → Type 0
IsExclusive ts = (contestant : String) → active_tests contestant ts ≤ 1

none-active :
    (contestant : String) (ts : List Test)
    → get_active_by_contestant_id contestant ts ≡ none
    → active_tests contestant ts ≡ 0
unfolding get_active_by_contestant_id active_of
none-active contestant [] e = refl
none-active contestant (t ∷ ts) e = ground (arith, e, none-active contestant ts)

with_test-IsExclusive :
    (faults : Faults) (id contestant : String) (req : CreateTestRequest) (s : Store)
    → get_active_by_contestant_id contestant s.tests ≡ none
    → IsExclusive s.tests
    → IsExclusive (with_test faults id contestant req s).tests
unfolding with_test active_of
with_test-IsExclusive faults id contestant req s idle h other =
    ground (arith, h other, none-active contestant s.tests idle, eq_iff contestant other)

-- A request, with what goes wrong while it is handled.
pub record Request : Type 0 where
  pub faults : Faults
  pub test_id : String
  pub contestant : Option String
  pub body : Option CreateTestRequest

-- Requests that are handled one after the other.
unfoldable pub serve : List Request → Store → Store
serve [] s = s
serve (r ∷ rs) s = serve rs (create_test r.faults r.test_id r.contestant r.body s).1

create_test-IsExclusive :
    (r : Request) (s : Store)
    → IsExclusive s.tests
    → IsExclusive (create_test r.faults r.test_id r.contestant r.body s).1.tests
create_test-IsExclusive r s h =
    elim (create_test-settles r.faults r.test_id r.contestant r.body s) [
      | inl (same, refused) ↦ subst (λ t. IsExclusive t.tests) (sym same) h
      | inr (c, req, who, body, (sub, found, owner, ready, idle), done, bounded) ↦
          subst (λ t. IsExclusive t.1.tests) (sym done)
            (with_test-IsExclusive r.faults r.test_id c req s idle h)
    ]

-- Whatever requests are handled one after the other, and whatever fails meanwhile: if no contestant
-- has two active tests at first, none has two in the end.
pub serve-IsExclusive :
    (rs : List Request) (s : Store) → IsExclusive s.tests → IsExclusive (serve rs s).tests
unfolding serve
serve-IsExclusive [] s h = h
serve-IsExclusive (r ∷ rs) s h =
    serve-IsExclusive rs (create_test r.faults r.test_id r.contestant r.body s).1
      (create_test-IsExclusive r s h)
