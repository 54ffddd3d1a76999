-- ===== src/Ingester/Tps.antt =====
-- services/telemetry-ingester/metrics/tps_counter.go, for one contestant: the maps `windows` and
-- `lastSec` are keyed by contestant and an operation reads and writes its own key only. The 60
-- buckets are a function of the index, the clock's second is an argument. `GetCurrentTPS` divides
-- by 5.0 at the end; `current_sum` is its sum.
pub mod Rates
use alpha_exchange.Base.{ℕ, Bool, true, false, ◌%◌, zero, suc, ◌+◌, ◌-◌, ◌==◌, ltb, if◌then◌else◌}

-- `touched` says that the contestant has an entry of `windows`; `last_sec` is 0 without one.
pub record Counter : Type 0 where
  pub touched : Bool
  pub window : ℕ → ℕ
  pub last_sec : ℕ

-- `NewTPSCounter`.
unfoldable pub new_counter : Counter
new_counter = record { touched = false; window = λ i. 0; last_sec = 0 }

-- The write `w[idx] = x`.
unfoldable pub set_bucket : ℕ → ℕ → (ℕ → ℕ) → ℕ → ℕ
set_bucket idx x w i = if i == idx then x else w i

unfoldable pub record_order : ℕ → Counter → Counter
unfolding set_bucket
record_order sec t =
    let idx = sec % 60 in
    let w = if t.last_sec == sec then t.window else set_bucket idx 0 t.window in
    record { touched = true; window = set_bucket idx (w idx + 1) w; last_sec = sec }

-- The index `((sec-i)%60+60)%60`; a Unix second is at least 5.
unfoldable pub index_before : ℕ → ℕ → ℕ
index_before sec i = (sec - i) % 60

unfoldable pub current_sum : ℕ → Counter → ℕ
unfolding index_before
current_sum sec t =
    let w = t.window in
    if t.touched
    then w (index_before sec 1)
      + w (index_before sec 2)
      + w (index_before sec 3)
      + w (index_before sec 4)
      + w (index_before sec 5)
    else 0

-- The loop of `GetPeakTPS` over the first buckets.
unfoldable pub peak_to : (ℕ → ℕ) → ℕ → ℕ
peak_to w zero = 0
peak_to w (suc n) = let best = peak_to w n in if ltb best (w n) then w n else best

unfoldable pub peak : Counter → ℕ
unfolding peak_to
peak t = if t.touched then peak_to t.window 60 else 0
