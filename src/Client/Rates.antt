-- ===== src/Client/Rates.antt =====
-- runStressLoop of postgre-setup/go/cmd/stress/stress.go: how many requests a tick sends, and how
-- many may be under way.
use playground_ledger.Prelude.{ℕ, ◌+◌, ◌*◌, ◌/◌, ◌≤◌, ◌<◌, arith, ltb, if◌then◌else◌}

-- A rate of 0 divides by 0, which panics.
unfoldable pub interval_ms : ℕ → ℕ
interval_ms rate = let ms = 1000 / rate in if ltb ms 1 then 1 else ms

unfoldable pub batch_per_tick : ℕ → ℕ
unfolding interval_ms
batch_per_tick rate =
    let batch = (rate * interval_ms rate + 999) / 1000 in if ltb batch 1 then 1 else batch

unfoldable pub http_concurrency : ℕ → ℕ → ℕ
http_concurrency concurrency batch_size =
    if ltb 0 batch_size
    then (let n = concurrency / batch_size in if ltb n 1 then 1 else n)
    else concurrency

interval-positive : (rate : ℕ) → 1 ≤ interval_ms rate
unfolding interval_ms
interval-positive rate = ground arith

positive_product : (m n : ℕ) → 1 ≤ m → 1 ≤ n → 1 ≤ m * n
positive_product m n h k = grind arith

rounded_up :
    (n : ℕ)
    → 1 ≤ n
    → (1 ≤ (if ltb ((n + 999) / 1000) 1 then 1 else (n + 999) / 1000))
      × (n ≤ 1000 * (if ltb ((n + 999) / 1000) 1 then 1 else (n + 999) / 1000))
      × (1000 * (if ltb ((n + 999) / 1000) 1 then 1 else (n + 999) / 1000) < n + 1000)
rounded_up n h = (ground arith, ground arith, ground arith)

-- At a positive rate there is at least a millisecond between two ticks, and a tick sends at least
-- one request: as many as the rate asks for in the time between two ticks, rounded up.
batch_per_tick-bounds :
    (rate : ℕ)
    → 1 ≤ rate
    → (1 ≤ interval_ms rate)
      × (1 ≤ batch_per_tick rate)
      × (rate * interval_ms rate ≤ 1000 * batch_per_tick rate)
      × (1000 * batch_per_tick rate < rate * interval_ms rate + 1000)
unfolding batch_per_tick
batch_per_tick-bounds rate h =
    let (some_sent, enough, few) =
      rounded_up (rate * interval_ms rate)
        (positive_product rate (interval_ms rate) h (interval-positive rate)) in
    (interval-positive rate, some_sent, enough, few)
