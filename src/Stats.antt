-- ===== src/Stats.antt =====
-- postgre-setup/go/internal/ledger/service.go, opStats: the counters of one operation and the
-- histogram of its latencies. A counter is the bit pattern of an int64, so sums wrap at 2 ^ 64.
pub mod Totals
use playground_ledger.Prelude.{
  ℕ, zero, suc, ◌+◌, ◌%◌, ◌^◌, List, [], ◌∷◌, length, ltb, if◌then◌else◌,
}

abbrev pub add64 : ℕ → ℕ → ℕ
add64 a b = (a + b) % 2 ^ 64

pub record OpStats : Type 0 where
  pub count : ℕ
  pub idempotent : ℕ
  pub total_ms : ℕ
  pub idp_ms : ℕ
  pub lock_ms : ℕ
  pub writes_ms : ℕ
  pub commit_ms : ℕ
  pub hist : List ℕ

pub record Phases : Type 0 where
  pub idp_ms : ℕ
  pub lock_ms : ℕ
  pub writes_ms : ℕ
  pub commit_ms : ℕ

-- The counters of the three operations, and the number of calls under way.
pub record ServiceStats : Type 0 where
  pub in_flight : ℕ
  pub deposits : OpStats
  pub withdrawals : OpStats
  pub transfers : OpStats

abbrev pub hist_buckets : List ℕ
hist_buckets = 5 ∷ 15 ∷ 30 ∷ 60 ∷ 120 ∷ []

-- The loop over `histBuckets`: the first bound above the time, or else the last bucket.
unfoldable pub bucket_from : ℕ → List ℕ → ℕ → ℕ
bucket_from i [] total_ms = i
bucket_from i (b ∷ bs) total_ms = if ltb total_ms b then i else bucket_from (suc i) bs total_ms

unfoldable pub bucket : ℕ → ℕ
unfolding bucket_from
bucket total_ms = bucket_from 0 hist_buckets total_ms

-- `s.hist[i].Add(1)`
unfoldable pub bump : ℕ → List ℕ → List ℕ
bump i [] = []
bump zero (n ∷ ns) = add64 n 1 ∷ ns
bump (suc i) (n ∷ ns) = n ∷ bump i ns

unfoldable pub record_op : OpStats → ℕ → Phases → OpStats
record_op s total_ms p = record {
  count = add64 s.count 1;
  idempotent = s.idempotent;
  total_ms = add64 s.total_ms total_ms;
  idp_ms = add64 s.idp_ms p.idp_ms;
  lock_ms = add64 s.lock_ms p.lock_ms;
  writes_ms = add64 s.writes_ms p.writes_ms;
  commit_ms = add64 s.commit_ms p.commit_ms;
  hist = bump (bucket total_ms) s.hist;
}

unfoldable pub record_idempotent : OpStats → OpStats
record_idempotent s = record s { idempotent = add64 s.idempotent 1 }

abbrev pub no_ops : OpStats
no_ops = record {
  count = 0;
  idempotent = 0;
  total_ms = 0;
  idp_ms = 0;
  lock_ms = 0;
  writes_ms = 0;
  commit_ms = 0;
  hist = 0 ∷ 0 ∷ 0 ∷ 0 ∷ 0 ∷ 0 ∷ [];
}

abbrev nth : ℕ → List ℕ → ℕ
nth i [] = 0
nth zero (n ∷ ns) = n
nth (suc i) (n ∷ ns) = nth i ns

abbrev clear : ℕ → List ℕ → List ℕ
clear i [] = []
clear zero (n ∷ ns) = 0 ∷ ns
clear (suc i) (n ∷ ns) = n ∷ clear i ns

-- The counters are swapped for 0 one by one: the values read, and the counters left. Before the i-th
-- swap other goroutines have recorded calls, which is what `between i` does.
unfoldable pub swap_buckets : (ℕ → OpStats → OpStats) → ℕ → ℕ → OpStats → List ℕ × OpStats
swap_buckets between zero i s = ([], s)
swap_buckets between (suc n) i s =
    let s' = between (7 + i) s in
    let (rest, left) = swap_buckets between n (suc i) (record s' { hist = clear i s'.hist }) in
    (nth i s'.hist ∷ rest, left)

unfoldable pub snapshot : (ℕ → OpStats → OpStats) → OpStats → OpStats × OpStats
unfolding swap_buckets
snapshot between s =
    let s0 = between 0 s in
    let s1 = between 1 (record s0 { count = 0 }) in
    let s2 = between 2 (record s1 { idempotent = 0 }) in
    let s3 = between 3 (record s2 { total_ms = 0 }) in
    let s4 = between 4 (record s3 { idp_ms = 0 }) in
    let s5 = between 5 (record s4 { lock_ms = 0 }) in
    let s6 = between 6 (record s5 { writes_ms = 0 }) in
    let (hist, left) = swap_buckets between 6 0 (record s6 { commit_ms = 0 }) in
    (
      record {
        count = s0.count;
        idempotent = s1.idempotent;
        total_ms = s2.total_ms;
        idp_ms = s3.idp_ms;
        lock_ms = s4.lock_ms;
        writes_ms = s5.writes_ms;
        commit_ms = s6.commit_ms;
        hist = hist;
      },
      left,
    )
