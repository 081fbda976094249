-- ===== src/Stats/Totals.antt =====
-- opStats of postgre-setup/go/internal/ledger/service.go: the histogram against the counters.
use playground_ledger.Prelude.{
  ℕ, zero, suc, ◌+◌, ◌%◌, ◌^◌, ◌≤◌, ◌<◌, ◌≡◌, refl, sym, ap, ◌∙◌, List, [], ◌∷◌, arith, length,
}
use playground_ledger.Stats.{
  OpStats, Phases, bucket_from, bucket, bump, record_op, record_idempotent, no_ops, snapshot,
  swap_buckets,
}

-- The calls that the histogram has counted.
abbrev pub hist_total : List ℕ → ℕ
hist_total [] = 0
hist_total (n ∷ ns) = n + hist_total ns

-- Six buckets, which together hold as many calls as were counted.
pub record IsBalanced (s : OpStats) : Type 0 where
  pub six : length s.hist ≡ 6
  pub counted : hist_total s.hist % 2 ^ 64 ≡ s.count

bucket_lt_six : (ms : ℕ) → bucket ms < 6
unfolding bucket bucket_from
bucket_lt_six ms = ground arith

length-bump : (i : ℕ) (ns : List ℕ) → length (bump i ns) ≡ length ns
unfolding bump
length-bump i [] = omega arith
length-bump zero (n ∷ ns) = omega arith
length-bump (suc i) (n ∷ ns) = omega (arith, length-bump i ns)

hist_total-bump :
    (i : ℕ) (ns : List ℕ)
    → i < length ns
    → hist_total (bump i ns) % 2 ^ 64 ≡ (hist_total ns + 1) % 2 ^ 64
unfolding bump
hist_total-bump i [] h = absurd (omega arith)
hist_total-bump zero (n ∷ ns) h = omega arith
hist_total-bump (suc i) (n ∷ ns) h = omega (arith, hist_total-bump i ns (omega arith))

-- A recorded call falls in the bucket whose bounds enclose its time, with 0 below the first
-- bucket and no bound above the last.
pub bucket_bounds :
    (ms : ℕ)
    → (bucket ms ≡ 0 → ms < 5)
      × (bucket ms ≡ 1 → (5 ≤ ms) × (ms < 15))
      × (bucket ms ≡ 2 → (15 ≤ ms) × (ms < 30))
      × (bucket ms ≡ 3 → (30 ≤ ms) × (ms < 60))
      × (bucket ms ≡ 4 → (60 ≤ ms) × (ms < 120))
      × (bucket ms ≡ 5 → 120 ≤ ms)
      × (bucket ms < 6)
unfolding bucket bucket_from
bucket_bounds ms = ground arith

-- A snapshot that nothing comes between hands out what was counted and leaves nothing.
snapshot-quiet : (s : OpStats) → length s.hist ≡ 6 → snapshot (λ i t. t) s ≡ (s, no_ops)
unfolding snapshot swap_buckets
snapshot-quiet s h = six_buckets s.hist h refl
  where
    six_buckets :
        (hist : List ℕ) → length hist ≡ 6 → s.hist ≡ hist → snapshot (λ i t. t) s ≡ (s, no_ops)
    six_buckets (a ∷ b ∷ c ∷ d ∷ e ∷ f ∷ []) h is_hist =
        ap (λ h. snapshot (λ i t. t) (record s { hist = h })) is_hist
        ∙ ap (λ (h : List ℕ). (record s { hist = h }, no_ops)) (sym is_hist)
    six_buckets [] h is_hist = absurd (omega arith)
    six_buckets (a ∷ []) h is_hist = absurd (omega arith)
    six_buckets (a ∷ b ∷ []) h is_hist = absurd (omega arith)
    six_buckets (a ∷ b ∷ c ∷ []) h is_hist = absurd (omega arith)
    six_buckets (a ∷ b ∷ c ∷ d ∷ []) h is_hist = absurd (omega arith)
    six_buckets (a ∷ b ∷ c ∷ d ∷ e ∷ []) h is_hist = absurd (omega arith)
    six_buckets (a ∷ b ∷ c ∷ d ∷ e ∷ f ∷ g ∷ gs) h is_hist = absurd (omega arith)

-- Recording a call, of any length and with any phases, keeps six buckets whose sum is the number
-- of calls counted, modulo 2 ^ 64, and so does counting an idempotent replay. A snapshot hands out
-- the balanced counters and leaves balanced ones, if no call is recorded between two of its swaps.
pub record_op-IsBalanced :
    (s : OpStats) (ms : ℕ) (p : Phases)
    → IsBalanced s
    → IsBalanced (record_op s ms p)
      × IsBalanced (record_idempotent s)
      × IsBalanced (snapshot (λ i t. t) s).0
      × IsBalanced (snapshot (λ i t. t) s).1
unfolding record_op record_idempotent
record_op-IsBalanced s ms p v = (
  record {
    six = omega (arith, length-bump (bucket ms) s.hist, v.six);
    counted = omega (
      arith,
      hist_total-bump (bucket ms) s.hist (omega (arith, bucket_lt_six ms, v.six)),
      v.counted,
    );
  },
  record { six = v.six; counted = v.counted },
  rw (snapshot-quiet s v.six) v,
  rw (snapshot-quiet s v.six) (omega arith),
)
