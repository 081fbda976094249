-- ===== src/Client/Reporter.antt =====
-- postgre-setup/go/cmd/stress/reporter.go: the counters of a run and its percentiles. Latencies are
-- values of a type with an order, and the index that floating-point arithmetic yields is a parameter.
use playground_ledger.Prelude.{
  ℕ, zero, suc, ◌+◌, ◌-◌, ◌≤◌, ◌<◌, ◌≡◌, refl, arith, Bool, true, false, Bool-cases, inl, inr,
  Option, none, some, List, [], ◌∷◌, ◌++◌, length, length-append, All, ltb, String, str_eq, ℤ, pos,
  negsuc, if◌then◌else◌,
}
use playground_ledger.Prelude.Sort.{sort_by, length-sort_by, All-sort_by}

-- errorsByType: the counts by type, each type once.
abbrev pub Counts : Type 0
Counts = List (String × ℕ)

-- `errorsByType[t]++`
unfoldable pub count : String → Counts → Counts
count t [] = (t, 1) ∷ []
count t ((u, n) ∷ counts) = if str_eq t u then (u, n + 1) ∷ counts else (u, n) ∷ count t counts

unfoldable pub counted : Counts → ℕ
counted [] = 0
counted ((u, n) ∷ counts) = n + counted counts

-- The counters of Reporter, which are ints of a size that no run reaches.
pub record Reporter (L : Type 0) : Type 0 where
  pub total_txns : ℕ
  pub success_count : ℕ
  pub error_count : ℕ
  pub errors_by_type : Counts
  pub latencies : List L
  pub http_reqs : ℕ

abbrev pub new_reporter : {L : Type 0} → Reporter L
new_reporter = record {
  total_txns = 0;
  success_count = 0;
  error_count = 0;
  errors_by_type = [];
  latencies = [];
  http_reqs = 0;
}

unfoldable pub record_http : {L : Type 0} → Reporter L → Reporter L
record_http r = record r { http_reqs = r.http_reqs + 1 }

abbrev pub count_error : {L : Type 0} → String → Reporter L → Reporter L
count_error error_type r = record r {
  error_count = r.error_count + 1;
  errors_by_type =
      if str_eq error_type "" then r.errors_by_type else count error_type r.errors_by_type;
}

unfoldable pub record_txn : {L : Type 0} → Bool → L → String → Reporter L → Reporter L
record_txn success latency error_type r =
    let timed = record r {
      total_txns = r.total_txns + 1;
      latencies = r.latencies ++ latency ∷ [];
    } in
    if success
    then record timed { success_count = timed.success_count + 1 }
    else count_error error_type timed

-- Each transaction is a success or an error and has its latency; no more errors have a type than
-- there are errors.
pub record IsTallied {L : Type 0} (r : Reporter L) : Type 0 where
  pub split : r.total_txns ≡ r.success_count + r.error_count
  pub timed : length r.latencies ≡ r.total_txns
  pub typed : counted r.errors_by_type ≤ r.error_count

counted-count : (t : String) (counts : Counts) → counted (count t counts) ≡ counted counts + 1
unfolding count counted
counted-count t [] = refl
counted-count t ((u, n) ∷ counts) = elim (Bool-cases (str_eq t u)) [
  | inl same ↦ rw same (omega arith)
  | inr differ ↦ rw differ (omega (arith, counted-count t counts))
]

-- A new reporter is tallied, and RecordHTTP and Record keep it so.
pub record_txn-IsTallied :
    {L : Type 0} (success : Bool) (latency : L) (error_type : String) (r : Reporter L)
    → IsTallied r
    → IsTallied {L = L} new_reporter
      × IsTallied (record_http r)
      × IsTallied (record_txn success latency error_type r)
unfolding record_http record_txn counted
record_txn-IsTallied success latency error_type r h = (
  record { split = refl; timed = refl; typed = omega arith },
  record { split = h.split; timed = h.timed; typed = h.typed },
  tallied success,
)
  where
    longer : length (r.latencies ++ latency ∷ []) ≡ r.total_txns + 1
    longer = omega (arith, length-append r.latencies (latency ∷ []), h.timed)

    typed_by :
        (b : Bool)
        → counted (if b then r.errors_by_type else count error_type r.errors_by_type)
          ≤ r.error_count + 1
    typed_by true = omega (arith, h.typed)
    typed_by false = omega (arith, h.typed, counted-count error_type r.errors_by_type)

    tallied : (b : Bool) → IsTallied (record_txn b latency error_type r)
    tallied true = record { split = omega (arith, h.split); timed = longer; typed = h.typed }
    tallied false = record {
      split = omega (arith, h.split);
      timed = longer;
      typed = typed_by (str_eq error_type "");
    }

-- percentile: `rank p n` is int(math.Ceil(float64(p)/100*float64(n))) - 1.
module _ {L : Type 0} (rank : ℕ → ℕ → ℤ) (le : L → L → Bool) (nothing : L) where
  unfoldable pub nth : ℕ → List L → Option L
  nth i [] = none
  nth zero (x ∷ xs) = some x
  nth (suc i) (x ∷ xs) = nth i xs

  -- The index, between the first and the last.
  abbrev pub clamp : ℕ → ℤ → ℕ
  clamp n (negsuc i) = 0
  clamp n (pos i) = if ltb i n then i else n - 1

  -- 0 of no latencies; `none` would be an index out of range.
  unfoldable pub percentile : List L → ℕ → Option L
  percentile [] p = some nothing
  percentile (x ∷ xs) p =
      let s = sort_by le (x ∷ xs) in nth (clamp (length s) (rank p (length s))) s

  nth-All :
      (P : L → Type 0) (i : ℕ) (xs : List L)
      → i < length xs
      → All P xs
      → (y : L) × (nth i xs ≡ some y) × P y
  unfolding nth
  nth-All P i [] h all = absurd (omega arith)
  nth-All P zero (x ∷ xs) h all = (x, refl, all.0)
  nth-All P (suc i) (x ∷ xs) h all = nth-All P i xs (omega arith) all.1

  clamp-less : (n : ℕ) (i : ℤ) → 0 < n → clamp n i < n
  clamp-less n i h = ground arith

  -- Whatever index the arithmetic yields, a percentile of one latency or more is one of them: it is
  -- there, and has every property that all of them have.
  percentile-All :
      (P : L → Type 0) (x : L) (xs : List L) (p : ℕ)
      → All P (x ∷ xs)
      → (y : L) × (percentile (x ∷ xs) p ≡ some y) × P y
  unfolding percentile
  percentile-All P x xs p all =
      let s = sort_by le (x ∷ xs) in
      nth-All P (clamp (length s) (rank p (length s))) s
        (clamp-less (length s) (rank p (length s)) (omega (arith, length-sort_by le (x ∷ xs))))
        (All-sort_by le P (x ∷ xs) all)
