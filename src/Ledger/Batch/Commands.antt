-- ===== src/Ledger/Batch/Commands.antt =====
-- What ExecBatch (postgre-setup/go/internal/ledger/service.go) sends: the operations in order, in
-- groups of at most batchSyncGroup that a Sync ends.
use playground_ledger.Prelude.{
  ℕ, suc, ◌+◌, ◌-◌, ◌%◌, ◌==◌, ◌||◌, ◌&&◌, ◌≡◌, refl, ◌∙◌, ap, subst, not, Bool, true, false, List,
  [], ◌∷◌, map, length, ltb, arith, inl, inr, Bool-cases, ℤ, if◌then◌else◌, keep,
}
use playground_ledger.Ledger.Batch.{
  BatchOpType, BatchOp, Command, deposit_sql, withdraw_sql, sync, query_of, batch_sync_group,
  send_from, send,
}

abbrev pub is_sync : Command → Bool
is_sync sync = true
is_sync (deposit_sql id amount) = false
is_sync (withdraw_sql id amount) = false

-- After `k` queries since the last Sync: each group has at most batch_sync_group queries, and a Sync
-- is the end of the last one.
unfoldable pub grouped : ℕ → List Command → Bool
grouped k [] = k == 0
grouped k (c ∷ commands) =
    if is_sync c then grouped 0 commands else ltb k batch_sync_group && grouped (suc k) commands

query-is_sync : (t : BatchOpType) (id : ℕ) (amount : ℤ) → is_sync (query_of t id amount) ≡ false
query-is_sync BatchOpType.deposit id amount = refl
query-is_sync BatchOpType.withdraw id amount = refl

abbrev query : BatchOp → Command
query op = query_of op.op_type op.account_id op.amount

keep-query :
    (op : BatchOp) (rest : List Command)
    → keep (λ c. not (is_sync c)) (query op ∷ rest) ≡ query op ∷ keep (λ c. not (is_sync c)) rest
keep-query op rest = rw (query-is_sync op.op_type op.account_id op.amount) refl

queries-send_from :
    (n i : ℕ) (ops : List BatchOp) → keep (λ c. not (is_sync c)) (send_from n i ops) ≡ map query ops
unfolding send_from
queries-send_from n i [] = refl
queries-send_from n i (op ∷ ops) =
    elim (Bool-cases (((i + 1) % batch_sync_group == 0) || (i == n - 1))) [
      | inl ends ↦ rw ends (
          keep-query op (sync ∷ send_from n (suc i) ops)
          ∙ ap (λ cs. query op ∷ cs) (queries-send_from n (suc i) ops))
      | inr inside ↦ rw inside (
          keep-query op (send_from n (suc i) ops)
          ∙ ap (λ cs. query op ∷ cs) (queries-send_from n (suc i) ops))
    ]

grouped-query :
    (k : ℕ) (op : BatchOp) (rest : List Command)
    → ltb k batch_sync_group ≡ true
    → grouped (suc k) rest ≡ true
    → grouped k (query op ∷ rest) ≡ true
unfolding grouped
grouped-query k op rest h g = rw (query-is_sync op.op_type op.account_id op.amount, h) g

grouped-sync :
    (k : ℕ) (rest : List Command) → grouped 0 rest ≡ true → grouped k (sync ∷ rest) ≡ true
unfolding grouped
grouped-sync k rest h = h

below : (i : ℕ) → ltb (i % batch_sync_group) batch_sync_group ≡ true
below i = ground arith

grouped-send_from :
    (n i : ℕ) (op : BatchOp) (ops : List BatchOp)
    → i + suc (length ops) ≡ n
    → grouped (i % batch_sync_group) (send_from n i (op ∷ ops)) ≡ true
unfolding send_from grouped
grouped-send_from n i op [] h = rw last (
    grouped-query (i % batch_sync_group) op (sync ∷ []) (below i)
      (grouped-sync (suc (i % batch_sync_group)) [] refl))
  where
    last : (((i + 1) % batch_sync_group == 0) || (i == n - 1)) ≡ true
    last = ground arith
grouped-send_from n i op (o ∷ ops) h =
    let next = grouped-send_from n (suc i) o ops (omega arith) in
    elim (Bool-cases (((i + 1) % batch_sync_group == 0) || (i == n - 1))) [
      | inl ends ↦ rw ends (
          grouped-query (i % batch_sync_group) op (sync ∷ send_from n (suc i) (o ∷ ops)) (below i) (
            grouped-sync (suc (i % batch_sync_group)) (send_from n (suc i) (o ∷ ops))
              (at next 0 (restarts ends))))
      | inr inside ↦ rw inside (
          grouped-query (i % batch_sync_group) op (send_from n (suc i) (o ∷ ops)) (below i)
            (at next (suc (i % batch_sync_group)) (goes_on inside)))
    ]
  where
    at :
        grouped (suc i % batch_sync_group) (send_from n (suc i) (o ∷ ops)) ≡ true
        → (k : ℕ) → suc i % batch_sync_group ≡ k
        → grouped k (send_from n (suc i) (o ∷ ops)) ≡ true
    at next k e = subst (λ (k : ℕ). grouped k (send_from n (suc i) (o ∷ ops)) ≡ true) e next

    restarts :
        (((i + 1) % batch_sync_group == 0) || (i == n - 1)) ≡ true → suc i % batch_sync_group ≡ 0
    restarts e = ground arith

    goes_on :
        (((i + 1) % batch_sync_group == 0) || (i == n - 1)) ≡ false
        → suc i % batch_sync_group ≡ suc (i % batch_sync_group)
    goes_on e = ground arith

-- ExecBatch sends one query for each operation, in their order, and nothing else but Syncs: at most
-- ten queries stand between two of them or before the first, and none after the last.
pub send-grouped :
    (ops : List BatchOp)
    → (keep (λ c. not (is_sync c)) (send ops)
        ≡ map (λ op. query_of op.op_type op.account_id op.amount) ops)
      × (grouped 0 (send ops) ≡ true)
unfolding send grouped
send-grouped [] = (queries-send_from 0 0 [], refl)
send-grouped (op ∷ ops) = (
  queries-send_from (suc (length ops)) 0 (op ∷ ops),
  grouped-send_from (suc (length ops)) 0 op ops (omega arith),
)
