-- ===== src/Handlers/Batch/Places.antt =====
-- Batch of postgre-setup/go/internal/api/handlers/wallet.go: every reply stands at the place of its
-- operation.
use playground_ledger.Prelude.{
  subst, ℕ, suc, ◌≡◌, refl, ◌∙◌, ap, sym, Option, none, some, List, [], ◌∷◌, ◌++◌, map, length,
  length-snoc, append-snoc, arith, String,
}
use playground_ledger.Store.{Error, no_rows}
use playground_ledger.Ledger.Batch.{
  BatchOp, BatchResult, Connection, exec_batch, failed_with, unset, Event,
}
use playground_ledger.Ledger.Batch.Results.{
  answers, fill, length-fill, set_at-append, exec_batch-fill,
}
use playground_ledger.Handlers.Batch.{
  BatchReply, error_reply, Checked, refused, accepted, collect, reply_of, put_reply, scatter,
  batch_results, scatter_results,
}

-- The operations that passed.
unfoldable pub passed : List Checked → List BatchOp
passed [] = []
passed (refused message ∷ checked) = passed checked
passed (accepted op ∷ checked) = op ∷ passed checked

abbrev pub prepend : Option BatchReply → Option (List BatchReply) → Option (List BatchReply)
prepend none rs = none
prepend (some r) none = none
prepend (some r) (some rs) = some (r ∷ rs)

length-map_constant :
    (r : BatchResult) (ops : List BatchOp) → length (map (λ (op : BatchOp). r) ops) ≡ length ops
length-map_constant r [] = refl
length-map_constant r (op ∷ ops) = ap (λ n. suc n) (length-map_constant r ops)

-- ExecBatch does not return, or it returns so many results.
abbrev HasLength : ℕ → Option (List BatchResult) → Type 0
HasLength n none = Unit {0}
HasLength n (some rs) = length rs ≡ n

filled :
    (o : Option (List BatchResult)) (n : ℕ) (rs : List BatchResult)
    → o ≡ some rs
    → length rs ≡ n
    → HasLength n o
filled o n rs e h = subst (HasLength n) (sym e) h

exec_batch-HasLength :
    (acquire flush stuck : Option Error) (events : List Event) (ops : List BatchOp)
    → HasLength (length ops) (
        exec_batch
          (record { acquire_error = acquire; flush_error = flush; stuck = stuck; events = events })
          ops)
unfolding exec_batch
exec_batch-HasLength acquire flush stuck events [] = refl
exec_batch-HasLength none none none events (op ∷ ops) =
    filled _ (length (op ∷ ops)) (fill (map (λ o. unset) (op ∷ ops)) (answers events))
      ((exec_batch-fill (op ∷ ops) events no_rows none none).0)
      (length-fill (map (λ o. unset) (op ∷ ops)) (answers events)
        ∙ length-map_constant unset (op ∷ ops))
exec_batch-HasLength none none (some e) events (op ∷ ops) = tt
exec_batch-HasLength none (some e) stuck events (op ∷ ops) =
    filled _ (length (op ∷ ops)) (map (λ o. failed_with e) (op ∷ ops))
      ((exec_batch-fill (op ∷ ops) events e none stuck).2)
      (length-map_constant (failed_with e) (op ∷ ops))
exec_batch-HasLength (some e) flush stuck events (op ∷ ops) =
    filled _ (length (op ∷ ops)) (map (λ o. failed_with e) (op ∷ ops))
      ((exec_batch-fill (op ∷ ops) events e flush stuck).1)
      (length-map_constant (failed_with e) (op ∷ ops))

module _ (error_text : Error → String) where
  -- A refused operation has its message, any other the reply to the next result.
  unfoldable pub merge : List Checked → List BatchResult → Option (List BatchReply)
  merge [] results = some []
  merge (refused message ∷ checked) results =
      prepend (some (error_reply message)) (merge checked results)
  merge (accepted op ∷ checked) [] = none
  merge (accepted op ∷ checked) (r ∷ results) =
      prepend (reply_of error_text r) (merge checked results)

  abbrev after : List BatchReply → Option (List BatchReply) → Option (List BatchReply)
  after before none = none
  after before (some rs) = some (before ++ rs)

  abbrev Scatters : List BatchReply → List Checked → List BatchResult → Type 0
  Scatters before checked results =
      let c = collect (length before) checked in
      scatter error_text results c.indices (before ++ c.results)
      ≡ after before (merge checked results)

  after_nothing : (m : Option (List BatchReply)) → after [] m ≡ m
  after_nothing none = refl
  after_nothing (some rs) = refl

  after-prepend :
      (x : BatchReply) (before : List BatchReply) (rest : Option (List BatchReply))
      → after (before ++ x ∷ []) rest ≡ after before (prepend (some x) rest)
  after-prepend x before none = refl
  after-prepend x before (some rs) = ap some (append-snoc x before rs)

  -- The reply of one more operation is in its place.
  placed :
      (x : BatchReply) (before : List BatchReply) (checked : List Checked)
      (results : List BatchResult)
      → Scatters (before ++ x ∷ []) checked results
      → scatter error_text results
          (collect (suc (length before)) checked).indices
          (before ++ x ∷ (collect (suc (length before)) checked).results)
        ≡ after before (prepend (some x) (merge checked results))
  placed x before checked results h = rw (length-snoc x before) (
      ap (scatter error_text results (collect (length (before ++ x ∷ [])) checked).indices)
        (sym (append-snoc x before (collect (length (before ++ x ∷ [])) checked).results))
      ∙ h
      ∙ after-prepend x before (merge checked results))

  put_reply-prepend :
      (o : Option BatchReply) (y : BatchReply) (before : List BatchReply) (checked : List Checked)
      (results : List BatchResult)
      → ((x : BatchReply) → Scatters (before ++ x ∷ []) checked results)
      → put_reply error_text o
          (length before)
          (before ++ y ∷ (collect (suc (length before)) checked).results)
          (scatter error_text results (collect (suc (length before)) checked).indices)
        ≡ after before (prepend o (merge checked results))
  put_reply-prepend none y before checked results h = refl
  put_reply-prepend (some x) y before checked results h =
      let c = collect (suc (length before)) checked in
      ap (scatter error_text results c.indices)
        (set_at-append x y before c.results ∙ append-snoc x before c.results)
      ∙ placed x before checked results (h x)

  scatter-merge :
      (checked : List Checked) (before : List BatchReply) (results : List BatchResult)
      → length results ≡ length (passed checked)
      → Scatters before checked results
  unfolding scatter merge collect passed
  scatter-merge [] before [] h = refl
  scatter-merge [] before (r ∷ results) h = absurd (ground arith)
  scatter-merge (refused message ∷ checked) before results h =
      placed (error_reply message) before checked results
        (scatter-merge checked (before ++ error_reply message ∷ []) results h)
  scatter-merge (accepted op ∷ checked) before [] h = absurd (ground arith)
  scatter-merge (accepted op ∷ checked) before (r ∷ results) h =
      put_reply-prepend (reply_of error_text r) (error_reply "") before checked results
        (λ x. scatter-merge checked (before ++ x ∷ []) results (omega arith))

  collect-passed : (checked : List Checked) (i : ℕ) → (collect i checked).batch_ops ≡ passed checked
  unfolding collect passed
  collect-passed [] i = refl
  collect-passed (refused message ∷ checked) i = collect-passed checked (suc i)
  collect-passed (accepted op ∷ checked) i = ap (λ ops. op ∷ ops) (collect-passed checked (suc i))

  -- No reply, if ExecBatch does not return.
  abbrev pub merged : List Checked → Option (List BatchResult) → Option (List BatchReply)
  merged checked none = none
  merged checked (some results) = merge checked results

  scatter_results-merged :
      (checked : List Checked) (o : Option (List BatchResult))
      → HasLength (length (passed checked)) o
      → scatter_results error_text o (collect 0 checked).indices (collect 0 checked).results
        ≡ merged checked o
  scatter_results-merged checked none h = refl
  scatter_results-merged checked (some results) h =
      scatter-merge checked [] results h ∙ after_nothing (merge checked results)

  -- The reply to a request is made operation by operation: one that is refused has its message, and
  -- the others have, in order, the replies to the results of ExecBatch. If ExecBatch does not return,
  -- neither does the handler.
  pub batch_results-merge :
      (connection : Connection) (checked : List Checked)
      → batch_results error_text connection checked
        ≡ merged checked (exec_batch connection (passed checked))
  unfolding batch_results
  batch_results-merge connection checked = rw (collect-passed checked 0) (
      scatter_results-merged checked (exec_batch connection (passed checked)) (
        exec_batch-HasLength connection.acquire_error connection.flush_error connection.stuck
          connection.events (passed checked)))
