-- ===== src/Handlers/Batch/Panics.antt =====
-- Batch of postgre-setup/go/internal/api/handlers/wallet.go: when a reply is made of a result
-- without an error.
use playground_ledger.Prelude.{
  ℕ, suc, ◌≡◌, refl, ◌∙◌, ap, Bool, true, false, Option, none, some, List, [], ◌∷◌, map, length,
  leb, arith, String, ◌≤◌,
}
use playground_ledger.Store.{Error}
use playground_ledger.Ledger.Batch.{
  BatchOp, exec_batch, unset, Event, row, no_row, failure, synced, Connection,
}
use playground_ledger.Ledger.Batch.Results.{answers, fill, exec_batch-fill}
use playground_ledger.Handlers.Batch.{BatchReply, Checked, refused, accepted, batch_results}
use playground_ledger.Handlers.Batch.Places.{passed, merge, merged, prepend, batch_results-merge}

abbrev pub is_answer : {A : Type 0} → Option A → Bool
is_answer none = false
is_answer (some a) = true

module _ (error_text : Error → String) where
  is_answer-prepend :
      (r : BatchReply) (rest : Option (List BatchReply))
      → is_answer (prepend (some r) rest) ≡ is_answer rest
  is_answer-prepend r none = refl
  is_answer-prepend r (some rs) = refl

  leb-suc : (m n : ℕ) → leb m n ≡ leb (suc m) (suc n)
  leb-suc m n = ground arith

  leb-zero : (n : ℕ) → true ≡ leb 0 n
  leb-zero n = ground arith

  leb-suc_zero : (n : ℕ) → false ≡ leb (suc n) 0
  leb-suc_zero n = ground arith

  one_more :
      (r : BatchReply) (rest : Option (List BatchReply)) (m n : ℕ)
      → is_answer rest ≡ leb m n
      → is_answer (prepend (some r) rest) ≡ leb (suc m) (suc n)
  one_more r rest m n h = is_answer-prepend r rest ∙ h ∙ leb-suc m n

  merge-fill :
      (checked : List Checked) (events : List Event)
      → is_answer
          (merge error_text checked (fill (map (λ op. unset) (passed checked)) (answers events)))
        ≡ leb (length (passed checked)) (length (answers events))
  unfolding merge passed answers fill
  merge-fill [] events = leb-zero (length (answers events))
  merge-fill (refused message ∷ checked) events = is_answer-prepend _ _ ∙ merge-fill checked events
  merge-fill (accepted op ∷ checked) [] = leb-suc_zero (length (passed checked))
  merge-fill (accepted op ∷ checked) (row ∷ events) = one_more _ _ _ _ (merge-fill checked events)
  merge-fill (accepted op ∷ checked) (no_row none ∷ events) =
      one_more _ _ _ _ (merge-fill checked events)
  merge-fill (accepted op ∷ checked) (no_row (some e) ∷ events) =
      one_more _ _ _ _ (merge-fill checked events)
  merge-fill (accepted op ∷ checked) (failure e ∷ events) =
      one_more _ _ _ _ (merge-fill checked events)
  merge-fill (accepted op ∷ checked) (synced ∷ events) = merge-fill (accepted op ∷ checked) events

-- A connection that is had and flushed, and whose pipeline comes to an end.
abbrev pub working : List Event → Connection
working events = record { acquire_error = none; flush_error = none; stuck = none; events = events }

-- The same, but that GetResults returns an error for ever after the events.
abbrev pub hanging : Error → List Event → Connection
hanging e events = record {
  acquire_error = none;
  flush_error = none;
  stuck = some e;
  events = events;
}

some_passed :
    (error_text : Error → String) (checked : List Checked) (ops : List BatchOp)
    (events : List Event) (e : Error)
    → 1 ≤ length ops
    → is_answer (merged error_text checked (exec_batch (hanging e events) ops)) ≡ false
some_passed error_text checked [] events e h = absurd (omega arith)
some_passed error_text checked (op ∷ ops) events e h =
    ap (λ o. is_answer (merged error_text checked o))
      ((exec_batch-fill ops events e none none).3 op)

-- Over a connection that is had and flushed and whose pipeline comes to an end, the handler answers
-- exactly if GetResults returns at least as many answers as there are operations that passed the
-- checks. If it returns fewer, as after a failure that makes the server skip the rest of a group, the
-- handler calls the method of a nil error. If GetResults comes to return errors for ever, the handler
-- does not answer, however many answers came before, unless no operation has passed the checks.
pub batch_results-answers :
    (error_text : Error → String) (checked : List Checked) (events : List Event) (e : Error)
    → (is_answer (batch_results error_text (working events) checked)
        ≡ leb (length (passed checked)) (length (answers events)))
      × (1 ≤ length (passed checked)
          → is_answer (batch_results error_text (hanging e events) checked) ≡ false)
batch_results-answers error_text checked events e = (
  ap (λ o. is_answer o)
        (batch_results-merge error_text (working events) checked
          ∙ ap (merged error_text checked)
              ((exec_batch-fill (passed checked) events e none none).0))
      ∙ merge-fill error_text checked events,
  λ passes.
      ap (λ o. is_answer o) (batch_results-merge error_text (hanging e events) checked)
      ∙ some_passed error_text checked (passed checked) events e passes,
)
