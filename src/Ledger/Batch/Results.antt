-- ===== src/Ledger/Batch/Results.antt =====
-- The loop of ExecBatch (postgre-setup/go/internal/ledger/service.go) gives the results by position:
-- the k-th operation gets the k-th answer that is no end of a group.
use playground_ledger.Prelude.{
  suc, ◌≡◌, refl, ◌∙◌, ap, true, false, Option, none, some, List, [], ◌∷◌, ◌++◌, map, length,
  length-append, length-snoc, append-snoc, ltb, arith, if◌then◌else◌,
}
use playground_ledger.Store.{Error}
use playground_ledger.Ledger.Batch.{
  BatchOp, BatchResult, succeeded, failed_with, unset, Event, row, no_row, failure, synced, closed,
  set_at, read_results, exec_batch, results_of,
}

-- The results that the events carry, in order.
unfoldable pub answers : List Event → List BatchResult
answers [] = []
answers (row ∷ events) = succeeded ∷ answers events
answers (no_row close_err ∷ events) = closed close_err ∷ answers events
answers (failure e ∷ events) = failed_with e ∷ answers events
answers (synced ∷ events) = answers events

-- Each operation takes the next answer; those that none is left for keep what they have.
unfoldable pub fill : List BatchResult → List BatchResult → List BatchResult
fill [] found = []
fill (r ∷ results) [] = r ∷ results
fill (r ∷ results) (x ∷ found) = x ∷ fill results found

fill-none : (results : List BatchResult) → fill results [] ≡ results
unfolding fill
fill-none [] = refl
fill-none (r ∷ results) = refl

pub set_at-append :
    {A : Type 0} (x r : A) (set rest : List A)
    → set_at (length set) x (set ++ r ∷ rest) ≡ (set ++ x ∷ []) ++ rest
unfolding set_at
set_at-append x r [] rest = refl
set_at-append x r (y ∷ set) rest = ap (λ ys. y ∷ ys) (set_at-append x r set rest)

in_range :
    (r : BatchResult) (set rest : List BatchResult)
    → ltb (length set) (length (set ++ r ∷ rest)) ≡ true
in_range r set rest = grind (arith, length-append set (r ∷ rest))

out_of_range : (set : List BatchResult) → ltb (length set) (length (set ++ [])) ≡ false
out_of_range set = grind (arith, length-append set [])

-- The events from here on are given out as they should be.
abbrev Fills : List Event → Type 0
Fills events =
    (set rest : List BatchResult)
    → read_results (length set) (set ++ rest) events ≡ set ++ fill rest (answers events)

advance :
    (x : BatchResult) (events : List Event)
    → Fills events
    → (set rest : List BatchResult)
    → (if ltb (length set) (length (set ++ rest))
        then read_results (suc (length set)) (set_at (length set) x (set ++ rest)) events
        else set ++ rest)
      ≡ set ++ fill rest (x ∷ answers events)
unfolding fill
advance x events fills set [] = rw (out_of_range set) refl
advance x events fills set (r ∷ rest) =
    rw (in_range r set rest, set_at-append x r set rest, length-snoc x set)
      (fills (set ++ x ∷ []) rest ∙ append-snoc x set (fill rest (answers events)))

pause :
    (events : List Event)
    → Fills events
    → (set rest : List BatchResult)
    → (if ltb (length set) (length (set ++ rest))
        then read_results (length set) (set ++ rest) events
        else set ++ rest)
      ≡ set ++ fill rest (answers events)
unfolding fill
pause events fills set [] = rw (out_of_range set) refl
pause events fills set (r ∷ rest) = rw (in_range r set rest) (fills set (r ∷ rest))

read_results-fill : (events : List Event) → Fills events
unfolding read_results answers
read_results-fill [] set rest = rw (fill-none rest) refl
read_results-fill (row ∷ events) set rest =
    advance succeeded events (read_results-fill events) set rest
read_results-fill (no_row close_err ∷ events) set rest =
    advance (closed close_err) events (read_results-fill events) set rest
read_results-fill (failure e ∷ events) set rest =
    advance (failed_with e) events (read_results-fill events) set rest
read_results-fill (synced ∷ events) set rest = pause events (read_results-fill events) set rest

pub length-fill : (results found : List BatchResult) → length (fill results found) ≡ length results
unfolding fill
length-fill [] found = refl
length-fill (r ∷ results) [] = refl
length-fill (r ∷ results) (x ∷ found) = ap (λ n. suc n) (length-fill results found)

results_of-fill :
    (ops : List BatchOp) (events : List Event) (s : Option Error)
    → results_of
        (record { acquire_error = none; flush_error = none; stuck = s; events = events })
        ops
      ≡ fill (map (λ op. unset) ops) (answers events)
unfolding results_of fill
results_of-fill [] events s = refl
results_of-fill (op ∷ ops) events s = read_results-fill events [] (map (λ o. unset) (op ∷ ops))

-- Over a connection that is had and flushed, and whose pipeline comes to an end, ExecBatch gives each
-- operation the next answer that GetResults returns, whatever operation that answer was for, and
-- leaves an operation for which none is left neither succeeded nor with an error; if the connection
-- fails, each operation has the error of the connection. If the pipeline comes to no end, ExecBatch
-- does not return, unless there are no operations.
pub exec_batch-fill :
    (ops : List BatchOp) (events : List Event) (e : Error) (f s : Option Error)
    → (exec_batch
          (record { acquire_error = none; flush_error = none; stuck = none; events = events })
          ops
        ≡ some (fill (map (λ op. unset) ops) (answers events)))
      × (exec_batch
            (record { acquire_error = some e; flush_error = f; stuck = s; events = events })
            ops
          ≡ some (map (λ op. failed_with e) ops))
      × (exec_batch
            (record { acquire_error = none; flush_error = some e; stuck = s; events = events })
            ops
          ≡ some (map (λ op. failed_with e) ops))
      × ((op : BatchOp)
          → exec_batch
              (record { acquire_error = none; flush_error = none; stuck = some e; events = events })
              (op ∷ ops)
            ≡ none)
unfolding exec_batch results_of fill
exec_batch-fill [] events e f s = (refl, refl, refl, λ op. refl)
exec_batch-fill (op ∷ ops) events e f s =
    (ap some (results_of-fill (op ∷ ops) events none), refl, refl, λ o. refl)
