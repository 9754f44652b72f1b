-- ===== src/Rpc/Transaction.antt =====
-- indexer/internal/rpc/events.go: commit, with what the database did with each of its statements.
pub mod Commit
pub mod Effects
pub mod Integrity
use pulsar_app.Base.{ℕ, List, [], ◌∷◌, Option, none, some, Str, ℤ, Result, ok, err}
use pulsar_app.Store.{Fault, Outcome, Dialect, Event, Db, Done}
use pulsar_app.Store.Contracts.{set_progress}
use pulsar_app.Store.Contracts as Contracts
use pulsar_app.Store.Events.{insert}
use pulsar_app.Rpc.{PollError, inserting, advancing, beginning, committing}

-- What a transaction's commit did: `lost` is one that took effect and whose answer was lost.
pub data Ending : Type 0 where
  committed : Ending
  rolled_back lost : Fault → Ending

-- What the database did with the statements of one commit.
pub record TxOutcome : Type 0 where
  pub begin_fault : Option Fault
  pub insert_outcome : Outcome
  pub progress_outcome : Outcome
  pub ending : Ending

-- A rollback restores the rows; a sequence is not restored.
abbrev pub rollback : Db → Db → Db
rollback old new = record old { sequence = new.sequence }

commit_end : Ending → Db → Db → Result PollError (Unit {0}) × Db
commit_end committed old new = (ok tt, new)
commit_end (rolled_back f) old new = (err (committing f), rollback old new)
commit_end (lost f) old new = (err (committing f), new)

after_progress : Ending → Db → Done (Unit {0}) → Result PollError (Unit {0}) × Db
unfolding commit_end
after_progress ending old (err e, new) = (err (advancing e), rollback old new)
after_progress ending old (ok u, new) = commit_end ending old new

after_insert : TxOutcome → Str → ℤ → Db → Done ℕ → Result PollError (Unit {0}) × Db
unfolding after_progress
after_insert o contract_id highest old (err e, new) = (err (inserting e), rollback old new)
after_insert o contract_id highest old (ok n, new) =
    after_progress o.ending old (set_progress o.progress_outcome contract_id highest new)

after_begin :
    Option Fault
    → Dialect
    → TxOutcome
    → Str
    → List (Option Event)
    → ℤ
    → Db
    → Result PollError (Unit {0}) × Db
unfolding after_insert
after_begin (some f) dialect o contract_id events highest db = (err (beginning f), db)
after_begin none dialect o contract_id events highest db =
    after_insert o contract_id highest db (insert dialect o.insert_outcome events db)

-- The batch as pointers, none of them nil.
abbrev pub pointers : List Event → List (Option Event)
pointers [] = []
pointers (e ∷ es) = some e ∷ pointers es

-- `commit`
unfoldable pub commit :
    Dialect → TxOutcome → Str → List Event → ℤ → Db → Result PollError (Unit {0}) × Db
unfolding after_begin
commit dialect o contract_id events highest db =
    after_begin o.begin_fault dialect o contract_id (pointers events) highest db
