-- ===== src/Rpc/Transaction/Integrity.antt =====
-- indexer/internal/rpc/events.go: a commit and the integrity of the tables, under any outcomes.
use pulsar_app.Base.{ℕ, List, Option, none, some, Str, ℤ, Result, ok, err, sym, subst, inl, inr}
use pulsar_app.Store.{Fault, StoreError, Dialect, Event, Db}
use pulsar_app.Store.Contracts.{set_progress}
use pulsar_app.Store.Contracts.Effects.{set_progress_effect}
use pulsar_app.Store.Events.{insert}
use pulsar_app.Store.Integrity.{
  IsIntegral, set_progress-IsIntegral, insert-IsIntegral, rollback-IsIntegral,
}
use pulsar_app.Rpc.Transaction.{
  Ending, committed, rolled_back, lost, TxOutcome, pointers, rollback, commit, after_begin,
  after_insert, after_progress, commit_end,
}

module _ (d : Dialect) (o : TxOutcome) (id : Str) (batch : List (Option Event)) (highest : ℤ)
    (db : Db) (h : IsIntegral d db) where
  abbrev inserted : Db
  inserted = (insert d o.insert_outcome batch db).1

  undone : IsIntegral d (rollback db inserted)
  undone = rollback-IsIntegral d db h o.insert_outcome batch

  -- The tables once the progress is recorded, and the same rolled back.
  abbrev advanced : Db
  advanced = (set_progress o.progress_outcome id highest inserted).1

  advanced_undone : IsIntegral d (rollback db advanced)
  advanced_undone = elim (set_progress_effect o.progress_outcome id highest inserted) [
    | inl e ↦ subst (λ (t : Db). IsIntegral d (rollback db t)) (sym e) undone
    | inr e ↦ subst (λ (t : Db). IsIntegral d (rollback db t)) (sym e) undone
  ]

  advanced_done : IsIntegral d advanced
  advanced_done =
      set_progress-IsIntegral d inserted (insert-IsIntegral d db h o.insert_outcome batch)
        o.progress_outcome id highest

  end_lem : (x : Ending) → IsIntegral d (commit_end x db advanced).1
  unfolding commit_end
  end_lem committed = advanced_done
  end_lem (rolled_back f) = advanced_undone
  end_lem (lost f) = advanced_done

  progress_lem :
      (r : Result StoreError (Unit {0})) → IsIntegral d (after_progress o.ending db (r, advanced)).1
  unfolding after_progress
  progress_lem (err e) = advanced_undone
  progress_lem (ok u) = end_lem o.ending

  insert_lem :
      (r : Result StoreError ℕ) → IsIntegral d (after_insert o id highest db (r, inserted)).1
  unfolding after_insert
  insert_lem (err e) = undone
  insert_lem (ok n) = progress_lem (set_progress o.progress_outcome id highest inserted).0

  begin_lem : (f : Option Fault) → IsIntegral d (after_begin f d o id batch highest db).1
  unfolding after_begin
  begin_lem (some f) = h
  begin_lem none = insert_lem (insert d o.insert_outcome batch db).0

pub commit-IsIntegral :
    (d : Dialect) (o : TxOutcome) (id : Str) (events : List Event) (highest : ℤ) (db : Db)
    → IsIntegral d db
    → IsIntegral d (commit d o id events highest db).1
unfolding commit
commit-IsIntegral d o id events highest db h =
    begin_lem d o id (pointers events) highest db h o.begin_fault
