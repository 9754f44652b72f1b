-- ===== src/Rpc/Poller/Integrity.antt =====
-- indexer/internal/rpc/events.go: a tick and the integrity of the tables, branch by branch.
use pulsar_app.Base.{
  ℕ, Bool, true, false, if◌then◌else◌, ◌∷◌, Option, none, some, Str, ltb, Result, ok, err, sym,
  subst, ap, inl, inr,
}
use pulsar_app.Decoder.Xdr.{XdrLib}
use pulsar_app.Store.{Outcome, StoreError, Dialect, Contract, Db}
use pulsar_app.Store.Contracts as Contracts
use pulsar_app.Store.Integrity.{IsIntegral}
use pulsar_app.Rpc.{
  Health, CallError, Caller, PollError, call, bad_page_cursor, window, from_floor, not_outside,
  reading_progress, inserting, advancing, beginning, committing, is_range_error,
}
use pulsar_app.Rpc.Transaction.{TxOutcome}
use pulsar_app.Rpc.Transaction.Integrity.{commit-IsIntegral}
use pulsar_app.Rpc.Poller.{
  Drained, Remote, Drain, Ticked, start_of, drain, commit_drained, drained_from_floor, range_switch,
  with_health, handle_range_error, drain_failed, after_drain, with_progress_read, tick_once,
}
use pulsar_app.Rpc.Poller.Failed.{commit_drained_cases}

module _ (xdr : XdrLib) (parse_time : Str → Option ℕ) {Cursor Server : Type 0}
    (caller : Caller Cursor Server) (parse_cursor : Str → Option Cursor) (d : Dialect)
    (o : TxOutcome) (id : Str) where
  -- The tables that a tick leaves, if it ends, are integral.
  abbrev pub EndsIntegral : Ticked xdr parse_time caller parse_cursor → Type 0
  EndsIntegral none = Unit
  EndsIntegral (some (result, db, r)) = IsIntegral d db

  if_lem :
      (b : Bool) (x y : Ticked xdr parse_time caller parse_cursor)
      → EndsIntegral x
      → EndsIntegral y
      → EndsIntegral (if b then x else y)
  if_lem true x y p q = p
  if_lem false x y p q = q

  module _ (db : Db) (h : IsIntegral d db) where
    commit_drained-IsIntegral :
        (kept : Drained)
        → IsIntegral d (commit_drained xdr parse_time caller parse_cursor d o id kept db).1
    commit_drained-IsIntegral kept =
        elim (commit_drained_cases xdr parse_time caller parse_cursor d o id kept db) [
          | inl (e, same) ↦ subst (IsIntegral d) (sym (ap (λ x. x.1) same)) h
          | inr (e, es, k, written) ↦
              subst (IsIntegral d) (sym (ap (λ x. x.1) written))
                (commit-IsIntegral d o id (e ∷ es) kept.highest db h)
        ]

    module _ (fuel b : ℕ) where
      floor_lem :
          (x : Drain xdr parse_time caller parse_cursor)
          → EndsIntegral (drained_from_floor xdr parse_time caller parse_cursor d o id db x)
      unfolding drained_from_floor
      floor_lem none = tt
      floor_lem (some (err e, r)) = h
      floor_lem (some (ok kept, r)) = commit_drained-IsIntegral kept

      switch_lem :
          (start : ℕ) (e : CallError) (health : Health) (r : Remote Server)
          → EndsIntegral
              (range_switch xdr parse_time caller parse_cursor fuel d o id b start e health db r)
      unfolding range_switch
      switch_lem start e health r = if_lem (ltb health.latest_ledger start) _ _ h (
          if_lem (ltb start health.oldest_ledger) _ _
            (floor_lem (drain xdr parse_time caller parse_cursor fuel id b health.oldest_ledger r))
            h)

      health_lem :
          (start : ℕ) (e : CallError) (count : ℕ) (x : Result CallError Health × Server)
          → EndsIntegral
              (with_health xdr parse_time caller parse_cursor fuel d o id b start e db count x)
      unfolding with_health
      health_lem start e count (err he, server) = h
      health_lem start e count (ok health, server) =
          switch_lem start e health (record { server = server; unknown = count })

      failed_lem :
          (start : ℕ) (x : PollError) (r : Remote Server)
          → EndsIntegral
              (drain_failed xdr parse_time caller parse_cursor fuel d o id b start x db r)
      unfolding drain_failed handle_range_error
      failed_lem start (call e) r =
          if_lem (is_range_error e) _ _ (health_lem start e r.unknown (caller.get_health r.server))
            h
      failed_lem start (bad_page_cursor s) r = h
      failed_lem start (window e) r = h
      failed_lem start (from_floor e) r = h
      failed_lem start (not_outside n y e) r = h
      failed_lem start (reading_progress e) r = h
      failed_lem start (inserting e) r = h
      failed_lem start (advancing e) r = h
      failed_lem start (beginning f) r = h
      failed_lem start (committing f) r = h

      drain_lem :
          (start : ℕ) (x : Drain xdr parse_time caller parse_cursor)
          → EndsIntegral (after_drain xdr parse_time caller parse_cursor fuel d o id b start db x)
      unfolding after_drain
      drain_lem start none = tt
      drain_lem start (some (err e, r)) = failed_lem start e r
      drain_lem start (some (ok kept, r)) = commit_drained-IsIntegral kept

      progress_lem :
          (r : Remote Server) (x : Result StoreError Contract)
          → EndsIntegral
              (with_progress_read xdr parse_time caller parse_cursor fuel d o id b db r x)
      unfolding with_progress_read
      progress_lem r (err e) = h
      progress_lem r (ok c) =
          drain_lem (start_of c.last_indexed_ledger)
            (drain xdr parse_time caller parse_cursor fuel id b (start_of c.last_indexed_ledger) r)

      -- Whatever the server answers and the engine does, a tick that ends leaves integral tables.
      pub tick_once-IsIntegral :
          (read : Outcome) (r : Remote Server)
          → EndsIntegral (tick_once xdr parse_time caller parse_cursor fuel d read o id b db r)
      unfolding tick_once
      tick_once-IsIntegral read r = progress_lem r (Contracts.get read id db)
