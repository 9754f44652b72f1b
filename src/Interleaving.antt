-- ===== src/Interleaving.antt =====
-- indexer/internal/api and indexer/internal/rpc/events.go on the same tables: requests, ticks of the
-- poll loops and the registrations at startup, in any order. Each writes in one statement or one
-- transaction, and is one step.
mod Tests
use pulsar_app.Base.{ℕ, Bool, List, Option, some, Str, Json, Result, ◌≡◌, subst}
use pulsar_app.Decoder.Xdr.{XdrLib}
use pulsar_app.Store.{Outcome, Dialect, Db}
use pulsar_app.Store.Contracts.{register}
use pulsar_app.Store.Integrity.{IsIntegral, register-IsIntegral}
use pulsar_app.Rpc.{Caller, PollError}
use pulsar_app.Rpc.Transaction.{TxOutcome}
use pulsar_app.Rpc.Poller.{Remote, tick_once}
use pulsar_app.Rpc.Poller.Integrity.{EndsIntegral, tick_once-IsIntegral}
use pulsar_app.Graphql.Handler.{GraphqlRequest}
use pulsar_app.Http.{Raw, Envelope}
use pulsar_app.Http.Chain.{Context}
use pulsar_app.Http.Routes.{Server, Registration, Choice, Request, Happening, Service, serve}
use pulsar_app.Http.Routes.Integrity.{serve-IsIntegral}

module _ (xdr : XdrLib) (parse_time : Str → Option ℕ) {Cursor Remote_server : Type 0}
    (caller : Caller Cursor Remote_server) (parse_cursor : Str → Option Cursor)
    (topic_text : Dialect → Json → Option Str) (exec : GraphqlRequest → Db → Option Str)
    (marshal : Envelope → Option Str) (sha256 : Str → Str)
    (route : List Registration → Str → Str → Choice) {L : Type 0} (allow : L → Bool × L)
    (d : Dialect) where
  pub data Step (s : Service L) : Service L → Type 0 where
    request :
        (srv : Server) (h : Happening) (rid : Str) (req : Request) (ctx : Context) (w : Raw)
        → Step s (serve topic_text exec marshal sha256 route allow srv h rid req ctx w s).state
    poll :
        (id : Str) (fuel b : ℕ) (read : Outcome) (o : TxOutcome) (r r' : Remote Remote_server)
        (result : Result PollError (Unit {0})) (db' : Db)
        → tick_once xdr parse_time caller parse_cursor fuel d read o id b s.db r
          ≡ some (result, db', r')
        → Step s (record s { db = db' })
    bootstrap :
        (now : ℕ) (o o' : Outcome) (id : Str)
        → Step s (record s { db = (register now o o' id s.db).1 })

  pub data Reach (s : Service L) : Service L → Type 0 where
    here : Reach s s
    next : {t u : Service L} → Reach s t → Step t u → Reach s u

  Step-IsIntegral : {s t : Service L} → Step s t → IsIntegral d s.db → IsIntegral d t.db
  Step-IsIntegral {s} (Step.request srv h rid req ctx w) k =
      serve-IsIntegral topic_text exec marshal sha256 route allow d srv h req rid ctx w s k
  Step-IsIntegral {s} (Step.poll id fuel b read o r r' result db' run) k =
      subst (EndsIntegral xdr parse_time caller parse_cursor d o id) run
        (tick_once-IsIntegral xdr parse_time caller parse_cursor d o id s.db k fuel b read r)
  Step-IsIntegral {s} (Step.bootstrap now o o' id) k = register-IsIntegral d s.db k now o o' id

  -- Requests, ticks of the poll loops and registrations in any order, whatever the engine does with
  -- each of their statements, keep the tables integral: the events' keys ascend, no two events have the
  -- same place, every event is of a contract in the table, and the contracts' keys differ.
  pub Reach-IsIntegral : {s t : Service L} → Reach s t → IsIntegral d s.db → IsIntegral d t.db
  Reach-IsIntegral Reach.here k = k
  Reach-IsIntegral (Reach.next r st) k = Step-IsIntegral st (Reach-IsIntegral r k)
