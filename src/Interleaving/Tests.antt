-- ===== src/Interleaving/Tests.antt =====
-- An example of a tick and a request on the same tables: a tick stores two events of a contract, and a
-- request with the token is made to delete another.
use pulsar_app.Base.{ℕ, [], ◌∷◌, codes, ok}
use pulsar_app.Decoder.Tests.{symbols}
use pulsar_app.Store.{sqlite, ran}
use pulsar_app.Store.Contracts.{new_contract}
use pulsar_app.Api.Tests.{an_id}
use pulsar_app.Store.Integrity.{IsIntegral, empty-IsIntegral}
use pulsar_app.Rpc.Tests.{clock, parse_tally, fair}
use pulsar_app.Http.Routes.{Service, serve}
use pulsar_app.Http.Tests.{
  to_delete, no_topics, no_answer, a_text, same_bytes, take_one, server, deletion, calm, ctx, fresh,
}
use pulsar_app.Indexing.Tests.{start_db, archive, remote, filled_db, ticked}
use pulsar_app.Interleaving.{Step, Reach, Reach-IsIntegral}

abbrev at_start : Service ℕ
at_start = record { bucket = 2; db = start_db }

abbrev polled : Service ℕ
polled = record { bucket = 2; db = filled_db }

tracked-IsIntegral : IsIntegral sqlite start_db
tracked-IsIntegral = empty-IsIntegral sqlite (new_contract an_id 5 ∷ []) 0 (tt, tt)

abbrev Steps : Service ℕ → Service ℕ → Type 0
Steps s t =
    Reach symbols clock archive parse_tally no_topics no_answer a_text same_bytes to_delete take_one
      sqlite s t

abbrev after_request : Service ℕ
after_request =
    (serve no_topics no_answer a_text same_bytes to_delete take_one server calm (codes "id")
      (deletion (codes "Bearer 0123456789abcdef")) ctx fresh polled).state

run : Steps at_start after_request
run =
    Reach.next
      (Reach.next Reach.here (Step.poll an_id 4 2 ran fair remote remote (ok tt) filled_db ticked))
      (Step.request server calm (codes "id") (deletion (codes "Bearer 0123456789abcdef")) ctx fresh)

Reach-IsIntegral_example : IsIntegral sqlite after_request.db
Reach-IsIntegral_example =
    Reach-IsIntegral symbols clock archive parse_tally no_topics no_answer a_text same_bytes
      to_delete take_one sqlite run tracked-IsIntegral
