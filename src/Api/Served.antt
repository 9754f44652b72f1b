-- ===== src/Api/Served.antt =====
-- indexer/internal/rpc/events.go and indexer/internal/api/handlers.go together: a commit of the
-- poller, and the reads of the API after it.
use pulsar_app.Base.{
  ℕ, ◌≤◌, true, List, ◌∷◌, none, Str, ltb, ℤ, pos, ok, ◌≡◌, refl, sym, ap, subst, All, All-map,
  Ordered,
}
use pulsar_app.Strconv.{format_uint, max_i64}
use pulsar_app.Strconv.RoundTrip.{format_uint-IsDigit}
use pulsar_app.Validate.{event_id}
use pulsar_app.Validate.Accepts.{event_id_iff}
use pulsar_app.Store.{ran, Dialect, Event, Db}
use pulsar_app.Store.Events.{same_place}
use pulsar_app.Store.Events.Found.{IsFound, taken-IsFound}
use pulsar_app.Store.Events.Sound.{IsSound, insert-IsSound}
use pulsar_app.Rpc.Transaction.{TxOutcome, commit, pointers}
use pulsar_app.Rpc.Transaction.Commit.{commit_lem, commit-insert}
use pulsar_app.Api.{data_reply, reply_with, handle_get_event}

event_id-format_uint : (n : ℕ) → n ≤ max_i64 → event_id (format_uint n) ≡ ok (pos n)
event_id-format_uint n h =
    let (ne, ds, v) = format_uint-IsDigit n in
    (event_id_iff (format_uint n) (pos n)).1 (ne, ds, rw v h, ap pos (sym v))

-- A request for the event by its key is answered with a stored row at the place of `x`.
abbrev pub IsServed : Db → Event → Type 0
IsServed db x =
    (r : Event) × (same_place r x ≡ true)
    × (handle_get_event ran (format_uint r.id) db ≡ data_reply 200 r none)

pub found-IsServed :
    (db : Db) (x : Event) → All (λ r. r.id ≤ max_i64) db.events → IsFound db x → IsServed db x
found-IsServed db x bound (r, at_place, found, has) =
    let id = event_id-format_uint r.id (has (λ r. r.id ≤ max_i64) bound) in
    (r, at_place, unfold handle_get_event reply_with in rw (id, found) refl)

-- After a commit that returns no error on sound tables, each event of its batch is served: the row
-- at its ledger and index is what a request for the row's key is answered with, if the keys of the
-- table fit an int64 and the statement of the request is run.
pub commit-handle_get_event :
    (d : Dialect) (o : TxOutcome) (id : Str) (e : Event) (es : List Event) (highest : ℤ) (db : Db)
    {db' : Db}
    → IsSound d db
    → commit d o id (e ∷ es) highest db ≡ (ok tt, db')
    → All (λ r. r.id ≤ max_i64) db'.events
    → All (IsServed db') (e ∷ es)
commit-handle_get_event d o id e es highest db {db'} sound h bound =
    let same = commit-insert d o id (e ∷ es) highest db h in
    let ascend : Ordered (λ a b. ltb a.id b.id) db'.events =
      subst (Ordered (λ a b. ltb a.id b.id)) (sym same)
        (insert-IsSound d o.insert_outcome (pointers (e ∷ es)) db sound).keys_ascend in
    All-map (λ x t. found-IsServed db' x bound (taken-IsFound db' x ascend t)) (e ∷ es)
      (commit_lem d o id e es highest db h).0
