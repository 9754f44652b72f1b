-- ===== src/Rpc/Transaction/Effects.antt =====
-- indexer/internal/rpc/events.go: what a commit does to the tables under any outcomes, also where its
-- answer is lost.
use pulsar_app.Base.{
  true, false, List, ◌∷◌, ◌++◌, ◌⊎◌, Str, ℤ, if◌then◌else◌, eq_str, ok, ◌≡◌, refl, sym, ap, ◌∙◌,
  subst, All, inl, inr, some,
}
use pulsar_app.Store.{Outcome, ran, Dialect, Contract, Event, Db}
use pulsar_app.Store.Contracts.{set_progress, with_progress, get}
use pulsar_app.Store.Contracts.Tracked.{get-contracts}
use pulsar_app.Store.Contracts.Laws.{set_progress-eq-ok, set_progress_lem}
use pulsar_app.Store.Events.{insert, taken}
use pulsar_app.Store.Events.Effects.{insert-Inserted, insert-contracts, taken-insert}
use pulsar_app.Store.Events.Insert.{insert_lem, added_rows, insert_rows-events}
use pulsar_app.Store.Events.Outcomes.{insert-eq-ok}
use pulsar_app.Rpc.Transaction.{TxOutcome, pointers, commit}
use pulsar_app.Rpc.Transaction.Commit.{BothWritten, commit_atomic, checked-pointers}

-- The tables after a SetProgress that reports no error.
progress_written :
    (o : Outcome) (id : Str) (highest : ℤ) (db db' : Db)
    → set_progress o id highest db ≡ (ok tt, db')
    → (db'.events ≡ db.events)
      × ((c : Contract) × ((j : Str)
            → get ran j db' ≡ (if eq_str id j then ok (with_progress highest c) else get ran j db)))
progress_written o id highest db db' h =
    let (o_ran, (c, found)) = set_progress-eq-ok o id highest db db' h in
    let done : set_progress ran id highest db ≡ (ok tt, db') =
      subst (λ x. set_progress x id highest db ≡ (ok tt, db')) o_ran h in
    let (_, events_same, gets) = set_progress_lem id highest db found in
    let new_db = ap (λ p. p.1) (sym done) in
    (ap (λ (x : Db). x.events) new_db ∙ events_same, (c, λ j. ap (get ran j) new_db ∙ gets j))

module _ (d : Dialect) (o : TxOutcome) (id : Str) (batch : List Event) (highest : ℤ) (db : Db) where
  abbrev inserted : Db
  inserted = (insert d o.insert_outcome (pointers batch) db).1

  -- Once both are written, the contract has the progress, and every other contract what it had.
  pub BothWritten-get :
      {db' : Db}
      → BothWritten d o id batch highest db db'
      → (db'.events ≡ inserted.events)
        × ((c : Contract) × ((j : Str)
              → get ran j db'
                ≡ (if eq_str id j then ok (with_progress highest c) else get ran j db)))
  BothWritten-get {db'} (n, hn, hp) =
      let (events_same, (c, gets)) =
        progress_written o.progress_outcome id highest inserted db' hp in
      let kept : (j : Str) → get ran j inserted ≡ get ran j db = λ j.
        get-contracts j db inserted (insert-contracts d o.insert_outcome (pointers batch) db) in
      (
        events_same,
        (
          c,
          λ j. gets j ∙ ap (λ x. if eq_str id j then ok (with_progress highest c) else x) (kept j),
        ),
      )

  -- The rows that were written are those of the batch, if any.
  pub BothWritten-rows :
      {db' : Db}
      → BothWritten d o id batch highest db db'
      → (db'.events ≡ db.events) ⊎ (db'.events ≡ db.events ++ added_rows d batch db)
  BothWritten-rows w =
      let (events_same, _) = BothWritten-get w in
      elim (insert-Inserted d o.insert_outcome (pointers batch) db) [
        | inl e ↦ inl (events_same ∙ ap (λ (t : Db). t.events) e)
        | inr (es, checked, e) ↦
            let same : es ≡ batch = checked-pointers 0 batch es checked in
            inr (
              events_same
              ∙ ap (λ (t : Db). t.events) e
              ∙ insert_rows-events d es db
              ∙ ap (λ xs. db.events ++ added_rows d xs db) same)
      ]

  -- A place that is taken stays so, whatever becomes of the commit.
  pub taken-commit :
      (x : Event)
      → taken x db.events ≡ true
      → taken x (commit d o id batch highest db).1.events ≡ true
  taken-commit x h = elim (commit_atomic d o id batch highest db) [
    | inl (contracts, events) ↦ rw events h
    | inr w ↦ rw (BothWritten-get w).0 (taken-insert d o.insert_outcome (pointers batch) db x h)
  ]

  -- Whatever becomes of a commit, every other contract is read as it was.
  pub get-commit :
      (j : Str) → eq_str id j ≡ false → get ran j (commit d o id batch highest db).1 ≡ get ran j db
  get-commit j other = elim (commit_atomic d o id batch highest db) [
    | inl (contracts, events) ↦ get-contracts j db (commit d o id batch highest db).1 contracts
    | inr w ↦ let (c, gets) = (BothWritten-get w).1 in gets j ∙ rw other refl
  ]

-- Once both are written, every event of the batch has its place taken.
pub BothWritten-taken :
    (d : Dialect) (o : TxOutcome) (id : Str) (e : Event) (es : List Event) (highest : ℤ) (db : Db)
    {db' : Db}
    → BothWritten d o id (e ∷ es) highest db db'
    → All (λ x. taken x db'.events ≡ true) (e ∷ es)
BothWritten-taken d o id e es highest db {db'} (n, hn, hp) =
    let db1 = (insert d o.insert_outcome (pointers (e ∷ es)) db).1 in
    let o_ran = insert-eq-ok d o.insert_outcome (some e) (pointers es) db hn in
    let done : insert d ran (pointers (e ∷ es)) db ≡ (ok n, db1) =
      subst (λ x. insert d x (pointers (e ∷ es)) db ≡ (ok n, db1)) o_ran (ap (λ x. (x, db1)) hn) in
    let (rows, checked, same, added, all) = insert_lem d (pointers (e ∷ es)) db done in
    let bound : rows ≡ e ∷ es = checked-pointers 0 (e ∷ es) rows checked in
    let (events_same, _) = BothWritten-get d o id (e ∷ es) highest db {db' = db'} (n, hn, hp) in
    subst (λ t. All (λ x. taken x t ≡ true) (e ∷ es)) (sym events_same)
      (subst (All (λ x. taken x db1.events ≡ true)) bound all)
