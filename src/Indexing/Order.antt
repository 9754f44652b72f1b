-- ===== src/Indexing/Order.antt =====
-- indexer/internal/rpc/events.go over time: the rows of a contract and its emission order, on which the
-- cursor of indexer/internal/store/events.go relies.
pub mod Reached
use pulsar_app.Base.{
  ◌≤◌, ◌<◌, true, false, List, [], ◌∷◌, ◌++◌, append-nil, Str, eq_str, eq_str_refl, ℤ, ◌≤ℤ◌, ◌<ℤ◌,
  ok, ◌≡◌, refl, sym, ap, ◌∙◌, subst, arith, All, All-append, All-map, All-select, select,
  select-append, select_none, Ordered, Ordered-append, Ordered-select, inl, inr,
}
use pulsar_app.Store.{ran, Dialect, Contract, Event, Db}
use pulsar_app.Store.Contracts.{get, with_progress}
use pulsar_app.Store.Contracts.Tracked.{get-contracts}
use pulsar_app.Store.Events.Emission.{precedes, is_of, added_rows-All, added_rows-Ordered}
use pulsar_app.Store.Events.Insert.{added_rows}
use pulsar_app.Rpc.Transaction.{TxOutcome, commit}
use pulsar_app.Rpc.Transaction.Commit.{commit_atomic, BothWritten}
use pulsar_app.Rpc.Transaction.Effects.{BothWritten-get, BothWritten-rows, get-commit}

-- The rows of a contract.
abbrev pub rows_of : Str → Db → List Event
rows_of id db = select (is_of id) db.events

-- The contract's rows are in emission order, and of no ledger past its progress.
pub record InOrder (id : Str) (db : Db) : Type 0 where
  pub ordered : Ordered precedes (rows_of id db)
  pub below :
      (c : Contract)
      → get ran id db ≡ ok c
      → All (λ e. e.ledger ≤ℤ c.last_indexed_ledger) (rows_of id db)

pub InOrder-frame :
    (id : Str) (db db' : Db)
    → get ran id db' ≡ get ran id db
    → rows_of id db' ≡ rows_of id db
    → InOrder id db
    → InOrder id db'
InOrder-frame id db db' same rows h = record {
  ordered = rw rows (h.ordered);
  below = λ c got. rw rows (h.below c (sym same ∙ got));
}

module _ (d : Dialect) (id j : Str) (o : TxOutcome) (batch : List Event) (highest : ℤ) (db : Db)
    (other : eq_str j id ≡ false) (theirs : All (λ e. e.contract_id ≡ j) batch) where
  -- The rows of another contract are none of this one's.
  added_none : select (is_of id) (added_rows d batch db) ≡ []
  added_none = select_none (is_of id) _ (
      added_rows-All (λ e. is_of id e ≡ false) (λ n e h. h) d batch db
        (All-map (λ e h. rw h other) batch theirs))

  other_rows : rows_of id (commit d o j batch highest db).1 ≡ rows_of id db
  other_rows = elim (commit_atomic d o j batch highest db) [
    | inl (contracts, events) ↦ ap (select (is_of id)) events
    | inr w ↦ elim (BothWritten-rows d o j batch highest db w) [
      | inl events ↦ ap (select (is_of id)) events
      | inr events ↦
          ap (select (is_of id)) events
          ∙ select-append (is_of id) db.events (added_rows d batch db)
          ∙ ap (λ xs. rows_of id db ++ xs) added_none
          ∙ append-nil (rows_of id db)
    ]
  ]

  pub other-InOrder : InOrder id db → InOrder id (commit d o j batch highest db).1
  other-InOrder h =
      InOrder-frame id db (commit d o j batch highest db).1
        (get-commit d o j batch highest db id other) other_rows h

precedes_later :
    (x : Event) (last : ℤ) (es : List Event)
    → x.ledger ≤ℤ last
    → All (λ e. last <ℤ e.ledger) es
    → All (λ e. precedes x e ≡ true) es
precedes_later x last es h later = All-map (λ e k. ground arith) es later

-- A commit for the contract, of events in order and past its progress, none past the new one.
module _ (d : Dialect) (id : Str) (o : TxOutcome) (e : Event) (es : List Event) (highest : ℤ)
    (db : Db) (c : Contract) (tracked : get ran id db ≡ ok c) (h : InOrder id db)
    (order : Ordered precedes (e ∷ es))
    (later : All (λ x. c.last_indexed_ledger <ℤ x.ledger) (e ∷ es))
    (within : All (λ x. x.ledger ≤ℤ highest) (e ∷ es)) where
  abbrev committed : Db
  committed = (commit d o id (e ∷ es) highest db).1

  abbrev new_rows : List Event
  new_rows = select (is_of id) (added_rows d (e ∷ es) db)

  old_below : All (λ x. x.ledger ≤ℤ highest) (rows_of id db)
  old_below =
      let first = later.0 in
      let top = within.0 in All-map (λ x k. omega arith) (rows_of id db) (h.below c tracked)

  whole-Ordered : Ordered precedes (rows_of id db ++ new_rows)
  whole-Ordered =
      let after_last = All-select _ (is_of id) _ (
        added_rows-All (λ x. c.last_indexed_ledger <ℤ x.ledger) (λ n x k. k) d (e ∷ es) db later) in
      Ordered-append precedes (rows_of id db) new_rows h.ordered
        (Ordered-select precedes (is_of id) _ (added_rows-Ordered d (e ∷ es) db order))
        (All-map (λ x k. precedes_later x c.last_indexed_ledger new_rows k after_last)
          (rows_of id db) (h.below c tracked))

  whole_below : All (λ x. x.ledger ≤ℤ highest) (rows_of id db ++ new_rows)
  whole_below = All-append _ (rows_of id db) new_rows old_below (
      All-select _ (is_of id) _
        (added_rows-All (λ x. x.ledger ≤ℤ highest) (λ n x k. k) d (e ∷ es) db within))

  written-InOrder : BothWritten d o id (e ∷ es) highest db committed → InOrder id committed
  written-InOrder w =
      let (_, (c', gets)) = BothWritten-get d o id (e ∷ es) highest db w in
      let got : get ran id committed ≡ ok (with_progress highest c') =
        gets id ∙ rw (eq_str_refl id) refl in
      elim (BothWritten-rows d o id (e ∷ es) highest db w) [
        | inl events ↦
            progressed c' got (rows_of id db) (ap (select (is_of id)) events) h.ordered old_below
        | inr events ↦
            progressed c' got (rows_of id db ++ new_rows)
              (ap (select (is_of id)) events
                ∙ select-append (is_of id) db.events (added_rows d (e ∷ es) db))
              whole-Ordered whole_below
      ]
    where
      progressed :
          (c' : Contract)
          → get ran id committed ≡ ok (with_progress highest c')
          → (rows : List Event) → rows_of id committed ≡ rows
          → Ordered precedes rows
          → All (λ x. x.ledger ≤ℤ highest) rows
          → InOrder id committed
      progressed c' got rows same ordered below = record {
        ordered = rw same ordered;
        below = λ c'' got'.
            let k : ok (with_progress highest c') ≡ ok c'' = sym got ∙ got' in
            let m : with_progress highest c' ≡ c'' = cc in
            subst
              (λ (t : Contract).
                All (λ x. x.ledger ≤ℤ t.last_indexed_ledger) (rows_of id committed))
              m (rw same below);
      }

  pub own-InOrder : InOrder id committed
  own-InOrder = elim (commit_atomic d o id (e ∷ es) highest db) [
    | inl (contracts, events) ↦
        InOrder-frame id db committed (get-contracts id db committed contracts)
          (ap (select (is_of id)) events) h
    | inr w ↦ written-InOrder w
  ]
