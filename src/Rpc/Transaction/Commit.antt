-- ===== src/Rpc/Transaction/Commit.antt =====
-- indexer/internal/rpc/events.go: commit writes a batch and its progress together.
use pulsar_app.Base.{
  ℕ, suc, arith, ◌<◌, ltb, length, true, >>=-eq-ok, fail_if, if◌then◌else◌, eq_str, eq_str_refl,
  subst, List, [], ◌∷◌, Option, none, some, Str, ℤ, Result, ok, err, ◌≡◌, refl, sym, ap, ap₂, ◌≢◌,
  ◌∙◌, All, ◌⊎◌, inl, inr,
}
use pulsar_app.Store.{
  Fault, ran, StoreError, too_many, no_contract_id, Dialect, Contract, Event, Db,
}
use pulsar_app.Store.Contracts.{set_progress, find, with_progress, get}
use pulsar_app.Store.Events.{max_page_size, insert, taken, check_batch}
use pulsar_app.Store.Events.Insert.{insert_lem}
use pulsar_app.Store.Events.Outcomes.{insert-eq-ok}
use pulsar_app.Store.Contracts.Laws.{set_progress-eq-ok, set_progress_lem}
use pulsar_app.Rpc.{PollError, inserting}
use pulsar_app.Rpc.Transaction.{
  Ending, committed, rolled_back, lost, TxOutcome, pointers, commit, after_begin, after_insert,
  after_progress, commit_end,
}

-- The rows are as before: a contract's progress, and every event.
abbrev pub SameRows : Db → Db → Type 0
SameRows db db' = (db'.contracts ≡ db.contracts) × (db'.events ≡ db.events)

-- The rows are those that the insert and the recording of progress leave, one after the other.
abbrev pub BothWritten : Dialect → TxOutcome → Str → List Event → ℤ → Db → Db → Type 0
BothWritten dialect o contract_id events highest db db' =
    (n : ℕ) × ((insert dialect o.insert_outcome (pointers events) db).0 ≡ ok n)
    × ((set_progress o.progress_outcome contract_id highest
          (insert dialect o.insert_outcome (pointers events) db).1)
        ≡ (ok tt, db'))

commit_end_cases :
    (x : Ending) (old new : Db)
    → (((commit_end x old new).1 ≡ new) ⊎ SameRows old (commit_end x old new).1)
commit_end_cases committed old new = unfold commit_end in inl refl
commit_end_cases (rolled_back f) old new = unfold commit_end in inr (refl, refl)
commit_end_cases (lost f) old new = unfold commit_end in inl refl

-- The writes of a commit, the insert and the recording of progress, take effect together or not at
-- all, whatever the database does with each statement.
pub commit_atomic :
    (d : Dialect) (o : TxOutcome) (id : Str) (events : List Event) (highest : ℤ) (db : Db)
    → SameRows db (commit d o id events highest db).1
      ⊎ BothWritten d o id events highest db (commit d o id events highest db).1
unfolding commit
commit_atomic d o id events highest db = begun o.begin_fault
  where
    written :
        (n : ℕ)
        → (insert d o.insert_outcome (pointers events) db).0 ≡ ok n
        → (r : Result StoreError (Unit {0})) → (new : Db)
        → set_progress o.progress_outcome id highest
            (insert d o.insert_outcome (pointers events) db).1
          ≡ (r, new)
        → SameRows db (after_progress o.ending db (r, new)).1
          ⊎ BothWritten d o id events highest db (after_progress o.ending db (r, new)).1
    written n hn (err e) new h = unfold after_progress in inl (refl, refl)
    written n hn (ok u) new h = elim (commit_end_cases o.ending db new) [
      | inr same ↦ unfold after_progress in inl same
      | inl e ↦ unfold after_progress in inr (n, hn, rw e h)
    ]

    inserted :
        (r : Result StoreError ℕ)
        → (new : Db) → insert d o.insert_outcome (pointers events) db ≡ (r, new)
        → SameRows db (after_insert o id highest db (r, new)).1
          ⊎ BothWritten d o id events highest db (after_insert o id highest db (r, new)).1
    inserted (err e) new h = unfold after_insert in inl (refl, refl)
    inserted (ok n) new h =
        let e : (insert d o.insert_outcome (pointers events) db).1 ≡ new = ap (λ p. p.1) h in
        unfold after_insert in rw (sym e) (written n (ap (λ p. p.0) h) _ _ refl)

    begun :
        (f : Option Fault)
        → SameRows db (after_begin f d o id (pointers events) highest db).1
          ⊎ BothWritten d o id events highest db
              (after_begin f d o id (pointers events) highest db).1
    begun (some f) = unfold after_begin in inl (refl, refl)
    begun none = unfold after_begin in inserted _ _ refl

pub checked-pointers :
    (i : ℕ) (events rows : List Event) → check_batch i (pointers events) ≡ ok rows → rows ≡ events
unfolding check_batch
checked-pointers i [] rows h = cc
checked-pointers i (e ∷ es) rows h =
    let (u, hu, k) = >>=-eq-ok (fail_if (eq_str e.contract_id []) (no_contract_id i)) _ h in
    let (rest, hr, l) = >>=-eq-ok (check_batch (suc i) (pointers es)) _ k in
    let same : rest ≡ es = checked-pointers (suc i) es rest hr in cc

failed-ne-ok : {e : PollError} → ◌≢◌ {A = Result PollError (Unit {0})} (err e) (ok tt)
failed-ne-ok h = cc

commit_end-eq-ok :
    (x : Ending) (old new : Db) {db' : Db} → commit_end x old new ≡ (ok tt, db') → new ≡ db'
unfolding commit_end
commit_end-eq-ok committed old new h = ap (λ p. p.1) h
commit_end-eq-ok (rolled_back f) old new h = absurd (failed-ne-ok (ap (λ p. p.0) h))
commit_end-eq-ok (lost f) old new h = absurd (failed-ne-ok (ap (λ p. p.0) h))

both_written :
    (d : Dialect) (o : TxOutcome) (id : Str) (events : List Event) (highest : ℤ) (db : Db)
    {db' : Db}
    → commit d o id events highest db ≡ (ok tt, db')
    → BothWritten d o id events highest db db'
unfolding commit
both_written d o id events highest db {db'} h = begun o.begin_fault h
  where
    progressed :
        (r : Result StoreError (Unit {0}))
        → (new : Db) → after_progress o.ending db (r, new) ≡ (ok tt, db')
        → (r ≡ ok tt) × (new ≡ db')
    progressed (err e) new k = absurd (failed-ne-ok (ap (λ p. p.0) (unfold after_progress in k)))
    progressed (ok u) new k = (refl, commit_end-eq-ok o.ending db new (unfold after_progress in k))

    inserted :
        (r : Result StoreError ℕ)
        → (new : Db) → after_insert o id highest db (r, new) ≡ (ok tt, db')
        → (n : ℕ) × (r ≡ ok n) × (set_progress o.progress_outcome id highest new ≡ (ok tt, db'))
    inserted (err e) new k = absurd (failed-ne-ok (ap (λ p. p.0) (unfold after_insert in k)))
    inserted (ok n) new k =
        let (a, b) = progressed _ _ (unfold after_insert in k) in (n, refl, ap₂ (λ x y. (x, y)) a b)

    begun :
        (f : Option Fault)
        → after_begin f d o id (pointers events) highest db ≡ (ok tt, db')
        → BothWritten d o id events highest db db'
    begun (some f) k = absurd (failed-ne-ok (ap (λ p. p.0) (unfold after_begin in k)))
    begun none k = inserted _ _ (unfold after_begin in k)

-- The events after a commit that returns no error are those that the insert left.
pub commit-insert :
    (d : Dialect) (o : TxOutcome) (id : Str) (events : List Event) (highest : ℤ) (db : Db)
    {db' : Db}
    → commit d o id events highest db ≡ (ok tt, db')
    → db'.events ≡ (insert d o.insert_outcome (pointers events) db).1.events
commit-insert d o id events highest db {db'} h =
    let (n, hn, hp) = both_written d o id events highest db h in
    let db1 = (insert d o.insert_outcome (pointers events) db).1 in
    let (p_ran, (c, hc)) = set_progress-eq-ok o.progress_outcome id highest db1 db' hp in
    let recorded : set_progress ran id highest db1 ≡ (ok tt, db') =
      subst (λ x. set_progress x id highest db1 ≡ (ok tt, db')) p_ran hp in
    let (_, events_same, _) = set_progress_lem id highest db1 hc in
    ap (λ (x : Db). x.events) (sym (ap (λ p. p.1) recorded)) ∙ events_same

-- After a commit that returns no error, the place (ledger and event index) of each event of its batch
-- is taken in the table, and the progress of the contract, which is tracked, is the ledger that it was
-- given.
pub commit_lem :
    (d : Dialect) (o : TxOutcome) (id : Str) (e : Event) (es : List Event) (highest : ℤ) (db : Db)
    {db' : Db}
    → commit d o id (e ∷ es) highest db ≡ (ok tt, db')
    → All (λ x. taken x db'.events ≡ true) (e ∷ es)
      × ((c : Contract) × (find id db.contracts ≡ some c)
          × (get ran id db' ≡ ok (with_progress highest c)))
commit_lem d o id e es highest db {db'} h =
    let (n, hn, hp) = both_written d o id (e ∷ es) highest db h in
    let o_ran = insert-eq-ok d o.insert_outcome (some e) (pointers es) db hn in
    let db1 = (insert d o.insert_outcome (pointers (e ∷ es)) db).1 in
    let (p_ran, (c, hc)) = set_progress-eq-ok o.progress_outcome id highest db1 db' hp in
    let inserted : insert d ran (pointers (e ∷ es)) db ≡ (ok n, db1) =
      subst (λ x. insert d x (pointers (e ∷ es)) db ≡ (ok n, db1)) o_ran (ap (λ x. (x, db1)) hn) in
    let (rows, checked, same, added, all) = insert_lem d (pointers (e ∷ es)) db inserted in
    let bound : rows ≡ e ∷ es = checked-pointers 0 (e ∷ es) rows checked in
    let recorded : set_progress ran id highest db1 ≡ (ok tt, db') =
      subst (λ x. set_progress x id highest db1 ≡ (ok tt, db')) p_ran hp in
    let (_, _, gets) = set_progress_lem id highest db1 hc in
    let new_db = ap (λ p. p.1) recorded in
    let events' : db'.events ≡ db1.events = commit-insert d o id (e ∷ es) highest db h in
    let got = gets id in
    (
      subst (λ t. All (λ x. taken x t ≡ true) (e ∷ es)) (sym events')
          (subst (All (λ x. taken x db1.events ≡ true)) bound all),
      (
        c,
        ap (find id) (sym same) ∙ hc,
        ap (get ran id) (sym new_db)
            ∙ (got
                ∙ ap (λ b. if b then ok (with_progress highest c) else get ran id db1)
                    (eq_str_refl id)),
      ),
    )

length-pointers : (events : List Event) → length (pointers events) ≡ length events
length-pointers [] = refl
length-pointers (e ∷ es) = ap suc (length-pointers es)

-- A commit of more than 10000 events, whose transaction begins, fails with the count and leaves the
-- tables as they were, whatever the database would do with its statements.
pub commit_too_many :
    (d : Dialect) (o : TxOutcome) (id : Str) (events : List Event) (highest : ℤ) (db : Db)
    → o.begin_fault ≡ none
    → max_page_size < length events
    → commit d o id events highest db ≡ (err (inserting (too_many (length events))), db)
unfolding commit after_begin
commit_too_many d o id [] highest db begun many = absurd (omega arith)
commit_too_many d o id (e ∷ es) highest db begun many =
    let over : ltb max_page_size (length (pointers (e ∷ es))) ≡ true =
      ground (arith, length-pointers (e ∷ es)) in
    let refused : insert d o.insert_outcome (pointers (e ∷ es)) db
        ≡ (err (too_many (length (e ∷ es))), db) =
      unfold insert in rw over (ap (λ n. (err (too_many n), db)) (length-pointers (e ∷ es))) in
    ap (λ f. after_begin f d o id (pointers (e ∷ es)) highest db) begun
    ∙ ap (after_insert o id highest db) refused
