-- ===== src/Database/Migrate/Laws.antt =====
-- indexer/internal/db/migrate.go: what Up, Down and Version do to the record of versions.
use pulsar_app.Base.{
  ℕ, zero, suc, ◌+◌, ◌≤◌, ◌<◌, Bool, true, ◌||◌, not, List, [], ◌∷◌, ◌++◌, append-nil, append_assoc,
  Option, none, Str, ltb, ◌==◌, if◌then◌else◌, Result, ok, err, ◌≡◌, refl, sym, ap, ◌∙◌, inl, inr,
  arith, length, All, Bool-cases, fail_if, >>=-eq-ok,
}
use pulsar_app.Migrations.{Migration, ParseError}
use pulsar_app.Migrations.Contiguous.{CountsFrom}
use pulsar_app.Database.Split.{split_statements}
use pulsar_app.Database.Migrate.{
  MigrateError, not_begun, not_recorded, not_committed, Schema, Weather, member, run_statements,
  statements_of, transact, apply_one, Moved, step_up, up_loop, prepared, up_prepared, up, highest,
  gap, gap_error, version,
}

-- The versions that are not applied yet, in order.
abbrev pub pending : List ℕ → List Migration → List ℕ
pending applied [] = []
pending applied (m ∷ ms) =
    if member m.version applied then pending applied ms else m.version ∷ pending applied ms

module _ {Tables : Type 0} (exec : Str → Tables → Option Tables) where
  transact-applied :
      (w : Weather) (v : ℕ) (body : Str) (note : List ℕ → List ℕ) (s s' : Schema Tables)
      → transact exec w v body note s ≡ ok s'
      → s'.applied ≡ note s.applied
  unfolding transact
  transact-applied w v body note s s' h =
      let (statements, h1, k1) = >>=-eq-ok (statements_of exec v (split_statements body)) _ h in
      let (u2, h2, k2) = >>=-eq-ok (fail_if (not w.begins) (not_begun v)) _ k1 in
      let (tables, h3, k3) = >>=-eq-ok (run_statements exec v statements s.tables) _ k2 in
      let (u4, h4, k4) = >>=-eq-ok (fail_if (not w.records) (not_recorded v)) _ k3 in
      let (u5, h5, k5) = >>=-eq-ok (fail_if (not w.commits) (not_committed v)) _ k4 in
      let e : ok (record { tables = tables; applied = note s.applied }) ≡ ok s' = k5 in
      ap (λ (x : Schema Tables). x.applied) (ok-inj (sym e))
    where
      ok-inj :
          {a b : Schema Tables}
          → ◌≡◌ {A = Result MigrateError (Schema Tables)} (ok a) (ok b)
          → a ≡ b
      ok-inj k = cc

  apply_one-applied :
      (w : Weather) (m : Migration) (s s' : Schema Tables)
      → apply_one exec w m s ≡ ok s'
      → s'.applied ≡ s.applied ++ m.version ∷ []
  unfolding apply_one
  apply_one-applied w m s s' h =
      transact-applied w m.version m.up (λ vs. vs ++ m.version ∷ []) s s' h

  abbrev Records : Moved exec → Schema Tables → Type 0
  Records r s = r.schema.applied ≡ s.applied ++ r.versions

  step_up-Records :
      (rest : Schema Tables → Moved exec) (v : ℕ) (s : Schema Tables)
      (r : Result MigrateError (Schema Tables))
      → ((s' : Schema Tables) → r ≡ ok s' → s'.applied ≡ s.applied ++ v ∷ [])
      → ((s' : Schema Tables) → Records (rest s') s')
      → Records (step_up exec rest v s r) s
  unfolding step_up
  step_up-Records rest v s (err e) h k = sym (append-nil s.applied)
  step_up-Records rest v s (ok s') h k =
      k s'
      ∙ (ap (λ vs. vs ++ (rest s').versions) (h s' refl)
          ∙ append_assoc s.applied (v ∷ []) (rest s').versions)

  up_loop-Records :
      (w : ℕ → Weather) (applied : List ℕ) (ms : List Migration) (s : Schema Tables)
      → Records (up_loop exec w applied ms s) s
  unfolding up_loop
  up_loop-Records w applied [] s = sym (append-nil s.applied)
  up_loop-Records w applied (m ∷ ms) s = elim (Bool-cases (member m.version applied)) [
    | inl e ↦ rw e (up_loop-Records w applied ms s)
    | inr e ↦ rw e (
        step_up-Records (λ s'. up_loop exec w applied ms s') m.version s
          (apply_one exec (w m.version) m s) (λ s' h. apply_one-applied (w m.version) m s s' h)
          (λ s'. up_loop-Records w applied ms s'))
  ]

  step_up-pending :
      (rest : Schema Tables → Moved exec) (v : ℕ) (s : Schema Tables)
      (r : Result MigrateError (Schema Tables)) (vs : List ℕ)
      → ((s' : Schema Tables) → (rest s').failure ≡ none → (rest s').versions ≡ vs)
      → (step_up exec rest v s r).failure ≡ none
      → (step_up exec rest v s r).versions ≡ v ∷ vs
  unfolding step_up
  step_up-pending rest v s (err e) vs k h = absurd cc
  step_up-pending rest v s (ok s') vs k h = ap (◌∷◌ v) (k s' h)

  up_loop-pending :
      (w : ℕ → Weather) (applied : List ℕ) (ms : List Migration) (s : Schema Tables)
      → (up_loop exec w applied ms s).failure ≡ none
      → (up_loop exec w applied ms s).versions ≡ pending applied ms
  unfolding up_loop
  up_loop-pending w applied [] s h = refl
  up_loop-pending w applied (m ∷ ms) s h = elim (Bool-cases (member m.version applied)) [
    | inl e ↦ rw e (up_loop-pending w applied ms s (rw e at h))
    | inr e ↦ rw e (
        step_up-pending (λ s'. up_loop exec w applied ms s') m.version s
          (apply_one exec (w m.version) m s) (pending applied ms)
          (λ s' k. up_loop-pending w applied ms s' k) (rw e at h))
  ]

  -- Up, whatever fails on the way: the versions that it reports are those that the record has gained.
  pub up-records :
      (w : ℕ → Weather) (created readable : Bool) (available : Result ParseError (List Migration))
      (s : Schema Tables)
      → (up exec w created readable available s).schema.applied
        ≡ s.applied ++ (up exec w created readable available s).versions
  unfolding up
  up-records w created readable available s = from (prepared exec created readable available s)
    where
      from : (r : Result MigrateError (List Migration)) → Records (up_prepared exec w s r) s
      from (err e) = unfold up_prepared in sym (append-nil s.applied)
      from (ok ms) = unfold up_prepared in up_loop-Records w s.applied ms s

  member-append : (v : ℕ) (us vs : List ℕ) → member v (us ++ vs) ≡ (member v us || member v vs)
  member-append v [] vs = refl
  member-append v (u ∷ us) vs = ground (arith, member-append v us vs)

  pending_none :
      (applied : List ℕ) (ms : List Migration) (more : List ℕ)
      → All (λ v. member v more ≡ true) (pending applied ms)
      → pending (applied ++ more) ms ≡ []
  pending_none applied [] more h = refl
  pending_none applied (m ∷ ms) more h = elim (Bool-cases (member m.version applied)) [
    | inl e ↦
        rw (member-append m.version applied more) (rw e (pending_none applied ms more (rw e at h)))
    | inr e ↦
        let k : (member m.version more ≡ true)
            × All (λ v. member v more ≡ true) (pending applied ms) =
          rw e at h in
        rw (member-append m.version applied more) (rw (e, k.0) (pending_none applied ms more k.1))
  ]

  All-member-cons :
      (u : ℕ) (us vs : List ℕ)
      → All (λ v. member v us ≡ true) vs
      → All (λ v. member v (u ∷ us) ≡ true) vs
  All-member-cons u us [] h = tt
  All-member-cons u us (v ∷ vs) (hv, h) = (ground arith, All-member-cons u us vs h)

  All-member : (vs : List ℕ) → All (λ v. member v vs ≡ true) vs
  All-member [] = tt
  All-member (v ∷ vs) = (ground arith, All-member-cons v vs vs (All-member vs))

  nothing_pending :
      (w : ℕ → Weather) (applied : List ℕ) (ms : List Migration) (s : Schema Tables)
      → pending applied ms ≡ []
      → up_loop exec w applied ms s ≡ record { versions = []; failure = none; schema = s }
  unfolding up_loop
  nothing_pending w applied [] s h = refl
  nothing_pending w applied (m ∷ ms) s h = elim (Bool-cases (member m.version applied)) [
    | inl e ↦ rw e (nothing_pending w applied ms s (rw e at h))
    | inr e ↦ let k : m.version ∷ pending applied ms ≡ [] = rw e at h in absurd cc
  ]

  -- After an Up without a failure, another one does nothing.
  pub up_idem :
      (w later : ℕ → Weather) (ms : List Migration) (s : Schema Tables)
      → (up exec w true true (ok ms) s).failure ≡ none
      → up exec later true true (ok ms) (up exec w true true (ok ms) s).schema
        ≡ record { versions = []; failure = none; schema = (up exec w true true (ok ms) s).schema }
  unfolding up prepared up_prepared
  up_idem w later ms s h =
      let first = up_loop exec w s.applied ms s in
      let done : first.versions ≡ pending s.applied ms = up_loop-pending w s.applied ms s h in
      let recorded : first.schema.applied ≡ s.applied ++ pending s.applied ms =
        up_loop-Records w s.applied ms s ∙ ap (◌++◌ s.applied) done in
      nothing_pending later first.schema.applied ms first.schema (
        ap (λ vs. pending vs ms) recorded
        ∙ pending_none s.applied ms (pending s.applied ms) (All-member (pending s.applied ms)))

highest-pending :
    (i : ℕ) (ms : List Migration)
    → CountsFrom i ms
    → (if ltb i (highest (pending [] ms)) then highest (pending [] ms) else i) ≡ i + length ms
unfolding highest
highest-pending i [] h = ground arith
highest-pending i (m ∷ ms) (e, h) = rw e (ground (arith, highest-pending (suc i) ms h))

member-pending :
    (i v : ℕ) (ms : List Migration)
    → CountsFrom i ms
    → i < v
    → v ≤ i + length ms
    → member v (pending [] ms) ≡ true
member-pending i v [] h lo hi = absurd (omega arith)
member-pending i v (m ∷ ms) (e, h) lo hi = elim (Bool-cases (m.version == v)) [
  | inl f ↦ rw f
  | inr f ↦ rw f (member-pending (suc i) v ms h (ground arith) (omega arith))
]

gap-none :
    (start left : ℕ) (vs : List ℕ)
    → ((v : ℕ) → start ≤ v → v < start + left → member v vs ≡ true)
    → gap start left vs ≡ none
unfolding gap
gap-none start zero vs h = refl
gap-none start (suc left) vs h =
    rw (h start (omega arith) (omega arith))
      (gap-none (suc start) left vs (λ v lo hi. h v (omega arith) (omega arith)))

module _ {Tables : Type 0} (exec : Str → Tables → Option Tables) where
  -- After an Up without a failure on an empty record, the version is the number of migrations, for
  -- migrations numbered from one without a gap.
  pub version-up :
      (w : ℕ → Weather) (ms : List Migration) (s : Schema Tables)
      → CountsFrom 0 ms
      → s.applied ≡ []
      → (up exec w true true (ok ms) s).failure ≡ none
      → version exec true true (up exec w true true (ok ms) s).schema ≡ ok (length ms)
  unfolding up prepared up_prepared version gap_error
  version-up w ms s counts fresh h =
      let first = up_loop exec w s.applied ms s in
      let recorded : first.schema.applied ≡ pending [] ms =
        up_loop-Records exec w s.applied ms s
        ∙ (ap (◌++◌ s.applied) (up_loop-pending exec w s.applied ms s h)
            ∙ ap (λ vs. vs ++ pending vs ms) fresh) in
      let top : highest (pending [] ms) ≡ length ms = ground (arith, highest-pending 0 ms counts) in
      let full : gap 1 (length ms) (pending [] ms) ≡ none =
        gap-none 1 (length ms) (pending [] ms)
          (λ v lo hi. member-pending 0 v ms counts (omega arith) (omega arith)) in
      rw recorded (rw top (rw full))
