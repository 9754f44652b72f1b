-- ===== src/Startup/Shutdown/Progress.antt =====
-- indexer/cmd/pulsar-indexer/main.go: the shutdown comes to an end by itself.
use pulsar_app.Base.{
  ℕ, ◌+◌, ◌<◌, ◌≤◌, Bool, true, false, List, [], ◌∷◌, Option, none, ◌≡◌, refl, sym, ap, subst, All,
  ◌⊎◌, inl, inr, arith,
}
use pulsar_app.Startup.Shutdown.{
  ServeError, Serving, accepting, reported, Phase, selecting, draining, served, waiting, exited,
  Daemon, end_loop, running_at, Step, signal, loop_stops, loop_times_out, serve_fails, takes_report,
  takes_cancel, drains, drain_fails, cancels, returns, Reach, here, next, after_shutdown, launched,
  launched-Inv, Reach-Inv, IsPhase,
}

-- The number of steps of an execution.
abbrev pub steps : {s d : Daemon} → Reach s d → ℕ
steps here = 0
steps (next r st) = ℕ.suc (steps r)

-- The number of poll loops that run.
abbrev pub running : List Bool → ℕ
running [] = 0
running (true ∷ bs) = ℕ.suc (running bs)
running (false ∷ bs) = running bs

-- What each part of a daemon has left to do.
abbrev cancellation_left : Bool → ℕ
cancellation_left true = 0
cancellation_left false = 1

abbrev server_left : Serving → ℕ
server_left accepting = 1
server_left (reported r) = 0

abbrev phase_left : Phase → ℕ
phase_left selecting = 4
phase_left draining = 3
phase_left (served r) = 2
phase_left (waiting r) = 1
phase_left (exited r) = 0

abbrev left : Daemon → ℕ
left d =
    cancellation_left d.cancelled + running d.polling + server_left d.server + phase_left d.phase

running-end_loop :
    (n : ℕ) (bs : List Bool) → running_at n bs ≡ true → ℕ.suc (running (end_loop n bs)) ≡ running bs
unfolding running_at end_loop
running-end_loop n [] e = absurd cc
running-end_loop ℕ.zero (true ∷ bs) e = refl
running-end_loop ℕ.zero (false ∷ bs) e = absurd cc
running-end_loop (ℕ.suc n) (true ∷ bs) e = ap (λ k. ℕ.suc k) (running-end_loop n bs e)
running-end_loop (ℕ.suc n) (false ∷ bs) e = running-end_loop n bs e

after_shutdown_left : (s : Serving) → server_left (after_shutdown s) ≡ 0
after_shutdown_left accepting = refl
after_shutdown_left (reported r) = refl

-- Every step leaves less to do.
Step-left : {d u : Daemon} → Step d u → left u < left d
Step-left (signal d c) = let e : cancellation_left d.cancelled ≡ 1 = rw c refl in omega arith
Step-left (loop_stops d n c e) = let k = running-end_loop n d.polling e in omega arith
Step-left (loop_times_out d n e) = let k = running-end_loop n d.polling e in omega arith
Step-left (serve_fails d e a) = let k : server_left d.server ≡ 1 = rw a refl in omega arith
Step-left (takes_report d r p s) = let k : phase_left d.phase ≡ 4 = rw p refl in omega arith
Step-left (takes_cancel d p c) = let k : phase_left d.phase ≡ 4 = rw p refl in omega arith
Step-left (drains d p) =
    let k : phase_left d.phase ≡ 3 = rw p refl in
    let a = after_shutdown_left d.server in omega arith
Step-left (drain_fails d e p) = let k : phase_left d.phase ≡ 3 = rw p refl in omega arith
Step-left (cancels d r p) = let k : phase_left d.phase ≡ 2 = rw p refl in omega arith
Step-left (returns d r p ended) = let k : phase_left d.phase ≡ 1 = rw p refl in omega arith

Reach-left : {s d : Daemon} (r : Reach s d) → steps r + left d ≤ left s
Reach-left here = omega arith
Reach-left (next r st) = let a = Reach-left r in let b = Step-left st in omega arith

all_or_running :
    (bs : List Bool) → All (λ running. running ≡ false) bs ⊎ ((n : ℕ) × (running_at n bs ≡ true))
unfolding running_at
all_or_running [] = inl tt
all_or_running (true ∷ bs) = inr (0, refl)
all_or_running (false ∷ bs) = elim (all_or_running bs) [
  | inl h ↦ inl (refl, h)
  | inr (n, e) ↦ inr (ℕ.suc n, e)
]

-- run has returned, with a result.
abbrev pub HasReturned : Daemon → Type 0
HasReturned d = (r : Option ServeError) × (d.phase ≡ exited r)

-- Nothing has told the daemon to stop.
abbrev pub IsServing : Daemon → Type 0
IsServing d = (d.phase ≡ selecting) × (d.cancelled ≡ false) × (d.server ≡ accepting)

-- A step that the daemon takes by itself: no signal, no failure of Serve, no call that times out.
abbrev pub is_own : {d u : Daemon} → Step d u → Bool
is_own (signal d c) = false
is_own (loop_stops d n c e) = true
is_own (loop_times_out d n e) = false
is_own (serve_fails d e a) = false
is_own (takes_report d r p s) = true
is_own (takes_cancel d p c) = true
is_own (drains d p) = true
is_own (drain_fails d e p) = true
is_own (cancels d r p) = true
is_own (returns d r p ended) = true

-- From the daemon on, steps of its own lead to the return of run.
pub data ReturnsAlone : Daemon → Type 0 where
  returned : {d : Daemon} → HasReturned d → ReturnsAlone d
  moves : {d u : Daemon} (st : Step d u) → is_own st ≡ true → ReturnsAlone u → ReturnsAlone d

waiting-ReturnsAlone :
    (n : ℕ) (polling : List Bool) (server : Serving) (r : Option ServeError)
    → running polling ≤ n
    → ReturnsAlone
        (record { cancelled = true; polling = polling; server = server; phase = waiting r })
waiting-ReturnsAlone ℕ.zero polling server r h = elim (all_or_running polling) [
  | inl ended ↦ moves (returns _ r refl ended) refl (returned (r, refl))
  | inr (k, e) ↦ let m = running-end_loop k polling e in absurd (omega arith)
]
waiting-ReturnsAlone (ℕ.suc n) polling server r h = elim (all_or_running polling) [
  | inl ended ↦ moves (returns _ r refl ended) refl (returned (r, refl))
  | inr (k, e) ↦
      let m = running-end_loop k polling e in
      moves (loop_stops _ k refl e) refl
        (waiting-ReturnsAlone n (end_loop k polling) server r (omega arith))
]

served-ReturnsAlone :
    (cancelled : Bool) (polling : List Bool) (server : Serving) (r : Option ServeError)
    → ReturnsAlone
        (record { cancelled = cancelled; polling = polling; server = server; phase = served r })
served-ReturnsAlone cancelled polling server r =
    moves (cancels _ r refl) refl
      (waiting-ReturnsAlone (running polling) polling server r (omega arith))

draining-ReturnsAlone :
    (cancelled : Bool) (polling : List Bool) (server : Serving)
    → ReturnsAlone
        (record { cancelled = cancelled; polling = polling; server = server; phase = draining })
draining-ReturnsAlone cancelled polling server =
    moves (drains _ refl) refl (served-ReturnsAlone cancelled polling (after_shutdown server) none)

serving_or_returns :
    (cancelled : Bool) (polling : List Bool) (server : Serving) (p : Phase)
    → IsPhase p (record { cancelled = cancelled; polling = polling; server = server; phase = p })
    → IsServing (record { cancelled = cancelled; polling = polling; server = server; phase = p })
      ⊎ ReturnsAlone
          (record { cancelled = cancelled; polling = polling; server = server; phase = p })
serving_or_returns false polling accepting selecting h = inl (refl, refl, refl)
serving_or_returns false polling (reported r) selecting h =
    inr (moves (takes_report _ r refl refl) refl (served-ReturnsAlone false polling (reported r) r))
serving_or_returns true polling server selecting h =
    inr (moves (takes_cancel _ refl refl) refl (draining-ReturnsAlone true polling server))
serving_or_returns cancelled polling server draining h =
    inr (draining-ReturnsAlone cancelled polling server)
serving_or_returns cancelled polling server (served r) h =
    inr (served-ReturnsAlone cancelled polling server r)
serving_or_returns cancelled polling server (waiting r) h = inr (
    subst
      (λ c.
        ReturnsAlone
          (record { cancelled = c; polling = polling; server = server; phase = waiting r }))
      (sym h) (waiting-ReturnsAlone (running polling) polling server r (omega arith)))
serving_or_returns cancelled polling server (exited r) h = inr (returned (r, refl))

-- Whatever the scheduler, the signals and the server do, an execution from the launch of the poll
-- loops has at most six steps and one for each loop that was launched, and in every state that it
-- reaches either nothing has told the daemon to stop, or steps of its own, without another signal, a
-- failure of the server or a call that times out, lead to the return of run.
pub shutdown_exits :
    (polling : List Bool) {d : Daemon} (r : Reach (launched polling) d)
    → (steps r ≤ 6 + running polling) × (IsServing d ⊎ ReturnsAlone d)
shutdown_exits polling {d} r =
    let left_over = Reach-left r in
    let inv = Reach-Inv (launched-Inv polling) r in
    (omega arith, serving_or_returns d.cancelled d.polling d.server d.phase inv.at_phase)
