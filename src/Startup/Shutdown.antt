-- ===== src/Startup/Shutdown.antt =====
-- indexer/cmd/pulsar-indexer/main.go: run from the launch of the poll loops to its return, and
-- serveUntilShutdown, as steps of the goroutines. Who runs when is the scheduler's choice. A poll
-- loop returns when it sees the cancelled context, and on an error of a tick that is a cancellation or
-- a deadline, which a call can give without the context being cancelled.
pub mod Progress
use pulsar_app.Base.{ℕ, Bool, true, false, List, [], ◌∷◌, Option, none, some, Str, ◌≡◌, refl, All}

pub data ServeError : Type 0 where
  serving shutting_down : Str → ServeError

-- The goroutine that serves, and the channel it reports on: serving, or done with a result.
pub data Serving : Type 0 where
  accepting : Serving
  reported : Option ServeError → Serving

-- Where run is: in the select, in Shutdown, past serveUntilShutdown, waiting for the poll loops, or
-- done.
pub data Phase : Type 0 where
  selecting draining : Phase
  served waiting exited : Option ServeError → Phase

-- A daemon: whether its context is cancelled, which poll loops run, the serving goroutine, and run
-- itself.
pub record Daemon : Type 0 where
  pub cancelled : Bool
  pub polling : List Bool
  pub server : Serving
  pub phase : Phase

-- The first `n` loops stay, and the next one ends.
unfoldable pub end_loop : ℕ → List Bool → List Bool
end_loop n [] = []
end_loop ℕ.zero (b ∷ bs) = false ∷ bs
end_loop (ℕ.suc n) (b ∷ bs) = b ∷ end_loop n bs

-- Whether the loop with number `n` runs.
unfoldable pub running_at : ℕ → List Bool → Bool
running_at n [] = false
running_at ℕ.zero (b ∷ bs) = b
running_at (ℕ.suc n) (b ∷ bs) = running_at n bs

abbrev pub with_phase : Phase → Daemon → Daemon
with_phase p d = record d { phase = p }

-- A server that was serving reports that it was closed, as no error; one that had failed has
-- reported already.
abbrev pub after_shutdown : Serving → Serving
after_shutdown accepting = reported none
after_shutdown (reported r) = reported r

pub data Step : Daemon → Daemon → Type 0 where
  -- The first SIGINT or SIGTERM cancels the context; a later one changes nothing.
  signal : (d : Daemon) → d.cancelled ≡ false → Step d (record d { cancelled = true })
  -- A poll loop sees the cancelled context and returns.
  loop_stops :
      (d : Daemon) (n : ℕ)
      → d.cancelled ≡ true
      → running_at n d.polling ≡ true
      → Step d (record d { polling = end_loop n d.polling })
  -- A tick of a poll loop ends with a cancelled or timed out call, and the loop returns.
  loop_times_out :
      (d : Daemon) (n : ℕ)
      → running_at n d.polling ≡ true
      → Step d (record d { polling = end_loop n d.polling })
  -- Serve fails on its own.
  serve_fails :
      (d : Daemon) (e : Str)
      → d.server ≡ accepting
      → Step d (record d { server = reported (some (serving e)) })
  -- The select takes the report of the server.
  takes_report :
      (d : Daemon) (r : Option ServeError)
      → d.phase ≡ selecting
      → d.server ≡ reported r
      → Step d (record d { phase = served r })
  -- The select takes the cancelled context.
  takes_cancel :
      (d : Daemon)
      → d.phase ≡ selecting
      → d.cancelled ≡ true
      → Step d (record d { phase = draining })
  -- Shutdown drains in time; Serve then reports ErrServerClosed, which is no error.
  drains :
      (d : Daemon)
      → d.phase ≡ draining
      → Step d (record d { server = after_shutdown d.server; phase = served none })
  -- Shutdown does not drain in time, or fails.
  drain_fails :
      (d : Daemon) (e : Str)
      → d.phase ≡ draining
      → Step d (record d { phase = served (some (shutting_down e)) })
  -- run cancels the poll loops.
  cancels :
      (d : Daemon) (r : Option ServeError)
      → d.phase ≡ served r
      → Step d (record d { cancelled = true; phase = waiting r })
  -- Every poll loop has ended: run returns.
  returns :
      (d : Daemon) (r : Option ServeError)
      → d.phase ≡ waiting r
      → All (λ running. running ≡ false) d.polling
      → Step d (record d { phase = exited r })

pub data Reach (s : Daemon) : Daemon → Type 0 where
  here : Reach s s
  next : {t u : Daemon} → Reach s t → Step t u → Reach s u

-- The daemon once its loops are launched.
abbrev pub launched : List Bool → Daemon
launched polling = record {
  cancelled = false;
  polling = polling;
  server = accepting;
  phase = selecting;
}

-- What a phase says of the rest: past the cancellation the context is cancelled, past the wait no
-- loop runs, and a clean end comes of a cancelled context or of a server that reported no error.
abbrev pub IsPhase : Phase → Daemon → Type 0
IsPhase selecting d = Unit
IsPhase draining d = d.cancelled ≡ true
IsPhase (served none) d = d.cancelled ≡ true
IsPhase (served (some e)) d = Unit
IsPhase (waiting r) d = d.cancelled ≡ true
IsPhase (exited r) d = (d.cancelled ≡ true) × All (λ running. running ≡ false) d.polling

-- Before Shutdown, the server reports only failures.
abbrev pub IsServer : Phase → Serving → Type 0
IsServer selecting (reported none) = ⊥
IsServer draining (reported none) = ⊥
IsServer _ _ = Unit

pub record Inv (d : Daemon) : Type 0 where
  pub at_phase : IsPhase d.phase d
  pub of_server : IsServer d.phase d.server

pub launched-Inv : (polling : List Bool) → Inv (launched polling)
launched-Inv polling = record { at_phase = tt; of_server = tt }

all_ended-end_loop :
    (n : ℕ) (bs : List Bool)
    → All (λ running. running ≡ false) bs
    → All (λ running. running ≡ false) (end_loop n bs)
unfolding end_loop
all_ended-end_loop n [] h = tt
all_ended-end_loop ℕ.zero (b ∷ bs) h = (refl, h.1)
all_ended-end_loop (ℕ.suc n) (b ∷ bs) h = (h.0, all_ended-end_loop n bs h.1)

signal_phase : (p : Phase) (d : Daemon) → IsPhase p d → IsPhase p (record d { cancelled = true })
signal_phase selecting d h = tt
signal_phase draining d h = refl
signal_phase (served none) d h = refl
signal_phase (served (some e)) d h = tt
signal_phase (waiting r) d h = refl
signal_phase (exited r) d h = (refl, h.1)

loop_phase :
    (p : Phase) (d : Daemon) (n : ℕ)
    → IsPhase p d
    → IsPhase p (record d { polling = end_loop n d.polling })
loop_phase selecting d n h = tt
loop_phase draining d n h = h
loop_phase (served none) d n h = h
loop_phase (served (some e)) d n h = tt
loop_phase (waiting r) d n h = h
loop_phase (exited r) d n h = (h.0, all_ended-end_loop n d.polling h.1)

serve_phase :
    (p : Phase) (d : Daemon) (s : Serving) → IsPhase p d → IsPhase p (record d { server = s })
serve_phase selecting d s h = tt
serve_phase draining d s h = h
serve_phase (served none) d s h = h
serve_phase (served (some e)) d s h = tt
serve_phase (waiting r) d s h = h
serve_phase (exited r) d s h = h

reported-IsServer : (p : Phase) (e : ServeError) → IsServer p (reported (some e))
reported-IsServer selecting e = tt
reported-IsServer draining e = tt
reported-IsServer (served r) e = tt
reported-IsServer (waiting r) e = tt
reported-IsServer (exited r) e = tt

Step-Inv : {d u : Daemon} → Step d u → Inv d → Inv u
Step-Inv (signal d c) h = record {
  at_phase = signal_phase d.phase d h.at_phase;
  of_server = h.of_server;
}
Step-Inv (loop_stops d n c e) h = record {
  at_phase = loop_phase d.phase d n h.at_phase;
  of_server = h.of_server;
}
Step-Inv (loop_times_out d n e) h = record {
  at_phase = loop_phase d.phase d n h.at_phase;
  of_server = h.of_server;
}
Step-Inv (serve_fails d e a) h = record {
  at_phase = serve_phase d.phase d (reported (some (serving e))) h.at_phase;
  of_server = reported-IsServer d.phase (serving e);
}
Step-Inv (takes_report d none p s) h =
    let k : IsServer selecting (reported none) = rw (p, s) at h.of_server in absurd k
Step-Inv (takes_report d (some e) p s) h = record { at_phase = tt; of_server = tt }
Step-Inv (takes_cancel d p c) h = record { at_phase = c; of_server = rw p at h.of_server }
Step-Inv (drains d p) h = record { at_phase = rw p at h.at_phase; of_server = tt }
Step-Inv (drain_fails d e p) h = record { at_phase = tt; of_server = tt }
Step-Inv (cancels d r p) h = record { at_phase = refl; of_server = tt }
Step-Inv (returns d r p ended) h = record { at_phase = (rw p at h.at_phase, ended); of_server = tt }

-- What holds of a phase holds in every state that a launched daemon reaches.
pub Reach-Inv : {s d : Daemon} → Inv s → Reach s d → Inv d
Reach-Inv h here = h
Reach-Inv h (next r st) = Step-Inv st (Reach-Inv h r)
