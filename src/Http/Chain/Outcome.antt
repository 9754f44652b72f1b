-- ===== src/Http/Chain/Outcome.antt =====
-- indexer/internal/api: the surface-wide chain, against a description of what it makes of a
-- handler's run.
use pulsar_app.Base.{
  Bool, true, false, Option, none, some, Str, codes, if◌then◌else◌, ℤ, ltb_ℤ, pos, ◌≡◌, inl, inr,
  refl, ap, ◌∙◌, Bool-cases,
}
use pulsar_app.Http.{
  Raw, set_header, raw_call, Recorder, recorded, call, calls, recorder_call, Envelope, write_error,
}
use pulsar_app.Http.Chain.{
  Ending, returned, aborted, panicked, Context, Answer, Script, run_script, panic_error,
  security_headers, tighten, read_deadline, has_begun, recovered, recoverer, Logged, raw_of,
  status_of, request_logger, chain,
}
use pulsar_app.Http.Chain.Wire.{record_calls, calls-recorded}

-- The context that the handler inside the chain is given.
unfoldable pub inner_context : ℤ → Str → Context → Context
unfolding tighten
inner_context timeout id ctx =
    let named = record ctx { request_id = id } in
    if ltb_ℤ (pos 0) timeout
    then record named { time_left = tighten timeout named.time_left }
    else named

-- The recorder that it is given.
unfoldable pub begun_with : Str → Raw → Recorder
unfolding raw_call
begun_with id w = record {
  raw =
      raw_call (set_header (codes "X-Content-Type-Options") (codes "nosniff"))
        (raw_call (set_header (codes "X-Request-Id") id) w);
  status = 200;
  wrote_header = false;
}

module _ (marshal : Envelope → Option Str) where
  -- The recorder after a panic: with the error envelope, unless the response has begun.
  unfoldable pub mended : Bool → Recorder → Recorder
  unfolding record_calls write_error
  mended true r = r
  mended false r = record_calls (write_error marshal panic_error) r

module _ (marshal : Envelope → Option Str) {S : Type 0} where
  -- What becomes of a run that ended so, with this recorder and state.
  unfoldable pub outcome : Ending → Recorder → S → Logged S
  unfolding mended
  outcome returned r s = record {
    ending = returned;
    raw = r.raw;
    status = some r.status;
    state = s;
  }
  outcome aborted r s = record { ending = aborted; raw = r.raw; status = none; state = s }
  outcome (panicked v) r s =
      let r' = mended marshal r.wrote_header r in
      record { ending = returned; raw = r'.raw; status = some r'.status; state = s }

  logged : Answer S → Logged S
  unfolding raw_of status_of
  logged a = record {
    ending = a.ending;
    raw = raw_of a.writer;
    status = status_of a.ending a.writer;
    state = a.state;
  }

  recovered-outcome :
      (e : Ending) (r : Recorder) (s : S)
      → logged (recovered marshal e (record { ending = e; writer = recorded r; state = s }))
        ≡ outcome e r s
  unfolding logged recovered outcome raw_of status_of has_begun
  recovered-outcome returned r s = refl
  recovered-outcome aborted r s = refl
  recovered-outcome (panicked v) r s =
      ap (λ x. logged (record { ending = returned; writer = x; state = s })) (either r.wrote_header)
    where
      either :
          (b : Bool)
          → (if b then recorded r else calls (write_error marshal panic_error) (recorded r))
            ≡ recorded (mended marshal b r)
      either true = unfold mended in refl
      either false = unfold mended in calls-recorded (write_error marshal panic_error) r

  run-outcome :
      (body : Context → S → Script S) (ctx : Context) (r : Recorder) (s : S)
      → logged (recoverer marshal (run_script body) ctx (recorded r) s)
        ≡ outcome (body ctx s).ending (record_calls (body ctx s).calls r) (body ctx s).state
  unfolding recoverer run_script
  run-outcome body ctx r s =
      ap
        (λ w. logged (
          recovered marshal (body ctx s).ending
            (record { ending = (body ctx s).ending; writer = w; state = (body ctx s).state })))
        (calls-recorded (body ctx s).calls r)
      ∙ recovered-outcome (body ctx s).ending (record_calls (body ctx s).calls r) (body ctx s).state

  -- The chain gives what the description says of the run of the handler inside it.
  pub chain-outcome :
      (timeout : ℤ) (id : Str) (body : Context → S → Script S) (ctx : Context) (w : Raw) (s : S)
      → chain marshal timeout id (run_script body) ctx w s ≡ (
          let done = body (inner_context timeout id ctx) s in
          outcome done.ending (record_calls done.calls (begun_with id w)) done.state)
  unfolding chain request_logger security_headers read_deadline inner_context call recorder_call
      raw_of logged begun_with
  chain-outcome timeout id body ctx w s = elim (Bool-cases (ltb_ℤ (pos 0) timeout)) [
    | inl e ↦ rw e (
        run-outcome body (record ctx { request_id = id; time_left = tighten timeout ctx.time_left })
          (begun_with id w) s)
    | inr e ↦ rw e (run-outcome body (record ctx { request_id = id }) (begun_with id w) s)
  ]
