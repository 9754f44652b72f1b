-- ===== src/Http/Chain/Panics.antt =====
-- indexer/internal/api: what the client is sent for a panic, and the headers of every response.
use pulsar_app.Base.{
  ℕ, Bool, true, false, List, [], ◌∷◌, ◌++◌, Option, none, some, Str, codes, eq_str, ℤ, ◌||◌, ◌≡◌,
  refl, sym, ap, ◌∙◌, subst, arith, All,
}
use pulsar_app.ApiError.{registry, error_status}
use pulsar_app.Http.{
  Raw, Call, set_header, write_header, write, raw_call, raw_begin, is_informational, canonical_key,
  Recorder, recorder_call, recorder_write, recorder_write_header, Envelope, envelope_of,
  write_error, write_json, last_resort_error, json_type,
}
use pulsar_app.Http.Chain.{
  Ending, returned, aborted, panicked, Context, Script, run_script, panic_error, Logged, chain,
}
use pulsar_app.Http.Chain.Wire.{
  wire_status, record_calls, Carries, Leaves, raw_call-Carries, record_calls-Carries,
  set_header-Carries,
}
use pulsar_app.Http.Chain.Outcome.{inner_context, begun_with, mended, outcome, chain-outcome}

-- The call begins the response.
abbrev begins : Call → Bool
begins (set_header k v) = false
begins _ = true

-- Some call begins the response.
abbrev pub any_begins : List Call → Bool
any_begins [] = false
any_begins (c ∷ cs) = begins c || any_begins cs

record_calls_wrote :
    (cs : List Call) (r : Recorder)
    → (record_calls cs r).wrote_header ≡ (r.wrote_header || any_begins cs)
unfolding record_calls recorder_call recorder_write recorder_write_header
record_calls_wrote [] r = ground arith
record_calls_wrote (set_header k v ∷ cs) r =
    record_calls_wrote cs (recorder_call (set_header k v) r)
record_calls_wrote (write_header n ∷ cs) r =
    ground (arith, record_calls_wrote cs (recorder_write_header n r))
record_calls_wrote (write b ∷ cs) r = ground (arith, record_calls_wrote cs (recorder_write b r))

record_calls_unbegun :
    (cs : List Call) (r : Recorder)
    → any_begins cs ≡ false
    → ((record_calls cs r).raw.sent ≡ r.raw.sent) × ((record_calls cs r).raw.body ≡ r.raw.body)
unfolding record_calls recorder_call
record_calls_unbegun [] r h = (refl, refl)
record_calls_unbegun (set_header k v ∷ cs) r h =
    record_calls_unbegun cs (recorder_call (set_header k v) r) h
record_calls_unbegun (write_header n ∷ cs) r h = absurd cc
record_calls_unbegun (write b ∷ cs) r h = absurd cc

-- What the client is sent for a panic.
abbrev pub panic_text : (Envelope → Option Str) → Str
panic_text marshal = elim (marshal (envelope_of panic_error)) [
  | none ↦ last_resort_error
  | some payload ↦ payload
]

-- A whole reply, sent on a response that has not begun.
pub whole_reply :
    (n : ℕ) (b : Str) (r : Recorder)
    → is_informational n ≡ false
    → r.wrote_header ≡ false
    → r.raw.sent ≡ none
    → (let r' = record_calls (json_type ∷ write_header n ∷ write b ∷ []) r in
        (r'.status ≡ n) × (wire_status r'.raw ≡ n) × (r'.raw.body ≡ r.raw.body ++ b))
unfolding record_calls recorder_call recorder_write recorder_write_header raw_call raw_begin
whole_reply n b r final wrote unsent = rw (wrote, final, unsent) (refl, refl, refl)

panic_calls :
    (marshal : Envelope → Option Str)
    → write_error marshal panic_error
      ≡ json_type ∷ write_header 500 ∷ write (panic_text marshal) ∷ []
unfolding write_error write_json error_status registry panic_error
panic_calls marshal = either (marshal (envelope_of panic_error))
  where
    either :
        (o : Option Str)
        → (elim o [
          | none ↦ json_type ∷ write_header 500 ∷ write last_resort_error ∷ []
          | some payload ↦ json_type ∷ write_header 500 ∷ write payload ∷ []
        ])
          ≡ json_type
            ∷ write_header 500
            ∷ write (elim o [ none ↦ last_resort_error | some payload ↦ payload ])
            ∷ []
    either none = refl
    either (some payload) = refl

mended_reply :
    (marshal : Envelope → Option Str) (r : Recorder)
    → r.wrote_header ≡ false
    → r.raw.sent ≡ none
    → ((mended marshal false r).status ≡ 500)
      × (wire_status (mended marshal false r).raw ≡ 500)
      × ((mended marshal false r).raw.body ≡ r.raw.body ++ panic_text marshal)
unfolding mended
mended_reply marshal r wrote unsent =
    subst
      (λ cs.
        ((record_calls cs r).status ≡ 500)
        × (wire_status (record_calls cs r).raw ≡ 500)
        × ((record_calls cs r).raw.body ≡ r.raw.body ++ panic_text marshal))
      (sym (panic_calls marshal)) (whole_reply 500 (panic_text marshal) r refl wrote unsent)

module _ (marshal : Envelope → Option Str) {S : Type 0} where
  -- A handler that panics before its response has begun leaves the client with the status 500 and the
  -- envelope of the error INTERNAL_PANIC, in the response and in the log; the request ends, and the
  -- state is as the handler left it.
  pub chain-panicked :
      (timeout : ℤ) (id : Str) (body : Context → S → Script S) (ctx : Context) (w : Raw) (s : S)
      (v : Str)
      → w.sent ≡ none
      → (body (inner_context timeout id ctx) s).ending ≡ panicked v
      → any_begins (body (inner_context timeout id ctx) s).calls ≡ false
      → (let out = chain marshal timeout id (run_script body) ctx w s in
          (out.ending ≡ returned)
          × (out.status ≡ some 500)
          × (wire_status out.raw ≡ 500)
          × (out.raw.body ≡ w.body ++ panic_text marshal)
          × (out.state ≡ (body (inner_context timeout id ctx) s).state))
  unfolding outcome begun_with
  chain-panicked timeout id body ctx w s v unsent died quiet =
      let done = body (inner_context timeout id ctx) s in
      let r = record_calls done.calls (begun_with id w) in
      let wrote = record_calls_wrote done.calls (begun_with id w) ∙ quiet in
      let (sent, text) = record_calls_unbegun done.calls (begun_with id w) quiet in
      let (status, wire, said) = mended_reply marshal r wrote (sent ∙ unsent) in
      let form : chain marshal timeout id (run_script body) ctx w s ≡ record {
        ending = returned;
        raw = (mended marshal false r).raw;
        status = some (mended marshal false r).status;
        state = done.state;
      } =
        chain-outcome marshal timeout id body ctx w s
        ∙ ap (λ e. outcome marshal e r done.state) died
        ∙ ap
            (λ b. record {
              ending = returned;
              raw = (mended marshal b r).raw;
              status = some (mended marshal b r).status;
              state = done.state;
            })
            wrote in
      (
        ap (λ (o : Logged S). o.ending) form,
        ap (λ (o : Logged S). o.status) form ∙ ap some status,
        ap (λ (o : Logged S). wire_status o.raw) form ∙ wire,
        ap (λ (o : Logged S). o.raw.body) form ∙ said ∙ ap (λ b. b ++ panic_text marshal) text,
        ap (λ (o : Logged S). o.state) form,
      )

  outcome-Carries :
      (k v : Str) (e : Ending) (r : Recorder) (s : S)
      → eq_str (canonical_key (codes "Content-Type")) (canonical_key k) ≡ false
      → Carries k v r.raw
      → Carries k v (outcome marshal e r s).raw
  unfolding outcome
  outcome-Carries k v returned r s ne h = h
  outcome-Carries k v aborted r s ne h = h
  outcome-Carries k v (panicked p) r s ne h = mended-Carries r.wrote_header
    where
      mended-Carries : (b : Bool) → Carries k v (mended marshal b r).raw
      mended-Carries true = unfold mended in h
      mended-Carries false =
          unfold mended in
          subst (λ cs. Carries k v (record_calls cs r).raw) (sym (panic_calls marshal))
            (record_calls-Carries k v
              (json_type ∷ write_header 500 ∷ write (panic_text marshal) ∷ []) r
              (ne, (tt, (tt, tt))) h)

  -- Every response carries the request's id and the instruction not to guess the type of its body:
  -- the handler's own and the one to a panic, unless the handler sets one of these
  -- headers itself, in whatever spelling of its key.
  pub chain-headers :
      (timeout : ℤ) (id : Str) (body : Context → S → Script S) (ctx : Context) (w : Raw) (s : S)
      → w.sent ≡ none
      → All (Leaves (codes "X-Request-Id")) (body (inner_context timeout id ctx) s).calls
      → All (Leaves (codes "X-Content-Type-Options")) (body (inner_context timeout id ctx) s).calls
      → (let out = chain marshal timeout id (run_script body) ctx w s in
          Carries (codes "X-Request-Id") id out.raw
          × Carries (codes "X-Content-Type-Options") (codes "nosniff") out.raw)
  unfolding begun_with
  chain-headers timeout id body ctx w s unsent keeps_id keeps_type =
      let done = body (inner_context timeout id ctx) s in
      let named = raw_call (set_header (codes "X-Request-Id") id) w in
      let r = record_calls done.calls (begun_with id w) in
      let nosniff = set_header (codes "X-Content-Type-Options") (codes "nosniff") in
      rw (chain-outcome marshal timeout id body ctx w s) (
        outcome-Carries (codes "X-Request-Id") id done.ending r done.state refl (
            record_calls-Carries (codes "X-Request-Id") id done.calls (begun_with id w) keeps_id (
              raw_call-Carries (codes "X-Request-Id") id nosniff named refl
                (set_header-Carries (codes "X-Request-Id") id w unsent))),
        outcome-Carries (codes "X-Content-Type-Options") (codes "nosniff") done.ending r done.state
            refl
            (record_calls-Carries (codes "X-Content-Type-Options") (codes "nosniff") done.calls
              (begun_with id w) keeps_type
              (set_header-Carries (codes "X-Content-Type-Options") (codes "nosniff") named
                (named_unsent unsent))),
      )
    where
      named_unsent : w.sent ≡ none → (raw_call (set_header (codes "X-Request-Id") id) w).sent ≡ none
      named_unsent u = unfold raw_call in u
