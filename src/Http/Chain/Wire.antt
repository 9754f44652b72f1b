-- ===== src/Http/Chain/Wire.antt =====
-- indexer/internal/api/middleware.go: what the recorder says of the response, and the headers that
-- it has.
use pulsar_app.Base.{
  ℕ, Bool, true, false, List, [], ◌∷◌, Option, none, some, Str, eq_str, eq_str_iff, eq_str_refl,
  lookup, ◌≡◌, inl, inr, refl, ◌∙◌, arith, Bool-cases, All,
}
use pulsar_app.Http.{
  Sent, Raw, Call, set_header, write_header, write, set_key, set_value, canonical_key, raw_begin,
  raw_call, is_informational, Recorder, recorder_write_header, recorder_write, recorder_call,
  recorded, call, calls,
}

-- The status that the client sees: net/http sends 200 when a handler returns without a header.
abbrev status_sent : Option Sent → ℕ
status_sent none = 200
status_sent (some s) = s.status

abbrev pub wire_status : Raw → ℕ
wire_status w = status_sent w.sent

-- The recorder knows whether the header is sent, and with what status.
abbrev IsHonestOf : Option Sent → Bool → ℕ → Type 0
IsHonestOf none wrote status = (wrote ≡ false) × (status ≡ 200)
IsHonestOf (some s) wrote status = (wrote ≡ true) × (status ≡ s.status)

abbrev pub IsHonest : Recorder → Type 0
IsHonest r = IsHonestOf r.raw.sent r.wrote_header r.status

-- The call gives no informational status.
abbrev pub IsFinal : Call → Type 0
IsFinal (write_header n) = is_informational n ≡ false
IsFinal _ = Unit

pub recorder_call-IsHonest :
    (c : Call) (r : Recorder) → IsFinal c → IsHonest r → IsHonest (recorder_call c r)
unfolding recorder_call recorder_write recorder_write_header raw_call raw_begin
recorder_call-IsHonest (set_header k v) r final h = h
recorder_call-IsHonest (write_header n) r final h = ground arith
recorder_call-IsHonest (write b) r final h = ground arith

unfoldable pub record_calls : List Call → Recorder → Recorder
record_calls [] r = r
record_calls (c ∷ cs) r = record_calls cs (recorder_call c r)

pub calls-recorded :
    (cs : List Call) (r : Recorder) → calls cs (recorded r) ≡ recorded (record_calls cs r)
unfolding calls call record_calls
calls-recorded [] r = refl
calls-recorded (c ∷ cs) r = calls-recorded cs (recorder_call c r)

pub record_calls-IsHonest :
    (cs : List Call) (r : Recorder) → All IsFinal cs → IsHonest r → IsHonest (record_calls cs r)
unfolding record_calls
record_calls-IsHonest [] r final h = h
record_calls-IsHonest (c ∷ cs) r (final, rest) h =
    record_calls-IsHonest cs (recorder_call c r) rest (recorder_call-IsHonest c r final h)

pub status-IsHonest : (r : Recorder) → IsHonest r → r.status ≡ wire_status r.raw
status-IsHonest r h = ground arith

lookup-set_value : (k v : Str) (h : List (Str × Str)) → lookup k (set_value k v h) ≡ some v
unfolding set_value
lookup-set_value k v [] = rw (eq_str_refl k) refl
lookup-set_value k v ((j, w) ∷ h) = elim (Bool-cases (eq_str j k)) [
  | inl e ↦ rw (e, eq_str_refl k) refl
  | inr e ↦ rw (e, e) (lookup-set_value k v h)
]

lookup-set_value_other :
    (k j v : Str) (h : List (Str × Str))
    → eq_str j k ≡ false
    → lookup k (set_value j v h) ≡ lookup k h
unfolding set_value
lookup-set_value_other k j v [] ne = rw ne refl
lookup-set_value_other k j v ((i, w) ∷ h) ne = elim (Bool-cases (eq_str i j)) [
  | inl e ↦ let same : eq_str i k ≡ false = rw ((eq_str_iff i j).0 e) ne in rw (e, ne, same) refl
  | inr e ↦ elim (Bool-cases (eq_str i k)) [
    | inl f ↦ rw (e, f) refl
    | inr f ↦ rw (e, f) (lookup-set_value_other k j v h ne)
  ]
]

-- A header that is set, under the canonical form of its key, and that is on the wire if any header
-- is.
abbrev SentWith : Str → Str → Option Sent → Type 0
SentWith k v none = Unit
SentWith k v (some s) = lookup (canonical_key k) s.header ≡ some v

abbrev pub Carries : Str → Str → Raw → Type 0
Carries k v w = (lookup (canonical_key k) w.header ≡ some v) × SentWith k v w.sent

-- The call does not set the header, in whatever spelling of its key.
abbrev pub Leaves : Str → Call → Type 0
Leaves k (set_header j v) = eq_str (canonical_key j) (canonical_key k) ≡ false
Leaves k _ = Unit

raw_begin-Carries :
    (k v : Str) (n : ℕ) (o : Option Sent) (w : Raw)
    → w.sent ≡ o
    → Carries k v w
    → Carries k v (raw_begin n o w)
unfolding raw_begin
raw_begin-Carries k v n none w e h = (h.0, h.0)
raw_begin-Carries k v n (some s) w e h = h

pub raw_call-Carries :
    (k v : Str) (c : Call) (w : Raw) → Leaves k c → Carries k v w → Carries k v (raw_call c w)
unfolding raw_call set_key
raw_call-Carries k v (set_header j u) w ne h =
    (lookup-set_value_other (canonical_key k) (canonical_key j) u w.header ne ∙ h.0, h.1)
raw_call-Carries k v (write_header n) w ne h = elim (Bool-cases (is_informational n)) [
  | inl e ↦ rw e h
  | inr e ↦ rw e (raw_begin-Carries k v n w.sent w refl h)
]
raw_call-Carries k v (write b) w ne h = raw_begin-Carries k v 200 w.sent w refl h

recorder_call-Carries :
    (k v : Str) (c : Call) (r : Recorder)
    → Leaves k c
    → Carries k v r.raw
    → Carries k v (recorder_call c r).raw
unfolding recorder_call recorder_write recorder_write_header
recorder_call-Carries k v (set_header j u) r ne h = raw_call-Carries k v (set_header j u) r.raw ne h
recorder_call-Carries k v (write_header n) r ne h = elim (Bool-cases r.wrote_header) [
  | inl e ↦ rw e h
  | inr e ↦ rw e (raw_call-Carries k v (write_header n) r.raw tt h)
]
recorder_call-Carries k v (write b) r ne h = elim (Bool-cases r.wrote_header) [
  | inl e ↦ rw e (raw_call-Carries k v (write b) r.raw tt h)
  | inr e ↦ rw e (
      raw_call-Carries k v (write b) (raw_call (write_header 200) r.raw) tt
        (raw_call-Carries k v (write_header 200) r.raw tt h))
]

pub record_calls-Carries :
    (k v : Str) (cs : List Call) (r : Recorder)
    → All (Leaves k) cs
    → Carries k v r.raw
    → Carries k v (record_calls cs r).raw
unfolding record_calls
record_calls-Carries k v [] r ne h = h
record_calls-Carries k v (c ∷ cs) r (n, ns) h =
    record_calls-Carries k v cs (recorder_call c r) ns (recorder_call-Carries k v c r n h)

pub set_header-Carries :
    (k v : Str) (w : Raw) → w.sent ≡ none → Carries k v (raw_call (set_header k v) w)
unfolding raw_call set_key
set_header-Carries k v w unsent = (lookup-set_value (canonical_key k) v w.header, rw unsent tt)
