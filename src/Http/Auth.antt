-- ===== src/Http/Auth.antt =====
-- indexer/internal/api/authz.go: RequireAuth, bearerToken and RateLimit. SHA-256 and the token
-- bucket of golang.org/x/time/rate are parameters.
use pulsar_app.Base.{
  ℕ, ◌+◌, Bool, true, false, ◌&&◌, ◌||◌, not, List, [], ◌∷◌, ◌++◌, Option, none, some, Str, codes,
  eq_str, eq_str_iff, trim_space, if◌then◌else◌, length, length-append, append-nil, take, drop, leb,
  ◌==◌, ◌↔◌, ◌≡◌, ◌≢◌, refl, sym, ap, ◌∙◌, arith,
}
use pulsar_app.ApiError.{ApiError, code_unauthorized, code_rate_limited, new_error}
use pulsar_app.Store.{StoreError}
use pulsar_app.Http.{Call, set_header, Writer, calls, Envelope, write_error}
use pulsar_app.Http.Chain.{returned, Context, Handler}

-- strings.EqualFold at a word of ASCII letters other than k and s, which have no other forms.
fold : ℕ → ℕ
fold c = if leb b'A' c && leb c b'Z' then c + 32 else c

unfoldable pub equal_fold : Str → Str → Bool
unfolding fold
equal_fold [] [] = true
equal_fold [] (y ∷ b) = false
equal_fold (x ∷ a) [] = false
equal_fold (x ∷ a) (y ∷ b) = fold x == fold y && equal_fold a b

abbrev pub bearer_prefix : Str
bearer_prefix = codes "bearer "

nonempty : Str → Option Str
nonempty [] = none
nonempty (c ∷ s) = some (c ∷ s)

-- `bearerToken`; its second result is whether there is a first.
unfoldable pub bearer_token : Str → Option Str
unfolding equal_fold trim_space nonempty
bearer_token header =
    if leb (length header) (length bearer_prefix)
      || not (equal_fold (take (length bearer_prefix) header) bearer_prefix)
    then none
    else nonempty (trim_space (drop (length bearer_prefix) header))

abbrev pub or_empty : Option Str → Str
or_empty none = []
or_empty (some t) = t

abbrev given : Option Str → Bool
given none = false
given (some t) = true

unfoldable pub unauthorized_error : ApiError StoreError
unfolding new_error
unauthorized_error = new_error code_unauthorized (codes "This route requires a valid bearer token.")

unfoldable pub rate_limited_error : ApiError StoreError
unfolding new_error
rate_limited_error =
    new_error code_rate_limited (codes "Too many write requests; retry after a short wait.")

-- The token is configured, one is presented, and their hashes are equal.
unfoldable pub admits : (Str → Str) → Str → Str → Bool
unfolding bearer_token
admits sha256 token header =
    not (eq_str token [])
    && given (bearer_token header)
    && eq_str (sha256 (or_empty (bearer_token header))) (sha256 token)

module _ (sha256 : Str → Str) (marshal : Envelope → Option Str) where
  unfoldable pub refuse_auth : List Call
  unfolding write_error unauthorized_error
  refuse_auth =
      set_header (codes "WWW-Authenticate") (codes "Bearer")
      ∷ write_error marshal unauthorized_error

  -- `RequireAuth`, with the request's Authorization header
  unfoldable pub require_auth : Str → Str → {S : Type 0} → Handler S → Handler S
  unfolding bearer_token calls refuse_auth
  require_auth token header next ctx w s =
      let configured = not (eq_str token []) in
      let provided = bearer_token header in
      let match = eq_str (sha256 (or_empty provided)) (sha256 token) in
      if not configured || not (given provided) || not match
      then record { ending = returned; writer = calls refuse_auth w; state = s }
      else next ctx w s

  -- `RateLimit`: the bucket is part of the state.
  unfoldable pub rate_limit : {S : Type 0} → (S → Bool × S) → Handler S → Handler S
  unfolding calls write_error rate_limited_error
  rate_limit allow next ctx w s =
      let (allowed, spent) = allow s in
      if not allowed
      then record {
        ending = returned;
        writer = calls (write_error marshal rate_limited_error) w;
        state = spent;
      }
      else next ctx w spent

-- RequireAuth hands a request on exactly when it is admitted, and otherwise leaves the state.
pub require_auth-eq :
    (sha256 : Str → Str) (marshal : Envelope → Option Str) (token header : Str) {S : Type 0}
    (next : Handler S) (ctx : Context) (w : Writer) (s : S)
    → require_auth sha256 marshal token header next ctx w s ≡ (
        if admits sha256 token header
        then next ctx w s
        else record { ending = returned; writer = calls (refuse_auth sha256 marshal) w; state = s })
unfolding require_auth admits
require_auth-eq sha256 marshal token header next ctx w s =
    cases _ _ (eq_str token []) (given (bearer_token header))
      (eq_str (sha256 (or_empty (bearer_token header))) (sha256 token))
  where
    cases :
        {A : Type 0} (x y : A) (a b c : Bool)
        → (if not (not a) || not b || not c then y else x) ≡ (if not a && b && c then x else y)
    cases x y true b c = refl
    cases x y false true true = refl
    cases x y false true false = refl
    cases x y false false c = refl

nonempty_iff : (s t : Str) → (nonempty s ≡ some t) ↔ ((s ≡ t) × (t ≢ []))
unfolding nonempty
nonempty_iff [] t = (λ e. absurd cc, λ (e, ne). absurd (ne (sym e)))
nonempty_iff (c ∷ s) t =
    (λ e. let same : c ∷ s ≡ t = cc in (same, λ z. absurd cc), λ (e, ne). ap some e)

take-length : (xs ys : Str) → take (length xs) (xs ++ ys) ≡ xs
take-length [] ys = refl
take-length (x ∷ xs) ys = ap (λ l. x ∷ l) (take-length xs ys)

drop-length : (xs ys : Str) → drop (length xs) (xs ++ ys) ≡ ys
drop-length [] ys = refl
drop-length (x ∷ xs) ys = drop-length xs ys

leb-length : (xs : Str) (y : ℕ) (ys : Str) → leb (length (xs ++ y ∷ ys)) (length xs) ≡ false
leb-length xs y ys = ground (arith, length-append xs (y ∷ ys))

-- A header whose first seven bytes are given carries a token exactly when they spell `bearer ` in
-- any case and the token, which is not empty, is what follows, trimmed.
pub bearer_token_iff :
    (scheme rest t : Str)
    → length scheme ≡ 7
    → (bearer_token (scheme ++ rest) ≡ some t)
      ↔ ((equal_fold scheme bearer_prefix ≡ true) × (trim_space rest ≡ t) × (t ≢ []))
unfolding bearer_token
bearer_token_iff scheme [] t h =
    let short : leb (length (scheme ++ [])) 7 ≡ true = rw (append-nil scheme, h) refl in
    rw short (λ e. absurd cc, λ (fold, same, ne). absurd (ne (sym same)))
bearer_token_iff scheme (c ∷ rest) t h =
    let short : leb (length (scheme ++ c ∷ rest)) 7 ≡ false = rw h at (leb-length scheme c rest) in
    let front : take 7 (scheme ++ c ∷ rest) ≡ scheme = rw h at (take-length scheme (c ∷ rest)) in
    let back : drop 7 (scheme ++ c ∷ rest) ≡ c ∷ rest = rw h at (drop-length scheme (c ∷ rest)) in
    rw (short, front, back) (cases (equal_fold scheme bearer_prefix) (trim_space (c ∷ rest)))
  where
    cases :
        (b : Bool) (s : Str)
        → ((if not b then none else nonempty s) ≡ some t) ↔ ((b ≡ true) × (s ≡ t) × (t ≢ []))
    cases true s =
        let (to, from) = nonempty_iff s t in
        (λ e. let (same, ne) = to e in (refl, same, ne), λ (b, same, ne). from (same, ne))
    cases false s = (λ e. absurd cc, λ (b, same, ne). absurd cc)

-- RequireAuth admits a request exactly when a token is configured and the header carries a token
-- with the same hash.
pub admits_iff :
    (sha256 : Str → Str) (token header : Str)
    → (admits sha256 token header ≡ true)
      ↔ ((token ≢ []) × ((t : Str) × (bearer_token header ≡ some t) × (sha256 t ≡ sha256 token)))
unfolding admits
admits_iff sha256 token header = cases (bearer_token header)
  where
    no_third : (a b : Bool) → (a && false && b) ≡ true → ⊥
    no_third true b h = cc
    no_third false b h = cc

    both : (a b : Bool) → (a && true && b) ≡ true → (a ≡ true) × (b ≡ true)
    both a b h = ground arith

    join : (a b : Bool) → a ≡ true → b ≡ true → (a && true && b) ≡ true
    join a b h k = ground arith

    nonempty_token : (s : Str) → not (eq_str s []) ≡ true → s ≢ []
    nonempty_token [] h = absurd cc
    nonempty_token (c ∷ s) h = λ e. cc

    set_token : (s : Str) → s ≢ [] → not (eq_str s []) ≡ true
    set_token [] ne = absurd (ne refl)
    set_token (c ∷ s) ne = refl

    cases :
        (o : Option Str)
        → ((not (eq_str token []) && given o && eq_str (sha256 (or_empty o)) (sha256 token)) ≡ true)
          ↔ ((token ≢ []) × ((t : Str) × (o ≡ some t) × (sha256 t ≡ sha256 token)))
    cases none =
        (λ h. absurd (no_third (not (eq_str token [])) _ h), λ (ne, (t, e, same)). absurd cc)
    cases (some t) = (
      λ h.
          let (set, same) = both (not (eq_str token [])) (eq_str (sha256 t) (sha256 token)) h in
          (nonempty_token token set, (t, refl, (eq_str_iff (sha256 t) (sha256 token)).0 same)),
      λ (ne, (u, e, same)).
          let k : t ≡ u = cc in
          join (not (eq_str token [])) (eq_str (sha256 t) (sha256 token)) (set_token token ne)
            ((eq_str_iff (sha256 t) (sha256 token)).1 (ap sha256 k ∙ same)),
    )
