-- ===== src/Store/Query/Direction.antt =====
-- The two directions of a query, and the cut of its rows into pages.
use pulsar_app.Base.{
  ℕ, zero, suc, ◌+◌, ◌≤◌, ◌<◌, Bool, true, false, not, List, [], ◌∷◌, ◌++◌, none, some, ◌≡◌, ◌≢◌,
  refl, sym, ap, subst, arith, Str, eq_str, ltb, ℤ, ok, length, length-append, length-take, take,
  drop, take-eq_self, select, select-All, select-backwards, backwards, sort_by-Ordered,
  sort_by-backwards, Ordered, Ordered-backwards, All, All-map, All-append_left, All-backwards,
}
use pulsar_app.Strconv.{max_i64}
use pulsar_app.Store.{Dialect, Event}
use pulsar_app.Store.Query.{
  EventQuery, supported, build_events_query, sorted, before, order_is_ascending, format_cursor,
  resolve_page_size, with_cursor, filters, page_of, last_id, Select, Builder,
}
use pulsar_app.Store.Query.Builders.{finished_select, past, past-format_cursor}

-- The order of the ids in a direction.
abbrev pub runs : Bool → ℕ → ℕ → Bool
runs true m n = ltb m n
runs false m n = ltb n m

pub runs_irrefl : (a : Bool) (n : ℕ) → runs a n n ≡ false
runs_irrefl true n = ground arith
runs_irrefl false n = ground arith

pub runs_asym : (a : Bool) (m n : ℕ) → runs a m n ≡ true → runs a n m ≡ false
runs_asym true m n h = ground arith
runs_asym false m n h = ground arith

pub last_id-concat :
    (xs : List Event) (y : Event) (ys : List Event) → last_id (xs ++ y ∷ ys) ≡ last_id (y ∷ ys)
last_id-concat [] y ys = refl
last_id-concat (x ∷ []) y ys = refl
last_id-concat (x ∷ z ∷ xs) y ys = last_id-concat (z ∷ xs) y ys

pub last_id-All :
    (P : ℕ → Type 0) (x : Event) (xs : List Event)
    → All (λ e. P e.id) (x ∷ xs)
    → P (last_id (x ∷ xs))
last_id-All P x [] (h, k) = h
last_id-All P x (y ∷ xs) (h, k) = last_id-All P y xs k

-- Past the last of a part of an ordered list comes the rest.
pub select-last_id :
    (a : Bool) (x : Event) (xs ys : List Event)
    → Ordered (λ e f. runs a e.id f.id) ((x ∷ xs) ++ ys)
    → select (λ e. runs a (last_id (x ∷ xs)) e.id) ((x ∷ xs) ++ ys) ≡ ys
select-last_id a x [] ys (hx, h) = rw (runs_irrefl a x.id) (select-All _ ys hx)
select-last_id a x (y ∷ xs) ys (hx, h) =
    rw
      (runs_asym a x.id (last_id (y ∷ xs))
        (last_id-All (λ n. runs a x.id n ≡ true) y xs (All-append_left _ (y ∷ xs) ys hx)))
      (select-last_id a y xs ys h)

pub not-before : (a b : Event) → before a b ≡ true → not (before b a) ≡ true
not-before a b h = ground arith

-- Ids and emission order agree on a contract's rows.
abbrev pub InStep : List Event → Type 0
InStep es = Ordered before es × Ordered (λ e f. ltb e.id f.id) es × All (λ e. e.id ≤ max_i64) es

pub Ordered-map :
    (r t : Event → Event → Bool) (h : (a b : Event) → r a b ≡ true → t a b ≡ true) (es : List Event)
    → Ordered r es
    → Ordered t es
Ordered-map r t h [] k = tt
Ordered-map r t h (e ∷ es) (ke, k) = (All-map (λ f. h e f) es ke, Ordered-map r t h es k)

-- Rows in emission order are sorted to themselves, or to their reverse.
abbrev pub directed : Bool → List Event → List Event
directed true es = es
directed false es = backwards es

pub sorted-eq : (a : Bool) (es : List Event) → Ordered before es → sorted a es ≡ directed a es
sorted-eq true es h = sort_by-Ordered before es h
sorted-eq false es h =
    sort_by-backwards (λ a b. before b a) es
      (Ordered-map before (λ a b. not (before b a)) not-before es h)

pub directed-select :
    (a : Bool) (p : Event → Bool) (es : List Event)
    → directed a (select p es) ≡ select p (directed a es)
directed-select true p es = refl
directed-select false p es = sym (select-backwards p es)

pub directed-Ordered :
    (a : Bool) (es : List Event)
    → Ordered (λ e f. ltb e.id f.id) es
    → Ordered (λ e f. runs a e.id f.id) (directed a es)
directed-Ordered true es h = h
directed-Ordered false es h = Ordered-backwards (λ e f. ltb f.id e.id) es h

pub directed-All :
    (P : Event → Type 0) (a : Bool) (es : List Event) → All P es → All P (directed a es)
directed-All P true es h = h
directed-All P false es h = All-backwards P es h

pub past-runs :
    (a : Bool) (n : ℕ) (e : Event) → n ≤ max_i64 → past (format_cursor n) a e ≡ runs a n e.id
past-runs true n e h = past-format_cursor true n e h
past-runs false n e h = past-format_cursor false n e h

pub length-drop : (n : ℕ) (es : List Event) → length (drop n es) + n ≤ length es + n
length-drop zero es = omega arith
length-drop (suc n) [] = omega arith
length-drop (suc n) (e ∷ es) = omega (arith, length-drop n es)

pub take-take-suc : (n : ℕ) (es : List Event) → take n (take (suc n) es) ≡ take n es
take-take-suc zero es = refl
take-take-suc (suc n) [] = refl
take-take-suc (suc n) (e ∷ es) = ap (◌∷◌ e) (take-take-suc n es)

pub eq_str-ne-nil : (s : Str) → s ≢ [] → eq_str s [] ≡ false
eq_str-ne-nil [] h = absurd (h refl)
eq_str-ne-nil (c ∷ s) h = refl

pub build_events_query_ok :
    (q : EventQuery) (d : Dialect) (limit : ℕ) (ascending : Bool) (b : Builder)
    → q.contract_id ≢ []
    → supported d ≡ true
    → order_is_ascending q.order ≡ ok ascending
    → with_cursor q.cursor ascending (filters q d) ≡ ok b
    → (s : Select) × (build_events_query q d limit ≡ ok s)
unfolding build_events_query
build_events_query_ok q d limit ascending b hc hd ho hw =
    (finished_select b (limit + 1) ascending, rw (eq_str-ne-nil q.contract_id hc, hd, ho, hw))

pub page_of-short :
    (n : ℕ) (es : List Event)
    → length es ≤ n
    → page_of n (take (suc n) es) ≡ record { events = es; next_cursor = none }
page_of-short n es h =
    let whole : take (suc n) es ≡ es = take-eq_self (suc n) es (omega arith) in
    let fits : ltb n (length es) ≡ false = ground arith in rw whole (rw fits)

pub page_of-long :
    (n : ℕ) (es : List Event)
    → n < length es
    → page_of n (take (suc n) es)
      ≡ record { events = take n es; next_cursor = some (format_cursor (last_id (take n es))) }
page_of-long n es h =
    let count : length (take (suc n) es) ≡ suc n = omega (arith, length-take (suc n) es) in
    let more : ltb n (suc n) ≡ true = ground arith in rw count (rw more (rw (take-take-suc n es)))

-- The same with rows before the part.
pub select-last_id_within :
    (a : Bool) (pre : List Event) (x : Event) (xs ys : List Event)
    → Ordered (λ e f. runs a e.id f.id) ((pre ++ x ∷ xs) ++ ys)
    → select (λ e. runs a (last_id (x ∷ xs)) e.id) ((pre ++ x ∷ xs) ++ ys) ≡ ys
select-last_id_within a [] x xs ys h = select-last_id a x xs ys h
select-last_id_within a (p ∷ pre) x xs ys h =
    subst (λ n. select (λ e. runs a n e.id) ((p ∷ pre ++ x ∷ xs) ++ ys) ≡ ys)
      (last_id-concat (p ∷ pre) x xs) (select-last_id a p (pre ++ x ∷ xs) ys h)

pub last_id-All_within :
    (P : ℕ → Type 0) (pre : List Event) (x : Event) (xs ys : List Event)
    → All (λ e. P e.id) ((pre ++ x ∷ xs) ++ ys)
    → P (last_id (x ∷ xs))
last_id-All_within P [] x xs ys h = last_id-All P x xs (All-append_left _ (x ∷ xs) ys h)
last_id-All_within P (p ∷ pre) x xs ys h =
    subst P (last_id-concat (p ∷ pre) x xs)
      (last_id-All P p (pre ++ x ∷ xs) (All-append_left _ (p ∷ pre ++ x ∷ xs) ys h))

pub length-directed : (a : Bool) (es : List Event) → length (directed a es) ≡ length es
length-directed true es = refl
length-directed false [] = refl
length-directed false (e ∷ es) =
    omega (arith, length-append (backwards es) (e ∷ []), length-directed false es)

pub resolve_page_size_positive :
    (n : ℤ) (limit : ℕ) → resolve_page_size n ≡ ok limit → (l : ℕ) × (limit ≡ suc l)
unfolding resolve_page_size
resolve_page_size_positive n zero h = absurd (ground arith)
resolve_page_size_positive n (suc l) h = (l, refl)
