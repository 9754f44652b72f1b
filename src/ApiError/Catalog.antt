-- ===== src/ApiError/Catalog.antt =====
-- What holds of every code, registered or not.
use pulsar_app.Base.{
  lt_str, sort_by, insert_by, arith, ℕ, ◌<◌, length, Bool, true, false, List, [], ◌∷◌, ◌≡◌, ◌↔◌,
  refl, arith, eq_str, ◌||◌, lookup, lookup-All, Option-cases, inl, inr, All, is_some,
}
use pulsar_app.ApiError.{
  Class, validation, not_found, rate_limited, unauthorized, internal, Code, Entry, registry,
  code_class, code_status, code_meaning, code_registered, all_codes, keys,
}

-- The HTTP status that belongs to a wire class.
abbrev pub class_status : Class → ℕ
class_status validation = 400
class_status not_found = 404
class_status rate_limited = 429
class_status unauthorized = 401
class_status internal = 500

registry-class_status : All (λ (e : Code × Entry). e.1.status ≡ class_status e.1.class) registry
unfolding registry
registry-class_status = omega arith

registry-meaning : All (λ (e : Code × Entry). 0 < length e.1.meaning) registry
unfolding registry
registry-meaning = omega arith

-- Each code is below the next.
abbrev pub IsSorted : List Code → Type 0
IsSorted [] = Unit
IsSorted (c ∷ []) = Unit
IsSorted (c ∷ d ∷ cs) = (lt_str c d ≡ true) × IsSorted (d ∷ cs)

abbrev pub member : Code → List Code → Bool
member c [] = false
member c (d ∷ ds) = eq_str d c || member c ds

member-insert_by :
    (c d : Code) (ds : List Code) → member c (insert_by lt_str d ds) ≡ (eq_str d c || member c ds)
member-insert_by c d [] = refl
member-insert_by c d (e ∷ ds) = ground (arith, member-insert_by c d ds)

member-sort_by : (c : Code) (cs : List Code) → member c (sort_by lt_str cs) ≡ member c cs
member-sort_by c [] = refl
member-sort_by c (d ∷ cs) = rw (member-insert_by, member-sort_by c cs)

member-keys : (c : Code) (m : List (Code × Entry)) → member c (keys m) ≡ is_some (lookup c m)
unfolding keys
member-keys c [] = refl
member-keys c ((d, e) ∷ m) = ground (arith, member-keys c m)

-- Every code, registered or not, has the HTTP status of its wire class.
pub code_status-code_class : (c : Code) → code_status c ≡ class_status (code_class c)
unfolding code_status code_class
code_status-code_class c = elim (Option-cases (lookup c registry)) [
  | inl e ↦ rw e
  | inr (v, e) ↦
      rw e (lookup-All (λ v. v.status ≡ class_status v.class) c registry registry-class_status e)
]

-- A code has a published meaning exactly if it is in the catalog.
pub code_meaning_iff : (c : Code) → (0 < length (code_meaning c)) ↔ (code_registered c ≡ true)
unfolding code_meaning code_registered
code_meaning_iff c = elim (Option-cases (lookup c registry)) [
  | inl e ↦ rw e (λ h. absurd (omega arith), λ h. cc)
  | inr (v, e) ↦
      rw e (λ h. refl, λ h. lookup-All (λ v. 0 < length v.meaning) c registry registry-meaning e)
]

all_codes-IsSorted : IsSorted all_codes
unfolding all_codes registry
all_codes-IsSorted = (
  refl,
  (
    refl,
    (
      refl,
      (
        refl,
        (refl, (refl, (refl, (refl, (refl, (refl, (refl, (refl, (refl, (refl, (refl, tt))))))))))),
      ),
    ),
  ),
)

member-all_codes : (c : Code) → member c all_codes ≡ code_registered c
member-all_codes c = unfold all_codes code_registered in rw (member-sort_by, member-keys)

-- The list that documentation is generated from is in strict order, so that it names no code
-- twice, and it holds exactly the registered codes.
pub all_codes_lem :
    IsSorted all_codes × ((c : Code) → (member c all_codes ≡ true) ↔ (code_registered c ≡ true))
all_codes_lem = (all_codes-IsSorted, λ c. rw (member-all_codes c) (λ h. h, λ h. h))
