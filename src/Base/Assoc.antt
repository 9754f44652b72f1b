-- ===== src/Base/Assoc.antt =====
-- A Go map with string keys, as an association list.
use mathlib.Core.Path.{◌≡◌, subst}
use mathlib.Core.Logic.{inl, inr}
use mathlib.Core.Bool.{Bool, true, false}
use mathlib.Core.Option.{Option, none, some}
use mathlib.Core.List.{List, [], ◌∷◌}
use pulsar_app.Base.Tests.{if◌then◌else◌, Bool-cases}
use pulsar_app.Base.Lists.{All}
use pulsar_app.Base.Strings.{Str, eq_str}

module _ {ℓ} {V : Type ℓ} where
  -- `v, ok := m[k]`
  abbrev pub lookup : Str → List (Str × V) → Option V
  lookup k [] = none
  lookup k ((j, v) ∷ m) = if eq_str j k then some v else lookup k m

  abbrev pub is_some : Option V → Bool
  is_some none = false
  is_some (some v) = true

module _ {ℓ κ} {V : Type ℓ} (P : V → Type κ) where
  -- What holds of every value of a map holds of what a lookup finds.
  pub lookup-All :
      (k : Str) (m : List (Str × V)) {v : V} → All (λ e. P e.1) m → lookup k m ≡ some v → P v
  lookup-All k [] h e = absurd (none≢some e)
    where
      none≢some : {v : V} → none ≡ some v → ⊥
      none≢some e = cc
  lookup-All k ((j, w) ∷ m) {v} (pw, h) e = elim (Bool-cases (eq_str j k)) [
    | inl same ↦ let found : some w ≡ some v = rw same at e in subst P (cc) pw
    | inr other ↦ lookup-All k m h (rw other at e)
  ]
