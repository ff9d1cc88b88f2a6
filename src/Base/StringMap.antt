-- ===== src/Base/StringMap.antt =====
-- `map[string]string` as an association list: annotations, labels and selectors.
use mathlib.Core.Path.{◌≡◌, refl}
use mathlib.Core.Option.{Option, none, some}
use mathlib.Core.List.{List, [], ◌∷◌}
use mathlib.Core.Logic.{inl, inr}
use Prim.Native.String.{String}
use native.Mathlib.Omega.{arith}
use text.Mathlib.Text.{◌==◌}
use text.Mathlib.TextEquality.{eq_iff}
use patroni_postgres_operato.Base.Tests.{if◌then◌else◌, Bool-cases}

module _ {ℓ} {V : Type ℓ} where
  unfoldable pub lookup : (key : String) → (dict : List (String × V)) → Option V
  lookup key [] = none
  lookup key ((at, x) ∷ dict) = let later = lookup key dict in if at == key then some x else later

  -- The first entry of the key is replaced, or one is added at the end.
  unfoldable pub insert : (key : String) → (x : V) → (dict : List (String × V)) → List (String × V)
  insert key x [] = (key, x) ∷ []
  insert key x ((at, y) ∷ dict) =
      let later = insert key x dict in if at == key then (key, x) ∷ dict else (at, y) ∷ later

  unfoldable pub erase : (key : String) → (dict : List (String × V)) → List (String × V)
  erase key [] = []
  erase key ((at, y) ∷ dict) =
      let later = erase key dict in if at == key then later else (at, y) ∷ later

  pub lookup-insert :
      (key other : String) (x : V) (dict : List (String × V))
      → lookup other (insert key x dict) ≡ (if key == other then some x else lookup other dict)
  unfolding insert lookup
  lookup-insert key other x [] = refl
  lookup-insert key other x ((at, y) ∷ dict) =
      ground
        (lookup-insert key other x dict, eq_iff at other, eq_iff at key, eq_iff key other, arith)

  pub lookup-erase :
      (key other : String) (dict : List (String × V))
      → lookup other (erase key dict) ≡ (if key == other then none else lookup other dict)
  unfolding erase lookup
  lookup-erase key other [] = ground arith
  lookup-erase key other ((at, y) ∷ dict) =
      ground (lookup-erase key other dict, eq_iff at other, eq_iff at key, eq_iff key other, arith)

module _ {ℓ κ} {V : Type ℓ} (P : String → V → Type κ) where
  abbrev pub AllEntries : List (String × V) → Type κ
  AllEntries [] = Unit
  AllEntries ((k, v) ∷ m) = P k v × AllEntries m

  -- What is found satisfies what all entries satisfy.
  pub AllEntries-lookup :
      (k : String) (m : List (String × V)) {v : V} → AllEntries m → lookup k m ≡ some v → P k v
  unfolding lookup
  AllEntries-lookup k [] all h = cc
  AllEntries-lookup k ((j, w) ∷ m) {v} (first, all) h = elim (Bool-cases (j == k)) [
    | inl e ↦
        let same : j ≡ k = (eq_iff j k).0 e in
        let found : w ≡ v = ground arith in rw same at (rw found at first)
    | inr e ↦ AllEntries-lookup k m all (ground arith)
  ]

pub ruleset map_laws = (lookup-insert, lookup-erase)
