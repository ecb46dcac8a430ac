-- ===== src/Prelude/Dict.antt =====
-- `HashMap` as an association list with one entry a key.
use mathlib.Core.Path.{◌≡◌, refl}
use mathlib.Core.Bool.{Bool}
use mathlib.Core.Option.{Option, none, some}
use mathlib.Core.List.{List, [], ◌∷◌}
use native.Mathlib.Omega.{arith}
use android_ebpf_studio.Prelude.Tests.{if◌then◌else◌}
use android_ebpf_studio.Prelude.Keys.{Eq, ◌==◌, ==_refl}

module _ {ℓ κ} {K : Type ℓ} {V : Type κ} ⦃e : Eq K⦄ where
  unfoldable pub lookup : K → List (K × V) → Option V
  lookup k [] = none
  lookup k ((j, v) ∷ m) = if j == k then some v else lookup k m

  -- Every entry of the key goes, also where a list held the key twice.
  unfoldable pub remove : K → List (K × V) → List (K × V)
  remove k [] = []
  remove k ((j, w) ∷ m) = if j == k then remove k m else (j, w) ∷ remove k m

  unfoldable pub insert : K → V → List (K × V) → List (K × V)
  insert key v [] = (key, v) ∷ []
  insert key v ((j, w) ∷ others) =
      if j == key then (key, v) ∷ others else (j, w) ∷ insert key v others

  pub lookup-insert :
      (key sought : K) (v : V) (m : List (K × V))
      → lookup sought (insert key v m) ≡ (if key == sought then some v else lookup sought m)
  unfolding lookup insert
  lookup-insert key sought v [] = refl
  lookup-insert key sought v ((i, w) ∷ others) = ground (
    arith,
    lookup-insert key sought v others,
    e.decides key sought,
    e.decides i key,
    e.decides i sought,
  )

  pub lookup-remove :
      (k j : K) (m : List (K × V)) → lookup j (remove k m) ≡ (if k == j then none else lookup j m)
  unfolding lookup remove
  lookup-remove k j [] = ground arith
  lookup-remove k j ((i, w) ∷ m) =
      ground (arith, e.decides k j, e.decides i k, e.decides i j, lookup-remove k j m)

module _ {ℓ κ} {K : Type ℓ} {V : Type κ} where
  -- `retain`: the entries whose value passes the test.
  unfoldable pub retain : (V → Bool) → List (K × V) → List (K × V)
  retain keep [] = []
  retain keep ((k, v) ∷ m) = if keep v then (k, v) ∷ retain keep m else retain keep m

module _ {ℓ κ} {K : Type ℓ} {V : Type κ} ⦃e : Eq K⦄ where
  pub lookup-insert_self : (k : K) (v : V) (m : List (K × V)) → lookup k (insert k v m) ≡ some v
  lookup-insert_self k v m = simp (lookup-insert, ==_refl)

  pub lookup-retain-none :
      (keep : V → Bool) (k : K) (m : List (K × V))
      → lookup k m ≡ none
      → lookup k (retain keep m) ≡ none
  unfolding lookup retain
  lookup-retain-none keep k [] h = refl
  lookup-retain-none keep k ((j, v) ∷ m) h = ground (arith, lookup-retain-none keep k m)
