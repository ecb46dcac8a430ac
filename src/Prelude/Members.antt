-- ===== src/Prelude/Members.antt =====
-- Membership in a list, as a type by recursion that the tactics open.
use mathlib.Core.Path.{◌≡◌, sym}
use mathlib.Core.Logic.{◌⊎◌, inl, inr}
use mathlib.Core.Bool.{Bool, true, false, ◌||◌}
use mathlib.Core.List.{List, [], ◌∷◌, ◌++◌}
use native.Mathlib.Omega.{arith}
use android_ebpf_studio.Prelude.Tests.{Bool-cases}
use android_ebpf_studio.Prelude.Keys.{Eq, ◌==◌}

module _ {A : Type 0} where
  abbrev pub IsIn : A → List A → Type 0
  IsIn a [] = ⊥
  IsIn a (x ∷ xs) = (x ≡ a) ⊎ IsIn a xs

  pub IsIn-append_left : (a : A) (xs ys : List A) → IsIn a xs → IsIn a (xs ++ ys)
  IsIn-append_left a [] ys h = absurd h
  IsIn-append_left a (x ∷ xs) ys (inl e) = inl e
  IsIn-append_left a (x ∷ xs) ys (inr h) = inr (IsIn-append_left a xs ys h)

  pub IsIn-append_right : (a : A) (xs ys : List A) → IsIn a ys → IsIn a (xs ++ ys)
  IsIn-append_right a [] ys h = h
  IsIn-append_right a (x ∷ xs) ys h = inr (IsIn-append_right a xs ys h)

  pub IsIn-append_cases : (a : A) (xs ys : List A) → IsIn a (xs ++ ys) → IsIn a xs ⊎ IsIn a ys
  IsIn-append_cases a [] ys h = inr h
  IsIn-append_cases a (x ∷ xs) ys (inl e) = inl (inl e)
  IsIn-append_cases a (x ∷ xs) ys (inr h) = elim (IsIn-append_cases a xs ys h) [
    | inl l ↦ inl (inr l)
    | inr r ↦ inr r
  ]

  -- No value stands twice.
  abbrev pub AllDistinct : List A → Type 0
  AllDistinct [] = Unit {0}
  AllDistinct (x ∷ xs) = ¬ IsIn x xs × AllDistinct xs

  pub append-AllDistinct :
      (xs : List A) (a : A) → AllDistinct xs → ¬ IsIn a xs → AllDistinct (xs ++ a ∷ [])
  append-AllDistinct [] a d n = ((λ h. h), tt)
  append-AllDistinct (x ∷ xs) a d n = (
    (λ h. apart (IsIn-append_cases x xs (a ∷ []) h)),
    append-AllDistinct xs a d.1 (λ i. n (inr i)),
  )
    where
      apart : IsIn x xs ⊎ IsIn x (a ∷ []) → ⊥
      apart (inl i) = d.0 i
      apart (inr (inl e)) = n (inl (sym e))
      apart (inr (inr i)) = i

module _ {A : Type 0} ⦃e : Eq A⦄ where
  abbrev pub contains : List A → A → Bool
  contains [] a = false
  contains (x ∷ xs) a = x == a || contains xs a

  pub contains-IsIn : (xs : List A) (a : A) → contains xs a ≡ true → IsIn a xs
  contains-IsIn [] a h = cc
  contains-IsIn (x ∷ xs) a h = ground (arith, e.decides x a, contains-IsIn xs a)

  pub not_contains : (xs : List A) (a : A) → contains xs a ≡ false → ¬ IsIn a xs
  not_contains [] a h i = i
  not_contains (x ∷ xs) a h (inl i) = ground (arith, e.decides x a)
  not_contains (x ∷ xs) a h (inr i) = not_contains xs a (ground arith) i

  pub contains-false : (xs : List A) (a : A) → ¬ IsIn a xs → contains xs a ≡ false
  contains-false xs a n = elim (Bool-cases (contains xs a)) [
    | inl h ↦ absurd (n (contains-IsIn xs a h))
    | inr h ↦ h
  ]
