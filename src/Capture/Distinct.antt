-- ===== src/Capture/Distinct.antt =====
-- `has_duplicates` decides whether a value stands twice (crates/protocol/src/lib.rs).
use android_ebpf_studio.Prelude.{
  ◌≡◌, refl, sym, ◌≢◌, ◌↔◌, inl, inr, Bool, false, ◌||◌, List, [], ◌∷◌, arith, Eq, IsIn,
  AllDistinct, contains, not_contains, contains-false,
}
use android_ebpf_studio.Capture.{any_seen, has_duplicates}

module _ {A : Type 0} where
  abbrev AllFresh : List A → List A → Type 0
  AllFresh seen [] = Unit {0}
  AllFresh seen (v ∷ vs) = ¬ IsIn v seen × AllFresh seen vs

  not-IsIn_cons : (v w : A) (vs : List A) → w ≢ v → ¬ IsIn v vs → ¬ IsIn v (w ∷ vs)
  not-IsIn_cons v w vs n r (inl e) = n e
  not-IsIn_cons v w vs n r (inr h) = r h

  AllFresh-nil : (vs : List A) → AllFresh [] vs
  AllFresh-nil [] = tt
  AllFresh-nil (v ∷ vs) = ((λ h. h), AllFresh-nil vs)

  AllFresh-cons :
      (v : A) (seen vs : List A) → ¬ IsIn v vs → AllFresh seen vs → AllFresh (v ∷ seen) vs
  AllFresh-cons v seen [] n f = tt
  AllFresh-cons v seen (w ∷ vs) n f = (cons_case, AllFresh-cons v seen vs (λ h. n (inr h)) f.1)
    where
      cons_case : IsIn w (v ∷ seen) → ⊥
      cons_case (inl e) = n (inl (sym e))
      cons_case (inr h) = f.0 h

  AllFresh-uncons :
      (v : A) (seen vs : List A) → AllFresh (v ∷ seen) vs → ¬ IsIn v vs × AllFresh seen vs
  AllFresh-uncons v seen [] f = ((λ h. h), tt)
  AllFresh-uncons v seen (w ∷ vs) f =
      let rest = AllFresh-uncons v seen vs f.1 in
      (not-IsIn_cons v w vs (λ e. f.0 (inl (sym e))) rest.0, ((λ h. f.0 (inr h)), rest.1))

or_false : (a b : Bool) → (a || b) ≡ false → (a ≡ false) × (b ≡ false)
or_false a b h = ground arith

or_false_of : (a b : Bool) → a ≡ false → b ≡ false → (a || b) ≡ false
or_false_of a b h k = ground arith

module _ {A : Type 0} ⦃e : Eq A⦄ where
  any_seen_iff :
      (seen vs : List A) → (any_seen seen vs ≡ false) ↔ (AllFresh seen vs × AllDistinct vs)
  any_seen_iff seen [] = ((λ _. (tt, tt)), λ _. refl)
  any_seen_iff seen (v ∷ vs) =
      let rest = any_seen_iff (v ∷ seen) vs in
      (
        (λ h.
            let (c, r) = or_false (contains seen v) (any_seen (v ∷ seen) vs) h in
            let (f, d) = rest.0 r in
            let (n, f') = AllFresh-uncons v seen vs f in ((not_contains seen v c, f'), (n, d))),
        λ h.
            or_false_of (contains seen v) (any_seen (v ∷ seen) vs) (contains-false seen v h.0.0)
              (rest.1 (AllFresh-cons v seen vs h.1.0 h.0.1, h.1.1)),
      )

  -- A list has duplicates unless no value stands in it twice.
  pub has_duplicates_iff : (vs : List A) → (has_duplicates vs ≡ false) ↔ AllDistinct vs
  has_duplicates_iff vs =
      ((λ h. ((any_seen_iff [] vs).0 h).1), λ d. (any_seen_iff [] vs).1 (AllFresh-nil vs, d))
