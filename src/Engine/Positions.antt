-- ===== src/Engine/Positions.antt =====
-- Values at sorted positions (`pipeline_for`, `transaction_for`): a filter cannot tell them from the
-- whole list if every value that passes has its position among them.
use android_ebpf_studio.Prelude.{
  ℕ, zero, suc, ◌≡◌, refl, ap, ◌∙◌, ◌≤◌, ◌<◌, inl, inr, Bool, true, some, List, [], ◌∷◌, arith,
  get_elem?, IsIn, Bool-cases,
}
use android_ebpf_studio.Stats.Ranks.{AllFrom, IsSorted}
use android_ebpf_studio.Pipeline.{filter}
use android_ebpf_studio.Engine.Evidence.{insert_sorted, sort, dedup, cons_distinct, at_positions}
use android_ebpf_studio.Engine.Live.{sort-IsSorted}

insert_sorted-IsIn : (v : ℕ) (vs : List ℕ) (x : ℕ) → IsIn x (v ∷ vs) → IsIn x (insert_sorted v vs)
unfolding insert_sorted
insert_sorted-IsIn v [] x i = i
insert_sorted-IsIn v (w ∷ ws) x i = ground (arith, insert_sorted-IsIn v ws x)

sort-IsIn : (vs : List ℕ) (x : ℕ) → IsIn x vs → IsIn x (sort vs)
unfolding sort
sort-IsIn [] x i = i
sort-IsIn (v ∷ vs) x (inl e) = insert_sorted-IsIn v (sort vs) x (inl e)
sort-IsIn (v ∷ vs) x (inr i) = insert_sorted-IsIn v (sort vs) x (inr (sort-IsIn vs x i))

cons_distinct-IsIn : (v : ℕ) (vs : List ℕ) (x : ℕ) → IsIn x (v ∷ vs) → IsIn x (cons_distinct v vs)
cons_distinct-IsIn v [] x i = i
cons_distinct-IsIn v (w ∷ ws) x i = ground arith

dedup-IsIn : (vs : List ℕ) (x : ℕ) → IsIn x vs → IsIn x (dedup vs)
unfolding dedup
dedup-IsIn [] x i = i
dedup-IsIn (v ∷ vs) x (inl e) = cons_distinct-IsIn v (dedup vs) x (inl e)
dedup-IsIn (v ∷ vs) x (inr i) = cons_distinct-IsIn v (dedup vs) x (inr (dedup-IsIn vs x i))

-- From the bound on, each above the one before.
abbrev IsStrict : ℕ → List ℕ → Type 0
IsStrict low [] = Unit {0}
IsStrict low (p ∷ ps) = (low ≤ p) × IsStrict (suc p) ps

cons_distinct-IsStrict :
    (low v : ℕ) (vs : List ℕ) → low ≤ v → IsStrict v vs → IsStrict low (cons_distinct v vs)
cons_distinct-IsStrict low v [] h s = (h, tt)
cons_distinct-IsStrict low v (w ∷ ws) h s = ground arith

dedup-IsStrict : (low : ℕ) (vs : List ℕ) → AllFrom low vs → IsSorted vs → IsStrict low (dedup vs)
unfolding dedup
dedup-IsStrict low [] a s = tt
dedup-IsStrict low (v ∷ vs) a s =
    cons_distinct-IsStrict low v (dedup vs) a.0 (dedup-IsStrict v vs s.0 s.1)

AllFrom-zero : (vs : List ℕ) → AllFrom 0 vs
AllFrom-zero [] = tt
AllFrom-zero (v ∷ vs) = (omega arith, AllFrom-zero vs)

-- Sorting and removing duplicates gives strictly increasing positions, none of them lost.
pub distinct-IsStrict : (vs : List ℕ) → IsStrict 0 (dedup (sort vs))
distinct-IsStrict vs = dedup-IsStrict 0 (sort vs) (AllFrom-zero (sort vs)) (sort-IsSorted vs)

pub distinct-IsIn : (vs : List ℕ) (x : ℕ) → IsIn x vs → IsIn x (dedup (sort vs))
distinct-IsIn vs x i = dedup-IsIn (sort vs) x (sort-IsIn vs x i)

abbrev previous : ℕ → ℕ
previous zero = zero
previous (suc n) = n

-- The positions in the tail of a list.
abbrev lower : List ℕ → List ℕ
lower [] = []
lower (p ∷ ps) = previous p ∷ lower ps

lower-IsStrict : (low : ℕ) (ps : List ℕ) → IsStrict (suc low) ps → IsStrict low (lower ps)
lower-IsStrict low [] s = tt
lower-IsStrict low (zero ∷ ps) s = absurd (omega (arith, s.0))
lower-IsStrict low (suc p ∷ ps) s = (omega (arith, s.0), lower-IsStrict (suc p) ps s.1)

lower-IsIn : (low : ℕ) (ps : List ℕ) (x : ℕ) → IsIn (suc x) ps → IsIn x (lower ps)
lower-IsIn low [] x i = i
lower-IsIn low (p ∷ ps) x (inl e) = inl (ap previous e)
lower-IsIn low (p ∷ ps) x (inr i) = inr (lower-IsIn low ps x i)

not_below : (low : ℕ) (ps : List ℕ) (x : ℕ) → IsStrict low ps → x < low → ¬ IsIn x ps
not_below low [] x s h i = i
not_below low (p ∷ ps) x s h (inl e) = absurd (omega (arith, s.0))
not_below low (p ∷ ps) x s h (inr i) = not_below (suc p) ps x s.1 (omega (arith, s.0)) i

module _ {A : Type 0} where
  at_positions-nil : (ps : List ℕ) → at_positions {A = A} [] ps ≡ []
  unfolding at_positions
  at_positions-nil [] = refl
  at_positions-nil (p ∷ ps) = at_positions-nil ps

  at_positions-lower :
      (v : A) (vs : List A) (low : ℕ) (ps : List ℕ)
      → IsStrict (suc low) ps
      → at_positions (v ∷ vs) ps ≡ at_positions vs (lower ps)
  unfolding at_positions
  at_positions-lower v vs low [] s = refl
  at_positions-lower v vs low (zero ∷ ps) s = absurd (omega (arith, s.0))
  at_positions-lower v vs low (suc p ∷ ps) s = rw (at_positions-lower v vs (suc p) ps s.1) refl

  module _ (test : A → Bool) where
    abbrev pub FindsAll : List A → List ℕ → Type 0
    FindsAll vs ps = (p : ℕ) (v : A) → get_elem? vs p ≡ some v → test v ≡ true → IsIn p ps

    lowered : (v : A) (vs : List A) (ps : List ℕ) → FindsAll (v ∷ vs) ps → FindsAll vs (lower ps)
    lowered v vs ps f p w e h = lower-IsIn 0 ps p (f (suc p) w e h)

    pub filter-at_positions :
        (vs : List A) (ps : List ℕ)
        → IsStrict 0 ps
        → FindsAll vs ps
        → filter test (at_positions vs ps) ≡ filter test vs
    unfolding filter at_positions
    filter-at_positions [] ps s f = rw (at_positions-nil ps) refl
    filter-at_positions (v ∷ vs) [] s f = elim (Bool-cases (test v)) [
      | inl passes ↦ absurd (f 0 v refl passes)
      | inr fails ↦ rw fails (filter-at_positions vs [] tt (lowered v vs [] f))
    ]
    filter-at_positions (v ∷ vs) (zero ∷ ps) s f =
        let step = at_positions-lower v vs 0 ps s.1 in
        let rest = filter-at_positions vs (lower ps) (lower-IsStrict 0 ps s.1) (later f) in
        rw (step, rest) refl
      where
        later : FindsAll (v ∷ vs) (zero ∷ ps) → FindsAll vs (lower ps)
        later g p w e h = elim (g (suc p) w e h) [
          | inl zero_is ↦ absurd (omega (arith, zero_is))
          | inr i ↦ lower-IsIn 0 ps p i
        ]
    filter-at_positions (v ∷ vs) (suc p ∷ ps) s f = elim (Bool-cases (test v)) [
      | inl passes ↦
          absurd (not_below 1 (suc p ∷ ps) 0 (omega arith, s.1) (omega arith) (f 0 v refl passes))
      | inr fails ↦
          let step = at_positions-lower v vs 0 (suc p ∷ ps) (omega arith, s.1) in
          let rest =
            filter-at_positions vs (lower (suc p ∷ ps))
              (lower-IsStrict 0 (suc p ∷ ps) (omega arith, s.1)) (lowered v vs (suc p ∷ ps) f) in
          rw fails (ap (filter test) step ∙ rest)
    ]
