-- ===== src/Session/Lines.antt =====
-- The lines of an input and what the line loop of `SessionReader::visit` is to do with them, and how
-- a bounded read takes a line (crates/protocol/src/lib.rs).
pub mod Rounds
use android_ebpf_studio.Prelude.{
  ℕ, zero, suc, ◌+◌, ◌≤◌, ◌<◌, ◌≡◌, refl, sym, ap, ◌∙◌, ◌⊎◌, inl, inr, true, false, Option, none,
  some, List, [], ◌∷◌, arith, ltb, eqb, if◌then◌else◌, length, Bool-cases,
}
use android_ebpf_studio.Wire.Records.{WireRecord}
use android_ebpf_studio.Session.{
  newline, read_until, skip_line, ends_line, is_blank, Visited, ok, err, Passed, done, failed,
  Round, at_end, stops, goes, after_visitor, after_parse, take_line, visit_from, visit,
}

abbrev prepend : ℕ → List (List ℕ) → List (List ℕ)
prepend b [] = (b ∷ []) ∷ []
prepend b (l ∷ ls) = (b ∷ l) ∷ ls

-- The lines of the input, each with its newline; the last may have none.
pub split_lines : List ℕ → List (List ℕ)
split_lines [] = []
split_lines (b ∷ bs) =
    let rest = split_lines bs in if eqb b newline then (b ∷ []) ∷ rest else prepend b rest

-- What is to happen to a line.
pub data Judgement (S E : Type 0) : Type 0 where
  rejects passes_over : Judgement S E
  takes : S → Judgement S E
  halts : E → Judgement S E

module _ {S E : Type 0} (parse : List ℕ → Option WireRecord)
    (visitor : S → WireRecord → Visited S E) (max_line_bytes : ℕ) where
  abbrev of_visited : Visited S E → Judgement S E
  of_visited (ok s) = takes s
  of_visited (err e) = halts e

  abbrev of_parsed : S → Option WireRecord → Judgement S E
  of_parsed s none = rejects
  of_parsed s (some r) = of_visited (visitor s r)

  -- Too long is rejected, blank is passed over, a line that does not parse is rejected, and the
  -- others go to the visitor, which may stop.
  unfoldable pub judge_line : S → List ℕ → Judgement S E
  judge_line s l =
      if ltb max_line_bytes (length l)
      then rejects
      else if is_blank l
      then passes_over
      else of_parsed s (parse l)

  unfoldable pub judge_lines : List (List ℕ) → S → ℕ → ℕ → Passed S E
  judge_lines [] s total rejected = done s total rejected
  judge_lines (l ∷ ls) s total rejected = elim (judge_line s l) [
    | rejects ↦ judge_lines ls s (total + 1) (rejected + 1)
    | passes_over ↦ judge_lines ls s total rejected
    | takes s' ↦ judge_lines ls s' (total + 1) rejected
    | halts e ↦ failed e
  ]

first_of : List ℕ → List ℕ
first_of [] = []
first_of (b ∷ bs) = if eqb b newline then b ∷ [] else b ∷ first_of bs

split_lines-first :
    (b : ℕ) (bs : List ℕ)
    → split_lines (b ∷ bs) ≡ first_of (b ∷ bs) ∷ split_lines (skip_line (b ∷ bs))
unfolding split_lines first_of skip_line
split_lines-first b [] = ground arith
split_lines-first b (c ∷ cs) = elim (Bool-cases (eqb b newline)) [
  | inl e ↦ rw e refl
  | inr e ↦ rw e (ap (prepend b) (split_lines-first c cs))
]

-- A line within the limit is read whole.
read_until-whole :
    (k : ℕ) (input : List ℕ)
    → length (first_of input) ≤ k
    → read_until k input ≡ (first_of input, skip_line input)
unfolding read_until first_of skip_line
read_until-whole zero [] h = refl
read_until-whole zero (b ∷ bs) h = absurd (ground arith)
read_until-whole (suc k) [] h = refl
read_until-whole (suc k) (b ∷ bs) h = elim (Bool-cases (eqb b newline)) [
  | inl e ↦ rw e refl
  | inr e ↦ rw (e, read_until-whole k bs (ground arith)) refl
]

-- Of a line over the limit, the limit's bytes are read, and the rest of it is still to skip.
read_until-part :
    (k : ℕ) (input : List ℕ)
    → k < length (first_of input)
    → (length (read_until k input).0 ≡ k)
      × (ends_line false (read_until k input).0 ≡ false)
      × (skip_line (read_until k input).1 ≡ skip_line input)
unfolding read_until first_of skip_line ends_line
read_until-part zero [] h = ground arith
read_until-part zero (b ∷ bs) h = (refl, refl, refl)
read_until-part (suc k) [] h = absurd (omega arith)
read_until-part (suc k) (b ∷ bs) h = elim (Bool-cases (eqb b newline)) [
  | inl e ↦ absurd (ground arith)
  | inr e ↦ rw e (ground (arith, read_until-part k bs))
]

unended-last : (input : List ℕ) → ends_line false (first_of input) ≡ false → skip_line input ≡ []
unfolding first_of skip_line ends_line
unended-last [] h = refl
unended-last (b ∷ bs) h = ground (arith, unended-last bs)

length-skip_line : (b : ℕ) (bs : List ℕ) → length (skip_line (b ∷ bs)) < length (b ∷ bs)
unfolding skip_line
length-skip_line b [] = ground arith
length-skip_line b (c ∷ cs) = ground (arith, length-skip_line c cs)

first_of-cons : (b : ℕ) (bs : List ℕ) → (c : ℕ) × (cs : List ℕ) × (first_of (b ∷ bs) ≡ c ∷ cs)
unfolding first_of
first_of-cons b bs = elim (Bool-cases (eqb b newline)) [
  | inl e ↦ (b, [], rw e refl)
  | inr e ↦ (b, first_of bs, rw e refl)
]

skipped_behind :
    (input : List ℕ)
    → (if ends_line false (first_of input) then skip_line input else skip_line (skip_line input))
      ≡ skip_line input
unfolding skip_line
skipped_behind input = elim (Bool-cases (ends_line false (first_of input))) [
  | inl e ↦ rw e refl
  | inr e ↦ rw (e, unended-last input e) refl
]

le_or_lt : (a b : ℕ) → (a ≤ b) ⊎ (b < a)
le_or_lt a b = grind arith
