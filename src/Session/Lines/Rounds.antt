-- ===== src/Session/Lines/Rounds.antt =====
-- The rounds of the line loop, one a line (`SessionReader::visit`, crates/protocol/src/lib.rs).
use android_ebpf_studio.Prelude.{
  ℕ, zero, suc, ◌+◌, ◌<◌, ◌≡◌, refl, sym, ap, ◌∙◌, inl, inr, true, false, Option, none, some, List,
  [], ◌∷◌, arith, ltb, if◌then◌else◌, length, Bool-cases,
}
use android_ebpf_studio.Wire.Records.{WireRecord}
use android_ebpf_studio.Session.{
  read_until, skip_line, ends_line, is_blank, Visited, ok, err, done, failed, Round, at_end, stops,
  goes, after_visitor, after_parse, take_line, visit_from, visit,
}
use android_ebpf_studio.Session.Lines.{
  split_lines, Judgement, rejects, passes_over, takes, halts, of_visited, of_parsed, judge_line,
  judge_lines, first_of, split_lines-first, read_until-whole, read_until-part, length-skip_line,
  first_of-cons, skipped_behind, le_or_lt,
}

module _ {S E : Type 0} (parse : List ℕ → Option WireRecord)
    (visitor : S → WireRecord → Visited S E) (max_line_bytes : ℕ) where
  abbrev round_of : List ℕ → S → ℕ → ℕ → Judgement S E → Round S E
  round_of rest s total rejected rejects = goes rest s (total + 1) (rejected + 1)
  round_of rest s total rejected passes_over = goes rest s total rejected
  round_of rest s total rejected (takes s') = goes rest s' (total + 1) rejected
  round_of rest s total rejected (halts e) = stops e

  of_parsed-round :
      (rest : List ℕ) (s : S) (total rejected : ℕ) (o : Option WireRecord)
      → after_parse parse visitor max_line_bytes rest s total rejected o
        ≡ round_of rest s total rejected (of_parsed parse visitor max_line_bytes s o)
  of_parsed-round rest s total rejected none = refl
  of_parsed-round rest s total rejected (some r) = visited (visitor s r)
    where
      visited :
          (v : Visited S E)
          → after_visitor parse visitor max_line_bytes rest (total + 1) rejected v
            ≡ round_of rest s total rejected (of_visited parse visitor max_line_bytes v)
      visited (ok s') = refl
      visited (err e) = refl

  take_line-round :
      (b : ℕ) (bs rest behind : List ℕ) (s : S) (total rejected : ℕ)
      → rest ≡ behind
      → (if ends_line false (b ∷ bs) then rest else skip_line rest) ≡ behind
      → take_line parse visitor max_line_bytes (b ∷ bs) rest s total rejected
        ≡ round_of behind s total rejected (judge_line parse visitor max_line_bytes s (b ∷ bs))
  unfolding take_line judge_line
  take_line-round b bs rest behind s total rejected e skipped =
      elim (Bool-cases (ltb max_line_bytes (length (b ∷ bs)))) [
        | inl long ↦ rw (long, skipped) refl
        | inr short ↦ elim (Bool-cases (is_blank (b ∷ bs))) [
          | inl blank ↦ rw (short, blank, e) refl
          | inr full ↦
              rw (short, full, e) (of_parsed-round behind s total rejected (parse (b ∷ bs)))
        ]
      ]

module _ {S E : Type 0} (parse : List ℕ → Option WireRecord)
    (visitor : S → WireRecord → Visited S E) (max_line_bytes : ℕ) where
  take_line-long :
      (l rest : List ℕ) (s : S) (total rejected : ℕ)
      → max_line_bytes < length l
      → take_line parse visitor max_line_bytes l rest s total rejected
        ≡ goes (if ends_line false l then rest else skip_line rest) s (total + 1) (rejected + 1)
  unfolding take_line
  take_line-long [] rest s total rejected h = absurd (omega arith)
  take_line-long (b ∷ bs) rest s total rejected h =
      let long : ltb max_line_bytes (length (b ∷ bs)) ≡ true = ground arith in rw long refl

module _ {S E : Type 0} (parse : List ℕ → Option WireRecord)
    (visitor : S → WireRecord → Visited S E) (max_line_bytes : ℕ) where
  -- One round does with the next line what is to be done, and leaves the input behind that line.
  read-round :
      (b : ℕ) (bs : List ℕ) (s : S) (total rejected : ℕ)
      → take_line parse visitor max_line_bytes
          (read_until (max_line_bytes + 1) (b ∷ bs)).0
          (read_until (max_line_bytes + 1) (b ∷ bs)).1
          s
          total
          rejected
        ≡ round_of parse visitor max_line_bytes
            (skip_line (b ∷ bs))
            s
            total
            rejected
            (judge_line parse visitor max_line_bytes s (first_of (b ∷ bs)))
  unfolding skip_line judge_line
  read-round b bs s total rejected =
      elim (le_or_lt (length (first_of (b ∷ bs))) (max_line_bytes + 1)) [
        | inl whole ↦
            let (c, cs, e) = first_of-cons b bs in
            rw (read_until-whole (max_line_bytes + 1) (b ∷ bs) whole, e)
              (take_line-round parse visitor max_line_bytes c cs (skip_line (b ∷ bs))
                (skip_line (b ∷ bs)) s total rejected refl (rw (← e) (skipped_behind (b ∷ bs))))
        | inr part ↦
            let (size, unended, behind) = read_until-part (max_line_bytes + 1) (b ∷ bs) part in
            let long : ltb max_line_bytes (length (first_of (b ∷ bs))) ≡ true = ground arith in
            rw
              (
                take_line-long parse visitor max_line_bytes
                    (read_until (max_line_bytes + 1) (b ∷ bs)).0
                    (read_until (max_line_bytes + 1) (b ∷ bs)).1 s total rejected (omega arith),
                unended,
                behind,
                long,
              )
              refl
      ]

  visit_from-step :
      (fuel : ℕ) (input : List ℕ) (s : S) (total rejected : ℕ) (r : Round S E)
      → take_line parse visitor max_line_bytes
          (read_until (max_line_bytes + 1) input).0
          (read_until (max_line_bytes + 1) input).1
          s
          total
          rejected
        ≡ r
      → visit_from parse visitor max_line_bytes (suc fuel) input s total rejected ≡ (elim r [
        | at_end ↦ done s total rejected
        | stops e ↦ failed e
        | goes rest s' total' rejected' ↦
            visit_from parse visitor max_line_bytes fuel rest s' total' rejected'
      ])
  unfolding visit_from
  visit_from-step fuel input s total rejected r e =
      ap
        (λ (x : Round S E). elim x [
          | at_end ↦ done s total rejected
          | stops e ↦ failed e
          | goes rest s' total' rejected' ↦
              visit_from parse visitor max_line_bytes fuel rest s' total' rejected'
        ])
        e

  pub judge_lines-step :
      (l : List ℕ) (ls : List (List ℕ)) (s : S) (total rejected : ℕ) (j : Judgement S E)
      → judge_line parse visitor max_line_bytes s l ≡ j
      → judge_lines parse visitor max_line_bytes (l ∷ ls) s total rejected ≡ (elim j [
        | rejects ↦ judge_lines parse visitor max_line_bytes ls s (total + 1) (rejected + 1)
        | passes_over ↦ judge_lines parse visitor max_line_bytes ls s total rejected
        | takes s' ↦ judge_lines parse visitor max_line_bytes ls s' (total + 1) rejected
        | halts e ↦ failed e
      ])
  unfolding judge_lines
  judge_lines-step l ls s total rejected j e =
      ap
        (λ (x : Judgement S E). elim x [
          | rejects ↦ judge_lines parse visitor max_line_bytes ls s (total + 1) (rejected + 1)
          | passes_over ↦ judge_lines parse visitor max_line_bytes ls s total rejected
          | takes s' ↦ judge_lines parse visitor max_line_bytes ls s' (total + 1) rejected
          | halts e ↦ failed e
        ])
        e

  continues :
      (fuel : ℕ) (rest : List ℕ) (s : S) (total rejected : ℕ) (j : Judgement S E)
      → ((s' : S) (t r : ℕ)
          → visit_from parse visitor max_line_bytes fuel rest s' t r
            ≡ judge_lines parse visitor max_line_bytes (split_lines rest) s' t r)
      → (elim (round_of parse visitor max_line_bytes rest s total rejected j) [
        | at_end ↦ done s total rejected
        | stops e ↦ failed e
        | goes rest s' total' rejected' ↦
            visit_from parse visitor max_line_bytes fuel rest s' total' rejected'
      ])
        ≡ (elim j [
          | rejects ↦
              judge_lines parse visitor max_line_bytes
                (split_lines rest)
                s
                (total + 1)
                (rejected + 1)
          | passes_over ↦
              judge_lines parse visitor max_line_bytes (split_lines rest) s total rejected
          | takes s' ↦
              judge_lines parse visitor max_line_bytes (split_lines rest) s' (total + 1) rejected
          | halts e ↦ failed e
        ])
  continues fuel rest s total rejected rejects ih = ih s (total + 1) (rejected + 1)
  continues fuel rest s total rejected passes_over ih = ih s total rejected
  continues fuel rest s total rejected (takes s') ih = ih s' (total + 1) rejected
  continues fuel rest s total rejected (halts e) ih = refl

  visit_from-lines :
      (fuel : ℕ) (input : List ℕ) (s : S) (total rejected : ℕ)
      → length input < fuel
      → visit_from parse visitor max_line_bytes fuel input s total rejected
        ≡ judge_lines parse visitor max_line_bytes (split_lines input) s total rejected
  unfolding judge_lines take_line first_of split_lines
  visit_from-lines zero input s total rejected h = absurd (omega arith)
  visit_from-lines (suc fuel) [] s total rejected h =
      visit_from-step fuel [] s total rejected at_end
        (rw (read_until-whole (max_line_bytes + 1) [] (omega arith)) refl)
  visit_from-lines (suc fuel) (b ∷ bs) s total rejected h =
      let first = first_of (b ∷ bs) in
      let rest = skip_line (b ∷ bs) in
      let shorter = length-skip_line b bs in
      let j = judge_line parse visitor max_line_bytes s first in
      visit_from-step fuel (b ∷ bs) s total rejected _ (read-round b bs s total rejected)
      ∙ continues fuel rest s total rejected j
          (λ s' t r. visit_from-lines fuel rest s' t r (omega arith))
      ∙ sym (judge_lines-step first (split_lines rest) s total rejected j refl)
      ∙ sym (
          ap (λ ls. judge_lines parse visitor max_line_bytes ls s total rejected)
            (split_lines-first b bs))

  -- For any parser, visitor and limit: the loop does with each line of the input, in order, what
  -- `judge_line` says (too long is rejected, blank passed over, no record rejected, and a record
  -- visited), and returns the final state with the numbers of lines that are not passed over and of
  -- rejected lines, or the first error of the visitor; it never runs out of fuel.
  pub visit-lines :
      (input : List ℕ) (s : S)
      → visit parse visitor max_line_bytes input s
        ≡ judge_lines parse visitor max_line_bytes (split_lines input) s 0 0
  unfolding visit
  visit-lines input s = visit_from-lines (length input + 1) input s 0 0 (omega arith)
