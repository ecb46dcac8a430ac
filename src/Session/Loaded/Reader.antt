-- ===== src/Session/Loaded/Reader.antt =====
-- `SessionReader::read` against the records of the lines (crates/protocol/src/lib.rs).
use android_ebpf_studio.Prelude.{
  ℕ, ◌+◌, ◌≡◌, refl, ◌∙◌, ◌⊎◌, inl, inr, true, false, Option, none, some, List, [], ◌∷◌, ◌++◌,
  arith, ltb, length, append-nil, append_assoc, Bool-cases, Option-cases,
}
use android_ebpf_studio.Wire.{StorageEvent}
use android_ebpf_studio.Wire.Records.{WireRecord, SessionLoad, empty_load}
use android_ebpf_studio.Session.{
  is_blank, ok, done, load_record, finish_load, visit_record, push_event, loaded, read_events, read,
}
use android_ebpf_studio.Session.Lines.{
  split_lines, rejects, passes_over, takes, judge_line, judge_lines,
}
use android_ebpf_studio.Session.Lines.Rounds.{judge_lines-step, visit-lines}
use android_ebpf_studio.Session.Loaded.{
  record_of, records_of, counts_line, count_lines, count_rejected, events_of, last_footer, load_all,
  verdict, load_all-IsCounted, final_integrity-verdict, events_cons,
}

module _ {E : Type 0} (parse : List ℕ → Option WireRecord) (max_line_bytes : ℕ) where
  visit_record_ok :
      (l : SessionLoad) (es : List StorageEvent) (r : WireRecord)
      → visit_record {E = E} push_event (l, es) r ≡ ok (load_record l r, es ++ events_of (r ∷ []))
  unfolding visit_record events_of
  visit_record_ok l es (WireRecord.event v q e) = refl
  visit_record_ok l es _ = rw append-nil refl

  -- What a line makes of the state, and of the records.
  judge_line-cases :
      (s : SessionLoad × List StorageEvent) (x : List ℕ)
      → ((judge_line parse (visit_record {E = E} push_event) max_line_bytes s x ≡ rejects)
          × (record_of parse max_line_bytes x ≡ none)
          × (counts_line parse max_line_bytes x ≡ true))
        ⊎ ((judge_line parse (visit_record {E = E} push_event) max_line_bytes s x ≡ passes_over)
            × (record_of parse max_line_bytes x ≡ none)
            × (counts_line parse max_line_bytes x ≡ false))
        ⊎ ((r : WireRecord) × (judge_line parse (visit_record {E = E} push_event) max_line_bytes s x
              ≡ takes (load_record s.0 r, s.1 ++ events_of (r ∷ [])))
            × (record_of parse max_line_bytes x ≡ some r)
            × (counts_line parse max_line_bytes x ≡ true))
  unfolding judge_line
  judge_line-cases s x = elim (Bool-cases (ltb max_line_bytes (length x))) [
    | inl long ↦ rw long (inl (refl, refl, refl))
    | inr short ↦ elim (Bool-cases (is_blank x)) [
      | inl blank ↦ rw (short, blank) (inr (inl (refl, refl, refl)))
      | inr full ↦ elim (Option-cases (parse x)) [
        | inl none_found ↦ rw (short, full, none_found) (inl (refl, refl, refl))
        | inr (r, found) ↦
            rw (short, full, found, visit_record_ok s.0 s.1 r) (inr (inr (r, refl, refl, refl)))
      ]
    ]
  ]

  judge_lines-load :
      (ls : List (List ℕ)) (l : SessionLoad) (es : List StorageEvent) (total rejected : ℕ)
      → judge_lines parse (visit_record {E = E} push_event) max_line_bytes ls (l, es) total rejected
        ≡ done
            (
              load_all l (records_of parse max_line_bytes ls),
              es ++ events_of (records_of parse max_line_bytes ls),
            )
            (total + count_lines parse max_line_bytes ls)
            (rejected + count_rejected parse max_line_bytes ls)
  unfolding judge_lines records_of count_lines count_rejected load_all events_of
  judge_lines-load [] l es total rejected =
      let t : total + 0 ≡ total = omega arith in
      let r : rejected + 0 ≡ rejected = omega arith in rw (append-nil, t, r) refl
  judge_lines-load (x ∷ ls) l es total rejected =
      let visitor = visit_record {E = E} push_event in
      let step = judge_lines-step parse visitor max_line_bytes x ls (l, es) total rejected in
      elim (judge_line-cases (l, es) x) [
        | inl (j, r, c) ↦
            let t : total + 1 + count_lines parse max_line_bytes ls
                ≡ total + (1 + count_lines parse max_line_bytes ls) =
              omega arith in
            let n : rejected + 1 + count_rejected parse max_line_bytes ls
                ≡ rejected + (1 + count_rejected parse max_line_bytes ls) =
              omega arith in
            rw (r, c)
              (step rejects j
                ∙ judge_lines-load ls l es (total + 1) (rejected + 1)
                ∙ rw (t, n) refl)
        | inr (inl (j, r, c)) ↦
            let t : 0 + count_lines parse max_line_bytes ls ≡ count_lines parse max_line_bytes ls =
              omega arith in
            let n : 0 + count_rejected parse max_line_bytes ls
                ≡ count_rejected parse max_line_bytes ls =
              omega arith in
            rw (r, c, t, n) (step passes_over j ∙ judge_lines-load ls l es total rejected)
        | inr (inr (w, j, r, c)) ↦
            let t : total + 1 + count_lines parse max_line_bytes ls
                ≡ total + (1 + count_lines parse max_line_bytes ls) =
              omega arith in
            let n : 0 + count_rejected parse max_line_bytes ls
                ≡ count_rejected parse max_line_bytes ls =
              omega arith in
            rw (r, c, n)
              (step (takes (load_record l w, es ++ events_of (w ∷ []))) j
                ∙ judge_lines-load ls (load_record l w) (es ++ events_of (w ∷ [])) (total + 1)
                    rejected
                ∙ rw (t, append_assoc, events_cons w (records_of parse max_line_bytes ls)) refl)
      ]

  -- For any parser and line limit, reading an input always ends, without an error, and gives: the
  -- events of the lines' records in order and their number, the number of lines that are too long or
  -- not blank, the number of those that are too long or hold no record, the last footer, and as
  -- integrity nothing without a footer, and otherwise whether that footer adds up, counts exactly the
  -- events, and no line was rejected.
  pub read-Summary :
      (input : List ℕ)
      → (l : SessionLoad) × (read {E = E} parse max_line_bytes input
          ≡ loaded l (events_of (records_of parse max_line_bytes (split_lines input))))
        × (l.events ≡ events_of (records_of parse max_line_bytes (split_lines input)))
        × (l.accepted_events
            ≡ length (events_of (records_of parse max_line_bytes (split_lines input))))
        × (l.total_lines ≡ count_lines parse max_line_bytes (split_lines input))
        × (l.rejected_lines ≡ count_rejected parse max_line_bytes (split_lines input))
        × (l.footer ≡ last_footer none (records_of parse max_line_bytes (split_lines input)))
        × (l.integrity_ok
            ≡ verdict
                (last_footer none (records_of parse max_line_bytes (split_lines input)))
                (length (events_of (records_of parse max_line_bytes (split_lines input))))
                (count_rejected parse max_line_bytes (split_lines input)))
  unfolding read read_events finish_load
  read-Summary input =
      let ls = split_lines input in
      let rs = records_of parse max_line_bytes ls in
      let l = load_all empty_load rs in
      let total = count_lines parse max_line_bytes ls in
      let rejected = count_rejected parse max_line_bytes ls in
      let counts =
        load_all-IsCounted rs empty_load 0 none
          (record { accepted_counted = refl; footer_kept = refl; integrity_of = refl }) in
      let accepted : l.accepted_events ≡ length (events_of rs) =
        omega (arith, counts.accepted_counted) in
      let t : 0 + total ≡ total = omega arith in
      let n : 0 + rejected ≡ rejected = omega arith in
      let passed =
        visit-lines parse (visit_record {E = E} push_event) max_line_bytes input (empty_load, [])
        ∙ judge_lines-load ls empty_load [] 0 0 in
      (
        record (finish_load l total rejected) { events = events_of rs },
        rw (passed, t, n) refl,
        refl,
        accepted,
        refl,
        refl,
        counts.footer_kept,
        rw (counts.footer_kept, accepted)
            (final_integrity-verdict (last_footer none rs) l.integrity_ok (length (events_of rs))
              rejected counts.integrity_of),
      )
