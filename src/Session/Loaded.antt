-- ===== src/Session/Loaded.antt =====
-- The records of the lines of a session, and what loading them gives (crates/protocol/src/lib.rs).
pub mod Reader
use android_ebpf_studio.Prelude.{
  ℕ, ◌+◌, ◌≡◌, refl, ◌∙◌, ◌⊎◌, inl, inr, ◌&&◌, ◌||◌, not, Bool, true, false, Option, none, some,
  List, [], ◌∷◌, ◌++◌, arith, ltb, eqb, if◌then◌else◌, length, append-nil, append_assoc, Bool-cases,
  Option-cases,
}
use android_ebpf_studio.Wire.{StorageEvent}
use android_ebpf_studio.Wire.Records.{WireRecord, Footer, SessionLoad, empty_load}
use android_ebpf_studio.Session.{
  is_blank, ok, done, load_record, finish_load, visit_record, push_event, loaded, footer_adds_up,
  read_events, read, final_integrity,
}
use android_ebpf_studio.Session.Lines.{
  split_lines, rejects, passes_over, takes, judge_line, judge_lines,
}

module _ (parse : List ℕ → Option WireRecord) (max_line_bytes : ℕ) where
  -- The record of a line: one that is too long or blank has none.
  abbrev record_of : List ℕ → Option WireRecord
  record_of l = if ltb max_line_bytes (length l) || is_blank l then none else parse l

  abbrev cons_some : Option WireRecord → List WireRecord → List WireRecord
  cons_some none rs = rs
  cons_some (some r) rs = r ∷ rs

  pub records_of : List (List ℕ) → List WireRecord
  records_of [] = []
  records_of (l ∷ ls) = cons_some (record_of l) (records_of ls)

  abbrev is_none : Option WireRecord → Bool
  is_none none = true
  is_none (some r) = false

  abbrev counts_line : List ℕ → Bool
  counts_line l = ltb max_line_bytes (length l) || not (is_blank l)

  -- Lines that are too long or not blank, and those of them that have no record.
  pub count_lines : List (List ℕ) → ℕ
  count_lines [] = 0
  count_lines (l ∷ ls) = (if counts_line l then 1 else 0) + count_lines ls

  pub count_rejected : List (List ℕ) → ℕ
  count_rejected [] = 0
  count_rejected (l ∷ ls) =
      (if counts_line l && is_none (record_of l) then 1 else 0) + count_rejected ls

-- The events, and the last footer, of a list of records.
pub events_of : List WireRecord → List StorageEvent
events_of [] = []
events_of (WireRecord.event v q e ∷ rs) = e ∷ events_of rs
events_of (r ∷ rs) = events_of rs

pub last_footer : Option Footer → List WireRecord → Option Footer
last_footer f [] = f
last_footer f (WireRecord.footer g ∷ rs) = last_footer (some g) rs
last_footer f (r ∷ rs) = last_footer f rs

load_all : SessionLoad → List WireRecord → SessionLoad
load_all l [] = l
load_all l (r ∷ rs) = load_all (load_record l r) rs

abbrev adds_up : Option Footer → Option Bool
adds_up none = none
adds_up (some f) = some (footer_adds_up f)

-- The verdict on a session: none without a footer, and else whether the footer adds up, counts the
-- events that were read, and no line was rejected.
abbrev pub verdict : Option Footer → ℕ → ℕ → Option Bool
verdict none accepted rejected = none
verdict (some f) accepted rejected =
    some (footer_adds_up f && eqb f.events_persisted accepted && eqb rejected 0)

record IsCounted (l : SessionLoad) (accepted : ℕ) (f : Option Footer) : Type 0 where
  pub accepted_counted : l.accepted_events ≡ accepted
  pub footer_kept : l.footer ≡ f
  pub integrity_of : l.integrity_ok ≡ adds_up f

load_all-IsCounted :
    (rs : List WireRecord) (l : SessionLoad) (accepted : ℕ) (f : Option Footer)
    → IsCounted l accepted f
    → IsCounted (load_all l rs) (accepted + length (events_of rs)) (last_footer f rs)
unfolding load_all events_of last_footer load_record
load_all-IsCounted [] l n f v = record {
  accepted_counted = omega (arith, v.accepted_counted);
  footer_kept = v.footer_kept;
  integrity_of = v.integrity_of;
}
load_all-IsCounted (WireRecord.event a q e ∷ rs) l n f v =
    let rest = load_all-IsCounted rs (load_record l (WireRecord.event a q e)) (n + 1) f (record {
      accepted_counted = omega (arith, v.accepted_counted);
      footer_kept = v.footer_kept;
      integrity_of = v.integrity_of;
    }) in
    record {
      accepted_counted = omega (arith, rest.accepted_counted);
      footer_kept = rest.footer_kept;
      integrity_of = rest.integrity_of;
    }
load_all-IsCounted (WireRecord.footer g ∷ rs) l n f v =
    load_all-IsCounted rs (load_record l (WireRecord.footer g)) n (some g)
      (record { accepted_counted = v.accepted_counted; footer_kept = refl; integrity_of = refl })
load_all-IsCounted (r ∷ rs) l n f v = load_all-IsCounted rs (load_record l r) n f (record {
  accepted_counted = v.accepted_counted;
  footer_kept = v.footer_kept;
  integrity_of = v.integrity_of;
})

final_integrity-verdict :
    (f : Option Footer) (o : Option Bool) (accepted rejected : ℕ)
    → o ≡ adds_up f
    → final_integrity f o accepted rejected ≡ verdict f accepted rejected
final_integrity-verdict none o a r e = e
final_integrity-verdict (some f) o a r e = rw e refl

events_cons :
    (r : WireRecord) (rs : List WireRecord)
    → events_of (r ∷ []) ++ events_of rs ≡ events_of (r ∷ rs)
unfolding events_of
events_cons (WireRecord.event v q e) rs = refl
events_cons _ rs = refl
