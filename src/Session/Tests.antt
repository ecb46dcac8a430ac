-- ===== src/Session/Tests.antt =====
-- Runs of the session reader, and its theorems at concrete inputs (crates/protocol/src/lib.rs).
use android_ebpf_studio.Prelude.{
  ℕ, ◌≡◌, true, Option, none, some, List, [], ◌∷◌, length, suc, eqb, if◌then◌else◌,
}
use android_ebpf_studio.Wire.Records.{WireRecord, Footer, SessionLoad}
use android_ebpf_studio.Session.{Visited, ok, visit, loaded, read}
use android_ebpf_studio.Session.Lines.{split_lines, judge_lines}
use android_ebpf_studio.Session.Lines.Rounds.{visit-lines}
use android_ebpf_studio.Session.Loaded.Reader.{read-Summary}
use android_ebpf_studio.Session.Loaded.{
  records_of, events_of, count_lines, count_rejected, last_footer, verdict,
}

abbrev end_of_session : Footer
end_of_session = record {
  schema_version = 8;
  events_seen = 0;
  events_persisted = 0;
  events_dropped = 0;
  events_rejected = 0;
  graceful = some true;
}

-- A parser of one record: a line that starts with `f` is a footer.
parse_footer : List ℕ → Option WireRecord
parse_footer [] = none
parse_footer (b ∷ bs) = if eqb b 102 then some (WireRecord.footer end_of_session) else none

count_record : ℕ → WireRecord → Visited ℕ ℕ
count_record n r = ok (suc n)

-- A footer, a blank line, a line over 3 bytes, and a line that does not parse.
abbrev input : List ℕ
input = 102 ∷ 10 ∷ 32 ∷ 10 ∷ 102 ∷ 102 ∷ 102 ∷ 102 ∷ 10 ∷ 120 ∷ []

visit-lines_example :
    visit parse_footer count_record 3 input 0
    ≡ judge_lines parse_footer count_record 3 (split_lines input) 0 0 0
visit-lines_example = visit-lines parse_footer count_record 3 input 0

read-Summary_example :
    (l : SessionLoad) × (read {E = ℕ} parse_footer 3 input
      ≡ loaded l (events_of (records_of parse_footer 3 (split_lines input))))
    × (l.events ≡ events_of (records_of parse_footer 3 (split_lines input)))
    × (l.accepted_events ≡ length (events_of (records_of parse_footer 3 (split_lines input))))
    × (l.total_lines ≡ count_lines parse_footer 3 (split_lines input))
    × (l.rejected_lines ≡ count_rejected parse_footer 3 (split_lines input))
    × (l.footer ≡ last_footer none (records_of parse_footer 3 (split_lines input)))
    × (l.integrity_ok
        ≡ verdict
            (last_footer none (records_of parse_footer 3 (split_lines input)))
            (length (events_of (records_of parse_footer 3 (split_lines input))))
            (count_rejected parse_footer 3 (split_lines input)))
read-Summary_example = read-Summary {E = ℕ} parse_footer 3 input
