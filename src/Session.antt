-- ===== src/Session.antt =====
-- crates/protocol/src/lib.rs: `SessionReader`, its line loop `visit`, and `read_events` and `read`,
-- which sort the records of a session file. The input is the list of its bytes, so an input that
-- fails is not modelled; `serde_json` is the parameter `parse`.
pub mod Lines
pub mod Loaded
mod Tests
use android_ebpf_studio.Prelude.{
  ℕ, zero, suc, ◌+◌, ◌&&◌, ◌||◌, Bool, true, false, not, Option, none, some, List, [], ◌∷◌, ◌++◌,
  ltb, leb, eqb, if◌then◌else◌, length, saturating_add,
}
use android_ebpf_studio.Wire.{StorageEvent}
use android_ebpf_studio.Wire.Records.{WireRecord, Footer, SessionLoad, empty_load}

abbrev pub newline : ℕ
newline = 10

-- `take(limit).read_until(b'\n')`: the bytes up to the newline, that included, but at most `limit`,
-- and the input behind them.
pub read_until : ℕ → List ℕ → List ℕ × List ℕ
read_until zero input = ([], input)
read_until (suc n) [] = ([], [])
read_until (suc n) (b ∷ bs) =
    let rest = read_until n bs in if eqb b newline then (b ∷ [], bs) else (b ∷ rest.0, rest.1)

-- The inner loop: the input behind the next newline. It reads buffers of any size.
pub skip_line : List ℕ → List ℕ
skip_line [] = []
skip_line (b ∷ bs) = if eqb b newline then bs else skip_line bs

-- Whether the last byte is a newline, with an answer for the empty list.
pub ends_line : Bool → List ℕ → Bool
ends_line empty [] = empty
ends_line empty (b ∷ bs) = ends_line (eqb b newline) bs

-- `u8::is_ascii_whitespace`
abbrev is_ascii_whitespace : ℕ → Bool
is_ascii_whitespace b = eqb b 9 || eqb b 10 || eqb b 12 || eqb b 13 || eqb b 32

pub is_blank : List ℕ → Bool
is_blank [] = true
is_blank (b ∷ bs) = is_ascii_whitespace b && is_blank bs

-- What a visitor of state `S` returns.
pub data Visited (S E : Type 0) : Type 0 where
  ok : S → Visited S E
  err : E → Visited S E

-- What a pass over the input returns: the state with the numbers of lines and of rejected lines.
pub data Passed (S E : Type 0) : Type 0 where
  done : S → ℕ → ℕ → Passed S E
  failed : E → Passed S E
  out_of_fuel : Passed S E

-- Where one round of the loop leaves off.
pub data Round (S E : Type 0) : Type 0 where
  at_end : Round S E
  stops : E → Round S E
  goes : List ℕ → S → ℕ → ℕ → Round S E

module _ {S E : Type 0} (parse : List ℕ → Option WireRecord)
    (visitor : S → WireRecord → Visited S E) (max_line_bytes : ℕ) where
  abbrev pub after_visitor : List ℕ → ℕ → ℕ → Visited S E → Round S E
  after_visitor rest total rejected (ok s) = goes rest s total rejected
  after_visitor rest total rejected (err e) = stops e

  abbrev pub after_parse : List ℕ → S → ℕ → ℕ → Option WireRecord → Round S E
  after_parse rest s total rejected none = goes rest s (total + 1) (rejected + 1)
  after_parse rest s total rejected (some r) = after_visitor rest (total + 1) rejected (visitor s r)

  -- The body of the loop once the line is read.
  pub take_line : List ℕ → List ℕ → S → ℕ → ℕ → Round S E
  unfolding skip_line ends_line is_blank
  take_line [] rest s total rejected = at_end
  take_line (b ∷ bs) rest s total rejected =
      if ltb max_line_bytes (length (b ∷ bs))
      then goes (if ends_line false (b ∷ bs) then rest else skip_line rest) s (total + 1)
          (rejected + 1)
      else if is_blank (b ∷ bs)
      then goes rest s total rejected
      else after_parse rest s total rejected (parse (b ∷ bs))

  -- Each round but the last takes a byte: `Lines.Rounds.visit-lines` shows that fuel for one round more than
  -- the input has bytes suffices.
  pub visit_from : ℕ → List ℕ → S → ℕ → ℕ → Passed S E
  unfolding read_until take_line
  visit_from zero input s total rejected = out_of_fuel
  visit_from (suc fuel) input s total rejected =
      let read = read_until (max_line_bytes + 1) input in
      elim (take_line read.0 read.1 s total rejected) [
        | at_end ↦ done s total rejected
        | stops e ↦ failed e
        | goes rest s' total' rejected' ↦ visit_from fuel rest s' total' rejected'
      ]

  pub visit : List ℕ → S → Passed S E
  unfolding visit_from
  visit input s = visit_from (length input + 1) input s 0 0

abbrev footer_adds_up : Footer → Bool
footer_adds_up f =
    eqb f.events_seen
      (saturating_add (saturating_add f.events_persisted f.events_dropped) f.events_rejected)

-- The `match` on a record; an event goes to the visitor of events besides.
pub load_record : SessionLoad → WireRecord → SessionLoad
load_record l (WireRecord.source_info r) = record l { source_info = l.source_info ++ r ∷ [] }
load_record l (WireRecord.disk_stats r) = record l { disk_stats = l.disk_stats ++ r ∷ [] }
load_record l (WireRecord.hello r) = record l { hello = some r }
load_record l (WireRecord.capabilities v c) = record l { capabilities = some c }
load_record l (WireRecord.event v q e) = record l { accepted_events = l.accepted_events + 1 }
load_record l (WireRecord.health r) = record l { health = l.health ++ r ∷ [] }
load_record l (WireRecord.control v a) = record l { controls = l.controls ++ a ∷ [] }
load_record l (WireRecord.aggregate v s) = record l { aggregates = l.aggregates ++ s ∷ [] }
load_record l (WireRecord.heavy_hitters v s) = record l {
  heavy_hitters = l.heavy_hitters ++ s ∷ [];
}
load_record l (WireRecord.trigger v t) = record l { triggers = l.triggers ++ t ∷ [] }
load_record l (WireRecord.segment v s) = record l { segments = l.segments ++ s ∷ [] }
load_record l (WireRecord.stack_fingerprint v f) = record l {
  stack_fingerprints = l.stack_fingerprints ++ f ∷ [];
}
load_record l (WireRecord.footer f) = record l {
  integrity_ok = some (footer_adds_up f);
  graceful = f.graceful;
  footer = some f;
}

abbrev is_true : Option Bool → Bool
is_true none = false
is_true (some b) = b

-- The last test on the footer that was read last.
abbrev pub final_integrity : Option Footer → Option Bool → ℕ → ℕ → Option Bool
final_integrity none integrity accepted rejected = integrity
final_integrity (some f) integrity accepted rejected =
    some (is_true integrity && eqb f.events_persisted accepted && eqb rejected 0)

pub finish_load : SessionLoad → ℕ → ℕ → SessionLoad
finish_load l total rejected = record l {
  total_lines = total;
  rejected_lines = rejected;
  integrity_ok = final_integrity l.footer l.integrity_ok l.accepted_events rejected;
}

-- What `read_events` returns.
pub data ReadResult (T E : Type 0) : Type 0 where
  loaded : SessionLoad → T → ReadResult T E
  load_failed : E → ReadResult T E
  load_out_of_fuel : ReadResult T E

module _ {T E : Type 0} (visit_event : T → StorageEvent → Visited T E) where
  abbrev with_load : SessionLoad → Visited T E → Visited (SessionLoad × T) E
  with_load l (ok t) = ok (l, t)
  with_load l (err e) = err e

  pub visit_record : SessionLoad × T → WireRecord → Visited (SessionLoad × T) E
  unfolding load_record
  visit_record (l, t) (WireRecord.event v q e) =
      with_load (load_record l (WireRecord.event v q e)) (visit_event t e)
  visit_record (l, t) r = ok (load_record l r, t)

  abbrev finish_read : Passed (SessionLoad × T) E → ReadResult T E
  finish_read (done (l, t) total rejected) = loaded (finish_load l total rejected) t
  finish_read (failed e) = load_failed e
  finish_read out_of_fuel = load_out_of_fuel

  pub read_events : (List ℕ → Option WireRecord) → ℕ → List ℕ → T → ReadResult T E
  unfolding visit visit_record finish_load
  read_events parse max_line_bytes input t =
      finish_read (visit parse visit_record max_line_bytes input (empty_load, t))

module _ {E : Type 0} where
  -- The visitor that `read` passes, and its last assignment.
  abbrev pub push_event : List StorageEvent → StorageEvent → Visited (List StorageEvent) E
  push_event events e = ok (events ++ e ∷ [])

  abbrev with_events : ReadResult (List StorageEvent) E → ReadResult (List StorageEvent) E
  with_events (loaded l events) = loaded (record l { events = events }) events
  with_events (load_failed e) = load_failed e
  with_events load_out_of_fuel = load_out_of_fuel

  pub read : (List ℕ → Option WireRecord) → ℕ → List ℕ → ReadResult (List StorageEvent) E
  unfolding read_events
  read parse max_line_bytes input =
      with_events (read_events push_event parse max_line_bytes input [])
