-- ===== src/Coverage/Counters.antt =====
-- The counters of the coverage add up (`FilePathCoverage::observe`, `finish_with`).
use android_ebpf_studio.Prelude.{
  ℕ, ◌+◌, ◌-◌, ◌%◌, u64_size, ◌≡◌, ◌<◌, refl, ◌⊎◌, inl, inr, Bool, Option, none, some, List, [],
  ◌∷◌, arith, if◌then◌else◌, ltb, length, Bool-cases,
}
use android_ebpf_studio.Events.Node.{FileOriginView}
use android_ebpf_studio.Events.Completed.{CompletedIo}
use android_ebpf_studio.Coverage.{
  FilePathConfidence, probable, unresolved, FilePathCoverage, completion_records, known_bytes,
  count_confidence, from_origins, has_evidence, observe, Finished, ok, err, observe_all, close,
  finish_with,
}

abbrev reasons : FilePathCoverage → ℕ
reasons c =
    c.no_origin + c.missing_path + c.context_only + c.incomplete_origin_set
    + c.observation_without_file_identity

-- The byte sums of the three confidences are words of 64 bits.
abbrev AreWords : FilePathCoverage → Type 0
AreWords c =
    (c.exact.known_bytes < u64_size)
    × (c.probable.known_bytes < u64_size)
    × (c.unresolved.known_bytes < u64_size)

-- `n` completions with `bytes` bytes together, which wrap at 64 bits, were counted, `several` of
-- them with more than one origin, and every unresolved one under one reason.
pub record Counts (c : FilePathCoverage) (n bytes several : ℕ) : Type 0 where
  pub records : completion_records c ≡ n
  pub words : AreWords c
  pub volume : known_bytes c ≡ bytes % u64_size
  pub explained : c.unresolved.count ≡ reasons c
  pub shared : c.multi_origin.count ≡ several

count_confidence-Counts :
    (k : FilePathConfidence) (c : FilePathCoverage) (bytes : ℕ) (evidence : Bool)
    (os : List FileOriginView) (n total several : ℕ)
    → Counts c n total several
    → Counts (count_confidence k c bytes evidence os) (n + 1) (total + bytes) several
unfolding count_confidence
count_confidence-Counts FilePathConfidence.exact c b e os n t s v = ground arith
count_confidence-Counts probable c b e os n t s v = ground arith
count_confidence-Counts unresolved c b e os n t s v = ground arith

-- The counters at the end: `unmatched` completions without a request are records too, and are
-- unresolved without a reason.
pub record Closes (c : FilePathCoverage) (n bytes several unmatched lost : ℕ) : Type 0 where
  pub records : completion_records c ≡ n + unmatched
  pub words : AreWords c
  pub volume : known_bytes c ≡ bytes % u64_size
  pub explained : c.unresolved.count ≡ reasons c + unmatched
  pub shared : c.multi_origin.count ≡ several
  pub unmatched_kept : c.unmatched_completions ≡ unmatched
  pub lost_kept : c.issue_events_without_completion ≡ lost

abbrev pub Item : Type 0 → Type 0
Item E = Option E × CompletedIo × List FileOriginView

module _ {E : Type 0} where
  abbrev sum_bytes : List (Item E) → ℕ
  sum_bytes [] = 0
  sum_bytes (i ∷ is) = i.1.issue.bytes + sum_bytes is

  abbrev count_several : List (Item E) → ℕ
  count_several [] = 0
  count_several (i ∷ is) = (if ltb 1 (length i.2) then 1 else 0) + count_several is

  abbrev count_items : List (Item E) → ℕ
  count_items [] = 0
  count_items (i ∷ is) = 1 + count_items is

  -- No check stops the loop.
  abbrev AllPass : List (Item E) → Type 0
  AllPass [] = Unit {0}
  AllPass (i ∷ is) = (i.0 ≡ none) × AllPass is

observe-Counts :
    (c : FilePathCoverage) (io : CompletedIo) (os : List FileOriginView) (n total several : ℕ)
    → Counts c n total several
    → Counts
        (observe c io os)
        (n + 1)
        (total + io.issue.bytes)
        (several + (if ltb 1 (length os) then 1 else 0))
unfolding observe
observe-Counts c io os n t s v = elim (Bool-cases (ltb 1 (length os))) [
  | inl several ↦ rw several (
      count_confidence-Counts (from_origins os) _ io.issue.bytes (has_evidence io.evidence) os n t
        (s + 1) (ground arith))
  | inr single ↦ rw single (
      count_confidence-Counts (from_origins os) _ io.issue.bytes (has_evidence io.evidence) os n t
        (s + 0) (ground arith))
]

module _ {E : Type 0} where
  -- How the counters stand when the loop is through; an error counts nothing.
  abbrev EndsWith : Finished E → ℕ → ℕ → ℕ → Type 0
  EndsWith (err e) n bytes several = ⊥
  EndsWith (ok c) n bytes several = Counts c n bytes several

  EndsWith-resp :
      (f : Finished E) {n n' t t' s s' : ℕ}
      → n ≡ n'
      → t ≡ t'
      → s ≡ s'
      → EndsWith f n t s
      → EndsWith f n' t' s'
  EndsWith-resp (ok c) a b d v = ground arith
  EndsWith-resp (err e) a b d v = v

  -- The first check that stops gives this error.
  abbrev IsFirst : E → List (Item E) → Type 0
  IsFirst e [] = ⊥
  IsFirst e ((some e', io, os) ∷ is) = e' ≡ e
  IsFirst e ((none, io, os) ∷ is) = IsFirst e is

  observe_all-Counts :
      (is : List (Item E)) (c : FilePathCoverage) (n total several : ℕ)
      → AllPass is
      → Counts c n total several
      → EndsWith
          (observe_all is c)
          (n + count_items is)
          (total + sum_bytes is)
          (several + count_several is)
  unfolding observe_all
  observe_all-Counts [] c n t s p v = ground arith
  observe_all-Counts ((none, io, os) ∷ is) c n t s p v =
      EndsWith-resp (observe_all is (observe c io os)) (omega arith) (omega arith) (omega arith) (
        observe_all-Counts is (observe c io os) (n + 1) (t + io.issue.bytes)
          (s + (if ltb 1 (length os) then 1 else 0)) p.1 (observe-Counts c io os n t s v))
  observe_all-Counts ((some e, io, os) ∷ is) c n t s p v = cc

  -- How the coverage ends that had `n` completions of `bytes` bytes, `several` of them with several
  -- origins, before the completed requests.
  abbrev pub Outcome : ℕ → ℕ → ℕ → List (Item E) → ℕ → ℕ → Finished E → Type 0
  Outcome n bytes several is unmatched lost (ok c) =
      AllPass is
      × Closes c (n + count_items is) (bytes + sum_bytes is) (several + count_several is) unmatched
          lost
  Outcome n bytes several is unmatched lost (err e) = IsFirst e is

  close-Outcome :
      (is : List (Item E)) (f : Finished E) (n bytes several unmatched issued completed : ℕ)
      → AllPass is
      → EndsWith f (n + count_items is) (bytes + sum_bytes is) (several + count_several is)
      → Outcome n bytes several is unmatched
          (issued - completed)
          (close unmatched issued completed f)
  unfolding close
  close-Outcome is (ok c) n b s u i d p v = (p, ground arith)
  close-Outcome is (err e) n b s u i d p v = absurd v

  stops :
      (is : List (Item E)) (c : FilePathCoverage)
      → AllPass is ⊎ ((e : E) × (observe_all is c ≡ err e) × IsFirst e is)
  unfolding observe_all
  stops [] c = inl tt
  stops ((some e, io, os) ∷ is) c = inr (e, refl, refl)
  stops ((none, io, os) ∷ is) c = elim (stops is (observe c io os)) [
    | inl p ↦ inl (refl, p)
    | inr (e, h, first) ↦ inr (e, h, first)
  ]

  -- Finishing a coverage in which `n` completions were counted, over the completed requests: an error
  -- is that of the first check that stops; otherwise no check stops, the records are these `n`, the
  -- completed requests and the unmatched completions, the known bytes those of the first two modulo
  -- 2^64, the bytes of each confidence are below 2^64, the unresolved records are the sum of the five
  -- reasons and of the unmatched completions, the records with several origins are counted apart, and
  -- the issues without a completion are the issued less the completed ones, none if those are more.
  -- The coverage starts with bytes below 2^64 in each confidence and with these `n` completions.
  pub finish_with-Outcome :
      (c : FilePathCoverage) (is : List (Item E)) (n bytes several unmatched issued completed : ℕ)
      → Counts c n bytes several
      → Outcome n bytes several is unmatched
          (issued - completed)
          (finish_with c is unmatched issued completed)
  unfolding finish_with close
  finish_with-Outcome c is n b s u i d v = elim (stops is c) [
    | inl p ↦ close-Outcome is (observe_all is c) n b s u i d p (observe_all-Counts is c n b s p v)
    | inr (e, h, first) ↦ rw h first
  ]
