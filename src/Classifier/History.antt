-- ===== src/Classifier/History.antt =====
-- The classifier answers from the last request of the same stream
-- (`SequentialClassifier::classify`).
use android_ebpf_studio.Prelude.{
  ◌+◌, ◌≡◌, refl, ◌≤◌, Option, none, some, List, [], ◌∷◌, arith, if◌then◌else◌, ◌==◌, option_eq,
  nat_eq, u64_max, checked_add,
}
use android_ebpf_studio.Prelude.Dict.{lookup, lookup-insert}
use android_ebpf_studio.Events.Block.{BlockIssue, AccessPattern, unknown, sequential, random}
use android_ebpf_studio.Classifier.{
  StreamKey, stream_eq, LastAccess, Streams, stream_key, access_of, pattern_after, classify,
}

-- The streams after a history of requests, the latest first.
unfoldable pub after : List BlockIssue → Streams
after [] = []
after (i ∷ is) = (classify (after is) i).0

-- The latest request of a stream in a history.
abbrev pub last_of : StreamKey → List BlockIssue → Option BlockIssue
last_of k [] = none
last_of k (i ∷ is) = if stream_key i == k then some i else last_of k is

-- Sequential means: the stream has a request before, and this one starts at the sector behind it.
abbrev pub Expected : Option BlockIssue → BlockIssue → AccessPattern → Type 0
Expected none i unknown = Unit {0}
Expected (some p) i sequential = (p.sector + p.sectors ≡ i.sector) × (i.sector ≤ u64_max)
Expected (some p) i random = ¬ ((p.sector + p.sectors ≡ i.sector) × (i.sector ≤ u64_max))
Expected _ i _ = ⊥

abbrev access? : Option BlockIssue → Option LastAccess
access? none = none
access? (some p) = some (access_of p)

lookup-after : (k : StreamKey) (h : List BlockIssue) → lookup k (after h) ≡ access? (last_of k h)
unfolding after classify lookup
lookup-after k [] = refl
lookup-after k (i ∷ is) =
    ground (arith, lookup-insert (stream_key i) k (access_of i) (after is), lookup-after k is)

pattern-Expected :
    (o : Option BlockIssue) (i : BlockIssue) → Expected o i (pattern_after (access? o) i.sector)
pattern-Expected none i = tt
pattern-Expected (some p) i =
    ground (arith, option_eq.decides (checked_add p.sector p.sectors) (some i.sector))

-- After any history a request is unknown if its device and operation had no request yet, sequential
-- if the latest such request ended where this one starts, without overflow of 64 bits, and random
-- otherwise; requests of other devices and operations in between do not matter.
pub classify-Expected :
    (h : List BlockIssue) (i : BlockIssue)
    → Expected (last_of (stream_key i) h) i (classify (after h) i).1
unfolding classify
classify-Expected h i =
    rw (lookup-after (stream_key i) h) (pattern-Expected (last_of (stream_key i) h) i)
