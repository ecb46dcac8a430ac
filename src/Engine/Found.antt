-- ===== src/Engine/Found.antt =====
-- The index finds every observation that may belong to a request (`AnalysisIndex::build` and the
-- lookups of `pipeline_for`, crates/protocol/src/lib.rs).
use android_ebpf_studio.Prelude.{
  ℕ, ◌≡◌, refl, sym, ap, subst, ◌∙◌, ◌⊎◌, inl, inr, Option, none, some, List, [], ◌∷◌, ◌++◌, arith,
  if◌then◌else◌, IsIn, IsIn-append_left, IsIn-append_right, Bool-cases, Eq, ◌==◌, ==_refl, nat_eq,
  pair_eq, option_eq,
}
use android_ebpf_studio.Prelude.Dict.{lookup-insert}
use android_ebpf_studio.Events.Completed.{CompletedIo}
use android_ebpf_studio.Engine.Records.{AnalysisIndex}
use android_ebpf_studio.Engine.Index.{at_key, push_at, push_some, push_each, request_time_buckets}
use android_ebpf_studio.Engine.Evidence.{second_positions, timed_positions, observation_positions}
use android_ebpf_studio.Engine.Positions.{distinct-IsIn}

module _ {K : Type 0} ⦃e : Eq K⦄ where
  at_key-push_at :
      (j k : K) (p : ℕ) (m : List (K × List ℕ))
      → at_key j (push_at k p m) ≡ (if k == j then at_key k m ++ p ∷ [] else at_key j m)
  unfolding push_at
  at_key-push_at j k p m = ground (arith, lookup-insert k j (at_key k m ++ p ∷ []) m)

  push_at-new : (k : K) (p : ℕ) (m : List (K × List ℕ)) → IsIn p (at_key k (push_at k p m))
  push_at-new k p m =
      rw (at_key-push_at k k p m, ==_refl k) (IsIn-append_right p (at_key k m) (p ∷ []) (inl refl))

  push_at-old :
      (j k : K) (p q : ℕ) (m : List (K × List ℕ))
      → IsIn q (at_key j m)
      → IsIn q (at_key j (push_at k p m))
  push_at-old j k p q m i = elim (Bool-cases (k == j)) [
    | inl same ↦
        let eq = (e.decides k j).0 same in
        rw (at_key-push_at j k p m, same)
          (IsIn-append_left q (at_key k m) (p ∷ []) (subst (λ x. IsIn q (at_key x m)) (sym eq) i))
    | inr other ↦ rw (at_key-push_at j k p m, other) i
  ]

  pub push_some-old :
      (j : K) (k : Option K) (p q : ℕ) (m : List (K × List ℕ))
      → IsIn q (at_key j m)
      → IsIn q (at_key j (push_some k p m))
  push_some-old j none p q m i = i
  push_some-old j (some k) p q m i = push_at-old j k p q m i

  pub push_some-new :
      (k : Option K) (j : K) (p : ℕ) (m : List (K × List ℕ))
      → k ≡ some j
      → IsIn p (at_key j (push_some k p m))
  push_some-new k j p m h = rw h (push_at-new j p m)

  pub push_each-old :
      (key : ℕ → Option K) (ss : List ℕ) (j : K) (p q : ℕ) (m : List (K × List ℕ))
      → IsIn q (at_key j m)
      → IsIn q (at_key j (push_each key ss p m))
  unfolding push_each
  push_each-old key [] j p q m i = i
  push_each-old key (s ∷ ss) j p q m i =
      push_each-old key ss j p q (push_some (key s) p m) (push_some-old j (key s) p q m i)

  pub push_each-new :
      (key : ℕ → Option K) (ss : List ℕ) (s : ℕ) (j : K) (p : ℕ) (m : List (K × List ℕ))
      → IsIn s ss
      → key s ≡ some j
      → IsIn p (at_key j (push_each key ss p m))
  unfolding push_each
  push_each-new key [] s j p m i h = absurd i
  push_each-new key (t ∷ ss) s j p m (inl same) h =
      push_each-old key ss j p p (push_some (key t) p m)
        (push_some-new (key t) j p m (ap key same ∙ h))
  push_each-new key (t ∷ ss) s j p m (inr i) h =
      push_each-new key ss s j p (push_some (key t) p m) i h

-- The position is among those that a lookup for the request gathers.
abbrev pub IsFound : AnalysisIndex → CompletedIo → ℕ → Type 0
IsFound index io p =
    IsIn p index.long_observations
    ⊎ IsIn p (at_key io.issue.request_id index.observations_by_request)
    ⊎ ((s : ℕ) × IsIn s (request_time_buckets io) × IsIn p (second_positions index io s))

timed_positions-IsIn :
    (index : AnalysisIndex) (io : CompletedIo) (ss : List ℕ) (s p : ℕ)
    → IsIn s ss
    → IsIn p (second_positions index io s)
    → IsIn p (timed_positions index io ss)
unfolding timed_positions
timed_positions-IsIn index io [] s p i j = absurd i
timed_positions-IsIn index io (t ∷ ss) s p (inl same) j =
    IsIn-append_left p (second_positions index io t) (timed_positions index io ss)
      (subst (λ x. IsIn p (second_positions index io x)) (sym same) j)
timed_positions-IsIn index io (t ∷ ss) s p (inr i) j =
    IsIn-append_right p (second_positions index io t) (timed_positions index io ss)
      (timed_positions-IsIn index io ss s p i j)

pub IsFound-positions :
    (index : AnalysisIndex) (io : CompletedIo) (p : ℕ)
    → IsFound index io p
    → IsIn p (observation_positions index io)
unfolding observation_positions
IsFound-positions index io p f = distinct-IsIn _ p (place f)
  where
    named : List ℕ
    named = at_key io.issue.request_id index.observations_by_request

    timed : List ℕ
    timed = timed_positions index io (request_time_buckets io)

    place : IsFound index io p → IsIn p (index.long_observations ++ (named ++ timed))
    place (inl i) = IsIn-append_left p index.long_observations (named ++ timed) i
    place (inr (inl i)) =
        IsIn-append_right p index.long_observations (named ++ timed)
          (IsIn-append_left p named timed i)
    place (inr (inr (s, i, j))) = IsIn-append_right p index.long_observations (named ++ timed) (
        IsIn-append_right p named timed
          (timed_positions-IsIn index io (request_time_buckets io) s p i j))
