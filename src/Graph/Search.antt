-- ===== src/Graph/Search.antt =====
-- The breadth-first search of `reachable` decides whether a path of edges exists
-- (crates/protocol/src/lib.rs).
use android_ebpf_studio.Prelude.{
  ℕ, zero, suc, ◌+◌, ◌≡◌, refl, sym, subst, ◌<◌, ◌≢◌, ◌↔◌, ◌⊎◌, inl, inr, Bool, true, false, Option,
  none, some, List, [], ◌∷◌, ◌++◌, arith, eqb, eqb_iff, if◌then◌else◌, length, length-append,
  contains, contains-IsIn, nat_eq, IsIn, IsIn-append_left, IsIn-append_right, IsIn-append_cases,
  Bool-cases,
}
use android_ebpf_studio.Events.Node.{IoEdge}
use android_ebpf_studio.Graph.{IoTransactionGraph, successors, expand, search, is_found, reachable}

-- Some edge goes from `a` to `b`.
abbrev pub Links : List IoEdge → ℕ → ℕ → Type 0
Links [] a b = ⊥
Links (e ∷ es) a b = ((e.from_node_id ≡ a) × (e.to_node_id ≡ b)) ⊎ Links es a b

-- A chain of edges goes from `a` to `b`; the empty chain from a node to itself.
pub data Leads (es : List IoEdge) : ℕ → ℕ → Type 0 where
  here : {a : ℕ} → Leads es a a
  follow : {a b c : ℕ} → Links es a b → Leads es b c → Leads es a c

successors-Links : (es : List IoEdge) (a b : ℕ) → IsIn b (successors es a) ↔ Links es a b
successors-Links [] a b = ((λ h. h), λ h. h)
successors-Links (e ∷ es) a b = ground (arith, successors-Links es a b)

-- How many edges leave nodes that are not seen yet.
abbrev pending : List ℕ → List IoEdge → ℕ
pending seen [] = 0
pending seen (e ∷ es) = (if contains seen e.from_node_id then 0 else 1) + pending seen es

pending-nil : (es : List IoEdge) → pending [] es ≡ length es
pending-nil [] = refl
pending-nil (e ∷ es) = omega (arith, pending-nil es)

pending-cons :
    (n : ℕ) (seen : List ℕ) (es : List IoEdge)
    → contains seen n ≡ false
    → pending (n ∷ seen) es + length (successors es n) ≡ pending seen es
pending-cons n seen [] h = refl
pending-cons n seen (e ∷ es) h = ground (arith, pending-cons n seen es h)

-- The loop ends by itself within as many rounds as the queue and the edges left allow.
search-ne-none :
    (fuel : ℕ) (es : List IoEdge) (target : ℕ) (queue seen : List ℕ)
    → length queue + pending seen es < fuel
    → search fuel es target queue seen ≢ none
unfolding search
search-ne-none zero es target queue seen h = absurd (omega arith)
search-ne-none (suc fuel) es target [] seen h = λ e. cc
search-ne-none (suc fuel) es target (n ∷ queue) seen h = ground (
  arith,
  search-ne-none fuel es target queue seen,
  search-ne-none fuel es target (queue ++ successors es n) (n ∷ seen),
  pending-cons n seen es,
  length-append queue (successors es n),
)

-- What is found is reached from the queue.
search_sound :
    (fuel : ℕ) (es : List IoEdge) (target : ℕ) (queue seen : List ℕ)
    → search fuel es target queue seen ≡ some true
    → (a : ℕ) × IsIn a queue × Leads es a target
unfolding search
search_sound zero es target queue seen e = cc
search_sound (suc fuel) es target [] seen e = cc
search_sound (suc fuel) es target (n ∷ queue) seen e = elim (Bool-cases (eqb n target)) [
  | inl hit ↦ (n, inl refl, subst (λ b. Leads es n b) ((eqb_iff n target).0 hit) here)
  | inr miss ↦ elim (Bool-cases (contains seen n)) [
    | inl old ↦
        let (a, i, p) = search_sound fuel es target queue seen (ground arith) in (a, inr i, p)
    | inr fresh ↦
        let (a, i, p) =
          search_sound fuel es target (queue ++ successors es n) (n ∷ seen) (ground arith) in
        elim (IsIn-append_cases a queue (successors es n) i) [
          | inl q ↦ (a, inr q, p)
          | inr s ↦ (n, inl refl, follow ((successors-Links es n a).0 s) p)
        ]
  ]
]

-- No seen node is the target, and their successors are seen or wait.
record Explored (es : List IoEdge) (target : ℕ) (queue seen : List ℕ) : Type 0 where
  apart : (a : ℕ) → IsIn a seen → a ≢ target
  onward : (a b : ℕ) → IsIn a seen → Links es a b → IsIn b seen ⊎ IsIn b queue

closed-Leads :
    (es : List IoEdge) (target : ℕ) (seen : List ℕ)
    → Explored es target [] seen
    → {a : ℕ} → IsIn a seen
    → ¬ Leads es a target
closed-Leads es target seen x {a} i here = x.apart a i refl
closed-Leads es target seen x {a} i (follow {b = b} l p) = elim (x.onward a b i l) [
  | inl j ↦ closed-Leads es target seen x j p
  | inr j ↦ j
]

Explored-expand :
    (es : List IoEdge) (target n : ℕ) (queue seen : List ℕ)
    → n ≢ target
    → Explored es target (n ∷ queue) seen
    → Explored es target (expand es n queue seen).0 (expand es n queue seen).1
Explored-expand es target n queue seen ne x = elim (Bool-cases (contains seen n)) [
  | inl old ↦
      rw (old, expand)
        (record {
          apart = x.apart;
          onward = λ a b i l. skip (contains-IsIn seen n old) (x.onward a b i l);
        })
  | inr fresh ↦ rw (fresh, expand) (record { apart = grown_apart; onward = grown_onward })
]
  where
    skip : {b : ℕ} → IsIn n seen → IsIn b seen ⊎ IsIn b (n ∷ queue) → IsIn b seen ⊎ IsIn b queue
    skip s (inl i) = inl i
    skip {b} s (inr (inl e)) = inl (subst (λ c. IsIn c seen) e s)
    skip s (inr (inr i)) = inr i

    grown_apart : (a : ℕ) → IsIn a (n ∷ seen) → a ≢ target
    grown_apart a (inl e) = subst (λ c. c ≢ target) e ne
    grown_apart a (inr i) = x.apart a i

    wait :
        {b : ℕ}
        → IsIn b seen ⊎ IsIn b (n ∷ queue)
        → IsIn b (n ∷ seen) ⊎ IsIn b (queue ++ successors es n)
    wait (inl i) = inl (inr i)
    wait (inr (inl e)) = inl (inl e)
    wait {b} (inr (inr i)) = inr (IsIn-append_left b queue (successors es n) i)

    grown_onward :
        (a b : ℕ)
        → IsIn a (n ∷ seen)
        → Links es a b
        → IsIn b (n ∷ seen) ⊎ IsIn b (queue ++ successors es n)
    grown_onward a b (inl e) l = inr (
        IsIn-append_right b queue (successors es n)
          ((successors-Links es n b).1 (subst (λ c. Links es c b) (sym e) l)))
    grown_onward a b (inr i) l = wait (x.onward a b i l)

expand-keeps :
    (es : List IoEdge) (n a : ℕ) (queue seen : List ℕ)
    → IsIn a seen ⊎ IsIn a (n ∷ queue)
    → IsIn a (expand es n queue seen).1 ⊎ IsIn a (expand es n queue seen).0
expand-keeps es n a queue seen i = elim (Bool-cases (contains seen n)) [
  | inl old ↦ rw (old, expand) (skip i (contains-IsIn seen n old))
  | inr fresh ↦ rw (fresh, expand) (wait i)
]
  where
    skip : IsIn a seen ⊎ IsIn a (n ∷ queue) → IsIn n seen → IsIn a seen ⊎ IsIn a queue
    skip (inl i) s = inl i
    skip (inr (inl e)) s = inl (subst (λ c. IsIn c seen) e s)
    skip (inr (inr i)) s = inr i

    wait : IsIn a seen ⊎ IsIn a (n ∷ queue) → IsIn a (n ∷ seen) ⊎ IsIn a (queue ++ successors es n)
    wait (inl i) = inl (inr i)
    wait (inr (inl e)) = inl (inl e)
    wait (inr (inr i)) = inr (IsIn-append_left a queue (successors es n) i)

-- A search that ends without a hit has seen all that can be reached, the target not among it.
search_complete :
    (fuel : ℕ) (es : List IoEdge) (target : ℕ) (queue seen : List ℕ)
    → Explored es target queue seen
    → search fuel es target queue seen ≡ some false
    → (a : ℕ) → IsIn a seen ⊎ IsIn a queue
    → ¬ Leads es a target
unfolding search
search_complete zero es target queue seen x e a i = cc
search_complete (suc fuel) es target [] seen x e a (inl i) = closed-Leads es target seen x i
search_complete (suc fuel) es target [] seen x e a (inr i) = absurd i
search_complete (suc fuel) es target (n ∷ queue) seen x e a i =
    let ne : n ≢ target = λ h. ground arith in
    let next = expand es n queue seen in
    search_complete fuel es target next.0 next.1 (Explored-expand es target n queue seen ne x)
      (ground (arith, ne)) a (expand-keeps es n a queue seen i)

-- The search of `reachable` never runs out of its fuel, one round more than there are edges and
-- one for the end.
search-total :
    (es : List IoEdge) (start target : ℕ)
    → (b : Bool) × (search (length es + 2) es target (start ∷ []) [] ≡ some b)
search-total es start target =
    ended _
      (search-ne-none (length es + 2) es target (start ∷ []) [] (omega (arith, pending-nil es)))
  where
    ended : (o : Option Bool) → o ≢ none → (b : Bool) × (o ≡ some b)
    ended none n = absurd (n refl)
    ended (some b) n = (b, refl)

is_found-some : (o : Option Bool) → is_found o ≡ true → o ≡ some true
is_found-some none h = cc
is_found-some (some b) h = cc

-- `reachable` answers whether a chain of edges leads from the start to the target.
pub reachable_iff :
    (g : IoTransactionGraph) (start target : ℕ)
    → (reachable g start target ≡ true) ↔ Leads g.edges start target
unfolding reachable
reachable_iff g start target = (there, λ p. back p (search-total g.edges start target))
  where
    run : Option Bool
    run = search (length g.edges + 2) g.edges target (start ∷ []) []

    from_start : (a : ℕ) × IsIn a (start ∷ []) × Leads g.edges a target → Leads g.edges start target
    from_start (a, inl e, p) = subst (λ c. Leads g.edges c target) (sym e) p
    from_start (a, inr i, p) = absurd i

    there : is_found run ≡ true → Leads g.edges start target
    there e =
        from_start
          (search_sound (length g.edges + 2) g.edges target (start ∷ []) [] (is_found-some run e))

    back : Leads g.edges start target → (b : Bool) × (run ≡ some b) → is_found run ≡ true
    back p (true, e) = rw e refl
    back p (false, e) = absurd (
        search_complete (length g.edges + 2) g.edges target (start ∷ []) []
          (record { apart = λ a i. absurd i; onward = λ a b i. absurd i }) e start (inr (inl refl))
          p)
