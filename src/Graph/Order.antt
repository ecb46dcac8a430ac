-- ===== src/Graph/Order.antt =====
-- One more edge closes no cycle when its target does not already lead to its source
-- (`IoTransactionGraph::add_edge`).
use android_ebpf_studio.Prelude.{ℕ, ◌≡◌, sym, subst, ◌⊎◌, inl, inr, List, [], ◌∷◌, ◌++◌}
use android_ebpf_studio.Events.Node.{IoEdge}
use android_ebpf_studio.Graph.Search.{Links, Leads, here, follow}

-- No edge can be followed back to its source.
abbrev pub IsAcyclic : List IoEdge → Type 0
IsAcyclic es = (a b : ℕ) → Links es a b → ¬ Leads es b a

abbrev IsFromTo : IoEdge → ℕ → ℕ → Type 0
IsFromTo e a b = (e.from_node_id ≡ a) × (e.to_node_id ≡ b)

Links-append :
    (es : List IoEdge) (e : IoEdge) (a b : ℕ)
    → Links (es ++ e ∷ []) a b
    → Links es a b ⊎ IsFromTo e a b
Links-append [] e a b (inl h) = inr h
Links-append [] e a b (inr h) = absurd h
Links-append (d ∷ es) e a b (inl h) = inl (inl h)
Links-append (d ∷ es) e a b (inr h) = elim (Links-append es e a b h) [
  | inl l ↦ inl (inr l)
  | inr n ↦ inr n
]

Leads-trans : {es : List IoEdge} {a b c : ℕ} → Leads es a b → Leads es b c → Leads es a c
Leads-trans here q = q
Leads-trans (follow l p) q = follow l (Leads-trans p q)

-- A path of the larger graph that uses the new edge comes to its source and goes on from its
-- target by old edges.
abbrev Via : List IoEdge → IoEdge → ℕ → ℕ → Type 0
Via es e a c = Leads es a e.from_node_id × Leads es e.to_node_id c

Leads-append :
    (es : List IoEdge) (e : IoEdge) {a c : ℕ}
    → Leads (es ++ e ∷ []) a c
    → Leads es a c ⊎ Via es e a c
Leads-append es e here = inl here
Leads-append es e (follow {a = a} {b = b} {c = c} l p) =
    join (Links-append es e a b l) (Leads-append es e p)
  where
    join : Links es a b ⊎ IsFromTo e a b → Leads es b c ⊎ Via es e b c → Leads es a c ⊎ Via es e a c
    join (inl old) (inl q) = inl (follow old q)
    join (inl old) (inr v) = inr (follow old v.0, v.1)
    join (inr new) (inl q) =
        inr (subst (λ x. Leads es a x) (sym new.0) here, subst (λ x. Leads es x c) (sym new.1) q)
    join (inr new) (inr v) = inr (subst (λ x. Leads es a x) (sym new.0) here, v.1)

pub append-IsAcyclic :
    (es : List IoEdge) (e : IoEdge)
    → ¬ Leads es e.to_node_id e.from_node_id
    → IsAcyclic es
    → IsAcyclic (es ++ e ∷ [])
append-IsAcyclic es e open_ended old a b l p =
    closes (Links-append es e a b l) (Leads-append es e p)
  where
    closes : Links es a b ⊎ IsFromTo e a b → Leads es b a ⊎ Via es e b a → ⊥
    closes (inl l) (inl q) = old a b l q
    closes (inl l) (inr v) = open_ended (Leads-trans v.1 (follow l v.0))
    closes (inr n) (inl q) =
        open_ended
          (subst (λ x. Leads es x e.from_node_id) (sym n.1) (subst (λ x. Leads es b x) (sym n.0) q))
    closes (inr n) (inr v) = open_ended (subst (λ x. Leads es x e.from_node_id) (sym n.1) v.0)
