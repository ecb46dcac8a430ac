-- ===== src/Events/Node/Weakest.antt =====
-- The confidence of a chain of edges (`EdgeConfidence::weakest`, crates/protocol/src/lib.rs).
use android_ebpf_studio.Prelude.{◌≡◌, refl, ◌≤◌, ◌⊎◌, inl, min, List, [], ◌∷◌, arith}
use android_ebpf_studio.Events.Node.{
  EdgeConfidence, exact, probable, probable_async, context_only, rank, weakest,
}

-- The confidence at the end of a chain, as the graph folds it along the edges from an exact start.
pub chain : EdgeConfidence → List EdgeConfidence → EdgeConfidence
chain c [] = c
chain c (e ∷ es) = chain (weakest c e) es

abbrev IsAmong : EdgeConfidence → List EdgeConfidence → Type 0
IsAmong c [] = ⊥
IsAmong c (e ∷ es) = (c ≡ e) ⊎ IsAmong c es

abbrev pub AllFrom : EdgeConfidence → List EdgeConfidence → Type 0
AllFrom c [] = Unit {0}
AllFrom c (e ∷ es) = (rank c ≤ rank e) × AllFrom c es

pub rank-weakest : (a b : EdgeConfidence) → rank (weakest a b) ≡ min (rank a) (rank b)
unfolding rank weakest
rank-weakest exact b = ground arith
rank-weakest probable b = ground arith
rank-weakest probable_async b = ground arith
rank-weakest context_only b = ground arith

weakest_either : (a b : EdgeConfidence) → (weakest a b ≡ a) ⊎ (weakest a b ≡ b)
unfolding rank weakest
weakest_either a b = ground arith

chain-le : (c : EdgeConfidence) (es : List EdgeConfidence) → rank (chain c es) ≤ rank c
unfolding chain
chain-le c [] = omega arith
chain-le c (e ∷ es) = omega (arith, chain-le (weakest c e) es, rank-weakest c e)

chain-AllFrom : (c : EdgeConfidence) (es : List EdgeConfidence) → AllFrom (chain c es) es
unfolding chain
chain-AllFrom c [] = tt
chain-AllFrom c (e ∷ es) =
    (omega (arith, chain-le (weakest c e) es, rank-weakest c e), chain-AllFrom (weakest c e) es)

chain-IsAmong : (c : EdgeConfidence) (es : List EdgeConfidence) → IsAmong (chain c es) (c ∷ es)
unfolding chain
chain-IsAmong c [] = inl refl
chain-IsAmong c (e ∷ es) = ground (arith, chain-IsAmong (weakest c e) es, weakest_either c e)

-- The confidence along a chain of edges is that of its start or of one of its edges, and none of
-- these is weaker.
chain-weakest :
    (c : EdgeConfidence) (es : List EdgeConfidence)
    → IsAmong (chain c es) (c ∷ es) × AllFrom (chain c es) (c ∷ es)
chain-weakest c es = (chain-IsAmong c es, (chain-le c es, chain-AllFrom c es))
