-- ===== src/Advanced/Callbacks/Chains.antt =====
-- Registered callbacks form a chain of nodes, and an event reaches each of them.
use ps.Base.{
  ==_refl, Option, ℕ, zero, suc, ◌≤◌, ◌≡◌, refl, ◌≢◌, none, some, List, [], ◌∷◌, map, arith, length,
}
use ps.Chain.{done}
use ps.Advanced.Callbacks.{
  CallbackNode, Nodes, Registry, store, register_callback, notify_callbacks,
}

-- The nodes that the chain from p on runs through, with their addresses.
abbrev pub IsChain : Nodes → ℕ → List (ℕ × CallbackNode) → Type 0
IsChain nodes p [] = p ≡ 0
IsChain nodes p ((q, n) ∷ ns) = (p ≡ q) × (q ≢ 0) × (nodes q ≡ some n) × IsChain nodes n.next ns

abbrev pub call : ℕ × CallbackNode → ℕ × ℕ
call x = (x.1.callback, x.1.user_data)

pub notify_callbacks-IsChain :
    (fuel p : ℕ) (nodes : Nodes) (ns : List (ℕ × CallbackNode))
    → length ns ≤ fuel
    → IsChain nodes p ns
    → notify_callbacks fuel p nodes ≡ done (map call ns)
unfolding notify_callbacks
notify_callbacks-IsChain zero p nodes [] l c = ground arith
notify_callbacks-IsChain zero p nodes (x ∷ ns) l c = absurd (omega arith)
notify_callbacks-IsChain (suc fuel) p nodes [] l c = ground arith
notify_callbacks-IsChain (suc fuel) p nodes ((q, n) ∷ ns) l (e, nz, at_q, c) =
    ground (arith, notify_callbacks-IsChain fuel n.next nodes ns (omega arith) c)

-- A node at an address that was free disturbs no chain.
store-IsChain :
    (alloc p : ℕ) (m : CallbackNode) (nodes : Nodes) (ns : List (ℕ × CallbackNode))
    → nodes alloc ≡ none
    → IsChain nodes p ns
    → IsChain (store alloc (some m) nodes) p ns
unfolding store
store-IsChain alloc p m nodes [] free c = c
store-IsChain alloc p m nodes ((q, n) ∷ ns) free (e, nz, at_q, c) =
    (e, nz, ground arith, store-IsChain alloc n.next m nodes ns free c)

-- The registry with a new node in front.
abbrev pub registered : ℕ → ℕ → ℕ → Registry → Registry
registered alloc callback user_data r =
    let n : CallbackNode = record { callback = callback; user_data = user_data; next = r.head } in
    record { head = alloc; nodes = store alloc (some n) r.nodes }

pub register_callback-eq :
    (alloc callback user_data : ℕ) (r : Registry)
    → alloc ≢ 0
    → callback ≢ 0
    → register_callback alloc callback user_data r ≡ (alloc, registered alloc callback user_data r)
unfolding register_callback
register_callback-eq alloc callback user_data r nz cz = ground arith

store_self : (p : ℕ) (n : Option CallbackNode) (nodes : Nodes) → store p n nodes p ≡ n
unfolding store
store_self p n nodes = rw (==_refl p)

pub registered-IsChain :
    (alloc callback user_data : ℕ) (r : Registry) (ns : List (ℕ × CallbackNode))
    → alloc ≢ 0
    → r.nodes alloc ≡ none
    → IsChain r.nodes r.head ns
    → IsChain
        (registered alloc callback user_data r).nodes
        alloc
        ((alloc, record { callback = callback; user_data = user_data; next = r.head }) ∷ ns)
registered-IsChain alloc callback user_data r ns nz free c =
    (refl, nz, store_self alloc _ r.nodes, store-IsChain alloc r.head _ r.nodes ns free c)
