-- ===== src/Advanced/Callbacks.antt =====
-- The callbacks of src/core/advanced/advanced.c: g_callbacks and its nodes, which lie in a store, since
-- unregistering frees a node that is still linked. Walks take fuel; `more` is fuel that ran out.
pub mod Chains
pub mod Dangling
use ps.Base.{ℕ, zero, suc, true, false, not, Option, none, some, List, [], ◌∷◌, ◌==◌, if◌then◌else◌}
use ps.Chain.{Walk, done, fault, more}

-- The addresses of the function, of its user data and of the next node, 0 for NULL.
pub record CallbackNode : Type 0 where
  pub callback : ℕ
  pub user_data : ℕ
  pub next : ℕ

-- The node at each address; `none` is memory that malloc has not handed out, or that was freed.
abbrev pub Nodes : Type 0
Nodes = ℕ → Option CallbackNode

unfoldable pub store : ℕ → Option CallbackNode → Nodes → Nodes
store p n nodes q = if q == p then n else nodes q

-- g_callbacks and the memory of its nodes.
pub record Registry : Type 0 where
  pub head : ℕ
  pub nodes : Nodes

-- while (curr) { next = curr->next; free(curr); curr = next; }
unfoldable pub free_all : ℕ → ℕ → Nodes → Walk Nodes
unfolding store
free_all zero curr nodes = if curr == 0 then done nodes else more
free_all (suc fuel) curr nodes =
    if curr == 0
    then done nodes
    else elim (nodes curr) [ none ↦ fault | some n ↦ free_all fuel n.next (store curr none nodes) ]

-- `alloc` is what malloc gives, 0 for NULL; the handle is the node's address.
unfoldable pub register_callback : ℕ → ℕ → ℕ → Registry → ℕ × Registry
unfolding store
register_callback alloc callback user_data r =
    if callback == 0
    then (0, r)
    else (if alloc == 0
        then (0, r)
        else (let n : CallbackNode = record {
          callback = callback;
          user_data = user_data;
          next = r.head;
        } in
            (alloc, record { head = alloc; nodes = store alloc (some n) r.nodes })))

-- *curr = next, where `curr` is the field `next` of the node at `from`, or g_callbacks if `from` is 0.
unfoldable pub relink : ℕ → ℕ → Registry → Registry
unfolding store
relink from next r = if from == 0 then record r { head = next } else elim (r.nodes from) [
  | none ↦ r
  | some m ↦ record r { nodes = store from (some (record m { next = next })) r.nodes }
]

-- free(p); freeing a node twice is a fault.
unfoldable pub free_node : ℕ → Registry → Walk Registry
unfolding store
free_node p r = if p == 0 then done r else elim (r.nodes p) [
  | none ↦ fault
  | some n ↦ done (record r { nodes = store p none r.nodes })
]

-- The loop at the node `curr`: the handle's node is unlinked, and then the one behind it is freed.
unfoldable pub unlink : ℕ → ℕ → ℕ → ℕ → Registry → Walk Registry
unfolding relink free_node
unlink zero handle from curr r = if curr == 0 then done r else more
unlink (suc fuel) handle from curr r = if curr == 0 then done r else elim (r.nodes curr) [
  | none ↦ fault
  | some n ↦ elim (curr == handle) [
    | true ↦ free_node n.next (relink from n.next r)
    | false ↦ unlink fuel handle curr n.next r
  ]
]

unfoldable pub unregister_callback : ℕ → ℕ → Registry → Walk Registry
unfolding unlink
unregister_callback fuel handle r = if handle == 0 then done r else unlink fuel handle 0 r.head r

-- The calls of a walk in their order: the function and its user data. What a callback does is left out.
unfoldable pub notify_callbacks : ℕ → ℕ → Nodes → Walk (List (ℕ × ℕ))
notify_callbacks zero curr nodes = if curr == 0 then done [] else more
notify_callbacks (suc fuel) curr nodes = if curr == 0 then done [] else elim (nodes curr) [
  | none ↦ fault
  | some n ↦ elim (notify_callbacks fuel n.next nodes) [
    | done calls ↦ done ((n.callback, n.user_data) ∷ calls)
    | fault ↦ fault
    | more ↦ more
  ]
]
