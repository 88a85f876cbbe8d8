-- ===== src/Advanced/Callbacks/Dangling.antt =====
-- What unregistering a callback of src/core/advanced/advanced.c leaves behind.
use ps.Base.{ℕ, suc, ◌≡◌, none, List, ◌∷◌, arith}
use ps.Chain.{done, fault}
use ps.Advanced.Callbacks.{
  CallbackNode, Registry, store, notify_callbacks, unregister_callback, unlink, relink, free_node,
}
use ps.Advanced.Callbacks.Chains.{IsChain}

-- Unregistering the callback that was registered last, while another one is registered, frees the node
-- of that other one and leaves it linked: the next event reads freed memory.
pub notify_callbacks-unregister :
    (fuel steps q q2 : ℕ) (n n2 : CallbackNode) (r : Registry) (ns : List (ℕ × CallbackNode))
    → IsChain r.nodes r.head ((q, n) ∷ (q2, n2) ∷ ns)
    → (after : Registry) × (unregister_callback (suc fuel) q r ≡ done after)
      × (notify_callbacks (suc steps) after.head after.nodes ≡ fault)
unfolding unregister_callback unlink relink free_node notify_callbacks store
notify_callbacks-unregister fuel steps q q2 n n2 r ns (e, nz, at_q, (f, nz2, at_q2, c)) =
    (record { head = n.next; nodes = store n.next none r.nodes }, ground arith, ground arith)
