-- ===== src/Advanced/Events/Runs.antt =====
-- What a run of all checks of src/core/advanced/advanced.c tells the registered callbacks.
use ps.Base.{◌∙◌, ℕ, ◌≤◌, ◌<◌, ◌≡◌, ◌≢◌, true, none, some, List, ◌∷◌, map, arith, length, add32}
use ps.Chain.{done}
use ps.Advanced.Callbacks.{CallbackNode, register_callback}
use ps.Advanced.Callbacks.Chains.{
  IsChain, call, registered, register_callback-eq, registered-IsChain, notify_callbacks-IsChain,
}
use ps.Advanced.Debugger.{Platform, debugger_is_attached}
use ps.Advanced.Events.{Advanced, run_checks, run_all_checks, debugger_event}

run_checks-IsChain :
    (fuel tick : ℕ) (s : Advanced) (ns : List (ℕ × CallbackNode))
    → length ns ≤ fuel
    → IsChain s.registry.nodes s.registry.head ns
    → run_checks fuel tick true s
      ≡ done (record {
        event = some (debugger_event tick);
        calls = map call ns;
        detections = 1;
        state = record s { debuggers_found = add32 s.debuggers_found 1 };
      })
unfolding run_checks
run_checks-IsChain fuel tick s ns l c =
    rw (notify_callbacks-IsChain fuel s.registry.head s.registry.nodes ns l c, run_checks)

run_all_checks_attached :
    (fuel tick start end : ℕ) (p : Platform) (s : Advanced)
    → s.enabled ≡ true
    → debugger_is_attached p start end ≡ true
    → run_all_checks fuel tick p start end s ≡ run_checks fuel tick true s
unfolding run_all_checks
run_all_checks_attached fuel tick start end p s on attached = ground arith

-- A callback that is registered in memory from malloc is called first by the next run that finds a
-- debugger, and after it every callback of the chain that stood before, once and in its order, with its
-- user data. The run reports one detection and counts it. (Detection enabled, a chain of live nodes, a
-- callback that is not NULL, an address that was free; a round for each node is enough.)
pub run_all_checks-register :
    (fuel tick start end alloc callback user_data : ℕ) (p : Platform) (s : Advanced)
    (ns : List (ℕ × CallbackNode))
    → s.enabled ≡ true
    → debugger_is_attached p start end ≡ true
    → alloc ≢ 0
    → callback ≢ 0
    → s.registry.nodes alloc ≡ none
    → IsChain s.registry.nodes s.registry.head ns
    → length ns < fuel
    → let s' = record s { registry = (register_callback alloc callback user_data s.registry).1 } in
      run_all_checks fuel tick p start end s'
      ≡ done (record {
        event = some (debugger_event tick);
        calls = (callback, user_data) ∷ map call ns;
        detections = 1;
        state = record s' { debuggers_found = add32 s.debuggers_found 1 };
      })
run_all_checks-register fuel tick start end alloc callback user_data p s ns on attached nz cz free c
      l =
    let r = registered alloc callback user_data s.registry in
    let s' : Advanced = record s { registry = r } in
    rw (register_callback-eq alloc callback user_data s.registry nz cz) (
      run_all_checks_attached fuel tick start end p s' on attached
      ∙ run_checks-IsChain fuel tick s'
          ((alloc, record { callback = callback; user_data = user_data; next = s.registry.head })
            ∷ ns)
          (omega arith) (registered-IsChain alloc callback user_data s.registry ns nz free c))
