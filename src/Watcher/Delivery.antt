-- ===== src/Watcher/Delivery.antt =====
-- Which events of src/kernel/process_watcher.c reach the reader of the log.
use mathlib.Core.Path.{subst}
use ps.Base.{
  ℕ, zero, suc, ◌≤◌, ◌<◌, min, ◌≡◌, refl, sym, ap, ◌∙◌, inl, inr, Bool, true, false, Option, none,
  some, List, [], ◌∷◌, ◌++◌, arith, ltb, ◌==◌, if◌then◌else◌, Bool-cases, length, take,
  length-append, length-take, take-eq_self,
}
use ps.Server.Table.{capacity}
use ps.Server.Table.Refinement.{live, IsTable, append_slot-live}
use ps.Watcher.{
  ProcessEvent, Watcher, record_event, process_event, process_notify_routine, thread_event,
  thread_notify_routine, image_event, image_notify_routine, watcher_get_events,
}

-- The calls that the kernel makes.
pub data Notification : Type 0 where
  process : ℕ → Option (Option (List ℕ)) → Notification
  thread : ℕ → ℕ → Bool → Notification
  image : Option (List ℕ) → ℕ → Option Bool → Notification

unfoldable pub notify : List Notification → Watcher → Watcher
unfolding process_notify_routine thread_notify_routine image_notify_routine
notify [] w = w
notify (process pid create ∷ ns) w = notify ns (process_notify_routine pid create w)
notify (thread pid tid create ∷ ns) w = notify ns (thread_notify_routine pid tid create w)
notify (image name pid info ∷ ns) w = notify ns (image_notify_routine name pid info w)

-- The events that the calls stand for.
abbrev pub events_of : List Notification → List ProcessEvent
events_of [] = []
events_of (process pid create ∷ ns) = process_event pid create ∷ events_of ns
events_of (thread pid tid create ∷ ns) = thread_event pid tid create ∷ events_of ns
events_of (image name pid none ∷ ns) = events_of ns
events_of (image name pid (some system) ∷ ns) = image_event name pid system ∷ events_of ns

-- A watcher that is on, with the events of `l` logged.
abbrev Logged : List ProcessEvent → Watcher → Type 0
Logged l w = (w.enabled ≡ true) × IsTable w.log × (live w.log ≡ take capacity l)

take_full : (n : ℕ) (l k : List ProcessEvent) → n ≤ length l → take n (l ++ k) ≡ take n l
take_full zero l k h = refl
take_full (suc n) [] k h = absurd (omega arith)
take_full (suc n) (x ∷ l) k h = ap (◌∷◌ x) (take_full n l k (omega arith))

record_event-Logged :
    (ev : ProcessEvent) (l : List ProcessEvent) (w : Watcher)
    → Logged l w
    → Logged (l ++ ev ∷ []) (record_event ev w)
unfolding record_event
record_event-Logged ev l w g = let a = append_slot-live ev w.log g.1 in (g.0, a.0, a.2 ∙ kept)
  where
    size : length (live w.log) ≡ min capacity (length l)
    size = ap length g.2 ∙ length-take capacity l

    kept :
        (if ltb (length (live w.log)) capacity then live w.log ++ ev ∷ [] else live w.log)
        ≡ take capacity (l ++ ev ∷ [])
    kept = elim (Bool-cases (ltb (length (live w.log)) capacity)) [
      | inl e ↦
          let room : length l < capacity = ground (arith, size) in
          rw e (
            ap (λ k. k ++ ev ∷ []) (g.2 ∙ take-eq_self capacity l (omega arith))
            ∙ sym (
                take-eq_self capacity (l ++ ev ∷ [])
                  (omega (arith, room, length-append l (ev ∷ [])))))
      | inr e ↦
          let full : capacity ≤ length l = ground (arith, size) in
          rw e (g.2 ∙ sym (take_full capacity l (ev ∷ []) full))
    ]

append_step :
    (l : List ProcessEvent) (x : ProcessEvent) (k : List ProcessEvent)
    → (l ++ x ∷ []) ++ k ≡ l ++ x ∷ k
append_step [] x k = refl
append_step (y ∷ l) x k = ap (◌∷◌ y) (append_step l x k)

append_none : (l : List ProcessEvent) → l ++ [] ≡ l
append_none [] = refl
append_none (y ∷ l) = ap (◌∷◌ y) (append_none l)

taken_branch : (b : Bool) (x y : Watcher) → b ≡ true → (if b then x else y) ≡ x
taken_branch b x y h = rw h refl

-- An event that a watcher that is on logs before the rest of the calls.
record_then :
    (ev : ProcessEvent) (l : List ProcessEvent) (ns : List Notification) (w : Watcher)
    → w.enabled ≡ true
    → Logged ((l ++ ev ∷ []) ++ events_of ns) (notify ns (record_event ev w))
    → Logged (l ++ ev ∷ events_of ns) (notify ns (if w.enabled then record_event ev w else w))
record_then ev l ns w on g =
    subst (λ v. Logged (l ++ ev ∷ events_of ns) (notify ns v))
      (sym (taken_branch w.enabled (record_event ev w) w on))
      (g.0, g.1, g.2 ∙ ap (take capacity) (append_step l ev (events_of ns)))

notify-Logged :
    (ns : List Notification) (l : List ProcessEvent) (w : Watcher)
    → Logged l w
    → Logged (l ++ events_of ns) (notify ns w)
unfolding notify process_notify_routine thread_notify_routine image_notify_routine
notify-Logged [] l w g = (g.0, g.1, g.2 ∙ ap (take capacity) (sym (append_none l)))
notify-Logged (process pid create ∷ ns) l w g =
    let ev = process_event pid create in
    record_then ev l ns w g.0
      (notify-Logged ns (l ++ ev ∷ []) (record_event ev w) (record_event-Logged ev l w g))
notify-Logged (thread pid tid create ∷ ns) l w g =
    let ev = thread_event pid tid create in
    record_then ev l ns w g.0
      (notify-Logged ns (l ++ ev ∷ []) (record_event ev w) (record_event-Logged ev l w g))
notify-Logged (image name pid none ∷ ns) l w g = notify-Logged ns l w g
notify-Logged (image name pid (some system) ∷ ns) l w g =
    let ev = image_event name pid system in
    record_then ev l ns w g.0
      (notify-Logged ns (l ++ ev ∷ []) (record_event ev w) (record_event-Logged ev l w g))

take_at : {m n : ℕ} (l : List ProcessEvent) → m ≡ n → take m l ≡ take n l
take_at l e = ap (λ k. take k l) e

take-min : (m n : ℕ) (l : List ProcessEvent) → take (min m n) l ≡ take m (take n l)
take-min zero n l = take_at {n = 0} l (omega arith)
take-min (suc m) zero l = take_at {n = 0} l (omega arith)
take-min (suc m) (suc n) [] = take_at {n = suc (min m n)} [] (omega arith)
take-min (suc m) (suc n) (x ∷ l) =
    take_at {n = suc (min m n)} (x ∷ l) (omega arith) ∙ ap (◌∷◌ x) (take-min m n l)

-- A reader with room for oc > 0 events gets, after any notifications to a watcher that is on with an
-- empty log, the first of their events in their order: at most 1024, since later ones find no slot,
-- and at most oc. Afterwards the log is empty, so the events that did not fit the reader's room are
-- lost to it.
pub watcher_get_events-notify :
    (ns : List Notification) (oc : ℕ) (w : Watcher)
    → w.enabled ≡ true
    → IsTable w.log
    → w.log.count ≡ 0
    → 0 < oc
    → let r = watcher_get_events true oc (notify ns w) in
      (r.0 ≡ some (take oc (take capacity (events_of ns)))) × (live r.1.log ≡ []) × IsTable r.1.log
unfolding watcher_get_events
watcher_get_events-notify ns oc w on t empty h =
    let start : Logged [] w = (on, t, ap (λ n. take n w.log.slots) empty) in
    let g = notify-Logged ns [] w start in
    let valid : (oc == 0) ≡ false = ground arith in
    rw valid (
      ap some (take-min oc (notify ns w).log.count (notify ns w).log.slots ∙ ap (take oc) g.2),
      refl,
      record { sized = g.1.sized; within = omega arith },
    )
