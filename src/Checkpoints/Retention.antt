-- ===== src/Checkpoints/Retention.antt =====
-- Which checkpoints src/core/repair_system/state_roller.c keeps.
use ps.Base.{
  ℕ, zero, suc, ◌+◌, ◌%◌, ◌^◌, ◌≤◌, ◌<◌, ◌≡◌, refl, sym, ap, ◌∙◌, ◌≢◌, inl, inr, true, false, none,
  some, List, [], ◌∷◌, arith, ltb, if◌then◌else◌, Bool-cases, length, take, length-take,
  take-eq_self, success,
}
use ps.Checkpoints.{
  Checkpoint, Roller, remove_oldest, trim, add_checkpoint, create_checkpoint, init_state_roller,
  create_with,
}

-- From two nodes after the head on, a removal takes the last one.
remove_oldest-take :
    (x y : Checkpoint) (rest : List Checkpoint)
    → remove_oldest (x ∷ y ∷ rest) ≡ some (take (length (y ∷ rest)) (x ∷ y ∷ rest))
unfolding remove_oldest
remove_oldest-take x y [] = refl
remove_oldest-take x y (z ∷ rest) = rw (remove_oldest-take y z rest)

take-take : (n m : ℕ) (l : List Checkpoint) → n ≤ m → take n (take m l) ≡ take n l
take-take zero m l h = refl
take-take (suc n) zero l h = absurd (omega arith)
take-take (suc n) (suc m) [] h = refl
take-take (suc n) (suc m) (x ∷ l) h = ap (◌∷◌ x) (take-take n m l (omega arith))

length-take_le : (n : ℕ) (l : List Checkpoint) → n ≤ length l → length (take n l) ≡ n
length-take_le n l h = omega (arith, length-take n l)

-- With room for two, trimming keeps the newest checkpoints up to the limit.
trim-take :
    (n limit : ℕ) (l : List Checkpoint)
    → length l ≡ n
    → 2 ≤ limit
    → trim n limit l ≡ some (take limit l)
unfolding trim
trim-take zero limit [] e h = ap some (sym (take-eq_self limit [] (omega arith)))
trim-take zero limit (x ∷ l) e h = absurd (omega arith)
trim-take (suc n) limit [] e h = absurd (omega arith)
trim-take (suc n) limit (c ∷ []) e h = ap some (sym (take-eq_self limit (c ∷ []) (omega arith)))
trim-take (suc n) limit (c ∷ d ∷ []) e h =
    rw (let p : ltb limit (suc n) ≡ false = ground arith in p)
      (ap some (sym (take-eq_self limit (c ∷ d ∷ []) (omega arith))))
trim-take (suc n) limit (c ∷ d ∷ z ∷ rest) e h = elim (Bool-cases (ltb limit (suc n))) [
  | inl k ↦
      rw (k, remove_oldest-take d z rest)
        (trim-take n limit (take (suc (length (z ∷ rest))) (c ∷ d ∷ z ∷ rest))
            (omega (arith, length-take (length rest) (z ∷ rest))) h
          ∙ ap some (take-take limit (suc (length (z ∷ rest))) (c ∷ d ∷ z ∷ rest) (ground arith)))
  | inr k ↦ rw k (ap some (sym (take-eq_self limit (c ∷ d ∷ z ∷ rest) (ground arith))))
]

-- With room for fewer than two, trimming a list of two or more reads through NULL.
trim_fault :
    (n limit : ℕ) (c d : Checkpoint) (rest : List Checkpoint)
    → length (c ∷ d ∷ rest) ≡ n
    → limit < 2
    → trim n limit (c ∷ d ∷ rest) ≡ none
unfolding trim
trim_fault zero limit c d rest e h = absurd (omega arith)
trim_fault (suc n) limit c d [] e h =
    rw (let p : ltb limit (suc n) ≡ true = ground arith in p) (unfold remove_oldest in refl)
trim_fault (suc n) limit c d (z ∷ rest) e h =
    rw (let p : ltb limit (suc n) ≡ true = ground arith in p, remove_oldest-take d z rest)
      (trim_fault n limit c d (take (length rest) (z ∷ rest))
        (omega (arith, length-take (length rest) (z ∷ rest))) h)

-- The checkpoint that a call takes.
abbrev pub taken : ℕ → ℕ → List ℕ → ℕ → Checkpoint
taken sequence x bytes tick = record {
  sequence = sequence;
  timestamp = tick;
  state_data = x ∷ bytes;
  data_size = length (x ∷ bytes);
}

add_checkpoint-take :
    (c : Checkpoint) (r : Roller)
    → 2 ≤ r.max_checkpoints
    → length r.checkpoints + 1 < 2 ^ 32
    → add_checkpoint c r
      ≡ some (success, record r { checkpoints = take r.max_checkpoints (c ∷ r.checkpoints) })
unfolding add_checkpoint
add_checkpoint-take c r h small = rw (
  trim-take (length (c ∷ r.checkpoints) % 2 ^ 32) r.max_checkpoints (c ∷ r.checkpoints)
      (omega arith) h,
  add_checkpoint,
)

ready_self :
    (max_backups : ℕ) (r : Roller)
    → r.initialized ≡ true
    → (if r.initialized then r else (init_state_roller max_backups r).1) ≡ r
ready_self max_backups r i = ground arith

trim_pushed :
    (c : Checkpoint) (l : List Checkpoint) (limit : ℕ)
    → length l + 1 < 2 ^ 32
    → l ≢ []
    → limit < 2
    → trim (length (c ∷ l) % 2 ^ 32) limit (c ∷ l) ≡ none
trim_pushed c [] limit small h k = absurd (h refl)
trim_pushed c (d ∷ rest) limit small h k =
    trim_fault (length (c ∷ d ∷ rest) % 2 ^ 32) limit c d rest (omega arith) k

-- An initialised roller with a limit of at least two keeps exactly the newest checkpoints up to the
-- limit: with memory for the node and the data, a call on one or more bytes succeeds, and the list is
-- the new checkpoint and those before it, cut to the limit.
pub create_checkpoint-take :
    (sequence x : ℕ) (bytes : List ℕ) (tick max_backups : ℕ) (r : Roller)
    → r.initialized ≡ true
    → 2 ≤ r.max_checkpoints
    → length r.checkpoints + 1 < 2 ^ 32
    → create_checkpoint sequence (some (x ∷ bytes)) true true tick max_backups r
      ≡ some (
        success,
        record r {
          checkpoints = take r.max_checkpoints (taken sequence x bytes tick ∷ r.checkpoints);
        },
      )
unfolding create_checkpoint
create_checkpoint-take sequence x bytes tick max_backups r i h small =
    ap (create_with sequence (x ∷ bytes) true true tick) (ready_self max_backups r i)
    ∙ unfold create_with in add_checkpoint-take (taken sequence x bytes tick) r h small

-- With a limit of none or one, the second checkpoint is fatal: an initialised roller that holds a
-- checkpoint reads through NULL in every call that gets its memory.
pub create_checkpoint_fault :
    (sequence x : ℕ) (bytes : List ℕ) (tick max_backups : ℕ) (r : Roller) (c : Checkpoint)
    (rest : List Checkpoint)
    → r.initialized ≡ true
    → r.checkpoints ≡ c ∷ rest
    → r.max_checkpoints < 2
    → length r.checkpoints + 1 < 2 ^ 32
    → create_checkpoint sequence (some (x ∷ bytes)) true true tick max_backups r ≡ none
unfolding create_checkpoint
create_checkpoint_fault sequence x bytes tick max_backups r c rest i e h small =
    ap (create_with sequence (x ∷ bytes) true true tick) (ready_self max_backups r i)
    ∙ unfold create_with add_checkpoint in
      rw (
        trim_pushed (taken sequence x bytes tick) r.checkpoints r.max_checkpoints small (λ n. cc) h,
        add_checkpoint,
      )
