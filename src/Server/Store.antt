-- ===== src/Server/Store.antt =====
-- src/server/session_store.c. time(NULL) is called twice by create: each value is an argument.
use ps.Base.{
  ℕ, zero, suc, ◌+◌, ◌≤◌, ◌≡◌, refl, sym, ap, ◌∙◌, ◌↔◌, Bool, true, false, Option, none, some, List,
  [], ◌∷◌, ◌++◌, arith, if◌then◌else◌, length, get_or, take, take-eq_self, CString, strncpy, str_eq,
  add64,
}
use ps.Chain.{find_first, remove_first}
use ps.Server.Table.{Table, append_slot, remove_slot}
use ps.Server.Table.Refinement.{live, IsTable, append_slot-done, remove_slot-live}

pub record SessionEntry : Type 0 where
  pub session_id : CString
  pub user_id : ℕ
  pub create_time : ℕ
  pub expiry_time : ℕ

-- A slot of the static array before its first use.
abbrev no_entry : SessionEntry
no_entry = record { session_id = []; user_id = 0; create_time = 0; expiry_time = 0 }

abbrev pub has_id : CString → SessionEntry → Bool
has_id id s = str_eq s.session_id id

unfoldable pub store_create :
    ℕ → CString → ℕ → ℕ → ℕ → Table SessionEntry → Bool × Table SessionEntry
store_create user_id session_id expiry_seconds now now' t =
    append_slot
      (record {
        session_id = strncpy 63 session_id;
        user_id = user_id;
        create_time = now;
        expiry_time = add64 now' expiry_seconds;
      })
      t

unfoldable pub store_destroy : CString → Table SessionEntry → Bool × Table SessionEntry
store_destroy session_id t = remove_slot (has_id session_id) no_entry t

store_get_from : CString → ℕ → ℕ → List SessionEntry → Option SessionEntry
store_get_from session_id zero i slots = none
store_get_from session_id (suc n) i slots =
    let later = store_get_from session_id n (i + 1) slots in
    if has_id session_id (get_or slots i no_entry) then some (get_or slots i no_entry) else later

-- The entry that the pointer returned is to, or none for NULL.
unfoldable pub store_get : CString → Table SessionEntry → Option SessionEntry
unfolding store_get_from
store_get session_id t = store_get_from session_id t.count 0 t.slots

store_get_from-cons :
    (id : CString) (n i : ℕ) (s : SessionEntry) (slots : List SessionEntry)
    → store_get_from id n (suc i) (s ∷ slots) ≡ store_get_from id n i slots
unfolding store_get_from
store_get_from-cons id zero i s slots = refl
store_get_from-cons id (suc n) i s slots =
    rw
      (let p : suc i + 1 ≡ suc (i + 1) = omega arith in p, store_get_from-cons id n (i + 1) s slots)
      refl

store_get_from-first :
    (id : CString) (n : ℕ) (slots : List SessionEntry)
    → n ≤ length slots
    → store_get_from id n 0 slots ≡ find_first (has_id id) (take n slots)
unfolding store_get_from find_first
store_get_from-first id zero slots h = refl
store_get_from-first id (suc n) [] h = absurd (omega arith)
store_get_from-first id (suc n) (s ∷ slots) h =
    ground (arith, store_get_from-cons id n 0 s slots, store_get_from-first id n slots)

store_get-first :
    (id : CString) (t : Table SessionEntry)
    → IsTable t
    → store_get id t ≡ find_first (has_id id) (live t)
unfolding store_get
store_get-first id t w = store_get_from-first id t.count t.slots (omega (arith, w.sized, w.within))

-- A look-up behind an appended entry.
abbrev pub or_else : Option SessionEntry → Option SessionEntry → Option SessionEntry
or_else (some s) o = some s
or_else none o = o

find_first-snoc :
    (test : SessionEntry → Bool) (l : List SessionEntry) (s : SessionEntry)
    → find_first test (l ++ s ∷ []) ≡ or_else (find_first test l) (if test s then some s else none)
unfolding find_first
find_first-snoc test [] s = refl
find_first-snoc test (x ∷ l) s = ground (arith, find_first-snoc test l s)

-- A create that finds room adds an entry behind the others: a look-up of any identifier answers the
-- entry that it answered before, if there was one, and otherwise the new entry, with its expiry time,
-- if that is the identifier (of up to 63 characters) of the create.
pub store_get-create :
    (id q : CString) (user expiry now now' : ℕ) (t : Table SessionEntry)
    → IsTable t
    → length id ≤ 63
    → (store_create user id expiry now now' t).0 ≡ true
    → let t' = (store_create user id expiry now now' t).1 in
      let new : SessionEntry = record {
        session_id = id;
        user_id = user;
        create_time = now;
        expiry_time = add64 now' expiry;
      } in
      IsTable t'
      × (store_get q t' ≡ or_else (store_get q t) (if str_eq id q then some new else none))
unfolding store_create
store_get-create id q user expiry now now' t w s k =
    let e : SessionEntry = record {
      session_id = strncpy 63 id;
      user_id = user;
      create_time = now;
      expiry_time = add64 now' expiry;
    } in
    let done = append_slot-done e t w k in
    (
      done.0,
      store_get-first q (append_slot e t).1 done.0
          ∙ ap (find_first (has_id q)) done.1
          ∙ find_first-snoc (has_id q) (live t) e
          ∙ rw (take-eq_self 63 id s, store_get-first q t w) refl,
    )

-- Destroying removes the first entry of the identifier and answers whether there was one: what a
-- look-up answers afterwards is the next entry of the identifier, if two were created.
pub store_get-destroy :
    (id : CString) (t : Table SessionEntry)
    → IsTable t
    → let t' = (store_destroy id t).1 in
      IsTable t'
      × (store_get id t' ≡ find_first (has_id id) (remove_first (has_id id) (live t)))
      × (((store_destroy id t).0 ≡ false) ↔ (store_get id t ≡ none))
unfolding store_destroy
store_get-destroy id t w =
    let r = remove_slot-live (has_id id) no_entry t w in
    (
      r.0,
      store_get-first id (remove_slot (has_id id) no_entry t).1 r.0
          ∙ ap (find_first (has_id id)) r.1,
      (λ p. store_get-first id t w ∙ r.2.0 p, λ p. r.2.1 (sym (store_get-first id t w) ∙ p)),
    )
