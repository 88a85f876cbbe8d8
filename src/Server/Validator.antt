-- ===== src/Server/Validator.antt =====
-- src/server/state_validator.c. Client identifiers are of type u32, hashes and times of type u64.
use ps.Base.{
  ℕ, zero, suc, ◌+◌, ◌≤◌, ◌≡◌, refl, ap, inl, inr, Bool, true, false, Option, none, some, List, [],
  ◌∷◌, arith, ◌==◌, if◌then◌else◌, Bool-cases, length, get_or, set, take, ◌∙◌, sym, ◌&&◌, ◌↔◌,
}
use ps.Chain.{find_first, update_first}
use ps.Server.Table.{Table, append_slot}
use ps.Server.Table.Refinement.{live, IsTable}

pub record ClientState : Type 0 where
  pub client_id : ℕ
  pub last_state_hash : ℕ
  pub last_update_time : ℕ

-- A slot of the static array before its first use.
abbrev no_client : ClientState
no_client = record { client_id = 0; last_state_hash = 0; last_update_time = 0 }

abbrev pub is_client : ℕ → ClientState → Bool
is_client id c = c.client_id == id

unfoldable pub register_client : ℕ → ℕ → ℕ → Table ClientState → Bool × Table ClientState
register_client client_id initial_hash now t =
    append_slot
      (record { client_id = client_id; last_state_hash = initial_hash; last_update_time = now }) t

abbrev pub with_hash : ℕ → ℕ → ClientState → ClientState
with_hash new_hash now c = record {
  client_id = c.client_id;
  last_state_hash = new_hash;
  last_update_time = now;
}

-- for (i = ...; n rounds to go; i++)
update_from : ℕ → ℕ → ℕ → ℕ → ℕ → List ClientState → Bool × List ClientState
update_from client_id new_hash now zero i slots = (false, slots)
update_from client_id new_hash now (suc n) i slots =
    let later = update_from client_id new_hash now n (i + 1) slots in
    if is_client client_id (get_or slots i no_client)
    then (true, set slots i (with_hash new_hash now (get_or slots i no_client)))
    else later

unfoldable pub update_client : ℕ → ℕ → ℕ → Table ClientState → Bool × Table ClientState
unfolding update_from
update_client client_id new_hash now t =
    let r = update_from client_id new_hash now t.count 0 t.slots in
    (r.0, record { slots = r.1; count = t.count })

validate_from : ℕ → ℕ → ℕ → ℕ → List ClientState → Bool
validate_from client_id client_hash zero i slots = false
validate_from client_id client_hash (suc n) i slots =
    let later = validate_from client_id client_hash n (i + 1) slots in
    if is_client client_id (get_or slots i no_client)
    then (get_or slots i no_client).last_state_hash == client_hash
    else later

unfoldable pub validate_client : ℕ → ℕ → Table ClientState → Bool
unfolding validate_from
validate_client client_id client_hash t = validate_from client_id client_hash t.count 0 t.slots

validate_from-cons :
    (id hash n i : ℕ) (c : ClientState) (slots : List ClientState)
    → validate_from id hash n (suc i) (c ∷ slots) ≡ validate_from id hash n i slots
unfolding validate_from
validate_from-cons id hash zero i c slots = refl
validate_from-cons id hash (suc n) i c slots =
    rw
      (
        let p : suc i + 1 ≡ suc (i + 1) = omega arith in p,
        validate_from-cons id hash n (i + 1) c slots,
      )
      refl

abbrev known_hash : ℕ → Option ClientState → Bool
known_hash hash none = false
known_hash hash (some c) = c.last_state_hash == hash

validate_from-first :
    (id hash n : ℕ) (slots : List ClientState)
    → n ≤ length slots
    → validate_from id hash n 0 slots ≡ known_hash hash (find_first (is_client id) (take n slots))
unfolding validate_from find_first
validate_from-first id hash zero slots h = refl
validate_from-first id hash (suc n) [] h = absurd (omega arith)
validate_from-first id hash (suc n) (c ∷ slots) h =
    ground (arith, validate_from-cons id hash n 0 c slots, validate_from-first id hash n slots)

validate_client-first :
    (id hash : ℕ) (t : Table ClientState)
    → IsTable t
    → validate_client id hash t ≡ known_hash hash (find_first (is_client id) (live t))
unfolding validate_client
validate_client-first id hash t w =
    validate_from-first id hash t.count t.slots (omega (arith, w.sized, w.within))

update_from-cons :
    (id hash now n i : ℕ) (c : ClientState) (slots : List ClientState)
    → update_from id hash now n (suc i) (c ∷ slots)
      ≡ ((update_from id hash now n i slots).0, c ∷ (update_from id hash now n i slots).1)
unfolding update_from
update_from-cons id hash now zero i c slots = refl
update_from-cons id hash now (suc n) i c slots =
    elim (Bool-cases (is_client id (get_or slots i no_client))) [
      | inl e ↦ rw e refl
      | inr e ↦
          rw (e, let p : suc i + 1 ≡ suc (i + 1) = omega arith in p)
            (update_from-cons id hash now n (i + 1) c slots)
    ]

is_some : Option ClientState → Bool
is_some none = false
is_some (some c) = true

update_from-first :
    (id hash now n : ℕ) (slots : List ClientState)
    → n ≤ length slots
    → ((update_from id hash now n 0 slots).0 ≡ is_some (find_first (is_client id) (take n slots)))
      × (length (update_from id hash now n 0 slots).1 ≡ length slots)
      × (take n (update_from id hash now n 0 slots).1
          ≡ update_first (is_client id) (with_hash hash now) (take n slots))
unfolding update_from find_first update_first is_some
update_from-first id hash now zero slots h = (refl, refl, refl)
update_from-first id hash now (suc n) [] h = absurd (omega arith)
update_from-first id hash now (suc n) (c ∷ slots) h = elim (Bool-cases (is_client id c)) [
  | inl e ↦ rw e (refl, refl, refl)
  | inr e ↦
      let r = update_from-first id hash now n slots (omega arith) in
      rw (e, update_from-cons id hash now n 0 c slots) (r.0, ap suc r.1, ap (◌∷◌ c) r.2)
]

is_some-false : (o : Option ClientState) → is_some o ≡ false → o ≡ none
unfolding is_some
is_some-false none h = refl
is_some-false (some c) h = cc

updated :
    (id q hash k now : ℕ) (l : List ClientState)
    → known_hash k (find_first (is_client q) (update_first (is_client id) (with_hash hash now) l))
      ≡ (if is_some (find_first (is_client id) l) && id == q
          then hash == k
          else known_hash k (find_first (is_client q) l))
unfolding find_first update_first is_some
updated id q hash k now [] = refl
updated id q hash k now (c ∷ l) = ground (arith, updated id q hash k now l)

-- Updating a client answers no exactly if the client is not registered, and then changes nothing that
-- a validation sees. Otherwise the new hash is the only one of the client that validates afterwards,
-- and whether a hash of another client validates stays as it was.
pub validate_client-update :
    (id q hash k now : ℕ) (t : Table ClientState)
    → IsTable t
    → let r = update_client id hash now t in
      IsTable r.1
      × ((r.0 ≡ false) ↔ (find_first (is_client id) (live t) ≡ none))
      × (validate_client q k r.1 ≡ (if r.0 && id == q then hash == k else validate_client q k t))
unfolding update_client
validate_client-update id q hash k now t w = (
  after-IsTable,
  (
    λ p. is_some-false (find_first (is_client id) (live t)) (sym r.0 ∙ p),
    λ p. r.0 ∙ rw p (unfold is_some in refl),
  ),
  after ∙ updated id q hash k now (live t) ∙ rw (r.0, validate_client-first q k t w) refl,
)
  where
    r :
        ((update_from id hash now t.count 0 t.slots).0
          ≡ is_some (find_first (is_client id) (live t)))
        × (length (update_from id hash now t.count 0 t.slots).1 ≡ length t.slots)
        × (take t.count (update_from id hash now t.count 0 t.slots).1
            ≡ update_first (is_client id) (with_hash hash now) (live t))
    r = update_from-first id hash now t.count t.slots (omega (arith, w.sized, w.within))

    after-IsTable : IsTable (update_client id hash now t).1
    after-IsTable = record { sized = r.1 ∙ w.sized; within = w.within }

    after :
        validate_client q k (update_client id hash now t).1
        ≡ known_hash k
            (find_first (is_client q) (update_first (is_client id) (with_hash hash now) (live t)))
    after =
        validate_client-first q k (update_client id hash now t).1 after-IsTable
        ∙ ap (λ l. known_hash k (find_first (is_client q) l)) r.2
