-- ===== src/Examples/Serving.antt =====
-- Runs of the server's tables, src/server/.
use ps.Base.{
  ℕ, ◌≡◌, refl, ◌↔◌, Bool, false, none, some, [], ◌∷◌, arith, ◌==◌, if◌then◌else◌, replicate,
  length-replicate, CString, str_eq, add64,
}
use ps.Chain.{find_first, remove_first}
use ps.Server.Table.{Table, append_slot, capacity, remove_slot}
use ps.Server.Table.Refinement.{IsTable, live, remove_slot-live}
use ps.Server.Bans.{BanEntry}
use ps.Server.Store.{SessionEntry, or_else, store_create, store_get, store_get-create}
use ps.Server.Validator.{ClientState}

abbrev numbers : Table ℕ
numbers = record { slots = replicate capacity 5; count = 3 }

numbers-IsTable : IsTable numbers
numbers-IsTable = record { sized = length-replicate {A = ℕ} capacity 5; within = ground arith }

abbrev is_five : ℕ → Bool
is_five n = n == 5

-- "::1".
abbrev ip : CString
ip = 58 ∷ 58 ∷ 49 ∷ []

abbrev ban : BanEntry
ban = record { ip_address = ip; ban_time = 100; duration = 60; reason = [] }

abbrev bans : Table BanEntry
bans = record { slots = replicate capacity ban; count = 2 }

bans-IsTable : IsTable bans
bans-IsTable = record { sized = length-replicate capacity ban; within = ground arith }

abbrev entry : SessionEntry
entry = record { session_id = ip; user_id = 1; create_time = 100; expiry_time = 160 }

abbrev entries : Table SessionEntry
entries = record { slots = replicate capacity entry; count = 1 }

entries-IsTable : IsTable entries
entries-IsTable = record { sized = length-replicate capacity entry; within = ground arith }

abbrev client : ClientState
client = record { client_id = 3; last_state_hash = 9; last_update_time = 100 }

abbrev clients : Table ClientState
clients = record { slots = replicate capacity client; count = 1 }

clients-IsTable : IsTable clients
clients-IsTable = record { sized = length-replicate capacity client; within = ground arith }

remove_slot-live_example :
    IsTable (remove_slot is_five 0 numbers).1
    × (live (remove_slot is_five 0 numbers).1 ≡ remove_first is_five (live numbers))
    × (((remove_slot is_five 0 numbers).0 ≡ false) ↔ (find_first is_five (live numbers) ≡ none))
remove_slot-live_example = remove_slot-live is_five 0 numbers (numbers-IsTable)

store_get-create_example :
    let t' = (store_create 2 ip 60 200 200 entries).1 in
    let new : SessionEntry = record {
      session_id = ip;
      user_id = 2;
      create_time = 200;
      expiry_time = add64 200 60;
    } in
    IsTable t'
    × (store_get ip t' ≡ or_else (store_get ip entries) (if str_eq ip ip then some new else none))
unfolding store_create append_slot
store_get-create_example =
    store_get-create ip ip 2 60 200 200 entries (entries-IsTable) (ground arith) refl
