-- ===== src/Examples/Recording.antt =====
-- Runs of the checksum database, the thread pool, the process watcher and the accounts.
use ps.Base.{
  ◌≤◌, length, ◌+◌, Option, ℕ, ◌≡◌, refl, ◌⊎◌, Bool, true, false, ◌&&◌, none, some, List, [], ◌∷◌,
  arith, ltb, if◌then◌else◌, take, replicate, length-replicate, success, is_success, CString,
  str_eq,
}
use ps.Chain.{find_first}
use ps.Hash.{Hash, crc32, hash_sha256, overlay}
use ps.Integrity.{
  ChecksumDb, ChecksumEntry, checksum_db_add, checksum_db_verify, has_path, is_free, no_checksum,
}
use ps.Pool.{Pool, pool_init, submit_check, enqueue, worker_check, worker_take, begin}
use ps.Watcher.{ProcessEvent, Watcher, watcher_get_events, process_create}
use ps.Server.Table.{capacity}
use ps.Server.Table.Refinement.{IsTable, live}
use ps.Server.Accounts.{AuthUser, c_string, register_user, server_login, validate_token}
use ps.Pool.Gate.{Move, step, signal, wait, closed, gate_run}
use ps.Pool.Semaphore.{gate_run-permits}
use ps.Integrity.Files.{integrity_verify_file, integrity_scan_all}
use ps.Integrity.Files.Unallocated.{Change, start, add, remove, changes, changes_verify_nothing}
use ps.Integrity.Verification.{agrees, checksum_db_verify-add}
use ps.Watcher.Delivery.{
  Notification, events_of, notify, watcher_get_events-notify, process, thread, image,
}
use ps.Server.Accounts.Login.{NoZero, server_login_junk, server_login_token}
use ps.Server.Accounts.Invariant.{AreKept, register_login-AreKept}
use ps.Pool.Steps.{
  Step, fresh, world_run, world_step, offer, link, check, take_task, load, store, finish,
}

abbrev digest : Hash
digest = record { algorithm = crc32; digest = replicate 64 7 }

-- "a".
abbrev path_a : CString
path_a = 97 ∷ []

abbrev empty_db : ChecksumDb
empty_db = record { entries = replicate 4 no_checksum; initialized = true; db_path = path_a }

abbrev no_file : CString → List ChecksumEntry → List ChecksumEntry
no_file name slots = slots

abbrev new_pool : Pool
new_pool = record {
  qs = 2;
  queue = [];
  queue_size = 0;
  active_threads = 0;
  completed_tasks = 0;
  paused = false;
}

-- A submission, up to the lock and under it.
abbrev submit : ℕ → List Step → List Step
submit t rest = offer (some t) ∷ link t ∷ rest

-- A third submission finds the queue full.
abbrev steps : List Step
steps =
    submit 1
      (submit 2 (submit 3 (check ∷ take_task ∷ submit 4 (check ∷ take_task ∷ finish 2 ∷ []))))

steps_queue : (world_run steps (fresh new_pool)).pool.queue ≡ 4 ∷ []
unfolding world_run world_step submit_check enqueue worker_check worker_take
steps_queue = refl

-- Two workers take a task each, and both load the counter before either stores it: it counts one.
abbrev racing : List Step
racing = submit 1 (
    submit 2
      (check ∷ take_task ∷ check ∷ take_task ∷ load begin ∷ load begin ∷ store 0 ∷ store 0 ∷ []))

racing_count :
    let w = world_run racing (fresh new_pool) in
    (w.running ≡ 1 ∷ 2 ∷ []) × (w.pool.active_threads ≡ 1)
unfolding world_run
racing_count = (refl, refl)

abbrev a_event : ProcessEvent
a_event = record { event_type = process_create; process_id = 0; thread_id = 0; module_name = [] }

abbrev watcher : Watcher
watcher = record { log = record { slots = replicate capacity a_event; count = 0 }; enabled = true }

watcher-IsTable : IsTable watcher.log
watcher-IsTable = record {
  sized = length-replicate {A = ProcessEvent} capacity a_event;
  within = ground arith;
}

abbrev calls : List Notification
calls = process 4 (some none) ∷ thread 4 8 true ∷ image none 4 none ∷ process 4 none ∷ []

-- "pw".
abbrev password : CString
password = 112 ∷ 119 ∷ []

abbrev user : AuthUser
user = record {
  username = path_a;
  password_hash = overlay (hash_sha256 password) (replicate 64 0);
  session_token = replicate 64 0;
  expiry_time = 0;
}

abbrev one_user : List AuthUser
one_user = user ∷ []

no_zero : List ℕ → Bool
no_zero [] = true
no_zero (x ∷ l) = ltb 0 x && no_zero l

no_zero-NoZero : (l : List ℕ) → no_zero l ≡ true → NoZero l
unfolding no_zero
no_zero-NoZero [] h = tt
no_zero-NoZero (x ∷ l) h = (ground arith, no_zero-NoZero l (ground arith))

password-NoZero : NoZero (hash_sha256 password)
unfolding no_zero hash_sha256
password-NoZero = no_zero-NoZero (hash_sha256 password) refl

checksum_db_verify-add_example :
    let r = checksum_db_add no_file (some path_a) (some digest) empty_db in
    ((checksum_db_verify no_file (some (97 ∷ [])) (some digest) r.1).0 ≡ (
      if is_success r.0 && str_eq path_a (97 ∷ [])
      then agrees (some digest) (some digest)
      else (checksum_db_verify no_file (some (97 ∷ [])) (some digest) empty_db).0))
    × ((r.0 ≡ success)
        ⊎ ((find_first (has_path path_a) empty_db.entries ≡ none)
            × (find_first is_free empty_db.entries ≡ none)))
checksum_db_verify-add_example =
    checksum_db_verify-add no_file path_a 97 [] digest (some digest) empty_db refl (ground arith)

watcher_get_events-notify_example :
    let r = watcher_get_events true 2 (notify calls watcher) in
    (r.0 ≡ some (take 2 (take capacity (events_of calls)))) × (live r.1.log ≡ []) × IsTable r.1.log
watcher_get_events-notify_example =
    watcher_get_events-notify calls 2 watcher refl (watcher-IsTable) refl (ground arith)

server_login_token_example :
    let r = server_login path_a password (0 ∷ []) 100 one_user in
    (given : CString) × (r.1 ≡ some given) × (validate_token given 200 r.2 ≡ true)
unfolding server_login c_string hash_sha256 str_eq
server_login_token_example =
    server_login_token path_a password (0 ∷ []) 100 200 one_user (refl, tt) (ground arith) refl

register_login-AreKept_example :
    AreKept (register_user (some path_a) (some password) one_user).1
    × AreKept (server_login path_a password (0 ∷ []) 100 one_user).2
    × AreKept []
unfolding c_string hash_sha256
register_login-AreKept_example =
    register_login-AreKept path_a password path_a password (0 ∷ []) 100 one_user
      ((refl, tt), (ground arith, tt))

server_login_junk_example :
    server_login path_a password (7 ∷ []) 100 one_user ≡ (false, none, one_user)
unfolding c_string hash_sha256
server_login_junk_example =
    server_login_junk path_a password 7 100 [] one_user (password-NoZero) (ground arith)
      (ground arith, tt)

-- A file that cannot be hashed is added and removed again.
abbrev file_calls : List Change
file_calls = start ∷ add (some path_a) none ∷ remove (some path_a) ∷ []

changes_verify_nothing_example :
    ((path : Option CString) (file : Option Hash) → integrity_verify_file path file none ≡ false)
    × ((recursive : Bool) (contents : CString → Option Hash)
        → integrity_scan_all recursive contents none ≡ some 0)
unfolding changes
changes_verify_nothing_example = changes_verify_nothing file_calls none refl

-- Two submissions, one of them not signalled yet, and a worker between its check and the lock.
abbrev moves : List Move
moves =
    step (offer (some 1))
    ∷ step (link 1)
    ∷ signal
    ∷ step (offer (some 2))
    ∷ step (link 2)
    ∷ wait
    ∷ step check
    ∷ []

gate_run-permits_example :
    let g = gate_run moves (closed new_pool) in
    (g.count + g.signalling + g.holding + g.world.checked ≡ length g.world.pool.queue)
    × (g.holding + g.world.checked ≤ length g.world.pool.queue)
    × (g.count ≤ g.world.pool.qs)
unfolding pool_init
gate_run-permits_example = gate_run-permits 3 2 new_pool moves (ground arith) refl
