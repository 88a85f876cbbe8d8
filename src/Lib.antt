-- ===== src/Lib.antt =====
-- A model of PS14, an anti-tampering library for games (C): it hashes and watches memory regions, repairs
-- them from backups, keeps checkpoints of game states, and talks to an authentication server; a small
-- server keeps bans, sessions and client states in fixed tables.
--
-- The parts, with the file that models each:
--   Base         include/ps14.h: the error codes (`Status`, `code`), C strings (the characters before the
--                terminator), strncpy and strcmp, sums and differences of unsigned words.
--   Chain        the loops over singly linked lists that most components write out: searching, changing
--                or removing the first node that passes a test, removing all of them. Chain/Search has
--                their lemmas.
--   Bits, Hash   src/shared/hash.c: ps14_hash_crc32 with the table that init_crc fills (`crc_table`), the
--                md5 and sha256 digests of the source (which are not the standard ones),
--                ps14_hash_compute and ps14_hash_compare on the tagged union Ps14Hash.
--   Memory       src/core/memory_monitor/memory_scanner.c: ps14_memory_add_region, remove_region,
--                find_region, scan_region and scan_all, over a memory with a byte for each address.
--                Memory/Audit is the rest of the file: ps14_memory_init and shutdown, and the rounds of
--                the audit thread, which calls the callbacks. Memory/Pages is page_auditor.c.
--   HashDb       src/core/memory_monitor/hash_database.c: ps14_hash_db_add_entry, remove_entry,
--                find_entry, verify_region. HashDb/Saving is its text file.
--   Repair       src/core/repair_system/memory_repair.c: ps14_repair_backup_memory, restore_memory,
--                restore_memory_by_name, attempt_auto_fix, check_and_fix_all and the counters. It scans
--                with Memory and writes the memory back.
--   Checkpoints  src/core/repair_system/state_roller.c: ps14_repair_create_checkpoint with the trimming
--                of old ones, rollback_to_sequence, rollback_to_last_good.
--   Network      src/shared/network.c: what the wrappers of the socket calls return, and the byte order.
--   Sessions     src/core/auth_gateway/session_manager.c: ps14_session_create, destroy, find, is_valid,
--                ban, invalidate, cleanup_expired.
--   Auth         src/core/auth_gateway/auth_client.c: the connection, ps14_auth_login, logout,
--                validate_session, refresh_session. Auth/History has sequences of calls on the sessions.
--   StateSync    src/core/auth_gateway/state_sync.c: ps14_state_send_update and receive_update.
--   Server       src/server/ban_manager.c, session_store.c and state_validator.c: the arrays of 1024
--                slots (Server/Table), and the operations on them.
--                Server/Accounts is src/server/auth_server.c: users, logins and tokens.
--   Integrity    src/core/integrity_check/checksum_db.c: ps14_checksum_db_add and verify, and Integrity/Saving
--                for its text file. Integrity/Files is file_verifier.c, and
--                Integrity/Signature code_signature.c, on the bytes of a file.
--   Pool         src/shared/thread_pool.c: the queue of ps14_thread_pool_submit and the loop of the
--                workers (`tpw`), as steps that interleave (Pool/Steps, with their order in Pool/Fifo
--                and their progress in Pool/Progress). Pool/Gate adds the steps around the semaphore,
--                with their invariant in Pool/Semaphore.
--   Watcher      src/kernel/process_watcher.c: the notification routines and the log that
--                ps14_process_watcher_get_events reads, and get_info.
--   Advanced     src/core/advanced, one module for each file: Tamper (NOP sleds, jumps and changed
--                code), Hooks (the opcodes of hooks, and the scan of a region for them), Debugger (the
--                tests for a debugger on Windows and elsewhere), Overflow (canaries around blocks and
--                checked buffers), Auditor (the thread of async_auditor.c), and for advanced.c Callbacks
--                (the chain of callbacks, in a store of nodes) and Events (ps14_advanced_run_all_checks).
--   Files        src/core/repair_system/backup_manager.c, and Files/Restorer for file_restorer.c: copies
--                of files in a file system that is a list of paths with their bytes.
--   Shared       src/shared/logger.c and config.c; Shared/Launcher is src/client/launcher.c and
--                src/core/core.c, which start them; Shared/Client is src/client/network_client.c and
--                api_hooks.c.
--   Kernel       src/kernel: Guard (memory_guard.c), Handlers (callback_handler.c), ShadowPt
--                (shadow_pt_detector.c), and Driver (driver.c), which passes the requests on to them.
--   Examples     runs on concrete data, and the theorems applied to them.
--
-- How the code is read. Global state is passed and returned. A linked list is the list of its nodes from
-- the head on; where callers hold pointers, a node has its address in a field, and a pointer leads to
-- the first node with the address. The chain of Advanced/Callbacks, where a node is freed while another
-- one still leads to it, is a store of nodes by their addresses, and reading a freed node is a fault.
-- NULL is `none`, or the address 0. What the operating system, the kernel, the processor and the C
-- library answer (malloc, time, rand, socket calls, the tick count, page tables, signatures) and the
-- configuration's values are arguments. Counters and times that wrap are written with `% 2 ^ 32` and
-- `% 2 ^ 64`; atoi is (int)strtol with a long of 64 bits. The result `none` of
-- ps14_repair_create_checkpoint stands for the fault of reading through NULL, that of a round of the
-- asynchronous auditor for a thread that waits for itself.
--
-- A loop is a recursion on the list, or on the number of rounds left: the scan for hooks has a round for
-- each byte before the last four, which is enough since each moves on by one byte or more; the copy of
-- a file one for each byte and one that finds the end; the walk over pages one for each byte of the
-- region and one more; printing a number one for each of the 20 digits that 64 bits can have; the loop
-- that trims checkpoints recurses on its own counter. Three loops take the number of their rounds as an
-- argument: the walk over the chain of callbacks, where a freed node could lead anywhere (a chain of n
-- live nodes is done in n + 1), the walk over the pages of a whole process, and the shutdown of the file
-- verifier, which never ends on a list that is not NULL.
--
-- Mutexes are left out: the calls run one after another. In Pool, whose threads interleave, what a thread
-- does under the lock is one step, and what it does without the lock are steps of their own: reading the
-- pause flag, signalling and waiting, and the two halves of a change of a counter. Only in Advanced/Auditor
-- and in the scan of Integrity/Files, which lock a mutex twice, it is an argument whether a mutex is
-- recursive. Log output is left out.
--
-- Not modelled: src/client/config_manager.c, which sets fields that the configuration does not have,
-- src/server/main.c, and in src/shared/thread_pool.c the shutdown of a pool (what it does to the workers
-- depends on the events, behind the end of the file) and the wrappers of the thread API. Some source
-- files end in the middle of a function (state_sync.c, memory_scanner.c, checksum_db.c, thread_pool.c,
-- token_validator.c, network_handler.c, driver.c): scan_all is read as ending with the count that its
-- callers use, the load of the checksum file is an argument, and what is missing entirely is left out,
-- as are token_validator.c and network_handler.c, of which there is little more.
pub mod Base
pub mod Bits
pub mod Chain
pub mod Hash
pub mod Memory
pub mod HashDb
pub mod Repair
pub mod Checkpoints
pub mod Network
pub mod Sessions
pub mod Auth
pub mod StateSync
pub mod Server
pub mod Integrity
pub mod Pool
pub mod Watcher
pub mod Advanced
pub mod Files
pub mod Shared
pub mod Kernel
pub mod Examples
