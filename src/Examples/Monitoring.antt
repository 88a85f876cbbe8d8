-- ===== src/Examples/Monitoring.antt =====
-- Runs of the memory monitor, src/core/memory_monitor/.
use ps.Base.{
  ◌%◌, ◌≤◌, ◌≡◌, refl, ◌⊎◌, true, false, not, ◌&&◌, none, some, [], ◌∷◌, map, arith, ◌==◌,
  if◌then◌else◌, length, take, replicate, success, is_success, CString, str_eq,
}
use ps.Hash.{Hash, crc32, hash_compute}
use ps.Memory.{
  Mem, MemoryRegion, memory_add_region, memory_scan_all, memory_scan_region, read_bytes,
}
use ps.HashDb.{HashDbEntry, hash_db_add_entry, hash_db_find_entry, hash_db_verify_region}
use ps.Memory.Detection.{memory_scan-add}
use ps.Memory.Scanning.{fixed, memory_scan_all-reported, reported}
use ps.HashDb.Dictionary.{IsKeyed, entry_of, hash_db_find-add}
use ps.HashDb.Regions.{hash_db_verify-add}
use ps.HashDb.Names.{AllFit, cut_entry, hash_db_add_long}
use ps.Hash.Compare.{digest_of}

abbrev blank : Hash
blank = record { algorithm = crc32; digest = replicate 64 0 }

-- The memory before and after a write to the byte at address 4097.
abbrev clean : Mem
clean x = x % 256

abbrev patched : Mem
patched x = if x == 4097 then 7 else x % 256

-- "code".
abbrev code_name : CString
code_name = 99 ∷ 111 ∷ 100 ∷ 101 ∷ []

abbrev region : MemoryRegion
region = record {
  node = 16;
  name = code_name;
  base_address = 4096;
  size = 3;
  hash = blank;
  last_good_hash = blank;
  is_protected = false;
}

abbrev entry : HashDbEntry
entry = record { name = code_name; base_address = 4096; size = 3; hash = blank; algorithm = crc32 }

-- "data".
abbrev data_name : CString
data_name = 100 ∷ 97 ∷ 116 ∷ 97 ∷ []

abbrev long_name : CString
long_name = replicate 70 b'x'

memory_scan-add_example :
    let added =
      memory_add_region crc32 blank clean (some 32) (some code_name) 4096 3 (region ∷ []) in
    (r : MemoryRegion) × (added.0 ≡ some r)
    × (added.1 ≡ r ∷ (region ∷ []))
    × ((memory_scan_region crc32 blank patched (some r) added.1).0
        ≡ not (
            str_eq
              (digest_of crc32 (read_bytes patched 4096 3))
              (digest_of crc32 (read_bytes clean 4096 3))))
    × (r' : MemoryRegion) × ((memory_scan_region crc32 blank patched (some r) added.1).1
        ≡ r' ∷ (region ∷ []))
    × (r'.last_good_hash ≡ r.last_good_hash)
memory_scan-add_example =
    memory_scan-add crc32 blank blank clean patched 32 code_name 4096 3 (region ∷ []) refl
      (ground arith) (ground arith)

memory_scan_all-reported_example :
    let s = memory_scan_all crc32 blank patched true 1 (region ∷ region ∷ []) in
    (s.0 ≡ (if true then take 1 (reported crc32 blank patched (region ∷ region ∷ [])) else []))
    × (length s.0 ≤ 1)
    × (map (fixed crc32 blank patched) s.1 ≡ map (fixed crc32 blank patched) (region ∷ region ∷ []))
memory_scan_all-reported_example =
    memory_scan_all-reported crc32 blank patched true 1 (region ∷ region ∷ [])

hash_db_find-add_example :
    let s =
      hash_db_add_entry
        (some data_name)
        4096
        3
        (some (1 ∷ 2 ∷ 3 ∷ []))
        crc32
        blank
        true
        (entry ∷ []) in
    IsKeyed s.1
    × (hash_db_find_entry (some code_name) s.1 ≡ (
        if is_success s.0 && str_eq data_name code_name
        then some
            (entry_of data_name 4096 3 (hash_compute crc32 (some (1 ∷ 2 ∷ 3 ∷ [])) blank).1 crc32)
        else hash_db_find_entry (some code_name) (entry ∷ [])))
    × ((s.0 ≡ success) ⊎ (s.1 ≡ (entry ∷ [])))
hash_db_find-add_example =
    hash_db_find-add data_name code_name 4096 3 (some (1 ∷ 2 ∷ 3 ∷ [])) crc32 blank true
      (entry ∷ []) (ground arith) (ground arith, tt, tt)

hash_db_verify-add_example :
    let s =
      hash_db_add_entry
        (some data_name)
        4096
        3
        (some (1 ∷ (2 ∷ 3 ∷ [])))
        crc32
        blank
        true
        (entry ∷ []) in
    hash_db_verify_region (some data_name) 4096 3 (some (1 ∷ (2 ∷ 4 ∷ []))) blank s.1 ≡ (
      (4096 == 4096)
      && (3 == 3)
      && str_eq (digest_of crc32 (1 ∷ (2 ∷ 4 ∷ []))) (digest_of crc32 (1 ∷ (2 ∷ 3 ∷ []))))
unfolding hash_db_add_entry str_eq
hash_db_verify-add_example =
    hash_db_verify-add data_name 4096 3 4096 3 1 1 (2 ∷ 3 ∷ []) (2 ∷ 4 ∷ []) crc32 blank blank true
      (entry ∷ []) (ground arith) (ground arith, tt, tt) refl refl

hash_db_add_long_example :
    let s =
      hash_db_add_entry
        (some long_name)
        4096
        3
        (some (1 ∷ 2 ∷ 3 ∷ []))
        crc32
        blank
        true
        (entry ∷ []) in
    (hash_db_find_entry (some long_name) (entry ∷ []) ≡ none)
    × (hash_db_find_entry (some long_name) s.1 ≡ none)
    × (s.1 ≡ (
        if is_success s.0
        then cut_entry long_name 4096 3 (hash_compute crc32 (some (1 ∷ 2 ∷ 3 ∷ [])) blank).1 crc32
          ∷ entry
          ∷ []
        else entry ∷ []))
    × AllFit s.1
hash_db_add_long_example =
    hash_db_add_long long_name 4096 3 (some (1 ∷ 2 ∷ 3 ∷ [])) crc32 blank true (entry ∷ [])
      (ground arith) (ground arith, tt)
