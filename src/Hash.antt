-- ===== src/Hash.antt =====
-- src/shared/hash.c with include/ps14/hash.h: the CRC-32, the two other digests, and the tagged
-- hash values that the rest of the program compares. A NULL buffer is `none`; every caller in the
-- repository passes the address of a hash, so `h` is never NULL here.
pub mod Crc
pub mod Compare
use ps.Base.{
  ℕ, zero, suc, ◌+◌, ◌-◌, ◌*◌, ◌/◌, ◌%◌, ◌^◌, bit_xor, Bool, true, false, Option, none, some, List,
  [], ◌∷◌, ◌++◌, ◌==◌, if◌then◌else◌, length, get_or, set, take, drop, Status, success,
  invalid_argument, str_eq, CString, chars,
}

pub data Algorithm : Type 0 where
  crc32 md5 sha1 sha256 sha512 hash_max : Algorithm

-- `digest` holds the bytes of the union; each member is a prefix of it.
pub record Hash : Type 0 where
  pub algorithm : Algorithm
  pub digest : List ℕ

-- One round of the table's inner loop.
unfoldable pub crc_round : ℕ → ℕ
crc_round c = if c % 2 == 1 then bit_xor (c / 2) 0xEDB88320 else c / 2

-- for (int j = 0; j < n; j++)
unfoldable pub crc_rounds : ℕ → ℕ → ℕ
crc_rounds zero c = c
crc_rounds (suc n) c = crc_rounds n (crc_round c)

-- for (u32 i = ...; n entries to go; i++)
unfoldable pub crc_entries : ℕ → ℕ → List ℕ
unfolding crc_rounds crc_round
crc_entries zero i = []
crc_entries (suc n) i = crc_rounds 8 i ∷ crc_entries n (i + 1)

-- The table that init_crc fills once, before its first use.
unfoldable pub crc_table : List ℕ
unfolding crc_entries
crc_table = crc_entries 256 0

-- ~c for a 32-bit word.
abbrev pub not32 : ℕ → ℕ
not32 c = 2 ^ 32 - 1 - c

-- The body of the loop of ps14_hash_crc32.
unfoldable pub crc_update : ℕ → ℕ → ℕ
unfolding crc_table
crc_update c x = bit_xor (get_or crc_table (bit_xor c x % 2 ^ 8) 0) (c / 2 ^ 8)

unfoldable pub crc_loop : ℕ → List ℕ → ℕ
unfolding crc_update
crc_loop c [] = c
crc_loop c (x ∷ d) = crc_loop (crc_update c x) d

unfoldable pub hash_crc32 : List ℕ → ℕ → ℕ
unfolding crc_loop
hash_crc32 d ic = not32 (crc_loop (not32 ic) d)

-- (h << 5) + h + x in 32 bits.
abbrev pub mix : ℕ → ℕ → ℕ
mix h x = (h * 2 ^ 5 + h + x) % 2 ^ 32

-- The shared loop of the md5 and sha256 digests, over n words.
unfoldable pub mix_loop : ℕ → ℕ → List ℕ → List ℕ → List ℕ
mix_loop n i [] h = h
mix_loop n i (x ∷ d) h = mix_loop n (i + 1) d (set h (i % n) (mix (get_or h (i % n) 0) x))

-- memcpy of the words, least significant byte first.
unfoldable pub word_bytes : List ℕ → List ℕ
word_bytes [] = []
word_bytes (w ∷ ws) =
    w % 256 ∷ w / 2 ^ 8 % 256 ∷ w / 2 ^ 16 % 256 ∷ w / 2 ^ 24 % 256 ∷ word_bytes ws

abbrev pub md5_words : List ℕ
md5_words = 0x67452301 ∷ 0xEFCDAB89 ∷ 0x98BADCFE ∷ 0x10325476 ∷ []

unfoldable pub hash_md5 : List ℕ → List ℕ
unfolding mix_loop word_bytes
hash_md5 d = word_bytes (mix_loop 4 0 d md5_words)

abbrev pub sha256_words : List ℕ
sha256_words =
    0x6A09E667 ∷ 0xBB67AE85 ∷ 0x3C6EF372 ∷ 0xA54FF53A ∷ 0x510E527F ∷ 0x9B05688C ∷ 0x1F83D9AB
    ∷ 0x5BE0CD19 ∷ []

-- for (int i = ...; n rounds to go; i++) h[i] ^= h[(i+1)%8] << 9;
unfoldable pub sha256_fold : ℕ → ℕ → List ℕ → List ℕ
sha256_fold zero i h = h
sha256_fold (suc n) i h =
    sha256_fold n (i + 1)
      (set h i (bit_xor (get_or h i 0) (get_or h ((i + 1) % 8) 0 * 2 ^ 9 % 2 ^ 32)))

unfoldable pub hash_sha256 : List ℕ → List ℕ
unfolding mix_loop word_bytes sha256_fold
hash_sha256 d = word_bytes (sha256_fold 8 0 (mix_loop 8 0 d sha256_words))

unfoldable pub hash_size : Algorithm → ℕ
hash_size crc32 = 4
hash_size md5 = 16
hash_size sha1 = 20
hash_size sha256 = 32
hash_size sha512 = 64
hash_size hash_max = 0

-- `file` holds the bytes of the file, `none` where it cannot be opened; `alloc` is whether malloc gives
-- memory for them.
unfoldable pub hash_crc32_file : Option (List ℕ) → Bool → ℕ
unfolding hash_crc32
hash_crc32_file none alloc = 0
hash_crc32_file (some []) alloc = 0
hash_crc32_file (some (x ∷ bytes)) alloc = if alloc then hash_crc32 (x ∷ bytes) 0 else 0

-- The table is filled before its first use in any case.
unfoldable pub hash_init : Status
hash_init = success

unfoldable pub hash_algorithm_name : Algorithm → CString
hash_algorithm_name crc32 = chars "CRC32"
hash_algorithm_name md5 = chars "MD5"
hash_algorithm_name sha1 = chars "SHA1"
hash_algorithm_name sha256 = chars "SHA256"
hash_algorithm_name sha512 = chars "SHA512"
hash_algorithm_name hash_max = chars "UNKNOWN"

-- The destination first; `none` is NULL.
unfoldable pub hash_copy : Option Hash → Option Hash → Option Hash
hash_copy none source = none
hash_copy (some destination) none = some destination
hash_copy (some destination) (some source) = some source

-- A member of the union is written over the bytes that it shares with the others.
abbrev pub overlay : List ℕ → List ℕ → List ℕ
overlay bytes old = bytes ++ drop (length bytes) old

-- The `switch` of ps14_hash_compute.
hash_switch : Algorithm → List ℕ → Hash → Status × Hash
unfolding hash_crc32 hash_md5 hash_sha256 word_bytes
hash_switch crc32 d h =
    (success, record h { digest = overlay (word_bytes (hash_crc32 d 0 ∷ [])) h.digest })
hash_switch md5 d h = (success, record h { digest = overlay (hash_md5 d) h.digest })
hash_switch sha256 d h = (success, record h { digest = overlay (hash_sha256 d) h.digest })
hash_switch _ d h = (invalid_argument, h)

-- The status and the hash that is left in `h`.
unfoldable pub hash_compute : Algorithm → Option (List ℕ) → Hash → Status × Hash
unfolding hash_switch
hash_compute a none h = (invalid_argument, h)
hash_compute a (some []) h = (invalid_argument, h)
hash_compute a (some (x ∷ d)) h = hash_switch a (x ∷ d) (record h { algorithm = a })

abbrev same_algorithm : Algorithm → Algorithm → Bool
same_algorithm crc32 crc32 = true
same_algorithm md5 md5 = true
same_algorithm sha1 sha1 = true
same_algorithm sha256 sha256 = true
same_algorithm sha512 sha512 = true
same_algorithm hash_max hash_max = true
same_algorithm _ _ = false

-- memcmp of n bytes, or the comparison of the 4 bytes of a word.
abbrev same_bytes : ℕ → List ℕ → List ℕ → Bool
same_bytes n a b = str_eq (take n a) (take n b)

compare_switch : Algorithm → List ℕ → List ℕ → Bool
compare_switch crc32 a b = same_bytes 4 a b
compare_switch md5 a b = same_bytes 16 a b
compare_switch sha256 a b = same_bytes 32 a b
compare_switch _ a b = false

unfoldable pub hash_compare : Hash → Hash → Bool
unfolding compare_switch
hash_compare h1 h2 =
    if same_algorithm h1.algorithm h2.algorithm
    then compare_switch h1.algorithm h1.digest h2.digest
    else false
