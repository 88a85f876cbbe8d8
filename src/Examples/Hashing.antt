-- ===== src/Examples/Hashing.antt =====
-- Runs of the hash code, src/shared/hash.c.
use ps.Base.{ℕ, ◌≡◌, refl, List, [], ◌∷◌, arith, replicate}
use ps.Hash.{Hash, hash_crc32, md5, not32}
use ps.Hash.Crc.{crc_bits, hash_crc32-eq-bits}

abbrev blank : Hash
blank = record { algorithm = md5; digest = replicate 64 0 }

-- "abc".
abbrev abc : List ℕ
abc = 97 ∷ 98 ∷ 99 ∷ []

-- The digest of the nine characters "123456789" that is known of this CRC.
hash_crc32_check : hash_crc32 (49 ∷ 50 ∷ 51 ∷ 52 ∷ 53 ∷ 54 ∷ 55 ∷ 56 ∷ 57 ∷ []) 0 ≡ 0xCBF43926
unfolding hash_crc32
hash_crc32_check = refl

hash_crc32-eq-bits_example : hash_crc32 abc 0 ≡ not32 (crc_bits (not32 0) abc)
hash_crc32-eq-bits_example =
    hash_crc32-eq-bits abc 0 (ground arith, (ground arith, (ground arith, tt)))
