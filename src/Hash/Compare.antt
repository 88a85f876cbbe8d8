-- ===== src/Hash/Compare.antt =====
-- ps14_hash_compute and ps14_hash_compare of src/shared/hash.c taken together.
use ps.Base.{
  ℕ, zero, suc, ◌+◌, ◌*◌, ◌%◌, ◌^◌, bit_xor, ◌≡◌, refl, ap, ◌∙◌, inl, inr, Bool, true, false, ◌&&◌,
  Option, none, some, List, [], ◌∷◌, ◌++◌, arith, if◌then◌else◌, Bool-cases, length, get_or, set,
  take, drop, length-set, success, invalid_argument, str_eq,
}
use mathlib.Core.Path.{ap₂}
use ps.Hash.{
  Algorithm, crc32, md5, sha1, sha256, sha512, hash_max, Hash, hash_crc32, mix_loop, word_bytes,
  mix, hash_md5, sha256_fold, hash_sha256, hash_size, hash_compute, md5_words, sha256_words,
  overlay, hash_compare,
}

-- The algorithms that the `switch` of ps14_hash_compute has a case for.
abbrev pub is_supported : Algorithm → Bool
is_supported crc32 = true
is_supported md5 = true
is_supported sha256 = true
is_supported _ = false

abbrev pub has_bytes : Option (List ℕ) → Bool
has_bytes none = false
has_bytes (some []) = false
has_bytes (some (x ∷ d)) = true

-- The digest that an algorithm gives to a buffer, with no regard to the union that holds it.
unfoldable pub digest_of : Algorithm → List ℕ → List ℕ
digest_of crc32 d = word_bytes (hash_crc32 d 0 ∷ [])
digest_of md5 d = hash_md5 d
digest_of sha256 d = hash_sha256 d
digest_of _ d = []

length-word_bytes : (ws : List ℕ) → length (word_bytes ws) ≡ 4 * length ws
unfolding word_bytes
length-word_bytes [] = omega arith
length-word_bytes (w ∷ ws) = omega (arith, length-word_bytes ws)

length-mix_loop : (n i : ℕ) (d h : List ℕ) → length (mix_loop n i d h) ≡ length h
unfolding mix_loop
length-mix_loop n i [] h = refl
length-mix_loop n i (x ∷ d) h =
    length-mix_loop n (i + 1) d (set h (i % n) (mix (get_or h (i % n) 0) x))
    ∙ length-set h (i % n) (mix (get_or h (i % n) 0) x)

length-sha256_fold : (n i : ℕ) (h : List ℕ) → length (sha256_fold n i h) ≡ length h
unfolding sha256_fold
length-sha256_fold zero i h = refl
length-sha256_fold (suc n) i h =
    length-sha256_fold n (i + 1)
      (set h i (bit_xor (get_or h i 0) (get_or h ((i + 1) % 8) 0 * 2 ^ 9 % 2 ^ 32)))
    ∙ length-set h i (bit_xor (get_or h i 0) (get_or h ((i + 1) % 8) 0 * 2 ^ 9 % 2 ^ 32))

-- A digest has the length that ps14_hash_size states for a supported algorithm.
length-digest_of :
    (a : Algorithm) (d : List ℕ) → is_supported a ≡ true → length (digest_of a d) ≡ hash_size a
unfolding digest_of hash_size hash_md5 hash_sha256
length-digest_of crc32 d s = length-word_bytes (hash_crc32 d 0 ∷ [])
length-digest_of md5 d s =
    omega (arith, length-word_bytes (mix_loop 4 0 d md5_words), length-mix_loop 4 0 d md5_words)
length-digest_of sha256 d s = omega (
  arith,
  length-word_bytes (sha256_fold 8 0 (mix_loop 8 0 d sha256_words)),
  length-sha256_fold 8 0 (mix_loop 8 0 d sha256_words),
  length-mix_loop 8 0 d sha256_words,
)
length-digest_of sha1 d s = cc
length-digest_of sha512 d s = cc
length-digest_of hash_max d s = cc

pub length-hash_sha256 : (d : List ℕ) → length (hash_sha256 d) ≡ 32
length-hash_sha256 d = unfold digest_of hash_size in length-digest_of sha256 d refl

take-append : (n : ℕ) (a b : List ℕ) → length a ≡ n → take n (a ++ b) ≡ a
take-append zero [] b h = refl
take-append zero (x ∷ a) b h = absurd (omega arith)
take-append (suc n) [] b h = absurd (omega arith)
take-append (suc n) (x ∷ a) b h = ap (◌∷◌ x) (take-append n a b (omega arith))

overlaid :
    (a : Algorithm) (x : ℕ) (d : List ℕ) (h : Hash)
    → is_supported a ≡ true
    → take (hash_size a) (overlay (digest_of a (x ∷ d)) h.digest) ≡ digest_of a (x ∷ d)
overlaid a x d h s =
    take-append (hash_size a) (digest_of a (x ∷ d)) (drop (length (digest_of a (x ∷ d))) h.digest)
      (length-digest_of a (x ∷ d) s)

-- ps14_hash_compute succeeds on a supported algorithm and a buffer that holds bytes, and refuses
-- every other call as an invalid argument.
pub hash_compute_outcome :
    (a : Algorithm) (buffer : Option (List ℕ)) (h : Hash)
    → (hash_compute a buffer h).0
      ≡ (if is_supported a && has_bytes buffer then success else invalid_argument)
unfolding hash_compute
hash_compute_outcome a none h = ground arith
hash_compute_outcome a (some []) h = ground arith
hash_compute_outcome a (some (x ∷ d)) h = ground arith

-- After a success the hash carries the algorithm, and its union begins with the digest.
pub hash_compute_digest :
    (a : Algorithm) (x : ℕ) (d : List ℕ) (h : Hash)
    → is_supported a ≡ true
    → let k = (hash_compute a (some (x ∷ d)) h).1 in
      (k.algorithm ≡ a) × (take (hash_size a) k.digest ≡ digest_of a (x ∷ d))
unfolding hash_compute digest_of
hash_compute_digest crc32 x d h s = (refl, overlaid crc32 x d h s)
hash_compute_digest md5 x d h s = (refl, overlaid md5 x d h s)
hash_compute_digest sha256 x d h s = (refl, overlaid sha256 x d h s)
hash_compute_digest sha1 x d h s = cc
hash_compute_digest sha512 x d h s = cc
hash_compute_digest hash_max x d h s = cc

pub hash_compare_same :
    (a : Algorithm) (h k : Hash)
    → h.algorithm ≡ a
    → k.algorithm ≡ a
    → hash_compare h k
      ≡ (is_supported a && str_eq (take (hash_size a) h.digest) (take (hash_size a) k.digest))
unfolding hash_compare hash_size
hash_compare_same crc32 h k p q = rw (p, q)
hash_compare_same md5 h k p q = rw (p, q)
hash_compare_same sha1 h k p q = rw (p, q)
hash_compare_same sha256 h k p q = rw (p, q)
hash_compare_same sha512 h k p q = rw (p, q)
hash_compare_same hash_max h k p q = rw (p, q)

hash_compute_algorithm :
    (a : Algorithm) (x : ℕ) (d : List ℕ) (h : Hash)
    → (hash_compute a (some (x ∷ d)) h).1.algorithm ≡ a
unfolding hash_compute
hash_compute_algorithm crc32 x d h = refl
hash_compute_algorithm md5 x d h = refl
hash_compute_algorithm sha1 x d h = refl
hash_compute_algorithm sha256 x d h = refl
hash_compute_algorithm sha512 x d h = refl
hash_compute_algorithm hash_max x d h = refl

-- Two buffers hashed with one algorithm compare as equal exactly when the algorithm is supported and
-- the digests are the same, whatever the two hashes held before.
pub hash_compare-compute :
    (a : Algorithm) (x y : ℕ) (d e : List ℕ) (h k : Hash)
    → hash_compare (hash_compute a (some (x ∷ d)) h).1 (hash_compute a (some (y ∷ e)) k).1
      ≡ (is_supported a && str_eq (digest_of a (x ∷ d)) (digest_of a (y ∷ e)))
hash_compare-compute a x y d e h k =
    hash_compare_same a _ _ (hash_compute_algorithm a x d h) (hash_compute_algorithm a y e k)
    ∙ elim (Bool-cases (is_supported a)) [
      | inl s ↦
          ap₂ (λ u v. is_supported a && str_eq u v) (hash_compute_digest a x d h s).1
            (hash_compute_digest a y e k s).1
      | inr u ↦ ground arith
    ]
