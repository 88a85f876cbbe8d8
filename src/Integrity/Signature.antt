-- ===== src/Integrity/Signature.antt =====
-- src/core/integrity_check/code_signature.c as built for Windows. A file is the list of its bytes, `none`
-- if it cannot be opened. The layout of IMAGE_NT_HEADERS, which the system's headers define for 32 and
-- for 64 bits, is an argument.
pub mod Untouched
use ps.Base.{
  ℕ, ◌+◌, ◌*◌, ◌^◌, Bool, false, not, ◌&&◌, ◌||◌, Option, none, some, List, ltb, ◌==◌,
  if◌then◌else◌, length, get_or, take, drop,
}

-- sizeof(IMAGE_NT_HEADERS), and the offset in it of the directory entry of the certificates.
pub record Layout : Type 0 where
  pub size : ℕ
  pub directory : ℕ

-- A word of two and of four bytes.
unfoldable pub word16 : List ℕ → ℕ → ℕ
word16 bytes i = get_or bytes i 0 + get_or bytes (i + 1) 0 * 2 ^ 8

unfoldable pub word32 : List ℕ → ℕ → ℕ
unfolding word16
word32 bytes i = word16 bytes i + word16 bytes (i + 2) * 2 ^ 16

-- dos_header.e_magic == IMAGE_DOS_SIGNATURE, of a header that was read completely.
unfoldable pub is_dos : List ℕ → Bool
unfolding word16
is_dos dos = (length dos == 64) && (word16 dos 0 == 0x5A4D)

-- Where the next header is read: e_lfanew is signed, and a seek to a negative position fails and leaves
-- the position behind the first header.
unfoldable pub nt_position : List ℕ → ℕ
unfolding word32
nt_position dos = if ltb (word32 dos 60) (2 ^ 31) then word32 dos 60 else 64

-- The entry has an address and then a size.
unfoldable pub has_certificates : Layout → List ℕ → Bool
unfolding word32
has_certificates l nt =
    (length nt == l.size)
    && ((word32 nt 0 == 0x4550)
        && not ((word32 nt (l.directory + 4) == 0) || (word32 nt l.directory == 0)))

unfoldable pub code_signature_verify_pe : Layout → Option (List ℕ) → Bool
unfolding is_dos nt_position has_certificates
code_signature_verify_pe l none = false
code_signature_verify_pe l (some bytes) =
    let dos = take 64 bytes in
    if not (is_dos dos)
    then false
    else has_certificates l (take l.size (drop (nt_position dos) bytes))

-- `size` is what GetFileSize gives, `read` the number of bytes that were read, `decoded` the answer of
-- CryptQueryObject.
unfoldable pub code_signature_verify_crypto : Bool → Option ℕ → Bool → ℕ → Bool → Bool
code_signature_verify_crypto opened none alloc read decoded = false
code_signature_verify_crypto opened (some size) alloc read decoded =
    opened && (alloc && ((read == size) && decoded))
