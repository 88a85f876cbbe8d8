-- ===== src/Advanced/Overflow/Buffers.antt =====
-- The named buffers of src/core/advanced/buffer_overflow.c.
use ps.Base.{
  ℕ, ◌≤◌, ◌≡◌, ◌≢◌, true, some, arith, if◌then◌else◌, length, take-eq_self, success, CString,
  max_name, str_eq,
}
use ps.Chain.{find_first}
use ps.Advanced.Overflow.{Overflow, bof_register_buffer, bof_check_buffer}

-- After a successful registration under a name that fits its buffer, the check of a name answers yes for
-- this name, whatever the buffer then holds, and what it answered before for every other name.
pub bof_check_buffer-register :
    (tick buffer size : ℕ) (name other : CString) (o : Overflow)
    → length name ≤ max_name
    → buffer ≢ 0
    → size ≢ 0
    → let done = bof_register_buffer tick true (some name) buffer size o in
      (done.0 ≡ success)
      × (bof_check_buffer (some other) done.1
          ≡ (if str_eq name other then true else bof_check_buffer (some other) o))
unfolding bof_register_buffer bof_check_buffer find_first
bof_check_buffer-register tick buffer size name other o l bz sz =
    (ground arith, ground (arith, take-eq_self max_name name))
