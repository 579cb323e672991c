-- ===== src/Uaccess.antt =====
-- kernel/uaccess.c: copies between the kernel and the memory of the current user task.
-- A kernel buffer is the list of its bytes, none for NULL.
pub mod Copies
use skez_os.Prelude.{
  ℕ, zero, suc, ◌+◌, ◌-◌, ◌%◌, ◌^◌, Bool, true, false, not, Option, none, some, List, [], ◌∷◌, map,
  ltb, leb, ◌==◌, if◌then◌else◌, Status, ok, err, inval, fault,
}
use skez_os.Elf.Load.{Memory, copy_bytes}
use skez_os.Sched.{Sched}
use skez_os.Sched.User.{sched_current_user_range_ok}

unfoldable pub uaccess_user_range_ok : (addr len : ℕ) → Sched → Bool
unfolding sched_current_user_range_ok
uaccess_user_range_ok addr len s = sched_current_user_range_ok addr len s

-- `len` bytes of memory from `addr` on.
abbrev pub load_bytes : (addr len : ℕ) → Memory → List ℕ
load_bytes addr zero m = []
load_bytes addr (suc len) m = m addr ∷ load_bytes (addr + 1) len m

-- The status and the bytes that are copied to `dst`; `has_dst` is that `dst` is not NULL.
unfoldable pub uaccess_copy_from_user :
    (has_dst : Bool) (src_addr len : ℕ) → Sched → Memory → Status × List ℕ
unfolding uaccess_user_range_ok
uaccess_copy_from_user has_dst src_addr len s m =
    if len == 0
    then (ok, [])
    else if not has_dst
    then (err inval, [])
    else if not (uaccess_user_range_ok src_addr len s)
    then (err fault, [])
    else (ok, load_bytes src_addr len m)

-- The status and the memory.
unfoldable pub uaccess_copy_to_user :
    (dst_addr : ℕ) (src : Option (List ℕ)) (len : ℕ) → Sched → Memory → Status × Memory
unfolding uaccess_user_range_ok
uaccess_copy_to_user dst_addr src len s m = if len == 0 then (ok, m) else elim src [
  | none ↦ (err inval, m)
  | some bytes ↦
      if uaccess_user_range_ok dst_addr len s
      then (ok, copy_bytes dst_addr bytes 0 len m)
      else (err fault, m)
]
