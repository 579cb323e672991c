-- ===== src/Sched/User.antt =====
-- kernel/sched.c: the user part of a task: its memory, its command line and its working directory.
-- Memory maps an address to its byte.
use skez_os.Prelude.{
  ℕ, ◌+◌, ◌-◌, ◌%◌, ◌^◌, Bool, true, false, not, ◌&&◌, ◌||◌, Option, none, some, List, [], ◌∷◌,
  ◌++◌, ltb, leb, ◌==◌, if◌then◌else◌, take, drop, Status, ok, err, inval, fault, notsup,
}
use skez_os.Elf.Load.{Memory, copy_bytes}
use skez_os.Sched.{task_unused, Task, UserCtx, Sched, in_state, task_at, put_task}

-- `SCHED_CMDLINE_MAX`, `SCHED_CWD_MAX`
abbrev pub cmdline_max : ℕ
cmdline_max = 128

abbrev pub cwd_max : ℕ
cwd_max = 96

unfoldable pub sched_range_ok : (addr len base size : ℕ) → Bool
sched_range_ok addr len base size =
    if len == 0
    then true
    else if size == 0
    then false
    else if ltb addr base
    then false
    else if ltb ((addr + len) % 2 ^ 32) addr
    then false
    else if ltb ((base + size) % 2 ^ 32) base
    then false
    else leb ((addr + len) % 2 ^ 32) ((base + size) % 2 ^ 32)

unfoldable pub sched_ranges_overlap : (base_a size_a base_b size_b : ℕ) → Bool
sched_ranges_overlap base_a size_a base_b size_b =
    if (size_a == 0) || (size_b == 0)
    then false
    else let end_a = (base_a + size_a) % 2 ^ 32 in
      let end_b = (base_b + size_b) % 2 ^ 32 in
      if ltb end_a base_a || ltb end_b base_b then true else ltb base_a end_b && ltb base_b end_a

abbrev pub with_user : (UserCtx → UserCtx) → Task → Task
with_user f t = record t { user = f t.user }

-- The user part of the current task, changed.
unfoldable pub on_current : (Task → Task) → Sched → Sched
on_current f s = elim s.current [ none ↦ s | some c ↦ put_task c (f (task_at s c)) s ]

unfoldable pub sched_set_current_user_layout :
    (image_base image_size stack_base stack_size : ℕ) → Sched → Status × Sched
unfolding on_current
sched_set_current_user_layout image_base image_size stack_base stack_size s = elim s.current [
  | none ↦ (err inval, s)
  | some c ↦
      if (not (image_size == 0) && ltb ((image_base + image_size) % 2 ^ 32) image_base)
        || (not (stack_size == 0) && ltb ((stack_base + stack_size) % 2 ^ 32) stack_base)
      then (err inval, s)
      else (
        ok,
        on_current
            (with_user (λ u. record u {
              image_base = image_base;
              image_size = image_size;
              stack_base = stack_base;
              stack_size = stack_size;
            }))
            s,
      )
]

-- The tests on the current task of `sched_current_user_range_ok`.
unfoldable pub task_range_ok : (addr len : ℕ) → Task → Bool
unfolding sched_range_ok
task_range_ok addr len t =
    t.user_mode
    && (sched_range_ok addr len t.user.image_base t.user.image_size
        || sched_range_ok addr len t.user.stack_base t.user.stack_size)

abbrev pub test_current : Option ℕ → (Task → Bool) → Sched → Bool
test_current none test s = false
test_current (some c) test s = test (task_at s c)

unfoldable pub sched_current_user_range_ok : (addr len : ℕ) → Sched → Bool
unfolding task_range_ok
sched_current_user_range_ok addr len s =
    (len == 0) || test_current s.current (task_range_ok addr len) s

-- `len` bytes of `src` and a NUL at the start of the buffer.
abbrev pub put_string : (len : ℕ) (src buffer : List ℕ) → List ℕ
put_string len src buffer = take len src ++ (0 ∷ drop (len + 1) buffer)

unfoldable pub set_cmdline : (c : ℕ) (src : Option (List ℕ)) (len : ℕ) → Sched → Status × Sched
set_cmdline c none len s =
    if len == 0
    then (
      ok,
      put_task c
          (with_user (λ u. record u { cmdline_len = 0; cmdline = put_string 0 [] u.cmdline })
            (task_at s c))
          s,
    )
    else (err inval, s)
set_cmdline c (some bytes) len s = if leb cmdline_max len then (err inval, s) else (
  ok,
  put_task c
      (with_user (λ u. record u { cmdline_len = len; cmdline = put_string len bytes u.cmdline })
        (task_at s c))
      s,
)

unfoldable pub sched_set_current_task_cmdline :
    (src : Option (List ℕ)) (len : ℕ) → Sched → Status × Sched
unfolding set_cmdline
sched_set_current_task_cmdline src len s = elim s.current [
  | none ↦ (err inval, s)
  | some c ↦ set_cmdline c src len s
]

unfoldable pub set_cwd : (c : ℕ) (src : Option (List ℕ)) (len : ℕ) → Sched → Status × Sched
set_cwd c none len s = (err inval, s)
set_cwd c (some bytes) len s = if (len == 0) || leb cwd_max len then (err inval, s) else (
  ok,
  put_task c
      (with_user (λ u. record u { cwd_len = len; cwd = put_string len bytes u.cwd }) (task_at s c))
      s,
)

unfoldable pub sched_set_current_task_cwd :
    (src : Option (List ℕ)) (len : ℕ) → Sched → Status × Sched
unfolding set_cwd
sched_set_current_task_cwd src len s = elim s.current [
  | none ↦ (err inval, s)
  | some c ↦ set_cwd c src len s
]

-- What is copied of a string of `n` bytes, with room for a NUL.
abbrev pub copied : (n room : ℕ) → ℕ
copied n room = if ltb n (room - 1) then n else room - 1

abbrev pub store_byte : (addr byte : ℕ) → Memory → Memory
store_byte addr byte m a = if a == addr then byte else m a

-- The status, `*out_len` and the memory.
unfoldable pub copy_string_to_user :
    (text : UserCtx → List ℕ) (size : UserCtx → ℕ) (dst_addr dst_len : ℕ)
    → Sched
    → Memory
    → Status × ℕ × Memory
unfolding sched_current_user_range_ok
copy_string_to_user text size dst_addr dst_len s m = elim s.current [
  | none ↦ (err notsup, 0, m)
  | some c ↦
      if not (task_at s c).user_mode
      then (err notsup, 0, m)
      else if dst_len == 0
      then (ok, 0, m)
      else if not (sched_current_user_range_ok dst_addr dst_len s)
      then (err fault, 0, m)
      else let n = copied (size (task_at s c).user) dst_len in
        (ok, n, store_byte (dst_addr + n) 0 (copy_bytes dst_addr (text (task_at s c).user) 0 n m))
]

unfoldable pub sched_copy_current_task_cmdline_to_user :
    (dst_addr dst_len : ℕ) → Sched → Memory → Status × ℕ × Memory
unfolding copy_string_to_user
sched_copy_current_task_cmdline_to_user = copy_string_to_user (λ u. u.cmdline) (λ u. u.cmdline_len)

unfoldable pub sched_copy_current_task_cwd_to_user :
    (dst_addr dst_len : ℕ) → Sched → Memory → Status × ℕ × Memory
unfolding copy_string_to_user
sched_copy_current_task_cwd_to_user = copy_string_to_user (λ u. u.cwd) (λ u. u.cwd_len)

-- The status, `*out_len` and the buffer.
unfoldable pub sched_copy_current_task_cwd :
    (dst : List ℕ) (dst_cap : ℕ) → Sched → Status × ℕ × List ℕ
sched_copy_current_task_cwd dst dst_cap s =
    if dst_cap == 0 then (err inval, 0, dst) else elim s.current [
      | none ↦ (err notsup, 0, dst)
      | some c ↦
          if (task_at s c).user_mode
          then (let n = copied (task_at s c).user.cwd_len dst_cap in
              (ok, n, put_string n (task_at s c).user.cwd dst))
          else (err notsup, 0, dst)
    ]

-- A task's windows share an address with the image.
abbrev pub overlaps_task : (image_base image_size : ℕ) → Task → Bool
overlaps_task image_base image_size t =
    not (in_state t task_unused)
    && t.user_mode
    && (sched_ranges_overlap image_base image_size t.user.image_base t.user.image_size
        || sched_ranges_overlap image_base image_size t.user.stack_base t.user.stack_size)

-- The loop of `sched_user_image_range_available`.
unfoldable pub none_overlaps : (image_base image_size : ℕ) → List Task → Bool
unfolding sched_ranges_overlap
none_overlaps image_base image_size [] = true
none_overlaps image_base image_size (t ∷ ts) =
    let rest = none_overlaps image_base image_size ts in
    if overlaps_task image_base image_size t then false else rest

unfoldable pub sched_user_image_range_available : (image_base image_size : ℕ) → Sched → Bool
unfolding none_overlaps
sched_user_image_range_available image_base image_size s =
    if (image_size == 0) || ltb ((image_base + image_size) % 2 ^ 32) image_base
    then false
    else none_overlaps image_base image_size s.tasks
