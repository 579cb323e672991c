-- ===== src/Tests/Users.antt =====
-- Runs of kernel/uaccess.c and of the range checks of kernel/sched.c, for one user task.
use skez_os.Prelude.{
  ℕ, zero, suc, ◌+◌, ◌^◌, ◌<◌, ◌≡◌, ◌≢◌, ◌↔◌, refl, true, false, some, [], ◌∷◌, arith, get_or, ok,
}
use skez_os.Elf.Load.{Memory}
use skez_os.Sched.{Task, Sched, task_at, zero_task, zero_user, task_running}
use skez_os.Sched.Spawn.{initial}
use skez_os.Sched.User.{sched_range_ok, sched_user_image_range_available}
use skez_os.Sched.Ranges.{
  IsWithin, sched_range_ok-IsWithin, WindowsFit, Apart, sched_user_image_range_available-Apart,
}
use skez_os.Uaccess.{uaccess_copy_from_user, uaccess_copy_to_user}
use skez_os.Uaccess.Copies.{
  IsUserByte, Words, uaccess_copy_to_user-IsUserByte, copy_to_user-copy_from_user,
}

abbrev user_task : Task
user_task = record zero_task {
  pid = 2;
  state = task_running;
  user_mode = true;
  user = record zero_user {
    image_base = 4194304;
    image_size = 4096;
    stack_base = 8388608;
    stack_size = 4096;
  };
}

abbrev one_user : Sched
one_user = record initial { tasks = user_task ∷ []; current = some 0 }

abbrev blank : Memory
blank a = 0

all-WindowsFit : (k : ℕ) → WindowsFit (get_or (user_task ∷ []) k zero_task)
all-WindowsFit zero = (omega arith, omega arith)
all-WindowsFit (suc k) = (omega arith, omega arith)

current-Words : (c : ℕ) → one_user.current ≡ some c → Words (task_at one_user c)
current-Words zero e = (omega arith, omega arith, omega arith, omega arith)
current-Words (suc c) e = (omega arith, omega arith, omega arith, omega arith)

sched_range_ok-IsWithin_example :
    (sched_range_ok 4194304 16 4194304 4096 ≡ true) ↔ IsWithin 4194304 16 4194304 4096
sched_range_ok-IsWithin_example =
    sched_range_ok-IsWithin 4194304 16 4194304 4096 (omega arith) (omega arith) (omega arith)
      (omega arith)

range_run : sched_range_ok 4294967295 1 0 4294967295 ≡ false
unfolding sched_range_ok
range_run = refl

sched_user_image_range_available-Apart_example :
    (sched_user_image_range_available 4198400 4096 one_user ≡ true) ↔ (
      (◌≢◌ {A = ℕ} 4096 0)
      × (4198400 + 4096 < 2 ^ 32)
      × ((k : ℕ) → Apart 4198400 4096 (task_at one_user k)))
sched_user_image_range_available-Apart_example =
    sched_user_image_range_available-Apart 4198400 4096 one_user (omega arith) (omega arith)
      all-WindowsFit

available_run : sched_user_image_range_available 4198400 4096 one_user ≡ true
unfolding sched_user_image_range_available
available_run = refl

taken_run : sched_user_image_range_available 4198399 4096 one_user ≡ false
unfolding sched_user_image_range_available
taken_run = refl

changed_byte : (uaccess_copy_to_user 4194304 (some (65 ∷ 66 ∷ [])) 2 one_user blank).1 4194305 ≢ 0
unfolding uaccess_copy_to_user
changed_byte e = omega (arith, e)

uaccess_copy_to_user-IsUserByte_example : IsUserByte one_user 4194305
uaccess_copy_to_user-IsUserByte_example =
    uaccess_copy_to_user-IsUserByte 4194304 2 (some (65 ∷ 66 ∷ [])) one_user blank (omega arith)
      (omega arith) current-Words 4194305 changed_byte

copied_ok : (uaccess_copy_to_user 4194304 (some (65 ∷ 66 ∷ [])) 2 one_user blank).0 ≡ ok
unfolding uaccess_copy_to_user
copied_ok = refl

copy_to_user-copy_from_user_example :
    uaccess_copy_from_user true 4194304 2 one_user
      (uaccess_copy_to_user 4194304 (some (65 ∷ 66 ∷ [])) 2 one_user blank).1
    ≡ (ok, 65 ∷ 66 ∷ [])
copy_to_user-copy_from_user_example =
    copy_to_user-copy_from_user 4194304 2 (65 ∷ 66 ∷ []) one_user blank refl copied_ok
