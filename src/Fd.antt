-- ===== src/Fd.antt =====
-- kernel/proc_fd.c: the table of open file descriptors of a process.
-- `*out_file` points at the slot of the descriptor that an operation returns, so it is not returned
-- beside it. Tables, source files and out-parameters are not NULL.
pub mod Place
pub mod Branches
pub mod Ops
pub mod Whole
pub mod CloseAll
pub mod TableClone
pub mod Owners
pub mod Ownership
use skez_os.Prelude.{
  ℕ, zero, suc, ◌+◌, Bool, true, false, Option, none, some, List, [], ◌∷◌, ltb, ◌==◌, if◌then◌else◌,
  get_or, set, replicate, length, Status, ok, err, inval, noent, nomem,
}
use skez_os.File.{Kfile, FileOps, kfile_reset, kfile_clone, kfile_close}

-- `struct proc_fd_slot`
pub record Slot : Type 0 where
  pub in_use : Bool
  pub file : Kfile

-- `struct proc_fd_table`
abbrev pub Table : Type 0
Table = List Slot

-- `PROC_FD_MAX`
abbrev pub fd_max : ℕ
fd_max = 16

abbrev pub unused : Slot
unused = record {
  in_use = false;
  file = record { ops = none; node = 0; backend_private = 0; offset = 0; flags = 0 };
}

abbrev pub in_slot : Kfile → Slot
in_slot f = record { in_use = true; file = f }

unfoldable pub proc_fd_table_init : Table
proc_fd_table_init = replicate fd_max unused

-- `none` is -KERR_INVAL.
unfoldable pub proc_fd_slot_for : Table → (fd : ℕ) → Option Slot
proc_fd_slot_for table fd = if ltb fd fd_max then some (get_or table fd unused) else none

unfoldable pub proc_fd_get : Table → (fd : ℕ) → Status × Option Kfile
unfolding proc_fd_slot_for
proc_fd_get table fd = elim (proc_fd_slot_for table fd) [
  | none ↦ (err inval, none)
  | some slot ↦ if slot.in_use then (ok, some slot.file) else (err noent, none)
]

-- The loop of `proc_fd_alloc`: the first unused slot from `fd_min` on takes the file.
unfoldable pub place : (fd_min : ℕ) → Kfile → Table → Option (ℕ × Table)
place fd_min f [] = none
place (suc fd_min) f (s ∷ t) = elim (place fd_min f t) [
  | none ↦ none
  | some (fd, t') ↦ some (suc fd, s ∷ t')
]
place zero f (s ∷ t) =
    let later : Option (ℕ × Table) = elim (place zero f t) [
      | none ↦ none
      | some (fd, t') ↦ some (suc fd, s ∷ t')
    ] in
    if s.in_use then later else some (0, in_slot f ∷ t)

module _ {W : Type 0} (vtable : ℕ → FileOps W) where
  unfoldable pub proc_fd_install : Table → (fd : ℕ) → Kfile → W → Status × Table × W
  unfolding proc_fd_slot_for
  proc_fd_install table fd src w = elim (proc_fd_slot_for table fd) [
    | none ↦ (err inval, table, w)
    | some slot ↦
        if slot.in_use
        then (err inval, table, w)
        else let (rc, cloned, w') = kfile_clone vtable src slot.file w in
          elim rc [ ok ↦ (ok, set table fd (in_slot cloned), w') | err e ↦ (err e, table, w') ]
  ]

  -- What follows the clone in `proc_fd_alloc`.
  unfoldable pub alloc_cloned : Table → (fd_min : ℕ) → Kfile → W → Status × ℕ × Table × W
  unfolding place
  alloc_cloned table fd_min cloned w = elim (place fd_min cloned table) [
    | some (fd, table') ↦ (ok, fd, table', w)
    | none ↦ (err nomem, 0, table, (kfile_close vtable cloned w).2)
  ]

  -- The status, `*out_fd`, the table and the backends.
  unfoldable pub proc_fd_alloc : Table → (fd_min : ℕ) → Kfile → W → Status × ℕ × Table × W
  unfolding alloc_cloned
  proc_fd_alloc table fd_min src w =
      if ltb fd_min fd_max
      then (let (rc, cloned, w') = kfile_clone vtable src src w in
          elim rc [ ok ↦ alloc_cloned table fd_min cloned w' | err e ↦ (err e, 0, table, w') ])
      else (err inval, 0, table, w)

  -- A close that fails leaves the slot in use, with the file as the backend left it.
  unfoldable pub proc_fd_close : Table → (fd : ℕ) → W → Status × Table × W
  unfolding proc_fd_slot_for
  proc_fd_close table fd w = elim (proc_fd_slot_for table fd) [
    | none ↦ (err inval, table, w)
    | some slot ↦
        if slot.in_use
        then (let (rc, file, w') = kfile_close vtable slot.file w in
            elim rc [
              | ok ↦ (ok, set table fd unused, w')
              | err e ↦ (err e, set table fd (in_slot file), w')
            ])
        else (err noent, table, w)
  ]

  unfoldable pub proc_fd_dup : Table → (oldfd fd_min : ℕ) → W → Status × ℕ × Table × W
  unfolding proc_fd_slot_for proc_fd_alloc
  proc_fd_dup table oldfd fd_min w = elim (proc_fd_slot_for table oldfd) [
    | none ↦ (err inval, 0, table, w)
    | some old_slot ↦
        if old_slot.in_use
        then proc_fd_alloc table fd_min old_slot.file w
        else (err noent, 0, table, w)
  ]

  -- What follows the clone in `proc_fd_dup2`.
  unfoldable pub dup2_cloned : Table → (newfd : ℕ) → Slot → Kfile → W → Status × Table × W
  dup2_cloned table newfd new_slot cloned w =
      if new_slot.in_use
      then (let (rc, file, w') = kfile_close vtable new_slot.file w in
          elim rc [
            | ok ↦ (ok, set table newfd (in_slot cloned), w')
            | err e ↦ (err e, set table newfd (in_slot file), (kfile_close vtable cloned w').2)
          ])
      else (ok, set table newfd (in_slot cloned), w)

  unfoldable pub proc_fd_dup2 : Table → (oldfd newfd : ℕ) → W → Status × Table × W
  unfolding proc_fd_slot_for dup2_cloned
  proc_fd_dup2 table oldfd newfd w = elim (proc_fd_slot_for table oldfd) [
    | none ↦ (err inval, table, w)
    | some old_slot ↦ elim (proc_fd_slot_for table newfd) [
      | none ↦ (err inval, table, w)
      | some new_slot ↦
          if old_slot.in_use
          then if oldfd == newfd
            then (ok, table, w)
            else (let (rc, cloned, w') = kfile_clone vtable old_slot.file old_slot.file w in
                elim rc [
                  | ok ↦ dup2_cloned table newfd new_slot cloned w'
                  | err e ↦ (err e, table, w')
                ])
          else (err noent, table, w)
    ]
  ]

  -- The loop of `proc_fd_close_all`: how many closed without an error, and the emptied slots.
  unfoldable pub close_slots : List Slot → W → ℕ × List Slot × W
  close_slots [] w = (0, [], w)
  close_slots (s ∷ t) w = elim s.in_use [
    | false ↦ let (n, t', w') = close_slots t w in (n, s ∷ t', w')
    | true ↦
        let (rc, file, w') = kfile_close vtable s.file w in
        let (n, t', w'') = close_slots t w' in
        (elim rc [ ok ↦ n + 1 | err e ↦ n ], unused ∷ t', w'')
  ]

  unfoldable pub proc_fd_close_all : Table → W → ℕ × Table × W
  unfolding close_slots
  proc_fd_close_all table w = close_slots table w

  -- The loop of `proc_fd_table_clone` over the source's slots, with what it puts in `dst`.
  unfoldable pub clone_slots : List Slot → W → Status × List Slot × W
  clone_slots [] w = (ok, [], w)
  clone_slots (s ∷ t) w = elim s.in_use [
    | false ↦ let (rc, t', w') = clone_slots t w in (rc, unused ∷ t', w')
    | true ↦
        let (rc, file, w') = kfile_clone vtable s.file unused.file w in
        elim rc [
          | ok ↦ let (rc', t', w'') = clone_slots t w' in (rc', in_slot file ∷ t', w'')
          | err e ↦ (err e, unused ∷ replicate (length t) unused, w')
        ]
  ]

  -- The status, `*dst`, and the backends: on an error what was cloned is closed again.
  unfoldable pub proc_fd_table_clone : Table → W → Status × Table × W
  unfolding clone_slots proc_fd_close_all
  proc_fd_table_clone src w =
      let (rc, dst, w') = clone_slots src w in
      elim rc [
        | ok ↦ (ok, dst, w')
        | err e ↦ (err e, (proc_fd_close_all dst w').1, (proc_fd_close_all dst w').2)
      ]
