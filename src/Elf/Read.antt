-- ===== src/Elf/Read.antt =====
-- `elf32_read_file` of kernel/elf32_loader.c: a whole file in a bounded buffer.
-- What `vfs_open` and `kmalloc` return are arguments; the log is left out. A kfile_read that has not
-- returned leaves the call unreturned, `none`.
use skez_os.Prelude.{
  ℕ, zero, suc, ◌+◌, ◌*◌, ◌%◌, ◌-◌, ◌^◌, Bool, true, Option, none, some, List, [], ◌++◌, length,
  ltb, ◌==◌, if◌then◌else◌, Status, ok, err, nomem, fault,
}
use skez_os.File.{Kfile, FileOps, kfile_read, kfile_close}
use skez_os.Elf.{Result, failed, done}

-- `ELF32_LOADER_MAX_FILE_BYTES`
abbrev pub max_file_bytes : ℕ
max_file_bytes = 64 * 1024

module _ {W : Type 0} (vtable : ℕ → FileOps W) where
  -- The loop, with the bytes read so far in `buf`; each round but the last reads a byte, so a round
  -- for each byte of the buffer and two more are enough.
  unfoldable pub read_rounds : ℕ → Kfile → (buf : List ℕ) → W → Option (Status × List ℕ × Kfile × W)
  read_rounds zero file buf w = none
  read_rounds (suc n) file buf w =
      let remaining = (max_file_bytes + 1 + 2 ^ 32 - length buf) % 2 ^ 32 in
      if remaining == 0
      then some (err nomem, buf, file, w)
      else elim (kfile_read vtable file true remaining w) [
        | none ↦ none
        | some (rc, xs, file', w') ↦ elim rc [
          | err e ↦ some (err e, buf, file', w')
          | ok ↦
              if length xs == 0
              then some (ok, buf, file', w')
              else read_rounds n file' (buf ++ xs) w'
        ]
      ]

  -- What follows the loop: the test of the size, and the closing of the file.
  unfoldable pub read_end : Status → (buf : List ℕ) → Kfile → W → Result (List ℕ) × W
  read_end (err e) buf file w = (failed e, (kfile_close vtable file w).2)
  read_end ok buf file w =
      let (rc, file', w') = kfile_close vtable file w in
      if ltb max_file_bytes (length buf)
      then (failed nomem, w')
      else elim rc [ err e ↦ (failed fault, w') | ok ↦ (done buf, w') ]

  unfoldable pub elf32_read_file :
      (open_status : Status)
      → (file : Kfile) → (allocated : Bool) → W
      → Option (Result (List ℕ) × W)
  elf32_read_file (err e) file allocated w = some (failed e, w)
  elf32_read_file ok file allocated w =
      if allocated
      then elim (read_rounds (max_file_bytes + 3) file [] w) [
        | none ↦ none
        | some (rc, buf, file', w') ↦ some (read_end rc buf file' w')
      ]
      else some (failed nomem, (kfile_close vtable file w).2)
