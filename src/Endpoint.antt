-- ===== src/Endpoint.antt =====
-- kernel/kpipe.c: the operations that an open pipe end offers to kernel/kfile.c.
-- The blocks that hold pipe states are cells of a heap; `kfree` leaves their bytes as they are and
-- clears `live`. What other tasks do in `kpipe_wait_once` is an argument: one function for each wait.
pub mod Refs
pub mod Life
pub mod Calls
pub mod Uses
use skez_os.Prelude.{
  ℕ, ◌-◌, Bool, true, false, not, ◌&&◌, ◌||◌, Option, none, some, List, [], ◌∷◌, ◌==◌,
  if◌then◌else◌, length, Status, ok, err, inval, nomem,
}
use skez_os.File.{
  Kfile, FileOps, Source, source_len, is_null, null, bytes, ReadResult, WriteResult, kfile_init,
}
use skez_os.Pipe.{
  Pipe, create_state, ReadRound, returned, waits, WriteRound, done, blocked, read_round,
  write_round, read_flag, write_flag, retain_refs, close_refs,
}

pub record PipeHeap : Type 0 where
  pub cell : ℕ → Pipe
  pub live : ℕ → Bool

abbrev pub update {ℓ} : {A : Type ℓ} → (ℕ → A) → ℕ → A → ℕ → A
update f a v b = if b == a then v else f b

abbrev pub store : ℕ → Pipe → PipeHeap → PipeHeap
store a p h = record h { cell = update h.cell a p }

-- `KFILE_PIPE_READ_ENDPOINT` and `KFILE_PIPE_WRITE_ENDPOINT`
abbrev pub read_endpoint : ℕ
read_endpoint = 1

abbrev pub write_endpoint : ℕ
write_endpoint = 2

-- The number of the table `g_kpipe_file_ops`.
abbrev pub kpipe_table : ℕ
kpipe_table = 1

-- `kpipe_create`, where `block` is what `kmalloc` returned: the read end and the write end.
unfoldable pub kpipe_create :
    (block : Option ℕ) → PipeHeap → Status × Option (Kfile × Kfile) × PipeHeap
unfolding kfile_init create_state
kpipe_create none h = (err nomem, none, h)
kpipe_create (some a) h = (
  ok,
  some (
    kfile_init 0 (some kpipe_table) a read_endpoint,
    kfile_init 0 (some kpipe_table) a write_endpoint,
  ),
  record { cell = update h.cell a create_state; live = update h.live a true },
)

unfoldable pub kpipe_retain : Kfile → PipeHeap → Status × Kfile × PipeHeap
unfolding retain_refs
kpipe_retain file h =
    let a = file.backend_private in
    if a == 0
    then (err inval, file, h)
    else (ok, file, store a (retain_refs file.flags (h.cell a)) h)

unfoldable pub kpipe_close : Kfile → PipeHeap → Status × Kfile × PipeHeap
unfolding close_refs
kpipe_close file h =
    let a = file.backend_private in
    if a == 0
    then (err inval, file, h)
    else let (p, free_state) = close_refs file.flags (h.cell a) in
      (
        ok,
        file,
        record {
          cell = update h.cell a p;
          live = if free_state then update h.live a false else h.live;
        },
      )

-- The loop of `kpipe_read` on the pipe at `a`; `none` while it waits for the next task switch.
unfoldable pub read_loop :
    List (PipeHeap → PipeHeap) → (len a : ℕ) → PipeHeap → Option (List ℕ × PipeHeap)
read_loop [] len a h =
    let (r, p) = read_round len (h.cell a) in
    elim r [ returned xs ↦ some (xs, store a p h) | waits ↦ none ]
read_loop (others ∷ env) len a h =
    let (r, p) = read_round len (h.cell a) in
    elim r [
      | returned xs ↦ some (xs, store a p h)
      | waits ↦ read_loop env len a (others (store a p h))
    ]

-- The loop of `kpipe_write`: the status, the bytes not written, and the heap.
unfoldable pub write_loop :
    List (PipeHeap → PipeHeap) → List ℕ → (a : ℕ) → PipeHeap → Option (Status × List ℕ × PipeHeap)
write_loop [] xs a h =
    let (r, left, p) = write_round xs (h.cell a) in
    elim r [ done rc ↦ some (rc, left, store a p h) | blocked _ ↦ none ]
write_loop (others ∷ env) xs a h =
    let (r, left, p) = write_round xs (h.cell a) in
    elim r [
      | done rc ↦ some (rc, left, store a p h)
      | blocked rest ↦ write_loop env rest a (others (store a p h))
    ]

-- The loop runs only where `src` is given, so NULL contributes no bytes.
abbrev pub source_bytes : Source → List ℕ
source_bytes (null n) = []
source_bytes (bytes xs) = xs

module _ (env : List (PipeHeap → PipeHeap)) where
  unfoldable pub kpipe_read : Kfile → (given : Bool) → (len : ℕ) → PipeHeap → ReadResult PipeHeap
  unfolding read_loop
  kpipe_read file given len h =
      if (file.backend_private == 0) || not (read_flag file.flags)
      then some (err inval, [], file, h)
      else if not given && not (len == 0)
      then some (err inval, [], file, h)
      else if len == 0
      then some (ok, [], file, h)
      else elim (read_loop env len file.backend_private h) [
        | none ↦ none
        | some (xs, h') ↦ some (ok, xs, file, h')
      ]

  unfoldable pub kpipe_write : Kfile → Source → PipeHeap → WriteResult PipeHeap
  unfolding write_loop
  kpipe_write file src h =
      if (file.backend_private == 0) || not (write_flag file.flags)
      then some (err inval, 0, file, h)
      else if is_null src && not (source_len src == 0)
      then some (err inval, 0, file, h)
      else if source_len src == 0
      then some (ok, 0, file, h)
      else elim (write_loop env (source_bytes src) file.backend_private h) [
        | none ↦ none
        | some (rc, left, h') ↦ some (rc, source_len src - length left, file, h')
      ]

  -- `g_kpipe_file_ops`
  unfoldable pub kpipe_file_ops : FileOps PipeHeap
  unfolding kpipe_read kpipe_write kpipe_retain kpipe_close
  kpipe_file_ops = record {
    read = some kpipe_read;
    write = some kpipe_write;
    retain = some kpipe_retain;
    close = some kpipe_close;
  }
