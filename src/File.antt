-- ===== src/File.antt =====
-- kernel/kfile.c: open file objects, and the dispatch through their operation tables.
-- A table is known by a number, as the code knows it by its address; `Option ℕ` is the pointer
-- `ops`. The callers' objects (`file`, `src`, `dst`, the out-parameters) are not NULL.
use skez_os.Prelude.{
  ℕ, Bool, true, false, not, ◌&&◌, Option, none, some, List, [], ◌==◌, if◌then◌else◌, length,
  Status, ok, err, inval, notsup,
}

-- `struct kfile`; the pointers `node` and `backend_private` are addresses, 0 for NULL.
pub record Kfile : Type 0 where
  pub ops : Option ℕ
  pub node : ℕ
  pub backend_private : ℕ
  pub offset : ℕ
  pub flags : ℕ

-- The `buf` and `len` of a write: the bytes, or NULL with a length.
pub data Source : Type 0 where
  null : ℕ → Source
  bytes : List ℕ → Source

abbrev pub source_len : Source → ℕ
source_len (null n) = n
source_len (bytes xs) = length xs

abbrev pub is_null : Source → Bool
is_null (null n) = true
is_null (bytes xs) = false

-- What `read` and `write` come to: `none` while the call has not returned.
-- The list is what was stored in `buf`, its length is `*out_read`; the number is `*out_written`.
abbrev pub ReadResult : Type 0 → Type 0
ReadResult W = Option (Status × List ℕ × Kfile × W)

abbrev pub WriteResult : Type 0 → Type 0
WriteResult W = Option (Status × ℕ × Kfile × W)

-- `struct kfile_ops`, over the state `W` of the backends; an entry may be NULL.
-- `read` is told whether `buf` is given, and `len`.
pub record FileOps (W : Type 0) : Type 0 where
  pub read : Option (Kfile → Bool → ℕ → W → ReadResult W)
  pub write : Option (Kfile → Source → W → WriteResult W)
  pub retain : Option (Kfile → W → Status × Kfile × W)
  pub close : Option (Kfile → W → Status × Kfile × W)

-- `kfile_reset`
unfoldable pub kfile_reset : Kfile
kfile_reset = record { ops = none; node = 0; backend_private = 0; offset = 0; flags = 0 }

unfoldable pub kfile_init : (node : ℕ) (ops : Option ℕ) (backend_private flags : ℕ) → Kfile
kfile_init node ops backend_private flags = record {
  ops = ops;
  node = node;
  backend_private = backend_private;
  offset = 0;
  flags = flags;
}

module _ {W : Type 0} (vtable : ℕ → FileOps W) where
  -- `file->ops && file->ops->…`
  abbrev pub read_op : Option ℕ → Option (Kfile → Bool → ℕ → W → ReadResult W)
  read_op none = none
  read_op (some i) = (vtable i).read

  abbrev pub write_op : Option ℕ → Option (Kfile → Source → W → WriteResult W)
  write_op none = none
  write_op (some i) = (vtable i).write

  abbrev pub retain_op : Option ℕ → Option (Kfile → W → Status × Kfile × W)
  retain_op none = none
  retain_op (some i) = (vtable i).retain

  abbrev pub close_op : Option ℕ → Option (Kfile → W → Status × Kfile × W)
  close_op none = none
  close_op (some i) = (vtable i).close

  unfoldable pub kfile_read : Kfile → Bool → ℕ → W → ReadResult W
  kfile_read file given len w =
      if not (len == 0) && not given
      then some (err inval, [], file, w)
      else if len == 0
      then some (ok, [], file, w)
      else elim (read_op file.ops) [
        | none ↦ some (err notsup, [], file, w)
        | some read ↦ read file given len w
      ]

  unfoldable pub kfile_write : Kfile → Source → W → WriteResult W
  kfile_write file src w =
      if not (source_len src == 0) && is_null src
      then some (err inval, 0, file, w)
      else if source_len src == 0
      then some (ok, 0, file, w)
      else elim (write_op file.ops) [
        | none ↦ some (err notsup, 0, file, w)
        | some write ↦ write file src w
      ]

  -- The status, `*dst`, and the backends.
  unfoldable pub kfile_clone : (src dst : Kfile) → W → Status × Kfile × W
  kfile_clone src dst w = elim (retain_op src.ops) [
    | none ↦ (ok, src, w)
    | some retain ↦
        let (rc, tmp, w') = retain src w in
        elim rc [ ok ↦ (ok, tmp, w') | err e ↦ (err e, dst, w') ]
  ]

  unfoldable pub kfile_close : Kfile → W → Status × Kfile × W
  unfolding kfile_reset
  kfile_close file w = elim (close_op file.ops) [
    | none ↦ (ok, kfile_reset, w)
    | some close ↦
        let (rc, file', w') = close file w in
        elim rc [ ok ↦ (ok, kfile_reset, w') | err e ↦ (err e, file', w') ]
  ]
