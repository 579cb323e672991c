-- ===== src/Elf/Bounded.antt =====
-- How `elf32_read_file` of kernel/elf32_loader.c ends.
use skez_os.Prelude.{
  ℕ, zero, suc, ◌+◌, ◌*◌, ◌%◌, ◌-◌, ◌^◌, ◌≤◌, ◌<◌, ◌≡◌, ◌≢◌, refl, sym, ap, ◌∙◌, Bool, true, false,
  Option, none, some, List, ◌++◌, length, length-append, [], ltb, ◌==◌, if◌then◌else◌, Status, ok,
  err, Errno, arith, Bool-cases, inl, inr, ◌⊎◌,
}
use skez_os.File.{Kfile, FileOps, kfile_read, kfile_close}
use skez_os.Elf.{Result, failed, done}
use skez_os.Elf.Read.{max_file_bytes, read_rounds, read_end, elf32_read_file}

status_cases : (s : Status) → (s ≡ ok) ⊎ ((e : Errno) × (s ≡ err e))
status_cases ok = inl refl
status_cases (err e) = inr (e, refl)

module _ {W : Type 0} (vtable : ℕ → FileOps W) where
  -- What kernel/kfile.h asks of a read: it returns, with at most the bytes asked for.
  abbrev pub Reads : Type 0
  Reads =
      (file : Kfile) (len : ℕ) (w : W)
      → (rc : Status) × (xs : List ℕ) × (file' : Kfile) × (w' : W) × (kfile_read vtable file true
            len w
          ≡ some (rc, xs, file', w'))
        × (length xs ≤ len)

  abbrev Returns : Option (Status × List ℕ × Kfile × W) → Type 0
  Returns o =
      (rc : Status) × (buf : List ℕ) × (file : Kfile) × (w : W) × (o ≡ some (rc, buf, file, w))

  abbrev remaining : List ℕ → ℕ
  remaining buf = (max_file_bytes + 1 + 2 ^ 32 - length buf) % 2 ^ 32

  module _ (n : ℕ) (file : Kfile) (buf : List ℕ) (w : W) where
    round-full : (remaining buf == 0) ≡ true → Returns (read_rounds vtable (suc n) file buf w)
    unfolding read_rounds
    round-full z = (err skez_os.Prelude.nomem, buf, file, w, rw (z, read_rounds))

    module _ (room : (remaining buf == 0) ≡ false) {xs : List ℕ} {file' : Kfile} {w' : W} where
      round-err :
          {e : Errno}
          → kfile_read vtable file true (remaining buf) w ≡ some (err e, xs, file', w')
          → Returns (read_rounds vtable (suc n) file buf w)
      unfolding read_rounds
      round-err {e} r = (err e, buf, file', w', rw (room, r, read_rounds))

      round-end :
          kfile_read vtable file true (remaining buf) w ≡ some (ok, xs, file', w')
          → (length xs == 0) ≡ true
          → Returns (read_rounds vtable (suc n) file buf w)
      unfolding read_rounds
      round-end r z = (ok, buf, file', w', rw (room, r, z, read_rounds))

      round-more :
          kfile_read vtable file true (remaining buf) w ≡ some (ok, xs, file', w')
          → (length xs == 0) ≡ false
          → read_rounds vtable (suc n) file buf w ≡ read_rounds vtable n file' (buf ++ xs) w'
      unfolding read_rounds
      round-more r z = rw (room, r, z, read_rounds)

  read_rounds-Returns :
      Reads
      → (n : ℕ) (file : Kfile) (buf : List ℕ) (w : W) → length buf ≤ max_file_bytes + 1
      → max_file_bytes + 1 < n + length buf
      → Returns (read_rounds vtable n file buf w)
  read_rounds-Returns reads zero file buf w le fuel = absurd (omega arith)
  read_rounds-Returns reads (suc n) file buf w le fuel = elim (Bool-cases (remaining buf == 0)) [
    | inl z ↦ round-full n file buf w z
    | inr room ↦
        let (rc, xs, file', w', r, short) = reads file (remaining buf) w in
        elim (status_cases rc) [
          | inr (e, s) ↦ round-err n file buf w room (r ∙ ap (λ c. some (c, xs, file', w')) s)
          | inl s ↦
              let r' = r ∙ ap (λ c. some (c, xs, file', w')) s in
              elim (Bool-cases (length xs == 0)) [
                | inl z ↦ round-end n file buf w room r' z
                | inr z ↦
                    let some_read : length xs ≢ 0 = ground arith in
                    rw (round-more n file buf w room r' z) (
                      read_rounds-Returns reads n file' (buf ++ xs) w'
                        (omega (arith, length-append buf xs))
                        (omega (arith, length-append buf xs, some_read)))
              ]
        ]
  ]

  read_end-bounded :
      (rc : Status) (buf : List ℕ) (file : Kfile) (w : W) (got : List ℕ)
      → (read_end vtable rc buf file w).0 ≡ done got
      → length got ≤ max_file_bytes
  unfolding read_end
  read_end-bounded (err e) buf file w got h = absurd (ground (arith, h))
  read_end-bounded ok buf file w got h = elim (Bool-cases (ltb max_file_bytes (length buf))) [
    | inl big ↦ absurd (ground (arith, h))
    | inr small ↦ elim (status_cases (kfile_close vtable file w).0) [
      | inr (e, s) ↦ absurd (ground (arith, h, s))
      | inl s ↦
          let same : buf ≡ got = ground (arith, h, s, small) in rw (← same) (ground (arith, small))
    ]
  ]

  file-read :
      (file : Kfile) (w : W) {rc : Status} {buf : List ℕ} {file' : Kfile} {w' : W}
      → read_rounds vtable (max_file_bytes + 3) file [] w ≡ some (rc, buf, file', w')
      → elf32_read_file vtable ok file true w ≡ some (read_end vtable rc buf file' w')
  unfolding elf32_read_file
  file-read file w r = rw (r, elf32_read_file)

  file-refused :
      (open_status : Status) (file : Kfile) (allocated : Bool) (w : W)
      → (open_status ≢ ok) ⊎ (allocated ≡ false)
      → (e : Errno) × (w' : W) × (elf32_read_file vtable open_status file allocated w
          ≡ some (failed e, w'))
  unfolding elf32_read_file
  file-refused (err e) file allocated w h = (e, w, refl)
  file-refused ok file true w h = absurd (ground (arith, h))
  file-refused ok file false w h = (skez_os.Prelude.nomem, (kfile_close vtable file w).2, refl)

  -- What reading a file comes to: an error, or at most `max_file_bytes` bytes.
  abbrev pub Bounded : Result (List ℕ) → Type 0
  Bounded r = (buf : List ℕ) → r ≡ done buf → length buf ≤ max_file_bytes

  -- Where every kfile_read returns, with at most the bytes that it was asked for, `elf32_read_file`
  -- returns, within the rounds that the model gives; and when it gives a buffer, the buffer holds at
  -- most 64 KiB.
  pub elf32_read_file-Bounded :
      (open_status : Status) (file : Kfile) (allocated : Bool) (w : W)
      → Reads
      → (r : Result (List ℕ)) × (w' : W) × (elf32_read_file vtable open_status file allocated w
          ≡ some (r, w'))
        × Bounded r
  elf32_read_file-Bounded (err c) file allocated w reads =
      let (e, w', h) =
        file-refused (err c) file allocated w (inl (λ s. absurd (ground (arith, s)))) in
      (failed e, w', h, λ buf d. absurd (ground (arith, d)))
  elf32_read_file-Bounded ok file false w reads =
      let (e, w', h) = file-refused ok file false w (inr refl) in
      (failed e, w', h, λ buf d. absurd (ground (arith, d)))
  elf32_read_file-Bounded ok file true w reads =
      let (rc, buf, file', w', r) =
        read_rounds-Returns reads (max_file_bytes + 3) file [] w (omega arith) (omega arith) in
      let out = read_end vtable rc buf file' w' in
      (out.0, out.1, file-read file w r, λ got h. read_end-bounded rc buf file' w' got h)
