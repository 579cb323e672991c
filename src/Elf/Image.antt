-- ===== src/Elf/Image.antt =====
-- What kernel/elf32_loader.c writes to memory when it loads an image.
use mathlib.Core.Path.{subst}
use skez_os.Prelude.{
  ℕ, ◌+◌, ◌≡◌, refl, sym, ap, ◌∙◌, inl, inr, true, false, Option, none, some, List, arith, ◌==◌,
  if◌then◌else◌, Bool-cases, Option-cases, Errno, inval, Status, ok, err, ◌⊎◌,
}
use skez_os.Elf.{
  Result, failed, done, Ehdr, Phdr, UserLayout, phdr_table, elf32_range_contains,
  elf32_validate_ehdr, elf32_collect_user_layout, ehdr_at_start,
}
use skez_os.Elf.Segments.{phdr_table-AllPhdrs}
use skez_os.Elf.Load.{
  Memory, within, zero_bytes, UserImage, load_loop, mark_regions, load_image, windows_ok, load_file,
  elf32_load_user_static_path,
}
use skez_os.Elf.Bytes.{image_byte, Outside, load_loop-Loaded}

Result-cases :
    {A : Type 0} (r : Result A) → ((e : Errno) × (r ≡ failed e)) ⊎ ((x : A) × (r ≡ done x))
Result-cases (failed e) = inl (e, refl)
Result-cases (done x) = inr (x, refl)

failed-done : {A : Type 0} {e : Errno} {x : A} → ¬ (failed e ≡ done x)
failed-done h = ground (arith, h)

mark_cases : (s : Status) → (s ≡ ok) ⊎ ((e : Errno) × (s ≡ err e))
mark_cases ok = inl refl
mark_cases (err e) = inr (e, refl)

module _ {P : Type 0} (mark : (base size : ℕ) → P → Status × P) (ib is sb ss : ℕ) where
  -- What loading does to memory: nothing outside the two windows, and when it succeeds the image of
  -- the file is there and the stack is zero.
  abbrev pub Writes : List Phdr → List ℕ → Memory → Result UserImage × Memory × P → Type 0
  Writes phs buf m out =
      ((a : ℕ) → within ib is a ≡ false → within sb ss a ≡ false → out.1 a ≡ m a)
      × ((u : UserImage)
          → out.0 ≡ done u
          → (a : ℕ)
          → out.1 a ≡ (
              if within sb ss a
              then 0
              else image_byte phs buf a (if within ib is a then 0 else m a)))

  module _ (h : Ehdr) (l : UserLayout) (buf : List ℕ) (m : Memory) (pg : P) where
    abbrev pub looped : Option ℕ × Memory
    looped = load_loop ib (ib + is) (phdr_table h buf) buf 0 (zero_bytes ib is m)

    image-refused :
        looped.0 ≡ none → load_image mark ib is sb ss h l buf m pg ≡ (failed inval, looped.1, pg)
    unfolding load_image
    image-refused q = rw (q, load_image)

    image-empty :
        {n : ℕ}
        → looped.0 ≡ some n
        → (n == 0) ≡ true
        → load_image mark ib is sb ss h l buf m pg ≡ (failed inval, looped.1, pg)
    unfolding load_image
    image-empty q z = rw (q, z, load_image)

    abbrev pub marked : Status × P
    marked = mark_regions mark ib is sb ss pg

    image-unmarked :
        {n : ℕ} {e : Errno}
        → looped.0 ≡ some n
        → (n == 0) ≡ false
        → marked.0 ≡ err e
        → load_image mark ib is sb ss h l buf m pg ≡ (failed e, zero_bytes sb ss looped.1, marked.1)
    unfolding load_image
    image-unmarked q z s = rw (q, z, s, load_image)

    abbrev pub image : UserImage
    image = record {
      entry_eip = h.e_entry;
      stack_top = sb + ss;
      image_base = l.image_base;
      image_size = l.image_size;
    }

    pub image-done :
        {n : ℕ}
        → looped.0 ≡ some n
        → (n == 0) ≡ false
        → marked.0 ≡ ok
        → load_image mark ib is sb ss h l buf m pg
          ≡ (done image, zero_bytes sb ss looped.1, marked.1)
    unfolding load_image
    image-done q z s = rw (q, z, s, load_image)

    load_image-Writes : Writes (phdr_table h buf) buf m (load_image mark ib is sb ss h l buf m pg)
    load_image-Writes =
        let (frame, bytes) =
          load_loop-Loaded ib (ib + is) (phdr_table h buf) buf 0 (zero_bytes ib is m)
            (phdr_table-AllPhdrs h buf) in
        let kept = λ (a : ℕ) (out : within ib is a ≡ false).
          frame a (outside a out) ∙ zero_bytes-outside a out in
        let stack = λ (a : ℕ) (out : within ib is a ≡ false) (off : within sb ss a ≡ false).
          zero_stack looped.1 a off ∙ kept a out in
        elim (Option-cases looped.0) [
          | inl q ↦ rw (image-refused q) ((λ a out _. kept a out), λ u d. absurd (failed-done d))
          | inr (n, q) ↦ elim (Bool-cases (n == 0)) [
            | inl z ↦ rw (image-empty q z) ((λ a out _. kept a out), λ u d. absurd (failed-done d))
            | inr z ↦ elim (mark_cases marked.0) [
              | inr (e, s) ↦ rw (image-unmarked q z s) (stack, λ u d. absurd (failed-done d))
              | inl s ↦ rw (image-done q z s) (
                stack,
                λ u d a.
                    ap (λ x. if within sb ss a then 0 else x)
                      (bytes (λ n. absurd (ground (arith, n, q))) a),
              )
            ]
          ]
        ]
      where
        outside : (a : ℕ) → within ib is a ≡ false → Outside ib (ib + is) a
        outside a out = ground (arith, out)

        zero_bytes-outside : (a : ℕ) → within ib is a ≡ false → zero_bytes ib is m a ≡ m a
        zero_bytes-outside a out = rw out

        zero_stack : (f : Memory) (a : ℕ) → within sb ss a ≡ false → zero_bytes sb ss f a ≡ f a
        zero_stack f a out = rw out

  module _ (buf : List ℕ) (m : Memory) (pg : P) where
    unwritten : (e : Errno) → Writes (phdr_table (ehdr_at_start buf) buf) buf m (failed e, m, pg)
    unwritten e = ((λ a _ _. refl), λ u d. absurd (failed-done d))

    file-unread :
        {e : Errno}
        → elf32_validate_ehdr buf ≡ failed e
        → load_file mark ib is sb ss buf m pg ≡ (failed e, m, pg)
    unfolding load_file
    file-unread v = rw (v, load_file)

    file-unfit :
        {h : Ehdr} {e : Errno}
        → elf32_validate_ehdr buf ≡ done h
        → elf32_collect_user_layout h buf ≡ failed e
        → load_file mark ib is sb ss buf m pg ≡ (failed e, m, pg)
    unfolding load_file
    file-unfit v c = rw (v, c, load_file)

    pub file-fit :
        {h : Ehdr} {l : UserLayout}
        → elf32_validate_ehdr buf ≡ done h
        → elf32_collect_user_layout h buf ≡ done l
        → load_file mark ib is sb ss buf m pg ≡ (
            if elf32_range_contains ib is l.image_base l.image_size
            then load_image mark ib is sb ss h l buf m pg
            else (failed inval, m, pg))
    unfolding load_file
    file-fit v c = rw (v, c, load_file)

    header_read : {h : Ehdr} → elf32_validate_ehdr buf ≡ done h → ehdr_at_start buf ≡ h
    unfolding elf32_validate_ehdr
    header_read v = ground (arith, v)

    load_file-Writes :
        Writes (phdr_table (ehdr_at_start buf) buf) buf m (load_file mark ib is sb ss buf m pg)
    load_file-Writes = elim (Result-cases (elf32_validate_ehdr buf)) [
      | inl (e, v) ↦ rw (file-unread v) (unwritten e)
      | inr (h, v) ↦ elim (Result-cases (elf32_collect_user_layout h buf)) [
        | inl (e, c) ↦ rw (file-unfit v c) (unwritten e)
        | inr (l, c) ↦ elim (Bool-cases (elf32_range_contains ib is l.image_base l.image_size)) [
          | inr f ↦ rw (file-fit v c, f) (unwritten inval)
          | inl f ↦
              rw (file-fit v c, f)
                (subst
                  (λ x. Writes (phdr_table x buf) buf m (load_image mark ib is sb ss h l buf m pg))
                  (sym (header_read v)) (load_image-Writes h l buf m pg))
        ]
      ]
    ]

    path-refused :
        windows_ok ib is sb ss ≡ false
        → elf32_load_user_static_path mark (done buf) ib is sb ss m pg ≡ (failed inval, m, pg)
    unfolding elf32_load_user_static_path
    path-refused w = rw (w, elf32_load_user_static_path)

    pub path-loaded :
        windows_ok ib is sb ss ≡ true
        → elf32_load_user_static_path mark (done buf) ib is sb ss m pg
          ≡ load_file mark ib is sb ss buf m pg
    unfolding elf32_load_user_static_path
    path-loaded w = rw (w, elf32_load_user_static_path)

    -- Loading the bytes of a file, whatever `elf32_load_user_static_path` returns, writes nothing
    -- outside the image window and the stack window. When it returns 0, the stack window holds zeros,
    -- and every other address holds what the loadable segments of the file's table put there, the
    -- later over the earlier: the file's bytes and then zeros up to `p_memsz`. Where no segment
    -- reaches, the image window holds zeros and the rest of memory what it held.
    pub elf32_load_user_static_path-Writes :
        Writes
          (phdr_table (ehdr_at_start buf) buf)
          buf
          m
          (elf32_load_user_static_path mark (done buf) ib is sb ss m pg)
    elf32_load_user_static_path-Writes = elim (Bool-cases (windows_ok ib is sb ss)) [
      | inr w ↦ rw (path-refused w) (unwritten inval)
      | inl w ↦ rw (path-loaded w) load_file-Writes
    ]
