-- ===== src/Tests/Files.antt =====
-- Runs of `elf32_read_file` (kernel/elf32_loader.c) on a backend whose state is the rest of the file.
use skez_os.Prelude.{
  ℕ, ◌≤◌, ◌≡◌, ◌⊎◌, refl, true, false, Option, none, some, List, [], ◌∷◌, length, length-take, take,
  drop, ◌==◌, Bool-cases, inl, inr, Status, ok, err, notsup, arith,
}
use skez_os.File.{Kfile, FileOps, kfile_read}
use skez_os.Elf.{Result}
use skez_os.Elf.Read.{elf32_read_file}
use skez_os.Elf.Bounded.{Reads, Bounded, elf32_read_file-Bounded}

abbrev stream : ℕ → FileOps (List ℕ)
stream i = record {
  read = some (λ file given len w. some (ok, take len w, file, drop len w));
  write = none;
  retain = none;
  close = none;
}

abbrev opened : Kfile
opened = record { ops = some 2; node = 0; backend_private = 0; offset = 0; flags = 0 }

take-short : (n : ℕ) (xs : List ℕ) → length (take n xs) ≤ n
take-short n xs = omega (arith, length-take n xs)

stream-Reads : Reads stream
unfolding kfile_read
stream-Reads file len w = go file.ops refl (Bool-cases (len == 0))
  where
    go :
        (o : Option ℕ)
        → file.ops ≡ o
        → ((len == 0) ≡ true) ⊎ ((len == 0) ≡ false)
        → (rc : Status) × (xs : List ℕ) × (file' : Kfile) × (w' : List ℕ) × (kfile_read stream file
              true len w
            ≡ some (rc, xs, file', w'))
          × (length xs ≤ len)
    go o same (inl z) = (ok, [], file, w, ground (arith, z), omega arith)
    go none same (inr z) = (err notsup, [], file, w, ground (arith, z, same), omega arith)
    go (some i) same (inr z) =
        (ok, take len w, file, drop len w, ground (arith, z, same), take-short len w)

elf32_read_file-Bounded_example :
    (r : Result (List ℕ)) × (w' : List ℕ) × (elf32_read_file stream ok opened true (127 ∷ 69 ∷ [])
      ≡ some (r, w'))
    × Bounded stream r
elf32_read_file-Bounded_example =
    elf32_read_file-Bounded stream ok opened true (127 ∷ 69 ∷ []) stream-Reads
