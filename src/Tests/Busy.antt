-- ===== src/Tests/Busy.antt =====
-- Runs of kernel/proc_fd.c over a backend that counts its open files and refuses to close some.
use skez_os.Prelude.{
  ℕ, ◌+◌, ◌-◌, ◌≡◌, refl, ap, ◌∙◌, ◌⊎◌, ◌≤◌, inl, inr, Bool-cases, true, false, none, some, ◌∷◌,
  arith, replicate, if◌then◌else◌, ◌==◌, ok, err, Errno, inval,
}
use skez_os.File.{Kfile, FileOps, kfile_reset, kfile_clone, kfile_close}
use skez_os.Fd.{Table, unused, in_slot, proc_fd_close, proc_fd_dup2}
use skez_os.Fd.Owners.{RefCounted, IsOwned, AllManaged, CloneCloses}
use skez_os.Fd.Ownership.{Room}
use skez_os.Fd.Ops.{proc_fd_close-IsOwned}
use skez_os.Fd.TableClone.{AllManaged-replicate, held-replicate}
use skez_os.Fd.Whole.{proc_fd_dup2-IsOwned}

-- A file with flags 1 is busy: its close fails.
abbrev counting : ℕ → FileOps ℕ
counting i = record {
  read = none;
  write = none;
  retain = some (λ f w. (ok, f, w + 1));
  close = some (λ f w. if f.flags == 1 then (err inval, f, w) else (ok, f, w - 1));
}

module _ (f d : Kfile) (w : ℕ) (m : f.ops ≡ some 0) where
  clone_run : kfile_clone counting f d w ≡ (ok, f, w + 1)
  unfolding kfile_clone
  clone_run = ground (arith, m)

  close_run : (f.flags == 1) ≡ false → kfile_close counting f w ≡ (ok, kfile_reset, w - 1)
  unfolding kfile_close
  close_run e = ground (arith, m, e)

  busy_run : (f.flags == 1) ≡ true → kfile_close counting f w ≡ (err inval, f, w)
  unfolding kfile_close
  busy_run e = ground (arith, m, e)

-- What a close leaves: one reference less, or the file and the count as they were.
close_ends :
    (f : Kfile) (w : ℕ)
    → f.ops ≡ some 0
    → (kfile_close counting f w ≡ (ok, kfile_reset, w - 1))
      ⊎ (kfile_close counting f w ≡ (err inval, f, w))
close_ends f w m = elim (Bool-cases (f.flags == 1)) [
  | inl e ↦ inr (busy_run f f w m e)
  | inr e ↦ inl (close_run f f w m e)
]

gives :
    (f : Kfile) (w : ℕ)
    → f.ops ≡ some 0
    → 1 ≤ w
    → (kfile_close counting f w).0 ≡ ok
    → (kfile_close counting f w).2 + 1 ≡ w
gives f w m le done = elim (close_ends f w m) [
  | inl e ↦ omega (arith, ap (λ x. x.2) e, le)
  | inr e ↦ absurd (ground (arith, ap (λ x. x.0) e, done))
]

fails :
    (f : Kfile) (w : ℕ) (c : Errno)
    → f.ops ≡ some 0
    → (kfile_close counting f w).0 ≡ err c
    → ((kfile_close counting f w).1 ≡ f) × ((kfile_close counting f w).2 ≡ w)
fails f w c m failed = elim (close_ends f w m) [
  | inl e ↦ absurd (ground (arith, ap (λ x. x.0) e, failed))
  | inr e ↦ (ap (λ x. x.1) e, ap (λ x. x.2) e)
]

clone_keeps : (f d : Kfile) (w : ℕ) → f.ops ≡ some 0 → (kfile_clone counting f d w).1.ops ≡ some 0
clone_keeps f d w m = ap (λ x. x.1.ops) (clone_run f d w m) ∙ m

no_failure :
    (f d : Kfile) (w : ℕ) (c : Errno) → f.ops ≡ some 0 → (kfile_clone counting f d w).0 ≡ err c → ⊥
no_failure f d w c m failed = ground (arith, ap (λ x. x.0) (clone_run f d w m), failed)

abbrev counted : RefCounted counting
counted = record {
  Key = Unit {0};
  refs = λ k w. w;
  holds = λ k f. 1;
  Managed = λ f. f.ops ≡ some 0;
  Sound = λ w. Unit {0};
  clone_keeps = λ f d w m done. clone_keeps f d w m;
  clone_holds = λ f d w k m done. refl;
  clone_takes = λ f d w k m room done. ap (λ x. x.2) (clone_run f d w m);
  clone_fails = λ f d w k c m failed. absurd (no_failure f d w c m failed);
  clone_sound = λ f d w m room u. tt;
  close_gives = λ f w k m le done. gives f w m le done;
  close_fails = λ f w k c m failed. ((fails f w c m failed).1, refl);
  close_keeps = λ f w c m failed. ap (λ x. x.ops) (fails f w c m failed).0 ∙ m;
  close_sound = λ f w m le u. tt;
}

abbrev counted_file : (flags : ℕ) → Kfile
counted_file flags = record {
  ops = some 0;
  node = 0;
  backend_private = 0;
  offset = 0;
  flags = flags;
}

-- Descriptor 1 is busy.
abbrev one_busy : Table
one_busy = in_slot (counted_file 0) ∷ in_slot (counted_file 1) ∷ replicate 14 unused

abbrev nobody : Unit {0} → ℕ
nobody k = 0

one_busy-IsOwned : IsOwned counted nobody one_busy 2
one_busy-IsOwned = record {
  size = refl;
  managed = ((λ _. refl), ((λ _. refl), none_managed 14));
  sound = tt;
  owns = λ k. omega (arith, held-replicate counted k 14);
}
  where
    none_managed : (n : ℕ) → AllManaged counted (replicate n unused)
    none_managed n = AllManaged-replicate counted n

plain-Room : Room counted nobody (counted_file 0) 2
plain-Room k = (omega arith, omega arith)

plain-closes : CloneCloses counted (counted_file 0) 2
unfolding kfile_clone kfile_close
plain-closes done w' = refl

proc_fd_close-IsOwned_example :
    IsOwned counted nobody
      (proc_fd_close counting one_busy 1 2).1
      (proc_fd_close counting one_busy 1 2).2
proc_fd_close-IsOwned_example = proc_fd_close-IsOwned counted nobody 1 one_busy-IsOwned

close_refused : proc_fd_close counting one_busy 1 2 ≡ (err inval, one_busy, 2)
unfolding proc_fd_close kfile_close
close_refused = refl

proc_fd_dup2-IsOwned_example :
    IsOwned counted nobody
      (proc_fd_dup2 counting one_busy 0 1 2).1
      (proc_fd_dup2 counting one_busy 0 1 2).2
proc_fd_dup2-IsOwned_example =
    proc_fd_dup2-IsOwned counted nobody 0 1 plain-Room plain-closes one_busy-IsOwned

dup2_undone : proc_fd_dup2 counting one_busy 0 1 2 ≡ (err inval, one_busy, 2)
unfolding proc_fd_dup2 kfile_clone kfile_close
dup2_undone = refl
