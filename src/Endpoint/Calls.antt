-- ===== src/Endpoint/Calls.antt =====
-- Whole calls of `kpipe_read` and `kpipe_write` (kernel/kpipe.c), with the task switches in between.
use native.Mathlib.Decide.{dec_le, ℕ_discrete}
use skez_os.Prelude.{
  ℕ, ◌+◌, ◌-◌, ◌*◌, ◌≤◌, ◌≡◌, ◌≢◌, refl, sym, ap, ◌∙◌, ◌⊎◌, inl, inr, some, List, [], ◌∷◌, arith,
  length, length-append, ok, min,
}
use skez_os.Pipe.{Pipe, capacity, ReadRound, returned, waits, read_round, write_round}
use skez_os.Pipe.Fifo.{IsRing, contents, length-window}
use skez_os.Pipe.Rounds.{
  delivered, read_round-waits, read_round-count, read_round-order, write_round-full,
  write_round-fits, write_round-blocks, write_round-IsRing, read_round-IsRing, read_round-refs,
}
use skez_os.Endpoint.{PipeHeap, store, read_loop, write_loop}

-- What the other tasks do at a task switch keeps the pipe at `a` well formed, with a reader.
abbrev pub KeepsReader : ℕ → (PipeHeap → PipeHeap) → Type 0
KeepsReader a others =
    (h : PipeHeap)
    → IsRing (h.cell a)
    → IsRing ((others h).cell a) × ((others h).cell a).reader_refs ≢ 0

-- They empty the pipe.
abbrev pub Empties : ℕ → (PipeHeap → PipeHeap) → Type 0
Empties a others = (h : PipeHeap) → ((others h).cell a).used ≡ 0

abbrev pub AllOf : ((PipeHeap → PipeHeap) → Type 0) → List (PipeHeap → PipeHeap) → Type 0
AllOf P [] = Unit {0}
AllOf P (e ∷ es) = P e × AllOf P es

store-cell : (a : ℕ) (p : Pipe) (h : PipeHeap) → (store a p h).cell a ≡ p
store-cell a p h = ground arith

module _ (a : ℕ) where
  -- On a well-formed pipe with readers, where every task switch keeps the ring well formed with a
  -- reader and empties it, and there is a task switch for every 512 bytes beyond the room at first,
  -- the loop of `kpipe_write` returns 0 with no byte left to write, for any number of bytes.
  pub write_loop-completes :
      (env : List (PipeHeap → PipeHeap)) (xs : List ℕ) (h : PipeHeap)
      → IsRing (h.cell a)
      → (h.cell a).reader_refs ≢ 0
      → AllOf (KeepsReader a) env
      → AllOf (Empties a) env
      → length xs ≤ capacity - (h.cell a).used + capacity * length env
      → (left : List ℕ) × (h' : PipeHeap) × (write_loop env xs a h ≡ some (ok, left, h'))
        × (length left ≡ 0)
  unfolding write_loop
  write_loop-completes [] xs h r ne keep empty le =
      let f = write_round-fits xs r ne (omega arith) in
      (
        (write_round xs (h.cell a)).1,
        store a (write_round xs (h.cell a)).2 h,
        rw (f.0, write_loop) refl,
        f.1,
      )
  write_loop-completes (e ∷ es) xs h r ne keep empty le =
      elim (dec_le (length xs) (capacity - (h.cell a).used)) [
        | yes all ↦
            let f = write_round-fits xs r ne all in
            (
              (write_round xs (h.cell a)).1,
              store a (write_round xs (h.cell a)).2 h,
              rw (f.0, write_loop) refl,
              f.1,
            )
        | no some_left ↦
            let left : List ℕ = (write_round xs (h.cell a)).1 in
            let h1 : PipeHeap = store a (write_round xs (h.cell a)).2 h in
            let r1 : IsRing (h1.cell a) =
              rw (store-cell a (write_round xs (h.cell a)).2 h) (write_round-IsRing xs r) in
            let kept = keep.0 h1 r1 in
            let (left', h', returns, nothing) =
              write_loop-completes es left (e h1) kept.0 kept.1 keep.1 empty.1
                (omega (arith, empty.0 h1, write_round-full xs r ne, le)) in
            (left', h', rw (write_round-blocks xs r ne (omega arith), write_loop) returns, nothing)
      ]

  -- Each task switch leaves bytes in the pipe.
  abbrev pub Feeds : (PipeHeap → PipeHeap) → Type 0
  Feeds e = (h : PipeHeap) → IsRing ((e h).cell a) × ((e h).cell a).used ≢ 0

  ReadRound-cases : (r : ReadRound) → (r ≡ waits) ⊎ ((xs : List ℕ) × (r ≡ returned xs))
  ReadRound-cases waits = inl refl
  ReadRound-cases (returned xs) = inr (xs, refl)

  -- What a read may return from the heap that it ends in: some bytes, not more than were asked for,
  -- or none, and then the pipe is empty and has no writer left.
  pub record ReadOutcome (len : ℕ) (xs : List ℕ) (h' : PipeHeap) : Type 0 where
    pub short : length xs ≤ len
    pub end_of_stream : length xs ≡ 0 → ((h'.cell a).used ≡ 0) × ((h'.cell a).writer_refs ≡ 0)

  -- The pipe that a returning round leaves.
  round_rest :
      (len : ℕ) {p : Pipe} (xs : List ℕ)
      → IsRing p
      → (read_round len p).0 ≡ returned xs
      → (length xs ≡ min len p.used) × ((read_round len p).1.used + length xs ≡ p.used)
  round_rest len {p} xs r e =
      let p' : Pipe = (read_round len p).1 in
      let n : length (delivered (read_round len p).0) ≡ length xs =
        ap (λ q. length (delivered q)) e in
      let queue : length (delivered (read_round len p).0) + length (contents p')
          ≡ length (contents p) =
        sym (length-append (delivered (read_round len p).0) (contents p'))
        ∙ ap length (read_round-order len r) in
      omega (
        arith,
        n,
        queue,
        read_round-count len r,
        length-window p'.buf p'.head p'.used,
        length-window p.buf p.head p.used,
      )

  round_ends :
      (len : ℕ) {p : Pipe} (xs : List ℕ)
      → len ≢ 0
      → IsRing p
      → (read_round len p).0 ≡ returned xs
      → length xs ≡ 0
      → (p.used ≡ 0) × (p.writer_refs ≡ 0)
  round_ends len {p} xs ne r e z =
      let rest = round_rest len xs r e in
      let empty : p.used ≡ 0 = omega arith in
      elim (ℕ_discrete p.writer_refs 0) [
        | yes w ↦ (empty, w)
        | no w ↦
            let stuck : (read_round len p).0 ≡ waits =
              (read_round-waits len r).1 (omega arith, w) in
            absurd (cc)
      ]

  round_outcome :
      (len : ℕ) {p : Pipe} (xs : List ℕ) (h : PipeHeap)
      → len ≢ 0
      → IsRing p
      → (read_round len p).0 ≡ returned xs
      → ReadOutcome len xs (store a (read_round len p).1 h)
  round_outcome len {p} xs h ne r e = record {
    short = omega (arith, round_rest len xs r e);
    end_of_stream = λ z.
        let ends = round_ends len xs ne r e z in
        let refs = read_round-refs len r in
        rw (store-cell a (read_round len p).1 h)
          (omega (arith, round_rest len xs r e, ends), omega (arith, refs, ends));
  }

  -- Each task switch keeps the ring well formed.
  abbrev pub KeepsRing : (PipeHeap → PipeHeap) → Type 0
  KeepsRing e = (h : PipeHeap) → IsRing (h.cell a) → IsRing ((e h).cell a)

  -- On a well-formed pipe that every task switch keeps well formed, when the loop of `kpipe_read`
  -- returns from a read of at least one byte, it returns no more bytes than asked for; and where it
  -- returns none, the pipe is empty and has no writer left.
  pub read_loop-outcome :
      (env : List (PipeHeap → PipeHeap)) (len : ℕ) (h : PipeHeap) {xs : List ℕ} {h' : PipeHeap}
      → len ≢ 0
      → IsRing (h.cell a)
      → AllOf KeepsRing env
      → read_loop env len a h ≡ some (xs, h')
      → ReadOutcome len xs h'
  unfolding read_loop
  read_loop-outcome [] len h {xs} {h'} ne r keep e =
      elim (ReadRound-cases (read_round len (h.cell a)).0) [
        | inl w ↦ absurd (ground arith)
        | inr (ys, w) ↦
            let same : (ys ≡ xs) × (store a (read_round len (h.cell a)).1 h ≡ h') = ground arith in
            rw (← same.0, ← same.1) (round_outcome len ys h ne r w)
      ]
  read_loop-outcome (o ∷ env) len h {xs} {h'} ne r keep e =
      elim (ReadRound-cases (read_round len (h.cell a)).0) [
        | inl w ↦
            let h1 : PipeHeap = store a (read_round len (h.cell a)).1 h in
            let r1 : IsRing (h1.cell a) =
              rw (store-cell a (read_round len (h.cell a)).1 h) (read_round-IsRing len r) in
            read_loop-outcome env len (o h1) ne (keep.0 h1 r1) keep.1 (rw (w, read_loop) at e)
        | inr (ys, w) ↦
            let same : (ys ≡ xs) × (store a (read_round len (h.cell a)).1 h ≡ h') = ground arith in
            rw (← same.0, ← same.1) (round_outcome len ys h ne r w)
      ]

  round-ready :
      (len : ℕ) {p : Pipe}
      → len ≢ 0
      → IsRing p
      → p.used ≢ 0
      → (xs : List ℕ) × ((read_round len p).0 ≡ returned xs)
  round-ready len {p} ne r some_used = elim (ReadRound-cases (read_round len p).0) [
    | inl w ↦ absurd (omega (arith, ((read_round-waits len r).0 w).0))
    | inr given ↦ given
  ]

  loop-ready :
      (env : List (PipeHeap → PipeHeap)) (len : ℕ) (h : PipeHeap)
      → len ≢ 0
      → IsRing (h.cell a)
      → (h.cell a).used ≢ 0
      → (xs : List ℕ) × (h' : PipeHeap) × (read_loop env len a h ≡ some (xs, h'))
  unfolding read_loop
  loop-ready [] len h ne r u =
      let g = round-ready len ne r u in
      (g.0, store a (read_round len (h.cell a)).1 h, rw (g.1, read_loop))
  loop-ready (o ∷ env) len h ne r u =
      let g = round-ready len ne r u in
      (g.0, store a (read_round len (h.cell a)).1 h, rw (g.1, read_loop))

  -- When the next task switch leaves the pipe well formed with bytes in it, the loop of `kpipe_read`
  -- returns from a read of at least one byte, at that switch at the latest.
  pub read_loop-returns :
      (e : PipeHeap → PipeHeap) (env : List (PipeHeap → PipeHeap)) (len : ℕ) (h : PipeHeap)
      → len ≢ 0
      → Feeds e
      → (xs : List ℕ) × (h' : PipeHeap) × (read_loop (e ∷ env) len a h ≡ some (xs, h'))
  unfolding read_loop
  read_loop-returns e env len h ne feeds =
      let h1 : PipeHeap = store a (read_round len (h.cell a)).1 h in
      elim (ReadRound-cases (read_round len (h.cell a)).0) [
        | inl w ↦
            let (xs, h', returns) = loop-ready env len (e h1) ne (feeds h1).0 (feeds h1).1 in
            (xs, h', rw (w, read_loop) returns)
        | inr (xs, w) ↦ (xs, h1, rw (w, read_loop))
      ]
