-- ===== src/Pipe/Rounds.antt =====
-- One round of `kpipe_read` and `kpipe_write` (kernel/kpipe.c) on the queue of a pipe.
use skez_os.Prelude.{
  ℕ, ◌-◌, ◌≤◌, ◌<◌, ◌≡◌, refl, sym, ◌∙◌, ap, ◌≢◌, inl, inr, ◌↔◌, List, [], ◌∷◌, ◌++◌, arith, length,
  take, length-drop, ◌==◌, Bool-cases, min, ok, append-nil,
}
use skez_os.Pipe.{
  Pipe, capacity, drain as drain_ring, fill, ReadRound, returned, waits, done, blocked, read_round,
  write_round,
}
use skez_os.Pipe.Fifo.{IsRing, contents, fits, drain-Drained, fill-Filled}

nil_of_length : (xs : List ℕ) → length xs ≡ 0 → xs ≡ []
nil_of_length [] e = refl
nil_of_length (x ∷ xs) e = absurd (omega arith)

-- The bytes that a round hands to the reader.
abbrev pub delivered : ReadRound → List ℕ
delivered (returned xs) = xs
delivered waits = []

-- The `total` bytes of `xs` that a round has written, where it leaves `left`.
abbrev pub accepted : (xs left : List ℕ) → List ℕ
accepted xs left = take (length xs - length left) xs

module _ (len : ℕ) {p : Pipe} (r : IsRing p) where
  pub read_round-IsRing : IsRing (read_round len p).1
  unfolding read_round
  read_round-IsRing = ground (arith, (drain-Drained len r).ring)

  -- What a round hands over is the front of the queue, and the rest stays.
  pub read_round-order :
      delivered (read_round len p).0 ++ contents (read_round len p).1 ≡ contents p
  unfolding read_round
  read_round-order =
      let d = drain-Drained len r in
      elim (Bool-cases (length (drain_ring len p).0 == 0)) [
        | inr e ↦ rw e d.order
        | inl e ↦
            let empty : (drain_ring len p).0 ≡ [] = nil_of_length _ (ground arith) in
            let same : contents (drain_ring len p).1 ≡ contents p =
              ap (λ l. l ++ contents (drain_ring len p).1) (sym empty) ∙ d.order in
            elim (Bool-cases ((drain_ring len p).1.writer_refs == 0)) [
              | inl w ↦ rw (e, w) same
              | inr w ↦ rw (e, w) same
            ]
      ]

  pub read_round-refs :
      ((read_round len p).1.writer_refs ≡ p.writer_refs)
      × ((read_round len p).1.reader_refs ≡ p.reader_refs)
  unfolding read_round
  read_round-refs = ground (arith, drain-Drained len r)

  pub read_round-count : length (delivered (read_round len p).0) ≡ min len p.used
  unfolding read_round
  read_round-count = ground (arith, drain-Drained len r)

  pub read_round-waits :
      ((read_round len p).0 ≡ waits) ↔ ((min len p.used ≡ 0) × (p.writer_refs ≢ 0))
  unfolding read_round
  read_round-waits =
      (λ h. ground (arith, drain-Drained len r), λ h. ground (arith, drain-Drained len r))

module _ (xs : List ℕ) {p : Pipe} (r : IsRing p) where
  fits-le : fits xs p ≤ length xs
  fits-le = omega arith

  pub write_round-IsRing : IsRing (write_round xs p).2
  unfolding write_round
  write_round-IsRing = ground (arith, r, (fill-Filled xs r).ring)

  accepted-fill : accepted xs (fill xs p).0 ≡ take (fits xs p) xs
  accepted-fill =
      let f = fill-Filled xs r in
      let n : length xs - length (fill xs p).0 ≡ fits xs p =
        rw f.left (omega (arith, length-drop (fits xs p) xs, fits-le)) in
      ap (λ k. take k xs) n

  -- What a round accepts goes to the back of the queue.
  pub write_round-order :
      contents (write_round xs p).2 ≡ contents p ++ accepted xs (write_round xs p).1
  unfolding write_round
  write_round-order = elim (Bool-cases (p.reader_refs == 0)) [
    | inl e ↦
        let nothing : length xs - length xs ≡ 0 = omega arith in rw (e, nothing, append-nil) refl
    | inr e ↦ rw e ((fill-Filled xs r).taken ∙ ap (λ l. contents p ++ l) (sym accepted-fill))
  ]

  -- A round without readers fails and writes nothing; otherwise it writes as many bytes as fit.
  pub write_round-full :
      p.reader_refs ≢ 0 → length (write_round xs p).1 ≡ length xs - (capacity - p.used)
  unfolding write_round
  write_round-full h = ground (arith, (fill-Filled xs r).left, length-drop (fits xs p) xs)

  pub write_round-fits :
      p.reader_refs ≢ 0
      → length xs ≤ capacity - p.used
      → ((write_round xs p).0 ≡ done ok) × (length (write_round xs p).1 ≡ 0)
  unfolding write_round
  write_round-fits h le = ground (arith, (fill-Filled xs r).left, length-drop (fits xs p) xs)

  -- A round that does not take all the bytes waits with those that are left.
  pub write_round-blocks :
      p.reader_refs ≢ 0
      → capacity - p.used < length xs
      → (write_round xs p).0 ≡ blocked (write_round xs p).1
  unfolding write_round
  write_round-blocks h lt = ground (arith, (fill-Filled xs r).left, length-drop (fits xs p) xs)
