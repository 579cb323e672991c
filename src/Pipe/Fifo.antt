-- ===== src/Pipe/Fifo.antt =====
-- The ring of kernel/kpipe.c against the queue of the bytes that it holds.
use mathlib.Core.Path.{ap₂}
use skez_os.Prelude.{
  ℕ, zero, suc, ◌+◌, ◌-◌, ◌%◌, ◌^◌, ◌≤◌, ◌<◌, ◌≡◌, refl, sym, ◌∙◌, ap, ◌≢◌, inl, inr, List, [], ◌∷◌,
  ◌++◌, append_assoc, append-nil, arith, length, length-set, get_or, set, take, drop, ltb, ◌==◌,
  Bool-cases, min, get_or-set_self, get_or-set_ne,
}
use skez_os.Pipe.{Pipe, capacity, create_state, take_byte, put_byte, drain as drain_ring, fill}

-- The ring's indices are in range, and `tail` is `used` places past `head`.
pub record IsRing (p : Pipe) : Type 0 where
  pub storage : length p.buf ≡ capacity
  pub head_in : p.head < capacity
  pub used_in : p.used ≤ capacity
  pub tail_at : p.tail ≡ (p.head + p.used) % capacity

pub create_state-IsRing : IsRing create_state
unfolding create_state
create_state-IsRing = record {
  storage = refl;
  head_in = omega arith;
  used_in = omega arith;
  tail_at = refl;
}

module _ (buf : List ℕ) where
  -- The `n` bytes from index `h` on, going round.
  abbrev pub window : ℕ → ℕ → List ℕ
  window h zero = []
  window h (suc n) = get_or buf h 0 ∷ window ((h + 1) % capacity) n

  pub length-window : (h n : ℕ) → length (window h n) ≡ n
  length-window h zero = refl
  length-window h (suc n) = ap suc (length-window ((h + 1) % capacity) n)

  window_pos : (h n : ℕ) → n ≢ 0 → window h n ≡ get_or buf h 0 ∷ window ((h + 1) % capacity) (n - 1)
  window_pos h zero p = absurd (p refl)
  window_pos h (suc n) p = ap (λ k. window h (suc k)) (omega arith)

-- The bytes in the pipe, oldest first.
abbrev pub contents : Pipe → List ℕ
contents p = window p.buf p.head p.used

around-ne : (h k : ℕ) → h < capacity → suc k < capacity → (h + suc k) % capacity ≢ h
around-ne h k hh hk = omega arith

-- A write just past a window extends it.
window-set :
    (buf : List ℕ) (x n h i : ℕ)
    → length buf ≡ capacity
    → h < capacity
    → n < capacity
    → i ≡ (h + n) % capacity
    → window (set buf i x) h (suc n) ≡ window buf h n ++ (x ∷ [])
window-set buf x zero h i hs hh hn e =
    let here : i ≡ h = omega arith in rw (here, get_or-set_self buf h x 0 (omega arith))
window-set buf x (suc n) h i hs hh hn e =
    ap₂ ◌∷◌ (get_or-set_ne buf i h x 0 (rw e (around-ne h n hh hn)))
      (window-set buf x n ((h + 1) % capacity) i hs (omega arith) (omega arith) (omega arith))

module _ {p : Pipe} (r : IsRing p) where
  open r use {storage, head_in, used_in, tail_at}

  pub take_byte-IsRing : p.used ≢ 0 → IsRing (take_byte p)
  take_byte-IsRing ne = record {
    storage = storage;
    head_in = omega arith;
    used_in = omega arith;
    tail_at = omega arith;
  }

  pub contents-take_byte : p.used ≢ 0 → contents p ≡ get_or p.buf p.head 0 ∷ contents (take_byte p)
  contents-take_byte ne = window_pos p.buf p.head p.used ne

  pub put_byte-IsRing : (x : ℕ) → p.used < capacity → IsRing (put_byte x p)
  put_byte-IsRing x lt = record {
    storage = length-set p.buf p.tail x ∙ storage;
    head_in = head_in;
    used_in = omega arith;
    tail_at = omega arith;
  }

  pub contents-put_byte :
      (x : ℕ) → p.used < capacity → contents (put_byte x p) ≡ contents p ++ (x ∷ [])
  contents-put_byte x lt =
      let grown : (p.used + 1) % 2 ^ 32 ≡ suc p.used = omega arith in
      rw grown (window-set p.buf x p.used p.head p.tail storage head_in lt tail_at)

-- What the inner loop of `kpipe_read` leaves: the first bytes of the queue came out in order.
pub record Drained (n : ℕ) (p : Pipe) (out : List ℕ × Pipe) : Type 0 where
  pub ring : IsRing out.1
  pub order : out.0 ++ contents out.1 ≡ contents p
  pub count : length out.0 ≡ min n p.used
  pub readers : out.1.reader_refs ≡ p.reader_refs
  pub writers : out.1.writer_refs ≡ p.writer_refs

pub drain-Drained : (n : ℕ) {p : Pipe} → IsRing p → Drained n p (drain_ring n p)
unfolding drain_ring
drain-Drained zero r = record {
  ring = r;
  order = refl;
  count = omega arith;
  readers = refl;
  writers = refl;
}
drain-Drained (suc n) {p} r = elim (Bool-cases (p.used == 0)) [
  | inl e ↦
      rw e (record { ring = r; order = refl; count = ground arith; readers = refl; writers = refl })
  | inr e ↦
      let ne : p.used ≢ 0 = ground arith in
      let ih = drain-Drained n (take_byte-IsRing r ne) in
      rw e (record {
        ring = ih.ring;
        order = ap (λ l. get_or p.buf p.head 0 ∷ l) ih.order ∙ sym (contents-take_byte r ne);
        count = omega (arith, ih.count);
        readers = ih.readers;
        writers = ih.writers;
      })
]

-- The room left for the bytes `xs`.
abbrev pub fits : List ℕ → Pipe → ℕ
fits xs p = min (length xs) (capacity - p.used)

-- What the inner loop of `kpipe_write` leaves: as many bytes as fit stand at the queue's end.
pub record Filled (xs : List ℕ) (p : Pipe) (out : List ℕ × Pipe) : Type 0 where
  pub ring : IsRing out.1
  pub taken : contents out.1 ≡ contents p ++ take (fits xs p) xs
  pub left : out.0 ≡ drop (fits xs p) xs
  pub readers : out.1.reader_refs ≡ p.reader_refs
  pub writers : out.1.writer_refs ≡ p.writer_refs

pub fill-Filled : (xs : List ℕ) {p : Pipe} → IsRing p → Filled xs p (fill xs p)
unfolding fill
fill-Filled [] {p} r =
    let none_fit : min 0 (capacity - p.used) ≡ 0 = omega arith in
    record {
      ring = r;
      taken = rw (none_fit, append-nil);
      left = rw none_fit;
      readers = refl;
      writers = refl;
    }
fill-Filled (x ∷ xs) {p} r = elim (Bool-cases (ltb p.used capacity)) [
  | inr e ↦
      let full : fits (x ∷ xs) p ≡ 0 = ground arith in
      rw e (record {
        ring = r;
        taken = rw full (sym (append-nil (contents p)));
        left = rw full;
        readers = refl;
        writers = refl;
      })
  | inl e ↦
      let lt : p.used < capacity = ground arith in
      let more : fits (x ∷ xs) p ≡ suc (fits xs (put_byte x p)) = omega arith in
      let ih = fill-Filled xs (put_byte-IsRing r x lt) in
      rw e (record {
        ring = ih.ring;
        taken = rw more (
            ih.taken
            ∙ ap (λ l. l ++ take (fits xs (put_byte x p)) xs) (contents-put_byte r x lt)
            ∙ append_assoc (contents p) (x ∷ []) (take (fits xs (put_byte x p)) xs));
        left = rw more ih.left;
        readers = ih.readers;
        writers = ih.writers;
      })
]
