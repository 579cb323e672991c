-- ===== src/Pipe.antt =====
-- kernel/kpipe.c: the ring of an anonymous pipe, and the critical sections of its operations.
-- What a call does between two waits is one round; `kpipe_wait_once` lets other tasks run.
pub mod Fifo
pub mod Rounds
pub mod Trace
use skez_os.Prelude.{
  ℕ, zero, suc, ◌+◌, ◌-◌, ◌%◌, ◌^◌, ◌/◌, Bool, true, false, ◌&&◌, Option, none, some, List, [], ◌∷◌,
  ltb, ◌==◌, if◌then◌else◌, not, length, get_or, set, replicate, Errno, pipe, Status, ok, err,
}

-- `KPIPE_CAPACITY`
abbrev pub capacity : ℕ
capacity = 512

-- `uint32_t` increment.
abbrev pub inc32 : ℕ → ℕ
inc32 n = (n + 1) % 2 ^ 32

-- `struct kpipe_state`
pub record Pipe : Type 0 where
  pub buf : List ℕ
  pub head : ℕ
  pub tail : ℕ
  pub used : ℕ
  pub reader_refs : ℕ
  pub writer_refs : ℕ

-- The state that `kpipe_create` leaves in the new block.
unfoldable pub create_state : Pipe
create_state = record {
  buf = replicate capacity 0;
  head = 0;
  tail = 0;
  used = 0;
  reader_refs = 1;
  writer_refs = 1;
}

-- One turn of the inner loop of `kpipe_read`: the byte at the head leaves the ring.
abbrev pub take_byte : Pipe → Pipe
take_byte p = record p { head = (p.head + 1) % capacity; used = p.used - 1 }

-- One turn of the inner loop of `kpipe_write`.
abbrev pub put_byte : ℕ → Pipe → Pipe
put_byte x p = record p {
  buf = set p.buf p.tail x;
  tail = (p.tail + 1) % capacity;
  used = inc32 p.used;
}

-- The inner loop of `kpipe_read`, with `n` bytes still wanted.
unfoldable pub drain : ℕ → Pipe → List ℕ × Pipe
drain zero p = ([], p)
drain (suc n) p =
    let rest = drain n (take_byte p) in
    if p.used == 0 then ([], p) else (get_or p.buf p.head 0 ∷ rest.0, rest.1)

-- The inner loop of `kpipe_write`: the bytes that did not fit, and the pipe.
unfoldable pub fill : List ℕ → Pipe → List ℕ × Pipe
fill [] p = ([], p)
fill (x ∷ xs) p =
    let rest = fill xs (put_byte x p) in if ltb p.used capacity then rest else (x ∷ xs, p)

-- What a round of `kpipe_read` decides: the call returns with its bytes, or it waits.
pub data ReadRound : Type 0 where
  returned : List ℕ → ReadRound
  waits : ReadRound

unfoldable pub read_round : ℕ → Pipe → ReadRound × Pipe
read_round len p =
    let (bytes, p') = drain len p in
    if not (length bytes == 0)
    then (returned bytes, p')
    else if p'.writer_refs == 0
    then (returned [], p')
    else (waits, p')

-- What a round of `kpipe_write` decides: it returns, or it waits with the bytes that are left.
pub data WriteRound : Type 0 where
  done : Status → WriteRound
  blocked : List ℕ → WriteRound

-- The round's decision, the bytes that it has not written, and the pipe.
unfoldable pub write_round : List ℕ → Pipe → WriteRound × List ℕ × Pipe
write_round xs p =
    if p.reader_refs == 0
    then (done (err pipe), xs, p)
    else let (left, p') = fill xs p in
      (if length left == 0 then done ok else blocked left, left, p')

-- `flags & KFILE_PIPE_READ_ENDPOINT` (bit 0) and `flags & KFILE_PIPE_WRITE_ENDPOINT` (bit 1).
abbrev pub read_flag : ℕ → Bool
read_flag flags = not (flags % 2 == 0)

abbrev pub write_flag : ℕ → Bool
write_flag flags = not (flags / 2 % 2 == 0)

-- The critical section of `kpipe_retain`.
unfoldable pub retain_refs : (flags : ℕ) → Pipe → Pipe
retain_refs flags p = record p {
  reader_refs = if read_flag flags then inc32 p.reader_refs else p.reader_refs;
  writer_refs = if write_flag flags then inc32 p.writer_refs else p.writer_refs;
}

-- The critical section of `kpipe_close`, and whether the state is to be freed.
unfoldable pub close_refs : (flags : ℕ) → Pipe → Pipe × Bool
close_refs flags p =
    let readers =
      if read_flag flags && not (p.reader_refs == 0) then p.reader_refs - 1 else p.reader_refs in
    let writers =
      if write_flag flags && not (p.writer_refs == 0) then p.writer_refs - 1 else p.writer_refs in
    (record p { reader_refs = readers; writer_refs = writers }, (readers == 0) && (writers == 0))
