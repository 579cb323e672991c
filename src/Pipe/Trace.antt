-- ===== src/Pipe/Trace.antt =====
-- The operations of kernel/kpipe.c on one pipe, in any order: the rounds of readers and writers in
-- different tasks interleave, and ends are duplicated and closed between them.
use skez_os.Prelude.{ℕ, ◌≡◌, sym, ap, ◌∙◌, List, [], ◌++◌, append_assoc, append-nil, arith}
use skez_os.Pipe.{Pipe, read_round, write_round, retain_refs, close_refs}
use skez_os.Pipe.Fifo.{IsRing, contents}
use skez_os.Pipe.Rounds.{
  delivered, accepted, read_round-IsRing, read_round-order, write_round-IsRing, write_round-order,
}

-- One critical section, with the bytes that it takes in and hands out.
pub data Step : Pipe → List ℕ → List ℕ → Pipe → Type 0 where
  reads : (len : ℕ) (p : Pipe) → Step p [] (delivered (read_round len p).0) (read_round len p).1
  writes :
      (xs : List ℕ) (p : Pipe) → Step p (accepted xs (write_round xs p).1) [] (write_round xs p).2
  retains : (flags : ℕ) (p : Pipe) → Step p [] [] (retain_refs flags p)
  closes : (flags : ℕ) (p : Pipe) → Step p [] [] (close_refs flags p).0

pub data Run (p : Pipe) : List ℕ → List ℕ → Pipe → Type 0 where
  start : Run p [] [] p
  more :
      {ins outs i o : List ℕ} {q r : Pipe}
      → Run p ins outs q
      → Step q i o r
      → Run p (ins ++ i) (outs ++ o) r

-- The ring stays well formed, and the bytes keep their order.
record Kept (p : Pipe) (ins outs : List ℕ) (q : Pipe) : Type 0 where
  ring : IsRing q
  order : contents p ++ ins ≡ outs ++ contents q

Step-Kept : {p q : Pipe} {i o : List ℕ} → Step p i o q → IsRing p → Kept p i o q
Step-Kept (reads len p) r = record {
  ring = read_round-IsRing len r;
  order = append-nil (contents p) ∙ sym (read_round-order len r);
}
Step-Kept (writes xs p) r = record {
  ring = write_round-IsRing xs r;
  order = sym (write_round-order xs r);
}
Step-Kept (retains flags p) r =
    unfold retain_refs in record { ring = ground (arith, r); order = append-nil (contents p) }
Step-Kept (closes flags p) r =
    unfold close_refs in record { ring = ground (arith, r); order = append-nil (contents p) }

-- Along every interleaving of read rounds, write rounds, retains and closes from a well-formed pipe,
-- what the pipe held at first followed by what it took in is what it handed out followed by what it
-- holds: no byte is lost, doubled or reordered. The ring stays well formed.
pub Run-order :
    {p q : Pipe} {ins outs : List ℕ}
    → Run p ins outs q
    → IsRing p
    → IsRing q × (contents p ++ ins ≡ outs ++ contents q)
Run-order {p} start r = (r, append-nil (contents p))
Run-order {p} (more {ins} {outs} {i} {o} {q = m} {r = q} run step) r =
    let (ring, before) = Run-order run r in
    let k = Step-Kept step ring in
    (
      k.ring,
      sym (append_assoc (contents p) ins i)
          ∙ ap (λ l. l ++ i) before
          ∙ append_assoc outs (contents m) i
          ∙ ap (λ l. outs ++ l) k.order
          ∙ sym (append_assoc outs o (contents q)),
    )
