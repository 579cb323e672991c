-- ===== src/Keyboard/Buffer.antt =====
-- The character buffer of kernel/keyboard.c against a queue of at most 127 characters.
use mathlib.Core.Path.{ap₂}
use skez_os.Prelude.{
  ℕ, zero, suc, ◌+◌, ◌-◌, ◌%◌, ◌<◌, ◌≡◌, ◌≢◌, refl, ap, ◌∙◌, inl, inr, true, false, Option, none,
  some, List, [], ◌∷◌, ◌++◌, arith, ltb, ◌==◌, if◌then◌else◌, length, length-set, get_or, set,
  get_or-set_self, get_or-set_ne, Bool-cases,
}
use skez_os.Keyboard.{Keyboard, buf_size, kbd_buffer_put, kbd_getchar}

-- The indices are in range.
pub record IsBuffer (k : Keyboard) : Type 0 where
  pub storage : length k.buffer ≡ buf_size
  pub head_in : k.head < buf_size
  pub tail_in : k.tail < buf_size

abbrev window : List ℕ → ℕ → ℕ → List ℕ
window buf t zero = []
window buf t (suc n) = get_or buf t 0 ∷ window buf ((t + 1) % buf_size) n

abbrev count : Keyboard → ℕ
count k = (k.head + buf_size - k.tail) % buf_size

-- The characters to be read, oldest first.
abbrev pub pending : Keyboard → List ℕ
pending k = window k.buffer k.tail (count k)

length-window : (buf : List ℕ) (t n : ℕ) → length (window buf t n) ≡ n
length-window buf t zero = refl
length-window buf t (suc n) = ap suc (length-window buf ((t + 1) % buf_size) n)

window_pos :
    (buf : List ℕ) (t n m : ℕ)
    → n ≡ suc m
    → window buf t n ≡ get_or buf t 0 ∷ window buf ((t + 1) % buf_size) m
window_pos buf t n m e = ap (window buf t) e

window-set :
    (buf : List ℕ) (x n t i : ℕ)
    → length buf ≡ buf_size
    → t < buf_size
    → n < buf_size
    → i ≡ (t + n) % buf_size
    → window (set buf i x) t (suc n) ≡ window buf t n ++ (x ∷ [])
window-set buf x zero t i hs ht hn e =
    let here : i ≡ t = omega arith in rw (here, get_or-set_self buf t x 0 (omega arith))
window-set buf x (suc n) t i hs ht hn e =
    ap₂ ◌∷◌ (get_or-set_ne buf i t x 0 (rw e (omega arith)))
      (window-set buf x n ((t + 1) % buf_size) i hs (omega arith) (omega arith) (omega arith))

put_full :
    (ch : ℕ) (k : Keyboard) → (((k.head + 1) % buf_size) == k.tail) ≡ true → kbd_buffer_put ch k ≡ k
unfolding kbd_buffer_put
put_full ch k e = rw (e, kbd_buffer_put)

put_room :
    (ch : ℕ) (k : Keyboard)
    → (((k.head + 1) % buf_size) == k.tail) ≡ false
    → kbd_buffer_put ch k
      ≡ record k { buffer = set k.buffer k.head ch; head = (k.head + 1) % buf_size }
unfolding kbd_buffer_put
put_room ch k e = rw (e, kbd_buffer_put)

-- From a buffer whose indices are in range, `kbd_buffer_put` keeps them in range; it appends the
-- character to those to be read where these are fewer than 127, and drops it otherwise.
pub kbd_buffer_put-pending :
    (ch : ℕ) (k : Keyboard)
    → IsBuffer k
    → IsBuffer (kbd_buffer_put ch k)
      × (pending (kbd_buffer_put ch k)
          ≡ (if ltb (length (pending k)) 127 then pending k ++ (ch ∷ []) else pending k))
kbd_buffer_put-pending ch k b =
    let s = b.storage in
    let h = b.head_in in
    let t = b.tail_in in
    let many = length-window k.buffer k.tail (count k) in
    elim (Bool-cases (((k.head + 1) % buf_size) == k.tail)) [
      | inl e ↦
          let full : ltb (count k) 127 ≡ false = ground arith in
          rw (put_full ch k e, many, full) (b, refl)
      | inr e ↦
          let room : ltb (count k) 127 ≡ true = ground arith in
          let ne : (k.head + 1) % buf_size ≢ k.tail = ground arith in
          let grown : ((k.head + 1) % buf_size + buf_size - k.tail) % buf_size ≡ suc (count k) =
            omega arith in
          rw (put_room ch k e, many, room)
            (
              record {
                storage = length-set k.buffer k.head ch ∙ s;
                head_in = omega arith;
                tail_in = t;
              },
              rw grown
                  (window-set k.buffer ch (count k) k.tail k.head s t (omega arith) (omega arith)),
            )
    ]

get_empty : (k : Keyboard) → (k.head == k.tail) ≡ true → kbd_getchar k ≡ (none, k)
unfolding kbd_getchar
get_empty k e = rw (e, kbd_getchar)

get_some :
    (k : Keyboard)
    → (k.head == k.tail) ≡ false
    → kbd_getchar k ≡ (some (get_or k.buffer k.tail 0), record k { tail = (k.tail + 1) % buf_size })
unfolding kbd_getchar
get_some k e = rw (e, kbd_getchar)

-- `none` gives no character and `some c` the character `c`.
abbrev pub char_list : Option ℕ → List ℕ
char_list none = []
char_list (some c) = c ∷ []

-- From a buffer whose indices are in range, `kbd_getchar` keeps them in range and takes the oldest of
-- the characters to be read; where it returns -1 there is none.
pub kbd_getchar-pending :
    (k : Keyboard)
    → IsBuffer k
    → let (got, k') = kbd_getchar k in
      IsBuffer k' × (pending k ≡ char_list got ++ pending k') × (got ≡ none → pending k ≡ [])
kbd_getchar-pending k b =
    let s = b.storage in
    let h = b.head_in in
    let t = b.tail_in in
    elim (Bool-cases (k.head == k.tail)) [
      | inl e ↦
          let nothing : count k ≡ 0 = ground arith in rw (get_empty k e) (b, refl, λ _. rw nothing)
      | inr e ↦
          let ne : k.head ≢ k.tail = ground arith in
          rw (get_some k e) (
            record { storage = s; head_in = h; tail_in = omega arith },
            window_pos k.buffer k.tail (count k)
                ((k.head + buf_size - (k.tail + 1) % buf_size) % buf_size) (omega arith),
            λ q. absurd (ground (arith, q)),
          )
    ]
