-- ===== src/Keyboard/Feed.antt =====
-- The two entries of kernel/keyboard.c: the interrupt handler and the feed of scancodes and characters.
use mathlib.Core.Path.{subst}
use skez_os.Prelude.{
  ℕ, zero, suc, ◌+◌, ◌%◌, ◌<◌, ◌≡◌, refl, ap, ◌∙◌, inl, inr, Bool, true, false, not, ◌&&◌, Option,
  none, some, arith, ltb, ◌==◌, ==_iff, if◌then◌else◌, get_or, Bool-cases, Option-cases,
}
use skez_os.Keyboard.{
  Keyboard, Display, char_of, kbd_buffer_put, kbd_gui_route_key, kbd_gui_keycode_for_scancode,
  route_release, extended_key, feed_extended, release_key, feed_release, handle_press, put_char,
  feed_press, keyboard_handler, kbd_feed_scancode, kbd_send_scancode, shifted_send, released,
  newline, is_plain, kbd_feed_ascii,
}
use skez_os.Keyboard.Layout.{kbd_us, kbd_us_shift, ascii_to_scancode}

module _ {G : Type 0} (display : Display G) where
  open display use {gui_mode_active}

  press_same :
      (scancode : ℕ) (k : Keyboard) (g : G)
      → feed_press display scancode k g ≡ handle_press display scancode k g
  unfolding feed_press handle_press put_char
  press_same scancode k g = elim (Bool-cases (gui_mode_active g)) [
    | inr e ↦ ground (arith, e)
    | inl e ↦ ground (arith, e)
  ]

  extended_same :
      (scancode : ℕ) (k : Keyboard) (g : G)
      → feed_extended display scancode k g ≡ extended_key display scancode k g
  unfolding feed_extended extended_key
  extended_same scancode k g = refl

  release_same :
      (scancode : ℕ) (k : Keyboard) (g : G)
      → feed_release display scancode k g ≡ release_key display scancode k g
  unfolding feed_release release_key
  release_same scancode k g = refl

  -- `kbd_feed_scancode` leaves the same keyboard state and the same state of the display as the
  -- interrupt handler on the same scancode.
  pub kbd_feed_scancode-keyboard_handler :
      (scancode : ℕ) (k : Keyboard) (g : G)
      → kbd_feed_scancode display scancode k g ≡ keyboard_handler display scancode k g
  unfolding kbd_feed_scancode keyboard_handler
  kbd_feed_scancode-keyboard_handler scancode k g =
      rw (extended_same scancode k g, release_same scancode k g, press_same scancode k g)

-- A key whose code is neither shift nor the extended prefix when it is released.
abbrev is_key : ℕ → Bool
is_key code = ltb code 128 && not (code == 42) && not (code == 54) && not (code == 96)

abbrev table_entry : ℕ → Bool → ℕ
table_entry code shift = if shift then get_or kbd_us_shift code 0 else get_or kbd_us code 0

-- The scancode that stands for the character `c` gives it back through the layout.
abbrev gives_back : ℕ → Option (ℕ × Bool) → Bool
gives_back c none = true
gives_back c (some (code, shift)) =
    is_plain c && is_key code && not (c == 0) && (table_entry code shift == c)

all_four :
    (a b c d : Bool)
    → (a && b && not c && d) ≡ true
    → (a ≡ true) × (b ≡ true) × (c ≡ false) × (d ≡ true)
all_four a b c d h = (ground (arith, h), ground (arith, h), ground (arith, h), ground (arith, h))

gives_back-facts :
    (c code : ℕ) (shift : Bool)
    → gives_back c (some (code, shift)) ≡ true
    → (is_plain c ≡ true) × (is_key code ≡ true) × ((c == 0) ≡ false) × (table_entry code shift ≡ c)
gives_back-facts c code shift h =
    let (a, b, z, d) =
      all_four (is_plain c) (is_key code) (c == 0) (table_entry code shift == c) h in
    (a, b, z, (==_iff (table_entry code shift) c).0 d)

abbrev all_below : ℕ → (ℕ → Bool) → Bool
all_below zero test = true
all_below (suc n) test = all_below n test && test n

all_below-at : (n : ℕ) (test : ℕ → Bool) → all_below n test ≡ true → (i : ℕ) → i < n → test i ≡ true
all_below-at zero test h i lt = absurd (omega arith)
all_below-at (suc n) test h i lt = elim (Bool-cases (i == n)) [
  | inl e ↦
      let same : i ≡ n = ground arith in
      let last : test n ≡ true = ground (arith, h) in rw (same, last)
  | inr e ↦ all_below-at n test (ground (arith, h)) i (ground arith)
]

abbrev typed_back : ℕ → Bool
typed_back c = gives_back (newline c) (ascii_to_scancode (newline c))

layout_checked : all_below 256 typed_back ≡ true
unfolding ascii_to_scancode
layout_checked = refl

layout_round_trip : (c : ℕ) → c < 256 → typed_back c ≡ true
layout_round_trip = all_below-at 256 typed_back layout_checked

module _ {G : Type 0} (display : Display G) {g : G} (text : display.gui_mode_active g ≡ false) where
  -- With no GUI a key press puts its character.
  key_press :
      (code : ℕ) (k : Keyboard)
      → is_key code ≡ true
      → k.extended_prefix ≡ false
      → (char_of code k == 0) ≡ false
      → kbd_feed_scancode display code k g ≡ (kbd_buffer_put (char_of code k) k, g)
  unfolding kbd_feed_scancode feed_press put_char
  key_press code k key ext some_char = ground (arith, key, ext, some_char, text)

  shift_press :
      (k : Keyboard)
      → k.extended_prefix ≡ false
      → kbd_feed_scancode display 42 k g ≡ (record k { shift_pressed = true }, g)
  unfolding kbd_feed_scancode
  shift_press k ext = ground (arith, ext)

  route_nothing : (keycode : ℕ) (k : Keyboard) → route_release display keycode k g ≡ g
  unfolding route_release kbd_gui_route_key
  route_nothing keycode k = ground (arith, text)

  shift_release :
      (k : Keyboard)
      → k.extended_prefix ≡ false
      → kbd_feed_scancode display 170 k g ≡ (record k { shift_pressed = false }, g)
  unfolding kbd_feed_scancode feed_release
  shift_release k ext = rw (ext, route_nothing)

  key_release :
      (code : ℕ) (k : Keyboard)
      → is_key code ≡ true
      → k.extended_prefix ≡ false
      → kbd_feed_scancode display (released code) k g ≡ (k, g)
  unfolding kbd_feed_scancode feed_release
  key_release code k key ext =
      ground (arith, key, ext, route_nothing (kbd_gui_keycode_for_scancode ((code + 128) % 128)) k)

  put-extended : (ch : ℕ) (k : Keyboard) → (kbd_buffer_put ch k).extended_prefix ≡ k.extended_prefix
  unfolding kbd_buffer_put
  put-extended ch k = ground arith

  put-shift :
      (ch : ℕ) (k : Keyboard)
      → k.shift_pressed ≡ false
      → record (kbd_buffer_put ch (record k { shift_pressed = true })) { shift_pressed = false }
        ≡ kbd_buffer_put ch k
  unfolding kbd_buffer_put
  put-shift ch k e = ground (arith, e)

  -- Pressing and releasing a key puts its character once.
  send_key :
      (code : ℕ) (k : Keyboard)
      → is_key code ≡ true
      → k.extended_prefix ≡ false
      → (char_of code k == 0) ≡ false
      → kbd_send_scancode display code k g ≡ (kbd_buffer_put (char_of code k) k, g)
  unfolding kbd_send_scancode
  send_key code k key ext some_char =
      let k' = kbd_buffer_put (char_of code k) k in
      rw (key_press code k key ext some_char)
        (key_release code k' key (put-extended (char_of code k) k ∙ ext))

  char_of-shift :
      (code : ℕ) (k : Keyboard) (b : Bool)
      → k.shift_pressed ≡ b
      → char_of code k ≡ table_entry code b
  unfolding char_of
  char_of-shift code k b e = ap (table_entry code) e

  send_char :
      (c code : ℕ) (shift : Bool) (k : Keyboard)
      → k.extended_prefix ≡ false
      → k.shift_pressed ≡ false
      → gives_back c (some (code, shift)) ≡ true
      → shifted_send display code shift k g ≡ (kbd_buffer_put c k, g)
  unfolding shifted_send
  send_char c code false k ext low back =
      let (plain, key, nonzero, gives) = gives_back-facts c code false back in
      let same : char_of code k ≡ c = char_of-shift code k false low ∙ gives in
      let some_char : (char_of code k == 0) ≡ false = rw same nonzero in
      send_key code k key ext some_char ∙ ap (λ x. (kbd_buffer_put x k, g)) same
  send_char c code true k ext low back =
      let up : Keyboard = record k { shift_pressed = true } in
      let (plain, key, nonzero, gives) = gives_back-facts c code true back in
      let same : char_of code up ≡ c = char_of-shift code up true refl ∙ gives in
      let some_char : (char_of code up == 0) ≡ false = rw same nonzero in
      rw (shift_press k ext) (
        rw (send_key code up key ext some_char, same)
          (shift_release (kbd_buffer_put c up) (put-extended c up ∙ ext)
            ∙ ap (λ x. (x, g)) (put-shift c k low)))

  -- With no GUI active, no extended prefix read and shift not held, `kbd_feed_ascii` on a byte puts
  -- that byte in the character buffer, a newline for a carriage return, when it is printable, a
  -- newline, a tab or a backspace, and nothing otherwise; the rest of the keyboard's state and the
  -- display stay as they are.
  pub kbd_feed_ascii-kbd_buffer_put :
      (c : ℕ) (k : Keyboard)
      → c < 256
      → k.extended_prefix ≡ false
      → k.shift_pressed ≡ false
      → kbd_feed_ascii display c k g
        ≡ ((if is_plain (newline c) then kbd_buffer_put (newline c) k else k), g)
  unfolding kbd_feed_ascii
  kbd_feed_ascii-kbd_buffer_put c k lt ext low =
      elim (Option-cases (ascii_to_scancode (newline c))) [
        | inl e ↦ rw (e, kbd_feed_ascii)
        | inr ((code, shift), e) ↦
            let back : gives_back (newline c) (some (code, shift)) ≡ true =
              subst (λ o. gives_back (newline c) o ≡ true) e (layout_round_trip c lt) in
            let plain = (gives_back-facts (newline c) code shift back).0 in
            rw (e, plain, kbd_feed_ascii) (send_char (newline c) code shift k ext low back)
      ]
