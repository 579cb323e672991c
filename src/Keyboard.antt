-- ===== src/Keyboard.antt =====
-- kernel/keyboard.c: scancodes to characters, and the buffer of the characters not yet read.
-- `inb(0x60)` is the argument `scancode`; a char is the number of its byte, and the log is left out.
pub mod Layout
pub mod Buffer
pub mod Feed
use skez_os.Prelude.{
  ℕ, zero, suc, ◌+◌, ◌-◌, ◌%◌, Bool, true, false, not, ◌&&◌, ◌||◌, Option, none, some, List, ltb,
  leb, ◌==◌, if◌then◌else◌, get_or, set, replicate,
}
use skez_os.Keyboard.Layout.{kbd_us, kbd_us_shift, ascii_to_scancode}

-- `KBD_BUF_SIZE`
abbrev pub buf_size : ℕ
buf_size = 128

-- What kernel/display.c does with a key in its state `G`. An event and a navigation key return whether
-- the display took them.
pub record Display (G : Type 0) : Type 0 where
  pub gui_mode_active : G → Bool
  pub gui_handle_key_event : (keycode ch modifiers : ℕ) (pressed : Bool) → G → Bool × G
  pub handle_navigation_key : (key : ℕ) → G → Bool × G

-- The static variables.
pub record Keyboard : Type 0 where
  pub buffer : List ℕ
  pub head : ℕ
  pub tail : ℕ
  pub shift_pressed : Bool
  pub extended_prefix : Bool

abbrev pub initial : Keyboard
initial = record {
  buffer = replicate buf_size 0;
  head = 0;
  tail = 0;
  shift_pressed = false;
  extended_prefix = false;
}

unfoldable pub kbd_modifiers : Keyboard → ℕ
kbd_modifiers k = if k.shift_pressed then 1 else 0

-- `SYSCALL_GUI_KEY_UP`, `_DOWN`, `_LEFT` and `_RIGHT`, and 0 for `SYSCALL_GUI_KEY_NONE`.
unfoldable pub kbd_gui_keycode_for_extended : ℕ → ℕ
kbd_gui_keycode_for_extended scancode =
    if scancode == 72
    then 4
    else if scancode == 80
    then 5
    else if scancode == 75
    then 2
    else if scancode == 77
    then 3
    else 0

-- Escape, backspace, tab, enter and space.
unfoldable pub kbd_gui_keycode_for_scancode : ℕ → ℕ
kbd_gui_keycode_for_scancode scancode =
    if scancode == 1
    then 7
    else if scancode == 14
    then 8
    else if scancode == 15
    then 9
    else if scancode == 28
    then 6
    else if scancode == 57
    then 10
    else 0

unfoldable pub kbd_buffer_put : (ch : ℕ) → Keyboard → Keyboard
kbd_buffer_put ch k =
    let next = (k.head + 1) % buf_size in
    if next == k.tail then k else record k { buffer = set k.buffer k.head ch; head = next }

-- `none` is the result -1.
unfoldable pub kbd_getchar : Keyboard → Option ℕ × Keyboard
kbd_getchar k =
    if k.head == k.tail
    then (none, k)
    else (some (get_or k.buffer k.tail 0), record k { tail = (k.tail + 1) % buf_size })

-- The character of a key, by the layout in force.
unfoldable pub char_of : (scancode : ℕ) → Keyboard → ℕ
char_of scancode k =
    if k.shift_pressed then get_or kbd_us_shift scancode 0 else get_or kbd_us scancode 0

-- `scancode | 0x80` on a byte.
abbrev pub released : ℕ → ℕ
released scancode = if leb 128 scancode then scancode else scancode + 128

-- The character that `kbd_feed_ascii` goes on with.
abbrev pub newline : ℕ → ℕ
newline c = if c == 13 then 10 else c

abbrev pub is_plain : ℕ → Bool
is_plain c = (c == 10) || (c == 8) || (c == 9) || (leb 32 c && leb c 126)

module _ {G : Type 0} (display : Display G) where
  open display use {gui_mode_active, gui_handle_key_event, handle_navigation_key}

  unfoldable pub kbd_gui_route_key : (keycode ch : ℕ) (pressed : Bool) → Keyboard → G → Bool × G
  kbd_gui_route_key keycode ch pressed k g =
      if gui_mode_active g
      then gui_handle_key_event keycode ch (kbd_modifiers k) pressed g
      else (false, g)

  -- `display_handle_navigation_key` on an arrow key: up is 2, down 3, left 0 and right 1.
  unfoldable pub navigate : ℕ → G → Bool × G
  navigate scancode g =
      if scancode == 72
      then handle_navigation_key 2 g
      else if scancode == 80
      then handle_navigation_key 3 g
      else if scancode == 75
      then handle_navigation_key 0 g
      else if scancode == 77
      then handle_navigation_key 1 g
      else (false, g)

  unfoldable pub kbd_try_handle_extended_press : ℕ → Keyboard → G → Bool × G
  kbd_try_handle_extended_press scancode k g =
      let keycode = kbd_gui_keycode_for_extended scancode in
      if keycode == 0
      then navigate scancode g
      else let (routed, g') = kbd_gui_route_key keycode 0 true k g in
        if routed then (true, g') else navigate scancode g'

  -- A key release that has a key code is shown to the display.
  unfoldable pub route_release : (keycode : ℕ) → Keyboard → G → G
  route_release keycode k g = if keycode == 0 then g else (kbd_gui_route_key keycode 0 false k g).1

  -- A scancode after 0xE0, in `keyboard_handler`.
  unfoldable pub extended_key : (scancode : ℕ) → Keyboard → G → Keyboard × G
  extended_key scancode k g =
      let code = scancode % 128 in
      (
        record k { extended_prefix = false },
        if leb 128 scancode
            then route_release (kbd_gui_keycode_for_extended code) k g
            else (kbd_try_handle_extended_press code k g).1,
      )

  -- The release of a key, in `keyboard_handler`.
  unfoldable pub release_key : (scancode : ℕ) → Keyboard → G → Keyboard × G
  release_key scancode k g =
      let code = scancode % 128 in
      let k' = if (code == 42) || (code == 54) then record k { shift_pressed = false } else k in
      (k', route_release (kbd_gui_keycode_for_scancode code) k' g)

  -- The press of a key other than shift, in `keyboard_handler`.
  unfoldable pub handle_press : (scancode : ℕ) → Keyboard → G → Keyboard × G
  handle_press scancode k g =
      let ch = char_of scancode k in
      let keycode = kbd_gui_keycode_for_scancode scancode in
      let (routed, g') =
        if gui_mode_active g then kbd_gui_route_key keycode ch true k g else (false, g) in
      (if routed then k else if ch == 0 then k else kbd_buffer_put ch k, g')

  unfoldable pub keyboard_handler : (scancode : ℕ) → Keyboard → G → Keyboard × G
  keyboard_handler scancode k g =
      if scancode == 224
      then (record k { extended_prefix = true }, g)
      else if k.extended_prefix
      then extended_key scancode k g
      else if leb 128 scancode
      then release_key scancode k g
      else if (scancode == 42) || (scancode == 54)
      then (record k { shift_pressed = true }, g)
      else handle_press scancode k g

  -- The press of a key other than shift, in `kbd_feed_scancode`, up to the routing and after it.
  unfoldable pub put_char : (scancode : ℕ) → Keyboard → G → Keyboard × G
  put_char scancode k g =
      if char_of scancode k == 0 then (k, g) else (kbd_buffer_put (char_of scancode k) k, g)

  unfoldable pub feed_press : (scancode : ℕ) → Keyboard → G → Keyboard × G
  feed_press scancode k g =
      let routed =
        kbd_gui_route_key (kbd_gui_keycode_for_scancode scancode) (char_of scancode k) true k g in
      if not (gui_mode_active g)
      then put_char scancode k g
      else if routed.0
      then (k, routed.1)
      else put_char scancode k routed.1

  -- `kbd_feed_scancode` has its own copies of both.
  unfoldable pub feed_extended : (scancode : ℕ) → Keyboard → G → Keyboard × G
  feed_extended scancode k g =
      let code = scancode % 128 in
      let g' : G =
        if leb 128 scancode
        then route_release (kbd_gui_keycode_for_extended code) k g
        else (kbd_try_handle_extended_press code k g).1 in
      (record k { extended_prefix = false }, g')

  unfoldable pub feed_release : (scancode : ℕ) → Keyboard → G → Keyboard × G
  feed_release scancode k g =
      let code = scancode % 128 in
      let k' : Keyboard =
        if (code == 42) || (code == 54) then record k { shift_pressed = false } else k in
      (k', route_release (kbd_gui_keycode_for_scancode code) k' g)

  unfoldable pub kbd_feed_scancode : (scancode : ℕ) → Keyboard → G → Keyboard × G
  kbd_feed_scancode scancode k g =
      if scancode == 224
      then (record k { extended_prefix = true }, g)
      else if k.extended_prefix
      then feed_extended scancode k g
      else if leb 128 scancode
      then feed_release scancode k g
      else if (scancode == 42) || (scancode == 54)
      then (record k { shift_pressed = true }, g)
      else feed_press scancode k g

  unfoldable pub kbd_send_scancode : (scancode : ℕ) → Keyboard → G → Keyboard × G
  kbd_send_scancode scancode k g =
      let (k', g') = kbd_feed_scancode scancode k g in kbd_feed_scancode (released scancode) k' g'

  -- What `kbd_feed_ascii` sends for a key, with shift around it where the character needs it.
  unfoldable pub shifted_send : (code : ℕ) → (shift : Bool) → Keyboard → G → Keyboard × G
  shifted_send code false k g = kbd_send_scancode code k g
  shifted_send code true k g =
      let (k1, g1) = kbd_feed_scancode 42 k g in
      let (k2, g2) = kbd_send_scancode code k1 g1 in kbd_feed_scancode 170 k2 g2

  unfoldable pub kbd_feed_ascii : (c : ℕ) → Keyboard → G → Keyboard × G
  kbd_feed_ascii c k g = elim (ascii_to_scancode (newline c)) [
    | some (code, shift) ↦ shifted_send code shift k g
    | none ↦ (if is_plain (newline c) then kbd_buffer_put (newline c) k else k, g)
  ]
