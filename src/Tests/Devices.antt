-- ===== src/Tests/Devices.antt =====
-- Runs of kernel/block_cache.c on a small disk, and of kernel/keyboard.c.
use skez_os.Prelude.{
  ℕ, ◌≡◌, ◌≢◌, refl, true, false, none, some, [], ◌∷◌, ◌++◌, arith, replicate, ◌==◌, if◌then◌else◌,
  length, ltb, Status, ok, err, fault,
}
use skez_os.BlockDevice.{
  Sector, BlockDevice, Driver, block_device_read_sector, block_device_write_sector,
  block_device_flush,
}
use skez_os.BlockCache.{
  Cache, empty_entry, entry_at, entry_count, find_entry, block_cache_bind_device,
  block_cache_read_sector, block_cache_write_sector,
}
use skez_os.BlockCache.Entries.{Coherent, CoherentOn-mono}
use skez_os.BlockCache.Coherence.{
  Reads, Writes, block_cache_read_sector-Reads, block_cache_write_sector-Writes, stale_read,
  block_cache_bind_device-Coherent,
}
use skez_os.Keyboard.{
  Display, initial, kbd_buffer_put, kbd_getchar, kbd_feed_scancode, keyboard_handler,
  kbd_feed_ascii, newline, is_plain,
}
use skez_os.Keyboard.Buffer.{
  IsBuffer, pending, char_list, kbd_buffer_put-pending, kbd_getchar-pending,
}
use skez_os.Keyboard.Feed.{kbd_feed_scancode-keyboard_handler, kbd_feed_ascii-kbd_buffer_put}

-- A disk of four sectors, whose flush gives `flushed`.
abbrev Disk : Type 0
Disk = ℕ → Sector

abbrev disk : Status → BlockDevice Disk
disk flushed = record {
  ops = record {
    read_sector = some (λ lba d. (ok, d lba, d));
    write_sector = some (λ lba x d. (ok, λ k. if k == lba then x else d k));
    flush = some (λ d. (flushed, d));
  };
  sector_count = 4;
}

disk-Driver : (flushed : Status) → Driver (disk flushed)
unfolding block_device_read_sector block_device_write_sector block_device_flush
disk-Driver flushed = record {
  sector = λ lba d. d lba;
  read_gives = λ lba d. ground arith;
  read_keeps = λ lba k d. ground arith;
  write_stores = λ lba x d. ground arith;
  write_keeps = λ lba k x d. ground arith;
  flush_keeps = λ k d. refl;
}

abbrev blank : Disk
blank k = k ∷ []

abbrev unbound : Cache Disk
unbound = record { device = none; entries = replicate entry_count empty_entry; next_victim = 0 }

abbrev bound_to : Status → Cache Disk
bound_to flushed = (block_cache_bind_device (disk flushed) unbound).1

sectors : (flushed : Status) → (disk flushed).sector_count ≢ 0
sectors flushed z = omega (arith, z)

bound_to-Coherent : (flushed : Status) → Coherent (disk-Driver flushed) (bound_to flushed) blank
bound_to-Coherent flushed =
    (block_cache_bind_device-Coherent (disk-Driver flushed) unbound blank (sectors flushed)).1

block_cache_read_sector-Reads_example :
    Reads (disk-Driver ok) 2 blank (block_cache_read_sector 2 (bound_to ok) blank)
block_cache_read_sector-Reads_example =
    block_cache_read_sector-Reads (disk-Driver ok) 2 (bound_to ok) blank (bound_to-Coherent ok)

block_cache_write_sector-Writes_example :
    Writes
      (disk-Driver ok)
      2
      (9 ∷ [])
      blank
      (block_cache_write_sector 2 (9 ∷ []) (bound_to ok) blank)
block_cache_write_sector-Writes_example =
    block_cache_write_sector-Writes (disk-Driver ok) 2 (9 ∷ []) (bound_to ok) blank
      (CoherentOn-mono (disk-Driver ok) (bound_to-Coherent ok) (λ k _. (tt, refl)))

-- Sector 2 is cached, and the flush of a write to it fails.
abbrev cached : Cache Disk
cached = record {
  device = some (disk (err fault));
  entries = record { lba = 2; bytes = 2 ∷ []; valid = true } ∷ [];
  next_victim = 0;
}

cached_at : find_entry 2 0 cached.entries ≡ some 0
unfolding find_entry
cached_at = refl

write_ok : (block_device_write_sector (disk (err fault)) 2 (9 ∷ []) blank).0 ≡ ok
unfolding block_device_write_sector
write_ok = refl

flush_fails :
    (block_device_flush
      (disk (err fault))
      (block_device_write_sector (disk (err fault)) 2 (9 ∷ []) blank).1).0
    ≡ err fault
unfolding block_device_flush
flush_fails = refl

stale_read_example :
    let (rc, c', d') = block_cache_write_sector 2 (9 ∷ []) cached blank in
    let (rc', got, c'', d'') = block_cache_read_sector 2 c' d' in
    (rc ≡ err fault)
    × (rc' ≡ ok)
    × (got ≡ (entry_at cached.entries 0).bytes)
    × ((disk-Driver (err fault)).sector 2 d' ≡ 9 ∷ [])
stale_read_example =
    stale_read (disk-Driver (err fault)) 2 0 (9 ∷ []) cached blank refl (omega arith) cached_at
      write_ok flush_fails

-- A display in text mode, which takes no key.
abbrev text_display : Display ℕ
text_display = record {
  gui_mode_active = λ g. false;
  gui_handle_key_event = λ keycode ch modifiers pressed g. (false, g);
  handle_navigation_key = λ key g. (false, g);
}

initial-IsBuffer : IsBuffer initial
initial-IsBuffer = record { storage = refl; head_in = omega arith; tail_in = omega arith }

kbd_buffer_put-pending_example :
    IsBuffer (kbd_buffer_put 97 initial)
    × (pending (kbd_buffer_put 97 initial) ≡ (
        if ltb (length (pending initial)) 127
        then pending initial ++ (97 ∷ [])
        else pending initial))
kbd_buffer_put-pending_example = kbd_buffer_put-pending 97 initial initial-IsBuffer

one_char-IsBuffer : IsBuffer (kbd_buffer_put 97 initial)
one_char-IsBuffer = (kbd_buffer_put-pending 97 initial initial-IsBuffer).0

kbd_getchar-pending_example :
    let (got, k') = kbd_getchar (kbd_buffer_put 97 initial) in
    IsBuffer k'
    × (pending (kbd_buffer_put 97 initial) ≡ char_list got ++ pending k')
    × (got ≡ none → pending (kbd_buffer_put 97 initial) ≡ [])
kbd_getchar-pending_example = kbd_getchar-pending (kbd_buffer_put 97 initial) one_char-IsBuffer

kbd_feed_scancode-keyboard_handler_example :
    kbd_feed_scancode text_display 30 initial 0 ≡ keyboard_handler text_display 30 initial 0
kbd_feed_scancode-keyboard_handler_example =
    kbd_feed_scancode-keyboard_handler text_display 30 initial 0

kbd_feed_ascii-kbd_buffer_put_example :
    kbd_feed_ascii text_display 65 initial 0
    ≡ ((if is_plain (newline 65) then kbd_buffer_put (newline 65) initial else initial), 0)
kbd_feed_ascii-kbd_buffer_put_example =
    kbd_feed_ascii-kbd_buffer_put text_display {g = 0} refl 65 initial (omega arith) refl refl
