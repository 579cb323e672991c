-- ===== src/BlockCache.antt =====
-- kernel/block_cache.c: 64 sectors of a block device kept in memory, written through.
-- The critical sections keep interrupts out; each call runs as one step here.
pub mod Entries
pub mod Coherence
use skez_os.Prelude.{
  ℕ, ◌+◌, ◌%◌, Bool, true, false, ◌&&◌, Option, none, some, List, [], ◌∷◌, leb, ◌==◌, if◌then◌else◌,
  get_or, set, replicate, Status, ok, err, inval,
}
use skez_os.BlockDevice.{
  Sector, BlockDevice, block_device_read_sector, block_device_write_sector, block_device_flush,
}

-- `BLOCK_CACHE_ENTRY_COUNT`
abbrev pub entry_count : ℕ
entry_count = 64

-- `struct block_cache_entry`
pub record Entry : Type 0 where
  pub lba : ℕ
  pub bytes : Sector
  pub valid : Bool

abbrev pub empty_entry : Entry
empty_entry = record { lba = 0; bytes = replicate 512 0; valid = false }

-- The static variables; the device is bound or NULL.
pub record Cache (D : Type 0) : Type 0 where
  pub device : Option (BlockDevice D)
  pub entries : List Entry
  pub next_victim : ℕ

-- `block_cache_find_entry_locked`, from entry `i` on; `none` is -KERR_NOENT.
unfoldable pub find_entry : (lba i : ℕ) → List Entry → Option ℕ
find_entry lba i [] = none
find_entry lba i (e ∷ es) =
    let rest = find_entry lba (i + 1) es in if e.valid && (e.lba == lba) then some i else rest

abbrev pub entry_at : List Entry → ℕ → Entry
entry_at es i = get_or es i empty_entry

module _ {D : Type 0} where
  unfoldable pub block_cache_store_locked : (lba : ℕ) → Sector → Cache D → Cache D
  block_cache_store_locked lba sector_data c = elim (find_entry lba 0 c.entries) [
    | some idx ↦ record c {
      entries = set c.entries idx (record (entry_at c.entries idx) { bytes = sector_data });
    }
    | none ↦ record c {
      next_victim = (c.next_victim + 1) % entry_count;
      entries =
          set c.entries c.next_victim (record { lba = lba; bytes = sector_data; valid = true });
    }
  ]

  unfoldable pub block_cache_bind_device : BlockDevice D → Cache D → Status × Cache D
  block_cache_bind_device dev c = if dev.sector_count == 0 then (err inval, c) else (
    ok,
    record { device = some dev; entries = replicate entry_count empty_entry; next_victim = 0 },
  )

  unfoldable pub block_cache_is_ready : Cache D → Bool
  block_cache_is_ready c = elim c.device [ none ↦ false | some _ ↦ true ]

  unfoldable pub block_cache_sector_count : Cache D → ℕ
  block_cache_sector_count c = elim c.device [ none ↦ 0 | some dev ↦ dev.sector_count ]

  -- A read of the bound device that the cache does not answer.
  unfoldable pub read_miss : BlockDevice D → (lba : ℕ) → Cache D → D → Status × Sector × Cache D × D
  read_miss dev lba c d =
      let (rc, scratch, d') = block_device_read_sector dev lba d in
      elim rc [
        | err e ↦ (err e, [], c, d')
        | ok ↦ (ok, scratch, block_cache_store_locked lba scratch c, d')
      ]

  -- The status, what was stored in `out_sector`, the cache and the hardware.
  unfoldable pub block_cache_read_sector : (lba : ℕ) → Cache D → D → Status × Sector × Cache D × D
  block_cache_read_sector lba c d = elim c.device [
    | none ↦ (err inval, [], c, d)
    | some dev ↦
        if leb dev.sector_count lba
        then (err inval, [], c, d)
        else elim (find_entry lba 0 c.entries) [
          | some idx ↦ (ok, (entry_at c.entries idx).bytes, c, d)
          | none ↦ read_miss dev lba c d
        ]
  ]

  -- A write to the bound device, its flush, and then the cache.
  unfoldable pub write_through :
      BlockDevice D → (lba : ℕ) → Sector → Cache D → D → Status × Cache D × D
  write_through dev lba sector_data c d =
      let (rc, d') = block_device_write_sector dev lba sector_data d in
      elim rc [
        | err e ↦ (err e, c, d')
        | ok ↦
            let (rc', d'') = block_device_flush dev d' in
            elim rc' [
              | err e ↦ (err e, c, d'')
              | ok ↦ (ok, block_cache_store_locked lba sector_data c, d'')
            ]
      ]

  unfoldable pub block_cache_write_sector : (lba : ℕ) → Sector → Cache D → D → Status × Cache D × D
  block_cache_write_sector lba sector_data c d = elim c.device [
    | none ↦ (err inval, c, d)
    | some dev ↦
        if leb dev.sector_count lba
        then (err inval, c, d)
        else write_through dev lba sector_data c d
  ]

  unfoldable pub block_cache_flush : Cache D → D → Status × D
  block_cache_flush c d = elim c.device [
    | none ↦ (err inval, d)
    | some dev ↦ block_device_flush dev d
  ]
