-- ===== src/BlockDevice.antt =====
-- kernel/block_device.c: the dispatch to a block device's driver.
-- `D` is the state of the hardware behind the driver. A sector is the list of its bytes; buffers and
-- devices that are passed on are not NULL, but an operation of a driver may be.
use skez_os.Prelude.{
  ℕ, ◌≡◌, ◌≢◌, Option, none, some, List, [], leb, if◌then◌else◌, Status, ok, err, inval,
}

abbrev pub Sector : Type 0
Sector = List ℕ

-- `struct block_device_ops`
pub record BlockDeviceOps (D : Type 0) : Type 0 where
  pub read_sector : Option (ℕ → D → Status × Sector × D)
  pub write_sector : Option (ℕ → Sector → D → Status × D)
  pub flush : Option (D → Status × D)

-- `struct block_device`
pub record BlockDevice (D : Type 0) : Type 0 where
  pub ops : BlockDeviceOps D
  pub sector_count : ℕ

module _ {D : Type 0} where
  -- The status, what was stored in `out_sector`, and the hardware.
  unfoldable pub block_device_read_sector : BlockDevice D → (lba : ℕ) → D → Status × Sector × D
  block_device_read_sector dev lba d = elim dev.ops.read_sector [
    | none ↦ (err inval, [], d)
    | some read_sector ↦ if leb dev.sector_count lba then (err inval, [], d) else read_sector lba d
  ]

  unfoldable pub block_device_write_sector : BlockDevice D → (lba : ℕ) → Sector → D → Status × D
  block_device_write_sector dev lba sector_data d = elim dev.ops.write_sector [
    | none ↦ (err inval, d)
    | some write_sector ↦
        if leb dev.sector_count lba then (err inval, d) else write_sector lba sector_data d
  ]

  unfoldable pub block_device_flush : BlockDevice D → D → Status × D
  block_device_flush dev d = elim dev.ops.flush [ none ↦ (err inval, d) | some flush ↦ flush d ]

-- What a driver promises of the sectors that its hardware holds: a read returns the sector and changes
-- none; a write that succeeds stores the sector, and no write touches another; a flush changes none.
pub record Driver {D : Type 0} (dev : BlockDevice D) : Type 0 where
  pub sector : ℕ → D → Sector
  pub read_gives :
      (lba : ℕ) (d : D)
      → (block_device_read_sector dev lba d).0 ≡ ok
      → (block_device_read_sector dev lba d).1 ≡ sector lba d
  pub read_keeps :
      (lba k : ℕ) (d : D) → sector k (block_device_read_sector dev lba d).2 ≡ sector k d
  pub write_stores :
      (lba : ℕ) (x : Sector) (d : D)
      → (block_device_write_sector dev lba x d).0 ≡ ok
      → sector lba (block_device_write_sector dev lba x d).1 ≡ x
  pub write_keeps :
      (lba k : ℕ) (x : Sector) (d : D)
      → k ≢ lba
      → sector k (block_device_write_sector dev lba x d).1 ≡ sector k d
  pub flush_keeps : (k : ℕ) (d : D) → sector k (block_device_flush dev d).1 ≡ sector k d
