-- ===== src/BlockCache/Coherence.antt =====
-- The calls of kernel/block_cache.c against the sectors that the device's hardware holds.
use skez_os.Prelude.{
  ℕ, zero, suc, ◌<◌, ◌≡◌, ◌≢◌, refl, sym, ap, ◌∙◌, inl, inr, true, false, none, some, [], arith,
  ◌==◌, leb, replicate, Bool-cases, Option-cases, Status, ok, err, inval, Errno, ◌⊎◌,
}
use skez_os.BlockDevice.{
  Sector, BlockDevice, Driver, block_device_read_sector, block_device_write_sector,
  block_device_flush,
}
use skez_os.BlockCache.{
  Cache, entry_count, empty_entry, entry_at, find_entry, block_cache_store_locked, read_miss,
  write_through, block_cache_bind_device, block_cache_read_sector, block_cache_write_sector,
}
use skez_os.BlockCache.Entries.{
  CoherentOn, Coherent, CoherentOn-mono, store-Coherent, find_entry-some,
}

Result-cases : (s : Status) → (s ≡ ok) ⊎ ((e : Errno) × (s ≡ err e))
Result-cases ok = inl refl
Result-cases (err e) = inr (e, refl)

get_or-replicate : (n i : ℕ) → (entry_at (replicate n empty_entry) i).valid ≡ false
get_or-replicate zero i = refl
get_or-replicate (suc n) zero = refl
get_or-replicate (suc n) (suc i) = get_or-replicate n i

module _ {D : Type 0} {dev : BlockDevice D} (drv : Driver dev) where
  -- What a read must do: keep the cache coherent and the sectors as they are, and return the sector.
  abbrev pub Reads : (lba : ℕ) → D → Status × Sector × Cache D × D → Type 0
  Reads lba d r =
      Coherent drv r.2 r.3
      × ((k : ℕ) → drv.sector k r.3 ≡ drv.sector k d)
      × (r.0 ≡ ok → r.1 ≡ drv.sector lba d)

  module _ (lba : ℕ) (c : Cache D) (d : D) where
    read_miss-err :
        {e : Errno}
        → (block_device_read_sector dev lba d).0 ≡ err e
        → read_miss dev lba c d ≡ (err e, [], c, (block_device_read_sector dev lba d).2)
    unfolding read_miss
    read_miss-err h = rw (h, read_miss)

    read_miss-ok :
        (block_device_read_sector dev lba d).0 ≡ ok
        → read_miss dev lba c d ≡ (
          ok,
          (block_device_read_sector dev lba d).1,
          block_cache_store_locked lba (block_device_read_sector dev lba d).1 c,
          (block_device_read_sector dev lba d).2,
        )
    unfolding read_miss
    read_miss-ok h = rw (h, read_miss)

    read_miss-Reads : Coherent drv c d → Reads lba d (read_miss dev lba c d)
    read_miss-Reads co =
        let keeps = λ (k : ℕ). drv.read_keeps lba k d in
        elim (Result-cases (block_device_read_sector dev lba d).0) [
          | inl h ↦
              let same = drv.read_gives lba d h in
              rw (read_miss-ok h) (
                store-Coherent drv (CoherentOn-mono drv co (λ k _. (tt, keeps k)))
                    (keeps lba ∙ sym same),
                keeps,
                λ _. same,
              )
          | inr (e, h) ↦ rw (read_miss-err h) (
            CoherentOn-mono drv co (λ k _. (tt, keeps k)),
            keeps,
            λ s. absurd (ground (arith, s)),
          )
        ]

    read-past :
        c.device ≡ some dev
        → leb dev.sector_count lba ≡ true
        → block_cache_read_sector lba c d ≡ (err inval, [], c, d)
    unfolding block_cache_read_sector
    read-past b past = simp (b, past, block_cache_read_sector)

    read-hit :
        c.device ≡ some dev
        → leb dev.sector_count lba ≡ false
        → {i : ℕ} → find_entry lba 0 c.entries ≡ some i
        → block_cache_read_sector lba c d ≡ (ok, (entry_at c.entries i).bytes, c, d)
    unfolding block_cache_read_sector
    read-hit b inside h = simp (b, inside, h, block_cache_read_sector)

    read-miss :
        c.device ≡ some dev
        → leb dev.sector_count lba ≡ false
        → find_entry lba 0 c.entries ≡ none
        → block_cache_read_sector lba c d ≡ read_miss dev lba c d
    unfolding block_cache_read_sector
    read-miss b inside h = simp (b, inside, h, block_cache_read_sector)

  -- For a driver whose reads give what the device holds, and a cache that agrees with its device:
  -- `block_cache_read_sector` leaves the two in agreement and every sector of the device as it was,
  -- whatever it returns; when it returns 0, the bytes that it gives are the sector that the device
  -- holds.
  pub block_cache_read_sector-Reads :
      (lba : ℕ) (c : Cache D) (d : D)
      → Coherent drv c d
      → Reads lba d (block_cache_read_sector lba c d)
  block_cache_read_sector-Reads lba c d co = elim (Bool-cases (leb dev.sector_count lba)) [
    | inl past ↦
        rw (read-past lba c d co.bound past) (co, λ _. refl, λ s. absurd (ground (arith, s)))
    | inr inside ↦ elim (Option-cases (find_entry lba 0 c.entries)) [
      | inl h ↦ rw (read-miss lba c d co.bound inside h) (read_miss-Reads lba c d co)
      | inr (i, h) ↦
          let (lt, (valid, same)) = find_entry-some lba c.entries h in
          rw (read-hit lba c d co.bound inside h)
            (co, λ _. refl, λ _. co.fresh i valid tt ∙ ap (λ k. drv.sector k d) same)
    ]
  ]

  -- What a write must do: keep the cache bound and every other sector as it is, cached or not; when
  -- it returns 0, the device holds the new bytes and the cache agrees with it.
  abbrev pub Writes : (lba : ℕ) → Sector → D → Status × Cache D × D → Type 0
  Writes lba x d r =
      CoherentOn drv (λ k. k ≢ lba) r.1 r.2
      × ((k : ℕ) → k ≢ lba → drv.sector k r.2 ≡ drv.sector k d)
      × (r.0 ≡ ok → Coherent drv r.1 r.2 × (drv.sector lba r.2 ≡ x))

  module _ (lba : ℕ) (x : Sector) (c : Cache D) (d : D) where
    write-failed :
        {e : Errno}
        → (block_device_write_sector dev lba x d).0 ≡ err e
        → write_through dev lba x c d ≡ (err e, c, (block_device_write_sector dev lba x d).1)
    unfolding write_through
    write-failed h = rw (h, write_through)

    flush-failed :
        {e : Errno}
        → (block_device_write_sector dev lba x d).0 ≡ ok
        → (block_device_flush dev (block_device_write_sector dev lba x d).1).0 ≡ err e
        → write_through dev lba x c d
          ≡ (err e, c, (block_device_flush dev (block_device_write_sector dev lba x d).1).1)
    unfolding write_through
    flush-failed h f = rw (h, f, write_through)

    write-done :
        (block_device_write_sector dev lba x d).0 ≡ ok
        → (block_device_flush dev (block_device_write_sector dev lba x d).1).0 ≡ ok
        → write_through dev lba x c d ≡ (
          ok,
          block_cache_store_locked lba x c,
          (block_device_flush dev (block_device_write_sector dev lba x d).1).1,
        )
    unfolding write_through
    write-done h f = rw (h, f, write_through)

    write-past :
        c.device ≡ some dev
        → leb dev.sector_count lba ≡ true
        → block_cache_write_sector lba x c d ≡ (err inval, c, d)
    unfolding block_cache_write_sector
    write-past b past = simp (b, past, block_cache_write_sector)

    write-inside :
        c.device ≡ some dev
        → leb dev.sector_count lba ≡ false
        → block_cache_write_sector lba x c d ≡ write_through dev lba x c d
    unfolding block_cache_write_sector
    write-inside b inside = simp (b, inside, block_cache_write_sector)

    write_through-Writes :
        CoherentOn drv (λ k. k ≢ lba) c d → Writes lba x d (write_through dev lba x c d)
    write_through-Writes co =
        let d' = (block_device_write_sector dev lba x d).1 in
        let d'' = (block_device_flush dev d').1 in
        let others =
          λ (k : ℕ) (ne : k ≢ lba). drv.flush_keeps k d' ∙ drv.write_keeps lba k x d ne in
        let co' : CoherentOn drv (λ k. k ≢ lba) c d'' =
          CoherentOn-mono drv co (λ k ne. (ne, others k ne)) in
        elim (Result-cases (block_device_write_sector dev lba x d).0) [
          | inr (e, h) ↦ rw (write-failed h) (
            CoherentOn-mono drv co (λ k ne. (ne, drv.write_keeps lba k x d ne)),
            λ k ne. drv.write_keeps lba k x d ne,
            λ s. absurd (ground (arith, s)),
          )
          | inl h ↦ elim (Result-cases (block_device_flush dev d').0) [
            | inr (e, f) ↦ rw (flush-failed h f) (co', others, λ s. absurd (ground (arith, s)))
            | inl f ↦
                let holds = drv.flush_keeps lba d' ∙ drv.write_stores lba x d h in
                let all = store-Coherent drv co' holds in
                rw (write-done h f)
                  (CoherentOn-mono drv all (λ k _. (tt, refl)), others, λ _. (all, holds))
          ]
        ]

  -- For a driver that stores what it reports stored, and a cache that agrees with its device outside
  -- sector `lba`: whatever `block_cache_write_sector` returns, cache and device agree outside that
  -- sector and every other sector of the device is as it was; when it returns 0, the device holds the
  -- new bytes in that sector and the cache agrees with the device everywhere.
  pub block_cache_write_sector-Writes :
      (lba : ℕ) (x : Sector) (c : Cache D) (d : D)
      → CoherentOn drv (λ k. k ≢ lba) c d
      → Writes lba x d (block_cache_write_sector lba x c d)
  block_cache_write_sector-Writes lba x c d co = elim (Bool-cases (leb dev.sector_count lba)) [
    | inl past ↦
        rw (write-past lba x c d co.bound past) (co, λ _ _. refl, λ s. absurd (ground (arith, s)))
    | inr inside ↦ rw (write-inside lba x c d co.bound inside) (write_through-Writes lba x c d co)
  ]

  -- When the driver stores a cached sector of the bound device and its flush then fails,
  -- `block_cache_write_sector` returns that error and leaves the cached copy: a read then returns 0
  -- with the bytes that were cached before, while the device holds the new ones.
  pub stale_read :
      (lba i : ℕ) (x : Sector) (c : Cache D) (d : D) {e : Errno}
      → c.device ≡ some dev
      → lba < dev.sector_count
      → find_entry lba 0 c.entries ≡ some i
      → (block_device_write_sector dev lba x d).0 ≡ ok
      → (block_device_flush dev (block_device_write_sector dev lba x d).1).0 ≡ err e
      → let (rc, c', d') = block_cache_write_sector lba x c d in
        let (rc', got, c'', d'') = block_cache_read_sector lba c' d' in
        (rc ≡ err e) × (rc' ≡ ok) × (got ≡ (entry_at c.entries i).bytes) × (drv.sector lba d' ≡ x)
  stale_read lba i x c d b lt hit h f =
      let inside : leb dev.sector_count lba ≡ false = ground arith in
      let d' = (block_device_write_sector dev lba x d).1 in
      rw (write-inside lba x c d b inside ∙ flush-failed lba x c d h f) (
        rw (read-hit lba c (block_device_flush dev d').1 b inside hit)
          (refl, refl, refl, drv.flush_keeps lba d' ∙ drv.write_stores lba x d h))

  -- Binding a device that has sectors returns 0 and leaves a cache that agrees with the device.
  pub block_cache_bind_device-Coherent :
      (c : Cache D) (d : D)
      → dev.sector_count ≢ 0
      → ((block_cache_bind_device dev c).0 ≡ ok) × Coherent drv (block_cache_bind_device dev c).1 d
  unfolding block_cache_bind_device
  block_cache_bind_device-Coherent c d nz =
      let invalid = get_or-replicate entry_count in
      let some_sectors : (dev.sector_count == 0) ≡ false = ground arith in
      rw some_sectors (
        refl,
        record {
          bound = refl;
          length_entries = refl;
          victim_in = omega arith;
          fresh = λ i valid. absurd (ground (arith, invalid i, valid));
          unique = λ i j valid. absurd (ground (arith, invalid i, valid));
        },
      )
