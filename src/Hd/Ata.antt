-- ===== src/Hd/Ata.antt =====
-- src/kernel/hd.c: what `hd_read_bytes` reads from a drive that obeys the ATA protocol.
use Prim.Native.Nat.{bit_and}
use aneasyos.Base.{
  ℕ, zero, suc, ◌+◌, ◌-◌, ◌*◌, ◌/◌, ◌%◌, ◌<◌, ◌≤◌, ◌≡◌, refl, sym, ap, ◌∙◌, inl, inr, Bool-cases,
  true, false, ◌||◌, arith, ltb, ◌==◌, if◌then◌else◌,
}
use aneasyos.Base.Chunks.{Takes, takes}
use aneasyos.Text.{Memory}
use aneasyos.Text.Buffers.{patch, copy_in-patch, patch_none, patch_join, patch_same}
use aneasyos.Hd.Wait.{waitfor_answers}
use aneasyos.Hd.{
  HdCmd, Writes, Polls, Drive, returns, hangs, panics, in_time, ata_read, sector_size,
  register_writes, waitfor, hd_cmd_out, make_device_reg, read_cmd, next_sector, read_sectors,
  hd_read_bytes,
}

-- The address of a sector that the registers hold, the number of sectors for the sector count
-- register, where 0 stands for 256, and the drive that is selected.
abbrev pub address_in : HdCmd → ℕ
address_in cmd =
    cmd.lba_low + cmd.lba_mid * 0x100 + cmd.lba_high * 0x10000 + cmd.device % 0x10 * 0x1000000

abbrev pub sectors_in : ℕ → ℕ
sectors_in count = if count == 0 then 256 else count

abbrev pub selected : HdCmd → ℕ
selected cmd = cmd.device / 0x10 % 2

-- READ SECTORS with the LBA bit: an interrupt for each sector that is asked for, then that sector of
-- the disk at the data port.
pub record ReadsSectors (drive : Drive) (disk : ℕ → ℕ → ℕ → ℕ) : Type 0 where
  pub count :
      (cmd : HdCmd)
      → cmd.command ≡ ata_read
      → cmd.device / 0x40 % 2 ≡ 1
      → drive.irqs (register_writes cmd) ≡ sectors_in cmd.count
  pub sector :
      (cmd : HdCmd) (k : ℕ)
      → cmd.command ≡ ata_read
      → cmd.device / 0x40 % 2 ≡ 1
      → k < sectors_in cmd.count
      → drive.sector (register_writes cmd) k ≡ disk (selected cmd) (address_in cmd + k)

-- The bytes from a sector on.
abbrev pub bytes_from : (ℕ → ℕ → ℕ) → ℕ → ℕ → ℕ
bytes_from sector lba i = sector (lba + i / sector_size) (i % sector_size)

-- The registers of `read_cmd` hold the low 28 bits of the address and select the drive.
pub read_cmd_address :
    (features driver lba byte_cnt : ℕ)
    → driver < 2
    → (address_in (read_cmd features driver lba byte_cnt) ≡ lba % 0x1000_0000)
      × (selected (read_cmd features driver lba byte_cnt) ≡ driver)
      × ((read_cmd features driver lba byte_cnt).device / 0x40 % 2 ≡ 1)
unfolding read_cmd make_device_reg
read_cmd_address features driver lba byte_cnt d = (omega arith, omega arith, omega arith)

module _ (drive : Drive) (writes : Writes) where
  read_sectors_step :
      (fuel k : ℕ) (mem : Memory) (p n s : ℕ)
      → 0 < n
      → Takes 512 n s
      → k < drive.irqs writes
      → read_sectors (suc fuel) drive writes k mem p n
        ≡ read_sectors fuel drive writes
            (suc k)
            (patch mem p (drive.sector writes k) s)
            (p + s)
            (n - s)
  unfolding read_sectors next_sector
  read_sectors_step fuel k mem p n s pos size more =
      ground (arith, size, copy_in-patch mem p (drive.sector writes k) s)

  patch_sector :
      (k : ℕ) (mem : Memory) (p n s : ℕ)
      → Takes 512 n s
      → patch
          (patch mem p (drive.sector writes k) s)
          (p + s)
          (bytes_from (drive.sector writes) (suc k))
          (n - s)
        ≡ patch mem p (bytes_from (drive.sector writes) k) n
  patch_sector k mem p n s size =
      let bytes = bytes_from (drive.sector writes) k in
      let first : patch mem p (drive.sector writes k) s ≡ patch mem p bytes s =
        patch_same mem p (drive.sector writes k) bytes s (λ i h. ground (arith, size)) in
      let others : patch (patch mem p bytes s) (p + s) (bytes_from (drive.sector writes) (suc k))
            (n - s)
          ≡ patch (patch mem p bytes s) (p + s) (λ i. bytes (s + i)) (n - s) =
        patch_same (patch mem p bytes s) (p + s) (bytes_from (drive.sector writes) (suc k))
          (λ i. bytes (s + i)) (n - s) (λ i h. ground (arith, size)) in
      let total : s + (n - s) ≡ n = ground (arith, size) in
      ap (λ (m : Memory). patch m (p + s) (bytes_from (drive.sector writes) (suc k)) (n - s)) first
      ∙ others
      ∙ patch_join mem p bytes s (n - s)
      ∙ ap (patch mem p bytes) total

  -- The loop takes a sector for each 512 bytes, the last one in part.
  pub read_sectors_all :
      (fuel k : ℕ) (mem : Memory) (p n : ℕ)
      → n < fuel
      → k + (n + 511) / 512 ≤ drive.irqs writes
      → read_sectors fuel drive writes k mem p n
        ≡ returns (patch mem p (bytes_from (drive.sector writes) k) n)
  read_sectors_all zero k mem p n h enough = absurd (omega (arith, h))
  read_sectors_all (suc fuel) k mem p zero h enough =
      unfold read_sectors in
      ap returns (sym (patch_none mem p (bytes_from (drive.sector writes) k)))
  read_sectors_all (suc fuel) k mem p (suc n) h enough =
      let (s, size) = takes 512 (suc n) in
      read_sectors_step fuel k mem p (suc n) s (omega arith) size (omega (arith, enough))
      ∙ read_sectors_all fuel (suc k) (patch mem p (drive.sector writes k) s) (p + s) (suc n - s)
          (ground (arith, size, h)) (ground (arith, size, enough))
      ∙ ap returns (patch_sector k mem p (suc n) s size)

  -- With too few interrupts the loop waits for ever.
  pub read_sectors_hangs :
      (fuel k : ℕ) (mem : Memory) (p n : ℕ)
      → n < fuel
      → drive.irqs writes < k + (n + 511) / 512
      → k ≤ drive.irqs writes
      → read_sectors fuel drive writes k mem p n ≡ hangs
  unfolding read_sectors next_sector
  read_sectors_hangs zero k mem p n h few l = absurd (omega (arith, h))
  read_sectors_hangs (suc fuel) k mem p n h few l = elim (Bool-cases (ltb k (drive.irqs writes))) [
    | inr e ↦ ground (arith, e)
    | inl e ↦
        let (s, size) = takes 512 n in
        read_sectors_step fuel k mem p n s (omega arith) size (ground (arith, e))
        ∙ read_sectors_hangs fuel (suc k) (patch mem p (drive.sector writes k) s) (p + s) (n - s)
            (ground (arith, size, h)) (ground (arith, size, few, e)) (ground (arith, e))
  ]

module _ (disk : ℕ → ℕ → ℕ → ℕ) (drive : Drive) (ata : ReadsSectors drive disk) where
  irqs_read :
      (features driver lba byte_cnt : ℕ)
      → driver < 2
      → drive.irqs (register_writes (read_cmd features driver lba byte_cnt))
        ≡ sectors_in ((byte_cnt + 511) / 512 % 256)
  irqs_read features driver lba byte_cnt d =
      let (address, driven, bit) = read_cmd_address features driver lba byte_cnt d in
      ata.count (read_cmd features driver lba byte_cnt) (unfold read_cmd in refl) bit
      ∙ unfold read_cmd in
        ap sectors_in {x = (read_cmd features driver lba byte_cnt).count}
          {y = (byte_cnt + 511) / 512 % 256} (ground arith)

  sector_read :
      (features driver lba byte_cnt k : ℕ)
      → driver < 2
      → k < sectors_in ((byte_cnt + 511) / 512 % 256)
      → drive.sector (register_writes (read_cmd features driver lba byte_cnt)) k
        ≡ disk driver (lba % 0x1000_0000 + k)
  sector_read features driver lba byte_cnt k d h =
      let (address, driven, bit) = read_cmd_address features driver lba byte_cnt d in
      let cnt : (read_cmd features driver lba byte_cnt).count ≡ (byte_cnt + 511) / 512 % 256 =
        unfold read_cmd in ground arith in
      ata.sector (read_cmd features driver lba byte_cnt) k (unfold read_cmd in refl) bit (rw cnt h)
      ∙ rw (address, driven) refl

  -- `hd_read_bytes` of at most 256 sectors from a drive that becomes ready returns: at the buffer then
  -- stand the bytes of the disk from the sector on that the low 28 bits of `lba` name, and the rest
  -- of the memory is as it was.
  pub hd_read_bytes_reads :
      (fuel : ℕ) (polls : Polls) (features driver lba byte_cnt : ℕ) (mem : Memory) (p : ℕ)
      → driver < 2
      → byte_cnt ≤ 0x2_0000
      → waitfor fuel polls 0 0x80 0 1000 ≡ returns true
      → hd_read_bytes fuel polls drive features driver lba byte_cnt mem p
        ≡ returns (patch mem p (bytes_from (disk driver) (lba % 0x1000_0000)) byte_cnt)
  unfolding hd_read_bytes hd_cmd_out
  hd_read_bytes_reads fuel polls features driver lba byte_cnt mem p d few ready =
      let writes = register_writes (read_cmd features driver lba byte_cnt) in
      let there : ((driver == 0) || (driver == 1)) ≡ true = ground arith in
      rw (there, ready)
        (read_sectors_all drive writes (suc byte_cnt) 0 mem p byte_cnt (omega arith)
            (ground (arith, irqs_read features driver lba byte_cnt d))
          ∙ ap returns (
              patch_same mem p (bytes_from (drive.sector writes) 0)
                (bytes_from (disk driver) (lba % 0x1000_0000)) byte_cnt
                (λ i h.
                  ap (λ (k : ℕ). drive.sector writes k (i % 512)) (omega arith)
                  ∙ ap (λ (f : ℕ → ℕ). f (i % 512))
                      (sector_read features driver lba byte_cnt (i / 512) d (ground arith)))))

  -- Of more than 256 sectors the drive is asked for too few: `hd_read_bytes` then waits for ever for an
  -- interrupt.
  pub hd_read_bytes_hangs :
      (fuel : ℕ) (polls : Polls) (features driver lba byte_cnt : ℕ) (mem : Memory) (p : ℕ)
      → driver < 2
      → 0x2_0000 < byte_cnt
      → waitfor fuel polls 0 0x80 0 1000 ≡ returns true
      → hd_read_bytes fuel polls drive features driver lba byte_cnt mem p ≡ hangs
  unfolding hd_read_bytes hd_cmd_out
  hd_read_bytes_hangs fuel polls features driver lba byte_cnt mem p d many ready =
      let writes = register_writes (read_cmd features driver lba byte_cnt) in
      let there : ((driver == 0) || (driver == 1)) ≡ true = ground arith in
      rw (there, ready)
        (read_sectors_hangs drive writes (suc byte_cnt) 0 mem p byte_cnt (omega arith)
          (ground (arith, irqs_read features driver lba byte_cnt d)) (omega arith))

-- `hd_read_bytes` from a drive that is busy at each reading until the clock shows that a second is
-- over stops in a panic.
pub hd_read_bytes_busy :
    (polls : Polls) (drive : Drive) (features driver lba byte_cnt : ℕ) (mem : Memory) (p n : ℕ)
    → driver < 2
    → in_time polls 1000 n ≡ false
    → ((k : ℕ) → in_time polls 1000 k ≡ true → bit_and (polls.status k) 0x80 ≡ 0x80)
    → hd_read_bytes (suc n) polls drive features driver lba byte_cnt mem p ≡ panics
unfolding hd_read_bytes hd_cmd_out
hd_read_bytes_busy polls drive features driver lba byte_cnt mem p n d late busy =
    let there : ((driver == 0) || (driver == 1)) ≡ true = ground arith in
    let (answer, j, run, e) = waitfor_answers polls 0x80 0 1000 n late in
    elim (Bool-cases answer) [
      | inl t ↦ absurd (ground (arith, t, e.at, e.found t, busy j))
      | inr f ↦ rw (there, run, f) refl
    ]
