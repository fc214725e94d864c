-- ===== src/Fs/Disk.antt =====
-- src/fs/fat.c and src/kernel/hd.c: what the file system asks of the driver, and that the driver of
-- the hard disk gives it.
use aneasyos.Base.{ℕ, ◌%◌, ◌≤◌, ◌≡◌, true, arith}
use aneasyos.Text.{Memory}
use aneasyos.Text.Buffers.{patch}
use aneasyos.Hd.{Polls, Drive, returns, waitfor, hd_read_bytes}
use aneasyos.Hd.Ata.{ReadsSectors, bytes_from, hd_read_bytes_reads}
use aneasyos.Fs.{ReadBytes}

-- The sectors of drive 0, and a routine that reads up to 256 of them.
pub record HardDisk : Type 0 where
  pub read_bytes : ReadBytes
  pub sector : ℕ → ℕ → ℕ
  pub reads :
      (lba byte_cnt : ℕ) (mem : Memory) (p : ℕ)
      → byte_cnt ≤ 0x2_0000
      → read_bytes 0 lba byte_cnt mem p
        ≡ returns (patch mem p (bytes_from sector (lba % 0x1000_0000)) byte_cnt)

-- A drive that obeys the protocol and is ready at each command.
abbrev pub ata_disk :
    (disk : ℕ → ℕ → ℕ → ℕ) (drive : Drive) (fuel : ℕ) (polls : Polls) (features : ℕ)
    → ReadsSectors drive disk
    → waitfor fuel polls 0 0x80 0 1000 ≡ returns true
    → HardDisk
ata_disk disk drive fuel polls features ata ready = record {
  read_bytes = λ driver lba byte_cnt mem p.
      hd_read_bytes fuel polls drive features driver lba byte_cnt mem p;
  sector = disk 0;
  reads = λ lba byte_cnt mem p few.
      hd_read_bytes_reads disk drive ata fuel polls features 0 lba byte_cnt mem p (omega arith) few
        ready;
}
