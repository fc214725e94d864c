-- ===== src/Hd/Samples.antt =====
-- src/kernel/hd.c: a small disk, a drive that gives its sectors, and a clock.
use aneasyos.Base.{ℕ, ◌+◌, ◌*◌, ◌/◌, ◌%◌, ◌≡◌, refl, true, [], ◌∷◌, ◌==◌, if◌then◌else◌}
use aneasyos.Hd.{Writes, Polls, Drive, returns, waitfor, register_writes, in_time}
use aneasyos.Hd.Ata.{sectors_in, ReadsSectors}

-- What was written to a port first.
abbrev reg : ℕ → Writes → ℕ
reg port [] = 0
reg port ((p, v) ∷ writes) = if p == port then v else reg port writes

-- The boot record with a partition at sector 1.
abbrev boot_record : ℕ → ℕ
boot_record i = if i == 0x1c6 then 1 else 0

-- The boot sector: 512 bytes in a sector, 4 sectors in a cluster, one reserved sector, one FAT of one
-- sector, 16 entries in the root directory.
abbrev boot_sector : ℕ → ℕ
boot_sector i =
    if i == 12
    then 2
    else if i == 13
    then 4
    else if i == 14
    then 1
    else if i == 16
    then 1
    else if i == 17
    then 16
    else if i == 22
    then 1
    else 0

-- The clusters 2 and 3 are a chain.
abbrev fat_sector : ℕ → ℕ
fat_sector i = if i == 4 then 3 else if i == 6 then 0xff else if i == 7 then 0xff else 0

-- The file "1.TXT" of 3000 bytes, from the cluster 2 on, a deleted entry and the end mark.
abbrev root_dir : ℕ → ℕ
root_dir i =
    if i == 0
    then b'1'
    else if i == 8
    then b'T'
    else if i == 9
    then b'X'
    else if i == 10
    then b'T'
    else if i == 26
    then 2
    else if i == 28
    then 0xb8
    else if i == 29
    then 0xb
    else if i == 32
    then 0xe5
    else if i == 64
    then 0
    else b' '

abbrev pub disk : ℕ → ℕ → ℕ → ℕ
disk driver lba i =
    if lba == 0
    then boot_record i
    else if lba == 1
    then boot_sector i
    else if lba == 2
    then fat_sector i
    else if lba == 3
    then root_dir i
    else lba

abbrev pub drive : Drive
drive = record {
  irqs = λ writes. sectors_in (reg 0x1f2 writes);
  sector = λ writes k. disk (reg 0x1f6 writes / 0x10 % 2) (
      reg 0x1f3 writes
      + reg 0x1f4 writes * 0x100
      + reg 0x1f5 writes * 0x10000
      + reg 0x1f6 writes % 0x10 * 0x1000000
      + k);
}

pub drive-ReadsSectors : ReadsSectors drive disk
unfolding register_writes
drive-ReadsSectors = record { count = λ cmd read bit. refl; sector = λ cmd k read bit h. refl }

-- A drive that is ready, and one that stays busy, while the clock goes on by 0.6 seconds each time.
abbrev pub ready_polls : Polls
ready_polls = record { ticks = λ k. 60 * k; status = λ k. 0x40 }

abbrev pub busy_polls : Polls
busy_polls = record { ticks = λ k. 60 * k; status = λ k. 0x80 }

pub ready_polls_ready : waitfor 1 ready_polls 0 0x80 0 1000 ≡ returns true
unfolding waitfor in_time
ready_polls_ready = refl
