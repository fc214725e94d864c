-- ===== src/Hd/Tests.antt =====
-- src/kernel/hd.c: the theorems at a small disk.
use aneasyos.Base.{◌≡◌, refl, false, ◌%◌, arith}
use aneasyos.Hd.{returns, hangs, panics, in_time, hd_read_bytes}
use aneasyos.Hd.Ata.{bytes_from, hd_read_bytes_reads, hd_read_bytes_hangs, hd_read_bytes_busy}
use aneasyos.Hd.Samples.{
  disk, drive, drive-ReadsSectors, ready_polls, busy_polls, ready_polls_ready,
}
use aneasyos.Text.Buffers.{patch}

late : in_time busy_polls 1000 1 ≡ false
unfolding in_time
late = refl

hd_read_bytes_reads_example :
    hd_read_bytes 1 ready_polls drive 0 0 7 700 (λ a. 0) 100
    ≡ returns (patch (λ a. 0) 100 (bytes_from (disk 0) (7 % 0x1000_0000)) 700)
hd_read_bytes_reads_example =
    hd_read_bytes_reads disk drive drive-ReadsSectors 1 ready_polls 0 0 7 700 (λ a. 0) 100
      (omega arith) (omega arith) ready_polls_ready

hd_read_bytes_hangs_example : hd_read_bytes 1 ready_polls drive 0 0 7 0x2_0001 (λ a. 0) 100 ≡ hangs
hd_read_bytes_hangs_example =
    hd_read_bytes_hangs disk drive drive-ReadsSectors 1 ready_polls 0 0 7 0x2_0001 (λ a. 0) 100
      (omega arith) (omega arith) ready_polls_ready

hd_read_bytes_busy_example : hd_read_bytes 2 busy_polls drive 0 0 7 700 (λ a. 0) 100 ≡ panics
hd_read_bytes_busy_example =
    hd_read_bytes_busy busy_polls drive 0 0 7 700 (λ a. 0) 100 1 (omega arith) late
      (λ k early. refl)
