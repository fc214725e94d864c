-- ===== src/Hd.antt =====
-- src/kernel/hd.c and src/include/hd.h: the driver of the hard disk.
-- The drive and the clock are outside of the source. `Polls` gives what the calls of `get_ticks` and
-- the readings of the status port answer, one after the other; `Drive` what the drive does after a
-- list of writes to its ports: how many interrupts it raises, and the sector that the data port
-- gives after each of them. A wait for an interrupt that does not come never ends.
pub mod Wait
pub mod Ata
pub mod Samples
mod Tests
use Prim.Native.Nat.{bit_and}
use aneasyos.Base.{
  ℕ, zero, suc, ◌+◌, ◌-◌, ◌*◌, ◌/◌, ◌%◌, Bool, true, false, ◌||◌, List, [], ◌∷◌, ltb, ◌==◌, ◌!=◌,
  if◌then◌else◌,
}
use aneasyos.Base.Word.{add32, sub32, mul32, sdiv, slt}
use aneasyos.Base.Flags.{has_flag}
use aneasyos.Text.{Memory}
use aneasyos.Text.Buffers.{copy_in}
use aneasyos.Kernel.{Kernel}
use aneasyos.Kernel
use aneasyos.Ipc.Receive.{inform_int}

-- How a routine of the driver or of the file system can end: with a value, in a failed `assert` or a
-- `panic`, or never, in a wait for an interrupt; `no_fuel` is a loop that needs more rounds.
pub data Result (A : Type 0) : Type 0 where
  returns : A → Result A
  fails : Result A
  panics : Result A
  hangs : Result A
  no_fuel : Result A

module _ {A B : Type 0} where
  infixl 5 ◌>>=◌ ◌>>◌
  abbrev pub ◌>>=◌ : Result A → (A → Result B) → Result B
  returns a >>= f = f a
  fails >>= f = fails
  panics >>= f = panics
  hangs >>= f = hangs
  no_fuel >>= f = no_fuel

  abbrev pub ◌>>◌ : Result A → Result B → Result B
  m >> n = m >>= λ a. n

abbrev pub check : Bool → Result (Unit {0})
check true = returns tt
check false = fails

abbrev pub sector_size : ℕ
sector_size = 512

pub record HdCmd : Type 0 where
  pub features : ℕ
  pub count : ℕ
  pub lba_low : ℕ
  pub lba_mid : ℕ
  pub lba_high : ℕ
  pub device : ℕ
  pub command : ℕ

pub record PartEnt : Type 0 where
  pub boot_ind : ℕ
  pub start_head : ℕ
  pub start_sector : ℕ
  pub start_cyl : ℕ
  pub sys_id : ℕ
  pub end_head : ℕ
  pub end_sector : ℕ
  pub end_cyl : ℕ
  pub start_sect : ℕ
  pub nr_sects : ℕ

-- A port and the byte written to it.
abbrev pub Writes : Type 0
Writes = List (ℕ × ℕ)

pub record Polls : Type 0 where
  pub ticks : ℕ → ℕ
  pub status : ℕ → ℕ

pub record Drive : Type 0 where
  pub irqs : Writes → ℕ
  pub sector : Writes → ℕ → ℕ → ℕ

abbrev pub ata_identify : ℕ
ata_identify = 0xec

abbrev pub ata_read : ℕ
ata_read = 0x20

abbrev pub partition_table_offset : ℕ
partition_table_offset = 0x1be

-- MAKE_DEVICE_REG; the bits do not overlap for a drive 0 or 1.
unfoldable pub make_device_reg : ℕ → ℕ → ℕ → ℕ
make_device_reg use_lba drv lba_highest = use_lba * 0x40 + drv * 0x10 + lba_highest % 0x10 + 0xa0

-- The condition of the loop of `waitfor` at its round `k`, with HZ = 100.
unfoldable pub in_time : Polls → ℕ → ℕ → Bool
in_time polls timeout k =
    slt (sdiv (mul32 (sub32 (polls.ticks (suc k)) (polls.ticks 0)) 1000) 100) timeout

unfoldable pub waitfor : ℕ → Polls → ℕ → ℕ → ℕ → ℕ → Result Bool
waitfor zero polls k mask val timeout = no_fuel
waitfor (suc fuel) polls k mask val timeout =
    let rest = waitfor fuel polls (suc k) mask val timeout in
    if in_time polls timeout k
    then (if bit_and (polls.status k) mask == val then returns true else rest)
    else returns false

-- The writes of `hd_cmd_out` to the ports REG_DEV_CTRL, REG_FEATURES to REG_DEVICE, and REG_CMD.
unfoldable pub register_writes : HdCmd → Writes
register_writes cmd =
    (0x3f6, 0)
    ∷ ((0x1f1, cmd.features)
        ∷ ((0x1f2, cmd.count)
            ∷ ((0x1f3, cmd.lba_low)
                ∷ ((0x1f4, cmd.lba_mid)
                    ∷ ((0x1f5, cmd.lba_high)
                        ∷ ((0x1f6, cmd.device) ∷ ((0x1f7, cmd.command) ∷ [])))))))

-- STATUS_BSY is 0x80, HD_TIMEOUT is 1000.
unfoldable pub hd_cmd_out : ℕ → Polls → HdCmd → Result Writes
hd_cmd_out fuel polls cmd = do
  ready ← waitfor fuel polls 0 0x80 0 1000
  if ready then returns (register_writes cmd) else panics

-- The command of `hd_read_bytes`; `features` is what the uninitialised field holds.
unfoldable pub read_cmd : ℕ → ℕ → ℕ → ℕ → HdCmd
read_cmd features driver lba byte_cnt = record {
  features = features;
  count = (byte_cnt / sector_size + (if byte_cnt % sector_size != 0 then 1 else 0)) % 0x100;
  lba_low = lba % 0x100;
  lba_mid = lba / 0x100 % 0x100;
  lba_high = lba / 0x10000 % 0x100;
  device = make_device_reg 1 driver (lba / 0x1000000 % 0x10);
  command = ata_read;
}

-- `interrupt_wait` and `port_read` of the sector number `k` of the command.
unfoldable pub next_sector : Drive → Writes → ℕ → Result (ℕ → ℕ)
next_sector drive writes k =
    if ltb k (drive.irqs writes) then returns (drive.sector writes k) else hangs

-- The loop of `hd_read_bytes`; `mem` is the memory that `p` points to.
unfoldable pub read_sectors : ℕ → Drive → Writes → ℕ → Memory → ℕ → ℕ → Result Memory
read_sectors zero drive writes k mem p byte_to_read = no_fuel
read_sectors (suc fuel) drive writes k mem p byte_to_read =
    let size = if ltb sector_size byte_to_read then sector_size else byte_to_read in
    let rest = do
      hdbuf ← next_sector drive writes k
      read_sectors fuel drive writes (suc k) (copy_in mem p hdbuf size) (p + size)
          (byte_to_read - size)
    in if byte_to_read == 0 then returns mem else rest

unfoldable pub hd_read_bytes : ℕ → Polls → Drive → ℕ → ℕ → ℕ → ℕ → Memory → ℕ → Result Memory
hd_read_bytes fuel polls drive features driver lba byte_cnt mem p = do
  check ((driver == 0) || (driver == 1))
  writes ← hd_cmd_out fuel polls (read_cmd features driver lba byte_cnt)
  read_sectors (suc byte_cnt) drive writes 0 mem p byte_cnt

-- Numbers in memory, the low byte first.
abbrev pub u16_at : Memory → ℕ → ℕ
u16_at buf i = buf i + buf (i + 1) * 0x100

abbrev pub u32_at : Memory → ℕ → ℕ
u32_at buf i = u16_at buf i + u16_at buf (i + 2) * 0x10000

unfoldable pub part_ent_at : Memory → ℕ → PartEnt
part_ent_at buf i = record {
  boot_ind = buf i;
  start_head = buf (i + 1);
  start_sector = buf (i + 2);
  start_cyl = buf (i + 3);
  sys_id = buf (i + 4);
  end_head = buf (i + 5);
  end_sector = buf (i + 6);
  end_cyl = buf (i + 7);
  start_sect = u32_at buf (i + 8);
  nr_sects = u32_at buf (i + 12);
}

-- The entries of `partition_table`, by their index; `read_bytes` is `hd_read_bytes` of a drive, a
-- sector and a number of bytes, and `stack` what the local buffer holds before.
unfoldable pub hd_read_mbr :
    (ℕ → ℕ → ℕ → Memory → ℕ → Result Memory) → Memory → ℕ → Result (ℕ → PartEnt)
hd_read_mbr read_bytes stack driver = do
  buf ← read_bytes driver 0 sector_size stack 0
  returns (λ i. part_ent_at buf (partition_table_offset + i * 16))

-- What `print_identify_info` prints: whether LBA and LBA48 are supported, and the size in MB.
unfoldable pub identify_info : (ℕ → ℕ) → Bool × Bool × ℕ
identify_info hdinfo = (
  has_flag (hdinfo 49) 0x200,
  has_flag (hdinfo 83) 0x400,
  sdiv (mul32 (add32 (hdinfo 61 * 0x10000) (hdinfo 60)) 512) 1000000,
)

-- `hd_identify`: the buffer as 16 bit words
unfoldable pub hd_identify : ℕ → Polls → Drive → HdCmd → ℕ → Result (Bool × Bool × ℕ)
hd_identify fuel polls drive cmd driver = do
  let dev = make_device_reg 0 driver 0
  writes ← hd_cmd_out fuel polls (record cmd { device = dev; command = ata_identify })
  hdbuf ← next_sector drive writes 0
  returns (identify_info (λ i. u16_at hdbuf (2 * i)))

-- The status that the handler keeps, and the kernel after it; TASK_HD is 2.
unfoldable pub hd_handler : ℕ → Kernel → Kernel.Outcome (ℕ × Kernel)
hd_handler status k = Kernel.◌>>=◌ (inform_int k 2) (λ k'. Kernel.done (status, k'))
