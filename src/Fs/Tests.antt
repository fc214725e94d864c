-- ===== src/Fs/Tests.antt =====
-- src/fs/fat.c: the theorems at a small disk.
use aneasyos.Base.{
  ℕ, ◌+◌, ◌*◌, ◌≡◌, ◌⊎◌, refl, inl, inr, some, List, [], ◌∷◌, ◌<◌, ◌≤◌, arith, ◌==◌, ltb,
  if◌then◌else◌,
}
use aneasyos.Base.Lists.{length, All}
use aneasyos.Text.{Memory}
use aneasyos.Text.Buffers.{patch}
use aneasyos.Hd.{returns, u16_at, part_ent_at}
use aneasyos.Hd.Ata.{bytes_from}
use aneasyos.Hd.Samples.{disk, drive, drive-ReadsSectors, ready_polls, ready_polls_ready}
use aneasyos.Fs.{FsFat16, DirectoryEntry, read_cluster_chain}
use aneasyos.Fs.Disk.{HardDisk, ata_disk}
use aneasyos.Fs.Chain.Clusters.{FileClusters, stored_byte, read_cluster_chain-reads}
use aneasyos.Fs.Chain.Ends.{StaysIn, read_cluster_chain_ends}
use aneasyos.Fs.Find.{Store, text_in, short_text, read_file}
use aneasyos.Fs.Find.Entry.{read_file-reads}
use aneasyos.Fs.Volume.{vbr_at, layout, mount}
use aneasyos.Fs.Volume.Table.{part_start, mount-fat}
use aneasyos.Fs.Names.{get_83_name}
use aneasyos.Fs.Names.Short.{Padded, Joined, get_83_name-Joined}
use aneasyos.Fs.Names.InBuffer.{IsShort}
use aneasyos.Fs.Dirs.{Dirs, dir_entry_at, read_root_dirs}
use aneasyos.Fs.Dirs.Root.{Entries, last}
use aneasyos.Fs.Dirs.Root.Loop.{entries_of}
use aneasyos.Fs.Dirs.Root.Sectors.{kept_in, read_root_dirs-Entries}

abbrev hard_disk : HardDisk
hard_disk = ata_disk disk drive 1 ready_polls 0 drive-ReadsSectors ready_polls_ready

abbrev memory : Memory
memory a = 0

abbrev volume : FsFat16
volume = record {
  vbr = record {
    sector_size = 512;
    cluster_size = 4;
    reserved_sectors = 1;
    nfat = 1;
    max_root_dir = 16;
    n_sectors = 100;
    fat_sector_size = 1;
    n_sectors32 = 0;
  };
  root_start_sector = 3;
  root_sectors = 1;
  fat_start_sector = 2;
  data_start_sector = 4;
  fat = λ c. if c == 2 then 3 else 0xffff;
}

abbrev clusters : List ℕ
clusters = 2 ∷ (3 ∷ [])

clusters-FileClusters : FileClusters volume 2 clusters
clusters-FileClusters = (
  refl,
  (omega arith, omega arith, omega arith),
  (refl, (omega arith, omega arith, omega arith), omega arith),
)

read_cluster_chain-reads_example :
    read_cluster_chain hard_disk.read_bytes memory 100 3000 2 volume
    ≡ returns (patch memory 100 (stored_byte hard_disk volume clusters) 3000, 3000)
read_cluster_chain-reads_example =
    read_cluster_chain-reads hard_disk volume memory 100 3000 2 clusters refl refl
      clusters-FileClusters

read_cluster_chain_ends_example :
    StaysIn memory 100 9000 0 (read_cluster_chain hard_disk.read_bytes memory 100 9000 2 volume)
read_cluster_chain_ends_example =
    read_cluster_chain_ends hard_disk volume memory 100 9000 2 refl refl

abbrev file : DirectoryEntry
file = record {
  short_file_name = λ i. b'1';
  file_attr = 0x20;
  mtime = 0;
  mdata = 0;
  start_cluster = 2;
  file_size = 3000;
}

-- The root stands at 1, the file "1" at 2.
abbrev store : Store
store p = record {
  dir_ent = file;
  short_filename = λ i. if i == 0 then b'1' else 0;
  next = if p == 1 then 2 else 0;
  child_dir = 0;
  parent_dir = 1;
  dir_cnt = 1;
}

found_name : short_text (store 2) ≡ b'1' ∷ []
unfolding text_in
found_name = refl

read_file-reads_example :
    read_file hard_disk.read_bytes memory 2 store 1 (b'/' ∷ (b'1' ∷ [])) memory 100 2000 900 volume
    ≡ returns (patch memory 100 (λ i. stored_byte hard_disk volume clusters (2000 + i)) 900, 900)
read_file-reads_example =
    read_file-reads hard_disk memory volume store 1 2 (b'1' ∷ []) (2 ∷ []) clusters memory 100 2000
      900 refl refl ((λ e. absurd (omega (arith, e))), tt) (λ e. absurd (omega (arith, e)))
      (refl, (λ e. absurd (omega (arith, e))), refl) (inl (found_name, refl))
      (λ e. absurd (omega (arith, e))) clusters-FileClusters (omega arith) (omega arith)
      (omega arith) (omega arith)

mount-fat_example :
    (fat : ℕ → ℕ) × (mount hard_disk.read_bytes memory ≡ returns (layout 1 (vbr_at (disk 0 1)) fat))
    × ((c : ℕ)
        → c < 256 * (vbr_at (disk 0 1)).fat_sector_size
        → fat c
          ≡ u16_at
              (bytes_from (disk 0) (layout 1 (vbr_at (disk 0 1)) fat).fat_start_sector)
              (2 * c))
mount-fat_example = mount-fat hard_disk memory starts_at_1 below room
  where
    room : (vbr_at (disk 0 1)).fat_sector_size ≤ 191
    room = unfold vbr_at in omega arith

    starts_at_1 : part_start hard_disk ≡ 1
    starts_at_1 = unfold part_ent_at in refl

    below :
        1 + (vbr_at (disk 0 1)).reserved_sectors + (vbr_at (disk 0 1)).fat_sector_size ≤ 0x1000_0000
    below = unfold vbr_at in omega arith

abbrev dirs : Dirs
dirs = record { store = λ p. record (store p) { next = if p == 2 then 3 else 0 }; free = 2 }

few : length (kept_in hard_disk memory volume refl refl 1 1 0) ≤ 2
unfolding kept_in entries_of dir_entry_at patch
few = omega arith

root-IsShort : All IsShort (kept_in hard_disk memory volume refl refl 1 1 0)
unfolding kept_in entries_of dir_entry_at patch
root-IsShort = (
  (
    1,
    3,
    record {
      letters = λ i h e. ground (arith, h, e);
      spaces = λ i lo hi. ground (arith, lo, hi);
      ext = λ i h e. ground (arith, h, e);
      ext_spaces = λ i lo hi. absurd (omega (arith, lo, hi));
    },
    omega arith,
    omega arith,
    inr (inr (omega arith)),
  ),
  tt,
)

read_root_dirs-Entries_example :
    (ps : List ℕ) × (d' : Dirs) × (read_root_dirs hard_disk.read_bytes memory volume 1 1 dirs
      ≡ returns d')
    × Entries d'.store 1 1 (kept_in hard_disk memory volume refl refl 1 1 0) ps
    × ((ps ≡ []) ⊎ ((d'.store (last 1 ps)).next ≡ 0))
    × ((d'.store 1).dir_cnt ≡ length (kept_in hard_disk memory volume refl refl 1 1 0))
read_root_dirs-Entries_example =
    read_root_dirs-Entries hard_disk memory volume refl refl 1 0 dirs (2 ∷ (3 ∷ []))
      (refl, (λ e. absurd (omega (arith, e))), (refl, (λ e. absurd (omega (arith, e))), refl))
      (omega arith) few root-IsShort

short_name : Padded (λ i. if i == 0 then b'1' else if ltb i 8 then b' ' else b'T') 1 3
short_name = record {
  letters = λ i h e. ground (arith, h, e);
  spaces = λ i lo hi. ground (arith, lo, hi);
  ext = λ i h e. ground (arith, h, e);
  ext_spaces = λ i lo hi. absurd (omega (arith, lo, hi));
}

abbrev text_file : DirectoryEntry
text_file = record file {
  short_file_name = λ i. if i == 0 then b'1' else if ltb i 8 then b' ' else b'T';
}

get_83_name-Joined_example :
    (mem' : Memory) × (get_83_name 8 memory 100 text_file ≡ some mem')
    × Joined mem' 100 text_file.short_file_name 1 3
get_83_name-Joined_example =
    get_83_name-Joined memory 100 1 3 8 text_file refl short_name (omega arith)
      (inr (refl, omega arith)) (omega arith)
