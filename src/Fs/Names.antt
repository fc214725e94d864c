-- ===== src/Fs/Names.antt =====
-- src/fs/fat.c: the names and the dates of directory entries.
pub mod Short
pub mod InBuffer
use aneasyos.Base.{
  ℕ, zero, suc, ◌+◌, ◌*◌, ◌/◌, ◌%◌, Option, none, some, ltb, ◌&&◌, ◌==◌, if◌then◌else◌, update,
}
use aneasyos.Base.Flags.{has_flag}
use aneasyos.Base.Options.{◌>>=◌}
use aneasyos.Text.{Memory}
use aneasyos.Text.Buffers.{copy_in}
use aneasyos.Hd.{u16_at}
use aneasyos.Fs.{DirectoryEntry, attr_directory}

-- The test reads the first character of the source each time; `i` counts up to `src_size/2`, of which
-- `n` are left.
unfoldable pub char2wchar : Memory → ℕ → (ℕ → ℕ) → ℕ → ℕ → Memory
char2wchar mem buf src_buf i zero = mem
char2wchar mem buf src_buf i (suc n) =
    char2wchar
      (update mem buf
        (if ltb (u16_at src_buf 0) 0xff then u16_at src_buf (2 * i) % 0x100 else b'*'))
      (buf + 1) src_buf (suc i) n

-- The fields `name`, `name2` and `name3` of a LFN, of 10, 12 and 2 bytes.
pub record Lfn : Type 0 where
  pub seq_num : ℕ
  pub name : ℕ → ℕ
  pub attr : ℕ
  pub name2 : ℕ → ℕ
  pub name3 : ℕ → ℕ

unfoldable pub get_long_name : Memory → ℕ → Lfn → Memory
get_long_name mem buf lfn =
    let mem1 = char2wchar mem buf lfn.name 0 5 in
    let mem2 = char2wchar mem1 (buf + 5) lfn.name2 0 6 in
    let mem3 = char2wchar mem2 (buf + 11) lfn.name3 0 1 in update mem3 (buf + 12) 0

-- The loop `while(*buf!='\x20' && buf<buf+8)`, whose second test always holds.
unfoldable pub find_space : ℕ → Memory → ℕ → Option ℕ
find_space zero mem buf = none
find_space (suc fuel) mem buf =
    let rest = find_space fuel mem (buf + 1) in if mem buf == b' ' then some buf else rest

unfoldable pub get_83_name : ℕ → Memory → ℕ → DirectoryEntry → Option Memory
get_83_name fuel mem buf pde =
    let mem1 = copy_in mem buf pde.short_file_name 8 in
    do
      dot ← find_space fuel mem1 buf
      (if has_flag pde.file_attr attr_directory then some (update mem1 dot 0) else do
        let mem2 = copy_in (update mem1 dot b'.') (dot + 1) (λ i. pde.short_file_name (8 + i)) 3
        stop ← find_space fuel mem2 (dot + 1)
        some (update mem2 stop 0))

-- `get_83_name` into the 13 bytes of `short_filename`, which hold `old` before. Behind them stands a
-- value that no byte has: `none` is a search for a space that leaves the buffer, or a write behind it.
abbrev pub outside : ℕ
outside = 0x100

unfoldable pub short_name : (ℕ → ℕ) → DirectoryEntry → Option (ℕ → ℕ)
short_name old pde = do
  mem ← get_83_name 13 (λ i. if ltb i 13 then old i else outside) 0 pde
  (if (mem 13 == outside) && (mem 14 == outside) && (mem 15 == outside) then some mem else none)

-- The numbers that `get_date` prints.
pub record DateParts : Type 0 where
  pub hour : ℕ
  pub min : ℕ
  pub sec : ℕ
  pub year : ℕ
  pub mon : ℕ
  pub day : ℕ

unfoldable pub get_date : DirectoryEntry → DateParts
get_date pde = record {
  hour = pde.mtime / 0x800 % 0x20;
  min = pde.mtime / 0x20 % 0x40;
  sec = pde.mtime % 0x20;
  year = pde.mdata / 0x200 % 0x80 + 1980;
  mon = pde.mdata / 0x20 % 0x10;
  day = pde.mdata % 0x20;
}

-- What the first byte and the attribute of an entry say: the end of the directory, -1 in the source,
-- an entry that is not valid, a file or a directory.
pub data Mark : Type 0 where
  end_mark : Mark
  not_valid : Mark
  file : Mark
  directory : Mark

unfoldable pub check_dir_valid : DirectoryEntry → Mark
check_dir_valid p =
    let first_byte = p.short_file_name 0 in
    if first_byte == 0
    then end_mark
    else if first_byte == 0xe5
    then not_valid
    else if has_flag p.file_attr attr_directory
    then directory
    else file
