-- ===== src/Fs/Find.antt =====
-- src/fs/fat.c: finding an entry by its path, and `read_file`.
-- A pointer to a FS_DIR_ENTRY is a number, 0 for null; `store` gives the entry at a pointer. A string
-- is the list of its characters, and a test of `strcmp` for 0 a test of two lists. The names of
-- directories in a path are shorter than the buffer `path`, of 30 characters. A walk along `next` runs on fuel.
pub mod Entry
use aneasyos.Base.{
  ℕ, zero, suc, ◌*◌, Option, none, some, Bool, true, false, not, ◌&&◌, List, [], ◌∷◌, ◌==◌, ◌!=◌,
  if◌then◌else◌,
}
use aneasyos.Base.Lists.{length, same_text}
use aneasyos.Base.Flags.{has_flag}
use aneasyos.Text.{Memory}
use aneasyos.Hd.{Result, returns, fails, no_fuel, ◌>>=◌, ◌>>◌, check}
use aneasyos.Fs.{ReadBytes, FsFat16, DirectoryEntry, attr_directory}
use aneasyos.Fs.File.{read_entry}

pub record FsDirEntry : Type 0 where
  pub dir_ent : DirectoryEntry
  pub short_filename : ℕ → ℕ
  pub next : ℕ
  pub child_dir : ℕ
  pub parent_dir : ℕ
  pub dir_cnt : ℕ

abbrev pub Store : Type 0
Store = ℕ → FsDirEntry

-- The string in a buffer of `n` bytes from `i` on.
unfoldable pub text_in : ℕ → (ℕ → ℕ) → ℕ → List ℕ
text_in zero buf i = []
text_in (suc n) buf i = let rest = text_in n buf (suc i) in if buf i == 0 then [] else buf i ∷ rest

-- The name of an entry: the string in the 13 bytes of `short_filename`.
abbrev pub short_text : FsDirEntry → List ℕ
short_text e = text_in 13 e.short_filename 0

-- The loop of `find_entry`
unfoldable pub find_from : ℕ → Store → ℕ → List ℕ → Result ℕ
find_from zero store p filename = no_fuel
find_from (suc fuel) store p filename =
    let rest = find_from fuel store (store p).next filename in
    if p == 0
    then returns 0
    else if same_text (short_text (store p)) filename
    then returns p
    else rest

unfoldable pub find_entry : ℕ → Store → ℕ → List ℕ → Result ℕ
find_entry fuel store p filename = do check (p != 0); find_from fuel store p filename

-- What stands before the first slash, which `strchr` finds, and behind it.
unfoldable pub split_path : List ℕ → Option (List ℕ × List ℕ)
split_path [] = none
split_path (c ∷ s) =
    if c == b'/'
    then some ([], s)
    else elim (split_path s) [ none ↦ none | some (front, back) ↦ some (c ∷ front, back) ]

-- A path that begins with a slash has the name "/" in front.
abbrev pub front_name : List ℕ → List ℕ
front_name [] = b'/' ∷ []
front_name (c ∷ s) = c ∷ s

-- The first fuel is for the depth of the path.
unfoldable pub find_dir_entry : ℕ → ℕ → Store → ℕ → List ℕ → Result ℕ
find_dir_entry zero fuel store root filepath = no_fuel
find_dir_entry (suc depth) fuel store root filepath = do
  check (root != 0)
  elim (split_path filepath) [
    | none ↦ find_entry fuel store root filepath
    | some (front, back) ↦ do
      ret ← find_entry fuel store root (front_name front)
      (if ret == 0 then returns 0 else do
        check (has_flag (store ret).dir_ent.file_attr attr_directory)
        find_dir_entry depth fuel store ret back)
  ]

unfoldable pub get_file_dir : ℕ → Store → ℕ → List ℕ → Result ℕ
get_file_dir fuel store root_dirs [] = fails
get_file_dir fuel store root_dirs (c ∷ filepath) = do
  check (c == b'/')
  find_dir_entry (suc (length filepath)) fuel store (store root_dirs).next filepath

unfoldable pub read_file :
    ReadBytes → Memory → ℕ → Store → ℕ → List ℕ → Memory → ℕ → ℕ → ℕ → FsFat16 → Result (Memory × ℕ)
read_file read_bytes stack fuel store fs_root filepath mem buf offest count g_fs_fat16 = do
  p_entry ← get_file_dir fuel store fs_root filepath
  (if p_entry == 0
      then returns (mem, 0)
      else read_entry read_bytes stack (store p_entry).dir_ent mem buf offest count g_fs_fat16)
