-- ===== src/Text.antt =====
-- src/lib/string.c and src/lib/klib.c: the routines on strings and on blocks of memory. A memory
-- gives the byte at an address; addresses do not wrap around. A loop that looks for the end of a
-- string runs on fuel, and `none` is a string that does not end within it. A null pointer is the address
-- 0, and the difference of two pointers is an int.
pub mod Strings
pub mod Blocks
pub mod Buffers
pub mod Compare
mod Tests
use mathlib.Core.Option
use aneasyos.Base.{
  ℕ, zero, suc, ◌+◌, ◌-◌, Option, none, some, Bool, true, false, ◌&&◌, ◌||◌, ltb, ◌==◌, ◌!=◌,
  if◌then◌else◌, update,
}
use aneasyos.Base.Word.{word, sub32}
use aneasyos.Base.Options.{◌>>=◌}

abbrev pub Memory : Type 0
Memory = ℕ → ℕ

unfoldable pub memcpy : Memory → ℕ → ℕ → ℕ → Memory
memcpy mem p_dst p_src zero = mem
memcpy mem p_dst p_src (suc size) =
    memcpy (update mem p_dst (mem p_src)) (p_dst + 1) (p_src + 1) size

-- The loop leaves `p_dst` where it is.
unfoldable pub memset : Memory → ℕ → ℕ → ℕ → Memory
memset mem p_dst ch zero = mem
memset mem p_dst ch (suc size) = memset (update mem p_dst ch) p_dst ch size

unfoldable pub strcpy : ℕ → Memory → ℕ → ℕ → Option Memory
strcpy zero mem p_dst p_src = none
strcpy (suc fuel) mem p_dst p_src =
    let rest = strcpy fuel (update mem p_dst (mem p_src)) (p_dst + 1) (p_src + 1) in
    if mem p_src == 0 then some (update mem p_dst 0) else rest

-- `stop` is the address `p + n`.
unfoldable pub strncpy : ℕ → Memory → ℕ → ℕ → ℕ → Option Memory
strncpy zero mem p_dst p_src stop = none
strncpy (suc fuel) mem p_dst p_src stop =
    let rest = strncpy fuel (update mem p_dst (mem p_src)) (p_dst + 1) (p_src + 1) stop in
    if (mem p_src != 0) && ltb p_dst stop then rest else some (update mem p_dst 0)

-- `while (*p++);` and the way that `p` has gone
unfoldable pub strlen : ℕ → Memory → ℕ → Option ℕ
strlen zero mem p = none
strlen (suc fuel) mem p =
    let rest = strlen fuel mem (p + 1) in if mem p == 0 then some 1 else Option.map suc rest

-- A null pointer is an inner `none`.
unfoldable pub strchr : ℕ → Memory → ℕ → ℕ → Option (Option ℕ)
strchr zero mem s1 c = none
strchr (suc fuel) mem s1 c =
    let rest = strchr fuel mem (s1 + 1) c in
    if mem s1 == 0 then some none else if mem s1 == c then some (some s1) else rest

unfoldable pub strrchr : ℕ → Memory → ℕ → ℕ → Option ℕ → Option (Option ℕ)
strrchr zero mem s1 c p = none
strrchr (suc fuel) mem s1 c p =
    let rest = strrchr fuel mem (s1 + 1) c (if mem s1 == c then some s1 else p) in
    if mem s1 == 0 then some p else rest

-- A char as an int
abbrev pub signed : ℕ → ℕ
signed c = if ltb c 0x80 then c else c + word - 0x100

-- The loop of `strcmp`, and what it returns
unfoldable pub strcmp_loop : ℕ → Memory → ℕ → ℕ → Option ℕ
strcmp_loop zero mem p1 p2 = none
strcmp_loop (suc fuel) mem p1 p2 =
    let rest = strcmp_loop fuel mem (p1 + 1) (p2 + 1) in
    let here = some (sub32 (signed (mem p1)) (signed (mem p2))) in
    if (mem p1 != 0) && (mem p2 != 0) then (if mem p1 != mem p2 then here else rest) else here

unfoldable pub strcmp : ℕ → Memory → ℕ → ℕ → Option ℕ
strcmp fuel mem s1 s2 =
    if (s1 == 0) || (s2 == 0) then some (sub32 s1 s2) else strcmp_loop fuel mem s1 s2

-- The loop ends on the counter with `*p1 - *p2` too.
unfoldable pub strncmp_loop : ℕ → Memory → ℕ → ℕ → ℕ
strncmp_loop zero mem p1 p2 = sub32 (signed (mem p1)) (signed (mem p2))
strncmp_loop (suc size) mem p1 p2 =
    let rest = strncmp_loop size mem (p1 + 1) (p2 + 1) in
    let here = sub32 (signed (mem p1)) (signed (mem p2)) in
    if (mem p1 != 0) && (mem p2 != 0) then (if mem p1 != mem p2 then here else rest) else here

unfoldable pub strncmp : ℕ → Memory → ℕ → ℕ → ℕ
strncmp size mem s1 s2 = if (s1 == 0) || (s2 == 0) then sub32 s1 s2 else strncmp_loop size mem s1 s2

unfoldable pub memcmp_loop : ℕ → Memory → ℕ → ℕ → ℕ
memcmp_loop zero mem p1 p2 = 0
memcmp_loop (suc n) mem p1 p2 =
    let rest = memcmp_loop n mem (p1 + 1) (p2 + 1) in
    if mem p1 != mem p2 then sub32 (signed (mem p1)) (signed (mem p2)) else rest

unfoldable pub memcmp : ℕ → Memory → ℕ → ℕ → ℕ
memcmp n mem s1 s2 = if (s1 == 0) || (s2 == 0) then sub32 s1 s2 else memcmp_loop n mem s1 s2

-- The first loop of `strcat`
unfoldable pub find_end : ℕ → Memory → ℕ → Option ℕ
find_end zero mem p1 = none
find_end (suc fuel) mem p1 =
    let rest = find_end fuel mem (p1 + 1) in if mem p1 == 0 then some p1 else rest

-- The second loop of `strcat` copies as `strcpy` does; each loop has its own fuel. The value is the
-- memory and the pointer that is returned.
unfoldable pub strcat : ℕ → ℕ → Memory → ℕ → ℕ → Option (Memory × ℕ)
strcat fuel fuel' mem s1 s2 =
    let joined = do p1 ← find_end fuel mem s1; mem' ← strcpy fuel' mem p1 s2; some (mem', s1)
    in if (s1 == 0) || (s2 == 0) then some (mem, 0) else joined
