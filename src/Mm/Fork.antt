-- ===== src/Mm/Fork.antt =====
-- src/mm/forkexit.c: the child that `do_fork` makes, and the entry that it takes.
use aneasyos.Base.{
  ℕ, zero, suc, ◌+◌, ◌<◌, ◌≤◌, ◌≡◌, sym, ap, subst, update_self, ◌∙◌, ◌≢◌, true, false, List, arith,
  ltb, ==_refl, ==_ne, ℕ_discrete,
}
use aneasyos.Base.Word.{word, add32}
use aneasyos.Pm.{seg_linear, text_limit, seg_size}
use aneasyos.Pm.RoundTrip.{init_descriptor_fields, seg_size_granularity}
use aneasyos.Kernel.{
  Kernel, Proc, Message, Outcome, done, nr_all, nr_tasks, nr_native_procs, free_slot, set_proc,
}
use aneasyos.Ipc.{va2la}
use aneasyos.Mm.{
  find_free, forked, one_segment, child_segment, child_code, child_data, do_fork, proc_image_size,
}

translated :
    (k : Kernel) (pid base va : ℕ)
    → seg_linear (k.proc_table pid).ldt_rw ≡ base
    → nr_tasks + nr_native_procs ≤ pid
    → va2la k pid va ≡ done (add32 base va)
unfolding va2la
translated k pid base va e h = let user : ltb pid 9 ≡ false = ground arith in rw (user, e)

forked_base :
    (k : Kernel) (parent slot : Proc) (pid child_pid base : ℕ) (name : List ℕ)
    → seg_linear
        ((set_proc child_pid (forked parent slot pid child_pid base name) k).proc_table
          child_pid).ldt_rw
      ≡ seg_linear (child_segment base child_data)
unfolding forked
forked_base k parent slot pid child_pid base name =
    ap (λ (p : Proc). seg_linear p.ldt_rw)
      (update_self k.proc_table child_pid (forked parent slot pid child_pid base name))

find_free_none :
    (n i : ℕ) (k : Kernel)
    → ((j : ℕ) → (k.proc_table j).p_flags ≢ free_slot)
    → find_free n i k ≡ n + i
unfolding find_free
find_free_none zero i k h = omega arith
find_free_none (suc n) i k h =
    rw (==_ne (k.proc_table i).p_flags free_slot (h i)) (find_free_none n (i + 1) k h ∙ omega arith)

-- The child has one segment of 2 MB at its base for code and data, so that it can fork in its turn,
-- and an address of it is translated to its base and the address; for a base and an address that
-- are u32 and any slot above the native processes.
pub forked_segments :
    (k : Kernel) (parent slot : Proc) (pid child_pid base va : ℕ) (name : List ℕ)
    → base < word
    → nr_tasks + nr_native_procs ≤ child_pid
    → let child = forked parent slot pid child_pid base name in
      (one_segment child.ldt_c child.ldt_rw ≡ true)
      × (seg_size (text_limit child.ldt_c) child.ldt_c ≡ proc_image_size)
      × (va2la (set_proc child_pid child k) child_pid va ≡ done (add32 base va))
unfolding forked
forked_segments k parent slot pid child_pid base va name hb hc =
    let a = init_descriptor_fields base 0x1ff child_code hb (omega arith) in
    let b = init_descriptor_fields base 0x1ff child_data hb (omega arith) in
    let code_size : seg_size 0x1ff (child_segment base child_code) ≡ proc_image_size =
      ap (λ n. seg_size n (child_segment base child_code)) (sym a.2)
      ∙ seg_size_granularity base 0x1ff child_code (omega arith) in
    let data_size : seg_size 0x1ff (child_segment base child_data) ≡ proc_image_size =
      ap (λ n. seg_size n (child_segment base child_data)) (sym b.2)
      ∙ seg_size_granularity base 0x1ff child_data (omega arith) in
    (
      rw (a.1, b.1, a.2, b.3, code_size, data_size, ==_refl base),
      rw a.2 code_size,
      translated (set_proc child_pid (forked parent slot pid child_pid base name) k) child_pid base
          va (forked_base k parent slot pid child_pid base name ∙ b.0) hc,
    )

-- A `do_fork` that finds no free entry answers -1 and changes nothing.
pub do_fork_full :
    (send : Kernel → ℕ → Message → Outcome Kernel) (stack : Message) (memory_size : ℕ) (k : Kernel)
    (mm_msg : Message) (name : List ℕ)
    → ((j : ℕ) → (k.proc_table j).p_flags ≢ free_slot)
    → do_fork send stack memory_size k mm_msg name ≡ done (k, 0xffff_ffff, mm_msg)
unfolding do_fork
do_fork_full send stack memory_size k mm_msg name h = rw (find_free_none nr_all 0 k h)

-- A process takes the first free entry: it is free, and every entry before it is in use.
pub find_free_first :
    (n i c : ℕ) (k : Kernel)
    → i ≤ c
    → c < i + n
    → (k.proc_table c).p_flags ≡ free_slot
    → (i ≤ find_free n i k)
      × (find_free n i k ≤ c)
      × ((k.proc_table (find_free n i k)).p_flags ≡ free_slot)
unfolding find_free
find_free_first zero i c k l h f = absurd (omega arith)
find_free_first (suc n) i c k l h f = elim (ℕ_discrete (k.proc_table i).p_flags free_slot) [
  | yes e ↦ rw e (omega arith, l, e)
  | no ne ↦
      let later : i ≢ c = λ e. ne (subst (λ z. (k.proc_table z).p_flags ≡ free_slot) (sym e) f) in
      let (a, b, d) = find_free_first n (i + 1) c k (omega arith) (omega arith) f in
      rw (==_ne (k.proc_table i).p_flags free_slot ne) (omega arith, b, d)
]
