-- ===== src/Start/Ldts.antt =====
-- src/kernel/main.c: the selectors of the local descriptor tables.
use aneasyos.Base.{
  ℕ, zero, suc, ◌+◌, ◌*◌, ◌<◌, ◌≤◌, ◌≡◌, ◌≢◌, refl, sym, ap, ◌∙◌, ◌⊎◌, inl, true, arith, ltb,
  ℕ_discrete, subst, update, update_self, update_ne,
}
use aneasyos.Base.Word.{word, add32}
use aneasyos.Pm.{
  Descriptor, init_descriptor, seg_linear, seg2phy, gdt_size, ind_ldt_first, sel_ldt_first,
}
use aneasyos.Kernel.{Proc, done, nr_all}
use aneasyos.Start.{Tables, link_ldts, kernel_address, first_descriptors, cstart}

-- The descriptor of the process `j` has the address of its table, and the selector is its own.
abbrev Leads : (ℕ → ℕ) → Tables → ℕ → Type 0
Leads ldts t j =
    (seg_linear (t.gdt (5 + j)) ≡ ldts j) × ((t.procs j).ldt_sel ≡ sel_ldt_first + j * 8)

selected :
    (gdt : ℕ → Descriptor) (j : ℕ) → seg2phy gdt (sel_ldt_first + j * 8) ≡ seg_linear (gdt (5 + j))
unfolding seg2phy
selected gdt j = ap (λ (a : ℕ). seg_linear (gdt a)) (omega arith)

seg_linear-init_descriptor : (b l a : ℕ) → b < word → seg_linear (init_descriptor b l a) ≡ b
unfolding seg_linear init_descriptor
seg_linear-init_descriptor b l a h = omega (arith, h)

-- The tables after the entries from `i` on, `n` of them, are linked.
record Linked (ldts : ℕ → ℕ) (i n : ℕ) (t t' : Tables) : Type 0 where
  linked : (j : ℕ) → i ≤ j → j < i + n → Leads ldts t' j
  same_gdt : (a : ℕ) → (a < 5 + i) ⊎ (5 + i + n ≤ a) → t'.gdt a ≡ t.gdt a
  same_procs : (j : ℕ) → j < i → t'.procs j ≡ t.procs j

-- One entry more in front.
Linked-more :
    (ldts : ℕ → ℕ) (i n : ℕ) (t t1 t' : Tables)
    → Leads ldts t1 i
    → ((a : ℕ) → a ≢ 5 + i → t1.gdt a ≡ t.gdt a)
    → ((j : ℕ) → j ≢ i → t1.procs j ≡ t.procs j)
    → Linked ldts (suc i) n t1 t'
    → Linked ldts i (suc n) t t'
Linked-more ldts i n t t1 t' (at, sel) gdt_same procs_same l = record {
  linked = λ j lo hi. elim (ℕ_discrete j i) [
    | yes e ↦
        subst (λ (z : ℕ). Leads ldts t' z) (sym e)
          (
            ap seg_linear (l.same_gdt (5 + i) (inl (omega arith))) ∙ at,
            ap (λ (p : Proc). p.ldt_sel) (l.same_procs i (omega arith)) ∙ sel,
          )
    | no ne ↦ l.linked j (omega (arith, lo, ne)) (omega (arith, hi))
  ];
  same_gdt = λ a out. l.same_gdt a (ground (arith, out)) ∙ gdt_same a (λ e. ground (arith, out, e));
  same_procs =
      λ j lo. l.same_procs j (omega (arith, lo)) ∙ procs_same j (λ e. omega (arith, lo, e));
}

module _ (ldts : ℕ → ℕ) (small : (j : ℕ) → ldts j < word) where
  link_ldts-Linked :
      (n i : ℕ) (t : Tables)
      → i + n ≤ nr_all
      → seg_linear (t.gdt 2) ≡ 0
      → (t' : Tables) × (link_ldts ldts n i t ≡ done t') × Linked ldts i n t t'
  unfolding link_ldts seg2phy
  link_ldts-Linked zero i t h base = (
    t,
    refl,
    record {
      linked = λ j lo hi. absurd (omega (arith, lo, hi));
      same_gdt = λ a out. refl;
      same_procs = λ j lo. refl;
    },
  )
  link_ldts-Linked (suc n) i t h base =
      let d = init_descriptor (add32 (seg_linear (t.gdt 2)) (ldts i)) 15 0x82 in
      let t1 : Tables = record {
        gdt = update t.gdt (ind_ldt_first + i) d;
        procs = update t.procs i (record (t.procs i) { ldt_sel = sel_ldt_first + i * 8 });
      } in
      let room : ltb (ind_ldt_first + i) gdt_size ≡ true = ground (arith, h) in
      let base' : seg_linear (t1.gdt 2) ≡ 0 =
        ap seg_linear (update_ne t.gdt (ind_ldt_first + i) d 2 (omega arith)) ∙ base in
      let (t', run, l) = link_ldts-Linked n (suc i) t1 (omega (arith, h)) base' in
      let address : add32 (seg_linear (t.gdt 2)) (ldts i) ≡ ldts i = omega (arith, base, small i) in
      let leads : Leads ldts t1 i = (
        ap seg_linear (update_self t.gdt (ind_ldt_first + i) d)
            ∙ seg_linear-init_descriptor (add32 (seg_linear (t.gdt 2)) (ldts i)) 15 0x82
                (omega arith)
            ∙ address,
        ap (λ (p : Proc). p.ldt_sel)
            (update_self t.procs i (record (t.procs i) { ldt_sel = sel_ldt_first + i * 8 })),
      ) in
      (
        t',
        rw room run,
        Linked-more ldts i n t t1 t' leads (λ a ne. update_ne t.gdt (ind_ldt_first + i) d a ne)
            (λ j ne.
              update_ne t.procs i (record (t.procs i) { ldt_sel = sel_ldt_first + i * 8 }) j ne)
            l,
      )

  -- `cstart` returns, for addresses below 2 ^ 32: the selector `ldt_sel` of each of the 37 processes is
  -- then translated by `seg2phy` to the address of the local descriptor table of that process.
  pub cstart-ldts :
      (tss : ℕ) (t : Tables)
      → (t' : Tables) × (cstart ldts tss t ≡ done t')
        × ((j : ℕ) → j < nr_all → seg2phy t'.gdt (t'.procs j).ldt_sel ≡ ldts j)
  unfolding cstart
  cstart-ldts tss t =
      let t0 : Tables = record t { gdt = first_descriptors t.gdt } in
      let flat : seg_linear (t0.gdt 2) ≡ 0 =
        unfold seg_linear first_descriptors init_descriptor in refl in
      let (t1, run, l) = link_ldts-Linked nr_all 0 t0 (omega arith) flat in
      let d = init_descriptor (kernel_address t1.gdt tss) 103 0x89 in
      (
        record t1 { gdt = update t1.gdt 4 d },
        rw run refl,
        λ j h.
            let (at, sel) = l.linked j (omega arith) (omega (arith, h)) in
            ap (seg2phy (update t1.gdt 4 d)) sel
            ∙ selected (update t1.gdt 4 d) j
            ∙ ap seg_linear (update_ne t1.gdt 4 d (5 + j) (omega arith))
            ∙ at,
      )
