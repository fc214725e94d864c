-- ===== src/Sched/Pick.antt =====
-- src/kernel/sched.c: `schedule` chooses a ready process with the most ticks, or never returns.
use aneasyos.Base.{
  ℕ, zero, suc, ◌+◌, ◌<◌, ◌≤◌, ◌≡◌, refl, ◌∙◌, ◌≢◌, ◌⊎◌, inl, inr, true, arith, dec_lt, ℕ_discrete,
}
use aneasyos.Base.Word.{biased, sle}
use aneasyos.Kernel.{Kernel, Proc, done, spinning, nr_all, proc_sleep}
use aneasyos.Sched.{wake, scan, refilled, refill, schedule_loop, schedule}
use aneasyos.Sched.Scan.{
  SameGlobals, SameGlobals-trans, scan-SameGlobals, refill-SameGlobals, scan-table, refill-table,
  woken, Best, scan-Best, wake_again,
}

-- The chosen process is ready and has ticks left, and no ready process has more.
pub record Chosen (k : Kernel) : Type 0 where
  pub chosen_in : k.p_proc_ready < nr_all
  pub chosen_ready : (k.proc_table k.p_proc_ready).p_flags ≡ 0
  pub chosen_positive : biased 0 < biased (k.proc_table k.p_proc_ready).ticks
  pub chosen_most :
      (j : ℕ)
      → (nr_all ≤ j)
        ⊎ ((k.proc_table j).p_flags ≢ 0)
        ⊎ (biased (k.proc_table j).ticks ≤ biased (k.proc_table k.p_proc_ready).ticks)

-- Not ready, or without ticks.
abbrev Unsupplied : Proc → Type 0
Unsupplied p = (p.p_flags ≢ 0) ⊎ (biased p.ticks ≤ biased 0)

abbrev scanned : Kernel → Kernel × ℕ
scanned k = scan nr_all 0 (k, 0)

abbrev round : Kernel → Kernel
round k = refill nr_all 0 (scanned k).0

scanned-table : (k : Kernel) (j : ℕ) → j < nr_all → (scanned k).0.proc_table j ≡ woken k j
scanned-table k j h = scan-table nr_all 0 j (k, 0) ∙ ground arith

round-table : (k : Kernel) (j : ℕ) → j < nr_all → (round k).proc_table j ≡ refilled (woken k j)
round-table k j h = refill-table nr_all 0 j (scanned k).0 ∙ ground (arith, scanned-table k j h)

round-SameGlobals : (k : Kernel) → SameGlobals k (round k)
round-SameGlobals k =
    SameGlobals-trans (scan-SameGlobals nr_all 0 (k, 0)) (refill-SameGlobals nr_all 0 (scanned k).0)

woken-round : (k : Kernel) (j : ℕ) → j < nr_all → woken (round k) j ≡ refilled (woken k j)
woken-round k j h = ground (
  arith,
  round-table k j h,
  refill-SameGlobals nr_all 0 (scanned k).0,
  scan-SameGlobals nr_all 0 (k, 0),
  wake_again k.ticks (k.proc_table j),
)

scanned-Chosen : (k : Kernel) → (scanned k).1 ≢ 0 → Chosen (scanned k).0
scanned-Chosen k h = from (scan-Best nr_all 0 k 0) (scan-Best nr_all 0 k 0).choice
  where
    from :
        Best nr_all 0 k 0 (scanned k).0.p_proc_ready (scanned k).1
        → ((scanned k).1 ≡ 0) × ((scanned k).0.p_proc_ready ≡ k.p_proc_ready)
          ⊎ (0 ≤ (scanned k).0.p_proc_ready)
            × ((scanned k).0.p_proc_ready < 0 + nr_all)
            × ((woken k (scanned k).0.p_proc_ready).p_flags ≡ 0)
            × ((woken k (scanned k).0.p_proc_ready).ticks ≡ (scanned k).1)
            × (biased 0 < biased (scanned k).1)
        → Chosen (scanned k).0
    from b (inl (e, _)) = absurd (h e)
    from b (inr (_, lt, f, t, g)) =
        let c = (scanned k).0.p_proc_ready in
        let e = scanned-table k c (omega arith) in
        record {
          chosen_in = omega arith;
          chosen_ready = rw e f;
          chosen_positive = rw (e, t) g;
          chosen_most = λ j. elim (dec_lt j nr_all) [
            | yes l ↦ elim (b.above j (omega arith) (omega arith)) [
              | inl ne ↦ inr (inl (rw (scanned-table k j l) ne))
              | inr le ↦ inr (inr (rw (scanned-table k j l, e, t) le))
            ]
            | no out ↦ inl (omega arith)
          ];
        }

scanned_zero : (k : Kernel) (j : ℕ) → j < nr_all → (scanned k).1 ≡ 0 → Unsupplied (woken k j)
scanned_zero k j h e = elim ((scan-Best nr_all 0 k 0).above j (omega arith) (omega arith)) [
  | inl ne ↦ inl ne
  | inr le ↦ inr (rw e at le)
]

-- A scan with some ready process that has ticks left finds one.
scanned_found :
    (k : Kernel) (i : ℕ)
    → i < nr_all
    → (woken k i).p_flags ≡ 0
    → biased 0 < biased (woken k i).ticks
    → (scanned k).1 ≢ 0
scanned_found k i h f g e = ground (arith, scanned_zero k i h e)

loop_done :
    (fuel : ℕ) (k : Kernel) → (scanned k).1 ≢ 0 → schedule_loop (suc fuel) k ≡ done (scanned k).0
unfolding schedule_loop
loop_done fuel k h = ground arith

loop_again :
    (fuel : ℕ) (k : Kernel)
    → (scanned k).1 ≡ 0
    → schedule_loop (suc fuel) k ≡ schedule_loop fuel (round k)
unfolding schedule_loop
loop_again fuel k h = ground arith

-- A process that is ready once the sleepers have been woken is enough for a choice.
pub schedule_chooses :
    (k : Kernel) (i : ℕ)
    → i < nr_all
    → (wake k.ticks (k.proc_table i)).p_flags ≡ 0
    → biased 0 < biased (k.proc_table i).priority
    → (k' : Kernel) × (schedule k ≡ done k') × Chosen k'
unfolding schedule
schedule_chooses k i h f g = elim (ℕ_discrete (scanned k).1 0) [
  | yes empty ↦
      let again =
        scanned_found (round k) i h (rw (woken-round k i h) (ground arith))
          (rw (woken-round k i h) (ground arith)) in
      (
        (scanned (round k)).0,
        loop_again 1 k empty ∙ loop_done 0 (round k) again,
        scanned-Chosen (round k) again,
      )
  | no found ↦ ((scanned k).0, loop_done 1 k found, scanned-Chosen k found)
]

-- A state in which no process can run however often the ticks are filled up.
abbrev IsStuck : Kernel → Type 0
IsStuck k =
    (j : ℕ)
    → j < nr_all
    → ((woken k j).p_flags ≢ 0)
      ⊎ ((biased (woken k j).ticks ≤ biased 0) × ((woken k j).ticks ≡ (woken k j).priority))

round-IsStuck : (k : Kernel) → IsStuck k → IsStuck (round k)
round-IsStuck k stuck j h = ground (arith, stuck j h, woken-round k j h)

IsStuck-scanned : (k : Kernel) → IsStuck k → (scanned k).1 ≡ 0
IsStuck-scanned k stuck = from (scan-Best nr_all 0 k 0).choice
  where
    from :
        ((scanned k).1 ≡ 0) × ((scanned k).0.p_proc_ready ≡ k.p_proc_ready)
          ⊎ (0 ≤ (scanned k).0.p_proc_ready)
            × ((scanned k).0.p_proc_ready < 0 + nr_all)
            × ((woken k (scanned k).0.p_proc_ready).p_flags ≡ 0)
            × ((woken k (scanned k).0.p_proc_ready).ticks ≡ (scanned k).1)
            × (biased 0 < biased (scanned k).1)
        → (scanned k).1 ≡ 0
    from (inl (e, _)) = e
    from (inr (_, lt, f, t, g)) =
        absurd (ground (arith, stuck (scanned k).0.p_proc_ready (omega arith)))

IsStuck-spins : (fuel : ℕ) (k : Kernel) → IsStuck k → schedule_loop fuel k ≡ spinning
unfolding schedule_loop
IsStuck-spins zero k stuck = refl
IsStuck-spins (suc fuel) k stuck =
    ground (arith, IsStuck-scanned k stuck, IsStuck-spins fuel (round k) (round-IsStuck k stuck))

second-IsStuck : (k : Kernel) → (scanned (round k)).1 ≡ 0 → IsStuck (round k)
second-IsStuck k e j h = ground (arith, scanned_zero (round k) j h e, woken-round k j h)

-- Where two rounds of the loop of `schedule` choose no process, no number of rounds does: the bound
-- of two rounds cuts off no run that would return.
pub schedule_spins :
    (k : Kernel) (fuel : ℕ) → schedule k ≡ spinning → schedule_loop fuel k ≡ spinning
unfolding schedule schedule_loop
schedule_spins k zero e = refl
schedule_spins k (suc fuel) e = elim (ℕ_discrete (scanned k).1 0) [
  | yes empty ↦ elim (ℕ_discrete (scanned (round k)).1 0) [
    | yes empty' ↦ loop_again fuel k empty ∙ IsStuck-spins fuel (round k) (second-IsStuck k empty')
    | no found ↦ cc (loop_again 1 k empty, loop_done 0 (round k) found)
  ]
  | no found ↦ cc (loop_done 1 k found)
]

-- The two runs of `schedule` that return.
schedule_cases :
    (k : Kernel) {k' : Kernel}
    → schedule k ≡ done k'
    → (((scanned k).1 ≢ 0) × ((scanned k).0 ≡ k'))
      ⊎ (((scanned (round k)).1 ≢ 0) × ((scanned (round k)).0 ≡ k'))
unfolding schedule schedule_loop
schedule_cases k e = elim (ℕ_discrete (scanned k).1 0) [
  | yes empty ↦ elim (ℕ_discrete (scanned (round k)).1 0) [
    | yes empty' ↦ cc (loop_again 1 k empty, loop_again 0 (round k) empty')
    | no found ↦ inr (found, cc (loop_again 1 k empty, loop_done 0 (round k) found))
  ]
  | no found ↦ inl (found, cc (loop_done 1 k found))
]

-- The state of a process after `schedule`: woken if it was asleep and its time had come, and with
-- its ticks filled up or as they were.
pub schedule-table :
    (k : Kernel) {k' : Kernel} (j : ℕ)
    → schedule k ≡ done k'
    → j < nr_all
    → (k'.proc_table j ≡ wake k.ticks (k.proc_table j))
      ⊎ (k'.proc_table j ≡ refilled (wake k.ticks (k.proc_table j)))
schedule-table k j e h = elim (schedule_cases k e) [
  | inl (found, eq) ↦ inl (rw (← eq) (scanned-table k j h))
  | inr (found, eq) ↦ inr (rw (← eq) (scanned-table (round k) j h ∙ woken-round k j h))
]

-- `schedule` changes nothing but the process table and the choice.
pub schedule-SameGlobals : (k : Kernel) {k' : Kernel} → schedule k ≡ done k' → SameGlobals k k'
schedule-SameGlobals k e = elim (schedule_cases k e) [
  | inl (found, eq) ↦ rw (← eq) (scan-SameGlobals nr_all 0 (k, 0))
  | inr (found, eq) ↦
      rw (← eq) (SameGlobals-trans (round-SameGlobals k) (scan-SameGlobals nr_all 0 (round k, 0)))
]

-- Whatever `schedule` returns has a choice that is ready.
pub schedule-Chosen : (k : Kernel) {k' : Kernel} → schedule k ≡ done k' → Chosen k'
schedule-Chosen k e = elim (schedule_cases k e) [
  | inl (found, eq) ↦ rw (← eq) (scanned-Chosen k found)
  | inr (found, eq) ↦ rw (← eq) (scanned-Chosen (round k) found)
]

-- Where some process is ready, or is asleep with no other flag and its time has come, and has a
-- positive priority, `schedule` returns, and has chosen a ready process that has ticks left and as
-- many as any ready process.
pub schedule_picks :
    (k : Kernel) (i : ℕ)
    → i < nr_all
    → ((k.proc_table i).p_flags ≡ 0)
      ⊎ (((k.proc_table i).p_flags ≡ proc_sleep)
          × (sle (k.proc_table i).wake_up_ticks k.ticks ≡ true))
    → biased 0 < biased (k.proc_table i).priority
    → (k' : Kernel) × (schedule k ≡ done k') × Chosen k'
schedule_picks k i h f g = schedule_chooses k i h (ground (arith, f)) g
