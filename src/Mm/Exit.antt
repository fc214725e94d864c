-- ===== src/Mm/Exit.antt =====
-- src/mm/forkexit.c: what `do_exit` does to the process, its parent and its children.
use aneasyos.Base.{
  ℕ, zero, suc, ◌+◌, ◌<◌, ◌≡◌, refl, sym, subst, ap, ◌∙◌, ◌≢◌, ◌⊎◌, inl, inr, true, false, ◌&&◌,
  arith, ltb, leb, lt→ltb, ◌==◌, ==_ne, ==_refl, if◌then◌else◌, Bool-cases, ℕ_discrete, update_self,
  update_ne,
}
use aneasyos.Base.Flags.{has_flag, set_flag, reset_flag}
use aneasyos.Kernel.{
  Kernel, Proc, Message, Outcome, done, assert_failed, panicked, bad_access, spinning, ◌>>=◌, ◌>>◌,
  assert, in_table, nr_all, waiting, hanging, set_proc,
}
use aneasyos.Mm.{init, cleanup, adopt, leave, do_exit}

-- The process after the adoption of the children of `pid` among the entries from `i` to below `b`.
abbrev pub adopted : ℕ → ℕ → ℕ → ℕ → Proc → Proc
adopted pid i b j p =
    if (leb i j && ltb j b) && p.p_parent == pid then record p { p_parent = init } else p

-- A chain that returns has a first part that returns.
bind_done {ℓ} :
    {A : Type ℓ} (o : Outcome A) (f : A → Outcome Kernel) {k : Kernel}
    → (o >>= f) ≡ done k
    → (a : A) × (o ≡ done a) × (f a ≡ done k)
bind_done (done a) f e = (a, refl, e)
bind_done assert_failed f e = absurd (ground (arith, e))
bind_done panicked f e = absurd (ground (arith, e))
bind_done bad_access f e = absurd (ground (arith, e))
bind_done spinning f e = absurd (ground (arith, e))

-- The entry `i` with INIT as its parent.
abbrev moved : ℕ → Kernel → Kernel
moved i k = set_proc i (record (k.proc_table i) { p_parent = init }) k

never_done :
    (o : Outcome Kernel) (f : Kernel → Outcome Kernel) {k : Kernel}
    → (o >>= λ (c : Kernel). (assert false >> f c)) ≡ done k
    → ⊥
never_done o f e =
    let (c, _, g) = bind_done o (λ (c : Kernel). (assert false >> f c)) e in ground (arith, g)

done_injective : {a b : Kernel} → done a ≡ done b → a ≡ b
done_injective e = ground (arith, e)

adopted_other :
    (pid i n j : ℕ) (p : Proc)
    → (j ≡ i → p.p_parent ≢ pid)
    → adopted pid (i + 1) (i + 1 + n) j p ≡ adopted pid i (i + suc n) j p
adopted_other pid i n j p h = ground arith

adopted_here :
    (pid i n : ℕ) (p : Proc)
    → p.p_parent ≡ pid
    → adopted pid (i + 1) (i + 1 + n) i (record p { p_parent = init })
      ≡ adopted pid i (i + suc n) i p
adopted_here pid i n p h = ground arith

adopted-moved :
    (pid i n j : ℕ) (k : Kernel)
    → (k.proc_table i).p_parent ≡ pid
    → adopted pid (i + 1) (i + 1 + n) j ((moved i k).proc_table j)
      ≡ adopted pid i (i + suc n) j (k.proc_table j)
adopted-moved pid i n j k child = elim (ℕ_discrete j i) [
  | yes eq ↦
      subst
        (λ z.
          adopted pid (i + 1) (i + 1 + n) z ((moved i k).proc_table z)
          ≡ adopted pid i (i + suc n) z (k.proc_table z))
        (sym eq)
        (rw (update_self k.proc_table i (record (k.proc_table i) { p_parent = init }))
          (adopted_here pid i n (k.proc_table i) child))
  | no ne ↦
      rw (update_ne k.proc_table i (record (k.proc_table i) { p_parent = init }) j ne)
        (adopted_other pid i n j (k.proc_table j) (λ e. absurd (ne e)))
]

hung_table :
    (k : Kernel) (pid status j : ℕ)
    → let k1 = set_proc pid (record (k.proc_table pid) { exit_status = status }) k in
      (set_proc pid
          (record (k1.proc_table pid) { p_flags = set_flag (k1.proc_table pid).p_flags hanging })
          k1).proc_table
        j
      ≡ (if j == pid
          then record (k.proc_table j) {
            exit_status = status;
            p_flags = set_flag (k.proc_table j).p_flags hanging;
          }
          else k.proc_table j)
hung_table k pid status j = ground arith

quiet_still :
    (k : Kernel) (pid status : ℕ)
    → has_flag (k.proc_table (k.proc_table pid).p_parent).p_flags waiting ≡ false
    → let k1 = set_proc pid (record (k.proc_table pid) { exit_status = status }) k in
      has_flag (k1.proc_table (k1.proc_table pid).p_parent).p_flags waiting ≡ false
quiet_still k pid status quiet = ground (arith, quiet)

orphan :
    (pid j : ℕ) (p : Proc) → pid ≢ init → j < nr_all → (adopted pid 0 nr_all j p).p_parent ≢ pid
orphan pid j p ne h = ground arith

module _ (send : Kernel → ℕ → Message → Outcome Kernel) (stack : Message) where
  adopt_step :
      (n i pid : ℕ) (k : Kernel) {k' : Kernel}
      → adopt send stack (suc n) i pid k ≡ done k'
      → (((k.proc_table i).p_parent ≢ pid) × (adopt send stack n (i + 1) pid k ≡ done k'))
        ⊎ (((k.proc_table i).p_parent ≡ pid)
            × (adopt send stack n (i + 1) pid (moved i k) ≡ done k'))
  unfolding adopt
  adopt_step n i pid k {k'} e = elim (ℕ_discrete (k.proc_table i).p_parent pid) [
    | no ne ↦
        let other : ((k.proc_table i).p_parent == pid) ≡ false =
          ==_ne (k.proc_table i).p_parent pid ne in
        inl (ne, rw other at e)
    | yes child ↦
        let here : ((k.proc_table i).p_parent == pid) ≡ true = rw child (==_refl pid) in
        let waits =
          has_flag ((moved i k).proc_table init).p_flags waiting
          && has_flag (k.proc_table i).p_flags hanging in
        elim (Bool-cases waits) [
          | inl w ↦ absurd (
              never_done
                (cleanup send stack
                  (set_proc init
                    (record ((moved i k).proc_table init) {
                      p_flags = reset_flag ((moved i k).proc_table init).p_flags waiting;
                    })
                    (moved i k))
                  i)
                (λ (c : Kernel). adopt send stack n (i + 1) pid c) (rw (here, w) at e))
          | inr calm ↦ inr (child, rw (here, calm) at e)
        ]
  ]

  -- The entries as `adopt` leaves them where it returns.
  adopt-table :
      (n i pid : ℕ) (k : Kernel) {k' : Kernel}
      → adopt send stack n i pid k ≡ done k'
      → (j : ℕ) → k'.proc_table j ≡ adopted pid i (i + n) j (k.proc_table j)
  unfolding adopt
  adopt-table zero i pid k e j = rw (← done_injective e) (ground arith)
  adopt-table (suc n) i pid k e j = elim (adopt_step n i pid k e) [
    | inl (ne, f) ↦
        adopt-table n (i + 1) pid k f j
        ∙ adopted_other pid i n j (k.proc_table j)
            (λ eq. subst (λ z. (k.proc_table z).p_parent ≢ pid) (sym eq) ne)
    | inr (child, f) ↦ adopt-table n (i + 1) pid (moved i k) f j ∙ adopted-moved pid i n j k child
  ]

  -- `adopt` changes the process table only.
  adopt_globals :
      (n i pid : ℕ) (k : Kernel) {k' : Kernel}
      → adopt send stack n i pid k ≡ done k'
      → k' ≡ record k { proc_table = k'.proc_table }
  unfolding adopt
  adopt_globals zero i pid k e = rw (← done_injective e) refl
  adopt_globals (suc n) i pid k e = elim (adopt_step n i pid k e) [
    | inl (ne, f) ↦ adopt_globals n (i + 1) pid k f
    | inr (child, f) ↦ adopt_globals n (i + 1) pid (moved i k) f
  ]

  -- Where INIT does not wait, `adopt` returns.
  adopt_returns :
      (n i pid : ℕ) (k : Kernel)
      → has_flag (k.proc_table init).p_flags waiting ≡ false
      → (k' : Kernel) × (adopt send stack n i pid k ≡ done k')
  unfolding adopt
  adopt_returns zero i pid k h = (k, refl)
  adopt_returns (suc n) i pid k h = elim (ℕ_discrete (k.proc_table i).p_parent pid) [
    | yes e ↦
        let calm : has_flag ((moved i k).proc_table init).p_flags waiting ≡ false =
          ground (arith, h) in
        let (k', f) = adopt_returns n (i + 1) pid (moved i k) calm in
        (k', rw (e, ==_refl pid, calm) f)
    | no ne ↦
        let (k', f) = adopt_returns n (i + 1) pid k h in
        (k', rw (==_ne (k.proc_table i).p_parent pid ne) f)
  ]

  leave_hangs :
      (k : Kernel) (pid : ℕ)
      → has_flag (k.proc_table (k.proc_table pid).p_parent).p_flags waiting ≡ false
      → leave send stack k pid
        ≡ done (
            set_proc pid
              (record (k.proc_table pid) { p_flags = set_flag (k.proc_table pid).p_flags hanging })
              k)
  unfolding leave
  leave_hangs k pid quiet = rw quiet

  do_exit-adopt :
      (k : Kernel) (pid status : ℕ) {left : Kernel}
      → (k.proc_table pid).p_parent < nr_all
      → leave send stack (set_proc pid (record (k.proc_table pid) { exit_status = status }) k) pid
        ≡ done left
      → do_exit send stack k pid status ≡ adopt send stack nr_all 0 pid left
  unfolding do_exit
  do_exit-adopt k pid status h e = rw (lt→ltb (k.proc_table pid).p_parent nr_all h, e)

  -- Where the parent does not wait and INIT does not wait, `do_exit` returns. The process hangs with
  -- its exit status, each of its children has INIT as its parent, and nothing else changes, neither in
  -- another entry of the table nor in the other globals.
  pub do_exit_hangs :
      (k : Kernel) (pid status j : ℕ)
      → (k.proc_table pid).p_parent < nr_all
      → has_flag (k.proc_table (k.proc_table pid).p_parent).p_flags waiting ≡ false
      → has_flag (k.proc_table init).p_flags waiting ≡ false
      → (k' : Kernel) × (do_exit send stack k pid status ≡ done k')
        × (k'.proc_table j
            ≡ adopted pid 0 nr_all j (
                if j == pid
                then record (k.proc_table j) {
                  exit_status = status;
                  p_flags = set_flag (k.proc_table j).p_flags hanging;
                }
                else k.proc_table j))
        × (k' ≡ record k { proc_table = k'.proc_table })
  do_exit_hangs k pid status j h quiet calm =
      let ended = record (k.proc_table pid) { exit_status = status } in
      let k1 = set_proc pid ended k in
      let hung = record (k1.proc_table pid) {
        p_flags = set_flag (k1.proc_table pid).p_flags hanging;
      } in
      let left = set_proc pid hung k1 in
      let quiet' : has_flag (k1.proc_table (k1.proc_table pid).p_parent).p_flags waiting ≡ false =
        quiet_still k pid status quiet in
      let calm' : has_flag (left.proc_table init).p_flags waiting ≡ false = ground (arith, calm) in
      let (k', e) = adopt_returns nr_all 0 pid left calm' in
      (
        k',
        do_exit-adopt k pid status h (leave_hangs k1 pid quiet') ∙ e,
        adopt-table nr_all 0 pid left e j ∙ ap (adopted pid 0 nr_all j) (hung_table k pid status j),
        adopt_globals nr_all 0 pid left e,
      )

  -- Whenever `do_exit` of a process other than INIT returns, no entry of the table has the ended
  -- process as its parent, whatever the sends of MM have done.
  pub do_exit_orphans :
      (k : Kernel) (pid status j : ℕ) {k' : Kernel}
      → pid ≢ init
      → j < nr_all
      → do_exit send stack k pid status ≡ done k'
      → (k'.proc_table j).p_parent ≢ pid
  unfolding do_exit
  do_exit_orphans k pid status j ne h e =
      let (_, _, f) = bind_done (in_table (ltb (k.proc_table pid).p_parent nr_all)) _ e in
      let (left, _, g) = bind_done _ (adopt send stack nr_all 0 pid) f in
      rw (adopt-table nr_all 0 pid left g j) (orphan pid j (left.proc_table j) ne h)
