-- ===== src/Fs/Dirs/Root/Built.antt =====
-- src/fs/fat.c: the entries of the root directory that are in the list, and one more.
use aneasyos.Base.{
  ℕ, ◌≡◌, ◌≢◌, refl, sym, ap, subst, ◌∙◌, ◌⊎◌, inl, inr, List, [], ◌∷◌, ◌++◌, arith, update,
}
use aneasyos.Base.Lists.{length, length-append}
use aneasyos.Base.Indices.{IsIn, Distinct, Distinct-middle}
use aneasyos.Fs.{DirectoryEntry}
use aneasyos.Fs.Find.{FsDirEntry, Store}
use aneasyos.Fs.Find.Entry.{Linked}
use aneasyos.Fs.Dirs.{Dirs, change}
use aneasyos.Fs.Dirs.Root.{Entries, last, last-IsIn, last-snoc, Hung, Entries-snoc}

-- A list of free entries from `free` on, distinct from one another and from the entries in use.
pub record Built (root : ℕ) (ks : List DirectoryEntry) (ps free : List ℕ) (d : Dirs) : Type 0 where
  pub listed : Entries d.store root root ks ps
  pub count : length ks ≡ length ps
  pub spare : Linked d.store d.free free
  pub apart : Distinct (root ∷ (ps ++ free))
  pub ended : (ps ≡ []) ⊎ ((d.store (last root ps)).next ≡ 0)

Linked-same :
    (store store' : Store) (p : ℕ) (qs : List ℕ)
    → ((a : ℕ) → IsIn a qs → store' a ≡ store a)
    → Linked store p qs
    → Linked store' p qs
Linked-same store store' p [] same linked = linked
Linked-same store store' p (q ∷ qs) same (e, ne, linked) = (
  e,
  ne,
  subst (λ (z : ℕ). Linked store' z qs) (sym (ap (λ (x : FsDirEntry). x.next) (same q (inl refl))))
      (Linked-same store store' (store q).next qs (λ a m. same a (inr m)) linked),
)

-- The store after the entry `p` is filled with `e` and hung behind `cur`.
abbrev pub hang_behind : Dirs → ℕ → ℕ → ℕ → FsDirEntry → Dirs
hang_behind d root cur p x =
    let d1 : Dirs = record { store = update d.store p x; free = (d.store p).next } in
    let d2 = change d1 p (record (d1.store p) { parent_dir = root }) in
    change d2 cur (record (d2.store cur) { next = p })

hang_behind-Hung :
    (d : Dirs) (root cur p : ℕ) (x : FsDirEntry)
    → cur ≢ p
    → Hung d.store (hang_behind d root cur p x).store root cur p x.dir_ent
hang_behind-Hung d root cur p x ne = record {
  link = ground arith;
  entry = ground arith;
  parent = ground arith;
  same = λ a other else_where. ground arith;
}

hang_behind_next :
    (d : Dirs) (root cur p : ℕ) (x : FsDirEntry)
    → cur ≢ p
    → ((hang_behind d root cur p x).store p).next ≡ x.next
hang_behind_next d root cur p x ne = ground arith

pub Built-step :
    (d : Dirs) (root p : ℕ) (x : FsDirEntry) (ks : List DirectoryEntry) (ps free : List ℕ)
    → Built root ks ps (p ∷ free) d
    → x.next ≡ 0
    → Built root
        (ks ++ (x.dir_ent ∷ []))
        (ps ++ (p ∷ []))
        free
        (hang_behind d root (last root ps) p x)
Built-step d root p x ks ps free built ends =
    let (front, out, behind, others, all) = Distinct-middle root p ps free built.apart in
    let cur = last root ps in
    let d' = hang_behind d root cur p x in
    let ne : cur ≢ p = λ e. out (subst (λ (z : ℕ). IsIn z (root ∷ ps)) e (last-IsIn root ps)) in
    let hung = hang_behind-Hung d root cur p x ne in
    let (is_p, not_null, linked) = built.spare in
    let same : (a : ℕ) → IsIn a free → d'.store a ≡ d.store a = λ a m.
      hung.same a (λ e. behind (subst (λ (z : ℕ). IsIn z free) e m))
        (λ e. others a m (subst (λ (z : ℕ). IsIn z (root ∷ ps)) (sym e) (last-IsIn root ps))) in
    record {
      listed =
          Entries-snoc d.store d'.store root p x.dir_ent root ks ps built.listed hung front out;
      count =
          omega (arith, length-append ks (x.dir_ent ∷ []), length-append ps (p ∷ []), built.count);
      spare = Linked-same d.store d'.store (d.store p).next free same linked;
      apart = all;
      ended = inr (
          ap (λ (z : ℕ). (d'.store z).next) (last-snoc root p ps)
          ∙ hang_behind_next d root cur p x ne
          ∙ ends);
    }
