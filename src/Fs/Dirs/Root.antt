-- ===== src/Fs/Dirs/Root.antt =====
-- src/fs/fat.c: the list that `read_root_dirs` builds.
pub mod Built
pub mod Loop
pub mod Sectors
use aneasyos.Base.{
  ℕ, zero, suc, ◌+◌, ◌*◌, ◌<◌, ◌≤◌, ◌≡◌, ◌≢◌, refl, sym, ap, subst, ◌∙◌, ◌⊎◌, inl, inr, List, [],
  ◌∷◌, ◌++◌, arith, ltb, ◌==◌, if◌then◌else◌, ℕ_discrete,
}
use aneasyos.Base.Lists.{length}
use aneasyos.Base.Indices.{IsIn, Distinct}
use aneasyos.Fs.{DirectoryEntry}
use aneasyos.Fs.Find.{FsDirEntry, Store}

-- From the entry `c` on, `next` leads through the entries `ps`, which hold `ks` below `root`.
abbrev pub Entries : Store → ℕ → ℕ → List DirectoryEntry → List ℕ → Type 0
Entries store root c [] [] = Unit
Entries store root c [] (p ∷ ps) = ⊥
Entries store root c (k ∷ ks) [] = ⊥
Entries store root c (k ∷ ks) (p ∷ ps) =
    ((store c).next ≡ p)
    × ((store p).dir_ent ≡ k)
    × ((store p).parent_dir ≡ root)
    × Entries store root p ks ps

abbrev pub last : ℕ → List ℕ → ℕ
last c [] = c
last c (p ∷ ps) = last p ps

pub last-IsIn : (c : ℕ) (ps : List ℕ) → IsIn (last c ps) (c ∷ ps)
last-IsIn c [] = inl refl
last-IsIn c (p ∷ ps) = inr (last-IsIn p ps)

pub last-snoc : (c p : ℕ) (ps : List ℕ) → last c (ps ++ (p ∷ [])) ≡ p
last-snoc c p [] = refl
last-snoc c p (q ∷ ps) = last-snoc q p ps

-- A store in which `p` is filled with `e` and hangs behind the entry `at`.
pub record Hung (store store' : Store) (root at p : ℕ) (e : DirectoryEntry) : Type 0 where
  pub link : store' at ≡ record (store at) { next = p }
  pub entry : (store' p).dir_ent ≡ e
  pub parent : (store' p).parent_dir ≡ root
  pub same : (a : ℕ) → a ≢ p → a ≢ at → store' a ≡ store a

module _ (store store' : Store) (root p : ℕ) (e : DirectoryEntry) where
  -- An entry that stays in place holds what it held.
  kept_entry :
      (at q : ℕ)
      → Hung store store' root at p e
      → q ≢ p
      → ((store' q).dir_ent ≡ (store q).dir_ent) × ((store' q).parent_dir ≡ (store q).parent_dir)
  kept_entry at q hung ne = elim (ℕ_discrete q at) [
    | yes eq ↦
        subst
          (λ (z : ℕ).
            ((store' z).dir_ent ≡ (store z).dir_ent)
            × ((store' z).parent_dir ≡ (store z).parent_dir))
          (sym eq)
          (
            ap (λ (x : FsDirEntry). x.dir_ent) hung.link,
            ap (λ (x : FsDirEntry). x.parent_dir) hung.link,
          )
    | no other ↦ (
      ap (λ (x : FsDirEntry). x.dir_ent) (hung.same q ne other),
      ap (λ (x : FsDirEntry). x.parent_dir) (hung.same q ne other),
    )
  ]

  pub Entries-snoc :
      (c : ℕ) (ks : List DirectoryEntry) (ps : List ℕ)
      → Entries store root c ks ps
      → Hung store store' root (last c ps) p e
      → Distinct (c ∷ ps)
      → ¬ IsIn p (c ∷ ps)
      → Entries store' root c (ks ++ (e ∷ [])) (ps ++ (p ∷ []))
  Entries-snoc c [] [] listed hung d out =
      (ap (λ (x : FsDirEntry). x.next) hung.link, hung.entry, hung.parent, tt)
  Entries-snoc c [] (q ∷ ps) listed hung d out = absurd listed
  Entries-snoc c (k ∷ ks) [] listed hung d out = absurd listed
  Entries-snoc c (k ∷ ks) (q ∷ ps) (next, entry, parent, listed) hung d out =
      let kept = kept_entry (last q ps) q hung (λ eq. out (inr (inl (sym eq)))) in
      let apart : c ≢ last q ps =
        λ eq. d.0 (subst (λ (z : ℕ). IsIn z (q ∷ ps)) (sym eq) (last-IsIn q ps)) in
      (
        ap (λ (x : FsDirEntry). x.next) (hung.same c (λ eq. out (inl (sym eq))) apart) ∙ next,
        kept.0 ∙ entry,
        kept.1 ∙ parent,
        Entries-snoc q ks ps listed hung d.1 (λ m. out (inr m)),
      )

-- What the list holds does not depend on the other fields.
pub Entries-alike :
    (store store' : Store) (root c : ℕ) (ks : List DirectoryEntry) (ps : List ℕ)
    → ((a : ℕ)
        → ((store' a).next ≡ (store a).next)
          × ((store' a).dir_ent ≡ (store a).dir_ent)
          × ((store' a).parent_dir ≡ (store a).parent_dir))
    → Entries store root c ks ps
    → Entries store' root c ks ps
Entries-alike store store' root c [] [] alike listed = tt
Entries-alike store store' root c [] (p ∷ ps) alike listed = absurd listed
Entries-alike store store' root c (k ∷ ks) [] alike listed = absurd listed
Entries-alike store store' root c (k ∷ ks) (p ∷ ps) alike (next, entry, parent, listed) = (
  (alike c).0 ∙ next,
  (alike p).1 ∙ entry,
  (alike p).2 ∙ parent,
  Entries-alike store store' root p ks ps alike listed,
)
