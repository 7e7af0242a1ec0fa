-- ===== src/Fsys/Scan/Depth.antt =====
-- src/fsys/dir.go and file.go: `GetDir` returns where directories do not stand in each other for
-- ever.
use ftu.Common.{
  ℕ, zero, suc, ◌<◌, ◌≡◌, ◌≢◌, Bool, true, false, Option, none, some, List, [], ◌∷◌, Bytes, All,
  ◌⊎◌, inl, inr, Bool-cases, Option-cases, Outcome, ok, err, panic, unfinished, arith,
}
use ftu.Checksum.{check_sum_of}
use ftu.Fsys.Disk.{Disk, File, open_handle, open_handle-cases}
use ftu.Fsys.Tree.{Directory}
use ftu.Fsys.Scan.{
  Looks, FileInfo, DirEntry, Gathered, and_then, summed_file, stat_file, get_file, link_at,
  get_symlink, gather_leaf, gather, gather_all, read_fails, nothing, directory_of, get_entries,
  stat_dir, get_dir,
}
use ftu.Fsys.Scan.Returns.{
  Returns, bind-Returns, with_dir-Returns, with_link-Returns, with_file-Returns,
  check_sum_of-Returns,
}

-- An entry that is no directory, or one that stands deeper.
abbrev pub IsDeeper : Looks → (Bytes → ℕ) → ℕ → Bytes → DirEntry → Type 0
IsDeeper looks rank bound path (name, none) = Unit {0}
IsDeeper looks rank bound path (name, some i) =
    (i.is_dir ≡ false) ⊎ (rank (looks.join path name) < bound)

-- A measure on paths that goes down into every directory, on disks of a kind that opening a file
-- keeps.
pub record IsRank (looks : Looks) (Good : Disk → Type 0) (rank : Bytes → ℕ) : Type 0 where
  pub ranked :
      (path at : Bytes) (d : Disk)
      → Good d
      → looks.abs path ≡ some at
      → All (IsDeeper looks rank (rank path) at) (looks.read_dir d at).0
  pub kept : (f g : File) (d d' : Disk) → Good d → open_handle looks.os f d ≡ ok (g, d') → Good d'

module _ (looks : Looks) (Good : Disk → Type 0) (rank : Bytes → ℕ)
    (r : IsRank looks Good rank) where
  -- A call that returns and leaves such a disk.
  abbrev Ends : {A : Type 0} → Outcome A × Disk → Type 0
  Ends (o, d) = Returns o × Good d

  summed_file-Ends : (f : File) (d : Disk) → Good d → Ends (summed_file looks f d)
  unfolding summed_file
  summed_file-Ends f d good = elim (open_handle-cases looks.os f d) [
    | inl e ↦ rw (summed_file, e) (tt, good)
    | inr (h, g, d', e) ↦
        rw (summed_file, e)
          (
            bind-Returns (check_sum_of looks.sha (d' h)) _ (check_sum_of-Returns looks.sha (d' h))
                (λ sum. tt),
            r.kept f _ d d' good e,
          )
  ]

  stat_file-Ends :
      (path : Bytes) (o : Option FileInfo) (d : Disk) → Good d → Ends (stat_file looks path o d)
  unfolding stat_file
  stat_file-Ends path none d good = (tt, good)
  stat_file-Ends path (some stats) d good = elim (Bool-cases stats.is_dir) [
    | inl is ↦ rw is (tt, good)
    | inr leaf ↦ rw leaf (summed_file-Ends _ d good)
  ]

  get_file-Ends : (path : Bytes) (d : Disk) → Good d → Ends (get_file looks path d)
  unfolding get_file
  get_file-Ends path d good = elim (Option-cases (looks.abs path)) [
    | inl e ↦ rw (get_file, e) (tt, good)
    | inr (p, e) ↦ rw (get_file, e) (stat_file-Ends p (looks.stat d p) d good)
  ]

  get_symlink-Returns : (path : Bytes) (d : Disk) → Returns (get_symlink looks path false d)
  unfolding get_symlink link_at
  get_symlink-Returns path d = elim (Option-cases (looks.read_link d path)) [
    | inl e ↦ rw (get_symlink, link_at, e) tt
    | inr (p, e) ↦ rw (get_symlink, link_at, e) tt
  ]

  gather_leaf-Ends :
      (path : Bytes) (i : FileInfo) (g : Gathered) (d : Disk)
      → Good d
      → Ends (gather_leaf looks path i g d)
  unfolding gather_leaf
  gather_leaf-Ends path i g d good = elim (Bool-cases i.is_link) [
    | inl is ↦ rw is (with_link-Returns g _ (get_symlink-Returns _ d), good)
    | inr leaf ↦
        let ends = get_file-Ends (looks.join path i.name) d good in
        rw leaf (with_file-Returns g _ ends.0, ends.1)
  ]

  -- The calls for inner directories that stand deeper return.
  abbrev Settles : ℕ → (Bytes → Disk → Outcome Directory × Disk) → Type 0
  Settles bound inner = (p : Bytes) (d : Disk) → rank p < bound → Good d → Ends (inner p d)

  gather-Ends :
      (inner : Bytes → Disk → Outcome Directory × Disk) (recursive : Bool) (bound : ℕ)
      (path : Bytes) (e : DirEntry) (g : Gathered) (d : Disk)
      → Settles bound inner
      → IsDeeper looks rank bound path e
      → Good d
      → Ends (gather looks inner recursive path e g d)
  unfolding gather
  gather-Ends inner recursive bound path (name, none) g d settles deeper good = (tt, good)
  gather-Ends inner recursive bound path (name, some i) g d settles (inl leaf) good =
      rw leaf (gather_leaf-Ends path i g d good)
  gather-Ends inner true bound path (name, some i) g d settles (inr less) good =
      elim (Bool-cases i.is_dir) [
        | inl is ↦
            let ends = settles (looks.join path name) d less good in
            rw is (with_dir-Returns g _ ends.0, ends.1)
        | inr leaf ↦ rw leaf (gather_leaf-Ends path i g d good)
      ]
  gather-Ends inner false bound path (name, some i) g d settles (inr less) good =
      elim (Bool-cases i.is_dir) [
        | inl is ↦ rw is (tt, good)
        | inr leaf ↦ rw leaf (gather_leaf-Ends path i g d good)
      ]

  and_then-Ends :
      (q : Outcome Gathered × Disk) (next : Gathered → Disk → Outcome Gathered × Disk)
      → Ends q
      → ((g : Gathered) (d : Disk) → Good d → Ends (next g d))
      → Ends (and_then q next)
  unfolding and_then
  and_then-Ends (ok g, d) next (now, good) later = later g d good
  and_then-Ends (err e, d) next now later = now
  and_then-Ends (panic, d) next now later = now
  and_then-Ends (unfinished, d) next now later = now

  gather_all-Ends :
      (inner : Bytes → Disk → Outcome Directory × Disk) (recursive : Bool) (bound : ℕ)
      (path : Bytes) (es : List DirEntry) (g : Gathered) (d : Disk)
      → Settles bound inner
      → All (IsDeeper looks rank bound path) es
      → Good d
      → Ends (gather_all looks inner recursive path es g d)
  unfolding gather_all
  gather_all-Ends inner recursive bound path [] g d settles deeper good = (tt, good)
  gather_all-Ends inner recursive bound path (e ∷ es) g d settles (first, others) good =
      and_then-Ends (gather looks inner recursive path e g d)
        (gather_all looks inner recursive path es)
        (gather-Ends inner recursive bound path e g d settles first good)
        (λ g' d' now. gather_all-Ends inner recursive bound path es g' d' settles others now)

  get_entries-Ends :
      (inner : Bytes → Disk → Outcome Directory × Disk) (recursive : Bool) (bound : ℕ)
      (path : Bytes) (stats : FileInfo) (d : Disk)
      → Settles bound inner
      → All (IsDeeper looks rank bound path) (looks.read_dir d path).0
      → Good d
      → Ends (get_entries looks inner recursive path stats d)
  unfolding get_entries
  get_entries-Ends inner recursive bound path stats d settles deeper good =
      elim (Bool-cases (read_fails (looks.read_dir d path).1)) [
        | inl fails ↦ rw fails (tt, good)
        | inr reads ↦
            let ends =
              gather_all-Ends inner recursive bound path (looks.read_dir d path).0 nothing d settles
                deeper good in
            rw reads (bind-Returns _ (λ g. ok (directory_of stats path g)) ends.0 (λ g. tt), ends.1)
      ]

  stat_dir-Ends :
      (inner : Bytes → Disk → Outcome Directory × Disk) (recursive : Bool) (bound : ℕ)
      (path : Bytes) (o : Option FileInfo) (d : Disk)
      → Settles bound inner
      → All (IsDeeper looks rank bound path) (looks.read_dir d path).0
      → Good d
      → Ends (stat_dir looks inner recursive path o d)
  unfolding stat_dir
  stat_dir-Ends inner recursive bound path none d settles deeper good = (tt, good)
  stat_dir-Ends inner recursive bound path (some stats) d settles deeper good =
      elim (Bool-cases stats.is_dir) [
        | inl is ↦ rw is (get_entries-Ends inner recursive bound path stats d settles deeper good)
        | inr leaf ↦ rw leaf (tt, good)
      ]

  get_dir-Ends :
      (fuel : ℕ) (path : Bytes) (recursive : Bool) (d : Disk)
      → rank path < fuel
      → Good d
      → Ends (get_dir looks fuel path recursive d)
  unfolding get_dir
  get_dir-Ends zero path recursive d enough good = absurd (omega arith)
  get_dir-Ends (suc fuel) path recursive d enough good = elim (Option-cases (looks.abs path)) [
    | inl e ↦ rw (get_dir, e) (tt, good)
    | inr (p, e) ↦
        rw (get_dir, e)
          (stat_dir-Ends (λ q e. get_dir looks fuel q true e) recursive (rank path) p
            (looks.stat d p) d (λ q d' less now. get_dir-Ends fuel q true d' (omega arith) now)
            (r.ranked path p d good e) good)
  ]

Returns-cases {ℓ} : {A : Type ℓ} (o : Outcome A) → Returns o → (o ≢ panic) × (o ≢ unfinished)
Returns-cases (ok a) now = (λ h. cc, λ h. cc)
Returns-cases (err e) now = (λ h. cc, λ h. cc)
Returns-cases panic now = absurd now
Returns-cases unfinished now = absurd now

-- `GetDir` returns a directory or an error, and does not panic, on fuel beyond the measure of the
-- path, where a measure goes down from each directory into those that are listed in it, on the disk
-- as it is and as opening files leaves it.
pub get_dir-returns :
    (looks : Looks) (Good : Disk → Type 0) (rank : Bytes → ℕ) (fuel : ℕ) (path : Bytes)
    (recursive : Bool) (d : Disk)
    → IsRank looks Good rank
    → Good d
    → rank path < fuel
    → ((get_dir looks fuel path recursive d).0 ≢ panic)
      × ((get_dir looks fuel path recursive d).0 ≢ unfinished)
      × Good (get_dir looks fuel path recursive d).1
get_dir-returns looks Good rank fuel path recursive d ranked good enough =
    let ends = get_dir-Ends looks Good rank ranked fuel path recursive d enough good in
    let (calm, ended) = Returns-cases (get_dir looks fuel path recursive d).0 ends.0 in
    (calm, ended, ends.1)
