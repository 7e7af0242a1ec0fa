-- ===== src/Fsys/Scan/Size.antt =====
-- src/fsys/dir.go: the size that `GetDir` reports.
use ftu.Common.{
  ℕ, zero, suc, ◌+◌, ◌%◌, ◌^◌, ◌≡◌, refl, Bool, true, false, Bool-cases, Option-cases, subst, inl,
  inr, Option, none, some, List, [], ◌∷◌, ◌++◌, Bytes, Outcome, ok, err, panic, unfinished, ◌>>=◌,
  arith,
}
use ftu.Fsys.Disk.{Disk, File}
use ftu.Fsys.Tree.{Symlink, Directory, Directories, info, nil, cons, get_all_files, append_files}
use ftu.Fsys.Scan.{
  FileInfo, DirEntry, Looks, Gathered, add_dir, with_dir, with_link, with_file, gather_leaf, gather,
  and_then, gather_all, get_entries, stat_dir, get_dir, directory_of, nothing, read_fails,
}

-- The sizes of files together.
abbrev pub sizes : List File → ℕ
sizes [] = 0
sizes (f ∷ fs) = f.size + sizes fs

-- The sizes of all files in directories.
abbrev sizes_in : Directories → ℕ
sizes_in nil = 0
sizes_in (cons d ds) = sizes (get_all_files d true) + sizes_in ds

sizes-append : (fs gs : List File) → sizes (fs ++ gs) ≡ sizes fs + sizes gs
sizes-append [] gs = omega arith
sizes-append (f ∷ fs) gs = omega (arith, sizes-append fs gs)

sizes-append_files :
    (ds : Directories) (fs : List File) → sizes (append_files ds fs) ≡ sizes fs + sizes_in ds
unfolding append_files
sizes-append_files nil fs = omega arith
sizes-append_files (cons d ds) fs = omega (
  arith,
  sizes-append_files ds (fs ++ get_all_files d true),
  sizes-append fs (get_all_files d true),
)

sizes_in-add_dir :
    (ds : Directories) (d : Directory)
    → sizes_in (add_dir ds d) ≡ sizes_in ds + sizes (get_all_files d true)
unfolding add_dir
sizes_in-add_dir nil d = omega arith
sizes_in-add_dir (cons e ds) d = omega (arith, sizes_in-add_dir ds d)

-- The size of a directory is that of its files, as a uint64.
abbrev pub IsSized : Bool → Directory → Type 0
IsSized recursive d = (info d).size ≡ sizes (get_all_files d recursive) % 2 ^ 64

abbrev gathered_files : Bool → Gathered → List File
gathered_files true g = append_files g.dirs g.files
gathered_files false g = g.files

abbrev Sized : Bool → Gathered → Type 0
Sized recursive g = g.size ≡ sizes (gathered_files recursive g) % 2 ^ 64

-- What a call returns, if it returns a value, has a property.
abbrev Gives {ℓ} : {A : Type ℓ} → (A → Type 0) → Outcome A → Type 0
Gives P (ok a) = P a
Gives P (err e) = Unit {0}
Gives P panic = Unit {0}
Gives P unfinished = Unit {0}

with_dir-Sized :
    (o : Outcome Directory) (g : Gathered)
    → Gives (IsSized true) o
    → Sized true g
    → Gives (Sized true) (with_dir g o)
unfolding with_dir
with_dir-Sized (ok inner) g sized before = omega (
  arith,
  sizes-append_files (add_dir g.dirs inner) g.files,
  sizes_in-add_dir g.dirs inner,
  sizes-append_files g.dirs g.files,
)
with_dir-Sized (err reason) g sized before = tt
with_dir-Sized panic g sized before = tt
with_dir-Sized unfinished g sized before = tt

with_link-Sized :
    (recursive : Bool) (o : Outcome Symlink) (g : Gathered)
    → Sized recursive g
    → Gives (Sized recursive) (with_link g o)
unfolding with_link
with_link-Sized true (ok link) g before = before
with_link-Sized false (ok link) g before = before
with_link-Sized recursive (err reason) g before = before
with_link-Sized recursive panic g before = tt
with_link-Sized recursive unfinished g before = tt

with_file-Sized :
    (recursive : Bool) (o : Outcome File) (g : Gathered)
    → Sized recursive g
    → Gives (Sized recursive) (with_file g o)
unfolding with_file
with_file-Sized true (ok f) g before = omega (
  arith,
  sizes-append_files g.dirs (g.files ++ (f ∷ [])),
  sizes-append_files g.dirs g.files,
  sizes-append g.files (f ∷ []),
)
with_file-Sized false (ok f) g before = omega (arith, sizes-append g.files (f ∷ []))
with_file-Sized recursive (err reason) g before = before
with_file-Sized recursive panic g before = tt
with_file-Sized recursive unfinished g before = tt

abbrev Inner : Type 0
Inner = Bytes → Disk → Outcome Directory × Disk

and_then-Gives :
    (P : Gathered → Type 0) (r : Outcome Gathered × Disk)
    (next : Gathered → Disk → Outcome Gathered × Disk)
    → Gives P r.0
    → ((g : Gathered) (d : Disk) → P g → Gives P (next g d).0)
    → Gives P (and_then r next).0
unfolding and_then
and_then-Gives P (ok g, d) next now more = more g d now
and_then-Gives P (err e, d) next now more = tt
and_then-Gives P (panic, d) next now more = tt
and_then-Gives P (unfinished, d) next now more = tt

module _ (looks : Looks) where
  gather_leaf-Sized :
      (recursive : Bool) (path : Bytes) (i : FileInfo) (g : Gathered) (d : Disk)
      → Sized recursive g
      → Gives (Sized recursive) (gather_leaf looks path i g d).0
  unfolding gather_leaf
  gather_leaf-Sized recursive path i g d before = elim (Bool-cases i.is_link) [
    | inl link ↦ rw link (with_link-Sized recursive _ g before)
    | inr file ↦ rw file (with_file-Sized recursive _ g before)
  ]

  gather-Sized :
      (inner : Inner) (recursive : Bool) (path : Bytes) (e : DirEntry) (g : Gathered) (d : Disk)
      → ((p : Bytes) (d' : Disk) → Gives (IsSized true) (inner p d').0)
      → Sized recursive g
      → Gives (Sized recursive) (gather looks inner recursive path e g d).0
  unfolding gather
  gather-Sized inner recursive path (name, none) g d sized before = tt
  gather-Sized inner true path (name, some i) g d sized before = elim (Bool-cases i.is_dir) [
    | inl folder ↦ rw folder (with_dir-Sized _ g (sized (looks.join path name) d) before)
    | inr leaf ↦ rw leaf (gather_leaf-Sized true path i g d before)
  ]
  gather-Sized inner false path (name, some i) g d sized before = elim (Bool-cases i.is_dir) [
    | inl folder ↦ rw folder before
    | inr leaf ↦ rw leaf (gather_leaf-Sized false path i g d before)
  ]

  gather_all-Sized :
      (inner : Inner) (recursive : Bool) (path : Bytes) (es : List DirEntry) (g : Gathered)
      (d : Disk)
      → ((p : Bytes) (d' : Disk) → Gives (IsSized true) (inner p d').0)
      → Sized recursive g
      → Gives (Sized recursive) (gather_all looks inner recursive path es g d).0
  unfolding gather_all
  gather_all-Sized inner recursive path [] g d sized before = before
  gather_all-Sized inner recursive path (e ∷ es) g d sized before =
      and_then-Gives (Sized recursive) (gather looks inner recursive path e g d)
        (gather_all looks inner recursive path es)
        (gather-Sized inner recursive path e g d sized before)
        (λ g' d' now. gather_all-Sized inner recursive path es g' d' sized now)

  directory_of-IsSized :
      (recursive : Bool) (stats : FileInfo) (path : Bytes) (o : Outcome Gathered)
      → Gives (Sized recursive) o
      → Gives (IsSized recursive) (o >>= (λ g. ok (directory_of stats path g)))
  unfolding info get_all_files
  directory_of-IsSized true stats path (ok g) now = now
  directory_of-IsSized false stats path (ok g) now = now
  directory_of-IsSized recursive stats path (err e) now = tt
  directory_of-IsSized recursive stats path panic now = tt
  directory_of-IsSized recursive stats path unfinished now = tt

  nothing-Sized : (recursive : Bool) → Sized recursive nothing
  unfolding append_files
  nothing-Sized true = refl
  nothing-Sized false = refl

  get_entries-Gives :
      (inner : Inner) (recursive : Bool) (path : Bytes) (stats : FileInfo) (d : Disk)
      → ((p : Bytes) (d' : Disk) → Gives (IsSized true) (inner p d').0)
      → Gives (IsSized recursive) (get_entries looks inner recursive path stats d).0
  unfolding get_entries
  get_entries-Gives inner recursive path stats d sized =
      let es = (looks.read_dir d path).0 in
      elim (Bool-cases (read_fails (looks.read_dir d path).1)) [
        | inl fails ↦ rw fails tt
        | inr reads ↦ rw reads (
            directory_of-IsSized recursive stats path _
              (gather_all-Sized inner recursive path es nothing d sized (nothing-Sized recursive)))
      ]

  stat_dir-Gives :
      (inner : Inner) (recursive : Bool) (path : Bytes) (stats : Option FileInfo) (d : Disk)
      → ((p : Bytes) (d' : Disk) → Gives (IsSized true) (inner p d').0)
      → Gives (IsSized recursive) (stat_dir looks inner recursive path stats d).0
  unfolding stat_dir
  stat_dir-Gives inner recursive path none d sized = tt
  stat_dir-Gives inner recursive path (some stats) d sized = elim (Bool-cases stats.is_dir) [
    | inl folder ↦ rw folder (get_entries-Gives inner recursive path stats d sized)
    | inr leaf ↦ rw leaf tt
  ]

  get_dir-Gives :
      (fuel : ℕ) (path : Bytes) (recursive : Bool) (d : Disk)
      → Gives (IsSized recursive) (get_dir looks fuel path recursive d).0
  unfolding get_dir
  get_dir-Gives zero path recursive d = tt
  get_dir-Gives (suc fuel) path recursive d = elim (Option-cases (looks.abs path)) [
    | inl e ↦ rw (get_dir, e) tt
    | inr (p, e) ↦
        rw (get_dir, e)
          (stat_dir-Gives (λ q e. get_dir looks fuel q true e) recursive p (looks.stat d p) d
            (λ q e. get_dir-Gives fuel q true e))
  ]

-- The size of a directory that `GetDir` returns is the sum of the sizes of the files that
-- `GetAllFiles` lists in it, as a uint64: of those directly in it, or of all below it if the walk
-- is recursive.
pub get_dir-size :
    (looks : Looks) (fuel : ℕ) (path : Bytes) (recursive : Bool) (d : Disk) (directory : Directory)
    → (get_dir looks fuel path recursive d).0 ≡ ok directory
    → (info directory).size ≡ sizes (get_all_files directory recursive) % 2 ^ 64
get_dir-size looks fuel path recursive d directory e =
    subst (Gives (IsSized recursive)) e (get_dir-Gives looks fuel path recursive d)
