-- ===== src/Fsys/Scan/Returns.antt =====
-- src/fsys: calls that return a value or an error, without a panic and without an end to their
-- fuel.
use ftu.Common.{Option, none, some, Bytes, Outcome, ok, err, panic, unfinished, ◌>>=◌}
use ftu.Checksum.{check_sum_of}
use ftu.Fsys.Disk.{File, Entry, regular, folder, link}
use ftu.Fsys.Tree.{Directory, Symlink}
use ftu.Fsys.Scan.{Gathered, with_dir, with_link, with_file}

-- A value or an error.
abbrev pub Returns {ℓ} : {A : Type ℓ} → Outcome A → Type 0
Returns (ok a) = Unit {0}
Returns (err e) = Unit {0}
Returns panic = ⊥
Returns unfinished = ⊥

pub bind-Returns {ℓ₁ ℓ₂} :
    {A : Type ℓ₁} {B : Type ℓ₂} (o : Outcome A) (next : A → Outcome B)
    → Returns o
    → ((a : A) → Returns (next a))
    → Returns (o >>= next)
bind-Returns (ok a) next now later = later a
bind-Returns (err e) next now later = tt
bind-Returns panic next now later = now
bind-Returns unfinished next now later = now

pub with_dir-Returns : (g : Gathered) (o : Outcome Directory) → Returns o → Returns (with_dir g o)
unfolding with_dir
with_dir-Returns g (ok a) now = tt
with_dir-Returns g (err e) now = tt
with_dir-Returns g panic now = now
with_dir-Returns g unfinished now = now

pub with_link-Returns : (g : Gathered) (o : Outcome Symlink) → Returns o → Returns (with_link g o)
unfolding with_link
with_link-Returns g (ok a) now = tt
with_link-Returns g (err e) now = tt
with_link-Returns g panic now = now
with_link-Returns g unfinished now = now

pub with_file-Returns : (g : Gathered) (o : Outcome File) → Returns o → Returns (with_file g o)
unfolding with_file
with_file-Returns g (ok a) now = tt
with_file-Returns g (err e) now = tt
with_file-Returns g panic now = now
with_file-Returns g unfinished now = now

pub check_sum_of-Returns : (sha : Bytes → Bytes) (e : Option Entry) → Returns (check_sum_of sha e)
unfolding check_sum_of
check_sum_of-Returns sha none = tt
check_sum_of-Returns sha (some (regular content)) = tt
check_sum_of-Returns sha (some folder) = tt
check_sum_of-Returns sha (some (link target)) = tt
