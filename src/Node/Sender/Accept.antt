-- ===== src/Node/Sender/Accept.antt =====
-- src/node/node.go, `send`: how ACCEPT fills the queue of files.
use ftu.Common.{
  Bool, false, sym, subst, ◌+◌, All, Bool-cases, ℕ, suc, ◌-◌, ◌^◌, ◌<◌, ◌≡◌, refl, ap, inl, inr,
  true, some, List, [], ◌∷◌, Bytes, length, ok, ◌>>=◌, arith,
}
use ftu.Fsys.Disk.{File}
use ftu.Fsys.Tree.{Symlink}
use ftu.Node.State.{SenderNode, Env, positions}
use ftu.Node.Sender.{assign_ids, or_panic, set_relative_files, set_relative_symlinks, on_accept}
use ftu.Node.Sender.Queue.{IsQueue, assign_ids-HasIds, length-assign_ids}

-- `filepath.Rel` makes a path relative to the base.
abbrev pub IsBelow : Env → Bytes → Bytes → Type 0
IsBelow env base path = (r : Bytes) × (env.rel base path ≡ some r)

-- What ACCEPT needs of a directory: a relative path for each file, and for the path and the target
-- of each link. It needs nothing of a single file.
abbrev pub AreBelow : Env → Bytes → Bool → List File → List Symlink → Type 0
AreBelow env base true fs ls =
    All (λ f. IsBelow env base f.path) fs
    × All (λ l. IsBelow env base l.path × IsBelow env base l.target_path) ls
AreBelow env base false fs ls = Unit {0}

-- The relative path of a file behind ACCEPT: that of its path in a directory, and else the old one.
abbrev pub IsPlaced : Env → Bytes → Bool → File → Bytes → Type 0
IsPlaced env base true f r = env.rel base f.path ≡ some r
IsPlaced env base false f r = f.relative_parent_path ≡ r

-- The second files are the first ones, with their positions from `i` on as IDs and their relative
-- paths, and all else as it was.
abbrev pub AreNumbered : Env → Bytes → Bool → ℕ → List File → List File → Type 0
AreNumbered env base dir i [] [] = Unit {0}
AreNumbered env base dir i [] (g ∷ gs) = ⊥
AreNumbered env base dir i (f ∷ fs) [] = ⊥
AreNumbered env base dir i (f ∷ fs) (g ∷ gs) =
    (r : Bytes) × IsPlaced env base dir f r
    × (g ≡ record f { id = i; relative_parent_path = r })
    × AreNumbered env base dir (i + 1) fs gs

-- The second links are the first ones with both paths made relative.
abbrev AreRelative : Env → Bytes → List Symlink → List Symlink → Type 0
AreRelative env base [] [] = Unit {0}
AreRelative env base [] (k ∷ ks) = ⊥
AreRelative env base (l ∷ ls) [] = ⊥
AreRelative env base (l ∷ ls) (k ∷ ks) =
    (env.rel base l.path ≡ some k.path)
    × (env.rel base l.target_path ≡ some k.target_path)
    × AreRelative env base ls ks

-- The links, and the queue of links: made relative and all queued in a directory, and else as they
-- were.
abbrev LinksQueued : Env → Bool → SenderNode → SenderNode → Type 0
LinksQueued env true n n' =
    AreRelative env n.base n.symlinks n'.symlinks
    × (n'.sending.symlinks_to_send ≡ positions 0 (length n.symlinks))
LinksQueued env false n n' =
    (n'.symlinks ≡ n.symlinks) × (n'.sending.symlinks_to_send ≡ n.sending.symlinks_to_send)

module _ (env : Env) (base : Bytes) where
  set_relative_files-total :
      (fs : List File) (i : ℕ)
      → All (λ f. IsBelow env base f.path) fs
      → (fs' : List File) × (set_relative_files env base fs ≡ ok fs')
        × (length fs' ≡ length fs)
        × AreNumbered env base true i fs (assign_ids i fs')
  unfolding set_relative_files assign_ids
  set_relative_files-total [] i below = ([], refl, refl, tt)
  set_relative_files-total (f ∷ fs) i ((r, e), below) =
      let (fs', es, count, numbered) = set_relative_files-total fs (i + 1) below in
      (
        record f { relative_parent_path = r } ∷ fs',
        rw (set_relative_files, ◌>>=◌, e, es) refl,
        ap suc count,
        (r, e, refl, numbered),
      )

  set_relative_symlinks-total :
      (ls : List Symlink)
      → All (λ l. IsBelow env base l.path × IsBelow env base l.target_path) ls
      → (ls' : List Symlink) × (set_relative_symlinks env base ls ≡ ok ls')
        × (length ls' ≡ length ls)
        × AreRelative env base ls ls'
  unfolding set_relative_symlinks
  set_relative_symlinks-total [] below = ([], refl, refl, tt)
  set_relative_symlinks-total (l ∷ ls) (((r, e), (t, et)), below) =
      let (ls', es, count, relative) = set_relative_symlinks-total ls below in
      (
        record { path = r; target_path = t } ∷ ls',
        rw (set_relative_symlinks, ◌>>=◌, e, et, es) refl,
        ap suc count,
        (e, et, relative),
      )

  -- The files of a single file keep their relative paths.
  assign_ids-AreNumbered :
      (fs : List File) (i : ℕ) → AreNumbered env base false i fs (assign_ids i fs)
  unfolding assign_ids
  assign_ids-AreNumbered [] i = tt
  assign_ids-AreNumbered (f ∷ fs) i =
      (f.relative_parent_path, refl, refl, assign_ids-AreNumbered fs (i + 1))

-- The node that ACCEPT leaves: every file is queued from the first on, with its position as its ID,
-- and so are the links of a directory; the packets of the transfer are allowed, and all else is as
-- it was.
pub record IsAccepted (env : Env) (n n' : SenderNode) : Type 0 where
  pub queue : IsQueue n'
  pub first : n'.sending.current_file_id ≡ 0
  pub files : AreNumbered env n.base n.sending.is_directory 0 n.files n'.files
  pub links : LinksQueued env n.sending.is_directory n n'
  pub allowed : n'.sending.allowed_to_transfer ≡ true
  pub goes_on : n'.stopped ≡ n.stopped
  pub unwritten : n'.conn ≡ n.conn
  pub same_key : n'.encryption_key ≡ n.encryption_key
  pub same_disk : n'.disk ≡ n.disk

-- The node with these files and links queued.
abbrev pub accepted : SenderNode → List File → List Symlink → List ℕ → SenderNode
accepted n fs ls links = record n {
  files = assign_ids 0 fs;
  symlinks = ls;
  sending = record n.sending {
    allowed_to_transfer = true;
    files_to_send = positions 0 (length fs);
    symlinks_to_send = links;
    current_file_id = 0;
  };
}

accepted-IsAccepted :
    (env : Env) (n : SenderNode) (fs : List File) (ls : List Symlink) (links : List ℕ)
    → length fs ≡ length n.files
    → length n.files < 2 ^ 64
    → AreNumbered env n.base n.sending.is_directory 0 n.files (assign_ids 0 fs)
    → LinksQueued env n.sending.is_directory n (accepted n fs ls links)
    → IsAccepted env n (accepted n fs ls links)
accepted-IsAccepted env n fs ls links same small numbered linked =
    let count = length-assign_ids 0 fs in
    let size : length fs ≡ length (assign_ids 0 fs) - 0 = omega arith in
    record {
      queue = record {
        ids = assign_ids-HasIds 0 fs;
        small = omega arith;
        within = omega arith;
        queued = ap (positions 0) size;
      };
      first = refl;
      files = numbered;
      links = linked;
      allowed = refl;
      goes_on = refl;
      unwritten = refl;
      same_key = refl;
      same_disk = refl;
    }

-- ACCEPT on a node with an empty queue, whose files are less than 2^64 and, where it serves a
-- directory, have paths that can be made relative to it, as have the paths and targets of its
-- links, gives every file its position as its ID and, in a directory, its relative path, keeps all
-- else of it, and queues all files in that order; in a directory it makes both paths of every link
-- relative and queues all links.
pub on_accept-IsAccepted :
    (env : Env) (n : SenderNode)
    → AreBelow env n.base n.sending.is_directory n.files n.symlinks
    → n.sending.files_to_send ≡ []
    → length n.files < 2 ^ 64
    → (n' : SenderNode) × (on_accept env n ≡ ok n') × IsAccepted env n n'
unfolding on_accept
on_accept-IsAccepted env n below empty small = elim (Bool-cases n.sending.is_directory) [
  | inl dir ↦
      let (paths, targets) = subst (λ b. AreBelow env n.base b n.files n.symlinks) dir below in
      let (fs, files, count, numbered) = set_relative_files-total env n.base n.files 0 paths in
      let (ls, links, same, relative) = set_relative_symlinks-total env n.base n.symlinks targets in
      (
        accepted n fs ls (positions 0 (length ls)),
        rw (dir, ◌>>=◌, or_panic, files, links, empty) refl,
        accepted-IsAccepted env n fs ls (positions 0 (length ls)) count small
            (subst (λ b. AreNumbered env n.base b 0 n.files (assign_ids 0 fs)) (sym dir) numbered)
            (subst (λ b. LinksQueued env b n (accepted n fs ls (positions 0 (length ls)))) (sym dir)
              (relative, ap (positions 0) same)),
      )
  | inr one ↦ (
    accepted n n.files n.symlinks n.sending.symlinks_to_send,
    rw (one, empty) refl,
    accepted-IsAccepted env n n.files n.symlinks n.sending.symlinks_to_send refl small
        (subst (λ b. AreNumbered env n.base b 0 n.files (assign_ids 0 n.files)) (sym one)
          (assign_ids-AreNumbered env n.base n.files 0))
        (subst (λ b. LinksQueued env b n (accepted n n.files n.symlinks n.sending.symlinks_to_send))
          (sym one) (refl, refl)),
  )
]
