-- ===== src/Node/Sender/Relative.antt =====
-- src/node/node.go, `send`, and src/fsys/dir.go: ACCEPT for a directory with a path that cannot be
-- made relative.
use ftu.Common.{
  ℕ, zero, suc, ◌≡◌, refl, ◌⊎◌, inl, inr, true, Option-cases, none, some, List, [], ◌∷◌, Bytes,
  get_elem?, ok, err, panic, ◌>>=◌, os_error,
}
use ftu.Fsys.Disk.{File}
use ftu.Fsys.Tree.{Symlink}
use ftu.Node.State.{SenderNode, Env}
use ftu.Node.Sender.{or_panic, set_relative_files, set_relative_symlinks, on_accept}

module _ (env : Env) (base : Bytes) where
  set_relative_files-cases :
      (fs : List File)
      → (set_relative_files env base fs ≡ err os_error)
        ⊎ ((fs' : List File) × (set_relative_files env base fs ≡ ok fs'))
  unfolding set_relative_files
  set_relative_files-cases [] = inr ([], refl)
  set_relative_files-cases (f ∷ fs) = elim (Option-cases (env.rel base f.path)) [
    | inl e ↦ inl (rw (set_relative_files, ◌>>=◌, e) refl)
    | inr (r, e) ↦ elim (set_relative_files-cases fs) [
      | inl es ↦ inl (rw (set_relative_files, ◌>>=◌, e, es) refl)
      | inr (fs', es) ↦
          inr (
            record f { relative_parent_path = r } ∷ fs',
            rw (set_relative_files, ◌>>=◌, e, es) refl,
          )
    ]
  ]

  -- The target of one link is enough to fail.
  set_relative_symlinks-fails :
      (ls : List Symlink) (l : Symlink) (i : ℕ)
      → get_elem? ls i ≡ some l
      → env.rel base l.target_path ≡ none
      → set_relative_symlinks env base ls ≡ err os_error
  unfolding set_relative_symlinks
  set_relative_symlinks-fails [] l i at fails = cc
  set_relative_symlinks-fails (x ∷ ls) l zero at fails =
      let here : x ≡ l = cc in
      let target : env.rel base x.target_path ≡ none = rw here fails in
      elim (Option-cases (env.rel base x.path)) [
        | inl e ↦ rw (set_relative_symlinks, ◌>>=◌, e) refl
        | inr (r, e) ↦ rw (set_relative_symlinks, ◌>>=◌, e, target) refl
      ]
  set_relative_symlinks-fails (x ∷ ls) l (suc i) at fails =
      let rest = set_relative_symlinks-fails ls l i at fails in
      elim (Option-cases (env.rel base x.path)) [
        | inl e ↦ rw (set_relative_symlinks, ◌>>=◌, e) refl
        | inr (r, e) ↦ elim (Option-cases (env.rel base x.target_path)) [
          | inl t ↦ rw (set_relative_symlinks, ◌>>=◌, e, t) refl
          | inr (q, t) ↦ rw (set_relative_symlinks, ◌>>=◌, e, t, rest) refl
        ]
      ]

-- The node that sends a directory panics on ACCEPT if the target of any of its links cannot be made
-- relative to the directory, as `filepath.Rel` cannot make a target that is a relative path
-- already.
pub on_accept-panics :
    (env : Env) (n : SenderNode) (l : Symlink) (i : ℕ)
    → n.sending.is_directory ≡ true
    → get_elem? n.symlinks i ≡ some l
    → env.rel n.base l.target_path ≡ none
    → on_accept env n ≡ panic
unfolding on_accept
on_accept-panics env n l i folder at fails =
    let links = set_relative_symlinks-fails env n.base n.symlinks l i at fails in
    elim (set_relative_files-cases env n.base n.files) [
      | inl e ↦ rw (folder, ◌>>=◌, or_panic, e) refl
      | inr (fs, e) ↦ rw (folder, ◌>>=◌, or_panic, e, links) refl
    ]
