-- ===== src/Node/Transfer/Accepting.antt =====
-- src/node/node.go, `send`: a node that took ACCEPT stands before the first of its files.
use ftu.Common.{
  ℕ, suc, ◌-◌, ◌^◌, ◌<◌, ◌≡◌, refl, sym, ap, subst, ◌∙◌, true, false, Bool-cases, inl, inr, Option,
  some, List, [], ◌∷◌, Bytes, length, get_elem?, ok, ◌>>=◌, >>=-eq-ok, arith,
}
use ftu.Fsys.Disk.{Disk, File}
use ftu.Fsys.Tree.{Symlink}
use ftu.Node.State.{SenderNode, Env, positions}
use ftu.Node.Sender.{
  or_fail, or_panic, or_panic-eq-ok, assign_ids, set_relative_files, set_relative_symlinks,
  on_accept,
}
use ftu.Node.Sender.Accept.{accepted}
use ftu.Node.Sender.Queue.{assign_ids-HasIds, length-assign_ids}
use ftu.Node.Transfer.Serving.{Job, IsBefore, IsReadable, IsFresh}

set_relative_files-length :
    (env : Env) (base : Bytes) (fs fs' : List File)
    → set_relative_files env base fs ≡ ok fs'
    → length fs' ≡ length fs
unfolding set_relative_files
set_relative_files-length env base [] fs' e = let same : fs' ≡ [] = cc in ap length same
set_relative_files-length env base (f ∷ fs) fs' e =
    let (path, found, e1) = >>=-eq-ok (or_fail (env.rel base f.path)) _ e in
    let (rest, below, e2) = >>=-eq-ok (set_relative_files env base fs) _ e1 in
    let same : fs' ≡ record f { relative_parent_path = path } ∷ rest = cc in
    ap length same ∙ ap suc (set_relative_files-length env base fs rest below)

on_accept-directory :
    (env : Env) (n : SenderNode)
    → n.sending.is_directory ≡ true
    → n.sending.files_to_send ≡ []
    → on_accept env n ≡ (
        or_panic (set_relative_files env n.base n.files) >>= λ fs.
        or_panic (set_relative_symlinks env n.base n.symlinks) >>= λ ls.
        ok (accepted n fs ls (positions 0 (length ls))))
unfolding on_accept
on_accept-directory env n dir empty = rw (dir, empty) refl

on_accept-file :
    (env : Env) (n : SenderNode)
    → n.sending.is_directory ≡ false
    → n.sending.files_to_send ≡ []
    → on_accept env n ≡ ok (accepted n n.files n.symlinks n.sending.symlinks_to_send)
unfolding on_accept
on_accept-file env n one empty = rw (one, empty) refl

ok-injective : {A : Type 0} {x y : A} → ok x ≡ ok y → x ≡ y
ok-injective e = cc

-- A running node that has queued nothing, which serves no links if it serves one file.
pub record IsUnqueued (n : SenderNode) (key : Option Bytes) (out : Bytes) : Type 0 where
  pub running : n.stopped ≡ false
  pub same_key : n.encryption_key ≡ key
  pub conn : n.conn ≡ record { outgoing = out; alive = true }
  pub no_files : n.sending.files_to_send ≡ []
  pub no_links : n.sending.symlinks_to_send ≡ []
  pub no_link_sent : n.sending.current_symlink_index ≡ 0
  pub idle : n.sending.in_transfer ≡ false
  pub one_file : n.sending.is_directory ≡ false → n.symlinks ≡ []

-- The files of a job can be read, and described in a packet.
abbrev pub AreReadable : Job → Disk → Type 0
AreReadable job d =
    (i : ℕ) (f : File)
    → get_elem? job.files i ≡ some f
    → IsReadable job.env.os d f (job.contents i) × IsFresh f

module _ (job : Job) (out : Bytes) (n : SenderNode) (u : IsUnqueued n job.key out) where
  accepted-IsBefore :
      (fs : List File) (ls : List Symlink)
      → length n.files < 2 ^ 64
      → length fs ≡ length n.files
      → assign_ids 0 fs ≡ job.files
      → ls ≡ job.links
      → AreReadable job n.disk
      → IsBefore job out 0 (accepted n fs ls (positions 0 (length ls)))
  accepted-IsBefore fs ls few count files links readable =
      let long : length (assign_ids 0 fs) ≡ length fs = length-assign_ids 0 fs in
      let size : length fs ≡ length (assign_ids 0 fs) - 0 = omega arith in
      record {
        serves = record {
          queue = record {
            ids = assign_ids-HasIds 0 fs;
            small = omega arith;
            within = omega arith;
            queued = ap (positions 0) size;
          };
          running = u.running;
          same_key = u.same_key;
          conn = u.conn;
          allowed = refl;
          counted = ap length files;
          kept = λ i le. ap (λ x. get_elem? x i) files;
          readable = λ i f e. (readable i f (ap (λ x. get_elem? x i) (sym files) ∙ e)).0;
          fresh = λ i f le e. (readable i f (ap (λ x. get_elem? x i) (sym files) ∙ e)).1;
          same_links = links;
          queued_links = ap (λ x. positions 0 (length x)) links;
          no_link_sent = u.no_link_sent;
        };
        current = refl;
        idle = u.idle;
      }

  -- A node that takes ACCEPT stands before the first of the files that it has then.
  pub on_accept-IsBefore :
      (n' : SenderNode)
      → length n.files < 2 ^ 64
      → on_accept job.env n ≡ ok n'
      → n'.files ≡ job.files
      → n'.symlinks ≡ job.links
      → AreReadable job n.disk
      → IsBefore job out 0 n'
  on_accept-IsBefore n' few accepts files links readable =
      elim (Bool-cases n.sending.is_directory) [
        | inl dir ↦
            let runs = sym (on_accept-directory job.env n dir u.no_files) ∙ accepts in
            let (fs, found, more) =
              >>=-eq-ok (or_panic (set_relative_files job.env n.base n.files)) _ runs in
            let (ls, linked, last) =
              >>=-eq-ok (or_panic (set_relative_symlinks job.env n.base n.symlinks)) _ more in
            let same : accepted n fs ls (positions 0 (length ls)) ≡ n' = cc in
            subst (IsBefore job out 0) same (
              accepted-IsBefore fs ls few
                (set_relative_files-length job.env n.base n.files fs (or_panic-eq-ok _ fs found))
                (ap (λ x. x.files) same ∙ files) (ap (λ x. x.symlinks) same ∙ links) readable)
        | inr one ↦
            let none_queued : n.sending.symlinks_to_send ≡ positions 0 (length n.symlinks) =
              u.no_links ∙ sym (ap (λ x. positions 0 (length x)) (u.one_file one)) in
            let same : accepted n n.files n.symlinks (positions 0 (length n.symlinks)) ≡ n' =
              ok-injective (
                ap (λ x. ok (accepted n n.files n.symlinks x)) (sym none_queued)
                ∙ sym (on_accept-file job.env n one u.no_files)
                ∙ accepts) in
            subst (IsBefore job out 0) same (
              accepted-IsBefore n.files n.symlinks few refl (ap (λ x. x.files) same ∙ files)
                (ap (λ x. x.symlinks) same ∙ links) readable)
      ]
