-- ===== src/Node/Sender.antt =====
-- src/node/node.go, `send`: what an incoming packet does to a sending node, and what is sent next.
pub mod Queue
pub mod AlreadyHave
pub mod Accept
pub mod Relative
use ftu.Common.{
  ℕ, zero, suc, ◌+◌, ◌-◌, ◌%◌, ◌^◌, Bool, true, false, Option, none, some, List, [], ◌∷◌, ◌++◌,
  Bytes, ◌==◌, ltb, if◌then◌else◌, length, take, drop, get_elem?, Outcome, ok, err, panic,
  unfinished, ◌>>=◌, ◌≡◌, os_error,
}
use ftu.Common.BigEndian.{read_u64}
use ftu.Fsys.Disk.{File}
use ftu.Fsys.Tree.{Symlink}
use ftu.Protocol.Headers.{Kind, reject, accept, ready, disconnecting, already_have}
use ftu.Protocol.Send.{Conn}
use ftu.Node.State.{SenderNode, Env, positions}

-- `if err != nil { panic(err) }`
abbrev pub or_panic {ℓ} : {A : Type ℓ} → Outcome A → Outcome A
or_panic (ok a) = ok a
or_panic (err e) = panic
or_panic panic = panic
or_panic unfinished = unfinished

pub or_panic-eq-ok : {A : Type 0} (o : Outcome A) (x : A) → or_panic o ≡ ok x → o ≡ ok x
or_panic-eq-ok (ok value) x e = cc
or_panic-eq-ok (err reason) x e = absurd cc
or_panic-eq-ok panic x e = absurd cc
or_panic-eq-ok unfinished x e = absurd cc

-- A call whose error is dropped leaves the connection as it was.
abbrev pub dropping : Conn → Outcome Conn → Outcome Conn
dropping conn (ok conn') = ok conn'
dropping conn (err e) = ok conn
dropping conn panic = panic
dropping conn unfinished = unfinished

-- An element of a slice: an index out of range panics.
abbrev pub index {ℓ} : {A : Type ℓ} → List A → ℕ → Outcome A
index xs i = elim (get_elem? xs i) [ none ↦ panic | some x ↦ ok x ]

-- The same for the result of a call that may fail.
abbrev pub or_fail {ℓ} : {A : Type ℓ} → Option A → Outcome A
or_fail none = err os_error
or_fail (some a) = ok a

-- `SetRelativePaths`: first every file, then every link.
module _ (env : Env) where
  unfoldable pub set_relative_files : Bytes → List File → Outcome (List File)
  set_relative_files base [] = ok []
  set_relative_files base (f ∷ fs) = do
    rel_path ← or_fail (env.rel base f.path)
    rest ← set_relative_files base fs
    ok (record f { relative_parent_path = rel_path } ∷ rest)

  unfoldable pub set_relative_symlinks : Bytes → List Symlink → Outcome (List Symlink)
  set_relative_symlinks base [] = ok []
  set_relative_symlinks base (l ∷ ls) = do
    path ← or_fail (env.rel base l.path)
    target ← or_fail (env.rel base l.target_path)
    rest ← set_relative_symlinks base ls
    ok (record { path = path; target_path = target } ∷ rest)

-- `file.ID = uint64(counter)`
unfoldable pub assign_ids : ℕ → List File → List File
assign_ids i [] = []
assign_ids i (f ∷ fs) = record f { id = i } ∷ assign_ids (i + 1) fs

module _ (env : Env) where
  -- `case protocol.HeaderAccept`
  unfoldable pub on_accept : SenderNode → Outcome SenderNode
  on_accept n =
      let s = n.sending in
      if s.is_directory
      then (do
        fs ← or_panic (set_relative_files env n.base n.files)
        ls ← or_panic (set_relative_symlinks env n.base n.symlinks)
        ok (record n {
          files = assign_ids 0 fs;
          symlinks = ls;
          sending = record s {
            allowed_to_transfer = true;
            files_to_send = s.files_to_send ++ positions 0 (length fs);
            symlinks_to_send = positions 0 (length ls);
            current_file_id = 0;
          };
        }))
      else ok (record n {
        files = assign_ids 0 n.files;
        sending = record s {
          allowed_to_transfer = true;
          files_to_send = s.files_to_send ++ positions 0 (length n.files);
          current_file_id = 0;
        };
      })

-- `binary.Read` whose error is dropped leaves the variable at 0.
unfoldable pub id_of : Bytes → ℕ
id_of body = elim (read_u64 body) [ ok r ↦ r.0 | _ ↦ 0 ]

-- `append(s[:i], s[i+1:]...)` on the first `m` elements of an array: those behind `i` move down by
-- one, and what stands from place `m - 1` on stays.
abbrev pub shift_down : List ℕ → ℕ → ℕ → List ℕ
shift_down array m i =
    take i array ++ (take (m - (i + 1)) (drop (i + 1) array) ++ drop (m - 1) array)

-- What the loop over `FilesToSend` changes. The loop reads the array that it began with, while the
-- slice over it gets shorter: `len` is its length.
pub record Removal : Type 0 where
  pub array : List ℕ
  pub len : ℕ
  pub current_file_id : ℕ
  pub sent_bytes : ℕ
  pub in_transfer : Bool

-- The body of the loop on a file with the ID that was sent.
unfoldable pub remove_at : ℕ → File → Removal → Outcome Removal
remove_at i f r =
    if ltb i r.len
    then ok (record {
      array = shift_down r.array r.len i;
      len = r.len - 1;
      current_file_id = (r.current_file_id + 1) % 2 ^ 64;
      sent_bytes = (r.sent_bytes + f.size) % 2 ^ 64;
      in_transfer = false;
    })
    else panic

-- The loop, with the rounds that are left and the index of the next.
unfoldable pub already_have_loop : ℕ → ℕ → ℕ → List File → Removal → Outcome Removal
already_have_loop zero i id files r = ok r
already_have_loop (suc rounds) i id files r = do
  pointer ← index r.array i
  f ← index files pointer
  r' ← (if f.id == id then remove_at i f r else ok r)
  already_have_loop rounds (i + 1) id files r'

-- `case protocol.HeaderAlreadyHave`
unfoldable pub on_already_have : SenderNode → Bytes → Outcome SenderNode
on_already_have n body =
    let s = n.sending in
    let start : Removal = record {
      array = s.files_to_send;
      len = length s.files_to_send;
      current_file_id = s.current_file_id;
      sent_bytes = s.sent_bytes;
      in_transfer = s.in_transfer;
    } in
    already_have_loop (length s.files_to_send) 0 (id_of body) n.files start >>= λ r. ok (record n {
      sending = record s {
        files_to_send = take r.len r.array;
        current_file_id = r.current_file_id;
        sent_bytes = r.sent_bytes;
        in_transfer = r.in_transfer;
      };
    })

module _ (env : Env) where
  -- The `switch` on the header.
  unfoldable pub react : Kind → Bytes → SenderNode → Outcome SenderNode
  react ready body n = ok (record n { sending = record n.sending { can_send_bytes = true } })
  react accept body n = on_accept env n
  react reject body n = ok (record n { stopped = true })
  react disconnecting body n = ok (record n { stopped = true })
  react already_have body n = on_already_have n body
  react _ body n = ok n
