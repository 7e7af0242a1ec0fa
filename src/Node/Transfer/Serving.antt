-- ===== src/Node/Transfer/Serving.antt =====
-- src/node/node.go, `send`: a sending node whose files can be read, between two files and during
-- one.
use ftu.Common.{
  ℕ, zero, suc, ◌+◌, ◌^◌, ◌≤◌, ◌<◌, ◌≡◌, refl, sym, subst, ap, ◌∙◌, ◌≢◌, ◌⊎◌, inl, inr, true, false,
  Option, some, List, [], ◌∷◌, Bytes, ◌==◌, ==_refl, length, All, set, get_elem?, ok, ◌>>=◌, arith,
}
use ftu.Common.BigEndian.{IsU64}
use ftu.Encryption.{IsGcm}
use ftu.Fsys.Disk.{Disk, Os, File}
use ftu.Fsys.Tree.{Symlink}
use ftu.Protocol.Headers.{max_packet_size}
use ftu.Protocol.Construct.{file_body}
use ftu.Protocol.Offer.{IsKey}
use ftu.Protocol.Pieces.{IsServed, IsAt}
use ftu.Node.State.{SenderNode, Env, positions}
use ftu.Node.Sender.{index}
use ftu.Node.Sender.Queue.{HasIds, HasIds-id, IsQueue}
use ftu.Node.Transfer.{current_index}

-- `set` leaves the other places, and the length.
module _ {ℓ} {A : Type ℓ} where
  pub length-set : (xs : List A) (k : ℕ) (v : A) → length (set xs k v) ≡ length xs
  length-set [] k v = refl
  length-set (x ∷ xs) zero v = refl
  length-set (x ∷ xs) (suc k) v = ap suc (length-set xs k v)

  pub get_elem?-set_same :
      (xs : List A) (k : ℕ) (v : A) → k < length xs → get_elem? (set xs k v) k ≡ some v
  get_elem?-set_same [] k v h = absurd (omega arith)
  get_elem?-set_same (x ∷ xs) zero v h = refl
  get_elem?-set_same (x ∷ xs) (suc k) v h = get_elem?-set_same xs k v (omega arith)

  pub get_elem?-set_other :
      (xs : List A) (k i : ℕ) (v : A) → i ≢ k → get_elem? (set xs k v) i ≡ get_elem? xs i
  get_elem?-set_other [] k i v ne = refl
  get_elem?-set_other (x ∷ xs) zero zero v ne = absurd (ne refl)
  get_elem?-set_other (x ∷ xs) zero (suc i) v ne = refl
  get_elem?-set_other (x ∷ xs) (suc k) zero v ne = refl
  get_elem?-set_other (x ∷ xs) (suc k) (suc i) v ne =
      get_elem?-set_other xs k i v (λ e. ne (ap suc e))

  -- What stands in a list after a write stood there before, or was written.
  pub get_elem?-set :
      (xs : List A) (k i : ℕ) (v x : A)
      → get_elem? (set xs k v) i ≡ some x
      → ((i ≡ k) × (x ≡ v)) ⊎ ((i ≢ k) × (get_elem? xs i ≡ some x))
  get_elem?-set [] k i v x e = cc
  get_elem?-set (y ∷ xs) zero zero v x e = inl (refl, cc)
  get_elem?-set (y ∷ xs) zero (suc i) v x e = inr (λ z. absurd (omega arith), e)
  get_elem?-set (y ∷ xs) (suc k) zero v x e = inr (λ z. absurd (omega arith), e)
  get_elem?-set (y ∷ xs) (suc k) (suc i) v x e = elim (get_elem?-set xs k i v x e) [
    | inl (same, w) ↦ inl (ap suc same, w)
    | inr (other, w) ↦ inr (λ z. other (omega arith), w)
  ]

pub HasIds-set :
    (i k : ℕ) (fs : List File) (f g : File)
    → HasIds i fs
    → get_elem? fs k ≡ some f
    → g.id ≡ f.id
    → HasIds i (set fs k g)
HasIds-set i k [] f g ids at same = ids
HasIds-set i zero (x ∷ fs) f g (hx, ids) at same = let e : x.id ≡ f.id = cc in (omega arith, ids)
HasIds-set i (suc k) (x ∷ fs) f g (hx, ids) at same = (hx, HasIds-set (i + 1) k fs f g ids at same)

-- A file that can be read, with its content.
pub record IsReadable (os : Os) (d : Disk) (f : File) (content : Bytes) : Type 0 where
  pub served : IsServed os d f.path content
  pub long : length content ≡ f.size
  pub small : IsU64 f.size

pub IsReadable-moved :
    (os : Os) (d : Disk) (f g : File) (content : Bytes) (x : ℕ)
    → IsAt f x g
    → IsReadable os d f content
    → IsReadable os d g content
IsReadable-moved os d f g content x moved r = record {
  served = subst (λ p. IsServed os d p content) (sym moved.path) r.served;
  long = r.long ∙ sym moved.size;
  small = omega (arith, r.small, moved.size);
}

-- A file of which nothing is sent yet, and whose description fits into a packet.
pub record IsFresh (f : File) : Type 0 where
  pub unsent : f.sent_bytes ≡ 0
  pub room : length (file_body f) + 33 ≤ max_packet_size

-- What a transfer is about: the cipher and the system, the key, the files as they are at the start
-- with their contents by position, and the links.
pub record Job : Type 0 where
  pub env : Env
  pub key : Option Bytes
  pub contents : ℕ → Bytes
  pub links : List Symlink
  pub files : List File

pub record IsSound (job : Job) : Type 0 where
  pub gcm : IsGcm job.env.cipher
  pub valid : IsKey job.key
  pub few : length job.links < 2 ^ 64
  pub room : All (λ l. length l.path + length l.target_path + 60 ≤ max_packet_size) job.links

-- A running node that serves the job, has written `out`, and has files from `from` on which are not
-- begun.
pub record Serves (job : Job) (out : Bytes) (from : ℕ) (n : SenderNode) : Type 0 where
  pub queue : IsQueue n
  pub running : n.stopped ≡ false
  pub same_key : n.encryption_key ≡ job.key
  pub conn : n.conn ≡ record { outgoing = out; alive = true }
  pub allowed : n.sending.allowed_to_transfer ≡ true
  pub counted : length n.files ≡ length job.files
  pub kept : (i : ℕ) → from ≤ i → get_elem? n.files i ≡ get_elem? job.files i
  pub readable :
      (i : ℕ) (f : File)
      → get_elem? n.files i ≡ some f
      → IsReadable job.env.os n.disk f (job.contents i)
  pub fresh : (i : ℕ) (f : File) → from ≤ i → get_elem? n.files i ≡ some f → IsFresh f
  pub same_links : n.symlinks ≡ job.links
  pub queued_links : n.sending.symlinks_to_send ≡ positions 0 (length job.links)
  pub no_link_sent : n.sending.current_symlink_index ≡ 0

-- Before its `k`-th file, and during it, with the file as it is then.
pub record IsBefore (job : Job) (out : Bytes) (k : ℕ) (n : SenderNode) : Type 0 where
  pub serves : Serves job out k n
  pub current : n.sending.current_file_id ≡ k
  pub idle : n.sending.in_transfer ≡ false

pub record IsDuring (job : Job) (out : Bytes) (k sent : ℕ) (n : SenderNode) : Type 0 where
  pub serves : Serves job out (k + 1) n
  pub current : n.sending.current_file_id ≡ k
  pub busy : n.sending.in_transfer ≡ true
  pub file : File
  pub at : get_elem? n.files k ≡ some file
  pub sent_bytes : file.sent_bytes ≡ sent

-- The search for the current file ends at the head of the queue.
pub current_index-head :
    (fs : List File) (f : File) (k m : ℕ)
    → HasIds 0 fs
    → get_elem? fs k ≡ some f
    → current_index k fs (positions k (suc m)) 0 ≡ ok 0
unfolding current_index
current_index-head fs f k m ids at =
    let hit : (f.id == k) ≡ true = rw (HasIds-id 0 k k fs f ids at (omega arith)) (==_refl k) in
    rw (current_index, index, ◌>>=◌, at, hit) refl
