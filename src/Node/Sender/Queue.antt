-- ===== src/Node/Sender/Queue.antt =====
-- The queue of files in src/node/node.go, `send`: which files are in it, and in which order.
use ftu.Common.{
  ℕ, zero, suc, ◌+◌, ◌-◌, ◌^◌, ◌≤◌, ◌<◌, ◌≡◌, refl, ap, some, List, [], ◌∷◌, length, get_elem?,
  arith,
}
use ftu.Fsys.Disk.{File}
use ftu.Node.State.{SenderNode, positions}
use ftu.Node.Sender.{assign_ids}

-- Every file has its position as its ID, counted from `i`.
abbrev pub HasIds : ℕ → List File → Type 0
HasIds i [] = Unit {0}
HasIds i (f ∷ fs) = (f.id ≡ i) × HasIds (i + 1) fs

pub HasIds-id :
    (i p k : ℕ) (fs : List File) (f : File)
    → HasIds i fs
    → get_elem? fs p ≡ some f
    → k ≡ i + p
    → f.id ≡ k
HasIds-id i p k [] f h e s = cc
HasIds-id i zero k (g ∷ fs) f (hg, h) e s = let same : g.id ≡ f.id = cc in omega arith
HasIds-id i (suc p) k (g ∷ fs) f (hg, h) e s = HasIds-id (i + 1) p k fs f h e (omega arith)

pub assign_ids-HasIds : (i : ℕ) (fs : List File) → HasIds i (assign_ids i fs)
unfolding assign_ids
assign_ids-HasIds i [] = tt
assign_ids-HasIds i (f ∷ fs) = (refl, assign_ids-HasIds (i + 1) fs)

pub length-assign_ids : (i : ℕ) (fs : List File) → length (assign_ids i fs) ≡ length fs
unfolding assign_ids
length-assign_ids i [] = refl
length-assign_ids i (f ∷ fs) = ap suc (length-assign_ids (i + 1) fs)

pub length-positions : (i n : ℕ) → length (positions i n) ≡ n
length-positions i zero = refl
length-positions i (suc n) = ap suc (length-positions (i + 1) n)

-- The files from the current one on are queued, in their order.
pub record IsQueue (n : SenderNode) : Type 0 where
  pub ids : HasIds 0 n.files
  pub small : length n.files < 2 ^ 64
  pub within : n.sending.current_file_id ≤ length n.files
  pub queued :
      n.sending.files_to_send
      ≡ positions n.sending.current_file_id (length n.files - n.sending.current_file_id)
