-- ===== src/Examples/Runs.antt =====
-- The theorems on whole runs and on scans at concrete inputs.
use ftu.Common.{
  ℕ, zero, suc, ◌≡◌, refl, subst, true, false, some, none, List, [], ◌∷◌, ◌++◌, codes, replicate,
  get_elem?, ok, panic, unfinished, ◌≢◌, sym, Bytes, All, Bool-cases, inl, inr, bytes_eq→eq, ◌%◌,
  ◌^◌, bytes_eq, if◌then◌else◌, arith,
}
use ftu.Common.BigEndian.{put_u64}
use ftu.Checksum.{check_sum_of, get_partial_check_sum}
use ftu.Fsys.Disk.{Disk, File, open_handle, open_file, close}
use ftu.Fsys.Tree.{Directory, dir, nil, info, get_all_files, get_all_symlinks}
use ftu.Fsys.Tree.Preorder.{files_below, links_below, get_all-below}
use ftu.Fsys.Scan.{
  Looks, get_dir, stat_dir, get_entries, gather_all, and_then, gather, gather_leaf, with_file,
  get_file, stat_file, summed_file,
}
use ftu.Fsys.Scan.Depth.{IsDeeper, IsRank, get_dir-returns}
use ftu.Fsys.Scan.Size.{sizes, get_dir-size}
use ftu.Node.Sender.Relative.{on_accept-panics}
use ftu.Protocol.Construct.{file_body}
use ftu.Protocol.Packet.{Packet}
use ftu.Node.State.{SenderNode}
use ftu.Node.Sender.{assign_ids, on_accept}
use ftu.Node.Transfer.{left, sender_loop}
use ftu.Node.Transfer.Serving.{Job, IsSound, IsBefore, IsReadable, IsFresh}
use ftu.Node.Transfer.Run.{HasServed, accept_packet, sender_loop-serves}
use ftu.Node.Receiver.{ready_packet}
use ftu.Examples.World.{
  open_os, small_disk, padding_cipher-IsGcm, notes, notes_content, notes-IsServed,
}
use ftu.Examples.Sending.{env, two_files}

abbrev pub one_file : File
one_file = record notes { id = 0 }

abbrev pub offering : SenderNode
offering = record (two_files 0 []) {
  sending = record (two_files 0 []).sending {
    is_directory = false;
    allowed_to_transfer = false;
    in_transfer = false;
  };
  files = one_file ∷ [];
}

abbrev pub accepted_offer : SenderNode
accepted_offer = record offering {
  sending = record offering.sending { allowed_to_transfer = true; files_to_send = 0 ∷ [] };
}

abbrev pub job : Job
job = record {
  env = env;
  key = none;
  contents = λ i. notes_content;
  links = [];
  files = one_file ∷ [];
}

pub job-IsSound : IsSound job
job-IsSound = record { gcm = padding_cipher-IsGcm; valid = tt; few = omega arith; room = tt }

only_file :
    (P : File → Type 0) (i : ℕ) (f : File) → P one_file → get_elem? (one_file ∷ []) i ≡ some f → P f
only_file P zero f holds e = let same : one_file ≡ f = cc in subst P same holds
only_file P (suc i) f holds e = cc

one_file-IsFresh : IsFresh one_file
unfolding file_body put_u64
one_file-IsFresh = record { unsent = refl; room = omega arith }

pub accepted_offer-IsBefore : IsBefore job [] 0 accepted_offer
accepted_offer-IsBefore = record {
  serves = record {
    queue = record { ids = (refl, tt); small = omega arith; within = omega arith; queued = refl };
    running = refl;
    same_key = refl;
    conn = refl;
    allowed = refl;
    counted = refl;
    kept = λ i le. refl;
    readable = λ i f e.
        only_file (λ g. IsReadable env.os accepted_offer.disk g notes_content) i f
          (record { served = notes-IsServed; long = refl; small = omega arith }) e;
    fresh = λ i f le e. only_file IsFresh i f one_file-IsFresh e;
    same_links = refl;
    queued_links = refl;
    no_link_sent = refl;
  };
  current = refl;
  idle = refl;
}

sender_loop-serves_example :
    (rounds : ℕ) × (n' : SenderNode) × ((ps : List Packet)
      → sender_loop env offering (accept_packet ∷ (replicate rounds ready_packet ++ ps))
        ≡ ok (left n'))
    × HasServed job [] 0 (one_file ∷ []) [] n'
unfolding on_accept assign_ids
sender_loop-serves_example =
    sender_loop-serves job [] offering accepted_offer job-IsSound refl refl accepted_offer-IsBefore

-- A directory with a link whose target is relative.
on_accept-panics_example :
    on_accept
      (record env { rel = λ base path. none })
      (record offering {
        sending = record offering.sending { is_directory = true };
        symlinks = record { path = codes "/l"; target_path = codes "x" } ∷ [];
      })
    ≡ panic
on_accept-panics_example =
    on_accept-panics (record env { rel = λ base path. none })
      (record offering {
        sending = record offering.sending { is_directory = true };
        symlinks = record { path = codes "/l"; target_path = codes "x" } ∷ [];
      })
      (record { path = codes "/l"; target_path = codes "x" }) 0 refl refl refl

-- A folder with one file in it.
abbrev pub looks : Looks
looks = record {
  os = open_os;
  abs = λ path. some path;
  join = λ base name. base ++ (codes "/" ++ name);
  stat = λ d path.
      if bytes_eq path (codes "/notes")
      then some (record { name = codes "notes"; is_dir = false; is_link = false; size = 5 })
      else some (record { name = codes "root"; is_dir = true; is_link = false; size = 0 });
  lstat = λ d path. none;
  read_dir = λ d path. (
    (
      codes "notes",
      some (record { name = codes "notes"; is_dir = false; is_link = false; size = 5 }),
    )
        ∷ [],
    none,
  );
  read_link = λ d path. none;
  sha = λ content. content;
}

abbrev scanned : Directory
scanned =
    dir (record { name = codes "root"; path = []; size = 5; relative_parent_path = [] }) []
      (record notes { id = 0; relative_parent_path = []; checksum = notes_content } ∷ []) nil

get_dir-size_example : ◌≡◌ {A = ℕ} 5 (sizes (get_all_files scanned true) % 2 ^ 64)
unfolding get_dir stat_dir get_entries gather_all and_then gather gather_leaf with_file get_file
    stat_file summed_file open_handle open_file close check_sum_of get_partial_check_sum bytes_eq
    info
get_dir-size_example = get_dir-size looks 1 [] true small_disk scanned refl

get_all-below_example :
    (get_all_files scanned true ≡ files_below scanned)
    × (get_all_symlinks scanned true ≡ links_below scanned)
get_all-below_example = get_all-below scanned

-- A folder with an empty folder in it.
abbrev nested : Looks
nested = record looks {
  stat = λ d path. some (record { name = path; is_dir = true; is_link = false; size = 0 });
  read_dir = λ d path.
      if bytes_eq path (codes "/a")
      then (
        (codes "b", some (record { name = codes "b"; is_dir = true; is_link = false; size = 0 }))
            ∷ [],
        none,
      )
      else ([], none);
}

abbrev nested_rank : Bytes → ℕ
nested_rank path = if bytes_eq path (codes "/a") then 1 else 0

nested-IsDeeper :
    (path at : Bytes) (d : Disk)
    → path ≡ at
    → All (IsDeeper nested nested_rank (nested_rank path) at) (nested.read_dir d at).0
unfolding bytes_eq
nested-IsDeeper path at d e = elim (Bool-cases (bytes_eq at (codes "/a"))) [
  | inl there ↦
      let named : at ≡ codes "/a" = bytes_eq→eq at (codes "/a") there in
      subst (λ p. All (IsDeeper nested nested_rank (nested_rank p) at) (nested.read_dir d at).0)
        (sym e)
        (subst (λ p. All (IsDeeper nested nested_rank (nested_rank p) p) (nested.read_dir d p).0)
          (sym named) (inr (omega arith), tt))
  | inr other ↦ rw other tt
]

nested-IsRank : IsRank nested (λ d. Unit {0}) nested_rank
nested-IsRank = record {
  ranked = λ path at d good e. nested-IsDeeper path at d cc;
  kept = λ f g d d' good e. tt;
}

get_dir-returns_example :
    ((get_dir nested 2 (codes "/a") true small_disk).0 ≢ panic)
    × ((get_dir nested 2 (codes "/a") true small_disk).0 ≢ unfinished)
    × Unit {0}
unfolding bytes_eq
get_dir-returns_example =
    get_dir-returns nested (λ d. Unit {0}) nested_rank 2 (codes "/a") true small_disk nested-IsRank
      tt (omega arith)
