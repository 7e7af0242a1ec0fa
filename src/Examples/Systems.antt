-- ===== src/Examples/Systems.antt =====
-- Both nodes together at concrete inputs.
use ftu.Common.{
  ℕ, zero, suc, ◌≡◌, refl, subst, true, false, Bytes, none, some, [], ◌∷◌, ◌++◌, codes, bytes_eq,
  get_elem?, ok, if◌then◌else◌, arith,
}
use ftu.Common.BigEndian.{put_u64}
use ftu.Encryption.{valid_key}
use ftu.Fsys.Disk.{Disk, File, folder, regular, update}
use ftu.Fsys.Tree.{Directory, Symlink, dir, nil, info}
use ftu.Protocol.Headers
use ftu.Protocol.Headers.{dir_code, header_of, kind_of, kind_of-header_of}
use ftu.Protocol.Construct.{create_directory_packet, file_body}
use ftu.Protocol.Packet.{Packet}
use ftu.Protocol.Decode.{decode_transfer_packet}
use ftu.Protocol.Decode.RoundTrip.{
  IsSent, received_directory, decode_transfer_packet-directory_body,
}
use ftu.Node.State.{SenderNode}
use ftu.Node.Sender.{assign_ids, on_accept, set_relative_files, set_relative_symlinks}
use ftu.Node.Transfer.Serving.{Job, IsSound, IsBefore, IsReadable, IsFresh}
use ftu.Node.Receiver.{Surroundings, ReceiverNode, destination, enter_directory, is_yes}
use ftu.Node.Session.Answers.{IsOffering}
use ftu.Node.Session.Several.{IsRoom, stored}
use ftu.Node.Transfer.Run.{accept_packet}
use ftu.Node.Receiving.{answer_step}
use ftu.Node.System.{Wrote, Inevitably}
use ftu.Node.System.Exchange.{to_sender}
use ftu.Node.System.Ending.{HasEnded}
use ftu.Node.System.Session.{asked}
use ftu.Node.System.Deciding.{answer_step-HasEnded}
use ftu.Examples.World.{
  padding_cipher-IsGcm, open_os, key_bytes, notes, notes_content, notes-IsServed,
}
use ftu.Examples.Sending.{env, two_files}
use ftu.Examples.Sessions.{surroundings, is_folder, receiver}

-- A folder with a file and a link.
abbrev docs_file : File
docs_file = record notes { id = 0; relative_parent_path = codes "/notes" }

abbrev pub docs_link : Symlink
docs_link = record { path = codes "/l"; target_path = codes "/notes" }

abbrev docs : Directory
docs =
    dir (record { name = codes "docs"; path = codes "/"; size = 5; relative_parent_path = [] })
      (docs_link ∷ []) (notes ∷ []) nil

-- The node that serves it, before and after ACCEPT.
abbrev offering : SenderNode
offering = record (two_files 0 []) {
  encryption_key = some key_bytes;
  sending = record (two_files 0 []).sending { allowed_to_transfer = false; in_transfer = false };
  files = notes ∷ [];
  symlinks = docs_link ∷ [];
}

abbrev accepted : SenderNode
accepted = record offering {
  files = docs_file ∷ [];
  sending = record offering.sending {
    allowed_to_transfer = true;
    files_to_send = 0 ∷ [];
    symlinks_to_send = 0 ∷ [];
  };
}

abbrev job : Job
job = record {
  env = env;
  key = some key_bytes;
  contents = λ i. notes_content;
  links = docs_link ∷ [];
  files = docs_file ∷ [];
}

job-IsSound : IsSound job
unfolding valid_key
job-IsSound = record {
  gcm = padding_cipher-IsGcm;
  valid = refl;
  few = omega arith;
  room = (omega arith, tt);
}

only_file :
    (P : File → Type 0) (i : ℕ) (f : File)
    → P docs_file
    → get_elem? (docs_file ∷ []) i ≡ some f
    → P f
only_file P zero f holds e = let same : docs_file ≡ f = cc in subst P same holds
only_file P (suc i) f holds e = cc

docs_file-IsFresh : IsFresh docs_file
unfolding file_body put_u64
docs_file-IsFresh = record { unsent = refl; room = omega arith }

accepted-IsBefore : IsBefore job [] 0 accepted
accepted-IsBefore = record {
  serves = record {
    queue = record { ids = (refl, tt); small = omega arith; within = omega arith; queued = refl };
    running = refl;
    same_key = refl;
    conn = refl;
    allowed = refl;
    counted = refl;
    kept = λ i le. refl;
    readable = λ i f e.
        only_file (λ g. IsReadable env.os accepted.disk g notes_content) i f
          (record { served = notes-IsServed; long = refl; small = omega arith }) e;
    fresh = λ i f le e. only_file IsFresh i f docs_file-IsFresh e;
    same_links = refl;
    queued_links = refl;
    no_link_sent = refl;
  };
  current = refl;
  idle = refl;
}

-- The folders of the node that downloads.
abbrev pub folder_of : Bytes → Bytes
unfolding bytes_eq
folder_of path = if bytes_eq path (codes "/in/docs//notes") then codes "/in/docs" else codes "/in"

-- A file can be opened where its folder stands.
abbrev pub plain : Surroundings
plain = record surroundings {
  os = record open_os { can_open = λ d path. is_folder (d (folder_of path)) };
  parent = folder_of;
  max_alloc = 131072;
}

-- The node that downloads it, on an empty disk.
abbrev pub waiting : ReceiverNode
waiting = record receiver { accepted_files = []; downloads_path = codes "/in" }

abbrev entered : ReceiverNode
entered = record waiting {
  encryption_key = some key_bytes;
  total_download_size = 5;
  downloads_path = codes "/in/docs";
  disk = update waiting.disk (codes "/in/docs") (some folder);
}

docs_file-IsSent : IsSent 131072 docs_file
docs_file-IsSent = omega arith

entered-IsRoom : IsRoom plain job.contents (codes "/in/docs") 0 (docs_file ∷ []) entered.disk
unfolding destination bytes_eq
entered-IsRoom = (refl, docs_file-IsSent, omega arith, _, refl, refl, refl, refl, λ x. refl, tt)

-- The offer, and what it is sent as.
abbrev clear : Packet
clear = record {
  header = header_of Headers.transfer_offer;
  body = dir_code ++ (create_directory_packet docs).body;
}

offer-docs : decode_transfer_packet 131072 clear ≡ ok (none, some (received_directory 131072 docs))
unfolding info
offer-docs = decode_transfer_packet-directory_body 131072 docs (omega arith) (omega arith)

offering-IsOffering : IsOffering offering []
offering-IsOffering = record {
  running = refl;
  conn = refl;
  no_files = refl;
  no_links = refl;
  no_link_sent = refl;
}

-- The disk with the file, and with the folder of the link.
abbrev laid : Disk
laid =
    update (update entered.disk (codes "/in/docs") (some folder)) (codes "/in/docs//notes")
      (some (regular notes_content))

abbrev final : Disk
final = update laid (codes "/in/docs//in") (some folder)

answer_step-HasEnded_example :
    (r' : ReceiverNode) × (answer_step plain
        (codes "y")
        (asked waiting key_bytes clear)
        (clear ∷ [])
      ≡ ok r')
    × Wrote waiting.conn r'.conn (accept_packet ∷ [])
    × (r'.stopped ≡ false)
    × Inevitably env plain (HasEnded (λ d. d ≡ final)) (to_sender offering r' accept_packet)
    × Inevitably env plain (HasEnded (λ d. d ≡ final)) (to_sender offering r' accept_packet)
unfolding on_accept assign_ids set_relative_files set_relative_symlinks enter_directory bytes_eq
    is_yes info stored destination
answer_step-HasEnded_example =
    answer_step-HasEnded job job-IsSound plain refl (omega arith) offering accepted waiting entered
      [] [] key_bytes clear none (some (received_directory 131072 docs)) final offering-IsOffering
      refl accepted-IsBefore (record { running = refl; alive = refl; no_offer = refl }) refl refl
      refl offer-docs refl entered-IsRoom refl (codes "y")
