-- ===== src/Examples/Whole.antt =====
-- A whole session at a concrete input.
use ftu.Common.{
  ℕ, suc, ◌+◌, ◌≡◌, refl, true, false, some, List, [], ◌∷◌, ◌++◌, Bytes, length, replicate, codes,
  bytes_eq, ok, eof, append-nil, arith,
}
use ftu.Protocol.Headers.{max_packet_size}
use ftu.Protocol.Packet.{Packet}
use ftu.Protocol.Decode.RoundTrip.{IsSent}
use ftu.Protocol.Recv.{receive_packets}
use ftu.Protocol.Recv.Segments.{pending}
use ftu.Node.State.{SenderNode}
use ftu.Node.Sender.{on_accept, assign_ids}
use ftu.Node.Transfer
use ftu.Node.Transfer.{sender_loop}
use ftu.Node.Transfer.Run.{accept_packet}
use ftu.Node.Receiver.{Surroundings, ReceiverNode, ready_packet, destination}
use ftu.Node.Loop
use ftu.Node.Loop.{receiver_loop}
use ftu.Node.Session.Several.{IsRoom, stored}
use ftu.Node.Session.Whole.{sender_loop-stored}
use ftu.Examples.World.{open_os, notes_content}
use ftu.Examples.Sending.{env}
use ftu.Examples.Sessions.{surroundings, is_folder, receiver}
use ftu.Examples.Runs.{
  job, offering, accepted_offer, one_file, job-IsSound, accepted_offer-IsBefore,
}

-- A file can be opened where the folder for downloads stands.
abbrev plain : Surroundings
plain = record surroundings {
  os = record open_os { can_open = λ d path. is_folder (d (codes "/in")) };
  parent = λ path. codes "/in";
}

-- A node on an empty disk.
abbrev waiting : ReceiverNode
waiting = record receiver { accepted_files = []; downloads_path = codes "/in" }

one_file-IsSent : IsSent 4096 one_file
one_file-IsSent = omega arith

waiting-IsRoom : IsRoom plain job.contents (codes "/in") 0 (one_file ∷ []) waiting.disk
unfolding destination bytes_eq
waiting-IsRoom = (refl, one_file-IsSent, omega arith, _, refl, refl, refl, refl, λ x. refl, tt)

pending-one : (b : Bytes) → pending (b ∷ []) ≡ b
pending-one b = append-nil b

sender_loop-stored_example :
    (rounds : ℕ) × (s' : SenderNode) × (ps : List Packet) × (n' : ReceiverNode) × ((more : List
        Packet)
      → sender_loop env offering (accept_packet ∷ (replicate rounds ready_packet ++ more))
        ≡ ok (Transfer.left s'))
    × (receive_packets
          (suc (length ps))
          (suc (max_packet_size + 1))
          (some (s'.conn.outgoing ∷ []))
          (record { packets = []; closed = false })
        ≡ ok (record { packets = ps; closed = true }, eof))
    × (receiver_loop plain waiting ps ≡ ok (Loop.left n'))
    × (stored plain (λ i. notes_content) (codes "/in") 0 (one_file ∷ []) waiting.disk ≡ ok n'.disk)
    × (n'.conn.alive ≡ false)
unfolding on_accept assign_ids
sender_loop-stored_example =
    sender_loop-stored job offering accepted_offer plain waiting (λ b. b ∷ []) pending-one
      job-IsSound refl refl accepted_offer-IsBefore refl refl
      (record { running = refl; same_key = refl; pool = refl }) waiting-IsRoom
