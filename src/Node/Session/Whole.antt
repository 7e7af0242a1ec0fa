-- ===== src/Node/Session/Whole.antt =====
-- A whole session of two nodes, from ACCEPT to the disconnection of both.
use ftu.Common.{
  ℕ, suc, ◌+◌, ◌≡◌, refl, sym, ap, subst, ◌∙◌, true, false, some, List, [], ◌∷◌, ◌++◌, append-nil,
  Bytes, length, All, All-append, ok, eof, replicate, arith,
}
use ftu.Fsys.Disk.{File}
use ftu.Protocol.Headers.{max_packet_size}
use ftu.Protocol.Packet.{Packet}
use ftu.Protocol.Delivery.{IsSendable, frames, receive_packets-frames}
use ftu.Protocol.Pieces.Whole.{Carries}
use ftu.Protocol.Recv.{receive_packets}
use ftu.Protocol.Recv.Segments.{pending}
use ftu.Node.State.{SenderNode}
use ftu.Node.Sender.{on_accept}
use ftu.Node.Transfer
use ftu.Node.Transfer.{sender_loop}
use ftu.Node.Transfer.Serving.{Job, IsSound, IsBefore}
use ftu.Node.Transfer.Files.{SendsFile, SendsFiles}
use ftu.Node.Transfer.Links.{SendsLinks}
use ftu.Node.Transfer.Leaving.{
  done_packet-IsSendable, bye_packet-IsSendable, done_packet, bye_packet,
}
use ftu.Node.Transfer.Run.{accept_packet, sender_loop-serves}
use ftu.Node.Receiver.{Surroundings, ReceiverNode, ready_packet}
use ftu.Node.Loop
use ftu.Node.Loop.{receiver_loop}
use ftu.Node.Loop.Ends.{receiver_loop-done, receiver_steps_none, disconnect_receiver-total}
use ftu.Node.Session.{Carries-IsSendable}
use ftu.Node.Session.Several.{IsRoom, IsIdle, stored, files_arrive}

SendsLinks-none : (job : Job) (ps : List Packet) → SendsLinks job [] ps → ps ≡ []
SendsLinks-none job [] sends = refl
SendsLinks-none job (p ∷ ps) sends = absurd sends

module _ (env : Surroundings) (job : Job) (ciphers : job.env.cipher ≡ env.cipher) where
  SendsFile-IsSendable :
      (k : ℕ) (f : File) (sent : List Packet) → SendsFile job k f sent → All IsSendable sent
  SendsFile-IsSendable k f sent sends = subst (All IsSendable) (sym sends.whole) (
    sends.first_sendable,
    All-append IsSendable sends.middle (sends.last ∷ [])
        (Carries-IsSendable env job.key k sends.middle sends.pieces
          (subst (λ c. Carries c job.key k sends.middle sends.pieces) ciphers sends.carries))
        (sends.last_sendable, tt),
  )

  SendsFiles-IsSendable :
      (fs : List File) (k : ℕ) (sent : List Packet) → SendsFiles job k fs sent → All IsSendable sent
  SendsFiles-IsSendable [] k sent sends = subst (All IsSendable) (sym sends) tt
  SendsFiles-IsSendable (f ∷ fs) k sent (ps, qs, whole, one, others) =
      subst (All IsSendable) (sym whole) (
        All-append IsSendable ps qs (SendsFile-IsSendable k f ps one)
          (SendsFiles-IsSendable fs (k + 1) qs others))

-- A whole transfer of files without links: a sending node that ACCEPT leaves before the first of
-- its files, which can be read and announced, and a receiving node that runs and has accepted none
-- yet, under the same key and cipher, for which the laws of GCM hold. There is room for each of the
-- files: its ID is its position, its fields fit into slices and its content is shorter than 2^63
-- bytes, `os.MkdirAll` makes the folder of its place on the disk that the files before it leave,
-- and nothing stands there then, but it can be opened, and written all along. On ACCEPT and as many
-- READY packets as it takes, the sending node writes its packets and leaves; and with any way to
-- cut bytes into chunks, from the bytes that it wrote `ReceivePackets` hands on packets with which
-- the mainloop of the receiving node leaves, having said BYE!, with each file in its place on the
-- disk, with its content, in the folder that was made for it, and all else as it was.
pub sender_loop-stored :
    (job : Job) (s s1 : SenderNode) (env : Surroundings) (n : ReceiverNode)
    (cut : Bytes → List Bytes)
    → ((b : Bytes) → pending (cut b) ≡ b)
    → IsSound job
    → s.stopped ≡ false
    → on_accept job.env s ≡ ok s1
    → IsBefore job [] 0 s1
    → job.links ≡ []
    → job.env.cipher ≡ env.cipher
    → IsIdle n job.key
    → IsRoom env job.contents n.downloads_path 0 job.files n.disk
    → (rounds : ℕ) × (s' : SenderNode) × (ps : List Packet) × (n' : ReceiverNode) × ((more : List
          Packet)
        → sender_loop job.env s (accept_packet ∷ (replicate rounds ready_packet ++ more))
          ≡ ok (Transfer.left s'))
      × (receive_packets
            (suc (length ps))
            (suc (max_packet_size + length (cut s'.conn.outgoing)))
            (some (cut s'.conn.outgoing))
            (record { packets = []; closed = false })
          ≡ ok (record { packets = ps; closed = true }, eof))
      × (receiver_loop env n ps ≡ ok (Loop.left n'))
      × (stored env job.contents n.downloads_path 0 job.files n.disk ≡ ok n'.disk)
      × (n'.conn.alive ≡ false)
sender_loop-stored job s s1 env n cut cuts sound running accepts before no_links ciphers idle room =
    let (rounds, s', runs, h) = sender_loop-serves job [] s s1 sound running accepts before in
    let tail : List Packet = done_packet ∷ (bye_packet ∷ []) in
    let ps : List Packet = h.files ++ tail in
    let (n1, arrives, idle1, disk) =
      files_arrive env job ciphers job.files n 0 h.files idle room h.sends_files in
    let n2 : ReceiverNode = record n1 { stopped = true } in
    let none_sent : h.links ≡ [] =
      SendsLinks-none job h.links
        (subst (λ ls. SendsLinks job ls h.links) no_links h.sends_links) in
    let wrote : s'.conn.outgoing ≡ frames ps =
      ap (λ c. c.outgoing) h.written
      ∙ ap (λ ls. frames ((h.files ++ ls) ++ tail)) none_sent
      ∙ ap (λ fs. frames (fs ++ tail)) (append-nil h.files) in
    let sendable : All IsSendable ps =
      All-append IsSendable h.files tail
        (SendsFiles-IsSendable env job ciphers job.files 0 h.files h.sends_files)
        (done_packet-IsSendable, (bye_packet-IsSendable, tt)) in
    (
      rounds,
      s',
      ps,
      _,
      runs,
      receive_packets-frames ps (suc (length ps))
          (suc (max_packet_size + length (cut s'.conn.outgoing))) (cut s'.conn.outgoing)
          (record { packets = []; closed = false }) sendable (cuts s'.conn.outgoing ∙ wrote)
          (omega arith) (omega arith),
      arrives tail
          ∙ receiver_loop-done env n1 n1 _ [] (bye_packet ∷ []) (receiver_steps_none env n1)
              idle1.running (disconnect_receiver-total n2).1,
      disk,
      refl,
    )
