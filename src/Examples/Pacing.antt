-- ===== src/Examples/Pacing.antt =====
-- What single rounds write, at concrete inputs.
use ftu.Common.{[], ◌≡◌, refl, true, none, some, codes, bytes_eq, ok, arith}
use ftu.Common.BigEndian.{put_u64}
use ftu.Fsys.Disk.{Disk, folder, update, open_handle, open_file, close}
use ftu.Protocol.Headers.{header_of, kind_of}
use ftu.Protocol.Packet.{Packet, to_bytes, decrypt_body_if, encrypt_body_if}
use ftu.Protocol.Construct.{create_file_packet, file_body}
use ftu.Protocol.Delivery.{frame}
use ftu.Protocol.Pieces.Paced.{IsPaced}
use ftu.Protocol.Send.{send_packet}
use ftu.Node.State.{SenderNode}
use ftu.Node.Sender.{assign_ids, on_accept, react}
use ftu.Node.Transfer.{current_index, announce, transfer, sender_step}
use ftu.Node.Transfer.Links.{link_packet}
use ftu.Node.Transfer.Pace.{sender_step-IsPaced}
use ftu.Node.Transfer.Run.{accept_packet}
use ftu.Node.Receiver.{ready_packet}
use ftu.Node.Receiving.Answering.{IsAnswered, receiver_step-IsAnswered}
use ftu.Node.Receiving.Arrival.{file_packet}
use ftu.Node.Receiving.Linking.{linked, receiver_step-link}
use ftu.Examples.World.{padding_cipher-IsGcm}
use ftu.Examples.Sending.{env}
use ftu.Examples.Runs.{one_file, offering, accepted_offer}
use ftu.Examples.Systems.{docs_link, plain, waiting}

-- The disk with the folder of the link.
abbrev made : Disk
made = update waiting.disk (codes "/in//in") (some folder)

receiver_step-IsAnswered_example :
    (clear : Packet) × (decrypt_body_if plain.cipher none (link_packet docs_link) ≡ ok clear)
    × IsAnswered
        (kind_of clear.header)
        clear
        waiting.conn
        (record { outgoing = frame ready_packet; alive = true })
        []
        []
unfolding decrypt_body_if bytes_eq
receiver_step-IsAnswered_example =
    receiver_step-IsAnswered plain padding_cipher-IsGcm waiting
      (linked plain waiting docs_link made) (link_packet docs_link)
      (receiver_step-link plain waiting none (link_packet docs_link) docs_link made refl refl
        (omega arith) (omega arith) (omega arith) (omega arith) refl)

-- The node that announces its file.
abbrev announcing : SenderNode
announcing = record accepted_offer {
  conn = record { outgoing = frame (file_packet one_file); alive = true };
  sending = record accepted_offer.sending { in_transfer = true };
}

sender_step-IsPaced_example : IsPaced offering.conn announcing.conn
unfolding sender_step react on_accept assign_ids transfer announce current_index create_file_packet
    file_body open_handle open_file close encrypt_body_if decrypt_body_if send_packet to_bytes
    put_u64 header_of kind_of bytes_eq
sender_step-IsPaced_example = sender_step-IsPaced env offering announcing accept_packet refl
