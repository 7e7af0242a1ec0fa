-- ===== src/Examples/Exchanges.antt =====
-- The theorems on FILE packets and their answers at concrete inputs.
use ftu.Common.{◌≡◌, refl, true, some, none, [], ◌∷◌, bytes_eq, codes, ok, arith}
use ftu.Checksum.{get_partial_check_sum, check_sum_of}
use ftu.Fsys.Disk.{File, folder, update}
use ftu.Protocol.Packet.{Packet, decrypt_body_if}
use ftu.Protocol.Delivery.{frame}
use ftu.Protocol.Decode.RoundTrip.{IsSent}
use ftu.Protocol.Send.{write}
use ftu.Node.State.{SenderNode}
use ftu.Node.Sender.Queue.{IsQueue}
use ftu.Node.Sender.AlreadyHave.{skip_current}
use ftu.Node.Transfer.{sender_step, transfer}
use ftu.Node.Receiver.{Surroundings, ReceiverNode, ready_packet, destination}
use ftu.Node.Receiving.{receiver_step}
use ftu.Node.Receiving.Whole.{IsAwaiting}
use ftu.Node.Receiving.Arrival.{
  file_packet, placed, HasDeclined, receiver_step-new_file, receiver_step-same_file,
}
use ftu.Node.Session.{sender_step-declined}
use ftu.Examples.World.{padding_cipher-IsGcm, small_disk, notes, notes_content}
use ftu.Examples.Sending.{env, two_files}
use ftu.Examples.Sessions.{surroundings, receiver}

-- The first of the two files, under a checksum that is its content.
abbrev first : File
first = record notes { id = 0; checksum = notes_content }

first-IsSent : IsSent 4096 first
first-IsSent = omega arith

abbrev empty_receiver : ReceiverNode
empty_receiver = record receiver { accepted_files = [] }

receiver_step-new_file_example :
    (n' : ReceiverNode) × (receiver_step surroundings empty_receiver (file_packet first) ≡ ok n')
    × IsAwaiting surroundings n' none (placed surroundings empty_receiver first) [] []
    × (n'.conn ≡ write (frame ready_packet) empty_receiver.conn)
    × (n'.disk ≡ update empty_receiver.disk [] (some folder))
    × (n'.downloads_path ≡ empty_receiver.downloads_path)
    × (n'.offers ≡ empty_receiver.offers)
unfolding decrypt_body_if destination bytes_eq
receiver_step-new_file_example =
    receiver_step-new_file surroundings empty_receiver none (file_packet first) first
      (update (λ path. none) [] (some folder)) first-IsSent refl refl refl tt refl refl refl refl
      (λ e. refl)

-- A receiver that has the file.
abbrev having : Surroundings
having = record surroundings { stat = λ d path. true }

abbrev full_receiver : ReceiverNode
full_receiver = record empty_receiver { disk = small_disk }

receiver_step-same_file_example :
    (n' : ReceiverNode) × (receiver_step having full_receiver (file_packet first) ≡ ok n')
    × HasDeclined having full_receiver n' none first [] (update small_disk [] (some folder))
unfolding decrypt_body_if destination bytes_eq check_sum_of get_partial_check_sum
receiver_step-same_file_example =
    receiver_step-same_file having full_receiver none (file_packet first) first
      (update small_disk [] (some folder)) [] (codes "/notes") padding_cipher-IsGcm tt first-IsSent
      refl refl refl refl refl refl refl

abbrev sender : SenderNode
sender = record (two_files 0 (0 ∷ (1 ∷ []))) { files = first ∷ (record first { id = 1 } ∷ []) }

sender_step-declined_example :
    (n' : ReceiverNode) × (answer : Packet) × (receiver_step having full_receiver
        (file_packet first)
      ≡ ok n')
    × (n'.conn ≡ record { outgoing = frame answer; alive = true })
    × (sender_step env sender answer ≡ transfer env (skip_current sender first))
    × IsQueue (skip_current sender first)
unfolding decrypt_body_if destination bytes_eq check_sum_of get_partial_check_sum
sender_step-declined_example =
    sender_step-declined having env full_receiver sender none (file_packet first) first
      (update small_disk [] (some folder)) [] (codes "/notes") refl padding_cipher-IsGcm tt
      first-IsSent refl refl refl refl refl refl refl refl
      (record {
        ids = (refl, (refl, tt));
        small = omega arith;
        within = omega arith;
        queued = refl;
      })
      refl
