-- ===== src/Node/System/Session.antt =====
-- src/node/node.go: a whole session of both nodes, from the key and the offer to the
-- disconnections.
use ftu.Common.{
  ◌≤◌, ◌≡◌, refl, ap, ◌∙◌, true, false, Option, none, some, List, [], ◌∷◌, ◌++◌, Bytes, length, ok,
  ◌>>=◌,
}
use ftu.Common.BigEndian.{put_u64}
use ftu.Encryption.{key_len}
use ftu.Fsys.Disk.{File}
use ftu.Fsys.Tree.{Directory}
use ftu.Protocol.Headers
use ftu.Protocol.Headers.{header_of, kind_of, max_packet_size}
use ftu.Protocol.Packet.{Packet, to_bytes, decrypt_body_if}
use ftu.Protocol.Decode.{decode_transfer_packet}
use ftu.Protocol.Delivery.{frame}
use ftu.Protocol.Send.{send_packet}
use ftu.Node.State.{SenderNode, Env}
use ftu.Node.Sender.{or_panic}
use ftu.Node.Transfer.Run.{accept_packet}
use ftu.Node.Receiver.{
  Surroundings, ReceiverNode, is_yes, answer_offer, enter_directory, offered_size,
}
use ftu.Node.Receiving.{receive_packet, receiver_step, answer_step}
use ftu.Node.Start.Keys.{key_packet, receiver_step-key}
use ftu.Node.System.{System, Inevitably, now}
use ftu.Node.System.Turns.{Wrote-none, receiver_turn}
use ftu.Node.System.Exchange.{IsListening}

-- A receiving node that has been asked about an offer, under the key.
abbrev pub asked : ReceiverNode → Bytes → Packet → ReceiverNode
asked r key clear = record r { encryption_key = some key; offers = r.offers ++ (clear ∷ []) }

-- The same behind its decision, where no offer waits any more, and behind a yes.
abbrev pub decided :
    Surroundings → ReceiverNode → Option Bytes → Option File → Option Directory → ReceiverNode
decided env r key f directory = record r {
  encryption_key = key;
  offers = [];
  total_download_size = offered_size env f directory r.total_download_size;
}

abbrev pub accepting : ReceiverNode → Bytes → ReceiverNode
accepting entered out = record entered {
  conn = record { outgoing = out ++ frame accept_packet; alive = true };
}

-- Nothing is on its way.
abbrev pub resting : SenderNode → ReceiverNode → System
resting s r = record {
  sender = s;
  receiver = r;
  to_sender = [];
  to_receiver = [];
  to_offer = none;
  sender_exited = false;
  receiver_exited = false;
  receiver_waits = false;
}

-- The key and the offer are on their way.
abbrev pub opening : SenderNode → ReceiverNode → Bytes → Packet → System
opening s r key offer = record (resting s r) { to_receiver = key_packet key ∷ (offer ∷ []) }

send_packet-accept :
    (out : Bytes)
    → send_packet (record { outgoing = out; alive = true }) accept_packet
      ≡ ok (record { outgoing = out ++ frame accept_packet; alive = true })
unfolding send_packet to_bytes header_of put_u64
send_packet-accept out = refl

pub answer_step-yes :
    (env : Surroundings) (n entered : ReceiverNode) (answer out : Bytes) (p : Packet)
    (ps : List Packet) (f : Option File) (d : Option Directory)
    → decode_transfer_packet env.max_alloc p ≡ ok (f, d)
    → is_yes answer ≡ true
    → enter_directory env d
        (record n { offers = ps; total_download_size = offered_size env f d n.total_download_size })
      ≡ ok entered
    → entered.conn ≡ record { outgoing = out; alive = true }
    → answer_step env answer n (p ∷ ps) ≡ ok (accepting entered out)
unfolding answer_step answer_offer
answer_step-yes env n entered answer out p ps f d decodes agrees enters conn =
    let sends : send_packet entered.conn accept_packet
        ≡ ok (record { outgoing = out ++ frame accept_packet; alive = true }) =
      ap (λ c. send_packet c accept_packet) conn ∙ send_packet-accept out in
    rw (answer_step, answer_offer, ◌>>=◌, or_panic, decodes, agrees, enters, sends) refl

pub receiver_step-offer :
    (env : Surroundings) (n : ReceiverNode) (p clear : Packet)
    → decrypt_body_if env.cipher n.encryption_key p ≡ ok clear
    → kind_of clear.header ≡ Headers.transfer_offer
    → receiver_step env n p ≡ ok (record n { offers = n.offers ++ (clear ∷ []) })
unfolding receiver_step receive_packet
receiver_step-offer env n p clear opens kind =
    rw (receiver_step, ◌>>=◌, opens, or_panic, kind, receive_packet) refl

-- The key and the offer are taken, and the user is asked.
pub opening-asks :
    (senv : Env) (env : Surroundings) (s : SenderNode) (r : ReceiverNode) (key : Bytes)
    (offer clear : Packet)
    → s.stopped ≡ false
    → IsListening r
    → r.encryption_key ≡ none
    → length key ≡ key_len
    → key_len ≤ env.max_alloc
    → decrypt_body_if env.cipher (some key) offer ≡ ok clear
    → kind_of clear.header ≡ Headers.transfer_offer
    → Inevitably senv env (λ w. w ≡ resting s (asked r key clear)) (opening s r key offer)
opening-asks senv env s r key offer clear running l no_key long fits opens kind =
    let P : System → Type 0 = λ w. w ≡ resting s (asked r key clear) in
    let keyed : ReceiverNode = record r { encryption_key = some key } in
    receiver_turn senv env P (opening s r key offer) (key_packet key) (offer ∷ []) keyed [] refl
      refl l.alive l.running running l.no_offer refl refl refl refl
      (receiver_step-key env r key no_key long fits) (Wrote-none r.conn)
      (receiver_turn senv env P (record (resting s keyed) { to_receiver = offer ∷ [] }) offer []
        (asked r key clear) [] refl refl l.alive l.running running l.no_offer refl refl refl refl
        (receiver_step-offer env keyed offer clear opens kind) (Wrote-none r.conn) (now refl))
