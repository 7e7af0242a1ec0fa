-- ===== src/Node/Session/Answers.antt =====
-- The user's answer to an offer on one side of a connection, and what the other side does on it.
use ftu.Common.{
  ◌≡◌, ◌≢◌, refl, sym, ap, ◌∙◌, true, false, Option, List, [], ◌∷◌, ◌++◌, Bytes, length, ok, ◌>>=◌,
}
use ftu.Common.BigEndian.{put_u64}
use ftu.Fsys.Disk.{File}
use ftu.Fsys.Tree.{Directory}
use ftu.Protocol.Headers
use ftu.Protocol.Headers.{
  header_of, kind_of, kind_of-header_of, Kind, encryption_key, reject, accept, done, ready,
  disconnecting, transfer_offer, file, file_bytes, endfile, directory, already_have, symlink,
  unknown,
}
use ftu.Protocol.Packet.{Packet, to_bytes, decrypt_body_if}
use ftu.Protocol.Decode.{decode_transfer_packet}
use ftu.Protocol.Delivery.{frame}
use ftu.Protocol.Send.{Conn, send_packet}
use ftu.Node.State.{SenderNode, Env}
use ftu.Node.Sender.{or_panic, react}
use ftu.Node.Transfer.{transfer, sender_step, sender_loop}
use ftu.Node.Transfer.Rounds.{sender_loop_on}
use ftu.Node.Transfer
use ftu.Node.Transfer.Links.{transfer-done}
use ftu.Node.Transfer.Leaving.{
  done_packet, bye_packet, departed, decrypt_body_if-no_body, send_done-runs, sender_loop-stopped,
}
use ftu.Node.Receiver.{Surroundings, ReceiverNode, is_yes, answer_offer, offered_size}
use ftu.Node.Receiving.{answer_step, receiver_step}
use ftu.Node.Loop
use ftu.Node.Loop.{receiver_loop, receiver_waiting}
use ftu.Node.Loop.Ends.{gone, disconnect_receiver-alive, receiver_loop-stopped, receiver_step-done}

abbrev pub reject_packet : Packet
reject_packet = record { header = header_of Headers.reject; body = [] }

-- A sending node before ACCEPT.
pub record IsOffering (s : SenderNode) (out : Bytes) : Type 0 where
  pub running : s.stopped ≡ false
  pub conn : s.conn ≡ record { outgoing = out; alive = true }
  pub no_files : s.sending.files_to_send ≡ []
  pub no_links : s.sending.symlinks_to_send ≡ []
  pub no_link_sent : s.sending.current_symlink_index ≡ 0

send_packet-reject :
    (out : Bytes)
    → send_packet (record { outgoing = out; alive = true }) reject_packet
      ≡ ok (record { outgoing = out ++ frame reject_packet; alive = true })
unfolding send_packet to_bytes header_of put_u64
send_packet-reject out = refl

-- A receiving node that has said no.
abbrev pub refusing :
    Surroundings
    → ReceiverNode
    → Option File
    → Option Directory
    → List Packet
    → Bytes
    → ReceiverNode
refusing env n f d ps out = record n {
  offers = ps;
  total_download_size = offered_size env f d n.total_download_size;
  conn = record { outgoing = out ++ frame reject_packet; alive = true };
  stopped = true;
}

pub answer_step-no :
    (env : Surroundings) (n : ReceiverNode) (answer out : Bytes) (p : Packet) (ps : List Packet)
    (f : Option File) (d : Option Directory)
    → decode_transfer_packet env.max_alloc p ≡ ok (f, d)
    → is_yes answer ≡ false
    → n.conn ≡ record { outgoing = out; alive = true }
    → answer_step env answer n (p ∷ ps) ≡ ok (refusing env n f d ps out)
unfolding answer_step answer_offer
answer_step-no env n answer out p ps f d decodes refuses conn =
    let sends : send_packet n.conn reject_packet
        ≡ ok (record { outgoing = out ++ frame reject_packet; alive = true }) =
      ap (λ c. send_packet c reject_packet) conn ∙ send_packet-reject out in
    rw (answer_step, answer_offer, ◌>>=◌, or_panic, decodes, refuses, sends) refl

-- What a packet other than ACCEPT and ALREADYHAVE does not touch.
record Keeps (s s' : SenderNode) : Type 0 where
  conn : s'.conn ≡ s.conn
  no_files : s'.sending.files_to_send ≡ s.sending.files_to_send
  no_links : s'.sending.symlinks_to_send ≡ s.sending.symlinks_to_send
  no_link_sent : s'.sending.current_symlink_index ≡ s.sending.current_symlink_index
  disk : s'.disk ≡ s.disk

Keeps-same : (s : SenderNode) → Keeps s s
Keeps-same s = record {
  conn = refl;
  no_files = refl;
  no_links = refl;
  no_link_sent = refl;
  disk = refl;
}

Keeps-stopped : (s : SenderNode) → Keeps s (record s { stopped = true })
Keeps-stopped s = record {
  conn = refl;
  no_files = refl;
  no_links = refl;
  no_link_sent = refl;
  disk = refl;
}

Keeps-ready :
    (s : SenderNode) → Keeps s (record s { sending = record s.sending { can_send_bytes = true } })
Keeps-ready s = record {
  conn = refl;
  no_files = refl;
  no_links = refl;
  no_link_sent = refl;
  disk = refl;
}

react-quiet :
    (env : Env) (k : Kind) (body : Bytes) (s : SenderNode)
    → k ≢ accept
    → k ≢ already_have
    → (s' : SenderNode) × (react env k body s ≡ ok s') × Keeps s s'
unfolding react
react-quiet env encryption_key body s a h = (s, refl, Keeps-same s)
react-quiet env reject body s a h = (_, refl, Keeps-stopped s)
react-quiet env accept body s a h = absurd (a refl)
react-quiet env done body s a h = (s, refl, Keeps-same s)
react-quiet env ready body s a h = (_, refl, Keeps-ready s)
react-quiet env disconnecting body s a h = (_, refl, Keeps-stopped s)
react-quiet env transfer_offer body s a h = (s, refl, Keeps-same s)
react-quiet env file body s a h = (s, refl, Keeps-same s)
react-quiet env file_bytes body s a h = (s, refl, Keeps-same s)
react-quiet env endfile body s a h = (s, refl, Keeps-same s)
react-quiet env directory body s a h = (s, refl, Keeps-same s)
react-quiet env already_have body s a h = absurd (h refl)
react-quiet env symlink body s a h = (s, refl, Keeps-same s)
react-quiet env unknown body s a h = (s, refl, Keeps-same s)

-- A node that says DONE and BYE! and leaves.
abbrev pub dismissed : Bytes → Conn
dismissed out = record { outgoing = (out ++ frame done_packet) ++ frame bye_packet; alive = false }

-- The round of a sending node, before ACCEPT, on a packet that is neither ACCEPT nor ALREADYHAVE.
pub sender_step-early :
    (env : Env) (s : SenderNode) (out : Bytes) (p clear : Packet)
    → IsOffering s out
    → decrypt_body_if env.cipher s.encryption_key p ≡ ok clear
    → kind_of clear.header ≢ accept
    → kind_of clear.header ≢ already_have
    → (s' : SenderNode) × (sender_step env s p ≡ ok s')
      × (s'.conn ≡ record { outgoing = out ++ frame done_packet; alive = true })
      × (s'.stopped ≡ true)
      × (s'.disk ≡ s.disk)
unfolding sender_step
sender_step-early env s out p clear o opens a h =
    let (s1, reacts, keeps) = react-quiet env (kind_of clear.header) clear.body s a h in
    let all : s1.sending.current_symlink_index ≡ length s1.sending.symlinks_to_send =
      keeps.no_link_sent ∙ o.no_link_sent ∙ sym (ap length (keeps.no_links ∙ o.no_links)) in
    let s2 : SenderNode = record s1 {
      conn = record { outgoing = out ++ frame done_packet; alive = true };
      stopped = true;
    } in
    let steps : sender_step env s p ≡ ok s2 =
      rw (sender_step, ◌>>=◌, opens, or_panic, reacts)
        (transfer-done env s1 (keeps.no_files ∙ o.no_files) all
          ∙ send_done-runs env s1 out (keeps.conn ∙ o.conn)) in
    (s2, steps, refl, refl, keeps.disk)

-- Before ACCEPT, when nothing is queued, any packet that can be decrypted and is neither an ACCEPT
-- nor an ALREADYHAVE ends the transfer: the sending node writes DONE and BYE!, leaves without
-- having sent any file, and its connection is closed.
pub sender_loop-early :
    (env : Env) (s : SenderNode) (out : Bytes) (p clear : Packet)
    → IsOffering s out
    → decrypt_body_if env.cipher s.encryption_key p ≡ ok clear
    → kind_of clear.header ≢ accept
    → kind_of clear.header ≢ already_have
    → (s' : SenderNode) × ((more : List Packet)
        → sender_loop env s (p ∷ more) ≡ ok (Transfer.left s'))
      × (s'.conn ≡ dismissed out)
      × (s'.disk ≡ s.disk)
sender_loop-early env s out p clear o opens a h =
    let (s2, steps, wrote, stopped, same) = sender_step-early env s out p clear o opens a h in
    (
      departed s2 (out ++ frame done_packet),
      λ more.
          sender_loop_on env s s2 p more o.running steps
          ∙ sender_loop-stopped env s2 (out ++ frame done_packet) more stopped wrote,
      refl,
      same,
    )

not_accept : {k : Kind} → k ≡ reject → k ≢ accept
not_accept e = λ h. cc

not_have : {k : Kind} → k ≡ reject → k ≢ already_have
not_have e = λ h. cc

pub sender_step-reject :
    (env : Env) (s : SenderNode) (out : Bytes)
    → IsOffering s out
    → (s' : SenderNode) × (sender_step env s reject_packet ≡ ok s')
      × (s'.conn ≡ record { outgoing = out ++ frame done_packet; alive = true })
      × (s'.stopped ≡ true)
      × (s'.disk ≡ s.disk)
sender_step-reject env s out o =
    sender_step-early env s out reject_packet reject_packet o
      (decrypt_body_if-no_body env.cipher s.encryption_key (header_of Headers.reject))
      (not_accept (kind_of-header_of Headers.reject)) (not_have (kind_of-header_of Headers.reject))

-- A waiting mainloop on the next packet, and on a closed connection.
receiver_waiting-step :
    (env : Surroundings) (n n' : ReceiverNode) (p : Packet) (ps : List Packet)
    → receiver_step env n p ≡ ok n'
    → receiver_waiting env n (p ∷ ps) ≡ receiver_loop env n' ps
unfolding receiver_waiting
receiver_waiting-step env n n' p ps goes = rw (receiver_waiting, ◌>>=◌, goes) refl

receiver_waiting-closed :
    (env : Surroundings) (n : ReceiverNode) → receiver_waiting env n [] ≡ ok (Loop.exited n)
unfolding receiver_waiting
receiver_waiting-closed env n = refl

-- A user who says no to an offer that can be decoded: the receiving node writes REJECT and leaves
-- its disk and its accepted files as they are; a mainloop that already waits for a packet then
-- takes the sending node's DONE, says BYE! and leaves, or exits without either when no packet comes
-- before the connection is closed; a mainloop that comes to its check of `stopped` behind the
-- answer says BYE! and leaves at once. REJECT makes the sending node, which has queued nothing yet,
-- write DONE and BYE! and leave.
pub answer_step-rejects :
    (env : Surroundings) (senv : Env) (n : ReceiverNode) (s : SenderNode) (answer out sout : Bytes)
    (p : Packet) (ps : List Packet) (f : Option File) (d : Option Directory)
    → decode_transfer_packet env.max_alloc p ≡ ok (f, d)
    → is_yes answer ≡ false
    → n.conn ≡ record { outgoing = out; alive = true }
    → IsOffering s sout
    → (n1 : ReceiverNode) × (n2 : ReceiverNode) × (s' : SenderNode) × (answer_step env answer n
          (p ∷ ps)
        ≡ ok n1)
      × (n1.conn ≡ record { outgoing = out ++ frame reject_packet; alive = true })
      × ((more : List Packet) → receiver_waiting env n1 (done_packet ∷ more) ≡ ok (Loop.left n2))
      × (receiver_waiting env n1 [] ≡ ok (Loop.exited n1))
      × ((more : List Packet) → receiver_loop env n1 more ≡ ok (Loop.left n2))
      × (n2.conn
          ≡ record { outgoing = (out ++ frame reject_packet) ++ frame bye_packet; alive = false })
      × (n2.disk ≡ n.disk)
      × (n2.accepted_files ≡ n.accepted_files)
      × ((more : List Packet) → sender_loop senv s (reject_packet ∷ more) ≡ ok (Transfer.left s'))
      × (s'.conn ≡ dismissed sout)
answer_step-rejects env senv n s answer out sout p ps f d decodes refuses conn o =
    let n1 = refusing env n f d ps out in
    let leaves : (more : List Packet)
        → receiver_loop env n1 more
          ≡ ok (Loop.left (gone n1 ((out ++ frame reject_packet) ++ frame bye_packet))) =
      λ more. receiver_loop-stopped env n1 _ more refl (disconnect_receiver-alive n1 refl) in
    let (s', ends, wrote, same) =
      sender_loop-early senv s sout reject_packet reject_packet o
        (decrypt_body_if-no_body senv.cipher s.encryption_key (header_of Headers.reject))
        (not_accept (kind_of-header_of Headers.reject))
        (not_have (kind_of-header_of Headers.reject)) in
    (
      n1,
      gone n1 ((out ++ frame reject_packet) ++ frame bye_packet),
      s',
      answer_step-no env n answer out p ps f d decodes refuses conn,
      refl,
      λ more.
          receiver_waiting-step env n1 n1 done_packet more (receiver_step-done env n1)
          ∙ leaves more,
      receiver_waiting-closed env n1,
      leaves,
      refl,
      refl,
      refl,
      ends,
      wrote,
    )
