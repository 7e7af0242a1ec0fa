-- ===== src/Node/System/Links.antt =====
-- src/node/node.go: links that go over while each READY drives the sending node, and DONE behind
-- them.
use ftu.Common.{
  ℕ, ◌+◌, ◌≤◌, ◌≡◌, refl, sym, ap, subst, ◌∙◌, true, List, [], ◌∷◌, ◌++◌, Bytes, length,
  length-drop, drop, Outcome, ok, ◌>>=◌, >>=-eq-ok, arith,
}
use ftu.Fsys.Disk.{Disk}
use ftu.Fsys.Tree.{Symlink}
use ftu.Protocol.Headers.{max_packet_size}
use ftu.Protocol.Packet.{Packet, decrypt_body_if}
use ftu.Protocol.Delivery.{frame}
use ftu.Node.State.{SenderNode}
use ftu.Node.Sender.Queue.{length-positions}
use ftu.Node.Transfer.{transfer, sender_step}
use ftu.Node.Transfer.Serving.{Job, IsSound}
use ftu.Node.Transfer.Links.{
  IsLinking, IsLinking-ready, link_packet, next_link, links-cons, transfer-done, HasRoom, All-at,
}
use ftu.Node.Transfer.Leaving.{done_packet, done_packet-IsSendable, send_done-runs}
use ftu.Node.Transfer.Rounds.{ready_node, sender_step-ready}
use ftu.Node.Receiver.{Surroundings, ReceiverNode, ready_packet}
use ftu.Node.Receiving.{made_dir}
use ftu.Node.Receiving.Linking.{linked, receiver_step-link}
use ftu.Node.System.{System, Inevitably}
use ftu.Node.System.Ending.{HasEnded}
use ftu.Node.System.Finishing.{done_pending}
use ftu.Node.System.Exchange.{
  to_sender, to_receiver, IsSending, IsListening, sender_sends, receiver_answers_ready,
}

-- A disk on which links are made below the downloads, each in a folder that is made for it.
abbrev pub link_all : Surroundings → Bytes → List Symlink → Disk → Outcome Disk
link_all env downloads [] d = ok d
link_all env downloads (l ∷ ls) d =
    made_dir env (env.join downloads (env.parent l.path)) d >>= λ d'.
    link_all env downloads ls
      (env.make_link (env.join downloads l.target_path) (env.join downloads l.path) d')

module _ (job : Job) (sound : IsSound job) (env : Surroundings)
    (ciphers : job.env.cipher ≡ env.cipher) (slices : max_packet_size ≤ env.max_alloc)
    (Q : Disk → Type 0) (final : Disk) (holds : Q final) where
  abbrev Ends : System → Type 0
  Ends = Inevitably job.env env (HasEnded Q)

  done_goes :
      (out : Bytes) (s n : SenderNode) (r : ReceiverNode) (first : Packet)
      → IsSending s out
      → sender_step job.env s first ≡ transfer job.env n
      → IsLinking job out (length job.links) n
      → IsListening r
      → r.disk ≡ final
      → Ends (to_sender s r first)
  done_goes out s n r first a begins b l written =
      let all : n.sending.current_symlink_index ≡ length n.sending.symlinks_to_send =
        omega (arith, b.current, ap length b.queued_links, length-positions 0 (length job.links)) in
      let s' : SenderNode = record n {
        conn = record { outgoing = out ++ frame done_packet; alive = true };
        stopped = true;
      } in
      sender_sends job.env env (HasEnded Q) s s' r first done_packet out a l
        (begins ∙ transfer-done job.env n b.no_file all ∙ send_done-runs job.env n out b.conn) refl
        done_packet-IsSendable
        (done_pending job.env env Q (to_receiver s' r done_packet) []
          (record {
            sender_on = refl;
            receiver_on = refl;
            no_offer = l.no_offer;
            offered = refl;
            disk = subst Q (sym written) holds;
          })
          refl refl l.running refl)

  pub links_go :
      (ls : List Symlink) (i : ℕ) (out : Bytes) (s n : SenderNode) (r : ReceiverNode)
      (first : Packet)
      → IsSending s out
      → sender_step job.env s first ≡ transfer job.env n
      → IsLinking job out i n
      → drop i job.links ≡ ls
      → i ≤ length job.links
      → IsListening r
      → r.encryption_key ≡ job.key
      → link_all env r.downloads_path ls r.disk ≡ ok final
      → Ends (to_sender s r first)
  links_go [] i out s n r first a begins b from le l key links =
      let over : i ≡ length job.links = omega (arith, length-drop i job.links, ap length from) in
      done_goes out s n r first a begins (subst (λ j. IsLinking job out j n) over b) l cc
  links_go (x ∷ ls) i out s n r first a begins b from le l key links =
      let (at, behind, inside) = links-cons job.links ls x i from in
      let room : HasRoom x = All-at HasRoom job.links x i sound.room at in
      let (d, makes, rest) =
        >>=-eq-ok (made_dir env (env.join r.downloads_path (env.parent x.path)) r.disk) _ links in
      let (p, s', sends, after, sendable, opens) = next_link job out i n x sound b at in
      let here : decrypt_body_if env.cipher job.key p ≡ ok (link_packet x) =
        sym (ap (λ c. decrypt_body_if c job.key p) ciphers) ∙ opens in
      let takes =
        receiver_step-link env r job.key p x d key here (omega arith) (omega arith) (omega arith)
          (omega arith) makes in
      sender_sends job.env env (HasEnded Q) s s' r first p out a l (begins ∙ sends) after.conn
        sendable
        (receiver_answers_ready job.env env (HasEnded Q) s' r (linked env r x d) p after.running l
          takes refl
          (links_go ls (i + 1) (out ++ frame p) s' (ready_node s') (linked env r x d) ready_packet
            (record { running = after.running; conn = after.conn }) (sender_step-ready job.env s')
            (IsLinking-ready job (out ++ frame p) (i + 1) s' after) behind (omega arith)
            (record { running = l.running; alive = rw l.alive refl; no_offer = l.no_offer }) key
            rest))
