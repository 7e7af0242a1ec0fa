-- ===== src/Node/Transfer/Run.antt =====
-- src/node/node.go, `send`: a whole run of the mainloop, from ACCEPT to the disconnection.
use ftu.Common.{
  ℕ, zero, suc, ◌+◌, ◌≤◌, ◌≡◌, refl, sym, ap, ◌∙◌, true, false, List, [], ◌∷◌, ◌++◌, append-nil,
  append_assoc, Bytes, length, length-drop, replicate, drop, ok, ◌>>=◌, arith,
}
use ftu.Fsys.Disk.{File}
use ftu.Fsys.Tree.{Symlink}
use ftu.Protocol.Headers
use ftu.Protocol.Headers.{header_of, kind_of-header_of}
use ftu.Protocol.Packet.{Packet}
use ftu.Protocol.Delivery.{frame, frames, frames-append}
use ftu.Node.State.{SenderNode, Env}
use ftu.Node.Sender.{or_panic, on_accept, react}
use ftu.Node.Sender.Queue.{length-positions}
use ftu.Node.Transfer.{transfer, left, sender_step, sender_loop}
use ftu.Node.Transfer.Serving.{Job, IsSound, IsBefore}
use ftu.Node.Transfer.Rounds.{ready_node, one_round, IsBefore-ready, sender_loop_on}
use ftu.Node.Transfer.Files.{SendsFiles, whole_file, drop-cons}
use ftu.Node.Transfer.Links.{
  IsLinking, IsBefore-IsLinking, SendsLinks, links-cons, next_link, IsLinking-ready, transfer-done,
}
use ftu.Node.Receiver.{ready_packet}
use ftu.Node.Transfer.Leaving.{
  done_packet, bye_packet, send_done-runs, departed, sender_loop-stopped, decrypt_body_if-no_body,
}

packets_four : (a b c d : List Packet) → a ++ ((b ++ c) ++ d) ≡ ((a ++ b) ++ c) ++ d
packets_four a b c d = simp append_assoc

written_first :
    (out : Bytes) (ps qs rs last : List Packet)
    → (out ++ frames ps) ++ frames ((qs ++ rs) ++ last) ≡ out ++ frames (((ps ++ qs) ++ rs) ++ last)
written_first out ps qs rs last =
    append_assoc out (frames ps) (frames ((qs ++ rs) ++ last))
    ∙ ap (λ x. out ++ x) (sym (frames-append ps ((qs ++ rs) ++ last)))
    ∙ ap (λ x. out ++ frames x) (packets_four ps qs rs last)

replicate-sum :
    (i j k : ℕ) (p : Packet) (ps : List Packet)
    → k ≡ i + j
    → replicate k p ++ ps ≡ replicate i p ++ (replicate j p ++ ps)
replicate-sum zero j k p ps e = let same : k ≡ j = omega arith in ap (λ m. replicate m p ++ ps) same
replicate-sum (suc i) j zero p ps e = absurd (omega arith)
replicate-sum (suc i) j (suc k) p ps e = ap (◌∷◌ p) (replicate-sum i j k p ps (omega arith))

-- What a sending node has written when it leaves, after `out`: files, links, DONE and BYE!.
pub record HasServed (job : Job) (out : Bytes) (k : ℕ) (fs : List File) (ls : List Symlink)
    (n : SenderNode) : Type 0 where
  pub files : List Packet
  pub links : List Packet
  pub written : n.conn ≡ record {
    outgoing = out ++ frames ((files ++ links) ++ (done_packet ∷ (bye_packet ∷ [])));
    alive = false;
  }
  pub sends_files : SendsFiles job k fs files
  pub sends_links : SendsLinks job ls links
  pub stopped : n.stopped ≡ true

-- The transfer section goes on, and the rounds that follow end the run.
abbrev Serving : Env → SenderNode → ℕ → SenderNode → Type 0
Serving env n rounds n' =
    (begun : SenderNode) × (transfer env n ≡ ok begun)
    × ((ps : List Packet)
        → sender_loop env begun (replicate rounds ready_packet ++ ps) ≡ ok (left n'))

-- A round on READY does what the transfer section does.
Serving-ready :
    (env : Env) (n n' : SenderNode) (rounds : ℕ) (ps : List Packet)
    → n.stopped ≡ false
    → Serving env (ready_node n) rounds n'
    → sender_loop env n (replicate (suc rounds) ready_packet ++ ps) ≡ ok (left n')
Serving-ready env n n' rounds ps running (begun, goes, ends) =
    one_round env n begun running goes (replicate rounds ready_packet ++ ps) ∙ ends ps

module _ (job : Job) (sound : IsSound job) where
  links_run :
      (ls : List Symlink) (i k : ℕ) (out : Bytes) (n : SenderNode)
      → drop i job.links ≡ ls
      → i ≤ length job.links
      → IsLinking job out i n
      → (rounds : ℕ) × (n' : SenderNode) × Serving job.env n rounds n'
        × HasServed job out k [] ls n'
  links_run [] i k out n from le b =
      let over : i ≡ length job.links = omega (arith, length-drop i job.links, ap length from) in
      let all : n.sending.current_symlink_index ≡ length n.sending.symlinks_to_send =
        omega (arith, b.current, ap length b.queued_links, length-positions 0 (length job.links)) in
      let n1 : SenderNode = record n {
        conn = record { outgoing = out ++ frame done_packet; alive = true };
        stopped = true;
      } in
      (
        0,
        departed n1 (out ++ frame done_packet),
        (
          n1,
          transfer-done job.env n b.no_file all ∙ send_done-runs job.env n out b.conn,
          λ ps. sender_loop-stopped job.env n1 (out ++ frame done_packet) ps refl refl,
        ),
        record {
          files = [];
          links = [];
          written =
              ap (λ o. record { outgoing = o; alive = false })
                (append_assoc out (frame done_packet) (frame bye_packet)
                  ∙ ap (λ x. out ++ (frame done_packet ++ x))
                      (sym (append-nil (frame bye_packet))));
          sends_files = refl;
          sends_links = tt;
          stopped = refl;
        },
      )
  links_run (l ∷ ls) i k out n from le b =
      let (at, rest, inside) = links-cons job.links ls l i from in
      let (p, n1, goes, after, sendable, opens) = next_link job out i n l sound b at in
      let (rounds, n2, serving, h) =
        links_run ls (i + 1) k (out ++ frame p) (ready_node n1) rest (omega arith)
          (IsLinking-ready job (out ++ frame p) (i + 1) n1 after) in
      (
        suc rounds,
        n2,
        (n1, goes, λ ps. Serving-ready job.env n1 n2 rounds ps after.running serving),
        record {
          files = [];
          links = p ∷ h.links;
          written =
              h.written
              ∙ ap
                  (λ x. record {
                    outgoing =
                        (out ++ frame p)
                        ++ frames ((x ++ h.links) ++ (done_packet ∷ (bye_packet ∷ [])));
                    alive = false;
                  })
                  h.sends_files
              ∙ ap (λ o. record { outgoing = o; alive = false })
                  (append_assoc out (frame p)
                    (frames (h.links ++ (done_packet ∷ (bye_packet ∷ [])))));
          sends_files = refl;
          sends_links = (sendable, opens, h.sends_links);
          stopped = h.stopped;
        },
      )

  files_run :
      (fs : List File) (k : ℕ) (out : Bytes) (n : SenderNode)
      → drop k job.files ≡ fs
      → IsBefore job out k n
      → (rounds : ℕ) × (n' : SenderNode) × Serving job.env n rounds n'
        × HasServed job out k fs job.links n'
  files_run [] k out n from b =
      let all : length job.files ≤ k = omega (arith, length-drop k job.files, ap length from) in
      links_run job.links 0 k out n refl (omega arith) (IsBefore-IsLinking job out k n b all)
  files_run (f ∷ fs) k out n from b =
      let (at, rest) = drop-cons job.files fs f k from in
      let (i, ps, begun, n1, goes, first, before, sends) =
        whole_file job sound k out n f b (b.serves.kept k (omega arith) ∙ at) in
      let (j, n2, serving, h) =
        files_run fs (k + 1) (out ++ frames ps) (ready_node n1) rest
          (IsBefore-ready job (out ++ frames ps) (k + 1) n1 before) in
      let after =
        λ (qs : List Packet). Serving-ready job.env n1 n2 j qs before.serves.running serving in
      (
        i + suc j,
        n2,
        (
          begun,
          goes,
          λ qs.
              ap (sender_loop job.env begun)
                (replicate-sum i (suc j) (i + suc j) ready_packet qs refl)
              ∙ first (replicate (suc j) ready_packet ++ qs)
              ∙ after qs,
        ),
        record {
          files = ps ++ h.files;
          links = h.links;
          written =
              h.written
              ∙ ap (λ o. record { outgoing = o; alive = false })
                  (written_first out ps h.files h.links (done_packet ∷ (bye_packet ∷ [])));
          sends_files = (ps, h.files, refl, sends, h.sends_files);
          sends_links = h.sends_links;
          stopped = h.stopped;
        },
      )

-- ACCEPT is read as it is.
abbrev pub accept_packet : Packet
accept_packet = record { header = header_of Headers.accept; body = [] }

pub sender_step-accept :
    (env : Env) (n n1 : SenderNode)
    → on_accept env n ≡ ok n1
    → sender_step env n accept_packet ≡ transfer env n1
unfolding sender_step react
sender_step-accept env n n1 e =
    rw
      (
        sender_step,
        ◌>>=◌,
        decrypt_body_if-no_body env.cipher n.encryption_key (header_of Headers.accept),
        or_panic,
        kind_of-header_of Headers.accept,
        react,
        e,
      )
      refl

-- A whole run of the mainloop: on ACCEPT, where that leaves a node before the first of its files,
-- and then on as many READY packets as it takes, the node writes, for each file in the order of the
-- queue, a FILE packet, pieces that are together the content of the file, and an ENDFILE, then
-- every link in its order, then DONE; it stops, says BYE! and leaves. All that it writes is within
-- the limit of a packet and is decrypted to that on the other side.
pub sender_loop-serves :
    (job : Job) (out : Bytes) (n n1 : SenderNode)
    → IsSound job
    → n.stopped ≡ false
    → on_accept job.env n ≡ ok n1
    → IsBefore job out 0 n1
    → (rounds : ℕ) × (n' : SenderNode) × ((ps : List Packet)
        → sender_loop job.env n (accept_packet ∷ (replicate rounds ready_packet ++ ps))
          ≡ ok (left n'))
      × HasServed job out 0 job.files job.links n'
sender_loop-serves job out n n1 sound running accepts b =
    let (rounds, n', (begun, goes, ends), h) = files_run job sound job.files 0 out n1 refl b in
    (
      rounds,
      n',
      λ ps.
          sender_loop_on job.env n begun accept_packet (replicate rounds ready_packet ++ ps) running
            (sender_step-accept job.env n n1 accepts ∙ goes)
          ∙ ends ps,
      h,
    )
