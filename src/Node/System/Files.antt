-- ===== src/Node/System/Files.antt =====
-- src/node/node.go: files that go over while each READY of the receiving node drives the sending
-- one.
use ftu.Common.{
  ℕ, zero, suc, ◌+◌, ◌-◌, ◌^◌, ◌≤◌, ◌<◌, ◌≡◌, ◌≢◌, refl, sym, ap, subst, ◌∙◌, true, false, none,
  some, List, [], ◌∷◌, ◌++◌, append_assoc, append-nil, Bytes, length, length-append, take, drop,
  take-drop, drop_all, get_elem?, get_elem?_only, dec_lt, All, ok, arith,
}
use ftu.Fsys.Disk.{Disk, regular, update, File}
use ftu.Protocol.Packet.{Packet, decrypt_body_if}
use ftu.Protocol.Decode.RoundTrip.{IsSent}
use ftu.Protocol.Delivery.{frame}
use ftu.Node.State.{SenderNode}
use ftu.Node.Transfer.{transfer, sender_step}
use ftu.Node.Transfer.Serving.{Job, IsSound, IsBefore, IsDuring}
use ftu.Node.Transfer.Moves.{announce-IsDuring, send_next_piece-IsDuring}
use ftu.Node.Transfer.Ends.{send_next_piece-IsBefore}
use ftu.Node.Transfer.Files.{drop-cons}
use ftu.Node.Transfer.Rounds.{
  ready_node, sender_step-ready, transfer-announce, transfer-piece, IsBefore-ready, IsDuring-ready,
  some_queued,
}
use ftu.Node.Receiver.{Surroundings, ReceiverNode, ready_packet}
use ftu.Node.Receiving.Writing.{new-IsWritable}
use ftu.Node.Receiving.Whole.{IsReceiving, receiver_step-piece, receiver_step-end}
use ftu.Node.Receiving.Arrival.{placed, receiver_step-new_file}
use ftu.Node.Session.Several.{place, IsRoom, IsIdle, stored, stored-none, stored-first}
use ftu.Node.System.{System, Inevitably}
use ftu.Node.System.Exchange.{
  to_sender, IsSending, IsListening, sender_sends, receiver_answers_ready,
}

module _ (job : Job) (sound : IsSound job) (env : Surroundings)
    (ciphers : job.env.cipher ≡ env.cipher) (P : System → Type 0) where
  abbrev Ends : System → Type 0
  Ends = Inevitably job.env env P

  to_here :
      (p q : Packet)
      → decrypt_body_if job.env.cipher job.key p ≡ ok q
      → decrypt_body_if env.cipher job.key p ≡ ok q
  to_here p q opens = sym (ap (λ c. decrypt_body_if c job.key p) ciphers) ∙ opens

  -- What goes on from the end of the `k`-th file, at `place`, with its content on the disk that was
  -- there when it began.
  abbrev Continues : ℕ → ReceiverNode → Disk → Bytes → Type 0
  Continues k start d at =
      (out : Bytes) (s : SenderNode) (r : ReceiverNode)
      → IsBefore job out (k + 1) s
      → IsListening r
      → IsIdle r job.key
      → r.disk ≡ update d at (some (regular (job.contents k)))
      → r.downloads_path ≡ start.downloads_path
      → Ends (to_sender s r ready_packet)

  module _ (k : ℕ) (start : ReceiverNode) (at : Bytes) (small_id : k < 2 ^ 64)
      (small : length (job.contents k) < 2 ^ 63) (can : (d : Disk) → env.can_write d at ≡ true)
      (go_on : Continues k start start.disk at) where
    -- ENDFILE, and the READY for it.
    endfile_goes :
        (sent : ℕ) (out sofar : Bytes) (s : SenderNode) (r : ReceiverNode)
        → IsDuring job out k sent s
        → sent ≡ length (job.contents k)
        → IsReceiving env r job.key k start at sofar [] []
        → sofar ≡ job.contents k
        → IsListening r
        → start.conn.alive ≡ true
        → Ends (to_sender s r ready_packet)
    endfile_goes sent out sofar s r b all g whole l alive =
        let v = b.serves in
        let inside = get_elem?_only s.files k b.file b.at in
        let goes =
          transfer-piece job.env (ready_node s) (some_queued s k v.queue b.current inside) v.allowed
            refl b.busy in
        let (p, s', sends, before, sendable, opens) =
          send_next_piece-IsBefore job out k sent (ready_node s) sound
            (IsDuring-ready job out k sent s b) all in
        let (r', ends, pool, written, same, running, key, place, live, conn, offers) =
          receiver_step-end env job.key k start at [] [] small_id tt tt can r p sofar g
            (to_here p _ opens) in
        sender_sends job.env env P s s' r ready_packet p out
          (record { running = v.running; conn = v.conn }) l
          (sender_step-ready job.env s ∙ goes ∙ sends) before.serves.conn sendable
          (receiver_answers_ready job.env env P s' r r' p before.serves.running l ends conn (
            go_on (out ++ frame p) s' r' before
              (record { running = running; alive = live ∙ alive; no_offer = offers ∙ l.no_offer })
              (record { running = running; same_key = key; pool = pool })
              (written ∙ ap (λ c. update start.disk at (some (regular c))) whole) place))

    -- The pieces that are left, from a point at which the receiving node has what was sent.
    rest_goes :
        (fuel sent : ℕ) (out sofar : Bytes) (s : SenderNode) (r : ReceiverNode)
        → IsDuring job out k sent s
        → sent ≤ length (job.contents k)
        → length (job.contents k) - sent < fuel
        → IsReceiving env r job.key k start at sofar [] []
        → sofar ++ drop sent (job.contents k) ≡ job.contents k
        → IsListening r
        → start.conn.alive ≡ true
        → Ends (to_sender s r ready_packet)
    rest_goes zero sent out sofar s r b le fuelled g whole l alive = absurd (omega arith)
    rest_goes (suc fuel) sent out sofar s r b le fuelled g whole l alive =
        elim (dec_lt sent (length (job.contents k))) [
          | no over ↦
              endfile_goes sent out sofar s r b (omega arith) g
                (sym (append-nil sofar)
                  ∙ ap (λ x. sofar ++ x) (sym (drop_all sent (job.contents k) (omega arith)))
                  ∙ whole)
                l alive
          | yes more ↦
              let v = b.serves in
              let inside = get_elem?_only s.files k b.file b.at in
              let goes =
                transfer-piece job.env (ready_node s) (some_queued s k v.queue b.current inside)
                  v.allowed refl b.busy in
              let (count, p, s', sends, during, sendable, opens, some_bytes, left) =
                send_next_piece-IsDuring job out k sent (ready_node s) sound
                  (IsDuring-ready job out k sent s b) more in
              let bytes = take count (drop sent (job.contents k)) in
              let cut = take-drop sent count (sent + count) (job.contents k) refl in
              let whole' : (sofar ++ bytes) ++ drop (sent + count) (job.contents k)
                  ≡ job.contents k =
                append_assoc sofar bytes (drop (sent + count) (job.contents k))
                ∙ ap (λ x. sofar ++ x) cut
                ∙ whole in
              let (r', takes, g', counted, conn, offers) =
                receiver_step-piece env job.key k start at [] [] small_id tt tt can r p sofar bytes
                  g (to_here p _ opens)
                  (omega (
                    arith,
                    ap length whole',
                    length-append (sofar ++ bytes) (drop (sent + count) (job.contents k)),
                    length-append sofar bytes,
                  )) in
              sender_sends job.env env P s s' r ready_packet p out
                (record { running = v.running; conn = v.conn }) l
                (sender_step-ready job.env s ∙ goes ∙ sends) during.serves.conn sendable
                (receiver_answers_ready job.env env P s' r r' p during.serves.running l takes conn (
                  rest_goes fuel (sent + count) (out ++ frame p) (sofar ++ bytes) s' r' during
                    (omega arith) (omega arith) g' whole'
                    (record {
                      running = g'.running;
                      alive = g'.alive ∙ alive;
                      no_offer = offers ∙ l.no_offer;
                    })
                    alive))
        ]

  -- A whole file, where the packet on its way to the sending node makes it take the transfer
  -- section.
  file_goes :
      (k : ℕ) (f : File) (out : Bytes) (s n : SenderNode) (r : ReceiverNode) (first : Packet)
      (e : Disk)
      → IsSending s out
      → sender_step job.env s first ≡ transfer job.env n
      → IsBefore job out k n
      → get_elem? n.files k ≡ some f
      → IsListening r
      → IsIdle r job.key
      → f.id ≡ k
      → IsSent env.max_alloc f
      → length (job.contents k) < 2 ^ 63
      → env.mkdir_all (env.parent (place env r.downloads_path f)) r.disk ≡ ok e
      → env.stat e (place env r.downloads_path f) ≡ false
      → env.os.can_open e (place env r.downloads_path f) ≡ true
      → e (env.os.resolve e (place env r.downloads_path f)) ≡ none
      → ((x : Disk) → env.can_write x (env.os.resolve e (place env r.downloads_path f)) ≡ true)
      → Continues k r e (env.os.resolve e (place env r.downloads_path f))
      → Ends (to_sender s r first)
  file_goes k f out s n r first e a begins b found l idle id sent small makes absent can missing
        writes go_on =
      let at = place env r.downloads_path f in
      let (p, s', announces, during, sendable, opens) =
        announce-IsDuring job out k n f sound b found in
      let inside = get_elem?_only n.files k f found in
      let goes =
        transfer-announce job.env n (some_queued n k b.serves.queue b.current inside)
          b.serves.allowed b.idle in
      let (r', takes, awaiting, conn, disk, same_place, offers) =
        receiver_step-new_file env r job.key p f e sent idle.running idle.same_key
          (to_here p _ opens) (subst (All (λ g. g.id ≢ f.id)) (sym idle.pool) tt) makes absent can
          missing writes in
      let g = placed env r f in
      let there : Bytes = env.os.resolve r'.disk at in
      let start : IsReceiving env r' job.key k r' there [] [] [] = record {
        running = awaiting.running;
        same_key = awaiting.same_key;
        current = g;
        pool = awaiting.pool ∙ ap (λ x. x ++ (g ∷ [])) idle.pool;
        same = id;
        writable =
            new-IsWritable env g r'.disk awaiting.closed awaiting.fresh awaiting.can_open
              awaiting.missing;
        same_place = refl;
        alive = refl;
      } in
      let live : r'.conn.alive ≡ true = ap (λ c. c.alive) conn ∙ rw l.alive refl in
      let small_id : k < 2 ^ 64 = omega (arith, sent.id) in
      let then_on : Continues k r' r'.disk there =
        λ out' s2 r2 before listens idle2 written where_to.
          go_on out' s2 r2 before listens idle2
            (written
              ∙ ap (λ d. update d (env.os.resolve d at) (some (regular (job.contents k)))) disk)
            (where_to ∙ same_place) in
      sender_sends job.env env P s s' r first p out a l (begins ∙ goes ∙ announces)
        during.serves.conn sendable
        (receiver_answers_ready job.env env P s' r r' p during.serves.running l takes conn (
          rest_goes k r' there small_id small awaiting.can_write then_on
            (suc (length (job.contents k))) 0 (out ++ frame p) [] s' r' during (omega arith)
            (omega arith) start refl
            (record { running = awaiting.running; alive = live; no_offer = offers ∙ l.no_offer })
            live))

  -- All files from the `k`-th on.
  pub files_go :
      (fs : List File) (k : ℕ) (out : Bytes) (s n : SenderNode) (r : ReceiverNode) (first : Packet)
      → IsSending s out
      → sender_step job.env s first ≡ transfer job.env n
      → IsBefore job out k n
      → drop k job.files ≡ fs
      → IsListening r
      → IsIdle r job.key
      → IsRoom env job.contents r.downloads_path k fs r.disk
      → ((out' : Bytes) (s' n' : SenderNode) (r' : ReceiverNode) (next : Packet)
          → IsSending s' out'
          → sender_step job.env s' next ≡ transfer job.env n'
          → IsBefore job out' (k + length fs) n'
          → IsListening r'
          → IsIdle r' job.key
          → stored env job.contents r.downloads_path k fs r.disk ≡ ok r'.disk
          → r'.downloads_path ≡ r.downloads_path
          → Ends (to_sender s' r' next))
      → Ends (to_sender s r first)
  files_go [] k out s n r first a begins b from l idle room go_on =
      let same : k ≡ k + 0 = omega arith in
      go_on out s n r first a begins (subst (λ i. IsBefore job out i n) same b) l idle
        (stored-none env job.contents r.downloads_path k r.disk) refl
  files_go (f ∷ fs) k out s n r first a begins b from l idle
        (id, sent, small, e, makes, absent, can, missing, writes, room) go_on =
      let (here, behind) = drop-cons job.files fs f k from in
      file_goes k f out s n r first e a begins b (b.serves.kept k (omega arith) ∙ here) l idle id
        sent small makes absent can missing writes
        (λ out1 s1 r1 before l1 idle1 disk same_place.
          files_go fs (k + 1) out1 s1 (ready_node s1) r1 ready_packet
            (record { running = before.serves.running; conn = before.serves.conn })
            (sender_step-ready job.env s1) (IsBefore-ready job out1 (k + 1) s1 before) behind l1
            idle1
            (subst (λ x. IsRoom env job.contents x (k + 1) fs r1.disk) (sym same_place)
              (subst (λ d. IsRoom env job.contents r.downloads_path (k + 1) fs d) (sym disk) room))
            (λ out2 s2 n2 r2 next a2 begins2 b2 l2 idle2 disk2 place2.
              go_on out2 s2 n2 r2 next a2 begins2
                (let count : (k + 1) + length fs ≡ k + suc (length fs) = omega arith in
                  subst (λ i. IsBefore job out2 i n2) count b2)
                l2 idle2
                (stored-first env job.contents r.downloads_path k f fs r.disk e makes
                  ∙ ap (stored env job.contents r.downloads_path (k + 1) fs) (sym disk)
                  ∙ ap (λ x. stored env job.contents x (k + 1) fs r1.disk) (sym same_place)
                  ∙ disk2)
                (place2 ∙ same_place)))
