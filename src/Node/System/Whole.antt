-- ===== src/Node/System/Whole.antt =====
-- src/node/node.go: a whole session, from `Start` on both sides to the disconnections, in any order
-- of the steps of both nodes.
use ftu.Common.{
  ℕ, ◌^◌, ◌≤◌, ◌<◌, ◌≡◌, ◌⊎◌, refl, sym, ap, subst, ◌∙◌, true, false, Option, none, some, [], ◌++◌,
  Bytes, length, ok, ◌>>=◌, >>=-eq-ok, arith,
}
use ftu.Encryption.Laws.{IsDraw}
use ftu.Fsys.Disk.{Disk}
use ftu.Fsys.Scan.{Looks}
use ftu.Protocol.Headers.{max_packet_size}
use ftu.Protocol.Packet.{decrypt_body_if}
use ftu.Protocol.Delivery.{IsSendable, frame}
use ftu.Protocol.Send.{Conn}
use ftu.Node.State.{SenderNode}
use ftu.Node.Sender.{on_accept}
use ftu.Node.Transfer.Serving.{Job, IsSound}
use ftu.Node.Transfer.Accepting.{IsUnqueued, AreReadable, on_accept-IsBefore}
use ftu.Node.Receiver.{Surroundings, ReceiverNode, enter_directory}
use ftu.Node.Start.{
  NewNode, Net, Served, new_conn, connect, start_sending, start_receiving, offer_step,
}
use ftu.Node.Start.Keys.{key_packet, key_packet-IsSendable}
use ftu.Node.Start.Serving.{start_sending-HasKey}
use ftu.Node.Start.Offers.{IsOfferable, offered_to, offer_step-offers}
use ftu.Node.Session.Answers.{IsOffering}
use ftu.Node.Session.Several.{IsRoom, stored}
use ftu.Node.System.{Inevitably}
use ftu.Node.System.Turns.{Wrote-one}
use ftu.Node.System.Ending.{HasEnded}
use ftu.Node.System.Exchange.{IsListening}
use ftu.Node.System.Links.{link_all}
use ftu.Node.System.Session.{decided}
use ftu.Node.System.Starting.{starting, starting-asks}
use ftu.Node.System.Deciding.{asked-ends}

-- A receiving node as it starts.
record IsNew (r : ReceiverNode) (d : Disk) : Type 0 where
  listens : IsListening r
  no_key : r.encryption_key ≡ none
  no_pool : r.accepted_files ≡ []
  conn : r.conn ≡ new_conn
  disk : r.disk ≡ d

connect-new :
    (net : Net) (address : Bytes) (port : ℕ) (c : Conn)
    → connect net address port ≡ ok c
    → c ≡ new_conn
unfolding connect
connect-new net address port c e = ground arith

-- A receiving node that has connected.
abbrev connected : NewNode → Disk → Conn → ReceiverNode
connected node d c = record {
  stopped = false;
  conn = c;
  encryption_key = none;
  accepted_files = [];
  downloads_path = node.downloads_path;
  total_download_size = 0;
  received_bytes = 0;
  offers = [];
  disk = d;
}

start_receiving-IsNew :
    (net : Net) (node : NewNode) (d : Disk) (r : ReceiverNode)
    → start_receiving net node d ≡ ok r
    → IsNew r d
unfolding start_receiving
start_receiving-IsNew net node d r e =
    let (c, found, made) = >>=-eq-ok (connect net node.conn_addr node.port) _ e in
    let new : c ≡ new_conn = connect-new net node.conn_addr node.port c found in
    let same : connected node d c ≡ r = cc in
    subst (λ n. IsNew n d) (ap (connected node d) (sym new) ∙ same)
      (record {
        listens = record { running = refl; alive = refl; no_offer = refl };
        no_key = refl;
        no_pool = refl;
        conn = refl;
        disk = refl;
      })

IsUnqueued-IsOffering :
    (n : SenderNode) (key : Option Bytes) (out : Bytes) → IsUnqueued n key out → IsOffering n out
IsUnqueued-IsOffering n key out u = record {
  running = u.running;
  conn = u.conn;
  no_files = u.no_files;
  no_links = u.no_links;
  no_link_sent = u.no_link_sent;
}

module _ (job : Job) (sound : IsSound job) (env : Surroundings)
    (ciphers : job.env.cipher ≡ env.cipher) (slices : max_packet_size ≤ env.max_alloc)
    (looks : Looks) (net : Net) (draw : ℕ → ℕ) (depth : ℕ) (node : NewNode) (d : Disk)
    (s s1 s2 : SenderNode) (served : Served) (far : Net) (other : NewNode) (before final : Disk)
    (r entered : ReceiverNode) where
  -- A sending node that `send` has brought to its mainloop with something that can be offered,
  -- whose files, once it takes ACCEPT, are those of the job and can be read and announced, and
  -- whose links fit into packets, and a receiving node that has connected; both use the same
  -- cipher, for which the laws of GCM hold, and the receiver can make slices of the size of a
  -- packet. On the receiver's disk a yes ends in some folder for the downloads, and file by file,
  -- on the disk that the files before it leave, `os.MkdirAll` makes the folder of the file, and
  -- nothing stands in its place then, but it can be opened, and written all along; each file has
  -- the ID of its position, its fields fit into slices and its content is shorter than 2^63 bytes;
  -- and the links can be made behind the files. Then the sending node has written its key, which
  -- can be sent; and whatever the order of the steps of both, the offer and any answer of the user
  -- among them, both nodes close their connections and none has exited when they have, and the
  -- receiver's disk then has every file in its place, in the folder that was made for it, and the
  -- links made behind them, or is as it was.
  pub starting-HasEnded :
      IsDraw draw
      → start_sending looks net draw depth node d ≡ ok (s, served)
      → start_receiving far other before ≡ ok r
      → job.key ≡ s.encryption_key
      → IsOfferable env.max_alloc job.env.os s.disk served.file served.directory
      → offer_step job.env served s ≡ ok s1
      → on_accept job.env s1 ≡ ok s2
      → length s.files < 2 ^ 64
      → s2.files ≡ job.files
      → s2.symlinks ≡ job.links
      → AreReadable job s1.disk
      → enter_directory env (offered_to env.max_alloc served.file served.directory).1 (
          decided env r job.key
            (offered_to env.max_alloc served.file served.directory).0
            (offered_to env.max_alloc served.file served.directory).1)
        ≡ ok entered
      → IsRoom env job.contents entered.downloads_path 0 job.files entered.disk
      → (stored env job.contents entered.downloads_path 0 job.files entered.disk
          >>= link_all env entered.downloads_path job.links)
        ≡ ok final
      → (key : Bytes) × (s.encryption_key ≡ some key)
        × (s.conn ≡ record { outgoing = frame (key_packet key); alive = true })
        × IsSendable (key_packet key)
        × Inevitably job.env env
            (HasEnded (λ e. (e ≡ final) ⊎ (e ≡ before)))
            (starting s r key served)
  starting-HasEnded drawn starts listens same_key fits offers accepts few files links readable
        enters room linked =
      let (key, h) = start_sending-HasKey looks net draw depth node d s served drawn starts in
      let told = offered_to env.max_alloc served.file served.directory in
      let n = start_receiving-IsNew far other before r listens in
      let keyed : job.key ≡ some key = same_key ∙ h.same_key in
      let (p, clear, u, same_files, sendable, opens, (kind, decodes)) =
        offer_step-offers job.env env.max_alloc served s s1 (frame (key_packet key)) key sound.gcm
          h.valid h.unqueued fits offers in
      let ready =
        on_accept-IsBefore job (frame (key_packet key) ++ frame p) s1
          (subst (λ k. IsUnqueued s1 k (frame (key_packet key) ++ frame p)) (sym keyed) u) s2
          (omega (arith, ap length same_files)) accepts files links readable in
      let enters' : enter_directory env told.1 (decided env r (some key) told.0 told.1)
          ≡ ok entered =
        ap (λ k. enter_directory env told.1 (decided env r k told.0 told.1)) (sym keyed) ∙ enters in
      let opens' : decrypt_body_if env.cipher (some key) p ≡ ok clear =
        ap (λ c. decrypt_body_if c (some key) p) (sym ciphers) ∙ opens in
      let ends =
        asked-ends job sound env ciphers slices s1 s2 r entered (frame (key_packet key) ++ frame p)
          [] key clear told.0 told.1 final
          (IsUnqueued-IsOffering s1 (some key) (frame (key_packet key) ++ frame p) u) accepts ready
          n.listens keyed n.no_pool n.conn decodes enters' room linked in
      let c = h.unqueued.conn in
      (
        key,
        h.same_key,
        c,
        key_packet-IsSendable key h.long,
        subst
            (λ e.
              Inevitably job.env env (HasEnded (λ x. (x ≡ final) ⊎ (x ≡ e)))
                (starting s r key served))
            n.disk
            (starting-asks job.env env (HasEnded (λ x. (x ≡ final) ⊎ (x ≡ r.disk))) s s1 r key
              served p clear h.unqueued.running (ap (λ x. x.alive) c) u.running n.listens n.no_key
              h.long (omega arith) offers
              (Wrote-one s.conn s1.conn p
                (ap (λ x. x.outgoing) u.conn ∙ ap (λ x. x.outgoing ++ frame p) (sym c)) sendable)
              opens' kind ends),
      )
