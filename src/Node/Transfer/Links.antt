-- ===== src/Node/Transfer/Links.antt =====
-- src/node/node.go, `send`: what follows the files, the symbolic links and DONE, and the end.
use ftu.Common.{
  ℕ, zero, suc, ◌+◌, ◌-◌, ◌%◌, ◌^◌, ◌≤◌, ◌<◌, ◌≡◌, refl, ap, subst, ◌∙◌, true, false, some, List,
  [], ◌∷◌, ◌++◌, Bytes, length, length-append, All, drop, get_elem?, get_elem?_only, ok, ◌>>=◌,
  arith,
}
use ftu.Common.BigEndian.{put_u64, length-put_u64}
use ftu.Fsys.Tree.{Symlink}
use ftu.Protocol.Headers
use ftu.Protocol.Headers.{header_of, header_delimeter, max_packet_size}
use ftu.Protocol.Packet.{Packet, decrypt_body_if}
use ftu.Protocol.Packet.Framing.{header_of-plain}
use ftu.Protocol.Construct.{sized}
use ftu.Protocol.Delivery.{IsSendable, frame, send_packet-frame}
use ftu.Protocol.Offer.{encrypt_if-total}
use ftu.Protocol.Send.{Conn, send_symlink}
use ftu.Node.State.{SenderNode, Env, positions}
use ftu.Node.Sender.{index}
use ftu.Node.Sender.Queue.{length-positions}
use ftu.Node.Transfer.{next_symlink, send_done, transfer}
use ftu.Node.Transfer.Serving.{Job, IsSound, IsBefore}
use ftu.Node.Transfer.Rounds.{ready_node}

-- A running node that has sent all its files, and `i` of its links.
pub record IsLinking (job : Job) (out : Bytes) (i : ℕ) (n : SenderNode) : Type 0 where
  pub running : n.stopped ≡ false
  pub same_key : n.encryption_key ≡ job.key
  pub conn : n.conn ≡ record { outgoing = out; alive = true }
  pub no_file : n.sending.files_to_send ≡ []
  pub same_links : n.symlinks ≡ job.links
  pub queued_links : n.sending.symlinks_to_send ≡ positions 0 (length job.links)
  pub current : n.sending.current_symlink_index ≡ i

pub IsBefore-IsLinking :
    (job : Job) (out : Bytes) (k : ℕ) (n : SenderNode)
    → IsBefore job out k n
    → length job.files ≤ k
    → IsLinking job out 0 n
IsBefore-IsLinking job out k n b over =
    let v = b.serves in
    let none_left : length n.files - n.sending.current_file_id ≡ 0 =
      omega (arith, v.counted, b.current) in
    record {
      running = v.running;
      same_key = v.same_key;
      conn = v.conn;
      no_file = v.queue.queued ∙ ap (positions n.sending.current_file_id) none_left;
      same_links = v.same_links;
      queued_links = v.queued_links;
      current = v.no_link_sent;
    }

-- The packet of a link, in the clear.
abbrev pub link_packet : Symlink → Packet
link_packet l = record {
  header = header_of Headers.symlink;
  body = sized l.path ++ sized l.target_path;
}

length-sized : (s : Bytes) → length (sized s) ≡ length s + 8
length-sized s =
    omega (arith, length-append (put_u64 (length s % 2 ^ 64)) s, length-put_u64 (length s % 2 ^ 64))

length-symlink_header : length (header_of Headers.symlink) ≡ 7
unfolding header_of
length-symlink_header = refl

send_symlink-sends :
    (job : Job) (out : Bytes) (l : Symlink)
    → IsSound job
    → length l.path + length l.target_path + 60 ≤ max_packet_size
    → (p : Packet) × (send_symlink job.env.cipher l
          (record { outgoing = out; alive = true })
          job.key
        ≡ ok (record { outgoing = out ++ frame p; alive = true }))
      × IsSendable p
      × (decrypt_body_if job.env.cipher job.key p ≡ ok (link_packet l))
unfolding send_symlink
send_symlink-sends job out l sound room =
    let (sealed, e, longer, opens) =
      encrypt_if-total job.env.cipher sound.gcm job.key (header_of Headers.symlink)
        (sized l.path ++ sized l.target_path) sound.valid in
    let p : Packet = record { header = header_of Headers.symlink; body = sealed } in
    let sendable : IsSendable p = record {
      plain_header = header_of-plain Headers.symlink;
      small = omega (
        arith,
        length-symlink_header,
        length-append (sized l.path) (sized l.target_path),
        length-sized l.path,
        length-sized l.target_path,
        length-append (header_of Headers.symlink) (header_delimeter ++ sealed),
      );
    } in
    (p, rw (send_symlink, ◌>>=◌, e) (send_packet-frame out p sendable), sendable, opens)

get_elem?-positions :
    (start m i j : ℕ) → i < m → j ≡ start + i → get_elem? (positions start m) i ≡ some j
get_elem?-positions start zero i j h e = absurd (omega arith)
get_elem?-positions start (suc m) zero j h e = ap some (omega arith)
get_elem?-positions start (suc m) (suc i) j h e =
    get_elem?-positions (start + 1) m i j (omega arith) (omega arith)

next_symlink-runs :
    (env : Env) (n : SenderNode) (pointer : ℕ) (l : Symlink) (conn : Conn)
    → index n.sending.symlinks_to_send n.sending.current_symlink_index ≡ ok pointer
    → index n.symlinks pointer ≡ ok l
    → send_symlink env.cipher l n.conn n.encryption_key ≡ ok conn
    → next_symlink env n
      ≡ ok (record n {
        conn = conn;
        sending = record n.sending {
          current_symlink_index = (n.sending.current_symlink_index + 1) % 2 ^ 64;
        };
      })
unfolding next_symlink
next_symlink-runs env n pointer l conn first found sends =
    rw (next_symlink, ◌>>=◌, first, found, sends) refl

transfer-link :
    (env : Env) (n : SenderNode)
    → n.sending.files_to_send ≡ []
    → n.sending.current_symlink_index < length n.sending.symlinks_to_send
    → transfer env n ≡ next_symlink env n
unfolding transfer
transfer-link env n empty more = ground (arith, ap length empty)

pub transfer-done :
    (env : Env) (n : SenderNode)
    → n.sending.files_to_send ≡ []
    → n.sending.current_symlink_index ≡ length n.sending.symlinks_to_send
    → transfer env n ≡ send_done env n
unfolding transfer
transfer-done env n empty all = ground (arith, ap length empty)

-- The packets of the links, in their order.
abbrev pub SendsLinks : Job → List Symlink → List Packet → Type 0
SendsLinks job [] [] = Unit {0}
SendsLinks job [] (p ∷ ps) = ⊥
SendsLinks job (l ∷ ls) [] = ⊥
SendsLinks job (l ∷ ls) (p ∷ ps) =
    IsSendable p
    × (decrypt_body_if job.env.cipher job.key p ≡ ok (link_packet l))
    × SendsLinks job ls ps

pub links-cons :
    (ks ls : List Symlink) (l : Symlink) (i : ℕ)
    → drop i ks ≡ l ∷ ls
    → (get_elem? ks i ≡ some l) × (drop (i + 1) ks ≡ ls) × (i < length ks)
links-cons [] ls l zero e = cc
links-cons [] ls l (suc i) e = cc
links-cons (k ∷ ks) ls l zero e = (cc, cc, omega arith)
links-cons (k ∷ ks) ls l (suc i) e =
    let next : suc i + 1 ≡ suc (i + 1) = omega arith in
    let (at, rest, inside) = links-cons ks ls l i e in
    (at, ap (λ m. drop m (k ∷ ks)) next ∙ rest, omega arith)

pub All-at :
    (P : Symlink → Type 0) (ls : List Symlink) (l : Symlink) (i : ℕ)
    → All P ls
    → get_elem? ls i ≡ some l
    → P l
All-at P [] l i all e = cc
All-at P (x ∷ ls) l zero (holds, all) e = let same : x ≡ l = cc in subst P same holds
All-at P (x ∷ ls) l (suc i) (holds, all) e = All-at P ls l i all e

abbrev pub HasRoom : Symlink → Type 0
HasRoom l = length l.path + length l.target_path + 60 ≤ max_packet_size

-- The transfer section sends one link.
pub next_link :
    (job : Job) (out : Bytes) (i : ℕ) (n : SenderNode) (l : Symlink)
    → IsSound job
    → IsLinking job out i n
    → get_elem? job.links i ≡ some l
    → (p : Packet) × (n' : SenderNode) × (transfer job.env n ≡ ok n')
      × IsLinking job (out ++ frame p) (i + 1) n'
      × IsSendable p
      × (decrypt_body_if job.env.cipher job.key p ≡ ok (link_packet l))
next_link job out i n l sound b at =
    let inside : i < length job.links = get_elem?_only job.links i l at in
    let (p, sends, sendable, opens) =
      send_symlink-sends job out l sound (All-at HasRoom job.links l i sound.room at) in
    let pointer : index n.sending.symlinks_to_send n.sending.current_symlink_index ≡ ok i =
      ap (λ q. index q n.sending.current_symlink_index) b.queued_links
      ∙ ap (index (positions 0 (length job.links))) b.current
      ∙ rw (index, get_elem?-positions 0 (length job.links) i i inside (omega arith)) refl in
    let found : index n.symlinks i ≡ ok l =
      ap (λ ls. index ls i) b.same_links ∙ rw (index, at) refl in
    let sends' : send_symlink job.env.cipher l n.conn n.encryption_key
        ≡ ok (record { outgoing = out ++ frame p; alive = true }) =
      ap (λ c. send_symlink job.env.cipher l c n.encryption_key) b.conn
      ∙ ap (send_symlink job.env.cipher l (record { outgoing = out; alive = true })) b.same_key
      ∙ sends in
    let more : n.sending.current_symlink_index < length n.sending.symlinks_to_send =
      omega (arith, b.current, ap length b.queued_links, length-positions 0 (length job.links)) in
    (
      p,
      record n {
        conn = record { outgoing = out ++ frame p; alive = true };
        sending = record n.sending {
          current_symlink_index = (n.sending.current_symlink_index + 1) % 2 ^ 64;
        };
      },
      transfer-link job.env n b.no_file more
          ∙ next_symlink-runs job.env n i l _ pointer found sends',
      record {
        running = b.running;
        same_key = b.same_key;
        conn = refl;
        no_file = b.no_file;
        same_links = b.same_links;
        queued_links = b.queued_links;
        current = omega (arith, b.current, sound.few);
      },
      sendable,
      opens,
    )

pub IsLinking-ready :
    (job : Job) (out : Bytes) (i : ℕ) (n : SenderNode)
    → IsLinking job out i n
    → IsLinking job out i (ready_node n)
IsLinking-ready job out i n b = record {
  running = b.running;
  same_key = b.same_key;
  conn = b.conn;
  no_file = b.no_file;
  same_links = b.same_links;
  queued_links = b.queued_links;
  current = b.current;
}
