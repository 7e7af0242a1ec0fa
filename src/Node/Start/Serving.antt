-- ===== src/Node/Start/Serving.antt =====
-- src/node/node.go: what a sending node is when `send` reaches its mainloop.
use ftu.Common.{
  ℕ, ◌≡◌, refl, sym, ap, subst, ◌∙◌, true, false, none, some, [], Bytes, length, Outcome, ok, ◌>>=◌,
  >>=-eq-ok, arith,
}
use ftu.Encryption.{key_len, valid_key, generate_32_aes_key}
use ftu.Encryption.Laws.{IsDraw, generate_32_aes_key-total}
use ftu.Fsys.Disk.{Disk, File}
use ftu.Fsys.Scan.{Looks, get_file}
use ftu.Protocol.Delivery.{frame, send_packet-frame}
use ftu.Protocol.Send.{Conn, send_encryption_key}
use ftu.Node.State.{SenderNode}
use ftu.Node.Sender.{or_panic, or_panic-eq-ok}
use ftu.Node.Transfer.Accepting.{IsUnqueued}
use ftu.Node.Start.{
  NewNode, Net, get_local, wait_for_connection, new_conn, Served, served_file, look_at, total_of,
  symlinks_of, serving, start_sending,
}
use ftu.Node.Start.Keys.{key_packet, key_packet-IsSendable}

-- A path to one file is never served as a directory.
served_file-none :
    (r : Outcome File × Disk) (s : Served) → served_file r ≡ ok s → s.directory ≡ none
served_file-none (o, d) s e =
    let (f, found, made) = >>=-eq-ok (or_panic o) _ e in
    let same : record { file = some f; directory = none; disk = d } ≡ s = cc in
    sym (ap (λ x. x.directory) same)

look_at-none :
    (looks : Looks) (depth : ℕ) (node : NewNode) (d : Disk) (s : Served)
    → node.is_directory ≡ false
    → look_at looks depth node d ≡ ok s
    → s.directory ≡ none
unfolding look_at
look_at-none looks depth node d s one e =
    let finds : look_at looks depth node d ≡ served_file (get_file looks node.serving_path d) =
      rw one refl in
    served_file-none (get_file looks node.serving_path d) s (sym finds ∙ e)

wait_for_connection-new :
    (net : Net) (port : ℕ) (c : Conn) → wait_for_connection net port ≡ ok c → c ≡ new_conn
unfolding wait_for_connection
wait_for_connection-new net port c e = ground arith

-- A sending node with the key that it made and wrote.
pub record HasKey (s : SenderNode) (key : Bytes) : Type 0 where
  pub same_key : s.encryption_key ≡ some key
  pub long : length key ≡ key_len
  pub valid : valid_key key ≡ true
  pub unqueued : IsUnqueued s (some key) (frame (key_packet key))

serving-HasKey :
    (node : NewNode) (served : Served) (total : ℕ) (key : Bytes)
    → length key ≡ key_len
    → valid_key key ≡ true
    → (node.is_directory ≡ false → served.directory ≡ none)
    → HasKey
        (serving node served total (record { outgoing = frame (key_packet key); alive = true }) key)
        key
serving-HasKey node served total key long valid one = record {
  same_key = refl;
  long = long;
  valid = valid;
  unqueued = record {
    running = refl;
    same_key = refl;
    conn = refl;
    no_files = refl;
    no_links = refl;
    no_link_sent = refl;
    idle = refl;
    one_file = λ e. ap (λ x. symlinks_of node.recursive x) (one e);
  };
}

abbrev returned : SenderNode → Served → Outcome (SenderNode × Served)
returned s served = ok (s, served)

started-HasKey :
    (node : NewNode) (seen served : Served) (total : ℕ) (c written : Conn) (key : Bytes)
    (s : SenderNode)
    → (node.is_directory ≡ false → seen.directory ≡ none)
    → c ≡ new_conn
    → length key ≡ key_len
    → valid_key key ≡ true
    → send_encryption_key c key ≡ ok written
    → returned (serving node seen total written key) seen ≡ returned s served
    → HasKey s key
unfolding send_encryption_key
started-HasKey node seen served total c written key s one new long valid writes e =
    let conn : Conn = record { outgoing = frame (key_packet key); alive = true } in
    let sent : ok written ≡ ok conn =
      sym writes
      ∙ ap (λ x. send_encryption_key x key) new
      ∙ send_packet-frame [] (key_packet key) (key_packet-IsSendable key long) in
    let same_conn : written ≡ conn = cc in
    let same : serving node seen total written key ≡ s = cc in
    subst (λ x. HasKey x key) (ap (λ x. serving node seen total x key) (sym same_conn) ∙ same)
      (serving-HasKey node seen total key long valid one)

made_key :
    (draw : ℕ → ℕ) (key : Bytes)
    → IsDraw draw
    → generate_32_aes_key draw ≡ ok key
    → (length key ≡ key_len) × (valid_key key ≡ true)
made_key draw key drawn made =
    let (k, makes, long, chars, valid) = generate_32_aes_key-total draw drawn in
    let same : key ≡ k = cc in (ap length same ∙ long, ap valid_key same ∙ valid)

module _ (looks : Looks) (net : Net) (draw : ℕ → ℕ) (depth : ℕ) (node : NewNode) (d : Disk)
    (s : SenderNode) (served : Served) (drawn : IsDraw draw) where
  -- What `start_sending` does once it has found what it serves.
  abbrev Connects : Served → ℕ → Outcome (SenderNode × Served)
  Connects seen total = or_panic (wait_for_connection net node.port) >>= λ c.
      generate_32_aes_key draw >>= λ key. or_panic (send_encryption_key c key) >>= λ written.
      ok (serving node seen total written key, seen)

  connects-HasKey :
      (seen : Served) (total : ℕ)
      → (node.is_directory ≡ false → seen.directory ≡ none)
      → Connects seen total ≡ returned s served
      → (key : Bytes) × HasKey s key
  connects-HasKey seen total one e =
      let (c, accepted, e1) = >>=-eq-ok (or_panic (wait_for_connection net node.port)) _ e in
      let (key, made, e2) = >>=-eq-ok (generate_32_aes_key draw) _ e1 in
      let (written, writes, e3) = >>=-eq-ok (or_panic (send_encryption_key c key)) _ e2 in
      let facts = made_key draw key drawn made in
      (
        key,
        started-HasKey node seen served total c written key s one
            (wait_for_connection-new net node.port c
              (or_panic-eq-ok (wait_for_connection net node.port) c accepted))
            facts.0 facts.1 (or_panic-eq-ok (send_encryption_key c key) written writes) e3,
      )

  pub start_sending-HasKey :
      start_sending looks net draw depth node d ≡ ok (s, served) → (key : Bytes) × HasKey s key
  unfolding start_sending
  start_sending-HasKey e =
      let (local, found, e1) = >>=-eq-ok (or_panic (get_local net)) _ e in
      let (seen, looked, e2) = >>=-eq-ok (look_at looks depth node d) _ e1 in
      let (total, sum, e3) = >>=-eq-ok (total_of seen.file seen.directory) _ e2 in
      connects-HasKey seen total (λ one. look_at-none looks depth node d seen one looked) e3
