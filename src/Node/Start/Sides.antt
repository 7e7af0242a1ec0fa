-- ===== src/Node/Start/Sides.antt =====
-- src/main.go and src/node/node.go: the node that the flags start.
use ftu.Common.{
  ℕ, Bool, true, false, none, some, [], Bytes, ◌≡◌, ◌≢◌, refl, sym, ap, subst, ◌∙◌, Outcome, ok,
  err, panic, unfinished, ◌>>=◌, >>=-eq-ok, Option-cases, inl, inr,
}
use ftu.Encryption.{generate_32_aes_key}
use ftu.Protocol.Send.{Conn, send_encryption_key}
use ftu.Node.Sender.{or_panic, or_panic-eq-ok}
use ftu.Cli.{Flags, goes_on, validate, NodeOptions, node_options}
use ftu.Cli.Validation.{validate-goes_on}
use ftu.Fsys.Disk.{Disk, File}
use ftu.Fsys.Tree.{Directory}
use ftu.Fsys.Scan.{Looks, FileInfo, get_dir, get_file}
use ftu.Node.State.{SenderNode}
use ftu.Node.Receiver.{ReceiverNode}
use ftu.Node.Start.{
  served_dir, served_file, NewNode, node_of, new_sender, new_receiver, new_node, Net, Served,
  files_of, symlinks_of, serving, start_sending, start_receiving, get_local, look_at, total_of,
  wait_for_connection, connect, Started, sending, receiving, start, main,
}

-- What is served of what stands at a path: a directory as it is scanned, recursively or not, or a
-- file as it is read.
abbrev pub IsFound : Looks → ℕ → Bytes → Bool → Disk → Served → Bool → Type 0
IsFound looks depth path recursive d s true =
    (directory : Directory) × (get_dir looks depth path recursive d ≡ (ok directory, s.disk))
    × (s.directory ≡ some directory)
    × (s.file ≡ none)
IsFound looks depth path recursive d s false =
    (file : File) × (get_file looks path d ≡ (ok file, s.disk))
    × (s.file ≡ some file)
    × (s.directory ≡ none)

-- A sender serves what stands at the path of -s, has had a connection on the port of -p, queues
-- nothing and may send nothing yet; a receiver has connected to the address of -a at that port, has
-- no key and has accepted nothing.
abbrev pub IsSide : Looks → Net → ℕ → Disk → Bool → Flags → Started → Type 0
IsSide looks net depth d true f (sending n s) =
    (f.send ≢ [])
    × ((stats : FileInfo) × (looks.stat d f.send ≡ some stats)
        × IsFound looks depth f.send f.recursive d s stats.is_dir
        × (n.sending.is_directory ≡ stats.is_dir))
    × ((conn : Conn) × (wait_for_connection net f.port ≡ ok conn))
    × (n.files ≡ files_of f.recursive s.file s.directory)
    × (n.symlinks ≡ symlinks_of f.recursive s.directory)
    × (n.sending.files_to_send ≡ [])
    × (n.sending.allowed_to_transfer ≡ false)
IsSide looks net depth d true f (receiving n) = ⊥
IsSide looks net depth d false f (sending n s) = ⊥
IsSide looks net depth d false f (receiving n) =
    (f.address ≢ [])
    × (connect net f.address f.port ≡ ok n.conn)
    × (n.encryption_key ≡ none)
    × (n.accepted_files ≡ [])
    × (looks.abs f.downloads_dir ≡ some n.downloads_path)

serving-eq :
    (node : NewNode) (s : Served) (total : ℕ) (conn : Conn) (key : Bytes) (r : SenderNode × Served)
    → ◌≡◌ {A = SenderNode × Served} (serving node s total conn key, s) r
    → (r.0.files ≡ files_of node.recursive r.1.file r.1.directory)
      × (r.0.symlinks ≡ symlinks_of node.recursive r.1.directory)
      × (r.0.sending.files_to_send ≡ [])
      × (r.0.sending.allowed_to_transfer ≡ false)
      × (r.0.sending.is_directory ≡ node.is_directory)
serving-eq node s total conn key r same = (
  sym (ap (λ x. x.0.files) same) ∙ ap (λ x. files_of node.recursive x.1.file x.1.directory) same,
  sym (ap (λ x. x.0.symlinks) same) ∙ ap (λ x. symlinks_of node.recursive x.1.directory) same,
  sym (ap (λ x. x.0.sending.files_to_send) same),
  sym (ap (λ x. x.0.sending.allowed_to_transfer) same),
  sym (ap (λ x. x.0.sending.is_directory) same),
)

abbrev found_dir : Directory → Disk → Outcome Directory × Disk
found_dir directory d = (ok directory, d)

abbrev found_file : File → Disk → Outcome File × Disk
found_file file d = (ok file, d)

served_dir-eq-ok :
    (r : Outcome Directory × Disk) (s : Served)
    → served_dir r ≡ ok s
    → (directory : Directory) × (r ≡ (ok directory, s.disk))
      × (s.directory ≡ some directory)
      × (s.file ≡ none)
served_dir-eq-ok (ok directory, d) s e =
    let same : record { file = none; directory = some directory; disk = d } ≡ s = cc in
    (
      directory,
      ap (λ x. found_dir directory x.disk) same,
      sym (ap (λ x. x.directory) same),
      sym (ap (λ x. x.file) same),
    )
served_dir-eq-ok (err m, d) s e = absurd cc
served_dir-eq-ok (panic, d) s e = absurd cc
served_dir-eq-ok (unfinished, d) s e = absurd cc

served_file-eq-ok :
    (r : Outcome File × Disk) (s : Served)
    → served_file r ≡ ok s
    → (file : File) × (r ≡ (ok file, s.disk)) × (s.file ≡ some file) × (s.directory ≡ none)
served_file-eq-ok (ok file, d) s e =
    let same : record { file = some file; directory = none; disk = d } ≡ s = cc in
    (
      file,
      ap (λ x. found_file file x.disk) same,
      sym (ap (λ x. x.file) same),
      sym (ap (λ x. x.directory) same),
    )
served_file-eq-ok (err m, d) s e = absurd cc
served_file-eq-ok (panic, d) s e = absurd cc
served_file-eq-ok (unfinished, d) s e = absurd cc

look_at-IsFound :
    (looks : Looks) (depth : ℕ) (node : NewNode) (d : Disk) (s : Served) (dir : Bool)
    → node.is_directory ≡ dir
    → look_at looks depth node d ≡ ok s
    → IsFound looks depth node.serving_path node.recursive d s dir
unfolding look_at
look_at-IsFound looks depth node d s true side e =
    served_dir-eq-ok (get_dir looks depth node.serving_path node.recursive d) s
      (sym (rw (look_at, side) refl) ∙ e)
look_at-IsFound looks depth node d s false side e =
    served_file-eq-ok (get_file looks node.serving_path d) s (sym (rw (look_at, side) refl) ∙ e)

-- The node of the options, on a disk.
abbrev of_options : NodeOptions → Bool → Bytes → Disk → NewNode × Disk
of_options options is_dir path d = (node_of options is_dir path, d)

module _ (looks : Looks) (mkdir_all : Bytes → Disk → Outcome Disk) where
  new_sender-eq-ok :
      (options : NodeOptions) (d : Disk) (r : NewNode × Disk)
      → new_sender looks mkdir_all options d ≡ ok r
      → (stats : FileInfo) × (looks.stat d options.sender_side.serving_path ≡ some stats)
        × (r ≡ of_options options stats.is_dir options.receiver_side.downloads_folder_path d)
  unfolding new_sender
  new_sender-eq-ok options d r e =
      elim (Option-cases (looks.stat d options.sender_side.serving_path)) [
        | inl missing ↦ absurd (cc (ap (λ o. o) e))
        | inr (stats, found) ↦ (stats, found, cc)
      ]

  new_receiver-eq-ok :
      (options : NodeOptions) (d : Disk) (r : NewNode × Disk)
      → new_receiver looks mkdir_all options d ≡ ok r
      → (path : Bytes) × (d' : Disk) × (looks.abs options.receiver_side.downloads_folder_path
          ≡ some path)
        × (r ≡ of_options options false path d')
  unfolding new_receiver
  new_receiver-eq-ok options d r e =
      elim (Option-cases (looks.abs options.receiver_side.downloads_folder_path)) [
        | inl missing ↦ absurd (cc (ap (λ o. o) e))
        | inr (path, found) ↦
            let made : (mkdir_all path d >>= λ d'. ok (node_of options false path, d')) ≡ ok r =
              cc in
            let (d', makes, e1) = >>=-eq-ok (mkdir_all path d) _ made in (path, d', found, cc)
      ]

start_sending-eq-ok :
    (looks : Looks) (net : Net) (draw : ℕ → ℕ) (depth : ℕ) (node : NewNode) (d : Disk)
    (r : SenderNode × Served)
    → start_sending looks net draw depth node d ≡ ok r
    → (look_at looks depth node d ≡ ok r.1)
      × ((conn : Conn) × (wait_for_connection net node.port ≡ ok conn))
      × (r.0.files ≡ files_of node.recursive r.1.file r.1.directory)
      × (r.0.symlinks ≡ symlinks_of node.recursive r.1.directory)
      × (r.0.sending.files_to_send ≡ [])
      × (r.0.sending.allowed_to_transfer ≡ false)
      × (r.0.sending.is_directory ≡ node.is_directory)
unfolding start_sending
start_sending-eq-ok looks net draw depth node d r e =
    let (local, found, e1) = >>=-eq-ok (or_panic (get_local net)) _ e in
    let (s, looked, e2) = >>=-eq-ok (look_at looks depth node d) _ e1 in
    let (total, sum, e3) = >>=-eq-ok (total_of s.file s.directory) _ e2 in
    let (conn, waits, e4) = >>=-eq-ok (or_panic (wait_for_connection net node.port)) _ e3 in
    let (key, makes, e5) = >>=-eq-ok (generate_32_aes_key draw) _ e4 in
    let (conn2, sends, e6) = >>=-eq-ok (or_panic (send_encryption_key conn key)) _ e5 in
    let same : ◌≡◌ {A = SenderNode × Served} (serving node s total conn2 key, s) r = cc in
    let (files, links, queued, allowed, dir) = serving-eq node s total conn2 key r same in
    (
      looked ∙ ap (λ x. ok x.1) same,
      (conn, or_panic-eq-ok (wait_for_connection net node.port) conn waits),
      files,
      links,
      queued,
      allowed,
      dir,
    )

start_receiving-eq-ok :
    (net : Net) (node : NewNode) (d : Disk) (n : ReceiverNode)
    → start_receiving net node d ≡ ok n
    → (connect net node.conn_addr node.port ≡ ok n.conn)
      × (n.encryption_key ≡ none)
      × (n.accepted_files ≡ [])
      × (n.downloads_path ≡ node.downloads_path)
unfolding start_receiving
start_receiving-eq-ok net node d n e =
    let (conn, dials, e1) = >>=-eq-ok (connect net node.conn_addr node.port) _ e in
    let made : ReceiverNode = record {
      stopped = false;
      conn = conn;
      encryption_key = none;
      accepted_files = [];
      downloads_path = node.downloads_path;
      total_download_size = 0;
      received_bytes = 0;
      offers = [];
      disk = d;
    } in
    let same : made ≡ n = cc in
    subst
      (λ x.
        (connect net node.conn_addr node.port ≡ ok x.conn)
        × (x.encryption_key ≡ none)
        × (x.accepted_files ≡ [])
        × (x.downloads_path ≡ node.downloads_path))
      same (dials, refl, refl, refl)

module _ (looks : Looks) (net : Net) (draw : ℕ → ℕ) (depth : ℕ) where
  start-sender :
      (node : NewNode) (d : Disk) (st : Started)
      → node.is_sending ≡ true
      → start looks net draw depth node d ≡ ok st
      → (r : SenderNode × Served) × (start_sending looks net draw depth node d ≡ ok r)
        × (sending r.0 r.1 ≡ st)
  unfolding start
  start-sender node d st side e =
      let begun : (start_sending looks net draw depth node d >>= λ (n, s). ok (sending n s))
          ≡ ok st =
        sym (rw (start, side) refl) ∙ e in
      let (r, starts, e1) = >>=-eq-ok (start_sending looks net draw depth node d) _ begun in
      (r, starts, cc)

  start-receiver :
      (node : NewNode) (d : Disk) (st : Started)
      → node.is_sending ≡ false
      → start looks net draw depth node d ≡ ok st
      → (n : ReceiverNode) × (start_receiving net node d ≡ ok n) × (receiving n ≡ st)
  unfolding start
  start-receiver node d st side e =
      let begun : (start_receiving net node d >>= λ n. ok (receiving n)) ≡ ok st =
        sym (rw (start, side) refl) ∙ e in
      let (n, starts, e1) = >>=-eq-ok (start_receiving net node d) _ begun in (n, starts, cc)

  sender-IsSide :
      (f : Flags) (d : Disk) (st : Started) (stats : FileInfo)
      → f.send ≢ []
      → looks.stat d f.send ≡ some stats
      → start looks net draw depth (node_of (node_options f true) stats.is_dir f.downloads_dir) d
        ≡ ok st
      → IsSide looks net depth d true f st
  unfolding node_options
  sender-IsSide f d st stats given found begins =
      let node = node_of (node_options f true) stats.is_dir f.downloads_dir in
      let (q, starts, same) = start-sender node d st refl begins in
      let (looked, conn, files, links, queued, allowed, dir) =
        start_sending-eq-ok looks net draw depth node d q starts in
      subst (IsSide looks net depth d true f) same (
        given,
        (stats, found, look_at-IsFound looks depth node d q.1 stats.is_dir refl looked, dir),
        conn,
        files,
        links,
        queued,
        allowed,
      )

  -- Flags that let the program go on start, where nothing fails, the side that they are for. With
  -- -s, a sending node that had a connection on the port of -p and serves what stands at the path
  -- of -s: the directory there as the scan finds it, recursively just where -r says so, or else the
  -- file; its files and links are those of what it serves, and it has queued none and may send none
  -- yet. With -a, a receiving node whose connection is the one made to the address of -a at the
  -- port of -p, that has no key, has accepted nothing, and downloads to the absolute path of -d.
  pub main-IsSide :
      (mkdir_all : Bytes → Disk → Outcome Disk) (f : Flags) (b : Bool) (d : Disk) (st : Started)
      → validate f ≡ goes_on b
      → main looks mkdir_all net draw depth f b d ≡ ok st
      → IsSide looks net depth d b f st
  unfolding main new_node node_options
  main-IsSide mkdir_all f true d st valid e =
      let (version, license, given, no_address) = (validate-goes_on f true).0 valid in
      let (r, makes, e1) = >>=-eq-ok (new_sender looks mkdir_all (node_options f true) d) _ e in
      let (stats, found, made) = new_sender-eq-ok looks mkdir_all (node_options f true) d r makes in
      let starts : start looks net draw depth
            (node_of (node_options f true) stats.is_dir f.downloads_dir) d
          ≡ ok st =
        ap (λ x. start looks net draw depth x.0 x.1) (sym made) ∙ e1 in
      sender-IsSide f d st stats given found starts
  main-IsSide mkdir_all f false d st valid e =
      let (version, license, none_given, given) = (validate-goes_on f false).0 valid in
      let (r, makes, e1) = >>=-eq-ok (new_receiver looks mkdir_all (node_options f false) d) _ e in
      let (path, d', found, made) =
        new_receiver-eq-ok looks mkdir_all (node_options f false) d r makes in
      let node = node_of (node_options f false) false path in
      let (n, starts, same) =
        start-receiver node d' st refl
          (ap (λ x. start looks net draw depth x.0 x.1) (sym made) ∙ e1) in
      let (dials, key, accepted, downloads) = start_receiving-eq-ok net node d' n starts in
      subst (IsSide looks net depth d false f) same
        (given, dials, key, accepted, found ∙ ap (λ x. some x) (sym downloads))
