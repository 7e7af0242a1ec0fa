-- ===== src/Node/Session/Several.antt =====
-- A whole transfer of files: what the packets of a sending node leave on the other side.
use ftu.Common.{
  ℕ, ◌+◌, ◌^◌, ◌<◌, ◌≡◌, ◌≢◌, refl, sym, ap, subst, ◌∙◌, true, false, Option, Outcome, ◌>>=◌, none,
  some, List, [], ◌∷◌, ◌++◌, append_assoc, Bytes, length, All, ok, arith,
}
use ftu.Fsys.Disk.{Disk, regular, update, File}
use ftu.Protocol.Packet.{Packet, decrypt_body_if}
use ftu.Protocol.Pieces.Whole.{Carries, joined}
use ftu.Protocol.Decode.RoundTrip.{IsSent, received}
use ftu.Node.Receiver.{Surroundings, ReceiverNode, destination}
use ftu.Node.Receiving.Arrival.{placed, receiver_step-new_file}
use ftu.Node.Receiving.Whole.{end_packet, receiver_steps-whole}
use ftu.Node.Loop.{receiver_loop}
use ftu.Node.Loop.Ends.{receiver_loop-step, receiver_loop-append}
use ftu.Node.Transfer.Serving.{Job}
use ftu.Node.Transfer.Files.{SendsFile, SendsFiles}

-- The place of a file below the downloads.
abbrev pub place : Surroundings → Bytes → File → Bytes
place env downloads f = destination env downloads (received env.max_alloc f)

-- There is room for files with the IDs from `k` on: each can be described, the folder for it can
-- be made on the disk that the files before it leave, and then nothing stands in its place, which
-- can be opened and written.
abbrev pub IsRoom : Surroundings → (ℕ → Bytes) → Bytes → ℕ → List File → Disk → Type 0
IsRoom env contents downloads k [] d = Unit {0}
IsRoom env contents downloads k (f ∷ fs) d =
    (f.id ≡ k)
    × IsSent env.max_alloc f
    × (length (contents k) < 2 ^ 63)
    × (e : Disk) × (env.mkdir_all (env.parent (place env downloads f)) d ≡ ok e)
    × (env.stat e (place env downloads f) ≡ false)
    × (env.os.can_open e (place env downloads f) ≡ true)
    × (e (env.os.resolve e (place env downloads f)) ≡ none)
    × ((x : Disk) → env.can_write x (env.os.resolve e (place env downloads f)) ≡ true)
    × IsRoom env contents downloads (k + 1) fs
        (update e (env.os.resolve e (place env downloads f)) (some (regular (contents k))))

-- A disk with each file in its place, in a folder that `os.MkdirAll` has made for it.
unfoldable pub stored : Surroundings → (ℕ → Bytes) → Bytes → ℕ → List File → Disk → Outcome Disk
stored env contents downloads k [] d = ok d
stored env contents downloads k (f ∷ fs) d =
    env.mkdir_all (env.parent (place env downloads f)) d >>= λ e.
    stored env contents downloads (k + 1) fs
      (update e (env.os.resolve e (place env downloads f)) (some (regular (contents k))))

pub stored-none :
    (env : Surroundings) (contents : ℕ → Bytes) (downloads : Bytes) (k : ℕ) (d : Disk)
    → stored env contents downloads k [] d ≡ ok d
unfolding stored
stored-none env contents downloads k d = refl

-- The first of the files is in its place.
pub stored-first :
    (env : Surroundings) (contents : ℕ → Bytes) (downloads : Bytes) (k : ℕ) (f : File)
    (fs : List File) (d e : Disk)
    → env.mkdir_all (env.parent (place env downloads f)) d ≡ ok e
    → stored env contents downloads k (f ∷ fs) d
      ≡ stored env contents downloads
          (k + 1)
          fs
          (update e (env.os.resolve e (place env downloads f)) (some (regular (contents k))))
unfolding stored
stored-first env contents downloads k f fs d e makes = rw (stored, ◌>>=◌, makes) refl

-- A running node between two files.
pub record IsIdle (n : ReceiverNode) (key : Option Bytes) : Type 0 where
  pub running : n.stopped ≡ false
  pub same_key : n.encryption_key ≡ key
  pub pool : n.accepted_files ≡ []

module _ (env : Surroundings) (job : Job) (ciphers : job.env.cipher ≡ env.cipher) where
  file_arrives :
      (n : ReceiverNode) (k : ℕ) (f : File) (sent : List Packet) (e : Disk)
      → IsIdle n job.key
      → f.id ≡ k
      → IsSent env.max_alloc f
      → length (job.contents k) < 2 ^ 63
      → env.mkdir_all (env.parent (place env n.downloads_path f)) n.disk ≡ ok e
      → env.stat e (place env n.downloads_path f) ≡ false
      → env.os.can_open e (place env n.downloads_path f) ≡ true
      → e (env.os.resolve e (place env n.downloads_path f)) ≡ none
      → ((x : Disk) → env.can_write x (env.os.resolve e (place env n.downloads_path f)) ≡ true)
      → SendsFile job k f sent
      → (n' : ReceiverNode) × ((qs : List Packet)
          → receiver_loop env n (sent ++ qs) ≡ receiver_loop env n' qs)
        × IsIdle n' job.key
        × (n'.disk
            ≡ update e
                (env.os.resolve e (place env n.downloads_path f))
                (some (regular (job.contents k))))
        × (n'.downloads_path ≡ n.downloads_path)
  file_arrives n k f sent e idle id sendable small makes absent can missing writes sends =
      let at = place env n.downloads_path f in
      let to_here : (q : Packet)
          → decrypt_body_if job.env.cipher job.key q ≡ decrypt_body_if env.cipher job.key q =
        λ q. ap (λ c. decrypt_body_if c job.key q) ciphers in
      let (n1, first, awaiting, wrote, same_disk, same_place, same_offers) =
        receiver_step-new_file env n job.key sends.first f e sendable idle.running idle.same_key
          (sym (to_here sends.first) ∙ sends.announces)
          (subst (All (λ g. g.id ≢ f.id)) (sym idle.pool) tt) makes absent can missing writes in
      let carries : Carries env.cipher job.key f.id sends.middle sends.pieces =
        subst (λ c. Carries c job.key f.id sends.middle sends.pieces) ciphers
          (subst (λ i. Carries job.env.cipher job.key i sends.middle sends.pieces) (sym id)
            sends.carries) in
      let ends : decrypt_body_if env.cipher job.key sends.last ≡ ok (end_packet f.id) =
        sym (to_here sends.last) ∙ sends.ends ∙ ap (λ i. ok (end_packet i)) (sym id) in
      let (n2, steps, got) =
        receiver_steps-whole env n1 job.key (placed env n f) n.accepted_files [] sends.middle
          sends.last sends.pieces awaiting carries ends (omega (arith, ap length sends.content)) in
      (
        n2,
        λ qs.
            ap (λ ps. receiver_loop env n (ps ++ qs)) sends.whole
            ∙ receiver_loop-step env n n1 sends.first ((sends.middle ++ (sends.last ∷ [])) ++ qs)
                idle.running first
            ∙ receiver_loop-append env n1 n2 (sends.middle ++ (sends.last ∷ [])) qs steps
                got.running,
        record {
          running = got.running;
          same_key = got.same_key ∙ awaiting.same_key;
          pool = got.pool ∙ ap (λ x. x ++ []) idle.pool;
        },
        got.written
            ∙ ap (λ d. update d (env.os.resolve d at) (some (regular (joined sends.pieces))))
                same_disk
            ∙ ap (λ c. update e (env.os.resolve e at) (some (regular c))) sends.content,
        got.same_place ∙ same_place,
      )

  pub files_arrive :
      (fs : List File) (n : ReceiverNode) (k : ℕ) (sent : List Packet)
      → IsIdle n job.key
      → IsRoom env job.contents n.downloads_path k fs n.disk
      → SendsFiles job k fs sent
      → (n' : ReceiverNode) × ((qs : List Packet)
          → receiver_loop env n (sent ++ qs) ≡ receiver_loop env n' qs)
        × IsIdle n' job.key
        × (stored env job.contents n.downloads_path k fs n.disk ≡ ok n'.disk)
  files_arrive [] n k sent idle room sends = (
    n,
    λ qs. ap (λ ps. receiver_loop env n (ps ++ qs)) sends,
    idle,
    stored-none env job.contents n.downloads_path k n.disk,
  )
  files_arrive (f ∷ fs) n k sent idle
        (id, sendable, small, e, makes, absent, can, missing, writes, room)
        (ps, qs, whole, one, others) =
      let (n1, steps, idle1, disk, same_place) =
        file_arrives n k f ps e idle id sendable small makes absent can missing writes one in
      let room1 : IsRoom env job.contents n1.downloads_path (k + 1) fs n1.disk =
        subst (λ x. IsRoom env job.contents x (k + 1) fs n1.disk) (sym same_place)
          (subst (λ d. IsRoom env job.contents n.downloads_path (k + 1) fs d) (sym disk) room) in
      let (n2, more, idle2, rest) = files_arrive fs n1 (k + 1) qs idle1 room1 others in
      (
        n2,
        λ rs.
            ap (λ x. receiver_loop env n (x ++ rs)) whole
            ∙ ap (receiver_loop env n) (append_assoc ps qs rs)
            ∙ steps (qs ++ rs)
            ∙ more rs,
        idle2,
        stored-first env job.contents n.downloads_path k f fs n.disk e makes
            ∙ ap (stored env job.contents n.downloads_path (k + 1) fs) (sym disk)
            ∙ ap (λ x. stored env job.contents x (k + 1) fs n1.disk) (sym same_place)
            ∙ rest,
      )
