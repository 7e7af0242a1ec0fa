-- ===== src/Node/Transfer/Files.antt =====
-- src/node/node.go, `send`: the rounds in which a sending node whose peer is always ready sends its
-- files.
use ftu.Common.{
  ℕ, zero, suc, ◌+◌, ◌-◌, ◌≤◌, ◌<◌, ◌≡◌, refl, sym, ap, subst, ◌∙◌, some, List, [], ◌∷◌, ◌++◌,
  append-nil, append_assoc, Bytes, length, replicate, take, drop, take-drop, drop_all, get_elem?,
  get_elem?_only, ok, arith, dec_lt,
}
use ftu.Fsys.Disk.{File}
use ftu.Protocol.Packet.{Packet, decrypt_body_if}
use ftu.Protocol.Delivery.{IsSendable, frame, frames}
use ftu.Protocol.Pieces.Whole.{Carries, joined}
use ftu.Node.State.{SenderNode}
use ftu.Node.Transfer.{transfer}
use ftu.Node.Transfer.Serving.{Job, IsSound, IsBefore, IsDuring}
use ftu.Node.Transfer.Moves.{announce-IsDuring, send_next_piece-IsDuring}
use ftu.Node.Transfer.Ends.{send_next_piece-IsBefore}
use ftu.Node.Receiver.{ready_packet}
use ftu.Node.Receiving.Arrival.{file_packet}
use ftu.Node.Receiving.Whole.{end_packet}
use ftu.Node.Transfer.Rounds.{
  ready_node, transfer-announce, transfer-piece, IsDuring-ready, some_queued, Reaches, one_round,
}

-- The packets of one file: FILE, its pieces, ENDFILE.
pub record SendsFile (job : Job) (k : ℕ) (f : File) (sent : List Packet) : Type 0 where
  pub first : Packet
  pub middle : List Packet
  pub last : Packet
  pub pieces : List Bytes
  pub whole : sent ≡ first ∷ (middle ++ (last ∷ []))
  pub first_sendable : IsSendable first
  pub announces : decrypt_body_if job.env.cipher job.key first ≡ ok (file_packet f)
  pub carries : Carries job.env.cipher job.key k middle pieces
  pub content : joined pieces ≡ job.contents k
  pub last_sendable : IsSendable last
  pub ends : decrypt_body_if job.env.cipher job.key last ≡ ok (end_packet k)

module _ (job : Job) (sound : IsSound job) (k : ℕ) where
  -- From any point of a file on, its other pieces and ENDFILE.
  rest_of_file :
      (fuel sent : ℕ) (out : Bytes) (n : SenderNode)
      → IsDuring job out k sent n
      → sent ≤ length (job.contents k)
      → length (job.contents k) - sent < fuel
      → (rounds : ℕ) × (ps : List Packet) × (pieces : List Bytes) × (last : Packet)
        × (n' : SenderNode) × Reaches job.env n rounds n'
        × IsBefore job (out ++ frames (ps ++ (last ∷ []))) (k + 1) n'
        × Carries job.env.cipher job.key k ps pieces
        × (joined pieces ≡ drop sent (job.contents k))
        × IsSendable last
        × (decrypt_body_if job.env.cipher job.key last ≡ ok (end_packet k))
  rest_of_file zero sent out n b le fuelled = absurd (omega arith)
  rest_of_file (suc fuel) sent out n b le fuelled =
      let inside = get_elem?_only n.files k b.file b.at in
      let r = IsDuring-ready job out k sent n b in
      let piece =
        transfer-piece job.env (ready_node n) (some_queued n k b.serves.queue b.current inside)
          b.serves.allowed refl b.busy in
      elim (dec_lt sent (length (job.contents k))) [
        | no done ↦
            let (last, n', sends, before, sendable, opens) =
              send_next_piece-IsBefore job out k sent (ready_node n) sound r (omega arith) in
            (
              1,
              [],
              [],
              last,
              n',
              one_round job.env n n' b.serves.running (piece ∙ sends),
              subst (λ o. IsBefore job o (k + 1) n')
                  (ap (λ x. out ++ x) (sym (append-nil (frame last)))) before,
              tt,
              sym (drop_all sent (job.contents k) (omega arith)),
              sendable,
              opens,
            )
        | yes more ↦
            let (count, p, n1, sends, during, sendable, opens, some_bytes, left) =
              send_next_piece-IsDuring job out k sent (ready_node n) sound r more in
            let (
              rounds, ps, pieces, last, n2, reaches, before, carries, joins, last_sendable, ends,
            ) =
              rest_of_file fuel (sent + count) (out ++ frame p) n1 during (omega arith)
                (omega arith) in
            (
              suc rounds,
              p ∷ ps,
              take count (drop sent (job.contents k)) ∷ pieces,
              last,
              n2,
              λ qs.
                  one_round job.env n n1 b.serves.running (piece ∙ sends)
                    (replicate rounds ready_packet ++ qs)
                  ∙ reaches qs,
              subst (λ o. IsBefore job o (k + 1) n2)
                  (append_assoc out (frame p) (frames (ps ++ (last ∷ [])))) before,
              (sendable, opens, carries),
              ap (◌++◌ (take count (drop sent (job.contents k)))) joins
                  ∙ take-drop sent count (sent + count) (job.contents k) refl,
              last_sendable,
              ends,
            )
      ]

  -- The transfer section begins a file, and the rounds that follow end it.
  pub whole_file :
      (out : Bytes) (n : SenderNode) (f : File)
      → IsBefore job out k n
      → get_elem? n.files k ≡ some f
      → (rounds : ℕ) × (ps : List Packet) × (begun : SenderNode) × (n' : SenderNode) × (transfer
            job.env n
          ≡ ok begun)
        × Reaches job.env begun rounds n'
        × IsBefore job (out ++ frames ps) (k + 1) n'
        × SendsFile job k f ps
  whole_file out n f b at =
      let inside = get_elem?_only n.files k f at in
      let (first, n1, sends, during, sendable, announces) =
        announce-IsDuring job out k n f sound b at in
      let goes =
        transfer-announce job.env n (some_queued n k b.serves.queue b.current inside)
          b.serves.allowed b.idle in
      let (rounds, ps, pieces, last, n2, reaches, before, carries, joins, last_sendable, ends) =
        rest_of_file (suc (length (job.contents k))) 0 (out ++ frame first) n1 during (omega arith)
          (omega arith) in
      (
        rounds,
        first ∷ (ps ++ (last ∷ [])),
        n1,
        n2,
        goes ∙ sends,
        reaches,
        subst (λ o. IsBefore job o (k + 1) n2)
            (append_assoc out (frame first) (frames (ps ++ (last ∷ [])))) before,
        record {
          first = first;
          middle = ps;
          last = last;
          pieces = pieces;
          whole = refl;
          first_sendable = sendable;
          announces = announces;
          carries = carries;
          content = joins;
          last_sendable = last_sendable;
          ends = ends;
        },
      )

-- The packets of all files from the `k`-th on, in their order.
abbrev pub SendsFiles : Job → ℕ → List File → List Packet → Type 0
SendsFiles job k [] sent = sent ≡ []
SendsFiles job k (f ∷ fs) sent =
    (ps : List Packet) × (qs : List Packet) × (sent ≡ ps ++ qs)
    × SendsFile job k f ps
    × SendsFiles job (k + 1) fs qs

pub drop-cons :
    (fs gs : List File) (f : File) (k : ℕ)
    → drop k fs ≡ f ∷ gs
    → (get_elem? fs k ≡ some f) × (drop (k + 1) fs ≡ gs)
drop-cons [] gs f zero e = cc
drop-cons [] gs f (suc k) e = cc
drop-cons (x ∷ fs) gs f zero e = (cc, cc)
drop-cons (x ∷ fs) gs f (suc k) e =
    let next : suc k + 1 ≡ suc (k + 1) = omega arith in
    let (at, rest) = drop-cons fs gs f k e in (at, ap (λ m. drop m (x ∷ fs)) next ∙ rest)
