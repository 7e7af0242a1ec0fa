-- ===== src/Node/System/Deciding.antt =====
-- src/node/node.go: the user's answer, and both nodes behind it up to their disconnections.
use ftu.Common.{
  ◌+◌, ◌≤◌, ◌≡◌, ◌⊎◌, refl, sym, ap, subst, ◌∙◌, true, false, Bool, not, Bool-cases, inl, inr,
  Option, some, List, [], ◌∷◌, ◌++◌, Bytes, length, ok, ◌>>=◌, arith,
}
use ftu.Fsys.Disk.{Disk, File}
use ftu.Fsys.Tree.{Directory}
use ftu.Protocol.Headers
use ftu.Protocol.Headers.{header_of, kind_of, max_packet_size}
use ftu.Protocol.Packet.{Packet}
use ftu.Protocol.Packet.Framing.{header_of-plain}
use ftu.Protocol.Decode.{decode_transfer_packet}
use ftu.Protocol.Delivery.{IsSendable, frame}
use ftu.Node.State.{SenderNode}
use ftu.Node.Sender.{on_accept}
use ftu.Node.Transfer.Serving.{Job, IsSound, IsBefore}
use ftu.Node.Transfer.Links.{IsBefore-IsLinking}
use ftu.Node.Transfer.Run.{accept_packet, sender_step-accept}
use ftu.Node.Receiver.{Surroundings, ReceiverNode, is_yes, enter_directory}
use ftu.Node.Receiver.Entering.{enter_directory-Keeps}
use ftu.Node.Receiving.{answer_step}
use ftu.Node.Session.Answers.{IsOffering, reject_packet, refusing, answer_step-no}
use ftu.Node.Session.Several.{IsRoom, IsIdle, stored}
use ftu.Node.System.{
  System, Wrote, sender_takes, sender_leaves, sender_exits, sender_offers, receiver_takes,
  receiver_answers, receiver_answers_waiting, receiver_takes_waiting, receiver_leaves,
  receiver_exits, receiver_exits_waiting, Inevitably, now, later,
}
use ftu.Node.System.Turns.{nothing_waits, Wrote-one, Wrote-same, Inevitably-trans}
use ftu.Node.System.Ending.{HasEnded}
use ftu.Node.System.Finishing.{reject_pending}
use ftu.Node.System.Waiting.{reject_waiting}
use ftu.Node.System.Exchange.{to_sender, IsSending, IsListening}
use ftu.Node.System.Files.{files_go}
use ftu.Node.System.Links.{link_all, links_go}
use ftu.Node.System.Session.{asked, decided, accepting, resting, answer_step-yes}

accept_packet-IsSendable : IsSendable accept_packet
unfolding header_of
accept_packet-IsSendable = record {
  plain_header = header_of-plain Headers.accept;
  small = omega arith;
}

reject_packet-IsSendable : IsSendable reject_packet
unfolding header_of
reject_packet-IsSendable = record {
  plain_header = header_of-plain Headers.reject;
  small = omega arith;
}

-- ACCEPT is on its way to a sending node that offers a job.
accepted_goes :
    (job : Job) (sound : IsSound job) (env : Surroundings) (ciphers : job.env.cipher ≡ env.cipher)
    (slices : max_packet_size ≤ env.max_alloc) (s s1 : SenderNode) (r : ReceiverNode) (out : Bytes)
    (final : Disk)
    → IsSending s out
    → on_accept job.env s ≡ ok s1
    → IsBefore job out 0 s1
    → IsListening r
    → IsIdle r job.key
    → IsRoom env job.contents r.downloads_path 0 job.files r.disk
    → (stored env job.contents r.downloads_path 0 job.files r.disk
        >>= link_all env r.downloads_path job.links)
      ≡ ok final
    → Inevitably job.env env (HasEnded (λ d. d ≡ final)) (to_sender s r accept_packet)
accepted_goes job sound env ciphers slices s s1 r out final a accepts before l idle room links =
    let Q : Disk → Type 0 = λ d. d ≡ final in
    files_go job sound env ciphers (HasEnded Q) job.files 0 out s s1 r accept_packet a
      (sender_step-accept job.env s s1 accepts) before refl l idle room
      (λ out' s' n' r' next a' begins b' l' idle' disk place.
        links_go job sound env ciphers slices Q final refl job.links 0 out' s' n' r' next a' begins
          (IsBefore-IsLinking job out' (0 + length job.files) n' b' (omega arith)) refl
          (omega arith) l' idle'.same_key
          (ap (λ p. link_all env p job.links r'.disk) place ∙ sym (rw (◌>>=◌, disk) refl) ∙ links))

-- What the receiver's disk is in the end, by the answer.
abbrev pub Leaves : Disk → Disk → Bool → Disk → Type 0
Leaves before final true d = d ≡ final
Leaves before final false d = d ≡ before

-- The mainloop had passed its check of `stopped`, and waits, when the answer came: this matters
-- where the answer stops it.
abbrev pub waiting_for : Bool → System → System
waiting_for answer w = record w { receiver_waits = not answer }

-- The packet that the answer is sent as.
abbrev pub reply : Bool → Packet
reply true = accept_packet
reply false = reject_packet

module _ (job : Job) (sound : IsSound job) (env : Surroundings)
    (ciphers : job.env.cipher ≡ env.cipher) (slices : max_packet_size ≤ env.max_alloc)
    (s s1 : SenderNode) (r entered : ReceiverNode) (out rout key : Bytes) (clear : Packet)
    (f : Option File) (directory : Option Directory) (final : Disk) (o : IsOffering s out)
    (accepts : on_accept job.env s ≡ ok s1) (before : IsBefore job out 0 s1) (l : IsListening r)
    (keyed : job.key ≡ some key) (no_pool : r.accepted_files ≡ [])
    (wrote : r.conn ≡ record { outgoing = rout; alive = true })
    (decodes : decode_transfer_packet env.max_alloc clear ≡ ok (f, directory))
    (enters : enter_directory env directory (decided env r (some key) f directory) ≡ ok entered)
    (room : IsRoom env job.contents entered.downloads_path 0 job.files entered.disk)
    (links : (stored env job.contents entered.downloads_path 0 job.files entered.disk
        >>= link_all env entered.downloads_path job.links)
      ≡ ok final) where
  -- The user's yes or no, and what it leads to.
  abbrev pub Answered : Bytes → Bool → Type 0
  Answered answer b =
      (r' : ReceiverNode) × (answer_step env answer (asked r key clear) (clear ∷ []) ≡ ok r')
      × Wrote r.conn r'.conn (reply b ∷ [])
      × (r'.stopped ≡ not b)
      × Inevitably job.env env (HasEnded (Leaves r.disk final b)) (to_sender s r' (reply b))
      × Inevitably job.env env (HasEnded (Leaves r.disk final b))
          (waiting_for b (to_sender s r' (reply b)))

  says_yes : (answer : Bytes) → is_yes answer ≡ true → Answered answer true
  says_yes answer agrees =
      let k =
        enter_directory-Keeps env directory (decided env r (some key) f directory) entered enters in
      let r' : ReceiverNode = accepting entered rout in
      let ends =
        accepted_goes job sound env ciphers slices s s1 r' out final
          (record { running = o.running; conn = o.conn }) accepts before
          (record { running = k.stopped ∙ l.running; alive = refl; no_offer = k.offers })
          (record {
            running = k.stopped ∙ l.running;
            same_key = k.key ∙ sym keyed;
            pool = k.pool ∙ no_pool;
          })
          room links in
      (
        r',
        answer_step-yes env (asked r key clear) entered answer rout clear [] f directory decodes
            agrees enters (k.conn ∙ wrote),
        Wrote-one r.conn r'.conn accept_packet
            (ap (λ c. c.outgoing ++ frame accept_packet) (sym wrote)) accept_packet-IsSendable,
        k.stopped ∙ l.running,
        ends,
        ends,
      )

  says_no : (answer : Bytes) → is_yes answer ≡ false → Answered answer false
  says_no answer refuses =
      let n = asked r key clear in
      let r' : ReceiverNode = refusing env n f directory [] rout in
      (
        r',
        answer_step-no env n answer rout clear [] f directory decodes refuses wrote,
        Wrote-one r.conn r'.conn reject_packet
            (ap (λ c. c.outgoing ++ frame reject_packet) (sym wrote)) reject_packet-IsSendable,
        refl,
        reject_pending job.env env (Leaves r.disk final false) (to_sender s r' reject_packet) out []
            (record {
              sender_on = refl;
              receiver_on = refl;
              no_offer = refl;
              offered = refl;
              disk = refl;
            })
            refl refl o refl,
        reject_waiting job.env env (Leaves r.disk final false)
            (waiting_for false (to_sender s r' reject_packet)) out []
            (record {
              sender_on = refl;
              receiver_on = refl;
              no_offer = refl;
              offered = refl;
              disk = refl;
            })
            refl refl refl o refl,
      )

  -- A receiving node that has asked about an offer which can be decoded takes every answer: it
  -- writes ACCEPT and runs on if the answer is a yes, and writes REJECT and is stopped if not; and
  -- from there, whatever the order of the steps of both nodes, and also where its mainloop already
  -- waits for a packet when a no stops it, both close their connections, and none has exited when
  -- they have. After a yes the disk then has every file in its place, in the folder that
  -- `os.MkdirAll` makes for it, and the links made behind them; after a no it is as it was. The
  -- conditions: the sending node has made an offer and queued nothing, and ACCEPT queues the files
  -- of its job, which can be read and announced, and its links, which fit into packets; both nodes
  -- use the same key and cipher, for which the laws of GCM hold, and the receiver can make slices
  -- of the size of a packet. On the receiver's disk a yes ends in some folder for the downloads,
  -- and file by file, on the disk that the files before it leave, the folder of the file can be
  -- made, and nothing stands in its place then, but it can be opened, and written all along; each
  -- file has the ID of its position, its fields fit into slices and its content is shorter than
  -- 2^63 bytes; and the links can be made behind the files.
  pub answer_step-HasEnded : (answer : Bytes) → Answered answer (is_yes answer)
  answer_step-HasEnded answer = elim (Bool-cases (is_yes answer)) [
    | inl agrees ↦ subst (Answered answer) (sym agrees) (says_yes answer agrees)
    | inr refuses ↦ subst (Answered answer) (sym refuses) (says_no answer refuses)
  ]

  -- Whichever the answer is.
  abbrev pub Either : Disk → Type 0
  Either d = (d ≡ final) ⊎ (d ≡ r.disk)

  Leaves-Either : (b : Bool) (d : Disk) → Leaves r.disk final b d → Either d
  Leaves-Either true d e = inl e
  Leaves-Either false d e = inr e

  -- An answer is determined by what was asked.
  same_answer :
      (answer : Bytes) (b : Bool) (t : ReceiverNode) (p : Packet) (rest : List Packet)
      (r' : ReceiverNode) (ps : List Packet)
      → answer_step env answer (asked r key clear) (clear ∷ []) ≡ ok t
      → Wrote r.conn t.conn (reply b ∷ [])
      → r.offers ++ (clear ∷ []) ≡ p ∷ rest
      → answer_step env answer (asked r key clear) (p ∷ rest) ≡ ok r'
      → Wrote r.conn r'.conn ps
      → (r' ≡ t) × (ps ≡ reply b ∷ [])
  same_answer answer b t p rest r' ps answers replied waits goes took =
      let one : clear ∷ [] ≡ p ∷ rest = ap (λ x. x ++ (clear ∷ [])) (sym l.no_offer) ∙ waits in
      let same : r' ≡ t = cc in
      (
        same,
        Wrote-same r.conn t.conn ps (reply b ∷ []) (subst (λ x. Wrote r.conn x.conn ps) same took)
            replied,
      )

  same_ends :
      (b : Bool) (w u : System)
      → u ≡ w
      → Inevitably job.env env (HasEnded (Leaves r.disk final b)) w
      → Inevitably job.env env (HasEnded Either) u
  same_ends b w u e ends = subst (Inevitably job.env env (HasEnded Either)) (sym e) (
      Inevitably-trans job.env env (HasEnded (Leaves r.disk final b)) (HasEnded Either) w ends
        (λ v h. now (record {
          sender_left = h.sender_left;
          receiver_left = h.receiver_left;
          sender_on = h.sender_on;
          receiver_on = h.receiver_on;
          disk = Leaves-Either b v.receiver.disk h.disk;
        })))

  any_answer :
      (answer : Bytes) (b waiting : Bool)
      → Answered answer b
      → (p : Packet) (rest : List Packet) (r' : ReceiverNode) (ps : List Packet) (u : System)
      → r.offers ++ (clear ∷ []) ≡ p ∷ rest
      → answer_step env answer (asked r key clear) (p ∷ rest) ≡ ok r'
      → Wrote r.conn r'.conn ps
      → (waiting ≡ false) ⊎ ((waiting ≡ true) × (r'.stopped ≡ true))
      → u ≡ record (resting s r') { to_sender = ps; receiver_waits = waiting }
      → Inevitably job.env env (HasEnded Either) u
  any_answer answer b waiting (t, answers, replied, stops, ends, late) p rest r' ps u waits goes
        took (inl at_rest) e =
      let (same, same_ps) = same_answer answer b t p rest r' ps answers replied waits goes took in
      same_ends b (to_sender s t (reply b)) u
        (e
          ∙ ap (λ x. record (resting s r') { to_sender = ps; receiver_waits = x }) at_rest
          ∙ ap (λ x. record (resting s x) { to_sender = ps }) same
          ∙ ap (λ x. record (resting s t) { to_sender = x }) same_ps)
        ends
  any_answer answer b waiting (t, answers, replied, stops, ends, late) p rest r' ps u waits goes
        took (inr (holds, over)) e =
      let (same, same_ps) = same_answer answer b t p rest r' ps answers replied waits goes took in
      let blocked : waiting ≡ not b = holds ∙ sym over ∙ ap (λ x. x.stopped) same ∙ stops in
      same_ends b (waiting_for b (to_sender s t (reply b))) u
        (e
          ∙ ap (λ x. record (resting s r') { to_sender = ps; receiver_waits = x }) blocked
          ∙ ap (λ x. record (resting s x) { to_sender = ps; receiver_waits = not b }) same
          ∙ ap (λ x. record (resting s t) { to_sender = x; receiver_waits = not b }) same_ps)
        late

  pub asked-ends : Inevitably job.env env (HasEnded Either) (resting s (asked r key clear))
  asked-ends =
      let w : System = resting s (asked r key clear) in
      let waits : r.offers ++ (clear ∷ []) ≡ clear ∷ [] = ap (λ x. x ++ (clear ∷ [])) l.no_offer in
      let (r', goes, replied, stops, ends, late) = answer_step-HasEnded [] in
      let running = o.running in
      let live : s.conn.alive ≡ true = ap (λ c. c.alive) o.conn in
      let on = l.running in
      let alive = l.alive in
      later (record (resting s r') { to_sender = reply (is_yes []) ∷ [] })
        (receiver_answers [] clear [] r' (reply (is_yes []) ∷ []) refl l.alive waits goes replied
          refl)
        (λ u step. elim step [
          | sender_takes q more t qs a b empty c d e ↦ absurd (nothing_waits q more empty)
          | sender_leaves t qs a over b c d e ↦ absurd cc
          | sender_exits a b c gone e ↦ absurd cc
          | sender_offers served t qs a b offering c d e ↦ absurd cc
          | receiver_takes q more t qs a b empty c d e ↦ absurd (nothing_waits q more empty)
          | receiver_answers answer q more t qs a b offers takes took e ↦
              any_answer answer (is_yes answer) false (answer_step-HasEnded answer) q more t qs u
                offers takes took (inl refl) e
          | receiver_leaves t qs a over at_rest b c d e ↦ absurd cc
          | receiver_exits a b c gone e ↦ absurd cc
          | receiver_answers_waiting answer q more t qs a b offers going takes over took e ↦
              any_answer answer (is_yes answer) true (answer_step-HasEnded answer) q more t qs u
                offers takes took (inr (refl, over)) e
          | receiver_takes_waiting q more t qs a late c d e f ↦ absurd cc
          | receiver_exits_waiting a late c d e ↦ absurd cc
        ])
