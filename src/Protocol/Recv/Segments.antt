-- ===== src/Protocol/Recv/Segments.antt =====
-- A packet is read whole however its bytes are cut into chunks.
use ftu.Common.{
  ℕ, zero, suc, ◌+◌, ◌-◌, ◌≤◌, ◌<◌, ◌≡◌, refl, sym, ap, ◌∙◌, List, [], ◌∷◌, ◌++◌, append-nil,
  append_assoc, Bytes, length, length-append, take, drop, length-take, ok, err, eof, unfinished,
  arith, take-append_inside, take-append_behind, take-append, drop-append, take_all, length-drop,
  drop-append_inside, drop-append_behind, take-take, drop-drop, dec_lt, take-nil, drop-nil, ◌⊎◌,
  inl, inr,
}
use ftu.Common.BigEndian.{IsU64, put_u64, read_u64, length-put_u64, read_u64-put_u64}
use ftu.Protocol.Recv.{unread, conn_read, read_full, buffer_size, read_loop, read_from_conn}

-- All bytes that have still to arrive.
abbrev pub pending : List Bytes → Bytes
pending [] = []
pending (c ∷ cs) = c ++ pending cs

pending-unread : (bs : Bytes) (cs : List Bytes) → pending (unread bs cs) ≡ bs ++ pending cs
pending-unread [] cs = refl
pending-unread (b ∷ bs) cs = refl

length-unread : (bs : Bytes) (cs : List Bytes) → length (unread bs cs) ≤ suc (length cs)
length-unread [] cs = omega arith
length-unread (b ∷ bs) cs = omega arith

-- `io.ReadFull` gets the first `n` bytes, or all of them if there are fewer.
read_full_lem :
    (n : ℕ) (cs : List Bytes)
    → ((read_full n cs).0 ≡ take n (pending cs))
      × (pending (read_full n cs).1 ≡ drop n (pending cs))
      × (length (read_full n cs).1 ≤ length cs)
unfolding read_full
read_full_lem n [] = (sym (take-nil n), sym (drop-nil n), omega arith)
read_full_lem n (c ∷ cs) = ground (
  arith,
  read_full_lem (n - length c) cs,
  take-append_inside n c (pending cs),
  take-append_behind n c (pending cs),
  drop-append_inside n c (pending cs),
  drop-append_behind n c (pending cs),
  pending-unread (drop n c) cs,
  length-unread (drop n c) cs,
)

-- What one `Read` takes is the next bytes, as many as the buffer holds at most; and it fills the
-- buffer or uses up a chunk.
record Progress (n : ℕ) (cs : List Bytes) (got : Bytes) (rest : List Bytes) : Type 0 where
  fits : length got ≤ n
  taken : got ≡ take (length got) (pending cs)
  left : pending rest ≡ drop (length got) (pending cs)
  chunks : length rest ≤ length cs
  moves : (length got ≡ n) ⊎ (length rest < length cs)

length-unread_nil : (bs : Bytes) (cs : List Bytes) → length bs ≡ 0 → unread bs cs ≡ cs
length-unread_nil [] cs h = refl
length-unread_nil (b ∷ bs) cs h = absurd (omega arith)

conn_read-Progress :
    (n : ℕ) (c : Bytes) (cs : List Bytes)
    → Progress n (c ∷ cs) (conn_read n (c ∷ cs)).0 (conn_read n (c ∷ cs)).1
unfolding conn_read
conn_read-Progress n c cs = elim (dec_lt (length c) n) [
  | yes short ↦
      rw
        (
          take_all n c (omega arith),
          length-unread_nil (drop n c) cs (omega (arith, length-drop n c)),
        )
        (record {
          fits = omega arith;
          taken = rw (take-append c (pending cs)) refl;
          left = rw (drop-append c (pending cs)) refl;
          chunks = omega arith;
          moves = inr (omega arith);
        })
  | no long ↦
      let e : length (take n c) ≡ n = omega (arith, length-take n c) in
      record {
        fits = omega arith;
        taken = rw (e, take-append_inside n c (pending cs) (omega arith)) refl;
        left =
            rw (e, pending-unread (drop n c) cs, drop-append_inside n c (pending cs) (omega arith))
              refl;
        chunks = length-unread (drop n c) cs;
        moves = inl e;
      }
]

-- One round of the loop.
read_loop_step :
    (fuel left : ℕ) (buffer : Bytes) (cs : List Bytes)
    → 0 < left
    → read_loop (suc fuel) left buffer cs
      ≡ read_loop fuel
          (left - length (conn_read (buffer_size left) cs).0)
          (buffer ++ (conn_read (buffer_size left) cs).0)
          ((conn_read (buffer_size left) cs).1)
unfolding read_loop
read_loop_step fuel left buffer cs h = ground arith

buffer_size_bounds : (left : ℕ) → 0 < left → (0 < buffer_size left) × (buffer_size left ≤ left)
buffer_size_bounds left h = ground arith

module _ (left : ℕ) (cs : List Bytes) (got : Bytes) (rest : List Bytes)
    (p : Progress (buffer_size left) cs got rest) (wants : 0 < left) where
  round_fuel : (fuel : ℕ) → left + length cs < suc fuel → left - length got + length rest < fuel
  round_fuel fuel h = elim p.moves [
    | inl full ↦ omega (arith, buffer_size_bounds left wants, p.chunks, p.fits)
    | inr used ↦ omega (arith, buffer_size_bounds left wants, p.chunks, p.fits)
  ]

  round_enough : left ≤ length (pending cs) → left - length got ≤ length (pending rest)
  round_enough h = omega (arith, ap length p.left, length-drop (length got) (pending cs))

  round_short : length (pending cs) < left → length (pending rest) < left - length got
  round_short h = omega (
    arith,
    ap length p.left,
    length-drop (length got) (pending cs),
    ap length p.taken,
    length-take (length got) (pending cs),
  )

  round_taken :
      (buffer : Bytes)
      → (buffer ++ got) ++ take (left - length got) (pending rest)
        ≡ buffer ++ take left (pending cs)
  round_taken buffer =
      append_assoc buffer got _
      ∙ ap (◌++◌ buffer) (
          ap (λ xs. got ++ take (left - length got) xs) p.left
          ∙ ap (λ xs. xs ++ take (left - length got) (drop (length got) (pending cs))) p.taken
          ∙ take-take (length got) (left - length got) left (pending cs)
              (omega (arith, buffer_size_bounds left wants, p.fits)))

  round_left : drop (left - length got) (pending rest) ≡ drop left (pending cs)
  round_left =
      ap (drop (left - length got)) p.left
      ∙ drop-drop (left - length got) (length got) left (pending cs)
          (omega (arith, buffer_size_bounds left wants, p.fits))

-- The loop collects the next `left` bytes, if that many arrive. A round for each byte and each
-- chunk is enough, and one more.
read_loop_lem :
    (fuel left : ℕ) (buffer : Bytes) (cs : List Bytes)
    → left ≤ length (pending cs)
    → left + length cs < fuel
    → (rest : List Bytes) × (read_loop fuel left buffer cs
        ≡ ok (buffer ++ take left (pending cs), rest))
      × (pending rest ≡ drop left (pending cs))
      × (length rest ≤ length cs)
unfolding read_loop
read_loop_lem zero left buffer cs enough fuelled = absurd (omega arith)
read_loop_lem (suc fuel) zero buffer cs enough fuelled = (cs, rw append-nil refl, refl, omega arith)
read_loop_lem (suc fuel) (suc left) buffer [] enough fuelled = absurd (omega arith)
read_loop_lem (suc fuel) (suc left) buffer (c ∷ cs) enough fuelled =
    let p = conn_read-Progress (buffer_size (suc left)) c cs in
    let got = (conn_read (buffer_size (suc left)) (c ∷ cs)).0 in
    let rest = (conn_read (buffer_size (suc left)) (c ∷ cs)).1 in
    let some_left : 0 < suc left = omega arith in
    let (end, runs, behind, chunks) =
      read_loop_lem fuel (suc left - length got) (buffer ++ got) rest
        (round_enough (suc left) (c ∷ cs) got rest p some_left enough)
        (round_fuel (suc left) (c ∷ cs) got rest p some_left fuel fuelled) in
    (
      end,
      read_loop_step fuel (suc left) buffer (c ∷ cs) some_left
          ∙ runs
          ∙ ap (λ bs. ok (bs, end)) (round_taken (suc left) (c ∷ cs) got rest p some_left buffer),
      behind ∙ round_left (suc left) (c ∷ cs) got rest p some_left,
      omega (arith, p.chunks),
    )

-- If the connection closes early, no number of rounds ends the loop.
read_loop_stuck :
    (fuel left : ℕ) (buffer : Bytes) (cs : List Bytes)
    → length (pending cs) < left
    → read_loop fuel left buffer cs ≡ unfinished
unfolding read_loop
read_loop_stuck zero left buffer cs short = refl
read_loop_stuck (suc fuel) left buffer [] short =
    read_loop_step fuel left buffer [] (omega arith)
    ∙ read_loop_stuck fuel (left - 0) (buffer ++ []) [] (omega arith)
read_loop_stuck (suc fuel) left buffer (c ∷ cs) short =
    let p = conn_read-Progress (buffer_size left) c cs in
    let got = (conn_read (buffer_size left) (c ∷ cs)).0 in
    let rest = (conn_read (buffer_size left) (c ∷ cs)).1 in
    let some_left : 0 < left = omega arith in
    read_loop_step fuel left buffer (c ∷ cs) some_left
    ∙ read_loop_stuck fuel (left - length got) (buffer ++ got) rest
        (round_short left (c ∷ cs) got rest p some_left short)

-- The size in front of a packet, and where the rest of the connection begins.
module _ (n : ℕ) (behind : Bytes) (cs : List Bytes)
    (arrives : pending cs ≡ put_u64 n ++ behind) where
  head-put_u64 : (read_full 8 cs).0 ≡ put_u64 n
  head-put_u64 =
      (read_full_lem 8 cs).0
      ∙ ap (take 8) arrives
      ∙ rw (← length-put_u64 n) (take-append (put_u64 n) behind)

  pending-read_full : pending (read_full 8 cs).1 ≡ behind
  pending-read_full =
      (read_full_lem 8 cs).1
      ∙ ap (drop 8) arrives
      ∙ rw (← length-put_u64 n) (drop-append (put_u64 n) behind)

  read_from_conn_head :
      (fuel : ℕ) → IsU64 n → read_from_conn fuel cs ≡ read_loop fuel n [] (read_full 8 cs).1
  unfolding read_from_conn
  read_from_conn_head fuel small =
      rw (head-put_u64, ← append-nil (put_u64 n), read_u64-put_u64 n [] small) refl

-- `ReadFromConn` returns the payload whose length stands in front of it, and leaves what follows,
-- however the bytes are cut into chunks. A round for each byte and each chunk is enough.
pub read_from_conn-frame :
    (payload back : Bytes) (cs : List Bytes) (fuel : ℕ)
    → IsU64 (length payload)
    → pending cs ≡ put_u64 (length payload) ++ (payload ++ back)
    → length payload + length cs < fuel
    → (rest : List Bytes) × (read_from_conn fuel cs ≡ ok (payload, rest))
      × (pending rest ≡ back)
      × (length rest ≤ length cs)
read_from_conn-frame payload back cs fuel small arrives fuelled =
    let behind = pending-read_full (length payload) (payload ++ back) cs arrives in
    let (rest, runs, left, chunks) =
      read_loop_lem fuel (length payload) [] (read_full 8 cs).1
        (omega (arith, ap length behind, length-append payload back))
        (omega (arith, (read_full_lem 8 cs).2)) in
    (
      rest,
      read_from_conn_head (length payload) (payload ++ back) cs arrives fuel small
          ∙ runs
          ∙ ap (λ bs. ok (bs, rest)) (ap (take (length payload)) behind ∙ take-append payload back),
      left ∙ ap (drop (length payload)) behind ∙ drop-append payload back,
      omega (arith, (read_full_lem 8 cs).2),
    )

-- If the peer closes the connection after the size of a packet and before its last byte,
-- `ReadFromConn` does not return: the loop runs on for ever, since the error of `Read` is dropped.
pub read_from_conn_closed :
    (n : ℕ) (behind : Bytes) (cs : List Bytes)
    → IsU64 n
    → pending cs ≡ put_u64 n ++ behind
    → length behind < n
    → (fuel : ℕ) → read_from_conn fuel cs ≡ unfinished
read_from_conn_closed n behind cs small arrives short fuel =
    read_from_conn_head n behind cs arrives fuel small
    ∙ read_loop_stuck fuel n [] (read_full 8 cs).1
        (omega (arith, ap length (pending-read_full n behind cs arrives)))

-- At the end of the input.
pub read_from_conn_end :
    (fuel : ℕ) (cs : List Bytes) → pending cs ≡ [] → read_from_conn fuel cs ≡ err eof
unfolding read_from_conn read_u64
read_from_conn_end fuel cs h = rw ((read_full_lem 8 cs).0, h) refl
