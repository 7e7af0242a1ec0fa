-- ===== src/Node/Receiving/Writing.antt =====
-- src/node/node.go, `receive`: one file while its pieces are written behind each other.
use mathlib.Core.Path.{fun_ext}
use ftu.Common.{
  Bool-cases, inl, inr, ap, ◌∙◌, bytes_eq, Option, ℕ, ◌+◌, ◌-◌, ◌%◌, ◌^◌, ◌<◌, ◌≡◌, refl, sym, ◌≢◌,
  true, none, some, List, [], ◌∷◌, ◌++◌, append-nil, Bytes, bytes_eq_refl, ne→==, ==_refl, ◌==◌,
  lt→ltb, length, take_all, drop_all, length-append, All, ok, ◌>>=◌, arith,
}
use ftu.Checksum.{check_sum_of}
use ftu.Fsys.Disk.{
  Disk, Entry, regular, File, open_file, open_handle, close, content_of, content_at, write_at,
  update,
}
use ftu.Node.Sender.{or_panic}
use ftu.Node.Receiver.{Surroundings}
use ftu.Node.Receiving.{
  with_handle, write_handle, write_piece, write_pieces, end_accepted, end_loop,
}

-- A write at the end of a file lengthens it.
write_at_end : (content new : Bytes) → write_at content (length content) new ≡ content ++ new
unfolding write_at
write_at_end content new =
    let none_missing : length content - length content ≡ 0 = omega arith in
    rw
      (
        none_missing,
        take_all (length content) content (omega arith),
        drop_all (length content + length new) content (omega arith),
        append-nil,
      )
      refl

update-same : (d : Disk) (p : Bytes) (e : Entry) → update d p (some e) p ≡ some e
update-same d p e = rw (bytes_eq_refl p) refl

-- What was written last at a path is what stands there.
update-twice :
    (d : Disk) (p : Bytes) (a b : Option Entry) → update (update d p a) p b ≡ update d p b
update-twice d p a b =
    fun_ext (λ q. elim (Bool-cases (bytes_eq p q)) [
      | inl here ↦ rw here refl
      | inr there ↦ rw there refl
    ])

-- Once it is open, the file has this handle; behind the handle stand the bytes so far, and the next
-- go behind them; nothing else on the disk has changed.
pub record IsOpened (base : Disk) (g : File) (e : Disk) (h sofar : Bytes) : Type 0 where
  pub handler : g.handler ≡ some h
  pub sent_bytes : g.sent_bytes ≡ length sofar
  pub disk : e ≡ update base h (some (regular sofar))

found_there :
    (base e : Disk) (h sofar : Bytes)
    → e ≡ update base h (some (regular sofar))
    → e h ≡ some (regular sofar)
found_there base e h sofar same = ap (λ d. d h) same ∙ update-same base h (regular sofar)

module _ (env : Surroundings) where
  abbrev pub IsWritable : Disk → File → Disk → Bytes → Bytes → Type 0
  IsWritable base f d h sofar =
      (g : File) × (e : Disk) × (with_handle env f d ≡ ok (g, e))
      × (g.id ≡ f.id)
      × IsOpened base g e h sofar

  opened-IsWritable :
      (base : Disk) (g : File) (e : Disk) (h sofar : Bytes)
      → IsOpened base g e h sofar
      → IsWritable base g e h sofar
  unfolding with_handle
  opened-IsWritable base g e h sofar o = (g, e, rw o.handler refl, refl, o)

  -- A new file is writable where nothing stands yet.
  pub new-IsWritable :
      (f : File) (d : Disk)
      → f.handler ≡ none
      → f.sent_bytes ≡ 0
      → env.os.can_open d f.path ≡ true
      → d (env.os.resolve d f.path) ≡ none
      → IsWritable d f d (env.os.resolve d f.path) []
  unfolding with_handle open_handle open_file close
  new-IsWritable f d closed fresh can missing =
      let h = env.os.resolve d f.path in
      (
        record f { handler = some h },
        update d h (some (regular [])),
        rw (closed, or_panic, open_handle, ◌>>=◌, open_file, can, missing, close) refl,
        refl,
        record { handler = refl; sent_bytes = fresh; disk = refl },
      )

  module _ (h : Bytes) (writable : (d : Disk) → env.can_write d h ≡ true) where
    write_handle_end :
        (base d : Disk) (sofar bytes : Bytes)
        → d ≡ update base h (some (regular sofar))
        → length sofar + length bytes < 2 ^ 63
        → (e : Disk) × (write_handle env (some h) (length sofar) bytes d ≡ ok e)
          × (e ≡ update base h (some (regular (sofar ++ bytes))))
    unfolding write_handle content_at content_of
    write_handle_end base d sofar [] same small =
        (d, rw (lt→ltb (length sofar) (2 ^ 63) (omega arith)) refl, rw append-nil same)
    write_handle_end base d sofar (b ∷ bs) same small =
        let inside = lt→ltb (length sofar) (2 ^ 63) (omega arith) in
        let found = found_there base d h sofar same in
        let new : Option Entry = some (regular (sofar ++ (b ∷ bs))) in
        (
          update d h new,
          rw (inside, writable d, found, write_at_end sofar (b ∷ bs)) refl,
          ap (λ x. update x h new) same ∙ update-twice base h (some (regular sofar)) new,
        )

    pub write_piece-IsWritable :
        (base : Disk) (f : File) (d : Disk) (sofar bytes : Bytes)
        → IsWritable base f d h sofar
        → length sofar + length bytes < 2 ^ 63
        → (g : File) × (e : Disk) × (write_piece env bytes f d ≡ ok (g, e))
          × (g.id ≡ f.id)
          × IsWritable base g e h (sofar ++ bytes)
    unfolding write_piece
    write_piece-IsWritable base f d sofar bytes (f', d', opens, same, o) small =
        let fits : (length sofar + length bytes) % 2 ^ 64 ≡ length sofar + length bytes =
          omega arith in
        let (e, writes, found) = write_handle_end base d' sofar bytes o.disk small in
        let g : File = record f' { sent_bytes = length sofar + length bytes } in
        (
          g,
          e,
          rw (write_piece, ◌>>=◌, opens, o.handler, o.sent_bytes, writes, fits) refl,
          same,
          opened-IsWritable base g e h (sofar ++ bytes) (record {
            handler = o.handler;
            sent_bytes = sym (length-append sofar bytes);
            disk = found;
          }),
        )

    -- The loop over the pool changes only the file with the ID.
    write_pieces_others :
        (id : ℕ) (bytes : Bytes) (fs : List File) (d : Disk) (received : ℕ)
        → All (λ f. f.id ≢ id) fs
        → write_pieces env id bytes fs d received ≡ ok (fs, d, received)
    unfolding write_pieces
    write_pieces_others id bytes [] d received others = refl
    write_pieces_others id bytes (f ∷ fs) d received (other, others) =
        rw
          (
            write_pieces,
            ◌>>=◌,
            ne→== f.id id other,
            write_pieces_others id bytes fs d received others,
          )
          refl

    pub write_pieces-one :
        (id : ℕ) (bytes : Bytes) (front back : List File) (f g : File) (d e : Disk) (received : ℕ)
        → All (λ f. f.id ≢ id) front
        → All (λ f. f.id ≢ id) back
        → f.id ≡ id
        → write_piece env bytes f d ≡ ok (g, e)
        → write_pieces env id bytes (front ++ (f ∷ back)) d received
          ≡ ok (front ++ (g ∷ back), e, (received + length bytes) % 2 ^ 64)
    unfolding write_pieces
    write_pieces-one id bytes [] back f g d e received none_before others same writes =
        let hit : (f.id == id) ≡ true = rw same (==_refl id) in
        rw
          (
            write_pieces,
            ◌>>=◌,
            hit,
            writes,
            write_pieces_others id bytes back e ((received + length bytes) % 2 ^ 64) others,
          )
          refl
    write_pieces-one id bytes (x ∷ front) back f g d e received (other, before) others same writes =
        rw
          (
            write_pieces,
            ◌>>=◌,
            ne→== x.id id other,
            write_pieces-one id bytes front back f g d e received before others same writes,
          )
          refl

    -- The end of the file: it leaves the pool, and its bytes stay.
    pub end_loop-one :
        (base : Disk) (id : ℕ) (front back : List File) (f : File) (d : Disk) (sofar : Bytes)
        → All (λ f. f.id ≢ id) front
        → f.id ≡ id
        → IsWritable base f d h sofar
        → (e : Disk) × (end_loop env id (front ++ (f ∷ back)) d ≡ ok (front ++ back, e))
          × (e ≡ update base h (some (regular sofar)))
    unfolding end_loop end_accepted check_sum_of
    end_loop-one base id [] back f d sofar none_before same (g, e, opens, kept, o) =
        let hit : (f.id == id) ≡ true = rw same (==_refl id) in
        (
          e,
          rw
              (
                end_loop,
                ◌>>=◌,
                or_panic,
                hit,
                end_accepted,
                opens,
                o.handler,
                check_sum_of,
                found_there base e h sofar o.disk,
              )
              refl,
          o.disk,
        )
    end_loop-one base id (x ∷ front) back f d sofar (other, before) same writable =
        let (e, ends, found) = end_loop-one base id front back f d sofar before same writable in
        (e, rw (end_loop, ◌>>=◌, ne→== x.id id other, ends) refl, found)
