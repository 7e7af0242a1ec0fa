-- ===== src/Node/Sender/AlreadyHave.antt =====
-- src/node/node.go, `send`: how ALREADYHAVE shortens the queue of files.
use ftu.Common.{
  ℕ, zero, suc, ◌+◌, ◌-◌, ◌%◌, ◌^◌, ◌≤◌, ◌<◌, ◌≡◌, refl, sym, subst, take-append_inside, ◌∙◌, ◌≢◌,
  Bool, false, some, List, [], ◌∷◌, ◌++◌, Bytes, length, take, drop, take_all, length-append,
  length-drop, get_elem?, get_elem?_inside, get_elem?_only, All, All-append, ne→==, ==_refl, ok,
  ◌>>=◌, arith, lt→ltb,
}
use ftu.Fsys.Disk.{File}
use ftu.Node.State.{SenderNode, positions}
use ftu.Node.Sender.{
  index, id_of, shift_down, Removal, remove_at, already_have_loop, on_already_have,
}
use ftu.Node.Sender.Queue.{HasIds, HasIds-id, IsQueue, length-positions}

-- A pointer to a file whose ID is another.
abbrev IsOther : List File → ℕ → ℕ → Type 0
IsOther fs id p = (f : File) × (get_elem? fs p ≡ some f) × (f.id ≢ id)

get_elem?-All {ℓ κ} :
    {A : Type ℓ} (P : A → Type κ) (xs : List A) (i : ℕ)
    → All P xs
    → i < length xs
    → (x : A) × (get_elem? xs i ≡ some x) × P x
get_elem?-All P [] i all h = absurd (omega arith)
get_elem?-All P (x ∷ xs) zero (holds, all) h = (x, refl, holds)
get_elem?-All P (x ∷ xs) (suc i) (holds, all) h = get_elem?-All P xs i all (omega arith)

-- The loop on files with other IDs changes nothing.
already_have_loop_others :
    (rounds i id : ℕ) (fs : List File) (r : Removal)
    → All (IsOther fs id) r.array
    → i + rounds ≤ length r.array
    → already_have_loop rounds i id fs r ≡ ok r
unfolding already_have_loop
already_have_loop_others zero i id fs r all h = refl
already_have_loop_others (suc rounds) i id fs r all h =
    let (p, at, (f, found, differs)) = get_elem?-All (IsOther fs id) r.array i all (omega arith) in
    rw (already_have_loop, index, ◌>>=◌, at, found, ne→== f.id id differs)
      (already_have_loop_others rounds (i + 1) id fs r all (omega arith))

module _ (fs : List File) (ids : HasIds 0 fs) where
  file_at : (p : ℕ) → p < length fs → (f : File) × (get_elem? fs p ≡ some f) × (f.id ≡ p)
  file_at p h =
      let (f, at) = get_elem?_inside fs p h in (f, at, HasIds-id 0 p p fs f ids at (omega arith))

  positions-IsOther :
      (id k m : ℕ) → id < k → k + m ≤ length fs → All (IsOther fs id) (positions k m)
  positions-IsOther id k zero before h = tt
  positions-IsOther id k (suc m) before h =
      let (f, at, same) = file_at k (omega arith) in
      (
        (f, at, λ e. absurd (omega arith)),
        positions-IsOther id (k + 1) m (omega arith) (omega arith),
      )

-- The last place of a queue stands in its tail.
All-drop {ℓ κ} : {A : Type ℓ} (P : A → Type κ) (n : ℕ) (xs : List A) → All P xs → All P (drop n xs)
All-drop P zero xs all = all
All-drop P (suc n) [] all = tt
All-drop P (suc n) (x ∷ xs) (holds, all) = All-drop P n xs all

-- A queue without its first file.
abbrev pub skip_current : SenderNode → File → SenderNode
skip_current n f = record n {
  sending = record n.sending {
    files_to_send =
        positions (n.sending.current_file_id + 1)
          (length n.files - (n.sending.current_file_id + 1));
    current_file_id = n.sending.current_file_id + 1;
    sent_bytes = (n.sending.sent_bytes + f.size) % 2 ^ 64;
    in_transfer = false;
  };
}

-- The array of a queue of `m + 1` files after its first was removed.
abbrev shifted : ℕ → ℕ → List ℕ
shifted k m = positions (k + 1) m ++ drop m (positions k (suc m))

shift_down-positions : (k m : ℕ) → shift_down (positions k (suc m)) (suc m) 0 ≡ shifted k m
shift_down-positions k m =
    let kept : take m (positions (k + 1) m) ≡ positions (k + 1) m =
      take_all m (positions (k + 1) m) (omega (arith, length-positions (k + 1) m)) in
    let minus : suc m - 1 ≡ m = omega arith in rw (minus, kept) refl

length-shifted : (k m : ℕ) → length (shifted k m) ≡ suc m
length-shifted k m = omega (
  arith,
  length-append (positions (k + 1) m) (drop m (positions k (suc m))),
  length-drop m (positions k (suc m)),
  length-positions k (suc m),
  length-positions (k + 1) m,
)

take-shifted : (k m : ℕ) → take m (shifted k m) ≡ positions (k + 1) m
take-shifted k m =
    let count = length-positions (k + 1) m in
    take-append_inside m (positions (k + 1) m) (drop m (positions k (suc m))) (omega arith)
    ∙ take_all m (positions (k + 1) m) (omega arith)

-- The rounds that follow the removal find no other file with the ID.
already_have_loop_rest :
    (fs : List File) (k m : ℕ) (r : Removal)
    → HasIds 0 fs
    → r.array ≡ shifted k m
    → k + suc m ≤ length fs
    → already_have_loop m 1 k fs r ≡ ok r
unfolding already_have_loop
already_have_loop_rest fs k zero r ids e within = refl
already_have_loop_rest fs k (suc m) r ids e within =
    let others = positions-IsOther fs ids k (k + 1) (suc m) (omega arith) (omega arith) in
    let all =
      All-append (IsOther fs k) (positions (k + 1) (suc m)) (drop m (positions (k + 1) (suc m)))
        others (All-drop (IsOther fs k) m (positions (k + 1) (suc m)) others) in
    already_have_loop_others (suc m) 1 k fs r (subst (All (IsOther fs k)) (sym e) all)
      (rw e (omega (arith, length-shifted k (suc m))))

-- The loop on a queue whose first file has the ID: that one is removed.
already_have_loop_first :
    (fs : List File) (f : File) (k m sent : ℕ) (busy : Bool)
    → HasIds 0 fs
    → get_elem? fs k ≡ some f
    → k + suc m ≤ length fs
    → length fs < 2 ^ 64
    → already_have_loop (suc m) 0 k fs (record {
      array = positions k (suc m);
      len = suc m;
      current_file_id = k;
      sent_bytes = sent;
      in_transfer = busy;
    })
      ≡ ok (record {
        array = shifted k m;
        len = m;
        current_file_id = (k + 1) % 2 ^ 64;
        sent_bytes = (sent + f.size) % 2 ^ 64;
        in_transfer = false;
      })
unfolding already_have_loop remove_at
already_have_loop_first fs f k m sent busy ids at within small =
    let same : f.id ≡ k = HasIds-id 0 k k fs f ids at (omega arith) in
    let minus : suc m - 1 ≡ m = omega arith in
    rw
      (
        already_have_loop,
        index,
        ◌>>=◌,
        at,
        same,
        ==_refl k,
        remove_at,
        lt→ltb 0 (suc m) (omega arith),
        shift_down-positions k m,
        minus,
      )
      (already_have_loop_rest fs k m
        (record {
          array = shifted k m;
          len = m;
          current_file_id = (k + 1) % 2 ^ 64;
          sent_bytes = (sent + f.size) % 2 ^ 64;
          in_transfer = false;
        })
        ids refl within)

-- The queue of `skip_current` is again the rest of the files.
skip_current-IsQueue :
    (n : SenderNode) (f : File)
    → IsQueue n
    → n.sending.current_file_id < length n.files
    → IsQueue (skip_current n f)
skip_current-IsQueue n f queue inside = record {
  ids = queue.ids;
  small = queue.small;
  within = omega arith;
  queued = refl;
}

-- Answering ALREADYHAVE for the current file removes that file alone from the queue: the node goes
-- on to the next, counts the size of the file as sent and is no longer in its transfer. What is
-- left is again a queue of the files from the current one on.
pub on_already_have-current :
    (n : SenderNode) (body : Bytes) (f : File)
    → IsQueue n
    → id_of body ≡ n.sending.current_file_id
    → get_elem? n.files n.sending.current_file_id ≡ some f
    → (on_already_have n body ≡ ok (skip_current n f)) × IsQueue (skip_current n f)
unfolding on_already_have
on_already_have-current n body f queue same at =
    let k = n.sending.current_file_id in
    let m = length n.files - (k + 1) in
    let inside : k < length n.files = get_elem?_only n.files k f at in
    let size : length n.files - k ≡ suc m = omega arith in
    let fits : (k + 1) % 2 ^ 64 ≡ k + 1 = omega (arith, queue.small) in
    (
      rw
          (
            queue.queued,
            size,
            length-positions k (suc m),
            same,
            already_have_loop_first n.files f k m n.sending.sent_bytes n.sending.in_transfer
                queue.ids at (omega arith) queue.small,
            fits,
            take-shifted k m,
          )
          refl,
      skip_current-IsQueue n f queue inside,
    )

-- An ALREADYHAVE for a file that already left the queue changes nothing.
on_already_have-past :
    (n : SenderNode) (body : Bytes)
    → IsQueue n
    → id_of body < n.sending.current_file_id
    → on_already_have n body ≡ ok n
unfolding on_already_have
on_already_have-past n body queue past =
    let k = n.sending.current_file_id in
    let m = length n.files - k in
    let others =
      positions-IsOther n.files queue.ids (id_of body) k m past (omega (arith, queue.within)) in
    let start : Removal = record {
      array = positions k m;
      len = length (positions k m);
      current_file_id = k;
      sent_bytes = n.sending.sent_bytes;
      in_transfer = n.sending.in_transfer;
    } in
    rw
      (
        queue.queued,
        already_have_loop_others (length (positions k m)) 0 (id_of body) n.files start others
            (omega arith),
        take_all (length (positions k m)) (positions k m) (omega arith),
      )
      refl
