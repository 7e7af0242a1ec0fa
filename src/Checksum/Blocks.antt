-- ===== src/Checksum/Blocks.antt =====
-- src/checksum/checksum.go: the blocks that the checksum of a large file is made of.
use ftu.Common.{
  ℕ, zero, suc, ◌+◌, ◌*◌, ◌≤◌, ◌≡◌, refl, ap, [], ◌++◌, append-nil, Bytes, le→ltb, length, take,
  drop, length-append, length-take, length-drop, arith,
}
use ftu.Checksum.{captured, get_partial_check_sum}

-- `chunks` blocks of 50 bytes, one every 300 bytes.
abbrev pub blocks : ℕ → ℕ → Bytes → Bytes
blocks zero start content = []
blocks (suc chunks) start content =
    take 50 (drop start content) ++ blocks chunks (start + 300) content

captured-blocks :
    (chunks start : ℕ) (content : Bytes)
    → start + 300 * chunks ≤ length content + 250
    → captured chunks start content ≡ blocks chunks start content
unfolding captured
captured-blocks zero start content inside = refl
captured-blocks (suc chunks) start content inside =
    let full : length (take 50 (drop start content)) ≡ 50 =
      omega (arith, length-take 50 (drop start content), length-drop start content) in
    let next : start + 50 + 250 ≡ start + 300 = omega arith in
    rw (captured, full, append-nil, next)
      (ap (◌++◌ (take 50 (drop start content)))
        (captured-blocks chunks (start + 300) content (omega arith)))

length-blocks :
    (chunks start : ℕ) (content : Bytes)
    → start + 300 * chunks ≤ length content + 250
    → length (blocks chunks start content) ≡ 50 * chunks
length-blocks zero start content inside = refl
length-blocks (suc chunks) start content inside =
    let rest = length-blocks chunks (start + 300) content (omega arith) in
    omega (
      arith,
      rest,
      length-append (take 50 (drop start content)) (blocks chunks (start + 300) content),
      length-take 50 (drop start content),
      length-drop start content,
    )

-- The checksum of a file of 14750 bytes or more is the sum of fifty blocks of 50 bytes, none of
-- them cut short, that begin every 300 bytes from its start.
pub get_partial_check_sum-blocks :
    (sha : Bytes → Bytes) (content : Bytes)
    → 14750 ≤ length content
    → (get_partial_check_sum sha content ≡ sha (blocks 50 0 content))
      × (length (blocks 50 0 content) ≡ 2500)
unfolding get_partial_check_sum
get_partial_check_sum-blocks sha content big = (
  rw (le→ltb (length content) 14750 big) (ap sha (captured-blocks 50 0 content (omega arith))),
  length-blocks 50 0 content (omega arith),
)
