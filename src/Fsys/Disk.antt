-- ===== src/Fsys/Disk.antt =====
-- src/fsys/file.go, `File` with `Open` and `Close`, over a model of what `os` does with a disk.
use ftu.Common.{
  ℕ, ◌+◌, ◌-◌, Bool, Option, none, some, [], ◌++◌, Bytes, bytes_eq, if◌then◌else◌, length, take,
  drop, replicate, Outcome, ok, err, ◌>>=◌, os_error, eof, ltb, ◌≡◌, refl, ◌⊎◌, inl, inr,
  Bool-cases,
}

-- What stands at a path.
pub data Entry : Type 0 where
  regular : Bytes → Entry
  folder : Entry
  link : Bytes → Entry

abbrev pub Disk : Type 0
Disk = Bytes → Option Entry

abbrev pub update : Disk → Bytes → Option Entry → Disk
update d p e q = if bytes_eq p q then e else d q

-- The choices of the operating system: which calls fail, and where a path leads once the links in
-- it are followed.
pub record Os : Type 0 where
  pub resolve : Disk → Bytes → Bytes
  pub can_open : Disk → Bytes → Bool
  pub can_close : Bytes → Bool

-- `fsys.File`. A handle is the path at which `os.OpenFile` found the file.
pub record File : Type 0 where
  pub id : ℕ
  pub name : Bytes
  pub path : Bytes
  pub relative_parent_path : Bytes
  pub size : ℕ
  pub checksum : Bytes
  pub handler : Option Bytes
  pub sent_bytes : ℕ

-- `os.OpenFile` with `O_CREATE|O_RDWR`: a missing file is made, and a directory is refused.
open_entry : Option Entry → Bytes → Disk → Outcome (Bytes × Disk)
open_entry none p d = ok (p, update d p (some (regular [])))
open_entry (some (regular content)) p d = ok (p, d)
open_entry (some folder) p d = err os_error
open_entry (some (link target)) p d = err os_error

module _ (os : Os) where
  unfoldable pub open_file : Bytes → Disk → Outcome (Bytes × Disk)
  unfolding open_entry
  open_file path d =
      let p = os.resolve d path in if os.can_open d path then open_entry (d p) p d else err os_error

  -- `(*File).Close`, whose callers ignore the error: the handle is kept if closing fails.
  unfoldable pub close : File → File
  close file = elim file.handler [
    | none ↦ file
    | some h ↦ if os.can_close h then record file { handler = none } else file
  ]

  -- `(*File).Open`
  unfoldable pub open_handle : File → Disk → Outcome (File × Disk)
  unfolding open_file close
  open_handle file d =
      open_file file.path d >>= λ r. ok (record (close file) { handler = some r.0 }, r.1)

-- The bytes behind a handle.
unfoldable pub content_of : Option Entry → Bytes
content_of none = []
content_of (some (regular content)) = content
content_of (some folder) = []
content_of (some (link target)) = []

unfoldable pub content_at : Option Bytes → Disk → Bytes
unfolding content_of
content_at none d = []
content_at (some h) d = content_of (d h)

-- `(*os.File).ReadAt` of `n` bytes: fewer bytes than asked for come with `io.EOF`.
unfoldable pub read_at : Bytes → ℕ → ℕ → Outcome Bytes
read_at content offset n =
    let got = take n (drop offset content) in if ltb (length got) n then err eof else ok got

-- `(*os.File).WriteAt`: a gap before the offset is filled with zeros.
unfoldable pub write_at : Bytes → ℕ → Bytes → Bytes
write_at content offset new =
    take offset content
    ++ (replicate (offset - length content) 0 ++ (new ++ drop (offset + length new) content))

open_entry-cases :
    (e : Option Entry) (p : Bytes) (d : Disk)
    → (open_entry e p d ≡ err os_error) ⊎ ((r : Bytes × Disk) × (open_entry e p d ≡ ok r))
unfolding open_entry
open_entry-cases none p d = inr (_, refl)
open_entry-cases (some (regular content)) p d = inr (_, refl)
open_entry-cases (some folder) p d = inl refl
open_entry-cases (some (link target)) p d = inl refl

-- A file is opened, with a handle, or opening it is an error.
pub open_handle-cases :
    (os : Os) (f : File) (d : Disk)
    → (open_handle os f d ≡ err os_error)
      ⊎ ((h : Bytes) × (g : File) × (d' : Disk) × (open_handle os f d
            ≡ ok (record g { handler = some h }, d')))
unfolding open_handle open_file
open_handle-cases os f d = elim (Bool-cases (os.can_open d f.path)) [
  | inl can ↦ elim (open_entry-cases (d (os.resolve d f.path)) (os.resolve d f.path) d) [
    | inl e ↦ inl (rw (open_handle, open_file, can, e) refl)
    | inr ((h, d'), e) ↦ inr (h, close os f, d', rw (open_handle, open_file, can, e) refl)
  ]
  | inr cannot ↦ inl (rw (open_handle, open_file, cannot) refl)
]
