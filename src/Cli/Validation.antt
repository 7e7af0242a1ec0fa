-- ===== src/Cli/Validation.antt =====
-- src/main.go: which flags let the program go on, and the node that is made of them.
use ftu.Common.{
  Bool, true, false, [], ◌∷◌, Bytes, bytes_eq, bytes_eq→eq, ◌≡◌, ◌≢◌, ◌↔◌, refl, arith,
}
use ftu.Cli.{Flags, goes_on, validate}

-- Neither text is asked for, and exactly one of -s and -a is given: -s by a sender, -a by a
-- receiver.
abbrev pub IsFor : Bool → Flags → Type 0
IsFor true f =
    (f.print_version ≡ false) × (f.print_license ≡ false) × (f.send ≢ []) × (f.address ≡ [])
IsFor false f =
    (f.print_version ≡ false) × (f.print_license ≡ false) × (f.send ≡ []) × (f.address ≢ [])

is_empty→eq : (s : Bytes) → bytes_eq s [] ≡ true → s ≡ []
is_empty→eq s e = bytes_eq→eq s [] e

not_empty : (s : Bytes) → bytes_eq s [] ≡ false → s ≢ []
unfolding bytes_eq
not_empty [] e = cc
not_empty (b ∷ bs) e = λ h. cc

empty-bytes_eq : (s : Bytes) → s ≡ [] → bytes_eq s [] ≡ true
unfolding bytes_eq
empty-bytes_eq [] e = refl
empty-bytes_eq (b ∷ bs) e = cc

full-bytes_eq : (s : Bytes) → s ≢ [] → bytes_eq s [] ≡ false
unfolding bytes_eq
full-bytes_eq [] e = absurd (e refl)
full-bytes_eq (b ∷ bs) e = refl

validate-IsFor : (f : Flags) (b : Bool) → validate f ≡ goes_on b → IsFor b f
unfolding validate
validate-IsFor f true goes = (
  ground arith,
  ground arith,
  not_empty f.send (ground arith),
  is_empty→eq f.address (ground arith),
)
validate-IsFor f false goes = (
  ground arith,
  ground arith,
  is_empty→eq f.send (ground arith),
  not_empty f.address (ground arith),
)

-- The flags let the program go on, as a sender or as a receiver, just if they are for that: no text
-- is asked for, and exactly one of -s and -a is given. The other flags do not matter, -d among
-- them, also where -s is given.
pub validate-goes_on : (f : Flags) (b : Bool) → (validate f ≡ goes_on b) ↔ IsFor b f
unfolding validate
validate-goes_on f true = (
  validate-IsFor f true,
  λ (v, l, s, a). rw (validate, v, l, full-bytes_eq f.send s, empty-bytes_eq f.address a) refl,
)
validate-goes_on f false = (
  validate-IsFor f false,
  λ (v, l, s, a). rw (validate, v, l, full-bytes_eq f.address a, empty-bytes_eq f.send s) refl,
)
