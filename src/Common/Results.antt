-- ===== src/Common/Results.antt =====
-- What a Go function returns: a value, an error, or a panic.
use mathlib.Core.Path.{◌≡◌, refl}

-- The errors that the program's functions return. The first two are those of `binary.Read` and of
-- `Read` at the end of the input; `os_error` stands for whatever a call into the system reports.
pub data Error : Type 0 where
  eof unexpected_eof : Error
  invalid_packet packet_too_big wrong_packet not_connected sent_all : Error
  bad_key could_not_decrypt : Error
  not_directory not_file not_symlink os_error : Error

-- `unfinished` is no Go value: a loop that is modelled on fuel ran out of it.
pub data Outcome {ℓ} (A : Type ℓ) : Type ℓ where
  ok : A → Outcome A
  err : Error → Outcome A
  panic : Outcome A
  unfinished : Outcome A

-- A chain of calls stops at the first that does not return a value.
infixl 5 ◌>>=◌ ◌>>◌
abbrev pub ◌>>=◌ {ℓ₁ ℓ₂} : {X : Type ℓ₁} {Y : Type ℓ₂} → Outcome X → (X → Outcome Y) → Outcome Y
panic >>= next = panic
unfinished >>= next = unfinished
err reason >>= next = err reason
ok value >>= next = next value

abbrev pub ◌>>◌ {ℓ₂} : {Y : Type ℓ₂} → Outcome (Unit {0}) → Outcome Y → Outcome Y
first >> second = first >>= λ _. second

-- The value that a chain which succeeds got from its first call.
pub >>=-eq-ok {ℓ₁ ℓ₂} :
    {X : Type ℓ₁} {Y : Type ℓ₂} (call : Outcome X) (next : X → Outcome Y) {y : Y}
    → (call >>= next) ≡ ok y
    → (x : X) × (call ≡ ok x) × (next x ≡ ok y)
>>=-eq-ok panic next h = cc
>>=-eq-ok unfinished next h = cc
>>=-eq-ok (err reason) next h = cc
>>=-eq-ok (ok value) next h = (value, refl, h)
