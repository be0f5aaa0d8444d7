-- ===== src/Base/Status.antt =====
-- src/status.h: the error codes, and results of the functions that return one of them negated.
use Prim.Native.Nat.{ℕ, ◌-◌, ◌^◌}

pub data Error : Type 0 where
  eio einvarg enomem ebadpath efsnotus erdonly eunimp eistkn einformat : Error

-- `err e` stands for the C result `-e`, which callers tell apart by its sign.
pub data Result {ℓ} (A : Type ℓ) : Type ℓ where
  ok : A → Result A
  err : Error → Result A

-- What a function returns: its value, or the 32-bit pattern of a negative number. Most of these are
-- error codes, but a cluster number from the disk may be negative too.
pub data Outcome (A : Type 0) : Type 0 where
  done : A → Outcome A
  failed : ℕ → Outcome A

abbrev pub code : Error → ℕ
code eio = 1
code einvarg = 2
code enomem = 3
code ebadpath = 4
code efsnotus = 5
code erdonly = 6
code eunimp = 7
code eistkn = 8
code einformat = 9

-- The pattern of `-e`.
abbrev pub minus : Error → ℕ
minus e = 2 ^ 32 - code e

abbrev pub fails : {A : Type 0} → Error → Outcome A
fails e = failed (minus e)
