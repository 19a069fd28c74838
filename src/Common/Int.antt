-- ===== src/Common/Int.antt =====
-- Signed numbers, `negsuc n` for -(n + 1).
use Prim.Native.Nat.{ℕ}
use mathlib.Core.Option.{Option, none, some}
use jd_shop_server.Common.Tests.{◌==◌, if◌then◌else◌}

pub data ℤ : Type 0 where
  pos : ℕ → ℤ
  negsuc : ℕ → ℤ

-- The number, if it is at least 1.
abbrev pub positive : Option ℤ → Option ℕ
positive none = none
positive (some (negsuc n)) = none
positive (some (pos n)) = if n == 0 then none else some n
