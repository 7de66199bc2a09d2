-- ===== src/Base/Time.antt =====
-- `std::time::Duration`: whole seconds and nanoseconds below one second.
use Prim.Native.Nat.{ℕ}
use mathlib.Core.Bool.{Bool, ◌&&◌}
use paratro_sdk_rust.Base.Tests.{◌==◌}

pub record Duration : Type 0 where
  pub secs : ℕ
  pub nanos : ℕ

abbrev pub from_secs : ℕ → Duration
from_secs n = record { secs = n; nanos = 0 }

-- `is_zero()`
abbrev pub is_zero : Duration → Bool
is_zero d = d.secs == 0 && d.nanos == 0

-- `as_secs()` drops the fraction
abbrev pub as_secs : Duration → ℕ
as_secs d = d.secs
