-- ===== src/Domain/Int.antt =====
-- Exit codes are signed: -1 stands for a process that never ran.
use cyber_foreman.Prelude.{ℕ, zero, suc, Bool, true, false}

-- `negsuc n` is -(n + 1).
pub data ℤ : Type 0 where
  pos : ℕ → ℤ
  negsuc : ℕ → ℤ

abbrev pub is_zero_ℤ : ℤ → Bool
is_zero_ℤ (pos zero) = true
is_zero_ℤ (pos (suc n)) = false
is_zero_ℤ (negsuc n) = false
