-- ===== src/Text/Unicode.antt =====
-- What the code takes from the package unicode of Go's standard library, on code points.
use issue.Base.{ℕ, Bool}

pub record Unicode : Type 0 where
  pub is_upper : ℕ → Bool
  pub is_lower : ℕ → Bool
  pub is_space : ℕ → Bool
  pub to_lower : ℕ → ℕ
