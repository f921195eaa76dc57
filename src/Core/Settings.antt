-- ===== src/Core/Settings.antt =====
-- The enumerations of routecraft_core/verification.py.
pub data Setting : Type 0 where
  auto_min none min strict release : Setting

pub data VerificationBudget : Type 0 where
  none min strict release : VerificationBudget
