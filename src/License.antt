-- ===== src/License.antt =====
-- Licence keys in a partition's buffer (common/efx_lic.c): the key operations of efx_lic_ops_t, over
-- the buffer's type, since the formats of V1 and V2 count bytes and that of V3 dwords.
pub mod V1v2
pub mod V3
pub mod Keys
pub mod Layout
pub mod Delete
pub mod Write
mod Tests
use gld.Base.{ℕ, Bool, List, Option, Outcome}

-- `none` is B_FALSE; an offset comes with a length where the function returns both.
pub record KeyOps (B : Type 0) : Type 0 where
  pub find_start : B → (size : ℕ) → Outcome ℕ
  pub find_end : B → (size offset : ℕ) → Outcome ℕ
  pub find_key : B → (size offset : ℕ) → Outcome (Option (ℕ × ℕ))
  pub validate_key : List ℕ → Outcome Bool
  pub read_key : B → (size offset len key_max_size : ℕ) → Outcome (List ℕ)
  pub write_key : B → (size offset : ℕ) → List ℕ → Outcome (B × ℕ)
  pub delete_key : B → (size offset len end : ℕ) → Outcome (B × ℕ)
  pub create_partition : B → (size : ℕ) → Outcome B
  pub finish_partition : B → (size : ℕ) → Outcome B
