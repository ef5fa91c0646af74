-- ===== src/ChainError.antt =====
-- `ChainError` of blockrock-core/src/blockchain.rs.
pub mod Display
use block_rock.Base.{ℕ, Str}

pub data ChainError : Type 0 where
  unauthorized_authority : Str → ChainError
  unknown_authority_key : Str → ChainError
  authority_key_mismatch : Str → ChainError
  unsealed_block : ℕ → ChainError
  invalid_seal : ℕ → ChainError
  -- expected, found
  wrong_index : ℕ → ℕ → ChainError
  broken_link : ℕ → ChainError
  corrupted_hash : ℕ → ChainError
  genesis_mismatch : ChainError
  duplicate_transaction : Str → ChainError
  tampered_transaction : Str → ChainError
  reserved_sender : Str → ChainError
  unknown_sender : Str → ChainError
  invalid_signature : Str → ChainError
  -- sender, expected, found
  invalid_nonce : Str → ℕ → ℕ → ChainError
  -- sender, balance, amount
  insufficient_funds : Str → ℕ → ℕ → ChainError
  balance_overflow : Str → ChainError
  -- id, size, max
  payload_too_large : Str → ℕ → ℕ → ChainError
  -- queued, max
  mempool_full : ℕ → ℕ → ChainError
