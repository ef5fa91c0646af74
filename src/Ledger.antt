-- ===== src/Ledger.antt =====
-- The replay core of blockrock-core/src/blockchain.rs: `LedgerState`, `apply_transaction`,
-- `verify_block` and the loop of `Blockchain::replay`. The `&mut` state and the set of seen ids are
-- passed along; on an error the callers drop their copies, so an error carries no state.
pub mod Settle
pub mod Valid
pub mod Value
pub mod Distinct
pub mod Trust
pub mod Append
use block_rock.Base.{
  ℕ, suc, ◌-◌, ◌%◌, Bool, true, false, not, Option, none, some, List, [], ◌∷◌, Str, codes, ◌==◌,
  leb, ltb, nat_eq, if◌then◌else◌, Result, ok, err, ◌>>=◌, ◌>>◌, guard, ok_or, is_some, Map, get,
  get_or_zero, insert, member, set_insert, add_u64, checked_add, u32_mod,
}
use block_rock.Crypto.{Crypto, VerifyingKey}
use block_rock.Transaction.{
  Transaction, has_valid_id, payload_within_limit, payload_len, max_payload_bytes, verify,
}
use block_rock.Block.{Block, is_hash_valid, verify_seal}
use block_rock.ChainError.{
  ChainError, unauthorized_authority, unknown_authority_key, unsealed_block, invalid_seal,
  wrong_index, broken_link, corrupted_hash, duplicate_transaction, tampered_transaction,
  unknown_sender, invalid_signature, invalid_nonce, insufficient_funds, balance_overflow,
  payload_too_large,
}

-- `MINT_ACCOUNT`. Shut: nothing but its identity matters to the proofs.
unfoldable pub mint_account : Str
mint_account = codes "System"

pub record LedgerState : Type 0 where
  pub balances : Map ℕ
  pub nonces : Map ℕ

abbrev pub Keys : Type 0
Keys = Map VerifyingKey

module _ ⦃crypto : Crypto⦄ where
  -- The branch of `apply_transaction` for a sender other than the mint account.
  unfoldable pub charge : Keys → LedgerState → Transaction → Result ChainError LedgerState
  charge public_keys state t = do
    key ← ok_or (get t.sender public_keys) (unknown_sender t.sender)
    guard (verify t key) (invalid_signature t.id)
    let expected = get_or_zero t.sender state.nonces
    guard (nat_eq t.nonce expected) (invalid_nonce t.sender expected t.nonce)
    let balance = get_or_zero t.sender state.balances
    guard (not (ltb balance t.amount)) (insufficient_funds t.sender balance t.amount)
    ok (record {
      balances = insert t.sender (balance - t.amount) state.balances;
      nonces = insert t.sender (add_u64 expected 1) state.nonces;
    })

  unfoldable pub credit : LedgerState → Transaction → Result ChainError LedgerState
  credit state t = do
    credited ←
        ok_or (checked_add (get_or_zero t.receiver state.balances) t.amount)
          (balance_overflow t.receiver)
    ok (record state { balances = insert t.receiver credited state.balances })

  unfoldable pub apply_transaction :
      Keys → LedgerState → List Str → Transaction → Result ChainError (LedgerState × List Str)
  unfolding charge credit
  apply_transaction public_keys state seen t = do
    guard (has_valid_id t) (tampered_transaction t.id)
    guard (not (member t.id seen)) (duplicate_transaction t.id)
    guard (payload_within_limit t) (payload_too_large t.id (payload_len t) max_payload_bytes)
    charged ← if t.sender == mint_account then ok state else charge public_keys state t
    credited ← credit charged t
    ok (credited, set_insert t.id seen)

  -- The `for` loop of `verify_block`.
  unfoldable pub apply_transactions :
      Keys → LedgerState → List Str → List Transaction → Result ChainError (LedgerState × List Str)
  apply_transactions public_keys state seen [] = ok (state, seen)
  apply_transactions public_keys state seen (t ∷ ts) =
      apply_transaction public_keys state seen t >>= λ r. apply_transactions public_keys r.0 r.1 ts

  -- The check of the seal, which every block but genesis needs.
  unfoldable pub check_sealer : List Str → Keys → Block → Result ChainError (Unit {0})
  check_sealer authorities public_keys block = do
    guard (member block.authority authorities) (unauthorized_authority block.authority)
    key ← ok_or (get block.authority public_keys) (unknown_authority_key block.authority)
    guard (is_some block.authority_signature) (unsealed_block block.index)
    guard (verify_seal block key) (invalid_seal block.index)

  unfoldable pub verify_block :
      List Str
      → Keys
      → Block
      → ℕ
      → Str
      → LedgerState
      → List Str
      → Result ChainError (LedgerState × List Str)
  unfolding check_sealer
  verify_block authorities public_keys block expected_index previous_hash state seen = do
    guard (nat_eq block.index expected_index) (wrong_index expected_index block.index)
    guard (block.previous_hash == previous_hash) (broken_link block.index)
    guard (is_hash_valid block) (corrupted_hash block.index)
    if ltb 0 block.index then check_sealer authorities public_keys block else ok tt
    apply_transactions public_keys state seen block.transactions

  -- The loop of `replay`, from the block at position `index` on.
  unfoldable pub replay_from :
      List Str
      → Keys
      → ℕ
      → Str
      → LedgerState
      → List Str
      → List Block
      → Result ChainError (LedgerState × List Str)
  replay_from authorities public_keys index previous_hash state seen [] = ok (state, seen)
  replay_from authorities public_keys index previous_hash state seen (b ∷ bs) =
      verify_block authorities public_keys b (index % u32_mod) previous_hash state seen >>= λ r.
      replay_from authorities public_keys (suc index) b.hash r.0 r.1 bs
