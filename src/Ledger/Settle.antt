-- ===== src/Ledger/Settle.antt =====
-- What one transaction does to the ledger, as a pure function of balances and nonces, and the
-- conditions under which `apply_transaction` of blockrock-core/src/blockchain.rs does it.
use block_rock.Base.{
  ◌+◌, ◌-◌, ◌≤◌, ◌<◌, ◌≡◌, ◌≢◌, ◌⊎◌, true, false, some, List, Str, ◌==◌, if◌then◌else◌, ok, get,
  get_or_zero, insert, member, set_insert, add_u64, checked_add, u64_mod, arith,
}
use block_rock.Crypto.{Crypto, VerifyingKey}
use block_rock.Transaction.{Transaction, has_valid_id, payload_within_limit, verify}
use block_rock.Ledger.{LedgerState, Keys, mint_account, apply_transaction}

-- The state after the sender has paid.
unfoldable pub debited : LedgerState → Transaction → LedgerState
debited state t = if t.sender == mint_account then state else record {
  balances = insert t.sender (get_or_zero t.sender state.balances - t.amount) state.balances;
  nonces = insert t.sender (add_u64 (get_or_zero t.sender state.nonces) 1) state.nonces;
}

-- The state after the receiver has been paid too.
unfoldable pub settled : LedgerState → Transaction → LedgerState
settled state t =
    let d = debited state t in
    record d {
      balances = insert t.receiver (get_or_zero t.receiver d.balances + t.amount) d.balances;
    }

module _ ⦃crypto : Crypto⦄ where
  -- The sender's signature, turn and funds.
  pub record Authorized (keys : Keys) (state : LedgerState) (t : Transaction) : Type 0 where
    pub key : VerifyingKey
    pub known : get t.sender keys ≡ some key
    pub signed : verify t key ≡ true
    pub in_turn : t.nonce ≡ get_or_zero t.sender state.nonces
    pub funded : t.amount ≤ get_or_zero t.sender state.balances

  pub record Admissible (keys : Keys) (state : LedgerState) (seen : List Str) (t : Transaction)
      : Type 0 where
    pub intact : has_valid_id t ≡ true
    pub fresh : member t.id seen ≡ false
    pub small : payload_within_limit t ≡ true
    pub authorized : (t.sender ≡ mint_account) ⊎ (t.sender ≢ mint_account) × Authorized keys state t
    pub room : get_or_zero t.receiver (debited state t).balances + t.amount < u64_mod

  module _ (keys : Keys) (state : LedgerState) (seen : List Str) (t : Transaction) where
    -- An admissible transaction is applied: the result is the settled state, with the id among those
    -- seen.
    pub apply_transaction_of_Admissible :
        Admissible keys state seen t
        → apply_transaction keys state seen t ≡ ok (settled state t, set_insert t.id seen)
    unfolding apply_transaction settled debited checked_add
    apply_transaction_of_Admissible a = ground arith

    -- A transaction that is applied is admissible, and the result is the settled state with its id
    -- among those seen.
    pub Admissible-of_apply_transaction :
        {r : LedgerState × List Str}
        → apply_transaction keys state seen t ≡ ok r
        → Admissible keys state seen t × (r ≡ (settled state t, set_insert t.id seen))
    unfolding apply_transaction settled debited checked_add
    Admissible-of_apply_transaction h = ground arith
