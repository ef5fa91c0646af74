-- ===== src/Ledger/Value.antt =====
-- Where value goes: transfers conserve the sum of all balances, and only the mint account adds to it.
use block_rock.Base.{
  ℕ, suc, ◌+◌, ◌-◌, ◌<◌, ◌≡◌, List, [], ◌∷◌, Str, ◌==◌, if◌then◌else◌, ok, get_or_zero,
  get_or_zero-insert, set_insert, total, total-insert, add_u64, u64_mod, arith,
}
use block_rock.Crypto.{Crypto}
use block_rock.Transaction.{Transaction}
use block_rock.Block.{Block}
use block_rock.Ledger.{LedgerState, Keys, mint_account, apply_transaction, replay_from}
use block_rock.Ledger.Settle.{debited, settled, Admissible, Admissible-of_apply_transaction}
use block_rock.Ledger.Valid.{
  settled_all, noted_all, settled_chain, AllAdmissible, ValidFrom, valid_of_replay_from,
}

-- What a transaction creates.
unfoldable pub minted : Transaction → ℕ
minted t = if t.sender == mint_account then t.amount else 0

unfoldable pub minted_all : List Transaction → ℕ
minted_all [] = 0
minted_all (t ∷ ts) = minted t + minted_all ts

unfoldable pub minted_chain : List Block → ℕ
minted_chain [] = 0
minted_chain (b ∷ bs) = minted_all b.transactions + minted_chain bs

-- Every balance is a u64.
abbrev pub InRange : LedgerState → Type 0
InRange state = (account : Str) → get_or_zero account state.balances < u64_mod

module _ ⦃crypto : Crypto⦄ where
  pub total-settled :
      (keys : Keys) (state : LedgerState) (seen : List Str) (t : Transaction)
      → Admissible keys state seen t
      → total (settled state t).balances ≡ total state.balances + minted t
  unfolding settled debited minted
  total-settled keys state seen t a = ground (
    arith,
    total-insert t.sender (get_or_zero t.sender state.balances - t.amount) state.balances,
    total-insert t.receiver (get_or_zero t.receiver (debited state t).balances + t.amount)
        (debited state t).balances,
  )

  pub total-settled_all :
      (keys : Keys) (state : LedgerState) (seen : List Str) (ts : List Transaction)
      → AllAdmissible keys state seen ts
      → total (settled_all state ts).balances ≡ total state.balances + minted_all ts
  unfolding settled_all minted_all
  total-settled_all keys state seen [] a = omega arith
  total-settled_all keys state seen (t ∷ ts) a = omega (
    arith,
    total-settled keys state seen t a.0,
    total-settled_all keys (settled state t) (set_insert t.id seen) ts a.1,
  )

  total-settled_chain :
      (authorities : List Str) (keys : Keys) (index : ℕ) (previous : Str) (state : LedgerState)
      (seen : List Str) (bs : List Block)
      → ValidFrom authorities keys index previous state seen bs
      → total (settled_chain state bs).balances ≡ total state.balances + minted_chain bs
  unfolding settled_chain minted_chain
  total-settled_chain authorities keys index previous state seen [] v = omega arith
  total-settled_chain authorities keys index previous state seen (b ∷ bs) v = omega (
    arith,
    total-settled_all keys state seen b.transactions v.0.admissible,
    total-settled_chain authorities keys (suc index) b.hash (settled_all state b.transactions)
        (noted_all seen b.transactions) bs v.1,
  )

  -- A replay that succeeds ends with the sum of balances it began with, plus what the mint account
  -- sent in those blocks.
  pub replay_from_conserves :
      (authorities : List Str) (keys : Keys) (index : ℕ) (previous : Str) (state : LedgerState)
      (seen : List Str) (bs : List Block) {r : LedgerState × List Str}
      → replay_from authorities keys index previous state seen bs ≡ ok r
      → total r.0.balances ≡ total state.balances + minted_chain bs
  replay_from_conserves authorities keys index previous state seen bs h =
      let (v, e) = valid_of_replay_from authorities keys index previous state seen bs h in
      rw e (total-settled_chain authorities keys index previous state seen bs v)

  -- The exact effect of a transaction that is applied. The sender pays the amount and the receiver
  -- gets it (the mint account pays nothing, and a payment to oneself changes nothing), the
  -- sender's nonce advances by one, and every other account is as it was.
  pub apply_transaction_moves :
      (keys : Keys) (state : LedgerState) (seen : List Str) (t : Transaction) (account : Str)
      {r : LedgerState × List Str}
      → apply_transaction keys state seen t ≡ ok r
      → (get_or_zero account r.0.balances
            + (if t.sender == mint_account
                then 0
                else (if t.sender == account then t.amount else 0))
          ≡ get_or_zero account state.balances + (if t.receiver == account then t.amount else 0))
        × (get_or_zero account r.0.nonces ≡ (
            if t.sender == mint_account
            then get_or_zero account state.nonces
            else (if t.sender == account
                then add_u64 (get_or_zero account state.nonces) 1
                else get_or_zero account state.nonces)))
  unfolding settled debited
  apply_transaction_moves keys state seen t account {r} h =
      let (a, e) = Admissible-of_apply_transaction keys state seen t {r = r} h in
      ground (
        arith,
        get_or_zero-insert account t.sender (get_or_zero t.sender state.balances - t.amount)
            state.balances,
        get_or_zero-insert t.receiver t.sender (get_or_zero t.sender state.balances - t.amount)
            state.balances,
        get_or_zero-insert account t.sender (add_u64 (get_or_zero t.sender state.nonces) 1)
            state.nonces,
        get_or_zero-insert account t.receiver
            (get_or_zero t.receiver (debited state t).balances + t.amount)
            (debited state t).balances,
      )

  -- An applied transaction keeps every balance in the range of a u64.
  pub apply_transaction-InRange :
      (keys : Keys) (state : LedgerState) (seen : List Str) (t : Transaction)
      {r : LedgerState × List Str}
      → InRange state
      → apply_transaction keys state seen t ≡ ok r
      → InRange r.0
  unfolding settled debited
  apply_transaction-InRange keys state seen t {r} range h account =
      let (a, e) = Admissible-of_apply_transaction keys state seen t {r = r} h in
      ground (
        arith,
        range account,
        range t.sender,
        get_or_zero-insert account t.sender (get_or_zero t.sender state.balances - t.amount)
            state.balances,
        get_or_zero-insert account t.receiver
            (get_or_zero t.receiver (debited state t).balances + t.amount)
            (debited state t).balances,
      )
