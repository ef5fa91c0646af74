-- ===== src/Mempool.antt =====
-- blockrock-core/src/mempool.rs: the pool of pending transactions. `queue` returns the new pool beside
-- the id; all of its checks come before it writes, so an error leaves the pool as it was.
pub mod Order
pub mod Turns
pub mod Queued
pub mod Ready
pub mod Drain
pub mod Unique
use Prim.Native.Nat.{compare, Ordering}
use block_rock.Base.{
  ℕ, ◌-◌, ◌*◌, Bool, true, false, not, List, [], ◌∷◌, Str, ◌==◌, leb, ltb, nat_eq, if◌then◌else◌,
  Result, ok, ◌>>=◌, ◌>>◌, guard, ok_or, Map, get, get_or_zero, contains_key, insert, values,
  length, add_u64,
}
use block_rock.Crypto.{Crypto}
use block_rock.Transaction.{
  Transaction, has_valid_id, payload_within_limit, payload_len, max_payload_bytes, verify, weight,
}
use block_rock.ChainError.{
  ChainError, duplicate_transaction, tampered_transaction, unknown_sender, invalid_signature,
  invalid_nonce, insufficient_funds, payload_too_large, mempool_full,
}
use block_rock.Ledger.{Keys}

abbrev pub seal_threshold_bytes : ℕ
seal_threshold_bytes = 64 * 1024

abbrev pub max_mempool_bytes : ℕ
max_mempool_bytes = 1024 * 1024

pub record Mempool : Type 0 where
  pub pending : Map Transaction
  pub bytes : ℕ

-- `Mempool::new()`
abbrev pub empty : Mempool
empty = record { pending = []; bytes = 0 }

unfoldable pub is_worth_sealing : Mempool → Bool
is_worth_sealing pool = leb seal_threshold_bytes pool.bytes

-- `Mempool::len`
unfoldable pub len : Mempool → ℕ
len pool = length pool.pending

-- `filter(|tx| tx.sender == sender)`
unfoldable pub from_sender : Str → List Transaction → List Transaction
from_sender sender [] = []
from_sender sender (t ∷ ts) =
    let rest = from_sender sender ts in if t.sender == sender then t ∷ rest else rest

-- `map(|tx| tx.amount).sum()` on u64
unfoldable pub sum_amounts : List Transaction → ℕ
sum_amounts [] = 0
sum_amounts (t ∷ ts) = add_u64 t.amount (sum_amounts ts)

unfoldable pub expected_nonce : Mempool → Map ℕ → Str → ℕ
expected_nonce pool nonces sender =
    add_u64 (get_or_zero sender nonces) (length (from_sender sender (values pool.pending)))

unfoldable pub available : Mempool → Map ℕ → Str → ℕ
available pool balances sender =
    get_or_zero sender balances - sum_amounts (from_sender sender (values pool.pending))

module _ ⦃crypto : Crypto⦄ where
  unfoldable pub queue :
      Mempool → Transaction → Keys → Map ℕ → Map ℕ → Bool → Result ChainError (Mempool × Str)
  unfolding expected_nonce available
  queue pool t public_keys balances nonces tx_exists_on_chain = do
    guard (has_valid_id t) (tampered_transaction t.id)
    guard (payload_within_limit t) (payload_too_large t.id (payload_len t) max_payload_bytes)
    guard (not tx_exists_on_chain) (duplicate_transaction t.id)
    guard (not (contains_key t.id pool.pending)) (duplicate_transaction t.id)
    public_key ← ok_or (get t.sender public_keys) (unknown_sender t.sender)
    guard (verify t public_key) (invalid_signature t.id)
    let expected = expected_nonce pool nonces t.sender
    guard (nat_eq t.nonce expected) (invalid_nonce t.sender expected t.nonce)
    let funds = available pool balances t.sender
    guard (not (ltb funds t.amount)) (insufficient_funds t.sender funds t.amount)
    let bytes = add_u64 pool.bytes (weight t)
    guard (not (ltb max_mempool_bytes bytes)) (mempool_full pool.bytes max_mempool_bytes)
    ok (record { pending = insert t.id t pool.pending; bytes = bytes }, t.id)

-- `Ordering::then_with`
abbrev pub then_with : Ordering → Ordering → Ordering
then_with Ordering.lt o = Ordering.lt
then_with Ordering.eq o = o
then_with Ordering.gt o = Ordering.gt

-- `str::cmp`: byte by byte, a proper prefix first.
unfoldable pub str_cmp : Str → Str → Ordering
str_cmp [] [] = Ordering.eq
str_cmp [] (b ∷ bs) = Ordering.lt
str_cmp (a ∷ as') [] = Ordering.gt
str_cmp (a ∷ as') (b ∷ bs) = then_with (compare a b) (str_cmp as' bs)

-- The comparison of `drain`: by sender, then by nonce.
unfoldable pub sender_nonce_cmp : Transaction → Transaction → Ordering
unfolding str_cmp
sender_nonce_cmp a b = then_with (str_cmp a.sender b.sender) (compare a.nonce b.nonce)

abbrev pub is_le : Ordering → Bool
is_le Ordering.gt = false
is_le _ = true

-- The stable `sort_by` of the standard library, as an insertion sort.
unfoldable pub insert_sorted : Transaction → List Transaction → List Transaction
unfolding sender_nonce_cmp
insert_sorted t [] = t ∷ []
insert_sorted t (u ∷ us) =
    if is_le (sender_nonce_cmp t u) then t ∷ u ∷ us else u ∷ insert_sorted t us

unfoldable pub sort : List Transaction → List Transaction
unfolding insert_sorted
sort [] = []
sort (t ∷ ts) = insert_sorted t (sort ts)

-- The drained transactions and the pool that is left.
unfoldable pub drain : Mempool → List Transaction × Mempool
unfolding sort
drain pool = (sort (values pool.pending), empty)
