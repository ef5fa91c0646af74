-- ===== src/Tests/DrainRuns.antt =====
-- A pool with two payments, in either order of its map.
use mathlib.Core.List.Perm
use block_rock.Base.{
  ◌≡◌, refl, ap, ◌∙◌, [], ◌∷◌, ok, codes, values, keys, Bytes-discrete, to_le_bytes, get,
  contains_key, insert, add_u64, get_or_zero, arith,
}
use block_rock.Transaction
use block_rock.Transaction.{Transaction}
use block_rock.Block
use block_rock.Ledger.{mint_account}
use block_rock.Mempool
use block_rock.Mempool.{Mempool, drain}
use block_rock.Mempool.Unique.{drain-order}
use block_rock.Blockchain
use block_rock.Blockchain.{
  Blockchain, queue_transaction, get_transaction, add_public_key, current_state,
}
use block_rock.Blockchain.Pool.{FitsMemory, queue_transaction-PoolInOrder, PoolInOrder}
use block_rock.Tests.Sample.{toy, alice, bob, value_of, start, genesis, payment, queued}
use block_rock.Tests.ChainRuns.{queued-Consistent, queued_in_order, queued_pending, queued-HasRoom}

unfoldable second : Transaction
second = Transaction.new alice bob 20 1 (codes "a")

unfoldable twice : Blockchain
unfolding queued second
twice = (value_of (queue_transaction queued second) (queued, [])).0

second_queued : queue_transaction queued second ≡ ok (twice, second.id)
unfolding queue_transaction start genesis queued payment second twice mint_account Mempool.queue
    Mempool.expected_nonce Mempool.available Mempool.from_sender Mempool.sum_amounts Transaction.new
    Transaction.new_with_payload Transaction.unsigned_with_payload Transaction.compute_id
    Transaction.has_valid_id Transaction.payload_within_limit Transaction.verify
    Transaction.signing_payload Transaction.canonical_bytes Transaction.prefixed Transaction.weight
    Transaction.payload_bytes add_public_key Blockchain.new Bytes-discrete get_transaction
    to_le_bytes get Block.with_timestamp contains_key insert add_u64 get_or_zero
second_queued = refl

second-FitsMemory : FitsMemory second
unfolding second Transaction.weight Transaction.new Transaction.new_with_payload
    Transaction.unsigned_with_payload Transaction.compute_id Transaction.canonical_bytes
    Transaction.prefixed Transaction.payload_bytes to_le_bytes add_u64
second-FitsMemory = omega arith

twice_in_order :
    PoolInOrder twice × (twice.mempool.pending ≡ (second.id, second) ∷ queued.mempool.pending)
twice_in_order =
    queue_transaction-PoolInOrder queued second {r = (twice, second.id)} queued-Consistent
      queued-HasRoom second-FitsMemory queued_in_order.0 second_queued

-- The same map, iterated in the other order.
abbrev turned : Mempool
turned = record {
  pending = (payment.id, payment) ∷ (second.id, second) ∷ [];
  bytes = twice.mempool.bytes;
}

twice_pending : values twice.mempool.pending ≡ second ∷ payment ∷ []
twice_pending = ap values (twice_in_order.1 ∙ ap (λ p. (second.id, second) ∷ p) queued_pending)

drain-order_example : drain turned ≡ drain twice.mempool
drain-order_example =
    drain-order twice.public_keys (current_state twice) (keys twice.transaction_index) twice.mempool
      turned twice_in_order.0 (rw twice_pending (Perm.swap second payment []))
