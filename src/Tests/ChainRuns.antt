-- ===== src/Tests/ChainRuns.antt =====
-- Runs of the chain's operations.
use block_rock.Base.{
  ℕ, ◌%◌, ◌≡◌, ◌<◌, ◌⊎◌, inl, refl, ap, ◌∙◌, ok, err, some, none, [], ◌∷◌, Str, Bytes-discrete,
  codes, to_le_bytes, get, contains_key, insert, add_u64, get_or_zero, get_or_zero-le-total, total,
  member, length, true, false, u64_mod, u32_mod, arith, set_insert,
}
use block_rock.Transaction
use block_rock.Transaction.{Transaction}
use block_rock.ChainError.{unauthorized_authority}
use block_rock.Block
use block_rock.Block.{Block}
use block_rock.Ledger.{mint_account}
use block_rock.Ledger.Valid.{settled_all, settled_chain}
use block_rock.Ledger.Distinct.{chain_ids}
use block_rock.Mempool
use block_rock.Mempool.{Mempool, drain, len, max_mempool_bytes}
use block_rock.Mempool.Queued.{total_weight}
use block_rock.Blockchain
use block_rock.Blockchain.{
  Blockchain, queue_transaction, add_public_key, get_transaction, current_state, validate_chain,
  seal_mempool, add_block, commit_block, try_append_block, reconcile_mempool, seal_batch,
}
use block_rock.Blockchain.Consistent.{Consistent, initial_state, queue_transaction-frame}
use block_rock.Blockchain.Reach.{
  Reach, Step, Unclaimed, new-Consistent, Step-Consistent, add_public_key-Consistent, Reach-new,
}
use block_rock.Blockchain.Lookup.{Stands, get_transaction_exact}
use block_rock.Blockchain.Pool.{
  FitsMemory, HasRoom, PoolInOrder, queue_transaction-PoolInOrder, reconcile_mempool-PoolInOrder,
}
use block_rock.Blockchain.Sealing.{
  CanSeal, next_block, Sealed, add_block_of_Admissible, seal_mempool_succeeds, seal_mempool_fails,
}
use block_rock.Tests.Sample.{toy, toy-SignsVerifiably, node, alice, start, genesis, payment, queued}

pub payment_queued : queue_transaction start payment ≡ ok (queued, payment.id)
unfolding queue_transaction start genesis queued payment mint_account Mempool.queue
    Mempool.expected_nonce Mempool.available Mempool.from_sender Mempool.sum_amounts Transaction.new
    Transaction.new_with_payload Transaction.unsigned_with_payload Transaction.compute_id
    Transaction.has_valid_id Transaction.payload_within_limit Transaction.verify
    Transaction.signing_payload Transaction.canonical_bytes Transaction.prefixed Transaction.weight
    Transaction.payload_bytes add_public_key Blockchain.new Bytes-discrete get_transaction
    to_le_bytes get Block.with_timestamp contains_key insert add_u64 get_or_zero
payment_queued = refl

alice-Unclaimed : Unclaimed genesis alice (codes "a")
unfolding genesis Blockchain.new insert get Block.with_timestamp Bytes-discrete
alice-Unclaimed = inl refl

reached : Reach (Blockchain.new node ((node, codes "n") ∷ [])) queued
unfolding genesis start
reached =
    Reach.next (Reach.next Reach.here (Step.learned alice (codes "a") alice-Unclaimed refl))
      (Step.queued payment payment.id payment_queued)

Reach-new_example :
    (validate_chain queued ≡ true)
    × (current_state queued ≡ settled_chain (initial_state queued) queued.blocks)
Reach-new_example = Reach-new node ((node, codes "n") ∷ []) reached

pub start-Consistent : Consistent start
unfolding start genesis
start-Consistent =
    add_public_key-Consistent genesis alice (codes "a") alice-Unclaimed
      (new-Consistent node ((node, codes "n") ∷ []))

pub queued-Consistent : Consistent queued
queued-Consistent = Step-Consistent (Step.queued payment payment.id payment_queued) start-Consistent

pub queued-frame : queued ≡ record start { mempool = queued.mempool }
queued-frame = queue_transaction-frame start payment payment_queued

pub start-CanSeal : CanSeal start node (codes "n")
unfolding start genesis Blockchain.new add_public_key insert get Block.with_timestamp member
    set_insert Bytes-discrete
start-CanSeal = record { listed = refl; registered = refl }

start_total : total start.balances < u64_mod
unfolding start genesis Blockchain.new add_public_key total Block.with_timestamp
start_total = omega arith

start_nonces : (s : Str) → get_or_zero s start.nonces ≡ 0
unfolding start genesis Blockchain.new add_public_key Block.with_timestamp get_or_zero get
start_nonces s = refl

start_pool : start.mempool ≡ Mempool.empty
unfolding start genesis Blockchain.new add_public_key Block.with_timestamp
start_pool = refl

start-HasRoom : HasRoom start 0
start-HasRoom = record {
  nonces = λ s. rw (start_nonces s, start_pool) (omega arith);
  balances = λ s. omega (arith, get_or_zero-le-total s start.balances, start_total);
}

pub payment-FitsMemory : FitsMemory payment
unfolding payment Transaction.weight Transaction.new Transaction.new_with_payload
    Transaction.unsigned_with_payload Transaction.compute_id Transaction.canonical_bytes
    Transaction.prefixed Transaction.payload_bytes to_le_bytes add_u64
payment-FitsMemory = omega arith

start-PoolInOrder : PoolInOrder start
unfolding total_weight
start-PoolInOrder =
    rw start_pool (record { queued = tt; keyed = refl; counted = refl; bounded = omega arith })

queue_transaction-PoolInOrder_example :
    PoolInOrder queued × (queued.mempool.pending ≡ (payment.id, payment) ∷ start.mempool.pending)
queue_transaction-PoolInOrder_example =
    queue_transaction-PoolInOrder start payment {r = (queued, payment.id)} start-Consistent
      start-HasRoom payment-FitsMemory start-PoolInOrder payment_queued

pub queued_in_order :
    PoolInOrder queued × (queued.mempool.pending ≡ (payment.id, payment) ∷ start.mempool.pending)
queued_in_order =
    queue_transaction-PoolInOrder start payment {r = (queued, payment.id)} start-Consistent
      start-HasRoom payment-FitsMemory start-PoolInOrder payment_queued

pub queued_pending : queued.mempool.pending ≡ (payment.id, payment) ∷ []
queued_pending =
    queued_in_order.1 ∙ ap (λ (p : Mempool). (payment.id, payment) ∷ p.pending) start_pool

pub queued_nonces : (s : Str) → get_or_zero s queued.nonces ≡ 0
queued_nonces s = ap (λ (x : Blockchain). get_or_zero s x.nonces) queued-frame ∙ start_nonces s

pub queued_total : total queued.balances < u64_mod
queued_total = rw (ap (λ (x : Blockchain). x.balances) queued-frame) start_total

pub queued-CanSeal : CanSeal queued node (codes "n")
queued-CanSeal = record {
  listed = ap (λ (x : Blockchain). member node x.authorities) queued-frame ∙ start-CanSeal.listed;
  registered =
      ap (λ (x : Blockchain). get node x.public_keys) queued-frame ∙ start-CanSeal.registered;
}

pub queued-HasRoom : HasRoom queued 0
queued-HasRoom = record {
  nonces = λ s. rw (queued_nonces s, queued_pending) (omega arith);
  balances = λ s. omega (arith, get_or_zero-le-total s queued.balances, queued_total);
}

reconcile_mempool-PoolInOrder_example : PoolInOrder (reconcile_mempool queued)
reconcile_mempool-PoolInOrder_example =
    reconcile_mempool-PoolInOrder queued queued-Consistent queued-HasRoom
      (rw queued_pending (payment-FitsMemory, tt))

seal_mempool_succeeds_example :
    (chain' : Blockchain) × (seal_mempool 7 queued node (codes "n")
      ≡ (chain', ok (some (length queued.blocks % u32_mod))))
    × Sealed 7 queued node (codes "n") chain'
seal_mempool_succeeds_example =
    seal_mempool_succeeds 7 queued node (codes "n") toy-SignsVerifiably queued-CanSeal
      queued_in_order.0 (λ s. rw (queued_nonces s, queued_pending) (omega arith)) queued_total
      (λ e. ground (arith, queued_pending))

alice_cannot_seal : (seal_mempool 7 queued alice (codes "a")).1 ≡ err (unauthorized_authority alice)
unfolding seal_mempool drain Mempool.sort Mempool.insert_sorted seal_batch add_block member
    set_insert queue_transaction start genesis queued payment mint_account Mempool.queue
    Mempool.expected_nonce Mempool.available Mempool.from_sender Mempool.sum_amounts Transaction.new
    Transaction.new_with_payload Transaction.unsigned_with_payload Transaction.compute_id
    Transaction.has_valid_id Transaction.payload_within_limit Transaction.verify
    Transaction.signing_payload Transaction.canonical_bytes Transaction.prefixed Transaction.weight
    Transaction.payload_bytes add_public_key Blockchain.new Bytes-discrete get_transaction
    to_le_bytes get Block.with_timestamp contains_key insert add_u64 get_or_zero
alice_cannot_seal = refl

seal_mempool_fails_example : (seal_mempool 7 queued alice (codes "a")).0 ≡ queued
seal_mempool_fails_example =
    seal_mempool_fails 7 queued alice (codes "a") (unauthorized_authority alice) alice_cannot_seal

empty_appended :
    try_append_block start (next_block 7 start [] node (codes "n"))
    ≡ ok (
        commit_block start
          (next_block 7 start [] node (codes "n"))
          (settled_all (current_state start) []))
unfolding add_block
empty_appended =
    let e : add_block 7 start [] node (codes "n")
        ≡ ok (
          commit_block start (next_block 7 start [] node (codes "n"))
              (settled_all (current_state start) []),
          length start.blocks % u32_mod,
        ) =
      add_block_of_Admissible 7 start [] node (codes "n") toy-SignsVerifiably start-CanSeal tt in
    ground arith

get_transaction_exact_example :
    ((i : ℕ) × (j : ℕ) × (b : Block) × (t : Transaction) × Stands start.blocks i j b t
      × (t.id ≡ codes "missing")
      × (get_transaction start (codes "missing") ≡ some t))
    ⊎ ((member (codes "missing") (chain_ids start.blocks) ≡ false)
        × (get_transaction start (codes "missing") ≡ none))
get_transaction_exact_example = get_transaction_exact start start-Consistent (codes "missing")
