-- ===== src/Tests/AnswerRuns.antt =====
-- A payment that reaches a node whose pool is full.
use block_rock.Base.{
  ◌≡◌, refl, true, none, [], codes, err, Bytes-discrete, to_le_bytes, get, contains_key, insert,
  add_u64, get_or_zero,
}
use block_rock.ChainError.{mempool_full}
use block_rock.Crypto.{Crypto}
use block_rock.Ledger.{mint_account}
use block_rock.Message.{chain_error}
use block_rock.Text.{trim, trim_start, trim_end, is_whitespace}
use block_rock.Transaction
use block_rock.Block
use block_rock.Mempool
use block_rock.Mempool.{max_mempool_bytes}
use block_rock.Blockchain
use block_rock.Blockchain.{queue_transaction, add_public_key, get_transaction}
use block_rock.Node.{Node, submit}
use block_rock.Rest.{SubmitTransaction, submit_transaction, submit_signed, queue_and_maybe_seal}
use block_rock.Rest.Answers.{Answered, submit_transaction-Answered}
use block_rock.Rest.Decoding.{full, decode_signature}
use block_rock.Tests.Sample.{toy, alice, bob, start, genesis}
use block_rock.Tests.NodeRuns.{fresh_node, identity}

-- Every signature verifies.
abbrev lenient : Crypto
lenient = record toy { verify = λ key message signature. true }

abbrev payment_request : SubmitTransaction
payment_request = record {
  sender = alice;
  receiver = bob;
  amount = 30;
  nonce = 0;
  signature = codes "ssssssssssssssssssssssssssssssssssssssssssssssssssssssssssssssss";
}

abbrev full_node : Node
full_node = record fresh_node {
  chain = record start { mempool = record { pending = []; bytes = max_mempool_bytes } };
}

pool_full :
    (submit_transaction ⦃crypto = lenient⦄ 7 none identity full_node payment_request).1
    ≡ err (full (chain_error (mempool_full max_mempool_bytes max_mempool_bytes)))
unfolding submit_transaction submit_signed queue_and_maybe_seal submit decode_signature trim
    trim_start trim_end is_whitespace queue_transaction start genesis mint_account Mempool.queue
    Mempool.expected_nonce Mempool.available Mempool.from_sender Mempool.sum_amounts
    Transaction.signed Transaction.signed_with_payload Transaction.unsigned_with_payload
    Transaction.compute_id Transaction.has_valid_id Transaction.payload_within_limit
    Transaction.verify Transaction.signing_payload Transaction.canonical_bytes Transaction.prefixed
    Transaction.weight Transaction.payload_bytes add_public_key Blockchain.new Bytes-discrete
    get_transaction to_le_bytes get Block.with_timestamp Block.calculate_hash Block.hashed_bytes
    contains_key insert add_u64 get_or_zero
pool_full = refl

submit_transaction-Answered_example :
    Answered ⦃crypto = lenient⦄ 7 none identity full_node payment_request
      (submit_transaction ⦃crypto = lenient⦄ 7 none identity full_node payment_request).1
      (submit_transaction ⦃crypto = lenient⦄ 7 none identity full_node payment_request).0
submit_transaction-Answered_example =
    submit_transaction-Answered ⦃crypto = lenient⦄ 7 none identity full_node payment_request
