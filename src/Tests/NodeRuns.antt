-- ===== src/Tests/NodeRuns.antt =====
-- Runs of a node's submissions and of its peers' transactions.
use block_rock.Base.{
  true, false, ◌⊎◌, ◌≡◌, inl, refl, ok, err, none, some, [], codes, Bytes-discrete, to_le_bytes,
  get, contains_key, insert, add_u64, get_or_zero, arith,
}
use block_rock.ChainError.{genesis_mismatch}
use block_rock.Transaction
use block_rock.Transaction.{Transaction}
use block_rock.Block
use block_rock.Mempool
use block_rock.Ledger.{mint_account}
use block_rock.Blockchain
use block_rock.Blockchain.{
  Blockchain, add_public_key, queue_transaction, get_transaction, genesis_hash, public_key,
}
use block_rock.Blockchain.Consistent.{Consistent}
use block_rock.Gossip.{TransactionAnnouncement, accepted, admit}
use block_rock.Gossip
use block_rock.Gossip.Admission.{Admitted, apply_transaction_atomic, apply_transaction_accepted}
use block_rock.Node.{Node, NodeIdentity, rejected, submit}
use block_rock.Message.{mints_value, signature_length, message_text}
use block_rock.Node.Submission.{WrittenThrough, submit-WrittenThrough, submit_refused}
use block_rock.Storage.{Json, Disk, Failure, save_to_file, load_from_file}
use block_rock.Storage.Reload.{load-save_to_file}
use block_rock.Ledger.Trust.{Extends}
use block_rock.Rest.{
  RegisterAccount, SubmitTransaction, register_account, submit_transaction, submit_signed,
}
use block_rock.Rest.Decoding.{refused, respond_to, decode_signature}
use block_rock.Text.{trim, trim_start, trim_end, is_whitespace}
use block_rock.Rest.Accounts.{register_account-first}
use block_rock.Tests.Sample.{bob, alice, toy, node, start, genesis, payment}
use block_rock.Tests.ChainRuns.{start-Consistent}

-- Alice's payment as a peer passes it on, and as a peer of another chain does.
unfoldable gossiped : TransactionAnnouncement
gossiped = record {
  genesis_hash = (Block.with_timestamp 0 [] (codes "0") node 0).hash;
  transaction = payment;
  sender_key = codes "a";
}

unfoldable foreign : TransactionAnnouncement
foreign = record { genesis_hash = []; transaction = payment; sender_key = codes "a" }

gossiped_accepted : (Gossip.apply_transaction start gossiped).1 ≡ ok accepted
unfolding Gossip.apply_transaction admit gossiped genesis_hash public_key queue_transaction start
    genesis payment mint_account Mempool.queue Mempool.expected_nonce Mempool.available
    Mempool.from_sender Mempool.sum_amounts Transaction.new Transaction.new_with_payload
    Transaction.unsigned_with_payload Transaction.compute_id Transaction.has_valid_id
    Transaction.payload_within_limit Transaction.verify Transaction.signing_payload
    Transaction.canonical_bytes Transaction.prefixed Transaction.weight Transaction.payload_bytes
    add_public_key Blockchain.new Bytes-discrete get_transaction to_le_bytes get
    Block.with_timestamp Block.calculate_hash Block.hashed_bytes contains_key insert add_u64
    get_or_zero
gossiped_accepted = refl

foreign_refused : (Gossip.apply_transaction start foreign).1 ≡ err genesis_mismatch
unfolding Gossip.apply_transaction foreign genesis_hash start genesis add_public_key Blockchain.new
    Block.with_timestamp Block.calculate_hash Block.hashed_bytes to_le_bytes Bytes-discrete
foreign_refused = refl

apply_transaction_atomic_example : (Gossip.apply_transaction start foreign).0 ≡ start
apply_transaction_atomic_example =
    apply_transaction_atomic start foreign (λ e. ground (arith, foreign_refused))

apply_transaction_accepted_example :
    Admitted start
      (Gossip.apply_transaction start gossiped).0
      gossiped.transaction.sender
      gossiped.sender_key
apply_transaction_accepted_example = apply_transaction_accepted start gossiped gossiped_accepted

abbrev pub fresh_node : Node
fresh_node = record { chain = start; stored = none; announced = [] }

abbrev pub identity : NodeIdentity
identity = record { name = node; signing_key = codes "n" }

-- A payment that claims to come from the mint account.
abbrev forged : Transaction
forged = record payment { sender = codes "System" }

forged_rejected : (submit 7 none identity fresh_node forged).1 ≡ err (rejected mints_value)
unfolding submit mint_account Bytes-discrete
forged_rejected = refl

submit-WrittenThrough_example :
    WrittenThrough fresh_node (submit 7 none identity fresh_node payment).0
submit-WrittenThrough_example = submit-WrittenThrough 7 none identity fresh_node payment

submit_refused_example : (submit 7 none identity fresh_node forged).0 ≡ fresh_node
submit_refused_example =
    submit_refused 7 none identity fresh_node forged mints_value (inl forged_rejected)

-- A format for `start` alone.
abbrev start_json : Json
start_json = record {
  to_string = λ chain. some (codes "start");
  from_str = λ text. some (record start { transaction_index = []; mempool = Mempool.empty });
}

abbrev blank : Disk
blank = record { file = none; temporary = none }

load-save_to_file_example :
    (((save_to_file start_json Failure.never blank start).1 ≡ false)
      × (load_from_file start_json (save_to_file start_json Failure.never blank start).0
          ≡ load_from_file start_json blank))
    ⊎ (((save_to_file start_json Failure.never blank start).1 ≡ true)
        × (load_from_file start_json (save_to_file start_json Failure.never blank start).0
            ≡ some (record start { mempool = Mempool.empty })))
load-save_to_file_example =
    load-save_to_file start_json Failure.never blank start (λ text e. refl) start-Consistent

abbrev registration : RegisterAccount
registration = record { name = bob; public_key = codes "bbbbbbbbbbbbbbbbbbbbbbbbbbbbbbbb" }

register_account-first_example :
    Extends fresh_node.chain.public_keys
      (register_account none fresh_node registration).0.chain.public_keys
    × Consistent (register_account none fresh_node registration).0.chain
register_account-first_example =
    register_account-first none fresh_node registration start-Consistent

-- A submission whose signature is too short.
abbrev unreadable : SubmitTransaction
unreadable = record {
  sender = alice;
  receiver = bob;
  amount = 30;
  nonce = 0;
  signature = codes "s";
}

unreadable_key :
    (submit_transaction 7 none identity fresh_node unreadable).1 ≡ err (refused signature_length)
unfolding submit_transaction submit_signed decode_signature trim trim_start trim_end is_whitespace
unreadable_key = refl

unreadable_text : (respond_to (refused signature_length)).error ≡ codes "signature must be 64 bytes"
unfolding respond_to message_text
unreadable_text = refl
