-- ===== src/Tests/Sample.antt =====
-- A small network: a stand-in for the cryptographic crates, a chain that `Node1` seals, and a payment
-- of Alice's.
use block_rock.Base.{List, [], ◌∷◌, ◌++◌, Str, codes, ◌==◌, ==_refl, Result, ok, err}
use block_rock.Crypto.{Crypto, SignsVerifiably}
use block_rock.Transaction
use block_rock.Transaction.{Transaction}
use block_rock.Block.{Block, with_timestamp}
use block_rock.Ledger.{LedgerState, Keys, apply_transaction, replay_from}
use block_rock.Blockchain
use block_rock.Blockchain.{Blockchain, add_public_key, queue_transaction, seal_mempool}

-- A signature is the key and the message; hashes and hex are the bytes themselves.
instance abbrev pub toy : Crypto
toy = record {
  verifying_key = λ key. key;
  sign = λ key message. key ++ message;
  verify = λ key message signature. signature == key ++ message;
  sha256 = λ bytes. bytes;
  blake2b512 = λ bytes. bytes;
  hex_encode = λ bytes. bytes;
  hex_decode = λ text. ok text;
  from_bytes = λ bytes. ok bytes;
}

pub toy-SignsVerifiably : SignsVerifiably toy
toy-SignsVerifiably key message = ==_refl (key ++ message)

abbrev pub node : Str
node = codes "Node1"

abbrev pub alice : Str
alice = codes "Alice"

abbrev pub bob : Str
bob = codes "Bob"

unfoldable pub genesis : Blockchain
genesis = Blockchain.new node ((node, codes "n") ∷ [])

unfoldable pub start : Blockchain
unfolding genesis
start = add_public_key genesis alice (codes "a")

unfoldable pub payment : Transaction
payment = Transaction.new alice bob 30 0 (codes "a")

abbrev pub value_of : {E A : Type 0} → Result E A → A → A
value_of (ok a) default = a
value_of (err e) default = default

unfoldable pub queued : Blockchain
unfolding start payment
queued = (value_of (queue_transaction start payment) (start, [])).0

-- The balances that every chain starts with, and Alice's key.
abbrev pub ledger : LedgerState
ledger = record { balances = (alice, 100) ∷ (bob, 50) ∷ []; nonces = [] }

abbrev pub ledger_keys : Keys
ledger_keys = (alice, codes "a") ∷ []

unfoldable pub paid : LedgerState × List Str
unfolding payment
paid = value_of (apply_transaction ledger_keys ledger [] payment) (ledger, [])

unfoldable pub first_block : Block
unfolding payment
first_block = with_timestamp 0 (payment ∷ []) (codes "0") node 0

unfoldable pub replayed : LedgerState × List Str
unfolding first_block
replayed =
    value_of (replay_from [] ledger_keys 0 (codes "0") ledger [] (first_block ∷ [])) (ledger, [])
