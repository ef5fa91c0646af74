-- ===== src/Tests/HashRuns.antt =====
-- A block before and after it is sealed.
use block_rock.Base.{◌⊎◌, refl, some, none, [], ◌∷◌, Str, codes, Bytes-discrete, arith}
use block_rock.Crypto.{Crypto}
use block_rock.Transaction.{Transaction, has_valid_id, compute_id}
use block_rock.Block.{Block, hashed_bytes, calculate_hash}
use block_rock.Block.Hash.{
  Regular, RegularBlock, SameBlock, IdCollision, HashCollision, calculate_hash-SameBlock,
}
use block_rock.Tests.Sample.{toy, alice, bob}

-- A digest of the length that one of SHA-256 has in hexadecimal.
abbrev digest : Str
digest = codes "0123456789abcdef0123456789abcdef0123456789abcdef0123456789abcdef"

abbrev hexadecimal : Crypto
hexadecimal = record toy { sha256 = λ bytes. digest }

abbrev signed_payment : Transaction
signed_payment = record {
  id = digest;
  sender = alice;
  receiver = bob;
  amount = 30;
  nonce = 0;
  payload = some (codes "rent");
  signature = some digest;
}

signed_payment-Regular : Regular ⦃crypto = hexadecimal⦄ signed_payment
unfolding has_valid_id compute_id Bytes-discrete
signed_payment-Regular = record {
  in_range = record {
    sender = omega arith;
    receiver = omega arith;
    amount = omega arith;
    nonce = omega arith;
    payload = omega arith;
  };
  intact = refl;
  signature = digest;
  signed = refl;
  full = refl;
}

-- A block as it is hashed, and as it is sealed.
abbrev unsealed_block : Block
unsealed_block = record {
  index = 1;
  timestamp = 7;
  transactions = signed_payment ∷ [];
  previous_hash = digest;
  hash = [];
  authority = codes "Node1";
  authority_signature = none;
}

abbrev sealed_block : Block
sealed_block = record unsealed_block { hash = digest; authority_signature = some digest }

unsealed_block-RegularBlock : RegularBlock ⦃crypto = hexadecimal⦄ unsealed_block
unsealed_block-RegularBlock = record {
  index = omega arith;
  timestamp = omega arith;
  linked = refl;
  transactions = (signed_payment-Regular, tt);
}

sealed_block-RegularBlock : RegularBlock ⦃crypto = hexadecimal⦄ sealed_block
sealed_block-RegularBlock = record {
  index = omega arith;
  timestamp = omega arith;
  linked = refl;
  transactions = (signed_payment-Regular, tt);
}

calculate_hash-SameBlock_example :
    SameBlock unsealed_block sealed_block
    ⊎ IdCollision ⦃crypto = hexadecimal⦄ unsealed_block.transactions sealed_block.transactions
    ⊎ HashCollision ⦃crypto = hexadecimal⦄ (hashed_bytes unsealed_block) (hashed_bytes sealed_block)
unfolding calculate_hash hashed_bytes
calculate_hash-SameBlock_example =
    calculate_hash-SameBlock ⦃crypto = hexadecimal⦄ (λ bytes. refl) unsealed_block sealed_block
      unsealed_block-RegularBlock sealed_block-RegularBlock refl refl
