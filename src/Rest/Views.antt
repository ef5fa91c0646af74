-- ===== src/Rest/Views.antt =====
-- What zion-core/src/api/rest.rs shows of a node that it does not change.
use block_rock.Base.{ℕ, List, Str}
use block_rock.Block.{Block}
use block_rock.Mempool.{max_mempool_bytes}
use block_rock.Blockchain.{Blockchain, pending_count}
use block_rock.Blockchain.Balances
use block_rock.Monitoring.{MetabolicStatus}

-- `GET /blocks`
unfoldable pub shown_blocks : Blockchain → List Block
shown_blocks chain = chain.blocks

-- `GET /balances`
unfoldable pub shown_balances : Blockchain → List (Str × ℕ)
shown_balances chain = Balances.get_balances chain

pub record MempoolStatus : Type 0 where
  pub pending : ℕ
  pub bytes : ℕ
  pub capacity_bytes : ℕ

pub record MetabolismResponse (F64 : Type 0) : Type 0 where
  pub status : MetabolicStatus F64
  pub mempool : MempoolStatus

unfoldable pub metabolism_status :
    {F64 : Type 0} → MetabolicStatus F64 → Blockchain → MetabolismResponse F64
metabolism_status status chain = record {
  status = status;
  mempool = record {
    pending = pending_count chain;
    bytes = chain.mempool.bytes;
    capacity_bytes = max_mempool_bytes;
  };
}
