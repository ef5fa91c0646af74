-- ===== src/Mempool/Drain.antt =====
-- `Mempool::drain` of blockrock-core/src/mempool.rs: what leaves the pool, and in which order.
use mathlib.Core.List.{Perm}
use block_rock.Base.{◌≡◌, refl, values}
use block_rock.Mempool.{Mempool, drain, len}
use block_rock.Mempool.Order.{IsSorted, sort-IsSorted, sort-perm}

-- Draining gives every pending transaction once, ordered by sender and then by nonce, and leaves
-- a pool without transactions whose byte count is 0.
pub drain_lem :
    (pool : Mempool)
    → Perm (drain pool).0 (values pool.pending)
      × IsSorted (drain pool).0
      × (len (drain pool).1 ≡ 0)
      × ((drain pool).1.bytes ≡ 0)
unfolding drain len
drain_lem pool = (sort-perm (values pool.pending), sort-IsSorted (values pool.pending), refl, refl)
