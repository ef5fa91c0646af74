-- ===== src/Blockchain/Index.antt =====
-- The transaction index of blockrock-core/src/blockchain.rs: `commit_block` extends it to what
-- `rebuild_transaction_index` would build, and it finds every transaction of a chain.
use block_rock.Base.{
  ℕ, zero, suc, ◌+◌, ◌≡◌, refl, true, false, ◌||◌, some, List, [], ◌∷◌, ◌++◌, Str, get, get-insert,
  insert, keys, Map, member, member-keys-insert, length, get_elem?, arith, ==_refl,
}
use block_rock.Transaction.{Transaction}
use block_rock.Block.{Block}
use block_rock.Ledger.Distinct.{ids, chain_ids, Distinct, member-append}
use block_rock.Blockchain.{index_transactions, index_blocks}

pub index_blocks-append :
    (k : ℕ) (bs : List Block) (b : Block) (index : Map (ℕ × ℕ))
    → index_blocks k (bs ++ b ∷ []) index
      ≡ index_transactions (k + length bs) 0 b.transactions (index_blocks k bs index)
unfolding index_blocks
index_blocks-append k [] b index = let e : k + 0 ≡ k = omega arith in rw e
index_blocks-append k (x ∷ bs) b index =
    let e : k + suc (length bs) ≡ suc k + length bs = omega arith in
    rw e (index_blocks-append (suc k) bs b (index_transactions k 0 x.transactions index))

member-index_transactions :
    (i : Str) (k j : ℕ) (ts : List Transaction) (index : Map (ℕ × ℕ))
    → member i (keys (index_transactions k j ts index))
      ≡ (member i (keys index) || member i (ids ts))
unfolding index_transactions member
member-index_transactions i k j [] index = ground arith
member-index_transactions i k j (t ∷ ts) index = ground (
  arith,
  member-index_transactions i k (suc j) ts (insert t.id (k, j) index),
  member-keys-insert i t.id (k, j) index,
)

-- The indexed ids are those on the chain.
pub member-index_blocks :
    (i : Str) (k : ℕ) (bs : List Block) (index : Map (ℕ × ℕ))
    → member i (keys (index_blocks k bs index)) ≡ (member i (keys index) || member i (chain_ids bs))
unfolding index_blocks chain_ids member
member-index_blocks i k [] index = ground arith
member-index_blocks i k (b ∷ bs) index = ground (
  arith,
  member-index_blocks i (suc k) bs (index_transactions k 0 b.transactions index),
  member-index_transactions i k 0 b.transactions index,
  member-append i (ids b.transactions) (chain_ids bs),
)

get-index_transactions_other :
    (i : Str) (k j : ℕ) (ts : List Transaction) (index : Map (ℕ × ℕ))
    → member i (ids ts) ≡ false
    → get i (index_transactions k j ts index) ≡ get i index
unfolding index_transactions member
get-index_transactions_other i k j [] index h = refl
get-index_transactions_other i k j (t ∷ ts) index h = ground (
  arith,
  get-index_transactions_other i k (suc j) ts (insert t.id (k, j) index),
  get-insert i t.id (k, j) index,
)

pub get-index_blocks_other :
    (i : Str) (k : ℕ) (bs : List Block) (index : Map (ℕ × ℕ))
    → member i (chain_ids bs) ≡ false
    → get i (index_blocks k bs index) ≡ get i index
unfolding index_blocks chain_ids
get-index_blocks_other i k [] index h = refl
get-index_blocks_other i k (b ∷ bs) index h = ground (
  arith,
  get-index_blocks_other i (suc k) bs (index_transactions k 0 b.transactions index),
  get-index_transactions_other i k 0 b.transactions index,
  member-append i (ids b.transactions) (chain_ids bs),
)

member-get_elem? :
    (ts : List Transaction) (j : ℕ) {t : Transaction}
    → get_elem? ts j ≡ some t
    → member t.id (ids ts) ≡ true
unfolding member
member-get_elem? [] j e = cc
member-get_elem? (x ∷ ts) zero {t} e = ground (arith, ==_refl t.id)
member-get_elem? (x ∷ ts) (suc j) {t} e = ground (arith, member-get_elem? ts j {t = t} e)

get-index_transactions :
    (k j0 : ℕ) (ts : List Transaction) (index : Map (ℕ × ℕ)) (j : ℕ) {t : Transaction}
    → Distinct (ids ts)
    → get_elem? ts j ≡ some t
    → get t.id (index_transactions k j0 ts index) ≡ some (k, j0 + j)
unfolding index_transactions
get-index_transactions k j0 [] index j d e = cc
get-index_transactions k j0 (x ∷ ts) index zero {t} d e = ground (
  arith,
  get-index_transactions_other x.id k (suc j0) ts (insert x.id (k, j0) index),
  get-insert x.id x.id (k, j0) index,
  ==_refl x.id,
)
get-index_transactions k j0 (x ∷ ts) index (suc j) {t} d e =
    let e' : j0 + suc j ≡ suc j0 + j = omega arith in
    rw e' (get-index_transactions k (suc j0) ts (insert x.id (k, j0) index) j {t = t} d.1 e)

Distinct-append_inv :
    (xs ys : List Str)
    → Distinct (xs ++ ys)
    → Distinct xs × Distinct ys × ((i : Str) → member i xs ≡ true → member i ys ≡ false)
unfolding member
Distinct-append_inv [] ys d = (tt, d, λ i h. cc)
Distinct-append_inv (x ∷ xs) ys d =
    let (dx, dy, apart) = Distinct-append_inv xs ys d.1 in
    (
      (ground (arith, member-append x xs ys), dx),
      dy,
      λ i h. ground (arith, member-append x xs ys, apart i),
    )

-- On a chain with distinct ids the index gives each transaction its place.
pub get-index_blocks :
    (k : ℕ) (bs : List Block) (index : Map (ℕ × ℕ)) (i j : ℕ) {b : Block} {t : Transaction}
    → Distinct (chain_ids bs)
    → get_elem? bs i ≡ some b
    → get_elem? b.transactions j ≡ some t
    → get t.id (index_blocks k bs index) ≡ some (k + i, j)
unfolding index_blocks chain_ids
get-index_blocks k [] index i j d eb et = cc
get-index_blocks k (x ∷ bs) index zero j {b} {t} d eb et =
    let (dx, dy, apart) = Distinct-append_inv (ids x.transactions) (chain_ids bs) d in
    let here : get_elem? x.transactions j ≡ some t = ground arith in
    ground (
      arith,
      get-index_blocks_other t.id (suc k) bs (index_transactions k 0 x.transactions index),
      apart t.id (member-get_elem? x.transactions j {t = t} here),
      get-index_transactions k 0 x.transactions index j {t = t} dx here,
    )
get-index_blocks k (x ∷ bs) index (suc i) j {b} {t} d eb et =
    let (dx, dy, apart) = Distinct-append_inv (ids x.transactions) (chain_ids bs) d in
    let e' : k + suc i ≡ suc k + i = omega arith in
    rw e' (
      get-index_blocks (suc k) bs (index_transactions k 0 x.transactions index) i j {b = b} {t = t}
        dy eb et)
