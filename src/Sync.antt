-- ===== src/Sync.antt =====
-- zion-core/src/network/sync.rs: the messages of chain synchronisation and the rules that apply them.
pub mod Keys
pub mod Announcement
pub mod Snapshot
pub mod Promotion
use block_rock.Base.{
  ℕ, ◌%◌, Bool, true, false, ◌&&◌, not, Option, none, some, List, [], ◌∷◌, Str, ◌==◌, leb, ltb,
  if◌then◌else◌, is_some, Result, ok, err, get, insert, member, set_insert, length, get_elem?,
  u32_mod,
}
use block_rock.Crypto.{Crypto, VerifyingKey}
use block_rock.Transaction.{Transaction}
use block_rock.Block.{Block}
use block_rock.ChainError.{ChainError}
use block_rock.Ledger
use block_rock.Blockchain.{
  Blockchain, public_key, add_public_key, try_append_block, try_adopt_chain,
}

abbrev pub Accounts : Type 0
Accounts = Ledger.Keys

abbrev pub Authorities : Type 0
Authorities = List Str

pub record BlockAnnouncement : Type 0 where
  pub block : Block
  pub accounts : Accounts

pub record ChainSnapshot : Type 0 where
  pub blocks : List Block
  pub accounts : Accounts
  pub authorities : Authorities

pub data SyncRequest : Type 0 where
  get_chain : SyncRequest
  new_block : BlockAnnouncement → SyncRequest

pub data SyncResponse : Type 0 where
  chain : ChainSnapshot → SyncResponse
  ack : SyncResponse

pub data BlockOutcome : Type 0 where
  appended known out_of_order : BlockOutcome

unfoldable pub snapshot_of : Blockchain → ChainSnapshot
snapshot_of c = record { blocks = c.blocks; accounts = c.public_keys; authorities = c.authorities }

-- The keys of the senders that are known, collected into a map.
unfoldable pub sender_accounts : Blockchain → List Transaction → Accounts
sender_accounts c [] = []
sender_accounts c (t ∷ ts) =
    let rest = sender_accounts c ts in
    elim (public_key c t.sender) [ none ↦ rest | some key ↦ insert t.sender key rest ]

unfoldable pub announcement_of : Blockchain → Block → BlockAnnouncement
unfolding sender_accounts
announcement_of c b = record { block = b; accounts = sender_accounts c b.transactions }

-- Adds the key of a name that has none.
unfoldable pub learn : Blockchain → Str → Option VerifyingKey → Blockchain
learn c name none = c
learn c name (some key) = if is_some (public_key c name) then c else add_public_key c name key

unfoldable pub merge_block_accounts : Blockchain → List Transaction → Accounts → Blockchain
unfolding learn
merge_block_accounts c [] accounts = c
merge_block_accounts c (t ∷ ts) accounts =
    merge_block_accounts (learn c t.sender (get t.sender accounts)) ts accounts

unfoldable pub merge_accounts : Blockchain → Accounts → Blockchain
unfolding learn
merge_accounts c [] = c
merge_accounts c ((name, key) ∷ accounts) = merge_accounts (learn c name (some key)) accounts

-- One round of the loop of `merge_authorities`.
unfoldable pub merge_authority : Blockchain → Str → Blockchain
merge_authority c name =
    if not (member name c.authorities) && is_some (public_key c name)
    then record c { authorities = set_insert name c.authorities }
    else c

unfoldable pub merge_authorities : Blockchain → Authorities → Blockchain
unfolding merge_authority
merge_authorities c [] = c
merge_authorities c (name ∷ names) = merge_authorities (merge_authority c name) names

-- `map(|ours| ours.hash == block.hash).unwrap_or(false)`
abbrev same_hash : Option Block → Block → Bool
same_hash none b = false
same_hash (some ours) b = ours.hash == b.hash

module _ ⦃crypto : Crypto⦄ where
  -- The part of `apply_announcement` for a block at our height.
  unfoldable pub append_announced :
      Blockchain → Block → Accounts → Blockchain × Result ChainError BlockOutcome
  unfolding merge_block_accounts
  append_announced c b accounts =
      let keys_before = c.public_keys in
      let merged = merge_block_accounts c b.transactions accounts in
      elim (try_append_block merged b) [
        | ok c' ↦ (c', ok appended)
        | err e ↦ (record merged { public_keys = keys_before }, err e)
      ]

  unfoldable pub apply_announcement :
      Blockchain → BlockAnnouncement → Blockchain × Result ChainError BlockOutcome
  unfolding append_announced
  apply_announcement c a =
      let b = a.block in
      let height = length c.blocks % u32_mod in
      if ltb b.index height
      then (c, ok (if same_hash (get_elem? c.blocks b.index) b then known else out_of_order))
      else (if ltb height b.index then (c, ok out_of_order) else append_announced c b a.accounts)

  -- The part of `apply_snapshot` for a longer chain.
  unfoldable pub adopt_snapshot : Blockchain → ChainSnapshot → Blockchain × Result ChainError Bool
  unfolding merge_accounts merge_authorities
  adopt_snapshot c s =
      let keys_before = c.public_keys in
      let authorities_before = c.authorities in
      let merged = merge_authorities (merge_accounts c s.accounts) s.authorities in
      elim (try_adopt_chain merged s.blocks) [
        | ok (c', true) ↦ (c', ok true)
        | ok (c', false) ↦
            (record c' { public_keys = keys_before; authorities = authorities_before }, ok false)
        | err e ↦
            (record merged { public_keys = keys_before; authorities = authorities_before }, err e)
      ]

  unfoldable pub apply_snapshot : Blockchain → ChainSnapshot → Blockchain × Result ChainError Bool
  unfolding adopt_snapshot
  apply_snapshot c s =
      if leb (length s.blocks) (length c.blocks) then (c, ok false) else adopt_snapshot c s
