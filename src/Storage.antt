-- ===== src/Storage.antt =====
-- `save_to_file` and `load_from_file` of blockrock-core/src/blockchain.rs: the chain on disk. The JSON
-- of serde_json is a parameter, and so is where the file system fails.
pub mod Reload
use block_rock.Base.{Bool, true, false, Option, none, some, and_then, Str}
use block_rock.Blockchain.{Blockchain, rebuild_transaction_index}

-- `serde_json::to_string_pretty` and `serde_json::from_str` at `Blockchain`
pub record Json : Type 0 where
  pub to_string : Blockchain → Option Str
  pub from_str : Str → Option Blockchain

-- The file of the chain and the temporary file beside it.
pub record Disk : Type 0 where
  pub file : Option Str
  pub temporary : Option Str

-- The operation of the file system that fails first. A failed write may have written anything.
pub data Failure : Type 0 where
  never in_create_dir in_rename : Failure
  in_write : Str → Failure

-- The part behind the serialisation: the write to the temporary file, and the renaming.
unfoldable pub write_and_rename : Failure → Disk → Str → Disk × Bool
write_and_rename never disk text = (record { file = some text; temporary = none }, true)
write_and_rename in_create_dir disk text = (disk, false)
write_and_rename (in_write partial) disk text = (record disk { temporary = some partial }, false)
write_and_rename in_rename disk text = (record disk { temporary = some text }, false)

-- Whether the chain was saved.
unfoldable pub save_to_file : Json → Failure → Disk → Blockchain → Disk × Bool
unfolding write_and_rename
save_to_file json failure disk chain = elim (json.to_string chain) [
  | none ↦ (disk, false)
  | some text ↦ write_and_rename failure disk text
]

unfoldable pub load_from_file : Json → Disk → Option Blockchain
load_from_file json disk =
    and_then disk.file
      λ text. and_then (json.from_str text) λ chain. some (rebuild_transaction_index chain)
