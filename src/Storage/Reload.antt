-- ===== src/Storage/Reload.antt =====
-- What a restart finds on disk.
use block_rock.Base.{◌≡◌, ◌⊎◌, inl, inr, refl, ap, sym, true, false, Option-cases, some, Str, []}
use block_rock.Crypto.{Crypto}
use block_rock.Mempool
use block_rock.Blockchain.{Blockchain, rebuild_transaction_index}
use block_rock.Blockchain.Consistent.{Consistent}
use block_rock.Storage.{Json, Disk, Failure, write_and_rename, save_to_file, load_from_file}

-- What serde documents of a derived instance with `#[serde(skip)]`: reading what was written gives
-- the value back, with the default in the skipped fields.
abbrev pub RoundTrips : Json → Blockchain → Type 0
RoundTrips json chain =
    (text : Str)
    → json.to_string chain ≡ some text
    → json.from_str text ≡ some (record chain { transaction_index = []; mempool = Mempool.empty })

write_and_rename-file :
    (failure : Failure) (disk : Disk) (text : Str)
    → (((write_and_rename failure disk text).1 ≡ false)
        × ((write_and_rename failure disk text).0.file ≡ disk.file))
      ⊎ (((write_and_rename failure disk text).1 ≡ true)
          × ((write_and_rename failure disk text).0.file ≡ some text))
unfolding write_and_rename
write_and_rename-file Failure.never disk text = inr (refl, refl)
write_and_rename-file Failure.in_create_dir disk text = inl (refl, refl)
write_and_rename-file (Failure.in_write partial) disk text = inl (refl, refl)
write_and_rename-file Failure.in_rename disk text = inl (refl, refl)

save_to_file-cases :
    (json : Json) (failure : Failure) (disk : Disk) (chain : Blockchain)
    → (((save_to_file json failure disk chain).1 ≡ false)
        × ((save_to_file json failure disk chain).0.file ≡ disk.file))
      ⊎ (((save_to_file json failure disk chain).1 ≡ true)
          × ((text : Str) × (json.to_string chain ≡ some text)
              × ((save_to_file json failure disk chain).0.file ≡ some text)))
unfolding save_to_file
save_to_file-cases json failure disk chain = elim (Option-cases (json.to_string chain)) [
  | inl e ↦ rw (e, save_to_file) (inl (refl, refl))
  | inr (text, e) ↦
      rw (e, save_to_file)
        (elim (write_and_rename-file failure disk text) [
          | inl kept ↦ inl kept
          | inr (saved, written) ↦ inr (saved, (text, refl, written))
        ])
]

module _ ⦃crypto : Crypto⦄ where
  pub rebuild_of_skipped :
      (chain : Blockchain)
      → Consistent chain
      → rebuild_transaction_index (record chain { transaction_index = []; mempool = Mempool.empty })
        ≡ record chain { mempool = Mempool.empty }
  unfolding rebuild_transaction_index
  rebuild_of_skipped chain c =
      ap (λ index. record chain { transaction_index = index; mempool = Mempool.empty })
        (sym c.indexed)

  -- Wherever saving fails, a restart finds what it would have found before. If it succeeds, a restart
  -- finds the consistent chain that was saved, with its index rebuilt and nothing pending. Reading
  -- what was written must give it back.
  pub load-save_to_file :
      (json : Json) (failure : Failure) (disk : Disk) (chain : Blockchain)
      → RoundTrips json chain
      → Consistent chain
      → let (disk', saved) = save_to_file json failure disk chain in
        ((saved ≡ false) × (load_from_file json disk' ≡ load_from_file json disk))
        ⊎ ((saved ≡ true)
            × (load_from_file json disk' ≡ some (record chain { mempool = Mempool.empty })))
  unfolding load_from_file
  load-save_to_file json failure disk chain law c =
      elim (save_to_file-cases json failure disk chain) [
        | inl (failed, kept) ↦ inl (failed, rw kept refl)
        | inr (saved, place) ↦
            let (text, written, e) = place in
            inr (saved, rw (e, law text written) (ap some (rebuild_of_skipped chain c)))
      ]
