-- ===== src/Sync/Announcement.antt =====
-- What an announced block can do to a node.
use block_rock.Base.{
  ◌%◌, ◌≡◌, ◌≢◌, ap, ◌∙◌, ◌⊎◌, inl, inr, none, [], ◌∷◌, ◌++◌, Str, codes, Bool-cases, ltb, get, ok,
  err, Result-cases, length, u32_mod, arith,
}
use block_rock.Crypto.{Crypto}
use block_rock.Block.{Block}
use block_rock.ChainError.{ChainError}
use block_rock.Ledger.Trust.{ValidFrom-mono}
use block_rock.Blockchain.{Blockchain, current_state, try_append_block}
use block_rock.Blockchain.Consistent.{
  Consistent, initial_state, try_append_block-Consistent, try_append_block-frame,
}
use block_rock.Sync.{
  Accounts, BlockAnnouncement, appended, known, out_of_order, merge_block_accounts,
  append_announced, apply_announcement,
}
use block_rock.Sync.Keys.{Learns, IsSender, merge_block_accounts-Learns, merge_block_accounts-new}

module _ ⦃crypto : Crypto⦄ where
  Learns-Consistent : (c c' : Blockchain) → Learns c c' → Consistent c → Consistent c'
  unfolding current_state
  Learns-Consistent c c' l v = rw l.rest (record {
    valid =
        ValidFrom-mono c.public_keys c'.public_keys l.kept c.authorities c.authorities (λ n h. h) 0
          (codes "0") (initial_state c) [] c.blocks v.valid;
    state = v.state;
    indexed = v.indexed;
  })

  restore-Learns : (c c' : Blockchain) → Learns c c' → record c' { public_keys = c.public_keys } ≡ c
  restore-Learns c c' l = ap (λ (x : Blockchain). record x { public_keys = c.public_keys }) l.rest

  append_announced-atomic :
      (c : Blockchain) (b : Block) (accounts : Accounts)
      → (append_announced c b accounts).1 ≢ ok appended
      → (append_announced c b accounts).0 ≡ c
  unfolding append_announced
  append_announced-atomic c b accounts h = ground (
    arith,
    restore-Learns c (merge_block_accounts c b.transactions accounts)
        (merge_block_accounts-Learns c b.transactions accounts),
  )

  -- What is not appended leaves no trace.
  pub apply_announcement_atomic :
      (c : Blockchain) (a : BlockAnnouncement)
      → (apply_announcement c a).1 ≢ ok appended
      → (apply_announcement c a).0 ≡ c
  unfolding apply_announcement
  apply_announcement_atomic c a h = ground (arith, append_announced-atomic c a.block a.accounts)

  append_announced-Consistent :
      (c : Blockchain) (b : Block) (accounts : Accounts)
      → Consistent c
      → Consistent (append_announced c b accounts).0
  unfolding append_announced
  append_announced-Consistent c b accounts v =
      let merged = merge_block_accounts c b.transactions accounts in
      let l = merge_block_accounts-Learns c b.transactions accounts in
      elim (Result-cases (try_append_block merged b)) [
        | inl (c', e) ↦
            rw (e, append_announced)
              (try_append_block-Consistent merged b (Learns-Consistent c merged l v) e)
        | inr (x, e) ↦ rw (e, append_announced) (rw (restore-Learns c merged l) v)
      ]

  -- A consistent node stays consistent, whatever block is announced to it.
  pub apply_announcement-Consistent :
      (c : Blockchain) (a : BlockAnnouncement)
      → Consistent c
      → Consistent (apply_announcement c a).0
  unfolding apply_announcement
  apply_announcement-Consistent c a v =
      elim (Bool-cases (ltb a.block.index (length c.blocks % u32_mod))) [
        | inl past ↦ rw (past, apply_announcement) v
        | inr not_past ↦ elim (Bool-cases (ltb (length c.blocks % u32_mod) a.block.index)) [
          | inl future ↦ rw (not_past, future, apply_announcement) v
          | inr now ↦
              rw (not_past, now, apply_announcement)
                (append_announced-Consistent c a.block a.accounts v)
        ]
      ]

  append_announced_ok :
      (c : Blockchain) (b : Block) (accounts : Accounts) {c' : Blockchain}
      → try_append_block (merge_block_accounts c b.transactions accounts) b ≡ ok c'
      → append_announced c b accounts ≡ (c', ok appended)
  unfolding append_announced
  append_announced_ok c b accounts e = rw (e, append_announced)

  append_announced_err :
      (c : Blockchain) (b : Block) (accounts : Accounts) {x : ChainError}
      → try_append_block (merge_block_accounts c b.transactions accounts) b ≡ err x
      → append_announced c b accounts ≡ (c, err x)
  unfolding append_announced
  append_announced_err c b accounts e =
      let merged = merge_block_accounts c b.transactions accounts in
      rw (e, append_announced)
        (rw (restore-Learns c merged (merge_block_accounts-Learns c b.transactions accounts)))

  append_announced-keys :
      (c : Blockchain) (b : Block) (accounts : Accounts) (name : Str)
      → ((append_announced c b accounts).0.authorities ≡ c.authorities)
        × ((get name (append_announced c b accounts).0.public_keys ≡ get name c.public_keys)
            ⊎ ((append_announced c b accounts).1 ≡ ok appended)
              × IsSender name b.transactions
              × (get name c.public_keys ≡ none)
              × (get name (append_announced c b accounts).0.public_keys ≡ get name accounts))
  append_announced-keys c b accounts name =
      let merged = merge_block_accounts c b.transactions accounts in
      let l = merge_block_accounts-Learns c b.transactions accounts in
      elim (Result-cases (try_append_block merged b)) [
        | inl (c', e) ↦
            let (keys_same, authorities_same, _) = try_append_block-frame merged b {c' = c'} e in
            ground (
              arith,
              append_announced_ok c b accounts e,
              keys_same,
              authorities_same,
              ap (λ (x : Blockchain). x.authorities) l.rest,
              merge_block_accounts-new c b.transactions accounts name,
            )
        | inr (x, e) ↦ ground (arith, append_announced_err c b accounts e)
      ]

  -- What an announcement teaches: keys of names that had none, and no authority.
  pub apply_announcement-keys :
      (c : Blockchain) (a : BlockAnnouncement) (name : Str)
      → ((apply_announcement c a).0.authorities ≡ c.authorities)
        × ((get name (apply_announcement c a).0.public_keys ≡ get name c.public_keys)
            ⊎ ((apply_announcement c a).1 ≡ ok appended)
              × IsSender name a.block.transactions
              × (get name c.public_keys ≡ none)
              × (get name (apply_announcement c a).0.public_keys ≡ get name a.accounts))
  unfolding apply_announcement
  apply_announcement-keys c a name = ground (arith, append_announced-keys c a.block a.accounts name)

  append_announced-blocks :
      (c : Blockchain) (b : Block) (accounts : Accounts)
      → (append_announced c b accounts).1 ≡ ok appended
      → (append_announced c b accounts).0.blocks ≡ c.blocks ++ b ∷ []
  append_announced-blocks c b accounts h =
      let merged = merge_block_accounts c b.transactions accounts in
      let l = merge_block_accounts-Learns c b.transactions accounts in
      elim (Result-cases (try_append_block merged b)) [
        | inl (c', e) ↦
            let (_, _, blocks) = try_append_block-frame merged b {c' = c'} e in
            rw (append_announced_ok c b accounts e)
              (blocks ∙ ap (λ (x : Blockchain). x.blocks ++ b ∷ []) l.rest)
        | inr (x, e) ↦ ground (arith, append_announced_err c b accounts e)
      ]

  -- An announced block that is appended is the new tip.
  pub apply_announcement-blocks :
      (c : Blockchain) (a : BlockAnnouncement)
      → (apply_announcement c a).1 ≡ ok appended
      → (apply_announcement c a).0.blocks ≡ c.blocks ++ a.block ∷ []
  unfolding apply_announcement
  apply_announcement-blocks c a h = ground (arith, append_announced-blocks c a.block a.accounts)

  -- An announcement that is not appended, whether it is rejected, known already or out of order, leaves
  -- no trace. One that is appended adds its block at the tip and no authority, and rebinds no key: it
  -- teaches only keys that were announced, of names that had none and that send a transaction of the
  -- block.
  pub apply_announcement_lem :
      (c : Blockchain) (a : BlockAnnouncement)
      → (((apply_announcement c a).0 ≡ c) × ((apply_announcement c a).1 ≢ ok appended))
        ⊎ (((apply_announcement c a).1 ≡ ok appended)
            × ((apply_announcement c a).0.blocks ≡ c.blocks ++ a.block ∷ [])
            × ((apply_announcement c a).0.authorities ≡ c.authorities)
            × ((name : Str)
                → (get name (apply_announcement c a).0.public_keys ≡ get name c.public_keys)
                  ⊎ IsSender name a.block.transactions
                    × (get name c.public_keys ≡ none)
                    × (get name (apply_announcement c a).0.public_keys ≡ get name a.accounts)))
  apply_announcement_lem c a = elim (Result-cases ((apply_announcement c a).1)) [
    | inl (appended, e) ↦ inr (
      e,
      apply_announcement-blocks c a e,
      (apply_announcement-keys c a []).0,
      λ name. ground (arith, apply_announcement-keys c a name),
    )
    | inl (known, e) ↦
        let n : (apply_announcement c a).1 ≢ ok appended = λ h. ground arith in
        inl (apply_announcement_atomic c a n, n)
    | inl (out_of_order, e) ↦
        let n : (apply_announcement c a).1 ≢ ok appended = λ h. ground arith in
        inl (apply_announcement_atomic c a n, n)
    | inr (x, e) ↦
        let n : (apply_announcement c a).1 ≢ ok appended = λ h. ground arith in
        inl (apply_announcement_atomic c a n, n)
  ]
