-- ===== src/Service/Handling.antt =====
-- Handling the messages of peers never panics and never breaks the chain.
use block_rock.Base.{
  ◌<◌, ◌≡◌, ◌≢◌, ◌⊎◌, inl, inr, refl, true, false, Option, some, List, [], ◌∷◌, last?, length,
  length-append, Result-cases, arith,
}
use block_rock.Crypto.{Crypto}
use block_rock.Block.{Block}
use block_rock.Blockchain.{Blockchain}
use block_rock.Blockchain.Consistent.{Consistent}
use block_rock.Sync.{
  BlockAnnouncement, ChainSnapshot, get_chain, new_block, chain, ack, appended, known, out_of_order,
  apply_announcement, apply_snapshot,
}
use block_rock.Sync.Announcement.{
  apply_announcement-Consistent, apply_announcement-blocks, apply_announcement_atomic,
}
use block_rock.Sync.Snapshot.{apply_snapshot_lem, apply_snapshot-Consistent}
use block_rock.Service.{
  PeerId, SyncEvent, request, response, outbound_failure, inbound_failure, response_sent, Outgoing,
  SyncNode, Store, persist, accept, handle_announcement, handle_snapshot, handle_sync_event,
}

last?-nonempty : (bs : List Block) → 0 < length bs → (b : Block) × (last? bs ≡ some b)
last?-nonempty [] h = absurd (omega arith)
last?-nonempty (b ∷ []) h = (b, refl)
last?-nonempty (b ∷ c ∷ bs) h = last?-nonempty (c ∷ bs) (omega arith)

persist-chain : (store : Store) (node : SyncNode) → (persist store node).chain ≡ node.chain
unfolding persist
persist-chain Store.in_memory node = refl
persist-chain Store.working node = refl
persist-chain Store.failing node = refl

persist-stored :
    (store : Store) (node : SyncNode)
    → (store ≢ Store.working) ⊎ ((persist store node).stored ≡ some (persist store node).chain)
unfolding persist
persist-stored Store.in_memory node = inl λ e. ground arith
persist-stored Store.working node = inr refl
persist-stored Store.failing node = inl λ e. ground arith

-- The event is handled: the chain is then `c`, and if that is not what it was before and the store
-- works, it is on disk.
record Handled (store : Store) (before : SyncNode) (result : Option (SyncNode × List Outgoing))
    (c : Blockchain) : Type 0 where
  after : SyncNode
  sent : List Outgoing
  handled : result ≡ some (after, sent)
  chain_after : after.chain ≡ c
  written :
      (after.chain ≡ before.chain) ⊎ (store ≢ Store.working) ⊎ (after.stored ≡ some after.chain)

accept-Handled :
    (peers : List PeerId) (store : Store) (before node : SyncNode) (peer : PeerId)
    (sent : List Outgoing)
    → 0 < length node.chain.blocks
    → Handled store before (accept peers store node peer sent) node.chain
unfolding accept
accept-Handled peers store before node peer sent h =
    let (b, e) = last?-nonempty node.chain.blocks h in
    rw e (record {
      after = persist store node;
      sent = _;
      handled = refl;
      chain_after = persist-chain store node;
      written = inr (persist-stored store node);
    })

unchanged-Handled :
    (store : Store) (node : SyncNode) (c : Blockchain) (sent : List Outgoing)
    → c ≡ node.chain
    → Handled store node (some (record node { chain = c }, sent)) c
unchanged-Handled store node c sent e = record {
  after = record node { chain = c };
  sent = sent;
  handled = refl;
  chain_after = refl;
  written = inl e;
}

module _ ⦃crypto : Crypto⦄ (peers : List PeerId) (store : Store) where
  handle_announcement-Handled :
      (node : SyncNode) (peer : PeerId) (a : BlockAnnouncement)
      → Handled store node
          (handle_announcement peers store node peer a)
          (apply_announcement node.chain a).0
  unfolding handle_announcement
  handle_announcement-Handled node peer a =
      let c = (apply_announcement node.chain a).0 in
      let quiet = apply_announcement_atomic node.chain a in
      elim (Result-cases ((apply_announcement node.chain a).1)) [
        | inl (appended, e) ↦
            rw (e, handle_announcement)
              (accept-Handled peers store node (record node { chain = c }) peer _
                (rw (apply_announcement-blocks node.chain a e)
                  (rw (length-append node.chain.blocks (a.block ∷ [])) (omega arith))))
        | inl (known, e) ↦
            rw (e, handle_announcement) (unchanged-Handled store node c _ (quiet λ h. ground arith))
        | inl (out_of_order, e) ↦
            rw (e, handle_announcement) (unchanged-Handled store node c _ (quiet λ h. ground arith))
        | inr (x, e) ↦
            rw (e, handle_announcement) (unchanged-Handled store node c _ (quiet λ h. ground arith))
      ]

  handle_snapshot-Handled :
      (node : SyncNode) (peer : PeerId) (s : ChainSnapshot)
      → Handled store node (handle_snapshot peers store node peer s) (apply_snapshot node.chain s).0
  unfolding handle_snapshot
  handle_snapshot-Handled node peer s =
      let c = (apply_snapshot node.chain s).0 in
      elim (Result-cases ((apply_snapshot node.chain s).1)) [
        | inl (true, e) ↦
            rw (e, handle_snapshot)
              (accept-Handled peers store node (record node { chain = c }) peer _
                (ground (arith, apply_snapshot_lem node.chain s)))
        | inl (false, e) ↦
            rw (e, handle_snapshot)
              (unchanged-Handled store node c _ (ground (arith, apply_snapshot_lem node.chain s)))
        | inr (x, e) ↦
            rw (e, handle_snapshot)
              (unchanged-Handled store node c _ (ground (arith, apply_snapshot_lem node.chain s)))
      ]

  -- A node handles every event without a panic, and a consistent node stays consistent. If the event
  -- changed its chain and its store works, the new chain is on disk.
  pub handle_sync_event-Consistent :
      (node : SyncNode) (event : SyncEvent)
      → Consistent node.chain
      → (after : SyncNode) × (sent : List Outgoing) × (handle_sync_event peers store node event
          ≡ some (after, sent))
        × Consistent after.chain
        × ((after.chain ≡ node.chain) ⊎ (store ≢ Store.working) ⊎ (after.stored ≡ some after.chain))
  unfolding handle_sync_event
  handle_sync_event-Consistent node (request peer get_chain) v = (node, _, refl, v, inl refl)
  handle_sync_event-Consistent node (request peer (new_block a)) v =
      let h = handle_announcement-Handled node peer a in
      (
        h.after,
        h.sent,
        h.handled,
        rw h.chain_after (apply_announcement-Consistent node.chain a v),
        h.written,
      )
  handle_sync_event-Consistent node (response peer (chain s)) v =
      let h = handle_snapshot-Handled node peer s in
      (
        h.after,
        h.sent,
        h.handled,
        rw h.chain_after (apply_snapshot-Consistent node.chain s v),
        h.written,
      )
  handle_sync_event-Consistent node (response peer ack) v = (node, [], refl, v, inl refl)
  handle_sync_event-Consistent node (outbound_failure peer) v = (node, [], refl, v, inl refl)
  handle_sync_event-Consistent node (inbound_failure peer) v = (node, [], refl, v, inl refl)
  handle_sync_event-Consistent node response_sent v = (node, [], refl, v, inl refl)
