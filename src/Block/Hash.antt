-- ===== src/Block/Hash.antt =====
-- What the hash of blockrock-core/src/block.rs commits to. The strings in it are not set apart, so that
-- this rests on the ids, which have one length and bind the content of their transactions.
use mathlib.Core.List.{append_assoc}
use block_rock.Base.{
  ◌<◌, ◌≡◌, ◌≢◌, refl, ap, sym, ◌∙◌, ◌⊎◌, inl, inr, true, some, List, [], ◌∷◌, ◌++◌, Bytes, All,
  length, u64_mod, u32_mod, to_le_bytes, length-to_le_bytes, Bytes-discrete, take, ==→eq, arith,
}
use block_rock.Crypto.{Crypto, Signature}
use block_rock.Transaction.{Transaction, has_valid_id, compute_id, signing_payload}
use block_rock.Transaction.Encoding.{
  InRange, SameContent, Collision, same_id, append_split, to_le_bytes-injective, u64_split,
}
use block_rock.Block.{
  Block, signature_bytes, transaction_bytes, transactions_bytes, hashed_bytes, calculate_hash,
}

-- What sha2 and hex document: a digest of SHA-256 has 32 bytes, 64 characters in hexadecimal.
abbrev pub HexDigests : Crypto → Type 0
HexDigests c = (bytes : Bytes) → length (c.hex_encode (c.sha256 bytes)) ≡ 64

-- Two byte strings with one hash of a block: a collision of half of BLAKE2b in hexadecimal.
pub record HashCollision ⦃crypto : Crypto⦄ (a b : Bytes) : Type 0 where
  pub differ : a ≢ b
  pub collide :
      crypto.hex_encode (take 32 (crypto.blake2b512 a))
      ≡ crypto.hex_encode (take 32 (crypto.blake2b512 b))

-- A transaction with a valid id and a signature, in the ranges of its types.
pub record Regular ⦃crypto : Crypto⦄ (t : Transaction) : Type 0 where
  pub in_range : InRange t
  pub intact : has_valid_id t ≡ true
  pub signature : Signature
  pub signed : t.signature ≡ some signature
  pub full : length signature ≡ 64

-- The numbers of a block are in the ranges of their types, its link is a hash in hexadecimal, and its
-- transactions are regular.
pub record RegularBlock ⦃crypto : Crypto⦄ (b : Block) : Type 0 where
  pub index : b.index < u32_mod
  pub timestamp : b.timestamp < u64_mod
  pub linked : length b.previous_hash ≡ 64
  pub transactions : All Regular b.transactions

-- Two blocks are the same but for their hash and their seal.
pub record SameBlock (b c : Block) : Type 0 where
  pub index : b.index ≡ c.index
  pub timestamp : b.timestamp ≡ c.timestamp
  pub transactions : b.transactions ≡ c.transactions
  pub previous_hash : b.previous_hash ≡ c.previous_hash
  pub authority : b.authority ≡ c.authority

transaction_bytes_append :
    (t : Transaction) (rest : Bytes)
    → transaction_bytes t ++ rest
      ≡ t.id
        ++ (t.sender
            ++ (t.receiver
                ++ (to_le_bytes 8 t.amount
                    ++ (to_le_bytes 8 t.nonce ++ (signature_bytes t.signature ++ rest)))))
unfolding transaction_bytes
transaction_bytes_append t rest =
    rw (append_assoc, append_assoc, append_assoc, append_assoc, append_assoc) refl

same_transaction :
    (t u : Transaction) → t.id ≡ u.id → SameContent t u → t.signature ≡ u.signature → t ≡ u
same_transaction t u e c s = λ i. record {
  id = e i;
  sender = c.sender i;
  receiver = c.receiver i;
  amount = c.amount i;
  nonce = c.nonce i;
  signature = s i;
  payload = c.payload i;
}

module _ ⦃crypto : Crypto⦄ where
  -- The canonical bytes of two transactions at the same place are a collision.
  abbrev pub IdCollision : List Transaction → List Transaction → Type 0
  IdCollision (t ∷ ts) (u ∷ us) =
      Collision (signing_payload t) (signing_payload u) ⊎ IdCollision ts us
  IdCollision ts us = ⊥

  module _ (digests : HexDigests crypto) where
    length-id : (t : Transaction) → has_valid_id t ≡ true → length t.id ≡ 64
    unfolding has_valid_id compute_id
    length-id t h = rw (==→eq _ _ h) (digests _)

    -- What the hasher is fed for a transaction ends where it ends for another one.
    transaction_bytes_split :
        (t u : Transaction) (rest rest' : Bytes)
        → Regular t
        → Regular u
        → transaction_bytes t ++ rest ≡ transaction_bytes u ++ rest'
        → (t ≡ u) × (rest ≡ rest') ⊎ Collision (signing_payload t) (signing_payload u)
    transaction_bytes_split t u rest rest' p q e =
        let e0 = sym (transaction_bytes_append t rest) ∙ e ∙ transaction_bytes_append u rest' in
        let (id, e1) =
          append_split t.id u.id _ _ (length-id t p.intact ∙ sym (length-id u q.intact)) e0 in
        elim (same_id t u p.in_range q.in_range p.intact q.intact id) [
          | inr collision ↦ inr collision
          | inl c ↦
              let (_, e2) = append_split t.sender u.sender _ _ (ap length c.sender) e1 in
              let (_, e3) = append_split t.receiver u.receiver _ _ (ap length c.receiver) e2 in
              let (_, e4) =
                u64_split t.amount u.amount _ _ p.in_range.amount q.in_range.amount e3 in
              let (_, e5) = u64_split t.nonce u.nonce _ _ p.in_range.nonce q.in_range.nonce e4 in
              let e6 : p.signature ++ rest ≡ q.signature ++ rest' =
                rw q.signed at (rw p.signed at e5) in
              let (s, e7) = append_split p.signature q.signature _ _ (p.full ∙ sym q.full) e6 in
              inl (same_transaction t u id c (p.signed ∙ ap some s ∙ sym q.signed), e7)
        ]

    transactions_bytes_split :
        (ts us : List Transaction) (rest rest' : Bytes)
        → length ts ≡ length us
        → All Regular ts
        → All Regular us
        → transactions_bytes ts ++ rest ≡ transactions_bytes us ++ rest'
        → (ts ≡ us) × (rest ≡ rest') ⊎ IdCollision ts us
    unfolding transactions_bytes
    transactions_bytes_split [] [] rest rest' l p q e = inl (refl, e)
    transactions_bytes_split [] (u ∷ us) rest rest' l p q e = absurd (omega arith)
    transactions_bytes_split (t ∷ ts) [] rest rest' l p q e = absurd (omega arith)
    transactions_bytes_split (t ∷ ts) (u ∷ us) rest rest' l (p, ps) (q, qs) e =
        let e' =
          sym (append_assoc (transaction_bytes t) (transactions_bytes ts) rest)
          ∙ e
          ∙ append_assoc (transaction_bytes u) (transactions_bytes us) rest' in
        elim (transaction_bytes_split t u _ _ p q e') [
          | inr collision ↦ inr (inl collision)
          | inl (first, others) ↦
              elim (transactions_bytes_split ts us rest rest' (omega arith) ps qs others) [
                | inr collision ↦ inr (inr collision)
                | inl (same, end) ↦ inl ((λ i. first i ∷ same i), end)
              ]
        ]

    hashed_bytes-SameBlock :
        (b c : Block)
        → RegularBlock b
        → RegularBlock c
        → length b.transactions ≡ length c.transactions
        → hashed_bytes b ≡ hashed_bytes c
        → SameBlock b c ⊎ IdCollision b.transactions c.transactions
    unfolding hashed_bytes
    hashed_bytes-SameBlock b c p q l e =
        let (i, e1) =
          append_split (to_le_bytes 4 b.index) (to_le_bytes 4 c.index) _ _
            (length-to_le_bytes 4 b.index ∙ sym (length-to_le_bytes 4 c.index)) e in
        let (time, e2) = u64_split b.timestamp c.timestamp _ _ p.timestamp q.timestamp e1 in
        elim (transactions_bytes_split b.transactions c.transactions _ _ l p.transactions
          q.transactions e2) [
            | inr collision ↦ inr collision
            | inl (same, e3) ↦
                let (previous, authority) =
                  append_split b.previous_hash c.previous_hash _ _ (p.linked ∙ sym q.linked) e3 in
                inl (record {
                  index = to_le_bytes-injective 4 b.index c.index p.index q.index i;
                  timestamp = time;
                  transactions = same;
                  previous_hash = previous;
                  authority = authority;
                })
          ]

    -- Two blocks with one hash and equally many transactions are the same but for their hash and their
    -- seal, the payloads of the transactions included, which the hash reads by the ids only; or the
    -- canonical bytes of two transactions at one place collide under SHA-256, or the bytes of the two
    -- blocks under the half of BLAKE2b that is used. The transactions must have valid ids and signatures
    -- of 64 bytes, the links be of 64 characters, the numbers and lengths be in the ranges of their
    -- types, and a digest of SHA-256 have 64 characters in hexadecimal.
    pub calculate_hash-SameBlock :
        (b c : Block)
        → RegularBlock b
        → RegularBlock c
        → length b.transactions ≡ length c.transactions
        → calculate_hash b ≡ calculate_hash c
        → SameBlock b c
          ⊎ IdCollision b.transactions c.transactions
          ⊎ HashCollision (hashed_bytes b) (hashed_bytes c)
    unfolding calculate_hash
    calculate_hash-SameBlock b c p q l e = elim (Bytes-discrete (hashed_bytes b) (hashed_bytes c)) [
      | no different ↦ inr (inr (record { differ = different; collide = e }))
      | yes same ↦ elim (hashed_bytes-SameBlock b c p q l same) [
        | inl equal ↦ inl equal
        | inr collision ↦ inr (inl collision)
      ]
    ]
