-- ===== src/Gossip/Admission.antt =====
-- What a transaction of a peer can do to a node.
use block_rock.Base.{
  ◌≡◌, ◌≢◌, refl, ap, true, false, Bool, Bool-cases, Option-cases, ◌⊎◌, inl, inr, some, none, Str,
  not, ◌&&◌, is_some, get, get-insert, remove-insert, member, ok, Result-cases, arith,
}
use block_rock.Crypto.{Crypto, VerifyingKey}
use block_rock.Transaction.{Transaction}
use block_rock.ChainError.{ChainError}
use block_rock.Blockchain.{
  Blockchain, public_key, genesis_hash, add_public_key, get_transaction, queue_transaction,
}
use block_rock.Blockchain.Consistent.{Consistent, Consistent-mempool, queue_transaction-frame}
use block_rock.Blockchain.Reach.{add_public_key-Consistent}
use block_rock.Gossip.{
  TransactionAnnouncement, accepted, is_hash, differs, learn_sender, forget_sender, answer, admit,
  apply_transaction,
}

-- Who a node knows after a transaction was admitted, compared with before.
pub record Admitted (c c' : Blockchain) (sender : Str) (key : VerifyingKey) : Type 0 where
  pub blocks : c'.blocks ≡ c.blocks
  pub authorities : c'.authorities ≡ c.authorities
  pub sender_key : get sender c'.public_keys ≡ some key
  pub others : (name : Str) → name ≢ sender → get name c'.public_keys ≡ get name c.public_keys
  pub kept : (get sender c.public_keys ≡ none) ⊎ (get sender c.public_keys ≡ some key)
  -- Whoever is an authority had this key before.
  pub no_squatting : member sender c.authorities ≡ true → get sender c.public_keys ≡ some key

module _ ⦃crypto : Crypto⦄ where
  forget-learn :
      (c : Blockchain) (sender : Str) (key : VerifyingKey)
      → forget_sender (public_key c sender) (learn_sender (public_key c sender) c sender key) sender
        ≡ c
  unfolding public_key add_public_key
  forget-learn c sender key = elim (Option-cases (get sender c.public_keys)) [
    | inl unknown ↦ rw unknown (
        ap (λ keys. record c { public_keys = keys })
          (remove-insert sender key c.public_keys unknown))
    | inr (k, known) ↦ rw known refl
  ]

  admit_err :
      (c : Blockchain) (t : Transaction) (key : VerifyingKey)
      → (admit c t key (public_key c t.sender)).1 ≢ ok accepted
      → (admit c t key (public_key c t.sender)).0 ≡ c
  unfolding admit
  admit_err c t key h =
      elim (Result-cases
        (queue_transaction (learn_sender (public_key c t.sender) c t.sender key) t)) [
          | inl (r, e) ↦ absurd (h (rw (e, admit) refl))
          | inr (x, e) ↦ rw (e, admit) (forget-learn c t.sender key)
        ]

  -- A transaction that is not accepted leaves no trace: neither in the pool nor among the keys.
  pub apply_transaction_atomic :
      (c : Blockchain) (a : TransactionAnnouncement)
      → (apply_transaction c a).1 ≢ ok accepted
      → (apply_transaction c a).0 ≡ c
  unfolding apply_transaction
  apply_transaction_atomic c a h = ground (arith, admit_err c a.transaction a.sender_key)

  answer-accepted : (committed : Bool) (e : ChainError) → answer committed e ≢ ok accepted
  answer-accepted committed e h = ground arith

  learn-Admitted :
      (c : Blockchain) (sender : Str) (key : VerifyingKey)
      → differs (public_key c sender) key ≡ false
      → (not (is_some (public_key c sender)) && member sender c.authorities) ≡ false
      → Admitted c (learn_sender (public_key c sender) c sender key) sender key
  unfolding public_key add_public_key
  learn-Admitted c sender key same outsider = elim (Option-cases (get sender c.public_keys)) [
    | inl unknown ↦ rw unknown (record {
      blocks = refl;
      authorities = refl;
      sender_key = ground (arith, get-insert sender sender key c.public_keys);
      others = λ name other. ground (arith, get-insert name sender key c.public_keys);
      kept = inl unknown;
      no_squatting = λ h. ground arith;
    })
    | inr (k, known) ↦ rw known (record {
      blocks = refl;
      authorities = refl;
      sender_key = ground arith;
      others = λ name other. refl;
      kept = inr (ground arith);
      no_squatting = λ h. ground arith;
    })
  ]

  admit_accepted :
      (c : Blockchain) (t : Transaction) (key : VerifyingKey)
      → differs (public_key c t.sender) key ≡ false
      → (not (is_some (public_key c t.sender)) && member t.sender c.authorities) ≡ false
      → (admit c t key (public_key c t.sender)).1 ≡ ok accepted
      → Admitted c (admit c t key (public_key c t.sender)).0 t.sender key
  unfolding admit
  admit_accepted c t key same outsider h =
      let learned = learn_sender (public_key c t.sender) c t.sender key in
      let l = learn-Admitted c t.sender key same outsider in
      elim (Result-cases (queue_transaction learned t)) [
        | inl (r, e) ↦
            rw (e, admit)
              (rw (queue_transaction-frame learned t {r = r} e) (record {
                blocks = l.blocks;
                authorities = l.authorities;
                sender_key = l.sender_key;
                others = l.others;
                kept = l.kept;
                no_squatting = l.no_squatting;
              }))
        | inr (x, e) ↦
            absurd (answer-accepted (is_some (get_transaction learned t.id)) x (rw (e, admit) at h))
      ]

  -- A transaction that is accepted teaches at most the key of its sender, which is the key that the
  -- node had, if it had one; and a name that is an authority had it. Blocks and authorities stay.
  pub apply_transaction_accepted :
      (c : Blockchain) (a : TransactionAnnouncement)
      → (apply_transaction c a).1 ≡ ok accepted
      → Admitted c (apply_transaction c a).0 a.transaction.sender a.sender_key
  unfolding apply_transaction
  apply_transaction_accepted c a h = elim (Bool-cases (is_hash (genesis_hash c) a.genesis_hash)) [
    | inr foreign ↦ ground arith
    | inl same_chain ↦ ground (arith, admit_accepted c a.transaction a.sender_key)
  ]

  learn_sender-Consistent :
      (c : Blockchain) (sender : Str) (key : VerifyingKey)
      → Consistent c
      → Consistent (learn_sender (public_key c sender) c sender key)
  unfolding public_key
  learn_sender-Consistent c sender key v = elim (Option-cases (get sender c.public_keys)) [
    | inl unknown ↦ rw unknown (add_public_key-Consistent c sender key (inl unknown) v)
    | inr (k, known) ↦ rw known v
  ]

  admit-Consistent :
      (c : Blockchain) (t : Transaction) (key : VerifyingKey)
      → Consistent c
      → Consistent (admit c t key (public_key c t.sender)).0
  unfolding admit
  admit-Consistent c t key v =
      let learned = learn_sender (public_key c t.sender) c t.sender key in
      let w = learn_sender-Consistent c t.sender key v in
      elim (Result-cases (queue_transaction learned t)) [
        | inl (r, e) ↦
            rw (e, admit)
              (rw (queue_transaction-frame learned t {r = r} e)
                (Consistent-mempool learned r.0.mempool w))
        | inr (x, e) ↦ rw (e, admit) (rw (forget-learn c t.sender key) v)
      ]

  -- A consistent node stays consistent, whatever transaction it is sent.
  pub apply_transaction-Consistent :
      (c : Blockchain) (a : TransactionAnnouncement)
      → Consistent c
      → Consistent (apply_transaction c a).0
  unfolding apply_transaction
  apply_transaction-Consistent c a v =
      ground (arith, admit-Consistent c a.transaction a.sender_key v)
