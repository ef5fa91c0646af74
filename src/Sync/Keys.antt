-- ===== src/Sync/Keys.antt =====
-- Learning keys and authorities from a peer: what is known stays as it is.
use block_rock.Base.{
  ◌≡◌, refl, ap, ◌∙◌, ◌⊎◌, inl, Option, none, some, List, [], ◌∷◌, Str, get, get-insert,
  member-set_insert, arith,
}
use block_rock.Crypto.{VerifyingKey}
use block_rock.Transaction.{Transaction}
use block_rock.Ledger.Trust.{Extends, Includes}
use block_rock.Blockchain.{Blockchain, public_key, add_public_key}
use block_rock.Sync.{
  Accounts, Authorities, learn, merge_block_accounts, merge_accounts, merge_authority,
  merge_authorities,
}

-- The second chain is the first with more keys: nothing else differs, and no name is rebound.
pub record Learns (c c' : Blockchain) : Type 0 where
  pub rest : c' ≡ record c { public_keys = c'.public_keys }
  pub kept : Extends c.public_keys c'.public_keys

Learns-refl : (c : Blockchain) → Learns c c
Learns-refl c = record { rest = refl; kept = λ name k e. e }

Learns-trans : (c d e : Blockchain) → Learns c d → Learns d e → Learns c e
Learns-trans c d e p q = record {
  rest = q.rest ∙ ap (λ (x : Blockchain). record x { public_keys = e.public_keys }) p.rest;
  kept = λ name k h. q.kept name k (p.kept name k h);
}

learn-Learns :
    (c : Blockchain) (name : Str) (key : Option VerifyingKey) → Learns c (learn c name key)
unfolding learn add_public_key public_key
learn-Learns c name none = Learns-refl c
learn-Learns c name (some key) = record {
  rest = ground arith;
  kept = λ other k h. ground (arith, get-insert other name key c.public_keys);
}

pub merge_block_accounts-Learns :
    (c : Blockchain) (ts : List Transaction) (accounts : Accounts)
    → Learns c (merge_block_accounts c ts accounts)
unfolding merge_block_accounts
merge_block_accounts-Learns c [] accounts = Learns-refl c
merge_block_accounts-Learns c (t ∷ ts) accounts =
    Learns-trans c (learn c t.sender (get t.sender accounts)) _
      (learn-Learns c t.sender (get t.sender accounts))
      (merge_block_accounts-Learns (learn c t.sender (get t.sender accounts)) ts accounts)

pub merge_accounts-Learns :
    (c : Blockchain) (accounts : Accounts) → Learns c (merge_accounts c accounts)
unfolding merge_accounts
merge_accounts-Learns c [] = Learns-refl c
merge_accounts-Learns c (a ∷ accounts) =
    Learns-trans c (learn c a.0 (some a.1)) _ (learn-Learns c a.0 (some a.1))
      (merge_accounts-Learns (learn c a.0 (some a.1)) accounts)

-- Only senders of the block are learned.
abbrev pub IsSender : Str → List Transaction → Type 0
IsSender name [] = ⊥
IsSender name (t ∷ ts) = (t.sender ≡ name) ⊎ IsSender name ts

learn-new :
    (c : Blockchain) (sender : Str) (key : Option VerifyingKey) (name : Str)
    → (get name (learn c sender key).public_keys ≡ get name c.public_keys)
      ⊎ ((sender ≡ name)
          × (get name c.public_keys ≡ none)
          × (get name (learn c sender key).public_keys ≡ key))
unfolding learn add_public_key public_key
learn-new c sender none name = inl refl
learn-new c sender (some key) name = ground (arith, get-insert name sender key c.public_keys)

pub merge_block_accounts-new :
    (c : Blockchain) (ts : List Transaction) (accounts : Accounts) (name : Str)
    → (get name (merge_block_accounts c ts accounts).public_keys ≡ get name c.public_keys)
      ⊎ (IsSender name ts
          × (get name c.public_keys ≡ none)
          × (get name (merge_block_accounts c ts accounts).public_keys ≡ get name accounts))
unfolding merge_block_accounts
merge_block_accounts-new c [] accounts name = inl refl
merge_block_accounts-new c (t ∷ ts) accounts name = ground (
  arith,
  learn-new c t.sender (get t.sender accounts) name,
  merge_block_accounts-new (learn c t.sender (get t.sender accounts)) ts accounts name,
)

-- The second chain is the first with more authorities, each of which has a key.
pub record Enrols (c c' : Blockchain) : Type 0 where
  pub rest : c' ≡ record c { authorities = c'.authorities }
  pub kept : Includes c.authorities c'.authorities

merge_authority-Enrols : (c : Blockchain) (name : Str) → Enrols c (merge_authority c name)
unfolding merge_authority
merge_authority-Enrols c name = record {
  rest = ground arith;
  kept = λ other h. ground (arith, member-set_insert other name c.authorities);
}

pub merge_authorities-Enrols :
    (c : Blockchain) (names : Authorities) → Enrols c (merge_authorities c names)
unfolding merge_authorities
merge_authorities-Enrols c [] = record { rest = refl; kept = λ name h. h }
merge_authorities-Enrols c (name ∷ names) =
    let p = merge_authority-Enrols c name in
    let q = merge_authorities-Enrols (merge_authority c name) names in
    let e = (merge_authorities (merge_authority c name) names).authorities in
    record {
      rest = q.rest ∙ ap (λ (x : Blockchain). record x { authorities = e }) p.rest;
      kept = λ other h. q.kept other (p.kept other h);
    }
