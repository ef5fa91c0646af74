-- ===== src/Node/Identity.antt =====
-- `NodeIdentity::load_or_create` of zion-core/src/identity.rs: the key of a node in its file. The key that
-- ed25519-dalek would generate is an argument, known by its seed, and so is where the file system fails.
use block_rock.Base.{
  ◌≡◌, inl, inr, ap, Bool-cases, arith, true, Option, none, some, Bytes, Str, nat_eq, if◌then◌else◌,
  length,
}
use block_rock.Crypto.{SigningKey}
use block_rock.Node.{NodeIdentity}

-- What `fs::read` finds.
pub data KeyFile : Type 0 where
  not_found unreadable : KeyFile
  holds : Bytes → KeyFile

-- The first operation that fails when a key is stored. A failed write may have written anything.
pub data KeyFailure : Type 0 where
  never in_create_dir in_set_permissions : KeyFailure
  in_write : Bytes → KeyFailure

abbrev pub identity_of : Str → SigningKey → NodeIdentity
identity_of name key = record { name = name; signing_key = key }

-- Storing a new key.
unfoldable pub create_key : Str → SigningKey → KeyFailure → KeyFile × Option NodeIdentity
create_key name key never = (holds key, some (identity_of name key))
create_key name key in_create_dir = (not_found, none)
create_key name key in_set_permissions = (holds key, none)
create_key name key (in_write partial) = (holds partial, none)

-- The file afterwards, and the identity, if there is one.
unfoldable pub load_or_create_key :
    Str → SigningKey → KeyFailure → KeyFile → KeyFile × Option NodeIdentity
unfolding create_key
load_or_create_key name generated failure not_found = create_key name generated failure
load_or_create_key name generated failure unreadable = (unreadable, none)
load_or_create_key name generated failure (holds seed) =
    if nat_eq (length seed) 32
    then (holds seed, some (identity_of name seed))
    else (holds seed, none)

-- A node that got its identity once gets the same one at every later start, whatever key would be
-- generated then and whatever would fail: the key is in its file. A generated key has 32 bytes.
pub load_or_create_key-again :
    (name : Str) (key key' : SigningKey) (failure failure' : KeyFailure) (file : KeyFile)
    {identity : NodeIdentity}
    → nat_eq (length key) 32 ≡ true
    → (load_or_create_key name key failure file).1 ≡ some identity
    → load_or_create_key name key' failure' (load_or_create_key name key failure file).0
      ≡ ((load_or_create_key name key failure file).0, some identity)
unfolding load_or_create_key create_key
load_or_create_key-again name key key' never failure' not_found {identity} l e =
    rw l (ap (λ o. (holds key, o)) e)
load_or_create_key-again name key key' in_create_dir failure' not_found l e = cc
load_or_create_key-again name key key' in_set_permissions failure' not_found l e = cc
load_or_create_key-again name key key' (in_write partial) failure' not_found l e = cc
load_or_create_key-again name key key' failure failure' unreadable l e = cc
load_or_create_key-again name key key' failure failure' (holds seed) {identity} l e =
    elim (Bool-cases (nat_eq (length seed) 32)) [
      | inl full ↦
          rw (full, load_or_create_key) (rw full (ap (λ o. (holds seed, o)) (rw full at e)))
      | inr short ↦ ground (arith, short, e)
    ]
