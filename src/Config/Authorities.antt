-- ===== src/Config/Authorities.antt =====
-- The list of authorities of zion-core/src/config.rs, written down and read back.
use block_rock.Base.{
  ℕ, ◌≡◌, refl, ap, false, some, List, [], ◌∷◌, ◌++◌, map, Bytes, Str, nat_eq, ok, All, All-append,
  insert, length,
}
use block_rock.Crypto.{VerifyingKey, Crypto}
use block_rock.Ledger.{Keys}
use block_rock.Text.{is_whitespace, trim, trim_start, trim_end, parts_from, split, split_once}
use block_rock.Text.Trim.{NotSpace, trim-NotSpace}
use block_rock.Config.{is_empty, colon, comma, parse_pair, parse_pairs, parse_authorities}

-- An authority, with its key as it is written in hex.
pub record Authority : Type 0 where
  pub name : Str
  pub hex : Str
  pub key : VerifyingKey

-- A byte that is neither white space nor a given separator.
abbrev Plain : ℕ → ℕ → Type 0
Plain separator c = NotSpace c × (nat_eq c separator ≡ false)

-- The text of the authority can be read: it has no white space and no comma, its name has no colon,
-- and its hex is that of its key, in 32 bytes.
pub record Readable ⦃crypto : Crypto⦄ (a : Authority) : Type 0 where
  pub plain_name : All (λ c. Plain comma c × (nat_eq c colon ≡ false)) a.name
  pub plain_hex : All (Plain comma) a.hex
  pub bytes : Bytes
  pub decoded : crypto.hex_decode a.hex ≡ ok bytes
  pub full : length bytes ≡ 32
  pub valid : crypto.from_bytes bytes ≡ ok a.key

-- "name:pubkey_hex"
abbrev pub pair_text : Authority → Str
pair_text a = a.name ++ (colon ∷ a.hex)

-- The pairs with commas between them.
unfoldable pub authorities_text : List Authority → Str
authorities_text [] = []
authorities_text (a ∷ []) = pair_text a
authorities_text (a ∷ b ∷ as') = pair_text a ++ (comma ∷ authorities_text (b ∷ as'))

-- The map that they stand for: of two keys of one name the later counts.
unfoldable pub authorities_map : List Authority → Keys → Keys
authorities_map [] keys = keys
authorities_map (a ∷ as') keys = authorities_map as' (insert a.name a.key keys)

parts_from-none : (x : Str) → All (Plain comma) x → parts_from comma x ≡ (x, [])
unfolding parts_from
parts_from-none [] h = refl
parts_from-none (c ∷ x) h = rw (parts_from-none x h.1, h.0.1) refl

parts_from-next :
    (x rest : Str)
    → All (Plain comma) x
    → parts_from comma (x ++ (comma ∷ rest))
      ≡ (x, (parts_from comma rest).0 ∷ (parts_from comma rest).1)
unfolding parts_from
parts_from-next [] rest h = refl
parts_from-next (c ∷ x) rest h = rw (parts_from-next x rest h.1, h.0.1) refl

Plain-NotSpace : (x : Str) → All (Plain comma) x → All NotSpace x
Plain-NotSpace [] h = tt
Plain-NotSpace (c ∷ x) h = (h.0.0, Plain-NotSpace x h.1)

trim-Plain : (x : Str) → All (Plain comma) x → trim x ≡ x
trim-Plain x h = trim-NotSpace x (Plain-NotSpace x h)

split_once-Plain :
    (x y : Str)
    → All (λ c. Plain comma c × (nat_eq c colon ≡ false)) x
    → split_once colon (x ++ (colon ∷ y)) ≡ some (x, y)
unfolding split_once
split_once-Plain [] y h = refl
split_once-Plain (c ∷ x) y h = rw (split_once-Plain x y h.1, h.0.1) refl

name-Plain : (x : Str) → All (λ c. Plain comma c × (nat_eq c colon ≡ false)) x → All (Plain comma) x
name-Plain [] h = tt
name-Plain (c ∷ x) h = (h.0.0, name-Plain x h.1)

module _ ⦃crypto : Crypto⦄ where
  pair_text-Plain : (a : Authority) → Readable a → All (Plain comma) (pair_text a)
  unfolding is_whitespace
  pair_text-Plain a r =
      All-append (Plain comma) a.name (colon ∷ a.hex) (name-Plain a.name r.plain_name)
        ((refl, refl), r.plain_hex)

  parse_pair_lem : (a : Authority) → Readable a → parse_pair (pair_text a) ≡ ok (a.name, a.key)
  unfolding parse_pair
  parse_pair_lem a r =
      rw
        (
          split_once-Plain a.name a.hex r.plain_name,
          trim-Plain a.hex r.plain_hex,
          r.decoded,
          r.full,
          r.valid,
        )
        refl

  not_empty : (a : Authority) → is_empty (pair_text a) ≡ false
  not_empty a = go a.name
    where
      go : (x : Str) → is_empty (x ++ (colon ∷ a.hex)) ≡ false
      go [] = refl
      go (c ∷ x) = refl

  parse_pairs_lem :
      (as' : List Authority) (keys : Keys)
      → All Readable as'
      → parse_pairs (map pair_text as') keys ≡ ok (authorities_map as' keys)
  unfolding parse_pairs authorities_map
  parse_pairs_lem [] keys h = refl
  parse_pairs_lem (a ∷ as') keys h =
      let same = trim-Plain (pair_text a) (pair_text-Plain a h.0) in
      rw (same, not_empty a, parse_pairs)
        (rw (same, parse_pair_lem a h.0) (parse_pairs_lem as' (insert a.name a.key keys) h.1))

  split-authorities_text :
      (a : Authority) (as' : List Authority)
      → All Readable (a ∷ as')
      → split comma (authorities_text (a ∷ as')) ≡ map pair_text (a ∷ as')
  unfolding split authorities_text
  split-authorities_text a [] h = rw (parts_from-none (pair_text a) (pair_text-Plain a h.0)) refl
  split-authorities_text a (b ∷ as') h =
      rw (parts_from-next (pair_text a) (authorities_text (b ∷ as')) (pair_text-Plain a h.0), split)
        (ap (λ parts. pair_text a ∷ parts) (split-authorities_text b as' h.1))

  no_authorities : parse_authorities [] ≡ ok []
  unfolding parse_authorities parse_pairs split parts_from trim trim_start trim_end
  no_authorities = refl

  -- A list of authorities that is written as "name:pubkey_hex" pairs with commas between them is read
  -- back as the map of their keys, in which the last key of a name counts. Names and hex must have no
  -- white space and no comma, names no colon, and each hex must decode to the 32 bytes of its key.
  pub parse_authorities_lem :
      (as' : List Authority)
      → All Readable as'
      → parse_authorities (authorities_text as') ≡ ok (authorities_map as' [])
  unfolding parse_authorities authorities_text authorities_map
  parse_authorities_lem [] h = no_authorities
  parse_authorities_lem (a ∷ as') h =
      rw (split-authorities_text a as' h) (parse_pairs_lem (a ∷ as') [] h)
