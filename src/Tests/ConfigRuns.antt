-- ===== src/Tests/ConfigRuns.antt =====
-- A list of two authorities, read from the environment.
use block_rock.Base.{◌≡◌, refl, List, [], ◌∷◌, ◌++◌, Str, codes, ok, err, All}
use block_rock.Text.{is_whitespace, trim, trim_start, trim_end, parts_from, split, split_once}
use block_rock.Crypto.{Crypto}
use block_rock.Tests.Sample.{toy}
use block_rock.Config.{not_a_pair, parse_pair, parse_pairs, parse_authorities}
use block_rock.Config.Authorities.{
  Authority, Readable, authorities_text, authorities_map, parse_authorities_lem,
}

-- The rest of every key is the same.
abbrev tail_bytes : Str
tail_bytes = codes "0123456789abcdef0123456789abcde"

abbrev padded : Crypto
padded = record toy { hex_decode = λ text. ok (text ++ tail_bytes) }

abbrev authority : Str → Str → Authority
authority name hex = record { name = name; hex = hex; key = hex ++ tail_bytes }

abbrev two : List Authority
two = authority (codes "n") (codes "k") ∷ authority (codes "m") (codes "l") ∷ []

two-Readable : All (Readable ⦃crypto = padded⦄) two
unfolding is_whitespace
two-Readable = (
  record {
    plain_name = (((refl, refl), refl), tt);
    plain_hex = ((refl, refl), tt);
    bytes = codes "k" ++ tail_bytes;
    decoded = refl;
    full = refl;
    valid = refl;
  },
  (
    record {
      plain_name = (((refl, refl), refl), tt);
      plain_hex = ((refl, refl), tt);
      bytes = codes "l" ++ tail_bytes;
      decoded = refl;
      full = refl;
      valid = refl;
    },
    tt,
  ),
)

parse_authorities_lem_example :
    parse_authorities ⦃crypto = padded⦄ (authorities_text two) ≡ ok (authorities_map two [])
parse_authorities_lem_example = parse_authorities_lem ⦃crypto = padded⦄ two two-Readable

-- A pair without a colon.
no_colon : parse_authorities ⦃crypto = padded⦄ (codes " n ,") ≡ err (not_a_pair (codes "n"))
unfolding parse_authorities parse_pairs parse_pair split split_once parts_from trim trim_start
    trim_end is_whitespace
no_colon = refl
