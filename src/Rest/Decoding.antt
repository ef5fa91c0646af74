-- ===== src/Rest/Decoding.antt =====
-- How zion-core/src/api/rest.rs answers what it refuses, and how it reads hex: its `decode_signature` and
-- `decode_public_key`. A failure carries its message; `response` is what the client sees of it.
use block_rock.Base.{
  ℕ, Option, none, some, Str, nat_eq, Result, ok, ◌>>=◌, ◌>>◌, guard, map_err, length,
}
use block_rock.Crypto.{Crypto, Signature, VerifyingKey}
use block_rock.Message.{
  Message, signature_not_hex, public_key_not_hex, invalid_public_key, signature_length,
  public_key_length, message_text,
}
use block_rock.Text.{trim}
use block_rock.Text.Decimal.{decimal}

-- `ledger::BLOCK_TIME` in seconds
abbrev pub block_time : ℕ
block_time = 5

pub data Status : Type 0 where
  bad_request not_found conflict too_many_requests internal_server_error : Status

-- The body is the message.
pub record ApiFailure : Type 0 where
  pub status : Status
  pub body : Message
  pub retry_after : Option ℕ

abbrev pub failure : Status → Message → ApiFailure
failure status message = record { status = status; body = message; retry_after = none }

-- The function `bad_request`.
abbrev pub refused : Message → ApiFailure
refused message = failure bad_request message

-- The function `too_many_requests`.
abbrev pub full : Message → ApiFailure
full message = record { status = too_many_requests; body = message; retry_after = some block_time }

-- What goes out: the status, the text of the body, and the header `Retry-After`.
pub record Response : Type 0 where
  pub status : Status
  pub error : Str
  pub retry_after : Option Str

abbrev header : Option ℕ → Option Str
header none = none
header (some seconds) = some (decimal seconds)

-- `ApiFailure::respond_to`
unfoldable pub respond_to : ApiFailure → Response
unfolding message_text decimal
respond_to f = record {
  status = f.status;
  error = message_text f.body;
  retry_after = header f.retry_after;
}

module _ ⦃crypto : Crypto⦄ where
  unfoldable pub decode_signature : Str → Result ApiFailure Signature
  unfolding trim
  decode_signature signature = do
    bytes ← map_err (λ e. refused (signature_not_hex e)) (crypto.hex_decode (trim signature))
    guard (nat_eq (length bytes) 64) (refused signature_length)
    ok bytes

  unfoldable pub decode_public_key : Str → Result ApiFailure VerifyingKey
  unfolding trim
  decode_public_key public_key = do
    bytes ← map_err (λ e. refused (public_key_not_hex e)) (crypto.hex_decode (trim public_key))
    guard (nat_eq (length bytes) 32) (refused public_key_length)
    map_err (λ e. refused (invalid_public_key e)) (crypto.from_bytes bytes)
