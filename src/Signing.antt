-- ===== src/Signing.antt =====
-- signing.rs: the bytes that a price's signature covers. The key type, ed25519 and the hex codec are
-- third-party code and enter as the record `Signer`.
pub mod Message
use so4_oracle.Prelude.{
  ℕ, zero, suc, ◌-◌, ◌/◌, ◌%◌, ◌^◌, ◌==◌, Option, none, some, List, [], ◌∷◌, ◌++◌, String, length,
  if◌then◌else◌,
}
use so4_oracle.Prelude.Int.{ℤ, pos, negsuc}
use so4_oracle.Prelude.Result.{Result, ok, err, ◌>>=◌, ◌>>◌, ensure, ok_or}
use so4_oracle.Prelude.Text.{as_bytes}

-- `hex_encode` is that of a signature's bytes.
pub record Signer (K : Type 0) : Type 0 where
  pub hex_decode : String → Option (List ℕ)
  pub from_bytes : List ℕ → K
  pub sign : K → List ℕ → List ℕ
  pub hex_encode : List ℕ → String

pub data SigningError : Type 0 where
  missing_private_key : SigningError
  invalid_hex_key : SigningError
  invalid_key_length : SigningError

unfoldable pub display : SigningError → String
display missing_private_key = "KEEPER_PRIVATE_KEY is not set"
display invalid_hex_key = "KEEPER_PRIVATE_KEY is not valid hex"
display invalid_key_length = "KEEPER_PRIVATE_KEY must be exactly 32 bytes (64 hex chars)"

-- `n.to_be_bytes()` at a width of so many bytes.
unfoldable pub to_be_bytes : (width : ℕ) → ℕ → List ℕ
to_be_bytes zero n = []
to_be_bytes (suc width) n = to_be_bytes width (n / 256) ++ n % 256 ∷ []

-- The bits of an `i128`.
unfoldable pub bits_i128 : ℤ → ℕ
bits_i128 (pos n) = n
bits_i128 (negsuc n) = 2 ^ 128 - 1 - n

unfoldable pub build_price_message :
    (network_passphrase : String)
    → (ledger_seq : ℕ) → (token_strkey : String) → (min_price max_price : ℤ) → (timestamp : ℕ)
    → List ℕ
build_price_message network_passphrase ledger_seq token_strkey min_price max_price timestamp =
    as_bytes network_passphrase
    ++ (to_be_bytes 4 ledger_seq
        ++ (as_bytes token_strkey
            ++ (to_be_bytes 16 (bits_i128 min_price)
                ++ (to_be_bytes 16 (bits_i128 max_price) ++ to_be_bytes 8 timestamp))))

module _ {K : Type 0} (signer : Signer K) where
  unfoldable pub signing_key_from_hex : String → Result SigningError K
  signing_key_from_hex private_key_hex = do
    key_bytes ← ok_or (signer.hex_decode private_key_hex) invalid_hex_key
    ensure (length key_bytes == 32) invalid_key_length
    ok (signer.from_bytes key_bytes)

  unfoldable pub sign_price_with_key :
      K
      → (network_passphrase : String) → (ledger_seq : ℕ) → (token_strkey : String)
      → (min_price max_price : ℤ) → (timestamp : ℕ) → List ℕ
  sign_price_with_key key network_passphrase ledger_seq token_strkey min_price max_price timestamp =
      signer.sign key (
        build_price_message network_passphrase ledger_seq token_strkey min_price max_price
          timestamp)

  unfoldable pub sign_price :
      (private_key_hex network_passphrase : String)
      → (ledger_seq : ℕ) → (token_strkey : String) → (min_price max_price : ℤ) → (timestamp : ℕ)
      → Result SigningError (List ℕ)
  unfolding signing_key_from_hex sign_price_with_key
  sign_price private_key_hex network_passphrase ledger_seq token_strkey min_price max_price
        timestamp =
      do
        key ← signing_key_from_hex private_key_hex
        ok (
            sign_price_with_key key network_passphrase ledger_seq token_strkey min_price max_price
              timestamp)
