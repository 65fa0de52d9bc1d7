-- ===== src/Chain/ScVal.antt =====
-- chain/scval.rs: the contract values that carry signed prices. Strkeys and hex are decoded by
-- third-party crates, which enter as the record `Codec`.
pub mod Parts
use so4_oracle.Prelude.{
  ℕ, suc, ◌+◌, ◌-◌, ◌*◌, ◌/◌, ◌%◌, ◌^◌, Bool, not, Option, none, some, List, [], ◌∷◌, String,
  length, ltb, leb, ◌==◌, if◌then◌else◌,
}
use so4_oracle.Prelude.Int.{ℤ, pos, negsuc}
use so4_oracle.Prelude.Result.{Result, ok, err, ◌>>=◌, ◌>>◌, ensure}
use so4_oracle.Prelude.Text.{concat, show_nat}
use so4_oracle.State.{CachedPrice}

-- The payloads are the decoded bytes.
pub data Strkey : Type 0 where
  public_key_ed25519 : List ℕ → Strkey
  contract : List ℕ → Strkey
  other : String → Strkey

pub data ScAddress : Type 0 where
  account : List ℕ → ScAddress
  contract_id : List ℕ → ScAddress

pub record Int128Parts : Type 0 where
  pub hi : ℤ
  pub lo : ℕ

mutual
  pub data ScVal : Type 0 where
    u32 : ℕ → ScVal
    u64 : ℕ → ScVal
    i128 : Int128Parts → ScVal
    bytes : List ℕ → ScVal
    symbol : String → ScVal
    address : ScAddress → ScVal
    vec : ScVec → ScVal
    map : ScMap → ScVal

  pub data ScVec : Type 0 where
    nil : ScVec
    cons : ScVal → ScVec → ScVec

  -- Each key is a symbol.
  pub data ScMap : Type 0 where
    end : ScMap
    entry : String → ScVal → ScMap → ScMap

pub record Codec : Type 0 where
  pub strkey_from_string : String → Result String Strkey
  pub hex_decode : String → Result String (List ℕ)

-- `hi = (value >> 64) as i64`, an arithmetic shift, and `lo = value as u64`.
unfoldable pub i128_to_int128_parts : ℤ → Int128Parts
i128_to_int128_parts (pos n) = record { hi = pos (n / 2 ^ 64); lo = n % 2 ^ 64 }
i128_to_int128_parts (negsuc n) = record { hi = negsuc (n / 2 ^ 64); lo = 2 ^ 64 - 1 - n % 2 ^ 64 }

module _ (codec : Codec) where
  unfoldable pub strkey_to_sc_address : String → Result String ScAddress
  strkey_to_sc_address strkey = elim (codec.strkey_from_string strkey) [
    | err e ↦ err (concat ("invalid strkey '" ∷ strkey ∷ "': " ∷ e ∷ []))
    | ok decoded ↦ elim decoded [
      | public_key_ed25519 pk ↦ ok (account pk)
      | contract c ↦ ok (contract_id c)
      | other kind ↦ err (concat ("unsupported strkey type: " ∷ kind ∷ []))
    ]
  ]

  -- `MuxedAccount::Ed25519` of the key's bytes.
  unfoldable pub account_strkey_to_muxed : String → Result String (List ℕ)
  account_strkey_to_muxed strkey = elim (codec.strkey_from_string strkey) [
    | err e ↦ err (concat ("invalid strkey '" ∷ strkey ∷ "': " ∷ e ∷ []))
    | ok decoded ↦ elim decoded [
      | public_key_ed25519 pk ↦ ok pk
      | contract c ↦ err "expected G... account strkey, got: Contract"
      | other kind ↦ err (concat ("expected G... account strkey, got: " ∷ kind ∷ []))
    ]
  ]

  decode_signature : String → Result String (List ℕ)
  decode_signature signature = elim (codec.hex_decode signature) [
    | err e ↦ err (concat ("invalid signature hex: " ∷ e ∷ []))
    | ok sig ↦ ok sig
  ]

  -- The entries stand in the order of their keys, as a contract's map must.
  unfoldable pub encode_signed_price : CachedPrice → Result String ScVal
  unfolding decode_signature
  encode_signed_price price = do
    sig_bytes ← decode_signature price.signature
    ensure (length sig_bytes == 64)
        (concat ("signature must be 64 bytes, got " ∷ show_nat (length sig_bytes) ∷ []))
    contract_addr ← strkey_to_sc_address price.token_address
    ok (
        map (
          entry "keeper_index" (u32 price.keeper_index) (
            entry "ledger_seq" (u32 price.ledger_seq) (
              entry "max_price" (i128 (i128_to_int128_parts price.max_price)) (
                entry "min_price" (i128 (i128_to_int128_parts price.min_price)) (
                  entry "signature" (bytes sig_bytes) (
                    entry "timestamp" (u64 price.timestamp)
                      (entry "token" (address contract_addr) end))))))))

  encode_all : List CachedPrice → Result String ScVec
  encode_all [] = ok nil
  encode_all (p ∷ ps) = do val ← encode_signed_price p; vals ← encode_all ps; ok (cons val vals)

  unfoldable pub encode_prices_vec : List CachedPrice → Result String ScVal
  unfolding encode_all
  encode_prices_vec prices = do vals ← encode_all prices; ok (vec vals)
