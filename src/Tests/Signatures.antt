-- ===== src/Tests/Signatures.antt =====
-- The theorem on signed messages.
use so4_oracle.Prelude.{◌≡◌, refl, arith}
use so4_oracle.Prelude.Int.{pos, fits_i128}
use so4_oracle.Prelude.Text.{as_bytes}
use so4_oracle.Signing.Message.{Quote, build_price_message-injective}

abbrev quote : Quote
quote = record {
  ledger_seq = 7;
  token_strkey = "CTOKEN";
  min_price = pos 955;
  max_price = pos 1_055;
  timestamp = 18;
}

build_price_message-injective_example :
    (quote.ledger_seq ≡ quote.ledger_seq)
    × (as_bytes quote.token_strkey ≡ as_bytes quote.token_strkey)
    × (quote.min_price ≡ quote.min_price)
    × (quote.max_price ≡ quote.max_price)
    × (quote.timestamp ≡ quote.timestamp)
unfolding fits_i128
build_price_message-injective_example =
    build_price_message-injective "Test" quote quote (omega arith, refl, refl, omega arith)
      (omega arith, refl, refl, omega arith) refl
