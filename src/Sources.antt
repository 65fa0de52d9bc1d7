-- ===== src/Sources.antt =====
-- The price sources: what each of them asks for, and how it reads the answer.
pub mod Token
pub mod Web
pub mod Decimal
pub mod Price
pub mod Binance
pub mod Coinbase
pub mod Pyth
pub mod Fixed
