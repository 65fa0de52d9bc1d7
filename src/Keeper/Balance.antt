-- ===== src/Keeper/Balance.antt =====
-- stellar_rpc.rs and keeper.rs: the keeper's balance, read from Horizon and held against its minimum.
use Prim.Native.Char.{code}
use Prim.Native.String.{String}
use so4_oracle.Prelude.{
  ℕ, zero, suc, ◌+◌, ◌-◌, ◌*◌, ◌^◌, ◌==◌, ◌&&◌, not, ltb, Bool, true, false, Option, none, some,
  List, [], ◌∷◌, str_eq, if◌then◌else◌,
}
use so4_oracle.Prelude.Int.{ℤ, pos, negsuc, ◌+ℤ◌, ◌*ℤ◌}
use so4_oracle.Prelude.Number.{read_int}
use so4_oracle.Prelude.Result.{Result, ok, err, ◌>>=◌, ◌>>◌, ensure, ok_or, map_err}
use so4_oracle.Prelude.Text.{concat, trim, all_chars, is_ascii_digit}
use so4_oracle.Float.{Float, of_ℕ}
use so4_oracle.Rpc.{
  RpcError, network_error, http_error, json_error, unfunded_account, balance_below_minimum,
  truncate_error_body,
}

-- STROOPS_PER_XLM and XLM_IN_STROOPS, HORIZON_XLM_DECIMALS
abbrev pub stroops_per_xlm : ℤ
stroops_per_xlm = pos 10_000_000

abbrev pub horizon_xlm_decimals : ℕ
horizon_xlm_decimals = 7

-- `checked_*` of an `i64`.
unfoldable pub checked_i64 : ℤ → Option ℤ
checked_i64 (pos n) = if ltb n (2 ^ 63) then some (pos n) else none
checked_i64 (negsuc n) = if ltb n (2 ^ 63) then some (negsuc n) else none

-- `split_once('.')`, with an empty fraction where there is no point.
unfoldable pub split_point : String → String × String
split_point String.[] = ("", "")
split_point (String.◌∷◌ c s) =
    let (whole, fraction) = split_point s in
    if code c == b'.' then ("", s) else (String.◌∷◌ c whole, fraction)

-- The first so many digits, filled up with zeros.
unfoldable pub leading_digits : ℕ → ℕ → String → ℕ
leading_digits zero acc s = acc
leading_digits (suc n) acc String.[] = leading_digits n (acc * 10) ""
leading_digits (suc n) acc (String.◌∷◌ c s) = leading_digits n (acc * 10 + (code c - b'0')) s

abbrev is_blank : String → Bool
is_blank String.[] = true
is_blank (String.◌∷◌ c s) = false

abbrev unparseable : String → RpcError
unparseable raw = json_error (concat ("unparseable balance: " ∷ raw ∷ []))

abbrev parse_i64 : String → Option ℤ
parse_i64 s = elim (read_int s) [ none ↦ none | some n ↦ checked_i64 n ]

unfoldable pub stroops_of : (raw whole fraction : String) → Result RpcError ℤ
unfolding leading_digits
stroops_of raw whole fraction = do
  ensure
      (not (is_blank whole) && all_chars is_ascii_digit whole && all_chars is_ascii_digit fraction)
      (unparseable raw)
  whole_xlm ← ok_or (parse_i64 whole) (unparseable raw)
  stroops ← ok_or (checked_i64 (whole_xlm *ℤ stroops_per_xlm)) (unparseable raw)
  ok_or (checked_i64 (stroops +ℤ pos (leading_digits horizon_xlm_decimals 0 fraction)))
      (unparseable raw)

unfoldable pub parse_xlm_balance_to_stroops : String → Result RpcError ℤ
unfolding split_point
parse_xlm_balance_to_stroops raw =
    let (whole, fraction) = split_point (trim raw) in stroops_of raw whole fraction

pub record HorizonBalanceEntry : Type 0 where
  pub asset_type : String
  pub balance : String

abbrev find_native : List HorizonBalanceEntry → Option HorizonBalanceEntry
find_native [] = none
find_native (b ∷ rest) = if str_eq b.asset_type "native" then some b else find_native rest

pub record KeeperBalanceConfig (F : Type 0) : Type 0 where
  pub horizon_url : String
  pub account_id : String
  pub min_balance_xlm : F

-- `http_get` is the HTTP client's, `decode_account` is `serde_json::from_str` at the account's
-- type, and `show_xlm` displays an `f64`.
pub record Horizon (W F : Type 0) : Type 0 where
  pub http_get : String → W → Result String (ℕ × String) × W
  pub decode_account : String → Result String (List HorizonBalanceEntry)
  pub show_xlm : F → String

module _ {W F : Type 0} (f : Float F) (horizon : Horizon W F) (cfg : KeeperBalanceConfig F) where
  unfoldable pub parse_account_balance_response : String → Result RpcError ℤ
  parse_account_balance_response body = do
    balances ← map_err json_error (horizon.decode_account body)
    native ← ok_or (find_native balances) (json_error "no native balance entry")
    parse_xlm_balance_to_stroops native.balance

  -- Status 404 says that the account is not funded.
  unfoldable pub read_account : Result String (ℕ × String) → Result RpcError ℤ
  read_account response = do
    reply ← map_err network_error response
    ensure (not (reply.0 == 404)) (unfunded_account cfg.account_id)
    ensure (reply.0 == 200) (http_error reply.0 (truncate_error_body reply.1))
    parse_account_balance_response reply.1

  unfoldable pub get_account_balance_stroops : W → Result RpcError ℤ × W
  get_account_balance_stroops w =
      let url = concat (cfg.horizon_url ∷ "/accounts/" ∷ cfg.account_id ∷ []) in
      let (response, w') = horizon.http_get url w in (read_account response, w')

  -- The balance in XLM without the base reserve of 1 XLM.
  abbrev pub spendable_xlm : ℤ → F
  spendable_xlm stroops = f.sub (f.div (f.of_int stroops) (f.of_int stroops_per_xlm)) (of_ℕ f 1)

  -- The flag of a balance below its minimum is the second component; an unreadable balance leaves it.
  unfoldable pub judge_balance : Bool → Result RpcError ℤ → Result RpcError ℤ × Bool
  judge_balance below_min (err e) = (err e, below_min)
  judge_balance below_min (ok stroops) =
      if f.lt (spendable_xlm stroops) cfg.min_balance_xlm
      then (
        err (
            balance_below_minimum stroops (horizon.show_xlm (spendable_xlm stroops))
              (horizon.show_xlm cfg.min_balance_xlm)),
        true,
      )
      else (ok stroops, false)

  unfoldable pub check_keeper_balance : Bool → W → (Result RpcError ℤ × Bool) × W
  check_keeper_balance below_min w =
      let (stroops, w') = get_account_balance_stroops w in (judge_balance below_min stroops, w')
