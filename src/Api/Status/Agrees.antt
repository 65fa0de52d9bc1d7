-- ===== src/Api/Status/Agrees.antt =====
-- api/admin.rs: the balance that is shown and the flag that the service keeps.
use so4_oracle.Prelude.{
  ℕ, ◌≡◌, refl, sym, ap, not, Bool, true, false, Bool-cases, inl, inr, Option, none, some, String,
  ◌∙◌,
}
use so4_oracle.Prelude.Int.{ℤ}
use so4_oracle.Prelude.Result.{Result, ok, err, ◌>>=◌, ◌>>◌, ensure, ok_or, map_err, transfer_ok}
use so4_oracle.Float.{Float}
use so4_oracle.Retry.Bounds.{retry_with_backoff-returns}
use so4_oracle.Rpc
use so4_oracle.Rpc.{
  RpcError, network_error, http_error, json_error, unfunded_account, balance_below_minimum,
}
use so4_oracle.Keeper.Cycle.{is_balance_low}
use so4_oracle.Keeper.Balance.{
  Horizon, KeeperBalanceConfig, check_keeper_balance, get_account_balance_stroops, read_account,
  parse_account_balance_response, parse_xlm_balance_to_stroops, stroops_of, judge_balance,
  spendable_xlm,
}
use so4_oracle.Api.Status.{
  BalanceResponse, pause_beside, check_balance, balance_with_retry, build_balance_response,
  balance_answer, keeper_balance,
}

-- The error, where there is one, is not that of a low balance.
data Elsewhere {A : Type 0} : Result RpcError A → Type 0 where
  read : {a : A} → Elsewhere (ok a)
  failed : {e : RpcError} → is_balance_low (err e) ≡ false → Elsewhere (err e)

bind-Elsewhere :
    {A B : Type 0} {m : Result RpcError A} {g : A → Result RpcError B}
    → Elsewhere m
    → ((a : A) → Elsewhere (g a))
    → Elsewhere (m >>= g)
bind-Elsewhere (read {a}) k = k a
bind-Elsewhere (failed h) k = failed h

then-Elsewhere :
    {B : Type 0} {m : Result RpcError (Unit {0})} {r : Result RpcError B}
    → Elsewhere m
    → Elsewhere r
    → Elsewhere (m >> r)
then-Elsewhere read k = k
then-Elsewhere (failed h) k = failed h

ok_or-Elsewhere :
    {A : Type 0} (o : Option A) (e : RpcError)
    → is_balance_low (err e) ≡ false
    → Elsewhere (ok_or o e)
ok_or-Elsewhere none e h = failed h
ok_or-Elsewhere (some a) e h = read

map_err-Elsewhere :
    {E A : Type 0} (g : E → RpcError) (r : Result E A)
    → ((e : E) → is_balance_low (err (g e)) ≡ false)
    → Elsewhere (map_err g r)
map_err-Elsewhere g (ok a) h = read
map_err-Elsewhere g (err e) h = failed (h e)

ensure-Elsewhere :
    (b : Bool) (e : RpcError) → is_balance_low (err e) ≡ false → Elsewhere (ensure b e)
ensure-Elsewhere true e h = read
ensure-Elsewhere false e h = failed h

stroops_of-Elsewhere : (raw whole fraction : String) → Elsewhere (stroops_of raw whole fraction)
unfolding stroops_of
stroops_of-Elsewhere raw whole fraction =
    search (bind-Elsewhere, then-Elsewhere, ok_or-Elsewhere, ensure-Elsewhere)

module _ {W F : Type 0} (f : Float F) (horizon : Horizon W F) (cfg : KeeperBalanceConfig F) where
  parse_account_balance_response-Elsewhere :
      (body : String) → Elsewhere (parse_account_balance_response f horizon cfg body)
  unfolding parse_account_balance_response parse_xlm_balance_to_stroops
  parse_account_balance_response-Elsewhere body =
      search (bind-Elsewhere, ok_or-Elsewhere, map_err-Elsewhere, stroops_of-Elsewhere)

  read_account-Elsewhere :
      (response : Result String (ℕ × String)) → Elsewhere (read_account f horizon cfg response)
  unfolding read_account
  read_account-Elsewhere response =
      search
        (
          bind-Elsewhere, then-Elsewhere, ensure-Elsewhere, map_err-Elsewhere,
          parse_account_balance_response-Elsewhere,
        )
        depth 8

  -- A balance that is read sets the flag to whether it is below the minimum, and is shown as it is.
  abbrev Judged : Result RpcError ℤ × (Bool × W) → Type 0
  Judged (ok stroops, (below, w)) =
      (below ≡ false) × (f.lt (spendable_xlm f horizon cfg stroops) cfg.min_balance_xlm ≡ false)
  Judged (err (balance_below_minimum stroops balance minimum), (below, w)) =
      (below ≡ true)
      × (f.lt (spendable_xlm f horizon cfg stroops) cfg.min_balance_xlm ≡ true)
      × (balance ≡ horizon.show_xlm (spendable_xlm f horizon cfg stroops))
      × (minimum ≡ horizon.show_xlm cfg.min_balance_xlm)
  Judged (err (network_error e), s) = Unit
  Judged (err (unfunded_account e), s) = Unit
  Judged (err (http_error n e), s) = Unit
  Judged (err (json_error e), s) = Unit
  Judged (err (Rpc.rpc_fault c e), s) = Unit

  judge_balance-Judged :
      (below : Bool) (w : W) (r : Result RpcError ℤ)
      → Elsewhere r
      → let (stroops, below') = judge_balance f horizon cfg below r in Judged (stroops, (below', w))
  unfolding judge_balance
  judge_balance-Judged below w (ok stroops) h =
      elim (Bool-cases (f.lt (spendable_xlm f horizon cfg stroops) cfg.min_balance_xlm)) [
        | inl low ↦ rw low (refl, low, refl, refl)
        | inr fine ↦ rw fine (refl, fine)
      ]
  judge_balance-Judged below w (err (balance_below_minimum s b m)) (failed h) = absurd (cc h)
  judge_balance-Judged below w (err (network_error e)) h = tt
  judge_balance-Judged below w (err (unfunded_account e)) h = tt
  judge_balance-Judged below w (err (http_error n e)) h = tt
  judge_balance-Judged below w (err (json_error e)) h = tt
  judge_balance-Judged below w (err (Rpc.rpc_fault c e)) h = tt

  module _ (pause : ℕ → W → W) where
    check_balance-Judged : (s : Bool × W) → Judged (check_balance f horizon cfg pause s)
    unfolding check_balance check_keeper_balance get_account_balance_stroops
    check_balance-Judged (below, w) = judge_balance-Judged below _ _ (read_account-Elsewhere _)

    balance_with_retry-Judged : (s : Bool × W) → Judged (balance_with_retry f horizon cfg pause s)
    unfolding balance_with_retry
    balance_with_retry-Judged s =
        retry_with_backoff-returns Rpc.is_retryable (pause_beside f horizon cfg pause)
          (check_balance f horizon cfg pause) Judged 2 _ _ s check_balance-Judged

    answer_of :
        (r : Result RpcError ℤ × (Bool × W)) (shown : BalanceResponse)
        → Judged r
        → balance_answer f horizon cfg pause r.0 ≡ ok shown
        → (shown.is_funded ≡ not r.1.0)
          × (shown ≡ build_balance_response f horizon cfg pause shown.balance_stroops)
    unfolding balance_answer build_balance_response
    answer_of (ok stroops, (below, w)) shown h e =
        transfer_ok
          (λ b.
            (b.is_funded ≡ not below)
            × (b ≡ build_balance_response f horizon cfg pause b.balance_stroops))
          e (ap not (h.1 ∙ sym h.0), refl)
    answer_of (err (balance_below_minimum stroops b m), (below, w)) shown h e =
        transfer_ok
          (λ b.
            (b.is_funded ≡ not below)
            × (b ≡ build_balance_response f horizon cfg pause b.balance_stroops))
          e
          (
            ap not (sym h.0),
            λ i. record {
              account_id = cfg.account_id;
              balance_stroops = stroops;
              balance_xlm = h.2 i;
              min_balance_xlm = h.3 i;
              is_funded = ap not (sym h.1) i;
            },
          )
    answer_of (err (network_error e), (below, w)) shown h x = absurd (cc x)
    answer_of (err (unfunded_account e), (below, w)) shown h x = absurd (cc x)
    answer_of (err (http_error n e), (below, w)) shown h x = absurd (cc x)
    answer_of (err (json_error e), (below, w)) shown h x = absurd (cc x)
    answer_of (err (Rpc.rpc_fault c e), (below, w)) shown h x = absurd (cc x)

    -- Whatever Horizon answers in the three attempts: where the route shows a balance, it says that
    -- the keeper is funded exactly if the flag that the keeper loop and readiness share says so
    -- afterwards, and both branches show the balance that the stroops come to without the reserve.
    pub keeper_balance-agrees :
        (s : Bool × W) (shown : BalanceResponse)
        → (keeper_balance f horizon cfg pause s).0 ≡ ok shown
        → (shown.is_funded ≡ not (keeper_balance f horizon cfg pause s).1.0)
          × (shown ≡ build_balance_response f horizon cfg pause shown.balance_stroops)
    unfolding keeper_balance
    keeper_balance-agrees s shown h =
        answer_of (balance_with_retry f horizon cfg pause s) shown (balance_with_retry-Judged s) h
