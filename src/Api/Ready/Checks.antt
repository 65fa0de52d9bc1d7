-- ===== src/Api/Ready/Checks.antt =====
-- api/prices.rs: what it takes for the outside checks of readiness to pass.
use so4_oracle.Prelude.{
  ℕ, zero, suc, ◌*◌, ◌≤◌, ◌<◌, ◌≡◌, refl, false, Bool, Bool-cases, inl, inr, arith, sym, subst, ◌∙◌,
  ◌+◌,
}
use so4_oracle.Prelude.Int.{ℤ}
use so4_oracle.Prelude.Result.{Result, ok, err, Result-cases}
use so4_oracle.Rpc.{RpcError}
use so4_oracle.Api.Ready.{
  Outside, probe_rpc, is_below_minimum, probe_rounds, retry_ready_probe,
  perform_external_ready_checks, probe_rpc_reachability, balance_verdict,
}

-- The attempts of a probe from a state: how many failed so far, the next delay in milliseconds and
-- the state of the next attempt.
pub data Attempt {S E T : Type 0} (sleep : ℕ → S → S) (probe : S → Result E T × S) (s : S)
    : ℕ → ℕ → S → Type 0 where
  first : Attempt sleep probe s 0 100 s
  again :
      {n delay : ℕ} {w : S} (e : E)
      → Attempt sleep probe s n delay w
      → (probe w).0 ≡ err e
      → Attempt sleep probe s (suc n) (delay * 2) (sleep delay (probe w).1)

-- One of at most three attempts, made in the state `w`, gives the value.
abbrev pub Gives : {S E T : Type 0} → (ℕ → S → S) → (S → Result E T × S) → (s w : S) → T → Type 0
Gives sleep probe s w value =
    (n : ℕ) × (delay : ℕ) × (n ≤ 2) × Attempt sleep probe s n delay w × ((probe w).0 ≡ ok value)

module _ {S E T : Type 0} (sleep : ℕ → S → S) (probe : S → Result E T × S) (is_terminal : E → Bool)
    (s : S) where
  rounds_give :
      (left n delay : ℕ) (w : S) (value : T)
      → n + left ≤ 2
      → Attempt sleep probe s n delay w
      → (probe_rounds sleep probe is_terminal left delay w).0 ≡ ok value
      → (u : S) × Gives sleep probe s u value
        × ((probe_rounds sleep probe is_terminal left delay w).1 ≡ (probe u).1)
  unfolding probe_rounds
  rounds_give zero n delay w value few tried h = (w, (n, delay, omega arith, tried, h), refl)
  rounds_give (suc left) n delay w value few tried h = elim (Result-cases (probe w).0) [
    | inl (v, q) ↦ (w, (n, delay, omega arith, tried, ground (arith, q)), rw (q, probe_rounds) refl)
    | inr (e, q) ↦ elim (Bool-cases (is_terminal e)) [
      | inl t ↦ absurd (ground (arith, q, t))
      | inr t ↦
          rw (q, t, probe_rounds)
            (rounds_give left (suc n) (delay * 2) (sleep delay (probe w).1) value (omega arith)
              (again e tried q) (rw (q, t, probe_rounds) at h))
    ]
  ]

  retry_ready_probe-Gives :
      (value : T)
      → (retry_ready_probe sleep probe is_terminal s).0 ≡ ok value
      → (u : S) × Gives sleep probe s u value
        × ((retry_ready_probe sleep probe is_terminal s).1 ≡ (probe u).1)
  unfolding retry_ready_probe
  retry_ready_probe-Gives value h = rounds_give 2 0 100 s value (omega arith) first h

module _ {S : Type 0} (outside : Outside S) where
  -- The outside checks that begin in `s` passed and ended in `done`: one of three requests to the RPC
  -- was answered with a status of success, and then one of three balance checks gave a balance.
  pub record Passed (s done : S) : Type 0 where
    pub asking : S
    pub reached : Gives outside.sleep (probe_rpc outside) s asking tt
    pub status : ℕ
    pub answer : (outside.http_get_rpc asking).0 ≡ ok status
    pub success : (200 ≤ status) × (status < 300)
    pub looking : S
    pub stroops : ℤ
    pub funded :
        Gives outside.sleep outside.check_keeper_balance
          (outside.http_get_rpc asking).1
          looking
          stroops
    pub over : (outside.check_keeper_balance looking).1 ≡ done

  probe_rpc-success :
      (w : S)
      → (probe_rpc outside w).0 ≡ ok tt
      → (status : ℕ) × ((outside.http_get_rpc w).0 ≡ ok status) × (200 ≤ status) × (status < 300)
  unfolding probe_rpc_reachability
  probe_rpc-success w h = elim (Result-cases (outside.http_get_rpc w).0) [
    | inl (status, q) ↦ (status, q, ground (arith, q), ground (arith, q))
    | inr (e, q) ↦ absurd (ground (arith, q))
  ]

  balance_verdict-ok :
      (r : Result RpcError ℤ) → balance_verdict r ≡ ok tt → (stroops : ℤ) × (r ≡ ok stroops)
  unfolding balance_verdict
  balance_verdict-ok (ok stroops) h = (stroops, refl)
  balance_verdict-ok (err e) h = absurd (ground arith)

  pub perform_external_ready_checks-Passed :
      (s : S)
      → (perform_external_ready_checks outside s).0 ≡ ok tt
      → Passed s (perform_external_ready_checks outside s).1
  unfolding perform_external_ready_checks
  perform_external_ready_checks-Passed s h =
      let reach = retry_ready_probe outside.sleep (probe_rpc outside) (λ e. false) s in
      elim (Result-cases reach.0) [
        | inr (e, q) ↦ absurd (ground (arith, q))
        | inl (v, q) ↦
            let g = retry_ready_probe-Gives outside.sleep (probe_rpc outside) (λ e. false) s v q in
            let sound = probe_rpc-success g.0 g.1.4 in
            let b = balance_verdict-ok _ (rw (q, perform_external_ready_checks) at h) in
            let k =
              retry_ready_probe-Gives outside.sleep outside.check_keeper_balance is_below_minimum
                reach.1 b.0 b.1 in
            record {
              asking = g.0;
              reached = g.1;
              status = sound.0;
              answer = sound.1;
              success = (sound.2, sound.3);
              looking = k.0;
              stroops = b.0;
              funded =
                  subst (λ w. Gives outside.sleep outside.check_keeper_balance w k.0 b.0) g.2 k.1;
              over = sym k.2 ∙ rw (q, perform_external_ready_checks) refl;
            }
      ]
