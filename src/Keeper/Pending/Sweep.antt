-- ===== src/Keeper/Pending/Sweep.antt =====
-- The sweep passes over no more keys and no fewer, and the rotation loses none.
use so4_oracle.Prelude.{
  ℕ, ◌≤◌, ◌≡◌, subst, ◌&&◌, List, ◌++◌, String, length, take, drop, take-append-drop, ltb, arith,
  inl, inr, Bool-cases,
}
use so4_oracle.Prelude.Map.{Map, Unique, lookup-retain}
use mathlib.Core.List.{Permᴰ}
use mathlib.Core.List.Permᴰ.{append_comm, refl as perm_refl}
use so4_oracle.Keeper.Item.{claim_key}
use so4_oracle.Keeper.Item.View.{is_some}
use so4_oracle.Keeper.Pending.{is_live, sweep_expired_in_flight_keys, rotate}

-- Where each key stands once among the claims: after a sweep a key can be claimed exactly if it could
-- be claimed before, at any moment from the sweep on.
pub claim_key-sweep_expired_in_flight_keys :
    (swept now : ℕ) (key : String) (in_flight : Map ℕ)
    → Unique in_flight
    → swept ≤ now
    → is_some (claim_key now key (sweep_expired_in_flight_keys swept in_flight))
      ≡ is_some (claim_key now key in_flight)
unfolding claim_key sweep_expired_in_flight_keys
claim_key-sweep_expired_in_flight_keys swept now key in_flight u h =
    ground (arith, lookup-retain (is_live swept) key in_flight u)

-- From any start index, also one behind the last key, the rotation works on each of the keys once.
pub rotate-Perm : {A : Type 0} (start : ℕ) (keys : List A) → Permᴰ (rotate start keys) keys
unfolding rotate
rotate-Perm start keys = elim (Bool-cases (ltb 0 start && ltb start (length keys))) [
  | inr b ↦ rw b (perm_refl keys)
  | inl b ↦ rw b (
      subst (Permᴰ (drop start keys ++ take start keys)) (take-append-drop start keys)
        (append_comm (drop start keys) (take start keys)))
]
