-- ===== src/Outbox/Delay.antt =====
-- apps/api/src/rigor_api/outbox.py: `retry_delay_seconds`.
use native.Mathlib.Nat.{mul-le-mul_left, mul-le-mul_right}
use leetcode_platform.Prelude.{
  ℕ, ◌≡◌, refl, ◌*◌, ◌+◌, ◌^◌, ◌≤◌, min, arith, leb, ltb, inl, inr, Bool-cases,
}
use leetcode_platform.Json.{pos}
use leetcode_platform.Execution.Status.{overflow_error}
use leetcode_platform.Execution.Action.{ok, err}
use leetcode_platform.Outbox.{Ratio, float_exponents, jittered, retry_delay_seconds}

jittered-bounds :
    (cap e : ℕ) (j : Ratio)
    → e ≤ cap
    → j.num ≤ j.den
    → ((jittered cap e j).den ≡ 2 * j.den)
      × (e * j.den ≤ (jittered cap e j).num)
      × ((jittered cap e j).num ≤ e * (2 * j.den))
unfolding jittered
jittered-bounds cap e j below unit =
    let up : e * (j.den + j.num) ≤ e * (2 * j.den) = mul-le-mul_left e (omega arith) in
    let room : e * (2 * j.den) ≤ cap * (2 * j.den) = mul-le-mul_right (2 * j.den) below in
    let low : e * j.den ≤ e * (j.den + j.num) = mul-le-mul_left e (omega arith) in
    (refl, omega arith, omega arith)

module _ (base cap n : ℕ) (j : Ratio) where
  -- A delay that is returned lies between a half and the whole of the exponential that the cap
  -- bounds: `e * den / (2 * den) ≤ delay ≤ e` for `e = min(cap, base * 2 ** n)`.
  pub delay_bounds :
      (d : Ratio)
      → retry_delay_seconds base cap (pos n) j ≡ ok d
      → (d.den ≡ 2 * j.den)
        × (min cap (base * 2 ^ n) * j.den ≤ d.num)
        × (d.num ≤ min cap (base * 2 ^ n) * (2 * j.den))
  unfolding retry_delay_seconds
  delay_bounds d h = elim (Bool-cases (ltb j.den j.num)) [
    | inl bad ↦ absurd (cc (rw bad at h))
    | inr good ↦ elim (Bool-cases (leb float_exponents n)) [
      | inl large ↦ absurd (cc (rw (good, large) at h))
      | inr small ↦
          let same : jittered cap (min cap (base * 2 ^ n)) j ≡ d = cc (rw (good, small) at h) in
          rw (← same) (jittered-bounds cap (min cap (base * 2 ^ n)) j (omega arith) (ground arith))
    ]
  ]

  pub delay-overflow :
      j.num ≤ j.den → 1024 ≤ n → retry_delay_seconds base cap (pos n) j ≡ err overflow_error
  unfolding retry_delay_seconds
  delay-overflow unit large = ground arith
