-- ===== src/Wallet/Amounts/Exact.antt =====
-- mongoose-wallet.reposiotry.ts: what a debit takes in all, after the rounding of the balances.
use empire_backend.Base.{
  ℕ, ◌+◌, ◌-◌, ◌*◌, ◌/◌, ◌%◌, ◌≤◌, ◌<◌, ◌≡◌, refl, ◌⊎◌, inl, inr, true, false, Bool-cases,
  if◌then◌else◌, ◌&&◌, leb, ltb, ◌==◌, arith, subst,
}
use empire_backend.Base.Int.{pos, ltb_ℤ, ◌-ℤ◌, -ℤ-pos}
use native.Mathlib.Nat.{mul_assoc, mul_comm, mul-div_cancel_left}
use empire_backend.Base.Results.{ok, bad_request, ok-injective, err-ne-ok}
use empire_backend.Wallet.{Wallet, WalletTransactionDto}
use empire_backend.Wallet.Amounts.{
  to_fixed, Deductions, lesser, check_winning, calculate_deductions, update_balances,
}
use empire_backend.Wallet.Checks.{plan_fee}
use empire_backend.Wallet.Checks.Agree.{IsFee, debited-eq-plan_fee}

abbrev round : ℕ → ℕ
round n = (n + 50) / 100

abbrev pub least : ℕ → ℕ → ℕ
least a b = if ltb a b then a else b

abbrev pub half_cent : ℕ → ℕ → ℕ
half_cent k bonus = if leb k (100 * bonus) && (k % 100 == 50) then 1 else 0

-- Whole balances, an amount of `100 * a` and a bonus fee of `k`: the balances after the debit make
-- up what is left of their sum, and one hundredth more when the fee ends in half a hundredth.
rounded :
    (m w b a k z : ℕ)
    → k ≤ 100 * a
    → (let x = least (100 * b) k in
        let y = least (100 * m) (100 * a - x) in
        let rest = 100 * a - x - y in
        ((rest ≤ 100 * w) × (z ≡ rest)) ⊎ ((100 * w < rest) × (rest < 100 * w + 5) × (z ≡ 100 * w)))
    → (let x = least (100 * b) k in
        let y = least (100 * m) (100 * a - x) in
        round (100 * m - y) + round (100 * w - z) + round (100 * b - x) + a
        ≡ m + w + b + half_cent k b)
rounded m w b a k z h (inl (enough, e)) = ground arith
rounded m w b a k z h (inr (short, little, e)) = ground arith

-- A wallet whose balances are whole hundredths.
abbrev pub hundredths : ℕ → ℕ → ℕ → Wallet
hundredths m w b = record { main = pos (100 * m); win = pos (100 * w); bonus = pos (100 * b) }

lesser-pos : (p q : ℕ) → lesser (pos p) (pos q) ≡ pos (least p q)
lesser-pos p q = ground arith

least-le : (p q : ℕ) → least p q ≤ q
least-le p q = ground arith

least-le' : (p q : ℕ) → least p q ≤ p
least-le' p q = ground arith

fee-eq : (a c : ℕ) → 100 * a * c / 100 ≡ a * c
fee-eq a c = rw (mul_assoc 100 a c) (mul-div_cancel_left (a * c) {n = 100} (omega arith))

fee-le : (a c : ℕ) → c ≤ 100 → a * c ≤ 100 * a
fee-le a c h = grind arith

abbrev parts : ℕ → ℕ → ℕ → ℕ → Deductions
parts m b a k =
    let x = least (100 * b) k in
    let y = least (100 * m) (100 * a - x) in
    record { bonus = pos x; main = pos y; winning = pos (100 * a - x - y) }

plan_fee-eq-parts :
    (m w b a c : ℕ) → c ≤ 100 → plan_fee c (100 * a) (hundredths m w b) ≡ parts m b a (a * c)
unfolding plan_fee
plan_fee-eq-parts m w b a c h =
    let x = least (100 * b) (a * c) in
    let y = least (100 * m) (100 * a - x) in
    rw (
      fee-eq a c,
      lesser-pos (100 * b) (a * c),
      -ℤ-pos (100 * a) x (omega (arith, fee-le a c h, least-le (100 * b) (a * c))),
      lesser-pos (100 * m) (100 * a - x),
      -ℤ-pos (100 * a - x) y (least-le (100 * m) (100 * a - x)),
    )

-- What a debit of at most the balances leaves.
update_balances-hundredths :
    (m w b x y z : ℕ)
    → x ≤ 100 * b
    → y ≤ 100 * m
    → z ≤ 100 * w
    → update_balances false
        (record { bonus = pos x; main = pos y; winning = pos z })
        (hundredths m w b)
      ≡ hundredths (round (100 * m - y)) (round (100 * w - z)) (round (100 * b - x))
unfolding update_balances to_fixed
update_balances-hundredths m w b x y z p q r = rw (
  -ℤ-pos (100 * m) y q,
  -ℤ-pos (100 * w) z r,
  -ℤ-pos (100 * b) x p,
  mul_comm 100 (round (100 * m - y)),
  mul_comm 100 (round (100 * w - z)),
  mul_comm 100 (round (100 * b - x)),
)

abbrev taken : ℕ → ℕ → ℕ → Deductions
taken x y z = record { bonus = pos x; main = pos y; winning = pos z }

-- The winnings that are taken: what is left, or the whole balance when almost nothing is missing.
abbrev IsTaken : ℕ → ℕ → ℕ → Type 0
IsTaken w rest z =
    ((rest ≤ 100 * w) × (z ≡ rest)) ⊎ ((100 * w < rest) × (rest < 100 * w + 5) × (z ≡ 100 * w))

check_winning-IsTaken :
    (m w b x y rest : ℕ) (d : Deductions)
    → check_winning (hundredths m w b) (taken x y rest) ≡ ok d
    → (z : ℕ) × (taken x y z ≡ d) × IsTaken w rest z
unfolding check_winning
check_winning-IsTaken m w b x y rest d e = elim (Bool-cases (ltb_ℤ (pos (100 * w)) (pos rest))) [
  | inl short ↦ elim (Bool-cases (ltb_ℤ (pos rest -ℤ pos (100 * w)) (pos 5))) [
    | inl little ↦ (
      100 * w,
      ok-injective (taken x y (100 * w)) d (rw (short, little) at e),
      inr (ground arith, below (rw (-ℤ-pos rest (100 * w) (ground arith)) at little), refl),
    )
    | inr much ↦ absurd (err-ne-ok bad_request d (rw (short, much) at e))
  ]
  | inr enough ↦ (rest, ok-injective (taken x y rest) d (rw enough at e), inl (ground arith, refl))
]
  where
    below : ltb_ℤ (pos (rest - 100 * w)) (pos 5) ≡ true → rest < 100 * w + 5
    below h = ground arith

IsTaken-le : (w rest z : ℕ) → IsTaken w rest z → z ≤ 100 * w
IsTaken-le w rest z (inl (enough, e)) = omega arith
IsTaken-le w rest z (inr (short, little, e)) = omega arith

-- A fee is debited from a wallet of whole hundredths, with a commission of at most 100 percent: the
-- balances are whole hundredths again, and their sum is less by the fee. Only when the fee's part
-- from the bonus is its full commission and ends in half a hundredth, the sum is one hundredth more.
pub calculate_deductions-exact :
    (m w b a c : ℕ) (dto : WalletTransactionDto) (d : Deductions)
    → IsFee c dto
    → c ≤ 100
    → dto.amount ≡ 100 * a
    → calculate_deductions dto (hundredths m w b) ≡ ok d
    → (m' : ℕ) × ((w' : ℕ) × ((b' : ℕ) × (update_balances dto.credit d (hundredths m w b)
            ≡ hundredths m' w' b')
          × (m' + w' + b' + a ≡ m + w + b + half_cent (a * c) b)))
unfolding calculate_deductions
calculate_deductions-exact m w b a c dto d f percent whole e =
    let x = least (100 * b) (a * c) in
    let y = least (100 * m) (100 * a - x) in
    let (z, same, t) = check_winning-IsTaken m w b x y (100 * a - x - y) d (
      rw
        (
          f.debit,
          debited-eq-plan_fee c dto (hundredths m w b) f,
          whole,
          plan_fee-eq-parts m w b a c percent,
        )
        at e) in
    (
      round (100 * m - y),
      (
        round (100 * w - z),
        (
          round (100 * b - x),
          subst
              (λ k.
                update_balances dto.credit k (hundredths m w b)
                ≡ hundredths (round (100 * m - y)) (round (100 * w - z)) (round (100 * b - x)))
              same
              (rw f.debit (
                update_balances-hundredths m w b x y z (least-le' (100 * b) (a * c))
                  (least-le' (100 * m) (100 * a - x)) (IsTaken-le w (100 * a - x - y) z t))),
          rounded m w b a (a * c) z (fee-le a c percent) t,
        ),
      ),
    )
