-- ===== src/Wallet/Amounts/Safe.antt =====
-- mongoose-wallet.reposiotry.ts: which updates keep the balances at 0 or more.
use empire_backend.Base.{ℕ, ◌≡◌, ◌⊎◌, inl, inr, true, false, Bool-cases, arith, subst}
use empire_backend.Base.Int.{ℤ, pos, negsuc, ltb_ℤ, ◌+ℤ◌, ◌-ℤ◌, ◌≤ℤ◌}
use native.Mathlib.Nat.{mul-zero, zero-div}
use empire_backend.Base.Results.{ok, bad_request, ok-injective, err-ne-ok}
use empire_backend.Wallet.{
  withdrawal, admin_refund, same_type, Wallet, Portion, WalletTransactionDto,
}
use empire_backend.Wallet.Amounts.{
  to_fixed, times, Deductions, lesser, credited, debited, check_winning, calculate_deductions,
  update_balances,
}

pub record IsNonneg (wallet : Wallet) : Type 0 where
  pub main : pos 0 ≤ℤ wallet.main
  pub win : pos 0 ≤ℤ wallet.win
  pub bonus : pos 0 ≤ℤ wallet.bonus

to_fixed-nonneg : (a : ℤ) → pos 0 ≤ℤ a → pos 0 ≤ℤ to_fixed a
unfolding to_fixed
to_fixed-nonneg (pos n) h = omega arith
to_fixed-nonneg (negsuc n) h = absurd (omega arith)

+ℤ-nonneg : (a : ℤ) (n : ℕ) → pos 0 ≤ℤ a → pos 0 ≤ℤ a +ℤ pos n
unfolding ◌+ℤ◌
+ℤ-nonneg a n h = ground arith

-ℤ-nonneg : (a b : ℤ) → b ≤ℤ a → pos 0 ≤ℤ a -ℤ b
unfolding ◌-ℤ◌
-ℤ-nonneg a b h = ground arith

lesser-le : (a b : ℤ) → lesser a b ≤ℤ a
lesser-le a b = ground arith

-- The deductions of a debit are within the balances.
pub record IsCovered (d : Deductions) (wallet : Wallet) : Type 0 where
  pub main : d.main ≤ℤ wallet.main
  pub winning : d.winning ≤ℤ wallet.win
  pub bonus : d.bonus ≤ℤ wallet.bonus

-- A debit is that of a payout, which has no portion of the main balance, or of another kind that no
-- administrator makes.
abbrev pub IsPlain : WalletTransactionDto → Type 0
IsPlain dto =
    (same_type dto.type admin_refund ≡ false)
    × ((same_type dto.type withdrawal ≡ false) ⊎ (dto.portions.main.num ≡ 0))

times-zero : (amount : ℕ) (p : Portion) → p.num ≡ 0 → times amount p ≡ 0
unfolding times
times-zero amount p h = rw (h, mul-zero amount) (zero-div p.den)

debited-le :
    (dto : WalletTransactionDto) (wallet : Wallet)
    → IsPlain dto
    → IsNonneg wallet
    → ((debited dto.type dto.amount dto.portions wallet).main ≤ℤ wallet.main)
      × ((debited dto.type dto.amount dto.portions wallet).bonus ≤ℤ wallet.bonus)
unfolding debited times
debited-le dto wallet plain h = rw plain.0 (elim (Bool-cases (same_type dto.type withdrawal)) [
  | inl payout ↦
      rw (payout, times-zero dto.amount dto.portions.main (zero_of payout plain.1))
        (omega (arith, h.main), lesser-le wallet.bonus (pos (times dto.amount dto.portions.bonus)))
  | inr other ↦ rw other (
    lesser-le wallet.main
        (pos dto.amount -ℤ lesser wallet.bonus (pos (times dto.amount dto.portions.bonus))),
    lesser-le wallet.bonus (pos (times dto.amount dto.portions.bonus)),
  )
])
  where
    zero_of :
        same_type dto.type withdrawal ≡ true
        → (same_type dto.type withdrawal ≡ false) ⊎ (dto.portions.main.num ≡ 0)
        → dto.portions.main.num ≡ 0
    zero_of payout (inl other) = cc
    zero_of payout (inr zero_) = zero_

check_winning-IsCovered :
    (d d' : Deductions) (wallet : Wallet)
    → d.main ≤ℤ wallet.main
    → d.bonus ≤ℤ wallet.bonus
    → check_winning wallet d ≡ ok d'
    → IsCovered d' wallet
unfolding check_winning
check_winning-IsCovered d d' wallet m b e = elim (Bool-cases (ltb_ℤ wallet.win d.winning)) [
  | inl short ↦ elim (Bool-cases (ltb_ℤ (d.winning -ℤ wallet.win) (pos 5))) [
    | inl little ↦
        subst (λ x. IsCovered x wallet)
          (ok-injective (record d { winning = wallet.win }) d' (rw (short, little) at e))
          (record { main = m; winning = omega arith; bonus = b })
    | inr much ↦ absurd (err-ne-ok bad_request d' (rw (short, much) at e))
  ]
  | inr enough ↦
      subst (λ x. IsCovered x wallet) (ok-injective d d' (rw enough at e))
        (record { main = m; winning = ground arith; bonus = b })
]

-- An update that succeeds and is no debit by an administrator keeps the balances at 0 or more.
pub calculate_deductions-IsNonneg :
    (dto : WalletTransactionDto) (wallet : Wallet) (d : Deductions)
    → (dto.credit ≡ true) ⊎ IsPlain dto
    → IsNonneg wallet
    → calculate_deductions dto wallet ≡ ok d
    → IsNonneg (update_balances dto.credit d wallet)
unfolding calculate_deductions update_balances credited
calculate_deductions-IsNonneg dto wallet d kind h e = elim (Bool-cases dto.credit) [
  | inl credit ↦
      subst (λ x. IsNonneg (update_balances dto.credit x wallet))
        (ok-injective (credited dto.amount dto.portions) d (rw credit at e))
        (rw credit (record {
          main =
              to_fixed-nonneg _ (+ℤ-nonneg wallet.main (times dto.amount dto.portions.main) h.main);
          win = to_fixed-nonneg _ (+ℤ-nonneg wallet.win (times dto.amount dto.portions.win) h.win);
          bonus =
              to_fixed-nonneg _
                (+ℤ-nonneg wallet.bonus (times dto.amount dto.portions.bonus) h.bonus);
        }))
  | inr debit ↦
      let (main, bonus) = debited-le dto wallet (plain_of debit kind) h in
      let c =
        check_winning-IsCovered (debited dto.type dto.amount dto.portions wallet) d wallet main
          bonus (rw debit at e) in
      rw debit (record {
        main = to_fixed-nonneg _ (-ℤ-nonneg wallet.main d.main c.main);
        win = to_fixed-nonneg _ (-ℤ-nonneg wallet.win d.winning c.winning);
        bonus = to_fixed-nonneg _ (-ℤ-nonneg wallet.bonus d.bonus c.bonus);
      })
]
  where
    plain_of : dto.credit ≡ false → (dto.credit ≡ true) ⊎ IsPlain dto → IsPlain dto
    plain_of debit (inl credit) = cc
    plain_of debit (inr plain) = plain
