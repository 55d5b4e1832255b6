-- ===== src/Wallet/Tests.antt =====
-- Runs of the wallets of two users, and the theorems at those wallets.
use empire_backend.Base.{
  ℕ, ◌≡◌, refl, false, true, none, some, [], ◌∷◌, arith, ◌==◌, if◌then◌else◌, inl, inr, Bool-cases,
  subst, ◌+◌, ◌*◌, length,
}
use mathlib.Core.Option.{some-injective}
use empire_backend.Base.Int.{pos, ◌-ℤ◌}
use empire_backend.Wallet.{TransactionType, Games, Wallet, User, WalletTransactionDto, World}
use empire_backend.Wallet.Amounts.{
  Deductions, calculate_deductions, update_balances, check_winning, debited, times,
}
use empire_backend.Wallet.Amounts.Safe.{IsNonneg}
use empire_backend.Wallet.Amounts.Exact.{hundredths, half_cent, calculate_deductions-exact}
use empire_backend.Wallet.Checks.{plan_fee, check_ludo_wallet_balance, has_balance}
use empire_backend.Wallet.Checks.Agree.{IsFee, check_ludo_wallet_balance-covers}
use empire_backend.Wallet.Updates.{
  transaction_of, Prepared, prepare, commit, update_wallet, is_duplicate, has_transaction,
  should_skip_double_transaction_check,
}
use empire_backend.Wallet.Updates.Races.{written, commit-commit}
use empire_backend.Wallet.Operations.{by_commission, dto_of, game_dto, to_main}
use empire_backend.Wallet.Batches.{
  credit_ludo_mega_tournament_prizes, refund_tournament_join_fees, credit_win, credit_main,
  first_amount, batch_transaction,
}
use empire_backend.Wallet.Batches.Credits.{credit_user, credit_ludo_mega_tournament_prizes-eq}
use empire_backend.Wallet.Batches.Refunded.{entries, found, refund_tournament_join_fees-eq}
use empire_backend.Wallet.Ledger.{IsLedger, start, step, updates, IsReachable-IsLedger}

-- 10.00 on the main balance and 10.00 of bonus, in ten-thousandths.
abbrev purse : Wallet
purse = hundredths 1000 0 1000

abbrev ann : User
ann = record { wallet = purse; is_pro_active = false; earning = pos 0 }

abbrev bank : World
bank = record { users = λ j. if j == 1 then some ann else none; transactions = []; pro_checks = [] }

-- A join fee of 1.50 with a commission of 5 percent.
abbrev fee_dto : WalletTransactionDto
fee_dto =
    game_dto 1 15000 TransactionType.join_fee false (by_commission 5) Games.snake_and_ladders
      (some 7)

fee_dto-IsFee : IsFee 5 fee_dto
fee_dto-IsFee = record { debit = refl; no_refund = refl; no_payout = refl; portions = refl }

-- The bonus of 0.075 and the rest of 1.425 are both rounded to the user's favour: 18.51 is left.
abbrev taken_fee : Deductions
taken_fee = record { bonus = pos 750; main = pos 14250; winning = pos 0 }

calculate_deductions-exact_example :
    (m' : ℕ) × ((w' : ℕ) × ((b' : ℕ) × (update_balances false taken_fee purse ≡ hundredths m' w' b')
        × (m' + w' + b' + 150 ≡ 1000 + 0 + 1000 + half_cent (150 * 5) 1000)))
unfolding calculate_deductions debited check_winning times ◌-ℤ◌
calculate_deductions-exact_example =
    calculate_deductions-exact 1000 0 1000 150 5 fee_dto taken_fee fee_dto-IsFee (omega arith) refl
      refl

check_ludo_wallet_balance-covers_example :
    update_wallet fee_dto bank
    ≡ commit (record { dto = fee_dto; user = ann; deductions = plan_fee 5 15000 purse }) bank
unfolding is_duplicate has_transaction should_skip_double_transaction_check
    check_ludo_wallet_balance has_balance plan_fee ◌-ℤ◌
check_ludo_wallet_balance-covers_example =
    check_ludo_wallet_balance-covers 5 fee_dto bank ann fee_dto-IsFee refl
      (record { main = omega arith; win = omega arith; bonus = omega arith }) refl refl

abbrev paid_bank : World
paid_bank = (update_wallet fee_dto bank).1

bank-IsNonneg : (j : ℕ) (u : User) → bank.users j ≡ some u → IsNonneg u.wallet
bank-IsNonneg j u e = elim (Bool-cases (j == 1)) [
  | inl one ↦
      subst (λ (x : User). IsNonneg x.wallet) (some-injective ann u (rw one at e))
        (record { main = omega arith; win = omega arith; bonus = omega arith })
  | inr other ↦ cc
]

IsReachable-IsLedger_example : IsLedger paid_bank
IsReachable-IsLedger_example =
    IsReachable-IsLedger paid_bank
      (step bank paid_bank (start bank refl bank-IsNonneg) (updates fee_dto (inr (refl, inl refl))))

-- The same deposit twice.
abbrev deposit_dto : WalletTransactionDto
deposit_dto = record (dto_of 1 20000 TransactionType.deposit true to_main) { order_id = some 9 }

abbrev prepared : Prepared
prepared = record {
  dto = deposit_dto;
  user = ann;
  deductions = record { bonus = pos 0; main = pos 20000; winning = pos 0 };
}

commit-commit_example :
    ((commit prepared (commit prepared bank).1).1.users 1 ≡ some (written prepared))
    × (ann ≡ ann)
    × ((commit prepared (commit prepared bank).1).1.transactions
        ≡ transaction_of deposit_dto prepared.deductions
          ∷ transaction_of deposit_dto prepared.deductions
          ∷ [])
unfolding prepare is_duplicate has_transaction calculate_deductions times
commit-commit_example = commit-commit deposit_dto deposit_dto bank prepared prepared refl refl refl

credit_ludo_mega_tournament_prizes-eq_example :
    ((credit_ludo_mega_tournament_prizes 3 ((1, 500) ∷ (2, 300) ∷ (1, 200) ∷ []) bank).users 1
      ≡ credit_user credit_win (some 700) (some ann))
    × (length
          (credit_ludo_mega_tournament_prizes 3
            ((1, 500) ∷ (2, 300) ∷ (1, 200) ∷ [])
            bank).transactions
        ≡ 3)
credit_ludo_mega_tournament_prizes-eq_example =
    credit_ludo_mega_tournament_prizes-eq 3 ((1, 500) ∷ (2, 300) ∷ (1, 200) ∷ []) bank 1

abbrev joined_bank : World
joined_bank = record bank {
  transactions =
      batch_transaction TransactionType.ludo_tournament_join_fee 3 (pos 400) (pos 0) (1, 400) ∷ [];
}

refund_tournament_join_fees-eq_example :
    ((refund_tournament_join_fees 3 joined_bank).users 1
      ≡ credit_user credit_main (some 400) (some ann))
    × (entries 3 1 (refund_tournament_join_fees 3 joined_bank).transactions ≡ 2)
    × (first_amount (found 3 (refund_tournament_join_fees 3 joined_bank).transactions) ≡ some 400)
unfolding first_amount
refund_tournament_join_fees-eq_example = refund_tournament_join_fees-eq 3 400 1 joined_bank refl
