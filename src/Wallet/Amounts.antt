-- ===== src/Wallet/Amounts.antt =====
-- mongoose-wallet.reposiotry.ts: `#calculateAndUpdateBalances`. The products with a portion are
-- exact, where the source has doubles.
pub mod Safe
pub mod Exact
use empire_backend.Base.{ℕ, suc, ◌+◌, ◌*◌, ◌/◌, Bool, true, false, not, ◌&&◌, ◌||◌, if◌then◌else◌}
use empire_backend.Base.Int.{ℤ, pos, negsuc, sub_ℕ, ltb_ℤ, ◌+ℤ◌, ◌-ℤ◌}
use empire_backend.Base.Results.{Result, ok, err, bad_request}
use empire_backend.Wallet.{
  TransactionType, withdrawal, admin_refund, same_type, Wallet, Portion, Portions,
  WalletTransactionDto,
}

-- `toFixed(2)` in ten-thousandths: a half goes away from zero.
unfoldable pub to_fixed : ℤ → ℤ
to_fixed (pos n) = pos ((n + 50) / 100 * 100)
to_fixed (negsuc n) = sub_ℕ 0 ((suc n + 50) / 100 * 100)

-- Rounded down to ten-thousandths, which is exact for an amount in hundredths and a portion in whole
-- percents.
unfoldable pub times : ℕ → Portion → ℕ
times amount p = amount * p.num / p.den

pub record Deductions : Type 0 where
  pub bonus : ℤ
  pub main : ℤ
  pub winning : ℤ

abbrev pub lesser : ℤ → ℤ → ℤ
lesser a b = if ltb_ℤ a b then a else b

unfoldable pub credited : ℕ → Portions → Deductions
unfolding times
credited amount p = record {
  bonus = pos (times amount p.bonus);
  main = pos (times amount p.main);
  winning = pos (times amount p.win);
}

-- What a debit takes, before the balance for winnings is looked at.
unfoldable pub debited : TransactionType → ℕ → Portions → Wallet → Deductions
unfolding times credited
debited type amount p wallet =
    if same_type type admin_refund
    then credited amount p
    else (let bonus = lesser wallet.bonus (pos (times amount p.bonus)) in
        let rest = pos amount -ℤ bonus in
        let main =
          if same_type type withdrawal
          then pos (times amount p.main)
          else lesser wallet.main rest in
        record { bonus = bonus; main = main; winning = rest -ℤ main })

-- Less than half a thousandth may be missing, and then the whole balance is taken.
unfoldable pub check_winning : Wallet → Deductions → Result Deductions
check_winning wallet d =
    if ltb_ℤ wallet.win d.winning
    then if ltb_ℤ (d.winning -ℤ wallet.win) (pos 5)
      then ok (record d { winning = wallet.win })
      else err bad_request
    else ok d

unfoldable pub calculate_deductions : WalletTransactionDto → Wallet → Result Deductions
unfolding credited debited check_winning
calculate_deductions dto wallet =
    if dto.credit
    then ok (credited dto.amount dto.portions)
    else check_winning wallet (debited dto.type dto.amount dto.portions wallet)

abbrev pub move : Bool → ℤ → ℤ → ℤ
move credit balance deduction = if credit then balance +ℤ deduction else balance -ℤ deduction

unfoldable pub update_balances : Bool → Deductions → Wallet → Wallet
unfolding to_fixed
update_balances credit d wallet = record {
  main = to_fixed (move credit wallet.main d.main);
  win = to_fixed (move credit wallet.win d.winning);
  bonus = to_fixed (move credit wallet.bonus d.bonus);
}
