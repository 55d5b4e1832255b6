-- ===== src/Wallet/Checks.antt =====
-- apps/wallet/src/domain/use-cases/wallet.use-cases.ts: the checks of the balance before a game. The
-- checks of the games differ in what they answer.
pub mod Agree
use empire_backend.Base.{
  ℕ, ◌*◌, ◌/◌, Bool, true, false, not, ◌&&◌, Option, none, some, if◌then◌else◌,
}
use empire_backend.Base.Int.{ℤ, pos, negsuc, ltb_ℤ, ◌-ℤ◌}
use empire_backend.Base.Results.{
  Result, ok, err, bad_request, not_found, internal, or_throw, throw_if, ◌>>=◌, ◌>>◌,
}
use empire_backend.Wallet.{Wallet, User, World}
use empire_backend.Wallet.Amounts.{Deductions, lesser}

-- The fee is taken from the bonus up to the commission, then from the main balance, and what is left
-- from the winnings.
unfoldable pub plan_fee : ℕ → ℕ → Wallet → Deductions
plan_fee bonus_commission fee wallet =
    let bonus = lesser wallet.bonus (pos (fee * bonus_commission / 100)) in
    let rest = pos fee -ℤ bonus in
    let main = lesser wallet.main rest in
    record { bonus = bonus; main = main; winning = rest -ℤ main }

abbrev pub wallet_of : Option User → Option Wallet
wallet_of none = none
wallet_of (some u) = some u.wallet

-- `checkLudoWalletBalance`, `checkSLWalletBalance` and `checkCbrWalletBalance`; the last raises
-- NotFoundException without a wallet.
unfoldable pub has_balance : ℕ → ℕ → Wallet → Bool
unfolding plan_fee
has_balance bonus_commission fee wallet = not (
    ltb_ℤ (pos 0) (plan_fee bonus_commission fee wallet).winning
    && ltb_ℤ wallet.win (plan_fee bonus_commission fee wallet).winning)

unfoldable pub check_ludo_wallet_balance : ℕ → ℕ → ℕ → World → Result Bool
unfolding has_balance
check_ludo_wallet_balance bonus_commission user_id join_fee w =
    or_throw (wallet_of (w.users user_id)) internal >>= λ wallet.
    ok (has_balance bonus_commission join_fee wallet)

unfoldable pub check_cbr_wallet_balance : ℕ → ℕ → ℕ → World → Result Bool
unfolding has_balance
check_cbr_wallet_balance bonus_commission user_id amount w =
    or_throw (wallet_of (w.users user_id)) not_found >>= λ wallet.
    ok (has_balance bonus_commission amount wallet)

unfoldable pub check_epl_wallet_balance : ℕ → ℕ → ℕ → World → Result Bool
unfolding has_balance
check_epl_wallet_balance bonus_commission user_id join_fee w =
    or_throw (wallet_of (w.users user_id)) internal >>= λ wallet.
    throw_if (not (has_balance bonus_commission join_fee wallet)) bad_request >> ok true

-- What is left of the wallet, -1 three times when it is too little, and the deductions.
pub record CheckWalletBalance : Type 0 where
  pub wallet_balance : Deductions
  pub sub_wallet : Deductions

abbrev minus_one : Deductions
minus_one = record { bonus = negsuc 0; main = negsuc 0; winning = negsuc 0 }

-- `checkSpWalletBalance` and `checkReWalletBalance`
unfoldable pub check_sp_wallet_balance : ℕ → ℕ → ℕ → World → Result CheckWalletBalance
unfolding plan_fee
check_sp_wallet_balance bonus_commission user_id amount w =
    or_throw (wallet_of (w.users user_id)) not_found >>= λ wallet.
    let plan = plan_fee bonus_commission amount wallet in
    ok (
      if not (ltb_ℤ plan.winning (pos 0)) && ltb_ℤ wallet.win plan.winning
      then record { wallet_balance = minus_one; sub_wallet = plan }
      else record {
        wallet_balance = record {
          bonus = wallet.bonus -ℤ plan.bonus;
          main = wallet.main -ℤ plan.main;
          winning = wallet.win -ℤ plan.winning;
        };
        sub_wallet = plan;
      })
