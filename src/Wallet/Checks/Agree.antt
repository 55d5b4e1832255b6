-- ===== src/Wallet/Checks/Agree.antt =====
-- wallet.use-cases.ts and mongoose-wallet.reposiotry.ts: the check of a balance and the debit.
use empire_backend.Base.{ℕ, ◌≡◌, refl, Bool, true, false, if◌then◌else◌, not, ◌&&◌, some, arith}
use empire_backend.Base.Int.{ℤ, pos, ltb_ℤ, ◌-ℤ◌, ◌≤ℤ◌}
use empire_backend.Base.Results.{Result, ok, err, bad_request, ok-injective}
use empire_backend.Wallet.{
  withdrawal, admin_refund, same_type, Wallet, User, WalletTransactionDto, World,
}
use empire_backend.Wallet.Amounts.{times, Deductions, debited, check_winning, calculate_deductions}
use empire_backend.Wallet.Amounts.Safe.{IsNonneg}
use empire_backend.Wallet.Checks.{plan_fee, has_balance, check_ludo_wallet_balance}
use empire_backend.Wallet.Updates.{is_duplicate, prepare, commit, update_wallet}
use empire_backend.Wallet.Operations.{by_commission}

-- A debit of a join fee, with the bonus up to the commission.
pub record IsFee (bonus_commission : ℕ) (dto : WalletTransactionDto) : Type 0 where
  pub debit : dto.credit ≡ false
  pub no_refund : same_type dto.type admin_refund ≡ false
  pub no_payout : same_type dto.type withdrawal ≡ false
  pub portions : dto.portions ≡ by_commission bonus_commission

pub debited-eq-plan_fee :
    (c : ℕ) (dto : WalletTransactionDto) (wallet : Wallet)
    → IsFee c dto
    → debited dto.type dto.amount dto.portions wallet ≡ plan_fee c dto.amount wallet
unfolding debited plan_fee times
debited-eq-plan_fee c dto wallet f = rw (f.no_refund, f.no_payout, f.portions) refl

-- Where the balances are not below 0, the check answers whether the winnings cover what is left.
pub has_balance-eq :
    (c fee : ℕ) (wallet : Wallet)
    → IsNonneg wallet
    → has_balance c fee wallet ≡ not (ltb_ℤ wallet.win (plan_fee c fee wallet).winning)
unfolding has_balance
has_balance-eq c fee wallet h = go wallet.win (plan_fee c fee wallet).winning h.win
  where
    go :
        (win winning : ℤ)
        → pos 0 ≤ℤ win
        → not (ltb_ℤ (pos 0) winning && ltb_ℤ win winning) ≡ not (ltb_ℤ win winning)
    go win winning h' = ground arith

-- The debit of a fee takes what the check has planned where it answers true. Where it answers false
-- the debit raises, but for a lack of less than half a thousandth.
pub calculate_deductions-eq-plan :
    (c : ℕ) (dto : WalletTransactionDto) (wallet : Wallet)
    → IsFee c dto
    → IsNonneg wallet
    → calculate_deductions dto wallet ≡ (
        let plan = plan_fee c dto.amount wallet in
        if has_balance c dto.amount wallet
        then ok plan
        else if ltb_ℤ (plan.winning -ℤ wallet.win) (pos 5)
        then ok (record plan { winning = wallet.win })
        else err bad_request)
unfolding calculate_deductions check_winning
calculate_deductions-eq-plan c dto wallet f h =
    rw (f.debit, debited-eq-plan_fee c dto wallet f, has_balance-eq c dto.amount wallet h)
      (go (ltb_ℤ wallet.win (plan_fee c dto.amount wallet).winning))
  where
    go :
        (short : Bool)
        → (let plan = plan_fee c dto.amount wallet in
            let rest : Result Deductions =
              if ltb_ℤ (plan.winning -ℤ wallet.win) (pos 5)
              then ok (record plan { winning = wallet.win })
              else err bad_request in
            ◌≡◌ {A = Result Deductions}
              (if short then rest else ok plan)
              (if not short then ok plan else rest))
    go true = refl
    go false = refl

-- `prepare` when the user is there and no same transaction is in the way.
pub prepare-eq-ok :
    (dto : WalletTransactionDto) (w : World) (u : User) (d : Deductions)
    → w.users dto.user_id ≡ some u
    → is_duplicate dto w.transactions ≡ false
    → calculate_deductions dto u.wallet ≡ ok d
    → prepare dto w ≡ ok (record { dto = dto; user = u; deductions = d })
unfolding prepare
prepare-eq-ok dto w u d here new e = rw (here, new, e)

-- When the check of the balance has answered true, the debit of that fee for the user succeeds and
-- makes the planned deductions, if no same transaction exists.
pub check_ludo_wallet_balance-covers :
    (c : ℕ) (dto : WalletTransactionDto) (w : World) (u : User)
    → IsFee c dto
    → w.users dto.user_id ≡ some u
    → IsNonneg u.wallet
    → is_duplicate dto w.transactions ≡ false
    → check_ludo_wallet_balance c dto.user_id dto.amount w ≡ ok true
    → update_wallet dto w
      ≡ commit (record { dto = dto; user = u; deductions = plan_fee c dto.amount u.wallet }) w
unfolding check_ludo_wallet_balance update_wallet
check_ludo_wallet_balance-covers c dto w u f here h new checked =
    let plan = plan_fee c dto.amount u.wallet in
    let enough : has_balance c dto.amount u.wallet ≡ true =
      ok-injective _ true (rw here at checked) in
    let e : calculate_deductions dto u.wallet ≡ ok plan =
      rw enough at (calculate_deductions-eq-plan c dto u.wallet f h) in
    rw (prepare-eq-ok dto w u plan here new e, update_wallet)
