-- ===== src/Wallet/Ledger.antt =====
-- mongoose-wallet.reposiotry.ts: any run of updates, none of them a debit by an administrator, and of
-- bonuses that expire.
use empire_backend.Base.{
  ℕ, ◌==◌, ◌≡◌, true, Bool-cases, ◌⊎◌, inl, inr, if◌then◌else◌, ◌&&◌, Option, some, List, [], ◌∷◌,
  arith, subst, Option-cases,
}
use mathlib.Core.Option.{some-injective}
use empire_backend.Base.Int.{ℤ, pos, ltb_ℤ, ◌-ℤ◌, ◌≤ℤ◌}
use empire_backend.Wallet.{User, Transaction, WalletTransactionDto, World, write_user}
use empire_backend.Wallet.Amounts.Safe.{IsNonneg, IsPlain, calculate_deductions-IsNonneg}
use empire_backend.Wallet.Updates.{update_wallet}
use empire_backend.Wallet.Updates.Once.{
  IsOnce, update_wallet-cases, update_wallet-IsOnce, commit-users, marked-IsOnce,
}
use empire_backend.Wallet.Refunds.{
  is_of, get_amount_to_deduct, after_expiry, process_expired_bonus_transaction,
  process_expired_bonus_transactions, expired_bonus, get_expired_bonus_transactions,
}
use empire_backend.Wallet.{same_type}

-- No balance is below 0, and no checked transaction was made twice.
pub record IsLedger (w : World) : Type 0 where
  pub wallets : (user_id : ℕ) (u : User) → w.users user_id ≡ some u → IsNonneg u.wallet
  pub transactions : IsOnce w.transactions

pub data Step (w : World) : World → Type 0 where
  updates :
      (dto : WalletTransactionDto)
      → (dto.credit ≡ true) ⊎ IsPlain dto
      → Step w (update_wallet dto w).1
  expires : (now user_id : ℕ) → Step w (expired_bonus now user_id w)

pub data IsReachable : World → Type 0 where
  start :
      (w : World)
      → w.transactions ≡ []
      → ((user_id : ℕ) (u : User) → w.users user_id ≡ some u → IsNonneg u.wallet)
      → IsReachable w
  step : (w w' : World) → IsReachable w → Step w w' → IsReachable w'

-- A write of a user whose balances are not below 0.
write_user-wallets :
    (user_id : ℕ) (v : User) (users : ℕ → Option User)
    → IsNonneg v.wallet
    → ((j : ℕ) (u : User) → users j ≡ some u → IsNonneg u.wallet)
    → (j : ℕ) (u : User) → write_user user_id v users j ≡ some u
    → IsNonneg u.wallet
write_user-wallets user_id v users h all j u e = elim (Bool-cases (j == user_id)) [
  | inl same ↦ subst (λ (x : User). IsNonneg x.wallet) (some-injective v u (rw same at e)) h
  | inr other ↦ all j u (rw other at e)
]

update_wallet-wallets :
    (dto : WalletTransactionDto) (w : World)
    → (dto.credit ≡ true) ⊎ IsPlain dto
    → IsLedger w
    → (j : ℕ) (u : User) → (update_wallet dto w).1.users j ≡ some u
    → IsNonneg u.wallet
update_wallet-wallets dto w kind h = elim (update_wallet-cases dto w) [
  | inl (e, failed) ↦ rw failed h.wallets
  | inr (p, prepared, wrote) ↦
      rw (wrote, commit-users p w, prepared.dto_eq)
        (write_user-wallets dto.user_id _ w.users
          (calculate_deductions-IsNonneg dto p.user.wallet p.deductions kind
            (h.wallets dto.user_id p.user prepared.there) prepared.worked_out)
          h.wallets)
]

after_expiry-nonneg :
    (deduct bonus : ℤ)
    → pos 0 ≤ℤ bonus
    → pos 0 ≤ℤ bonus -ℤ (if ltb_ℤ deduct bonus then deduct else bonus)
unfolding ◌-ℤ◌
after_expiry-nonneg deduct bonus h = ground arith

process_expired_bonus_transaction-IsLedger :
    (t : Transaction) (w : World) → IsLedger w → IsLedger (process_expired_bonus_transaction t w)
unfolding process_expired_bonus_transaction after_expiry
process_expired_bonus_transaction-IsLedger t w h = elim (Option-cases (w.users t.user_id)) [
  | inl missing ↦ rw (missing, process_expired_bonus_transaction) h
  | inr (u, here) ↦
      let safe = h.wallets t.user_id u here in
      rw (here, process_expired_bonus_transaction)
        (record {
          wallets =
              write_user-wallets t.user_id _ w.users
                (record {
                  main = safe.main;
                  win = safe.win;
                  bonus = after_expiry-nonneg (get_amount_to_deduct t) u.wallet.bonus safe.bonus;
                })
                h.wallets;
          transactions =
              marked-IsOnce (λ (s : Transaction). is_of t.user_id s && same_type s.type t.type)
                w.transactions h.transactions;
        })
]

process_expired_bonus_transactions-IsLedger :
    (ts : List Transaction) (w : World)
    → IsLedger w
    → IsLedger (process_expired_bonus_transactions ts w)
unfolding process_expired_bonus_transactions
process_expired_bonus_transactions-IsLedger [] w h = h
process_expired_bonus_transactions-IsLedger (t ∷ ts) w h =
    process_expired_bonus_transactions-IsLedger ts (process_expired_bonus_transaction t w)
      (process_expired_bonus_transaction-IsLedger t w h)

Step-IsLedger : (w w' : World) → IsLedger w → Step w w' → IsLedger w'
unfolding expired_bonus
Step-IsLedger w w' h (updates dto kind) = record {
  wallets = update_wallet-wallets dto w kind h;
  transactions = update_wallet-IsOnce dto w h.transactions;
}
Step-IsLedger w w' h (expires now user_id) =
    process_expired_bonus_transactions-IsLedger
      (get_expired_bonus_transactions now user_id w.transactions) w h

-- After any run of updates and expiries, in any order and whichever of them raised, no user has a
-- balance below 0, and no transaction of a checked kind has an older one with the same user, type,
-- order, table, tournament and entry. The updates are those that `#updateWallet` makes, but for the
-- debits by an administrator and the payouts with a portion of the main balance, which nobody asks
-- for.
pub IsReachable-IsLedger : (w : World) → IsReachable w → IsLedger w
IsReachable-IsLedger w (start _ none_ all) = record { wallets = all; transactions = rw none_ tt }
IsReachable-IsLedger w (step v _ before s) = Step-IsLedger v w (IsReachable-IsLedger v before) s
