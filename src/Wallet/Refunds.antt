-- ===== src/Wallet/Refunds.antt =====
-- mongoose-wallet.reposiotry.ts: `adminRefund`, `creditSignupBonus` and the bonuses that expire.
use empire_backend.Base.{
  ℕ, ◌+◌, ◌-◌, Bool, true, false, not, ◌&&◌, ◌||◌, Option, none, some, List, [], ◌∷◌, ◌==◌,
  if◌then◌else◌, any, ltb, filter, map,
}
use empire_backend.Base.Int.{ℤ, pos, negsuc, ltb_ℤ, ◌-ℤ◌}
use empire_backend.Base.Results.{
  Result, ok, err, bad_request, not_found, internal, throw_if, or_throw,
}
use empire_backend.Base.Results
use empire_backend.Base.Actions.{Action, ◌>>=◌, ◌>>◌, lift, done}
use empire_backend.Wallet.{
  TransactionType, signup_bonus, coupon, Games, skillpatti, same_type, is_game, same_field, Wallet,
  User, Transaction, Portions, World, write_user, find_user,
}
use empire_backend.Wallet.Updates.{update_wallet}
use empire_backend.Wallet.Operations.{to_main, to_win, to_bonus, dto_of, shares_of}

-- What the database has of a game and of a payment; an amount that is missing is `none`.
pub record GameHistory : Type 0 where
  pub start_amount : Option ℕ
  pub join_fee : Option ℕ

pub record Payment : Type 0 where
  pub amount : Option ℕ
  pub is_success : Bool

pub record Records : Type 0 where
  pub history_of : ℕ → ℕ → Option GameHistory
  pub payment_of : ℕ → Option Payment

pub data WalletType : Type 0 where
  main_wallet winning_wallet bonus_wallet free_wallet : WalletType

abbrev pub wallet_portions : WalletType → Portions
wallet_portions bonus_wallet = to_bonus
wallet_portions winning_wallet = to_win
wallet_portions _ = to_main

pub record AdminRefund : Type 0 where
  pub wallet : WalletType
  pub amount : Option ℕ
  pub order_id : Option ℕ
  pub table_id : Option ℕ
  pub game : Option Games
  pub user_id : ℕ
  pub credit : Bool

unfoldable pub amount_of_table : Records → AdminRefund → Result (Option ℕ)
amount_of_table records body = elim body.table_id [
  | none ↦ ok body.amount
  | some t ↦ elim (records.history_of t body.user_id) [
    | none ↦ err bad_request
    | some h ↦ ok (if is_game body.game skillpatti then h.start_amount else h.join_fee)
  ]
]

unfoldable pub amount_of_order : Records → AdminRefund → Option ℕ → Result (Option ℕ)
amount_of_order records body amount = elim body.order_id [
  | none ↦ ok amount
  | some o ↦ elim (records.payment_of o) [
    | none ↦ err bad_request
    | some p ↦ elim p.amount [
      | none ↦ err bad_request
      | some paid ↦ if p.is_success then err bad_request else ok (some paid)
    ]
  ]
]

abbrev pub is_missing : Option ℕ → Bool
is_missing none = true
is_missing (some x) = false

-- An order overrides a table, which overrides the amount of the request.
unfoldable pub refund_amount : Records → AdminRefund → Result ℕ
unfolding amount_of_table amount_of_order
refund_amount records body =
    Results.◌>>◌ (throw_if (is_missing body.order_id && is_missing body.table_id) bad_request) (
      Results.◌>>=◌ (amount_of_table records body) (λ first.
        Results.◌>>=◌ (amount_of_order records body first) (λ second. or_throw second bad_request)))

-- `findOne` by the table, the order and the type, of any user
unfoldable pub is_refunded : AdminRefund → List Transaction → Bool
is_refunded body transactions =
    any
      (λ (t : Transaction).
        same_field t.table_id body.table_id
        && same_field t.order_id body.order_id
        && same_type t.type TransactionType.admin_refund)
      transactions

-- The update is not awaited, so that its errors are lost.
unfoldable pub admin_refund : Records → AdminRefund → Action World (Unit {0})
unfolding refund_amount is_refunded
admin_refund records body w = elim (refund_amount records body) [
  | err e ↦ (err e, w)
  | ok amount ↦ if is_refunded body w.transactions then (err bad_request, w) else (
    ok tt,
    (update_wallet
        (record (dto_of body.user_id amount TransactionType.admin_refund body.credit
          (wallet_portions body.wallet)) {
            order_id = body.order_id;
            game = body.game;
            table_id = body.table_id;
          })
        w).1,
  )
]

-- The bonus of the configuration, less what the user has won already.
unfoldable pub signup_amounts : ℤ → ℕ → ℕ → ℕ × ℕ
signup_amounts (pos won) main bonus =
    (main - won, if ltb main won then bonus - (won - main) else bonus)
signup_amounts (negsuc won) main bonus = (main + won + 1, bonus)

unfoldable pub credit_signup_bonus : ℕ → ℕ → ℕ → ℕ → ℕ → Action World (Unit {0})
unfolding find_user signup_amounts shares_of
credit_signup_bonus main win bonus expired_at user_id = do
  u ← find_user user_id
  (let (m, b) = signup_amounts u.wallet.win main bonus in credit u m b)
  where
    activate : User → Action World (Unit {0})
    activate u w =
        (ok tt, record w { users = write_user user_id (record u { is_pro_active = true }) w.users })

    credit : User → ℕ → ℕ → Action World (Unit {0})
    credit u m b =
        activate u
        >> (if m == 0 && win == 0 && b == 0
            then done
            else (lift (shares_of m win b) >>= λ shares.
                update_wallet (record (dto_of user_id (m + win + b) signup_bonus true shares) {
                  expired_at = some expired_at;
                })))

-- `getExpiredBonusTransactions`: nothing for a user who has an expired transaction.
abbrev pub is_of : ℕ → Transaction → Bool
is_of user_id t = t.user_id == user_id

unfoldable pub expired_bonus_transaction_exists : ℕ → List Transaction → Bool
expired_bonus_transaction_exists user_id transactions =
    any (λ (t : Transaction). is_of user_id t && t.expired) transactions

-- `!dayjs().isAfter(expireAt)`; a date that is missing is now.
abbrev pub is_bonus_still_valid : ℕ → Option ℕ → Bool
is_bonus_still_valid now none = true
is_bonus_still_valid now (some t) = not (ltb t now)

unfoldable pub get_expired_bonus_transactions : ℕ → ℕ → List Transaction → List Transaction
unfolding expired_bonus_transaction_exists
get_expired_bonus_transactions now user_id transactions =
    filter
      (λ (t : Transaction).
        is_of user_id t
        && (same_type t.type signup_bonus || same_type t.type coupon)
        && not t.expired
        && not (expired_bonus_transaction_exists user_id transactions)
        && not (is_bonus_still_valid now t.expire_at))
      transactions

abbrev pub get_amount_to_deduct : Transaction → ℤ
get_amount_to_deduct t = if same_type t.type coupon then pos t.amount else t.bonus

abbrev pub expire : ℕ → TransactionType → Transaction → Transaction
expire user_id type t =
    if is_of user_id t && same_type t.type type then record t { expired = true } else t

unfoldable pub after_expiry : Transaction → Wallet → Wallet
after_expiry t wallet = record wallet {
  bonus =
      wallet.bonus
      -ℤ (if ltb_ℤ (get_amount_to_deduct t) wallet.bonus
          then get_amount_to_deduct t
          else wallet.bonus);
}

unfoldable pub process_expired_bonus_transaction : Transaction → World → World
unfolding after_expiry
process_expired_bonus_transaction t w = elim (w.users t.user_id) [
  | none ↦ w
  | some u ↦ record w {
    users = write_user t.user_id (record u { wallet = after_expiry t u.wallet }) w.users;
    transactions = map (expire t.user_id t.type) w.transactions;
  }
]

unfoldable pub process_expired_bonus_transactions : List Transaction → World → World
unfolding process_expired_bonus_transaction
process_expired_bonus_transactions [] w = w
process_expired_bonus_transactions (t ∷ ts) w =
    process_expired_bonus_transactions ts (process_expired_bonus_transaction t w)

unfoldable pub expired_bonus : ℕ → ℕ → World → World
unfolding process_expired_bonus_transactions get_expired_bonus_transactions
expired_bonus now user_id w =
    process_expired_bonus_transactions (get_expired_bonus_transactions now user_id w.transactions) w
