-- ===== src/Wallet/Updates.antt =====
-- mongoose-wallet.reposiotry.ts: `#updateWallet` and the operations that call it.
pub mod Once
pub mod Races
use empire_backend.Base.{
  ℕ, ◌+◌, ◌-◌, ◌*◌, Bool, true, false, not, ◌&&◌, ◌||◌, Option, none, some, List, [], ◌∷◌, ◌==◌,
  if◌then◌else◌, any, leb,
}
use empire_backend.Base.Int.{ℤ, pos, ltb_ℤ, ◌-ℤ◌, ◌+ℤ◌}
use empire_backend.Base.Results
use empire_backend.Base.Results.{Result, ok, err, bad_request, not_found, throw_if, or_throw}
use empire_backend.Base.Actions.{Action, ◌>>=◌, ◌>>◌, lift, done}
use empire_backend.Wallet.{
  TransactionType, deposit, withdrawal, winning, ludo_tournament_prize, join_fee, referral,
  signup_bonus, admin_refund, ludo_tournament_join_fee, sl_game_join_fee, epl_game_join_fee,
  ludo_tournament_refund, withdrawal_refund, tds_reward, Games, ludo, ludo_mega_tournament,
  rummyempire, skillpatti, callbreak, snake_and_ladders, aviator, epl, same_type, is_game,
  same_field, Wallet, User, Transaction, Portion, Portions, WalletTransactionDto, World, find_user,
  set_wallet, save_transaction, convert_to_pro_if_eligible,
}
use empire_backend.Wallet.Amounts.{Deductions, calculate_deductions, update_balances}

unfoldable pub should_skip_double_transaction_check : Option Games → TransactionType → Bool
should_skip_double_transaction_check game type =
    (is_game game skillpatti && (same_type type join_fee || same_type type winning))
    || (is_game game ludo_mega_tournament && same_type type ludo_tournament_join_fee)
    || same_type type referral
    || same_type type admin_refund
    || is_game game aviator
    || is_game game rummyempire

-- The filter of `findOne`.
unfoldable pub matches : Transaction → Transaction → Bool
matches a b =
    a.user_id == b.user_id
    && same_field a.order_id b.order_id
    && same_type a.type b.type
    && same_field a.table_id b.table_id
    && same_field a.tournament_id b.tournament_id
    && same_field a.entry_no b.entry_no

abbrev pub negate : ℤ → ℤ
negate a = pos 0 -ℤ a

-- The break-down of a debit by an administrator has a minus sign.
unfoldable pub transaction_of : WalletTransactionDto → Deductions → Transaction
transaction_of dto d =
    let minus = not dto.credit && same_type dto.type admin_refund in
    record {
      user_id = dto.user_id;
      order_id = dto.order_id;
      amount = dto.amount;
      type = dto.type;
      game = dto.game;
      table_id = dto.table_id;
      tournament_id = dto.tournament_id;
      entry_no = dto.entry_no;
      main = if minus then negate d.main else d.main;
      win = if minus then negate d.winning else d.winning;
      bonus = if minus then negate d.bonus else d.bonus;
      expire_at = if same_type dto.type signup_bonus then dto.expired_at else none;
      expired = false;
    }

abbrev pub no_deductions : Deductions
no_deductions = record { bonus = pos 0; main = pos 0; winning = pos 0 }

unfoldable pub has_transaction : Transaction → List Transaction → Bool
unfolding matches
has_transaction t transactions = any (matches t) transactions

-- What an update has worked out before it writes: the user it has read and the deductions.
pub record Prepared : Type 0 where
  pub dto : WalletTransactionDto
  pub user : User
  pub deductions : Deductions

-- A transaction of a checked kind with the same fields exists.
unfoldable pub is_duplicate : WalletTransactionDto → List Transaction → Bool
unfolding should_skip_double_transaction_check has_transaction transaction_of
is_duplicate dto transactions =
    not (should_skip_double_transaction_check dto.game dto.type)
    && has_transaction (transaction_of dto no_deductions) transactions

-- `#updateWallet` up to its first write.
unfoldable pub prepare : WalletTransactionDto → World → Result Prepared
unfolding is_duplicate calculate_deductions
prepare dto w = Results.◌>>=◌ (or_throw (w.users dto.user_id) not_found) (λ u.
    Results.◌>>◌ (throw_if (is_duplicate dto w.transactions) bad_request) (
      Results.◌>>=◌ (calculate_deductions dto u.wallet)
        (λ d. ok (record { dto = dto; user = u; deductions = d }))))

-- The writes of `#updateWallet`.
unfoldable pub commit : Prepared → Action World (Unit {0})
unfolding set_wallet save_transaction convert_to_pro_if_eligible transaction_of update_balances
commit p = do
  set_wallet p.dto.user_id p.user (update_balances p.dto.credit p.deductions p.user.wallet)
  save_transaction (transaction_of p.dto p.deductions)
  (if same_type p.dto.type winning || same_type p.dto.type ludo_tournament_prize
      then convert_to_pro_if_eligible p.dto.user_id
      else done)

unfoldable pub update_wallet : WalletTransactionDto → Action World (Unit {0})
unfolding prepare commit
update_wallet dto w = elim (prepare dto w) [ err e ↦ (err e, w) | ok p ↦ commit p w ]
