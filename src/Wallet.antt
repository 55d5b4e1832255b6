-- ===== src/Wallet.antt =====
-- apps/wallet and libs/fabzen-common/src/mongoose/repositories/mongoose-wallet.reposiotry.ts: the
-- wallets of the users and their transactions. A wallet has three balances, numbers of the source's
-- decimals in ten-thousandths; `toFixed(2)` rounds them to multiples of 100. The collection of the
-- transactions is a list, the newest first. The names of the users are left out.
pub mod Amounts
pub mod Updates
pub mod Checks
pub mod Operations
pub mod Refunds
pub mod Batches
pub mod Ledger
mod Tests
use empire_backend.Base.{
  ℕ, Bool, true, false, Option, none, some, List, [], ◌∷◌, ◌++◌, ◌==◌, ◌&&◌, if◌then◌else◌, any,
}
use empire_backend.Base.Int.{ℤ}
use empire_backend.Base.Results.{ok, not_found, or_throw}
use empire_backend.Base.Actions.{Action, ◌>>=◌, ◌>>◌, lift}

pub data TransactionType : Type 0 where
  deposit withdrawal winning ludo_tournament_prize join_fee referral signup_bonus admin_refund :
      TransactionType
  ludo_tournament_join_fee sl_game_join_fee epl_game_join_fee coupon : TransactionType
  ludo_tournament_refund withdrawal_refund tds_reward : TransactionType

pub data Games : Type 0 where
  empiregames ludo ludo_mega_tournament rummyempire skillpatti callbreak : Games
  snake_and_ladders cricket aviator epl : Games

abbrev pub type_number : TransactionType → ℕ
type_number deposit = 0
type_number withdrawal = 1
type_number winning = 2
type_number ludo_tournament_prize = 3
type_number join_fee = 4
type_number referral = 5
type_number signup_bonus = 6
type_number admin_refund = 7
type_number ludo_tournament_join_fee = 8
type_number sl_game_join_fee = 9
type_number epl_game_join_fee = 10
type_number coupon = 11
type_number ludo_tournament_refund = 12
type_number withdrawal_refund = 13
type_number tds_reward = 14

abbrev game_number : Games → ℕ
game_number empiregames = 0
game_number ludo = 1
game_number ludo_mega_tournament = 2
game_number rummyempire = 3
game_number skillpatti = 4
game_number callbreak = 5
game_number snake_and_ladders = 6
game_number cricket = 7
game_number aviator = 8
game_number epl = 9

abbrev pub same_type : TransactionType → TransactionType → Bool
same_type a b = type_number a == type_number b

abbrev pub is_game : Option Games → Games → Bool
is_game none g = false
is_game (some f) g = game_number f == game_number g

-- A missing field is found by `undefined`.
abbrev pub same_field : Option ℕ → Option ℕ → Bool
same_field none none = true
same_field (some a) (some b) = a == b
same_field _ _ = false

pub record Wallet : Type 0 where
  pub main : ℤ
  pub win : ℤ
  pub bonus : ℤ

pub record User : Type 0 where
  pub wallet : Wallet
  pub is_pro_active : Bool
  pub earning : ℤ

-- A transaction; `main`, `win` and `bonus` are its break-down.
pub record Transaction : Type 0 where
  pub user_id : ℕ
  pub order_id : Option ℕ
  pub amount : ℕ
  pub type : TransactionType
  pub game : Option Games
  pub table_id : Option ℕ
  pub tournament_id : Option ℕ
  pub entry_no : Option ℕ
  pub main : ℤ
  pub win : ℤ
  pub bonus : ℤ
  pub expire_at : Option ℕ
  pub expired : Bool

-- A portion is a fraction.
pub record Portion : Type 0 where
  pub num : ℕ
  pub den : ℕ

pub record Portions : Type 0 where
  pub main : Portion
  pub bonus : Portion
  pub win : Portion

pub record WalletTransactionDto : Type 0 where
  pub user_id : ℕ
  pub amount : ℕ
  pub order_id : Option ℕ
  pub type : TransactionType
  pub credit : Bool
  pub portions : Portions
  pub game : Option Games
  pub table_id : Option ℕ
  pub tournament_id : Option ℕ
  pub entry_no : Option ℕ
  pub expired_at : Option ℕ

pub record World : Type 0 where
  pub users : ℕ → Option User
  pub transactions : List Transaction
  -- the calls of `convertToProIfEligible`
  pub pro_checks : List ℕ

-- `findById` of a user, who raises when missing
unfoldable pub find_user : ℕ → Action World User
find_user user_id w = (or_throw (w.users user_id) not_found, w)

abbrev pub write_user : ℕ → User → (ℕ → Option User) → ℕ → Option User
write_user user_id u users j = if j == user_id then some u else users j

unfoldable pub set_wallet : ℕ → User → Wallet → Action World (Unit {0})
set_wallet user_id u wallet w =
    (ok tt, record w { users = write_user user_id (record u { wallet = wallet }) w.users })

unfoldable pub save_transaction : Transaction → Action World (Unit {0})
save_transaction t w = (ok tt, record w { transactions = t ∷ w.transactions })

unfoldable pub convert_to_pro_if_eligible : ℕ → Action World (Unit {0})
convert_to_pro_if_eligible user_id w = (ok tt, record w { pro_checks = user_id ∷ w.pro_checks })
