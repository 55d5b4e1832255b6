-- ===== src/Wallet/Operations.antt =====
-- mongoose-wallet.reposiotry.ts and wallet.use-cases.ts: the credits and debits of one user, each
-- an update of the wallet. `null` fields of a request are `none`.
use empire_backend.Base.{ℕ, ◌+◌, ◌-◌, Bool, true, false, Option, none, some, ◌==◌, if◌then◌else◌}
use empire_backend.Base.Int.{pos, ◌+ℤ◌, pos_part}
use empire_backend.Base.Results.{Result, ok, err, bad_request, internal}
use empire_backend.Base.Actions.{Action, ◌>>=◌, ◌>>◌}
use empire_backend.Wallet.{
  TransactionType, deposit, withdrawal, winning, join_fee, referral, admin_refund,
  ludo_tournament_join_fee, sl_game_join_fee, epl_game_join_fee, withdrawal_refund, tds_reward,
  Games, ludo, ludo_mega_tournament, snake_and_ladders, aviator, epl, User, Portion, Portions,
  WalletTransactionDto, World, write_user, find_user,
}
use empire_backend.Wallet.Amounts.{to_fixed}
use empire_backend.Wallet.Updates.{update_wallet}

abbrev pub whole : Portion
whole = record { num = 1; den = 1 }

abbrev pub nothing : Portion
nothing = record { num = 0; den = 1 }

abbrev pub to_main : Portions
to_main = record { main = whole; bonus = nothing; win = nothing }

abbrev pub to_win : Portions
to_win = record { main = nothing; bonus = nothing; win = whole }

abbrev pub to_bonus : Portions
to_bonus = record { main = nothing; bonus = whole; win = nothing }

-- `main: 1 - bonusPercentage, bonus: bonusPercentage`, for a commission in percent
abbrev pub by_commission : ℕ → Portions
by_commission bonus_commission = record {
  main = record { num = 100 - bonus_commission; den = 100 };
  bonus = record { num = bonus_commission; den = 100 };
  win = nothing;
}

abbrev pub dto_of : ℕ → ℕ → TransactionType → Bool → Portions → WalletTransactionDto
dto_of user_id amount type credit portions = record {
  user_id = user_id;
  amount = amount;
  order_id = none;
  type = type;
  credit = credit;
  portions = portions;
  game = none;
  table_id = none;
  tournament_id = none;
  entry_no = none;
  expired_at = none;
}

abbrev pub game_dto :
    ℕ → ℕ → TransactionType → Bool → Portions → Games → Option ℕ → WalletTransactionDto
game_dto user_id amount type credit portions game table_id =
    record (dto_of user_id amount type credit portions) { game = some game; table_id = table_id }

unfoldable pub credit_deposit_to_wallet : ℕ → ℕ → ℕ → Action World (Unit {0})
credit_deposit_to_wallet user_id order_id amount =
    update_wallet (record (dto_of user_id amount deposit true to_main) { order_id = some order_id })

unfoldable pub debit_payout_from_wallet : ℕ → ℕ → ℕ → Action World (Unit {0})
debit_payout_from_wallet user_id order_id amount =
    update_wallet
      (record (dto_of user_id amount withdrawal false to_win) { order_id = some order_id })

unfoldable pub credit_payout_refund_to_wallet : ℕ → ℕ → ℕ → Action World (Unit {0})
credit_payout_refund_to_wallet user_id order_id amount =
    update_wallet
      (record (dto_of user_id amount withdrawal_refund true to_win) { order_id = some order_id })

unfoldable pub credit_tax_reward_to_wallet : ℕ → ℕ → ℕ → Action World (Unit {0})
credit_tax_reward_to_wallet user_id order_id amount =
    update_wallet
      (record (dto_of user_id amount tds_reward true to_main) { order_id = some order_id })

-- The withdrawal of the winnings, then the deposit of the amount with the reward.
unfoldable pub convert_to_main : ℕ → ℕ → ℕ → ℕ → Action World (Unit {0})
unfolding debit_payout_from_wallet credit_deposit_to_wallet to_fixed
convert_to_main user_id order_id amount reward = do
  debit_payout_from_wallet user_id order_id amount
  credit_deposit_to_wallet user_id order_id (pos_part (to_fixed (pos (amount + reward))))

-- The reward of a referral goes to `referred_user_id`.
unfoldable pub credit_referral_bonus : ℕ → ℕ → Action World (Unit {0})
unfolding find_user to_fixed
credit_referral_bonus referred_user_id amount = do
  update_wallet (dto_of referred_user_id amount referral true to_main)
  u ← find_user referred_user_id
  add_earning u
  where
    add_earning : User → Action World (Unit {0})
    add_earning u w = (
      ok tt,
      record w {
        users =
            write_user referred_user_id (record u { earning = u.earning +ℤ to_fixed (pos amount) })
              w.users;
      },
    )

unfoldable pub debit_ludo_join_fee : ℕ → ℕ → ℕ → Option ℕ → Option ℕ → Action World (Unit {0})
debit_ludo_join_fee user_id amount bonus_commission table_id tournament_id =
    update_wallet
      (record (game_dto user_id amount
        (elim table_id [ some t ↦ join_fee | none ↦ ludo_tournament_join_fee ]) false
        (by_commission bonus_commission) ludo table_id) { tournament_id = tournament_id })

unfoldable pub debit_sl_join_fee : ℕ → ℕ → ℕ → Option ℕ → Action World (Unit {0})
debit_sl_join_fee user_id amount bonus_commission table_id = update_wallet (
    game_dto user_id amount (elim table_id [ some t ↦ join_fee | none ↦ sl_game_join_fee ]) false
      (by_commission bonus_commission) snake_and_ladders table_id)

unfoldable pub debit_epl_join_fee : ℕ → ℕ → ℕ → Option ℕ → Action World (Unit {0})
debit_epl_join_fee user_id join_fee_ bonus_commission table_id = update_wallet (
    game_dto user_id join_fee_ (elim table_id [ some t ↦ join_fee | none ↦ epl_game_join_fee ])
      false (by_commission bonus_commission) epl table_id)

unfoldable pub debit_ludo_mega_tournament_join_fee : ℕ → ℕ → ℕ → ℕ → ℕ → Action World (Unit {0})
debit_ludo_mega_tournament_join_fee user_id amount tournament_id entry_no bonus_commission =
    update_wallet
      (record (game_dto user_id amount ludo_tournament_join_fee false
        (by_commission bonus_commission) ludo_mega_tournament none) {
          tournament_id = some tournament_id;
          entry_no = some entry_no;
        })

unfoldable pub debit_aviator_bet_amount : ℕ → ℕ → ℕ → ℕ → Action World (Unit {0})
unfolding find_user
debit_aviator_bet_amount round_no user_id amount bonus_commission w = elim (w.users user_id) [
  | none ↦ (err bad_request, w)
  | some u ↦
      update_wallet
        (game_dto user_id amount join_fee false (by_commission bonus_commission) aviator
          (some round_no))
        w
]

abbrev winning_type : Bool → TransactionType
winning_type is_refund = if is_refund then admin_refund else winning

unfoldable pub credit_aviator_winning_amount : ℕ → ℕ → ℕ → Action World (Unit {0})
credit_aviator_winning_amount round_no user_id amount w = elim (w.users user_id) [
  | none ↦ (err bad_request, w)
  | some u ↦ update_wallet (game_dto user_id amount winning true to_win aviator (some round_no)) w
]

unfoldable pub credit_sl_winning_amount : ℕ → ℕ → ℕ → Bool → Action World (Unit {0})
credit_sl_winning_amount user_id amount table_id is_refund =
    update_wallet (
      game_dto user_id amount (winning_type is_refund) true to_win snake_and_ladders
        (some table_id))

unfoldable pub credit_ludo_winning_amount : ℕ → ℕ → ℕ → Action World (Unit {0})
credit_ludo_winning_amount user_id amount table_id =
    update_wallet (game_dto user_id amount winning true to_win ludo (some table_id))

-- `reAddWinningAmount` and `cbrAddWinningAmount`
unfoldable pub add_winning_amount : Games → ℕ → ℕ → ℕ → Bool → Action World (Unit {0})
add_winning_amount game user_id amount table_id is_refund w = elim (w.users user_id) [
  | none ↦ (err bad_request, w)
  | some u ↦
      update_wallet
        (game_dto user_id amount (winning_type is_refund) true to_win game (some table_id)) w
]

-- The portions of three amounts in their sum, which `Big` refuses to divide by when it is 0.
unfoldable pub shares_of : ℕ → ℕ → ℕ → Result Portions
shares_of main win bonus =
    let total = main + win + bonus in
    if total == 0
    then err internal
    else ok (record {
      main = record { num = main; den = total };
      bonus = record { num = bonus; den = total };
      win = record { num = win; den = total };
    })

-- `spDebitJoinFee`, `reDebitJoinFee` and `cbrDebitJoinFee` of the repository, and `spAddWinningAmount`
unfoldable pub update_by_shares :
    TransactionType → Bool → Games → ℕ → ℕ → ℕ → ℕ → ℕ → Action World (Unit {0})
unfolding shares_of
update_by_shares type credit game user_id main win bonus table_id w = elim (w.users user_id) [
  | none ↦ (err bad_request, w)
  | some u ↦ elim (shares_of main win bonus) [
    | err e ↦ (err e, w)
    | ok shares ↦
        update_wallet
          (game_dto user_id (main + win + bonus) type credit shares game (some table_id)) w
  ]
]
