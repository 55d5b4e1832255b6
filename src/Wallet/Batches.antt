-- ===== src/Wallet/Batches.antt =====
-- mongoose-wallet.reposiotry.ts: the credits of a whole tournament, which write the balances and the
-- transactions in one batch and not by `#updateWallet`.
pub mod Credits
pub mod Refunded
use empire_backend.Base.{
  ℕ, ◌+◌, Bool, true, false, ◌&&◌, Option, none, some, List, [], ◌∷◌, ◌++◌, ◌==◌, if◌then◌else◌,
  map, filter,
}
use empire_backend.Base.Int.{ℤ, pos, ◌+ℤ◌}
use empire_backend.Wallet.{
  TransactionType, ludo_tournament_prize, admin_refund, Games, ludo_mega_tournament, same_field,
  Wallet, User, Transaction, World,
}
use empire_backend.Wallet.Amounts.{to_fixed}

-- An amount for a user.
abbrev pub Credit : Type 0
Credit = ℕ × ℕ

-- `winAmounts[userId] += amount`, with a new entry at the end
unfoldable pub add_amount : Credit → List Credit → List Credit
add_amount c [] = c ∷ []
add_amount c (e ∷ es) =
    let rest = add_amount c es in if e.0 == c.0 then (e.0, e.1 + c.1) ∷ es else e ∷ rest

unfoldable pub totals_from : List Credit → List Credit → List Credit
unfolding add_amount
totals_from [] totals = totals
totals_from (c ∷ cs) totals = totals_from cs (add_amount c totals)

abbrev pub credit_win : ℕ → Wallet → Wallet
credit_win amount wallet = record wallet { win = to_fixed (wallet.win +ℤ pos amount) }

abbrev pub credit_main : ℕ → Wallet → Wallet
credit_main amount wallet = record wallet { main = to_fixed (wallet.main +ℤ pos amount) }

-- The batch of the wallets: each entry sets the balance of its user, read before the batch.
unfoldable pub bulk_write :
    (ℕ → Wallet → Wallet) → (ℕ → Option User) → List Credit → (ℕ → Option User) → ℕ → Option User
bulk_write credit before [] users = users
bulk_write credit before (c ∷ cs) users = bulk_write credit before cs (λ j.
    if j == c.0
    then elim (before c.0) [
      | none ↦ users j
      | some u ↦ some (record u { wallet = credit c.1 u.wallet })
    ]
    else users j)

abbrev pub batch_transaction : TransactionType → ℕ → ℤ → ℤ → Credit → Transaction
batch_transaction type tournament_id main win c = record {
  user_id = c.0;
  order_id = none;
  amount = c.1;
  type = type;
  game = some ludo_mega_tournament;
  table_id = none;
  tournament_id = some tournament_id;
  entry_no = none;
  main = main;
  win = win;
  bonus = pos 0;
  expire_at = none;
  expired = false;
}

unfoldable pub credit_ludo_mega_tournament_prizes : ℕ → List Credit → World → World
unfolding totals_from bulk_write to_fixed
credit_ludo_mega_tournament_prizes tournament_id prizes w = record w {
  users = bulk_write credit_win w.users (totals_from prizes []) w.users;
  transactions =
      map
        (λ (c : Credit). batch_transaction ludo_tournament_prize tournament_id (pos 0) (pos c.1) c)
        prizes
      ++ w.transactions;
}

abbrev pub is_of_tournament : ℕ → Transaction → Bool
is_of_tournament tournament_id t = same_field t.tournament_id (some tournament_id)

-- `findOne`: the oldest one, which is the last of the list
unfoldable pub first_amount : List Transaction → Option ℕ
first_amount [] = none
first_amount (t ∷ ts) = elim (first_amount ts) [ none ↦ some t.amount | some a ↦ some a ]

-- Each transaction of the tournament, of any type, gives the amount of the first one back.
unfoldable pub refunds_of : ℕ → List Transaction → List Credit
unfolding first_amount
refunds_of tournament_id transactions =
    let found = filter (is_of_tournament tournament_id) transactions in
    elim (first_amount found) [
      | none ↦ []
      | some join_fee ↦ map (λ (t : Transaction). (t.user_id, join_fee)) found
    ]

unfoldable pub refund_tournament_join_fees : ℕ → World → World
unfolding refunds_of totals_from bulk_write to_fixed
refund_tournament_join_fees tournament_id w =
    let refunds = refunds_of tournament_id w.transactions in
    record w {
      users = bulk_write credit_main w.users (totals_from refunds []) w.users;
      transactions =
          map (λ (c : Credit). batch_transaction admin_refund tournament_id (pos c.1) (pos 0) c)
            refunds
          ++ w.transactions;
    }
