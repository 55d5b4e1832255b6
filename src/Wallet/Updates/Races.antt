-- ===== src/Wallet/Updates/Races.antt =====
-- mongoose-wallet.reposiotry.ts: two updates of one user at the same time. `#updateWallet` takes no
-- lock, so that both may have read before either writes.
use empire_backend.Base.{◌≡◌, sym, ap, ◌∙◌, some, ◌∷◌, ==_self}
use mathlib.Core.Option.{some-injective}
use empire_backend.Base.Results.{ok}
use empire_backend.Wallet.{User, WalletTransactionDto, World}
use empire_backend.Wallet.Amounts.{update_balances}
use empire_backend.Wallet.Updates.{transaction_of, Prepared, prepare, commit}
use empire_backend.Wallet.Updates.Once.{prepare-IsPrepared, commit-users, commit-transactions}

-- The user of an update with the balances that it writes.
abbrev pub written : Prepared → User
written p = record p.user { wallet = update_balances p.dto.credit p.deductions p.user.wallet }

-- Of two updates of one user that have both read the same world, the one that writes last decides the
-- balances, worked out from those before both, and the other one is lost; but both transactions
-- are saved. So too for one request that comes twice, whichever kind it has.
pub commit-commit :
    (dto dto' : WalletTransactionDto) (w : World) (p p' : Prepared)
    → dto.user_id ≡ dto'.user_id
    → prepare dto w ≡ ok p
    → prepare dto' w ≡ ok p'
    → ((commit p' (commit p w).1).1.users dto.user_id ≡ some (written p'))
      × (p'.user ≡ p.user)
      × ((commit p' (commit p w).1).1.transactions
          ≡ transaction_of dto' p'.deductions ∷ transaction_of dto p.deductions ∷ w.transactions)
commit-commit dto dto' w p p' same e e' =
    let a = prepare-IsPrepared dto w p e in
    let b = prepare-IsPrepared dto' w p' e' in
    (
      ap (λ f. f dto.user_id) (commit-users p' (commit p w).1)
          ∙ rw (b.dto_eq, same, ==_self dto'.user_id),
      some-injective p'.user p.user (sym b.there ∙ ap w.users (sym same) ∙ a.there),
      commit-transactions p' (commit p w).1 ∙ rw (commit-transactions p w, a.dto_eq, b.dto_eq),
    )
