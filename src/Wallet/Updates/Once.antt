-- ===== src/Wallet/Updates/Once.antt =====
-- mongoose-wallet.reposiotry.ts: the check for a double transaction.
use empire_backend.Base.{
  ℕ, ==_self, ◌≡◌, refl, sym, ap, ◌∙◌, Bool, true, false, Bool-cases, ◌⊎◌, inl, inr, if◌then◌else◌,
  not, ◌&&◌, ◌||◌, List, [], ◌∷◌, map, subst, Option, none, some,
}
use empire_backend.Base.Results.{
  Error, ok, err, bad_request, not_found, or_throw, >>=-eq-ok, throw_if-eq-ok, or_throw-ok,
  ok-injective, err-ne-ok, Result-cases,
}
use empire_backend.Base.Actions.{◌>>=◌, ◌>>◌}
use empire_backend.Wallet.{
  winning, ludo_tournament_prize, same_type, same_field, type_number, write_user, Transaction,
  WalletTransactionDto, World, set_wallet, save_transaction, convert_to_pro_if_eligible,
}
use empire_backend.Wallet.Amounts.{Deductions, calculate_deductions, update_balances}
use empire_backend.Wallet.Updates.{
  should_skip_double_transaction_check, matches, transaction_of, no_deductions, has_transaction,
  is_duplicate, Prepared, prepare, commit, update_wallet,
}

abbrev pub is_checked : Transaction → Bool
is_checked t = not (should_skip_double_transaction_check t.game t.type)

-- Of the transactions that are checked, none has an older one with the same fields.
abbrev pub IsOnce : List Transaction → Type 0
IsOnce [] = Unit
IsOnce (t ∷ ts) = (is_checked t && has_transaction t ts ≡ false) × IsOnce ts

has_transaction-transaction_of :
    (dto : WalletTransactionDto) (d e : Deductions) (ts : List Transaction)
    → has_transaction (transaction_of dto d) ts ≡ has_transaction (transaction_of dto e) ts
unfolding has_transaction matches transaction_of
has_transaction-transaction_of dto d e [] = refl
has_transaction-transaction_of dto d e (t ∷ ts) =
    ap (λ b. matches (transaction_of dto d) t || b) (has_transaction-transaction_of dto d e ts)

pub commit-transactions :
    (p : Prepared) (w : World)
    → (commit p w).1.transactions ≡ transaction_of p.dto p.deductions ∷ w.transactions
unfolding commit set_wallet save_transaction convert_to_pro_if_eligible ◌>>=◌ ◌>>◌
commit-transactions p w =
    elim (Bool-cases (same_type p.dto.type winning || same_type p.dto.type ludo_tournament_prize)) [
      | inl win ↦ simp win
      | inr other ↦ simp other
    ]

-- What an update has found before it writes.
pub record IsPrepared (dto : WalletTransactionDto) (w : World) (p : Prepared) : Type 0 where
  pub dto_eq : p.dto ≡ dto
  pub there : w.users dto.user_id ≡ some p.user
  pub new : is_duplicate dto w.transactions ≡ false
  pub worked_out : calculate_deductions dto p.user.wallet ≡ ok p.deductions

pub prepare-IsPrepared :
    (dto : WalletTransactionDto) (w : World) (p : Prepared)
    → prepare dto w ≡ ok p
    → IsPrepared dto w p
unfolding prepare
prepare-IsPrepared dto w p e =
    let (u, here, e1) = >>=-eq-ok (or_throw (w.users dto.user_id) not_found) _ e in
    let (new, e2) = throw_if-eq-ok (is_duplicate dto w.transactions) bad_request _ e1 in
    let (d, worked, e3) = >>=-eq-ok (calculate_deductions dto u.wallet) _ e2 in
    subst (IsPrepared dto w) (ok-injective (record { dto = dto; user = u; deductions = d }) p e3)
      (record {
        dto_eq = refl;
        there = or_throw-ok (w.users dto.user_id) not_found u here;
        new = new;
        worked_out = worked;
      })

-- An update leaves the world alone, or prepares and writes.
pub update_wallet-cases :
    (dto : WalletTransactionDto) (w : World)
    → ((e : Error) × (update_wallet dto w ≡ (err e, w)))
      ⊎ ((p : Prepared) × IsPrepared dto w p × (update_wallet dto w ≡ commit p w))
unfolding update_wallet
update_wallet-cases dto w = elim (Result-cases (prepare dto w)) [
  | inl (p, e) ↦ inr (p, prepare-IsPrepared dto w p e, rw (e, update_wallet))
  | inr (e, h) ↦ inl (e, rw (h, update_wallet))
]

pub update_wallet-IsOnce :
    (dto : WalletTransactionDto) (w : World)
    → IsOnce w.transactions
    → IsOnce (update_wallet dto w).1.transactions
unfolding is_duplicate
update_wallet-IsOnce dto w once = elim (update_wallet-cases dto w) [
  | inl (e, h) ↦ rw h once
  | inr (p, prepared, h) ↦
      rw (h, commit-transactions p w, prepared.dto_eq)
        (
          ap (λ b. is_checked (transaction_of dto p.deductions) && b)
                (has_transaction-transaction_of dto p.deductions no_deductions w.transactions)
              ∙ prepared.new,
          once,
        )
]

pub commit-users :
    (p : Prepared) (w : World)
    → (commit p w).1.users
      ≡ write_user p.dto.user_id
          (record p.user { wallet = update_balances p.dto.credit p.deductions p.user.wallet })
          w.users
unfolding commit set_wallet save_transaction convert_to_pro_if_eligible ◌>>=◌ ◌>>◌
commit-users p w =
    elim (Bool-cases (same_type p.dto.type winning || same_type p.dto.type ludo_tournament_prize)) [
      | inl win ↦ simp win
      | inr other ↦ simp other
    ]

same_field_self : (a : Option ℕ) → same_field a a ≡ true
same_field_self none = refl
same_field_self (some a) = ==_self a

matches-transaction_of :
    (dto : WalletTransactionDto) (d e : Deductions)
    → matches (transaction_of dto d) (transaction_of dto e) ≡ true
unfolding matches transaction_of
matches-transaction_of dto d e = simp (
  ==_self dto.user_id,
  ==_self (type_number dto.type),
  same_field_self dto.order_id,
  same_field_self dto.table_id,
  same_field_self dto.tournament_id,
  same_field_self dto.entry_no,
)

-- A successful update of a checked kind cannot be made again: it raises and changes nothing.
pub update_wallet-again :
    (dto : WalletTransactionDto) (w w' : World)
    → should_skip_double_transaction_check dto.game dto.type ≡ false
    → update_wallet dto w ≡ (ok tt, w')
    → update_wallet dto w' ≡ (err bad_request, w')
unfolding prepare is_duplicate has_transaction update_wallet
update_wallet-again dto w w' checked h = elim (update_wallet-cases dto w) [
  | inl (e, failed) ↦ absurd (err-ne-ok e tt (sym (ap (λ r. r.0) failed) ∙ ap (λ r. r.0) h))
  | inr (p, prepared, wrote) ↦
      let done_ : (commit p w).1 ≡ w' = ap (λ r. r.1) (sym wrote ∙ h) in
      let u = record p.user { wallet = update_balances p.dto.credit p.deductions p.user.wallet } in
      let there : w'.users p.dto.user_id ≡ some u =
        ap (λ v. v.users p.dto.user_id) (sym done_)
        ∙ ap (λ f. f p.dto.user_id) (commit-users p w)
        ∙ simp (==_self p.dto.user_id) in
      let old : w'.transactions ≡ transaction_of p.dto p.deductions ∷ w.transactions =
        ap (λ v. v.transactions) (sym done_) ∙ commit-transactions p w in
      let here : w'.users dto.user_id ≡ some u =
        subst (λ x. w'.users x.user_id ≡ some u) prepared.dto_eq there in
      let same = matches-transaction_of dto no_deductions p.deductions in
      let dup : is_duplicate dto w'.transactions ≡ true =
        rw (checked, old, prepared.dto_eq, has_transaction) (rw same refl) in
      let e : prepare dto w' ≡ err bad_request = rw (here, dup) in rw (e, update_wallet)
]

abbrev pub mark : Bool → Transaction → Transaction
mark b t = if b then record t { expired = true } else t

-- Expiring a transaction changes none of the fields that are compared.
matches-mark : (t u : Transaction) (b c : Bool) → matches (mark b t) (mark c u) ≡ matches t u
unfolding matches
matches-mark t u true true = refl
matches-mark t u true false = refl
matches-mark t u false true = refl
matches-mark t u false false = refl

is_checked-mark : (t : Transaction) (b : Bool) → is_checked (mark b t) ≡ is_checked t
is_checked-mark t true = refl
is_checked-mark t false = refl

module _ (expires : Transaction → Bool) where
  abbrev pub marked : List Transaction → List Transaction
  marked ts = map (λ t. mark (expires t) t) ts

  has_transaction-marked :
      (t : Transaction) (ts : List Transaction) (b : Bool)
      → has_transaction (mark b t) (marked ts) ≡ has_transaction t ts
  unfolding has_transaction
  has_transaction-marked t [] b = refl
  has_transaction-marked t (u ∷ ts) b =
      rw (matches-mark t u b (expires u))
        (ap (λ c. matches t u || c) (has_transaction-marked t ts b))

  pub marked-IsOnce : (ts : List Transaction) → IsOnce ts → IsOnce (marked ts)
  marked-IsOnce [] h = tt
  marked-IsOnce (t ∷ ts) h = (
    rw (is_checked-mark t (expires t), has_transaction-marked t ts (expires t)) h.0,
    marked-IsOnce ts h.1,
  )
