-- ===== src/Wallet/Batches/Refunded.antt =====
-- mongoose-wallet.reposiotry.ts: `refundTournamentJoinFees`, once and again.
use empire_backend.Base.{
  ℕ, zero, suc, ◌+◌, ◌*◌, ◌≡◌, refl, sym, ap, ◌∙◌, Bool, Bool-cases, inl, inr, if◌then◌else◌, ◌&&◌,
  Option, none, some, List, [], ◌∷◌, ◌++◌, ◌==◌, arith, count, count-append, filter, map, ==_self,
}
use mathlib.Core.Option.{get_or}
use empire_backend.Base.Int.{pos}
use empire_backend.Wallet.{Transaction, World, admin_refund}
use empire_backend.Wallet.Batches.{
  Credit, batch_transaction, is_of_tournament, first_amount, refunds_of, credit_main,
  refund_tournament_join_fees,
}
use empire_backend.Wallet.Batches.Credits.{owed, credit_user, bulk_write-totals_from}

-- The transactions of a user for a tournament, of any type.
abbrev pub is_entry : ℕ → ℕ → Transaction → Bool
is_entry tournament_id user_id t = is_of_tournament tournament_id t && (t.user_id == user_id)

abbrev pub entries : ℕ → ℕ → List Transaction → ℕ
entries tournament_id user_id = count (is_entry tournament_id user_id)

abbrev pub amount_owed : ℕ → ℕ → Option ℕ
amount_owed n fee = if n == 0 then none else some (n * fee)

amount_owed-suc : (n fee : ℕ) → amount_owed (suc n) fee ≡ some (suc n * fee)
amount_owed-suc n fee = ground arith

one_more : (n fee : ℕ) → some (fee + get_or (amount_owed n fee) 0) ≡ amount_owed (suc n) fee
one_more zero fee = ap some (omega arith)
one_more (suc n) fee = ap some (more n) ∙ sym (amount_owed-suc (suc n) fee)
  where
    more : (k : ℕ) → fee + get_or (amount_owed (suc k) fee) 0 ≡ suc (suc k) * fee
    more k = rw (amount_owed-suc k fee) (grind arith)

module _ (tournament_id : ℕ) where
  abbrev pub found : List Transaction → List Transaction
  found ts = filter (is_of_tournament tournament_id) ts

  abbrev credits : ℕ → List Transaction → List Credit
  credits fee ts = map (λ (t : Transaction). (t.user_id, fee)) (found ts)

  owed-credits :
      (user_id fee : ℕ) (ts : List Transaction)
      → owed user_id (credits fee ts) ≡ amount_owed (entries tournament_id user_id ts) fee
  owed-credits user_id fee [] = refl
  owed-credits user_id fee (t ∷ ts) = elim (Bool-cases (is_of_tournament tournament_id t)) [
    | inl of ↦ elim (Bool-cases (t.user_id == user_id)) [
      | inl same ↦
          rw (of, same, owed-credits user_id fee ts)
            (one_more (entries tournament_id user_id ts) fee)
      | inr other ↦ rw (of, other) (owed-credits user_id fee ts)
    ]
    | inr out ↦ rw out (owed-credits user_id fee ts)
  ]

  abbrev given : ℕ → Credit → Transaction
  given fee c = batch_transaction admin_refund tournament_id (pos c.1) (pos 0) c

  entries-given :
      (user_id fee : ℕ) (ts : List Transaction)
      → entries tournament_id user_id (map (given fee) (credits fee ts))
        ≡ entries tournament_id user_id ts
  entries-given user_id fee [] = refl
  entries-given user_id fee (t ∷ ts) = elim (Bool-cases (is_of_tournament tournament_id t)) [
    | inl of ↦ elim (Bool-cases (t.user_id == user_id)) [
      | inl same ↦ rw (of, same, ==_self tournament_id) (ap suc (entries-given user_id fee ts))
      | inr other ↦ rw (of, other, ==_self tournament_id) (entries-given user_id fee ts)
    ]
    | inr out ↦ rw out (entries-given user_id fee ts)
  ]

  first_amount-append :
      (fee : ℕ) (ts us : List Transaction)
      → first_amount (found us) ≡ some fee
      → first_amount (found (ts ++ us)) ≡ some fee
  unfolding first_amount
  first_amount-append fee [] us h = h
  first_amount-append fee (t ∷ ts) us h = elim (Bool-cases (is_of_tournament tournament_id t)) [
    | inl of ↦ rw (of, first_amount-append fee ts us h)
    | inr other ↦ rw other (first_amount-append fee ts us h)
  ]

  -- A user who has `n` transactions for the tournament, of any type, gets `n` times the amount of the
  -- oldest one on the main balance, and has twice as many transactions afterwards, while the oldest
  -- amount stays: a second run gives twice as much again.
  pub refund_tournament_join_fees-eq :
      (fee user_id : ℕ) (w : World)
      → first_amount (found w.transactions) ≡ some fee
      → (let n = entries tournament_id user_id w.transactions in
          let w' = refund_tournament_join_fees tournament_id w in
          (w'.users user_id ≡ credit_user credit_main (amount_owed n fee) (w.users user_id))
          × (entries tournament_id user_id w'.transactions ≡ 2 * n)
          × (first_amount (found w'.transactions) ≡ some fee))
  unfolding refund_tournament_join_fees refunds_of
  refund_tournament_join_fees-eq fee user_id w h =
      let ts = w.transactions in
      let same : refunds_of tournament_id ts ≡ credits fee ts = rw (h, refunds_of) in
      rw same (
        bulk_write-totals_from credit_main w.users (credits fee ts) user_id
            ∙ ap (λ o. credit_user credit_main o (w.users user_id)) (owed-credits user_id fee ts),
        count-append (is_entry tournament_id user_id) (map (given fee) (credits fee ts)) ts
            ∙ omega (arith, entries-given user_id fee ts),
        first_amount-append fee (map (given fee) (credits fee ts)) ts h,
      )
