-- ===== src/Wallet/Batches/Credits.antt =====
-- mongoose-wallet.reposiotry.ts: what a batch of credits gives to each user.
use empire_backend.Base.{
  ℕ, ◌+◌, ◌≡◌, refl, ap, ◌∙◌, Bool, true, false, Bool-cases, inl, inr, if◌then◌else◌, Option, none,
  some, List, [], ◌∷◌, ◌==◌, ==_iff, ==_self, arith, subst, length, length-append, length-map, map,
}
use mathlib.Core.Option.{get_or}
use empire_backend.Wallet.{Wallet, User, World}
use empire_backend.Wallet.Batches.{
  Credit, add_amount, totals_from, bulk_write, credit_win, credit_ludo_mega_tournament_prizes,
}

-- The sum of the amounts for a user, or nothing when there is none.
abbrev pub owed : ℕ → List Credit → Option ℕ
owed user_id [] = none
owed user_id (c ∷ cs) =
    let rest = owed user_id cs in if c.0 == user_id then some (c.1 + get_or rest 0) else rest

abbrev entry : ℕ → List Credit → Option ℕ
entry user_id [] = none
entry user_id (c ∷ cs) = let rest = entry user_id cs in if c.0 == user_id then some c.1 else rest

abbrev join : Option ℕ → Option ℕ → Option ℕ
join none o = o
join (some a) o = some (a + get_or o 0)

some-ne-none : (a : ℕ) → some a ≡ none → ⊥
some-ne-none a h = cc

entry-add_amount :
    (user_id : ℕ) (c : Credit) (es : List Credit)
    → entry user_id (add_amount c es)
      ≡ (if c.0 == user_id then some (get_or (entry user_id es) 0 + c.1) else entry user_id es)
unfolding add_amount
entry-add_amount user_id c [] = ground arith
entry-add_amount user_id c (e ∷ es) = ground (arith, entry-add_amount user_id c es)

entry-totals_from :
    (user_id : ℕ) (cs totals : List Credit)
    → entry user_id (totals_from cs totals) ≡ join (entry user_id totals) (owed user_id cs)
unfolding totals_from
entry-totals_from user_id [] totals = go (entry user_id totals)
  where
    go : (o : Option ℕ) → o ≡ join o none
    go none = refl
    go (some a) = ap some (omega arith)
entry-totals_from user_id (c ∷ cs) totals =
    entry-totals_from user_id cs (add_amount c totals)
    ∙ ap (λ o. join o (owed user_id cs)) (entry-add_amount user_id c totals)
    ∙ go (c.0 == user_id) (entry user_id totals) (owed user_id cs)
  where
    go :
        (b : Bool) (o rest : Option ℕ)
        → join (if b then some (get_or o 0 + c.1) else o) rest
          ≡ join o (if b then some (c.1 + get_or rest 0) else rest)
    go true none rest = ap some (omega arith)
    go true (some a) rest = ap some (omega arith)
    go false o rest = refl

-- Each user has one entry at most.
abbrev IsSingle : List Credit → Type 0
IsSingle [] = Unit
IsSingle (c ∷ cs) = (entry c.0 cs ≡ none) × IsSingle cs

add_amount-IsSingle : (c : Credit) (es : List Credit) → IsSingle es → IsSingle (add_amount c es)
unfolding add_amount
add_amount-IsSingle c [] h = (refl, tt)
add_amount-IsSingle c (e ∷ es) h = elim (Bool-cases (e.0 == c.0)) [
  | inl same ↦ rw same h
  | inr other ↦
      rw other (rw (entry-add_amount e.0 c es) (ground (arith, h.0)), add_amount-IsSingle c es h.1)
]

totals_from-IsSingle :
    (cs totals : List Credit) → IsSingle totals → IsSingle (totals_from cs totals)
unfolding totals_from
totals_from-IsSingle [] totals h = h
totals_from-IsSingle (c ∷ cs) totals h =
    totals_from-IsSingle cs (add_amount c totals) (add_amount-IsSingle c totals h)

abbrev pub credit_user : (ℕ → Wallet → Wallet) → Option ℕ → Option User → Option User
credit_user credit none o = o
credit_user credit (some amount) none = none
credit_user credit (some amount) (some u) = some (record u { wallet = credit amount u.wallet })

module _ (credit : ℕ → Wallet → Wallet) (before : ℕ → Option User) (user_id : ℕ) where
  bulk_write-none :
      (cs : List Credit) (users : ℕ → Option User)
      → entry user_id cs ≡ none
      → bulk_write credit before cs users user_id ≡ users user_id
  unfolding bulk_write
  bulk_write-none [] users h = refl
  bulk_write-none (c ∷ cs) users h = elim (Bool-cases (c.0 == user_id)) [
    | inl same ↦ absurd (some-ne-none c.1 (rw same at h))
    | inr other ↦
        let there : (user_id == c.0) ≡ false = ground arith in
        bulk_write-none cs _ (rw other at h) ∙ rw there
  ]

  bulk_write-entry :
      (cs : List Credit) (users : ℕ → Option User)
      → IsSingle cs
      → users user_id ≡ before user_id
      → bulk_write credit before cs users user_id
        ≡ credit_user credit (entry user_id cs) (before user_id)
  unfolding bulk_write
  bulk_write-entry [] users h e = e
  bulk_write-entry (c ∷ cs) users h e = elim (Bool-cases (c.0 == user_id)) [
    | inl same ↦
        let eq : c.0 ≡ user_id = (==_iff c.0 user_id).0 same in
        bulk_write-none cs _ (subst (λ k. entry k cs ≡ none) eq h.0)
        ∙ rw (eq, ==_self user_id) (e' (before user_id) c.1 e)
    | inr other ↦
        let there : (user_id == c.0) ≡ false = ground arith in
        rw other (bulk_write-entry cs _ h.1 (rw there e))
  ]
    where
      e' :
          (o : Option User) (amount : ℕ)
          → users user_id ≡ o
          → ◌≡◌ {A = Option User}
              (elim o [
                | none ↦ users user_id
                | some u ↦ some (record u { wallet = credit amount u.wallet })
              ])
              (credit_user credit (some amount) o)
      e' none amount h = h
      e' (some u) amount h = refl

-- The batch of the totals credits each user once, with all that is owed.
pub bulk_write-totals_from :
    (credit : ℕ → Wallet → Wallet) (users : ℕ → Option User) (cs : List Credit) (user_id : ℕ)
    → bulk_write credit users (totals_from cs []) users user_id
      ≡ credit_user credit (owed user_id cs) (users user_id)
bulk_write-totals_from credit users cs user_id =
    bulk_write-entry credit users user_id (totals_from cs []) users (totals_from-IsSingle cs [] tt)
      refl
    ∙ ap (λ o. credit_user credit o (users user_id)) (entry-totals_from user_id cs [])

-- The prizes of a mega tournament: each user who has a wallet gets the sum of all the prizes for that
-- user on the winnings, however often the user stands in the list, and the others are left alone.
-- Each prize is one transaction.
pub credit_ludo_mega_tournament_prizes-eq :
    (tournament_id : ℕ) (prizes : List Credit) (w : World) (user_id : ℕ)
    → ((credit_ludo_mega_tournament_prizes tournament_id prizes w).users user_id
        ≡ credit_user credit_win (owed user_id prizes) (w.users user_id))
      × (length (credit_ludo_mega_tournament_prizes tournament_id prizes w).transactions
          ≡ length prizes + length w.transactions)
unfolding credit_ludo_mega_tournament_prizes
credit_ludo_mega_tournament_prizes-eq tournament_id prizes w user_id = (
  bulk_write-totals_from credit_win w.users prizes user_id,
  length-append (map _ prizes) w.transactions
      ∙ ap (λ n. n + length w.transactions) (length-map _ prizes),
)
