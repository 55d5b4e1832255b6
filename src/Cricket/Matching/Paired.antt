-- ===== src/Cricket/Matching/Paired.antt =====
-- apps/epl-gameplay: which users of the queue play and which time out.
use empire_backend.Base.{
  ℕ, zero, suc, ◌+◌, ◌-◌, ◌*◌, ◌≤◌, ◌≡◌, refl, Bool, List, [], ◌∷◌, ltb, if◌then◌else◌, length,
  Bool-cases, inl, inr, arith,
}
use empire_backend.Base.Results.{ok}
use empire_backend.Cricket.Matching.{
  WaitingInfo, Matching, expiry_at, get_matching_timeout, judge, match_loop,
}

module _ (now waiting_time : ℕ) where
  -- The second of a pair has waited for more than a second.
  abbrev pub is_due : WaitingInfo → Bool
  is_due second = ltb (second.expiry - waiting_time * 1000 + 1000) now

  abbrev pub due_pairs : List WaitingInfo → List (List WaitingInfo)
  due_pairs (a ∷ b ∷ ws) = let rest = due_pairs ws in if is_due b then (a ∷ b ∷ []) ∷ rest else rest
  due_pairs _ = []

  -- The last user of a queue with an odd number of them, when the waiting time is over.
  abbrev pub late_last : List WaitingInfo → List ℕ
  late_last (a ∷ b ∷ ws) = late_last ws
  late_last (a ∷ []) = if ltb a.expiry now then a.user_id ∷ [] else []
  late_last [] = []

  abbrev pub IsPaired : List WaitingInfo → Matching → Type 0
  IsPaired ws m = (m.games ≡ due_pairs ws) × (m.timed_out ≡ late_last ws)

  match_loop-from :
      (fuel : ℕ) (ws : List WaitingInfo)
      → length ws ≤ fuel
      → (m : Matching) × (match_loop fuel now waiting_time ws ≡ ok m) × IsPaired ws m
  unfolding match_loop get_matching_timeout expiry_at judge
  match_loop-from fuel [] h = (record { timed_out = []; games = [] }, refl, (refl, refl))
  match_loop-from zero (w ∷ ws) h = absurd (omega (arith, h))
  match_loop-from (suc fuel) (a ∷ []) h = elim (Bool-cases (ltb a.expiry now)) [
    | inl due ↦ (record { timed_out = a.user_id ∷ []; games = [] }, simp due, (refl, simp due))
    | inr early ↦ (record { timed_out = []; games = [] }, simp early, (refl, simp early))
  ]
  match_loop-from (suc fuel) (a ∷ b ∷ ws) h =
      let (m, run, (games, late)) = match_loop-from fuel ws (omega (arith, h)) in
      elim (Bool-cases (is_due b)) [
        | inl due ↦ (
          record m { games = (a ∷ b ∷ []) ∷ m.games },
          simp (run, due),
          (simp (due, games), late),
        )
        | inr early ↦ (m, simp (run, early), (simp (early, games), late))
      ]

  late_last-le : (ws : List WaitingInfo) → length (late_last ws) ≤ 1
  late_last-le (a ∷ b ∷ ws) = late_last-le ws
  late_last-le (a ∷ []) = ground arith
  late_last-le [] = omega arith

  -- The loop of `match` ends without raising. The users are taken two by two in the order of the
  -- queue: a game is started for each pair whose second user has waited for more than a second.
  -- Only the last one of an odd number of users times out, when the waiting time is over, so that
  -- a run times out one user at most.
  pub match_loop-IsPaired :
      (ws : List WaitingInfo)
      → (m : Matching) × (match_loop (length ws) now waiting_time ws ≡ ok m)
        × IsPaired ws m
        × (length m.timed_out ≤ 1)
  match_loop-IsPaired ws =
      let (m, run, (games, late)) = match_loop-from (length ws) ws (omega arith) in
      (m, run, (games, late), rw late (late_last-le ws))
