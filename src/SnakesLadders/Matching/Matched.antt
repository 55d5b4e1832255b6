-- ===== src/SnakesLadders/Matching/Matched.antt =====
-- matching-queue.usecases.ts: what the loop of `_match` collects.
use empire_backend.Base.{
  ℕ, zero, suc, ◌+◌, ◌-◌, ◌≤◌, ◌<◌, ◌≡◌, refl, Bool, true, false, not, ◌&&◌, ◌||◌, some, List, [],
  ◌∷◌, ◌++◌, map, ltb, ◌==◌, if◌then◌else◌, length, take, drop, filter, length-drop, get_elem?,
  arith, Bool-cases, inl, inr, ap, sym, subst, ◌∙◌, map-append,
}
use empire_backend.Base.Results.{ok}
use empire_backend.SnakesLadders.Matching.{
  WaitingInfo, id_of, flatten, expiry_at, earlier, get_matching_timeout, Matching, nothing, judge,
  match_loop,
}
use empire_backend.SnakesLadders.Matching.Chunks.{
  tables_of, IsCut, tables_of-IsCut, take-pos, length-take, flatten-tables_of,
}

abbrev pub last_of : WaitingInfo → List WaitingInfo → WaitingInfo
last_of w [] = w
last_of w (v ∷ vs) = last_of v vs

get_elem?-last_of :
    (w : WaitingInfo) (ws : List WaitingInfo) → get_elem? (w ∷ ws) (length ws) ≡ some (last_of w ws)
get_elem?-last_of w [] = refl
get_elem?-last_of w (v ∷ vs) = get_elem?-last_of v vs

earlier-lt : (a b now : ℕ) → ltb (earlier a b) now ≡ (ltb a now || ltb b now)
earlier-lt a b now = ground arith

module _ (now waiting_time max_player : ℕ) where
  -- The time of a table is over: for a user who sits alone, when their waiting time is. A full
  -- table does not wait any more after its last user came. At a table of two or more with room, the
  -- first user's waiting time is over, or the second user came more than ten seconds ago.
  abbrev pub is_due : List WaitingInfo → Bool
  is_due [] = false
  is_due (a ∷ []) = ltb a.expiry now
  is_due (a ∷ b ∷ ws) =
      if length (a ∷ b ∷ ws) == max_player
      then ltb ((last_of b ws).expiry - waiting_time) now
      else ltb a.expiry now || ltb (b.expiry - waiting_time + 10) now

  -- The timeout of a table of one to `max_player` users is defined, and says when it is due.
  get_matching_timeout-is_due :
      (ws : List WaitingInfo)
      → 0 < length ws
      → length ws ≤ max_player
      → (t : ℕ) × (get_matching_timeout ws waiting_time max_player ≡ ok t) × (is_due ws ≡ ltb t now)
  unfolding get_matching_timeout expiry_at
  get_matching_timeout-is_due [] pos most = absurd (omega arith)
  get_matching_timeout-is_due (a ∷ []) pos most = (a.expiry, refl, refl)
  get_matching_timeout-is_due (a ∷ b ∷ ws) pos most =
      let several : (length (a ∷ b ∷ ws) == 1) ≡ false = ground arith in
      let more : ltb 1 (length (a ∷ b ∷ ws)) ≡ true = ground arith in
      elim (Bool-cases (length (a ∷ b ∷ ws) == max_player)) [
        | inl full ↦
            let room : ltb (length (a ∷ b ∷ ws)) max_player ≡ false = ground arith in
            let seat : max_player - 1 ≡ suc (length ws) = ground arith in
            let here : get_elem? (a ∷ b ∷ ws) (max_player - 1) ≡ some (last_of b ws) =
              subst (λ i. get_elem? (a ∷ b ∷ ws) i ≡ some (last_of b ws)) (sym seat)
                (get_elem?-last_of b ws) in
            (
              (last_of b ws).expiry - waiting_time + 0,
              rw (several, more, room, expiry_at, here) refl,
              rw full (ap (λ t. ltb t now) (omega arith)),
            )
        | inr space ↦
            let room : ltb (length (a ∷ b ∷ ws)) max_player ≡ true = ground arith in
            (
              earlier a.expiry (b.expiry - waiting_time + 10),
              rw (several, more, room) refl,
              rw space (sym (earlier-lt a.expiry (b.expiry - waiting_time + 10) now)),
            )
      ]

  abbrev pub is_game : List WaitingInfo → Bool
  is_game table = is_due table && not (length table == 1)

  abbrev pub is_lone : List WaitingInfo → Bool
  is_lone table = is_due table && (length table == 1)

  -- The games are the tables of two or more whose time is over, and the users who time out are
  -- those who sit alone when their time is over.
  pub record IsMatching (tables : List (List WaitingInfo)) (m : Matching) : Type 0 where
    pub games : m.games ≡ filter is_game tables
    pub timed_out : m.timed_out ≡ map id_of (flatten (filter is_lone tables))

  judge-IsMatching :
      (table : List WaitingInfo) (tables : List (List WaitingInfo)) (t : ℕ) (m : Matching)
      → is_due table ≡ ltb t now
      → IsMatching tables m
      → IsMatching (table ∷ tables) (judge now table t m)
  unfolding judge
  judge-IsMatching table tables t m e h =
      let (g, l) =
        go (ltb t now) (length table == 1) (is_game table) (is_lone table)
          (ap (λ b. b && not (length table == 1)) e) (ap (λ b. b && (length table == 1)) e) in
      record { games = g; timed_out = l }
    where
      after : Bool → Bool → Matching
      after due one =
          if due
          then if one
            then record m { timed_out = map id_of table ++ m.timed_out }
            else record m { games = table ∷ m.games }
          else m

      go :
          (due one game lone : Bool)
          → game ≡ (due && not one)
          → lone ≡ (due && one)
          → ((after due one).games
              ≡ (if game then table ∷ filter is_game tables else filter is_game tables))
            × ((after due one).timed_out
                ≡ map id_of (
                    flatten
                      (if lone then table ∷ filter is_lone tables else filter is_lone tables)))
      go false one game lone g l = rw (g, l) (h.games, h.timed_out)
      go true true game lone g l =
          rw (g, l)
            (
              h.games,
              ap (λ k. map id_of table ++ k) h.timed_out
                  ∙ sym (map-append id_of table (flatten (filter is_lone tables))),
            )
      go true false game lone g l = rw (g, l) (ap (λ k. table ∷ k) h.games, h.timed_out)

  match_loop-from :
      (fuel : ℕ) (ws : List WaitingInfo)
      → 0 < max_player
      → length ws ≤ fuel
      → (m : Matching) × (match_loop fuel now waiting_time max_player ws ≡ ok m)
        × IsMatching (tables_of fuel max_player ws) m
  unfolding match_loop tables_of
  match_loop-from fuel [] pos h = (nothing, refl, record { games = refl; timed_out = refl })
  match_loop-from zero (w ∷ ws) pos h = absurd (omega (arith, h))
  match_loop-from (suc fuel) (w ∷ ws) pos h =
      let table = take max_player (w ∷ ws) in
      let (t, e, due) =
        get_matching_timeout-is_due table (take-pos max_player w ws pos)
          (length-take max_player (w ∷ ws)) in
      let (m, run, rest) =
        match_loop-from fuel (drop max_player (w ∷ ws)) pos
          (omega (arith, length-drop max_player (w ∷ ws), h)) in
      (judge now table t m, rw (e, run), judge-IsMatching table _ t m due rest)

  -- With room for a player at a table, the loop of `_match` ends without raising. The waiting
  -- tables it judges are the queue, cut in its order into full tables of `max_player` users and a
  -- last one with the rest. It starts a game at each table of two or more whose time is over, and
  -- times out each user who sits alone when their waiting time is over. The time of a full table is
  -- over when its last user came before now; that of another table of two or more when the waiting
  -- time of its first user is over or its second user came more than ten seconds ago.
  pub match_loop-IsMatching :
      (ws : List WaitingInfo)
      → 0 < max_player
      → (m : Matching) × ((tables : List (List WaitingInfo)) × (match_loop
              (length ws)
              now
              waiting_time
              max_player
              ws
            ≡ ok m)
          × (flatten tables ≡ ws)
          × IsCut max_player tables
          × IsMatching tables m)
  match_loop-IsMatching ws pos =
      let (m, run, h) = match_loop-from (length ws) ws pos (omega arith) in
      (
        m,
        (
          tables_of (length ws) max_player ws,
          run,
          flatten-tables_of max_player pos (length ws) ws (omega arith),
          tables_of-IsCut max_player pos (length ws) ws,
          h,
        ),
      )
