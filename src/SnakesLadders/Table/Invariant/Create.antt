-- ===== src/SnakesLadders/Table/Invariant/Create.antt =====
-- A new table satisfies the invariant.
use empire_backend.Base.{
  ℕ, ◌+◌, ◌-◌, ◌≤◌, ◌<◌, ◌≡◌, refl, ◌≢◌, Option, List, [], ◌∷◌, map, arith, length, Distinct, All,
  ap, sym, subst,
}
use empire_backend.Base.Results.{ok}
use empire_backend.SnakesLadders.Types.{GameStatus, pw}
use empire_backend.SnakesLadders.Pawn.{Pawn, from_pawn_position, get_pawn_id}
use empire_backend.SnakesLadders.Table.{
  UserDetails, User, Table, seat_users, base_pawns, create, new_table,
}
use empire_backend.SnakesLadders.Table.Invariant.{user_id_of, ArePlaced, IsLayout, IsTable}
use empire_backend.SnakesLadders.Table.Invariant.Keeps.{HasTurn-seat}

-- The pawns of a new table, from seat `index` on.
abbrev new_pawns : ℕ → List User → List Pawn
new_pawns index users = map from_pawn_position (base_pawns index users)

new_pawns-seated :
    (index n : ℕ) (users : List User)
    → index + length users ≤ n
    → All (λ (p : Pawn). p.player_index < n) (new_pawns index users)
unfolding base_pawns from_pawn_position
new_pawns-seated index n [] h = tt
new_pawns-seated index n (u ∷ users) h =
    (omega arith, (omega arith, new_pawns-seated (index + 1) n users (omega arith)))

new_pawns-placed : (index : ℕ) (users : List User) → ArePlaced (new_pawns index users)
unfolding base_pawns from_pawn_position
new_pawns-placed index [] = tt
new_pawns-placed index (u ∷ users) = (tt, (tt, new_pawns-placed (index + 1) users))

-- The ids from seat `index` on have a greater player number than any below it.
new_ids-above :
    (index : ℕ) (users : List User) (i j : ℕ)
    → i ≤ index
    → All (λ id. id ≢ pw i j) (map get_pawn_id (new_pawns index users))
unfolding base_pawns from_pawn_position get_pawn_id
new_ids-above index [] i j h = tt
new_ids-above index (u ∷ users) i j h =
    ((λ e. ground arith), ((λ e. ground arith), new_ids-above (index + 1) users i j (omega arith)))

new_ids-Distinct :
    (index : ℕ) (users : List User) → Distinct (map get_pawn_id (new_pawns index users))
unfolding base_pawns from_pawn_position get_pawn_id
new_ids-Distinct index [] = tt
new_ids-Distinct index (u ∷ users) =
    let above = λ (j : ℕ). new_ids-above (index + 1) users (index + 1 - 1 + 1) j (omega arith) in
    (((λ e. ground arith), above 1), (above 2, new_ids-Distinct (index + 1) users))

seat_users-ids :
    (index : ℕ) (details : List UserDetails)
    → map user_id_of (seat_users index details) ≡ map (λ (d : UserDetails). d.user_id) details
unfolding seat_users
seat_users-ids index [] = refl
seat_users-ids index (d ∷ details) = ap (λ l. d.user_id ∷ l) (seat_users-ids (index + 1) details)

-- A table that `create` makes for players with different ids satisfies the invariant, and it is
-- made whenever there is a player.
pub create-IsTable :
    (now fresh : ℕ) (d : UserDetails) (details : List UserDetails) (join_fee : ℕ)
    (win_amount : Option ℕ) (status : GameStatus) (timeout turn_timeout end_at : ℕ)
    → Distinct (map (λ (e : UserDetails). e.user_id) (d ∷ details))
    → (t : Table) × (create now fresh
          (d ∷ details)
          join_fee
          win_amount
          status
          timeout
          turn_timeout
          end_at
        ≡ ok t)
      × IsTable t
unfolding create new_table
create-IsTable now fresh d details join_fee win_amount status timeout turn_timeout end_at distinct =
    let users = seat_users 0 (d ∷ details) in
    let user_ids = subst Distinct (sym (seat_users-ids 0 (d ∷ details))) distinct in
    let layout : (t : Table) → t.users ≡ users → t.pawns ≡ new_pawns 0 users → IsLayout t =
      λ t same_users same_pawns. record {
        seated =
            rw (same_users, same_pawns) (new_pawns-seated 0 (length users) users (omega arith));
        placed = rw same_pawns (new_pawns-placed 0 users);
        ids = rw same_pawns (new_ids-Distinct 0 users);
        user_ids = rw same_users user_ids;
      } in
    (
      _,
      refl,
      record { layout = layout _ refl refl; turn = HasTurn-seat _ 0 _ user_ids refl refl refl },
    )
