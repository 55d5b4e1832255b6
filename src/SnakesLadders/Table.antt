-- ===== src/SnakesLadders/Table.antt =====
-- apps/sl-gameplay/src/domain/entities/table.entity.ts, the fields of `SLGameTable`, its
-- constructor, `create` and the stored form. The methods stand in `Turn`, `Move` and `Skip`.
-- Ids, addresses and dates are only compared, so they are numbers; times are seconds; amounts are
-- hundredths. `now` is the clock and `fresh` the random id.
pub mod Turn
pub mod Move
pub mod Skip
pub mod Stored
pub mod Invariant
use mathlib.Core.Option.{get_or}
use Prim.Native.String.{String}
use empire_backend.Base.{
  ℕ, suc, ◌+◌, ◌*◌, Bool, true, false, Option, none, some, List, [], ◌∷◌, ◌++◌, map, get_elem?,
}
use empire_backend.Base.Results.{Result, ok, err, type_error, ◌>>=◌, or_throw}
use empire_backend.SnakesLadders.Types.{Position, base, GameAction, GameStatus, initial_lives}
use empire_backend.SnakesLadders.Pawn.{Pawn, PawnPosition, from_pawn_position, to_pawn_position}

pub record UserDetails : Type 0 where
  pub user_id : ℕ
  pub name : Option String
  pub username : String
  pub ip : ℕ
  pub avatar : ℕ

pub record User : Type 0 where
  pub details : UserDetails
  pub open details use *
  pub player_id : ℕ
  pub lives : ℕ
  pub did_leave : Bool

pub record Table : Type 0 where
  pub id : ℕ
  pub users : List User
  pub current_turn : ℕ
  pub pawns : List Pawn
  pub action : GameAction
  pub status : GameStatus
  pub timeout : ℕ
  pub dice : ℕ
  pub counter : ℕ
  pub end_at : ℕ
  pub started_at : ℕ
  pub updated_at : ℕ
  pub join_fee : ℕ
  pub win_amount : ℕ
  pub turn_timeout : ℕ

-- The argument of the constructor; a field with `?` may be missing. It is also the object that
-- `toString` prints and `deserialize` reads.
pub record TableData : Type 0 where
  pub users : List User
  pub id? : Option ℕ
  pub current_turn? : Option ℕ
  pub pawn_positions? : Option (List PawnPosition)
  pub action? : Option GameAction
  pub status? : Option GameStatus
  pub timeout : ℕ
  pub turn_timeout : ℕ
  pub dice? : Option ℕ
  pub counter? : Option ℕ
  pub end_at : ℕ
  pub started_at : ℕ
  pub updated_at : ℕ
  pub join_fee? : Option ℕ
  pub win_amount? : Option ℕ

-- `currentTurn ?? users[0].userId`
abbrev first_turn : Option ℕ → List User → Result ℕ
first_turn (some turn) users = ok turn
first_turn none [] = err type_error
first_turn none (u ∷ users) = ok u.user_id

abbrev pawns_of : Option (List PawnPosition) → List Pawn
pawns_of none = []
pawns_of (some l) = map from_pawn_position l

unfoldable pub new_table : ℕ → TableData → Result Table
unfolding from_pawn_position
new_table fresh d = do
  turn ← first_turn d.current_turn? d.users
  ok (record {
    id = get_or d.id? fresh;
    users = d.users;
    current_turn = turn;
    pawns = pawns_of d.pawn_positions?;
    action = get_or d.action? GameAction.roll_dice;
    status = get_or d.status? GameStatus.waiting;
    timeout = d.timeout;
    dice = get_or d.dice? 0;
    counter = get_or d.counter? 0;
    end_at = d.end_at;
    started_at = d.started_at;
    updated_at = d.updated_at;
    join_fee = get_or d.join_fee? 0;
    win_amount = get_or d.win_amount? 0;
    turn_timeout = d.turn_timeout;
  })

-- The loop over `userDetails` in `create`.
unfoldable pub seat_users : ℕ → List UserDetails → List User
seat_users index [] = []
seat_users index (d ∷ rest) =
    record { details = d; player_id = index + 1; lives = initial_lives; did_leave = false }
    ∷ seat_users (index + 1) rest

-- Two pawns in the base for each player.
unfoldable pub base_pawns : ℕ → List User → List PawnPosition
unfolding to_pawn_position
base_pawns player_index [] = []
base_pawns player_index (u ∷ users) =
    to_pawn_position (record { player_index = player_index; pawn_index = 0; position = base })
    ∷ to_pawn_position (record { player_index = player_index; pawn_index = 1; position = base })
    ∷ base_pawns (player_index + 1) users

unfoldable pub create :
    ℕ → ℕ → List UserDetails → ℕ → Option ℕ → GameStatus → ℕ → ℕ → ℕ → Result Table
unfolding new_table seat_users base_pawns
create now fresh user_details join_fee win_amount status timeout turn_timeout end_at =
    let users = seat_users 0 user_details in
    new_table fresh (record {
      users = users;
      id? = none;
      current_turn? = none;
      pawn_positions? = some (base_pawns 0 users);
      action? = none;
      status? = some status;
      timeout = timeout;
      turn_timeout = turn_timeout;
      dice? = none;
      counter? = none;
      end_at = end_at;
      started_at = now;
      updated_at = now;
      join_fee? = some join_fee;
      win_amount? = win_amount;
    })

-- `toString`: every field but `status`.
unfoldable pub to_data : Table → TableData
unfolding to_pawn_position
to_data t = record {
  users = t.users;
  id? = some t.id;
  current_turn? = some t.current_turn;
  pawn_positions? = some (map to_pawn_position t.pawns);
  action? = some t.action;
  status? = none;
  timeout = t.timeout;
  turn_timeout = t.turn_timeout;
  dice? = some t.dice;
  counter? = some t.counter;
  end_at = t.end_at;
  started_at = t.started_at;
  updated_at = t.updated_at;
  join_fee? = some t.join_fee;
  win_amount? = some t.win_amount;
}
