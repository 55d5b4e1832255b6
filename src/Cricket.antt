-- ===== src/Cricket.antt =====
-- apps/epl-gameplay: the table of domain/entities/table.entity.ts, and the handlers of a running
-- game in domain/use-cases/gameplay.usecases.ts. Two players bat and bowl, each by a number of
-- runs, and the batsman is out when the numbers are the same. A score is a number in the text of
-- the source; the fields that the constructor does not read back are left out.
pub mod Handlers
pub mod Roles
pub mod Reached
pub mod Out
pub mod Chase
pub mod Endless
pub mod Left
pub mod Matching
mod Tests
use empire_backend.Base.{
  ℕ, ◌+◌, Bool, true, false, Option, none, some, List, [], ◌∷◌, ◌++◌, map, ◌==◌, if◌then◌else◌,
  find?, any,
}
use empire_backend.Base.Results.{Error, Result, ok, err, not_found}
use empire_backend.Base.Actions.{Action}

pub data Role : Type 0 where
  batsman bowler : Role

pub data GameStatus : Type 0 where
  waiting started ongoing completed finished : GameStatus

-- Of `UserEPLGameInfo`, what the handlers read and write.
pub record Player : Type 0 where
  pub user_id : ℕ
  pub player_id : ℕ
  pub role : Role
  pub runs : ℕ
  pub score : ℕ
  pub did_leave : Bool

-- `target_score` is the empty text at first.
pub record Table : Type 0 where
  pub id : ℕ
  pub users : List Player
  pub innings : ℕ
  pub current_ball : ℕ
  pub status : GameStatus
  pub amount : ℕ
  pub win_amount : ℕ
  pub turn_no : ℕ
  pub target_score : Option ℕ
  pub is_out : Bool
  pub bat_bowl_action : Bool

-- The jobs of `startGameTimer` and of the `setTimeout` for the turn events.
pub data Job : Type 0 where
  inning_start inning_end turn_events : Job

pub record PlayerResult : Type 0 where
  pub user_id : ℕ
  pub score : ℕ
  pub win_amount : ℕ
  pub is_winner : Bool

pub data Event : Type 0 where
  turn_timeout : ℕ → List ℕ → Event
  inning_started : ℕ → List ℕ → ℕ → Option ℕ → Event
  turn_result : ℕ → List Player → Bool → Option ℕ → Event
  game_ended : ℕ → List PlayerResult → Event
  -- the users who are told, the table and the player who leaves
  player_left : List ℕ → ℕ → ℕ → Event

pub record World : Type 0 where
  pub tables : ℕ → Option Table
  -- the cache of the table of a user
  pub user_tables : ℕ → Option ℕ
  pub jobs : List (ℕ × Job)
  pub events : List Event
  -- the calls of `debitEPLJoinFee`: the users, the amount and the table
  pub debits : List (List ℕ × ℕ × ℕ)

abbrev pub is_batsman : Player → Bool
is_batsman p = elim p.role [ batsman ↦ true | bowler ↦ false ]

abbrev pub is_bowler : Player → Bool
is_bowler p = elim p.role [ batsman ↦ false | bowler ↦ true ]

abbrev pub is_completed : GameStatus → Bool
is_completed completed = true
is_completed _ = false

-- The players, with the roles that `shuffleArray` gives.
unfoldable pub seat_players : ℕ → List ℕ → List Role → List Player
seat_players index (u ∷ us) (r ∷ rs) =
    record { user_id = u; player_id = index + 1; role = r; runs = 0; score = 0; did_leave = false }
    ∷ seat_players (index + 1) us rs
seat_players index _ _ = []

unfoldable pub create : ℕ → List ℕ → List Role → ℕ → ℕ → GameStatus → Table
unfolding seat_players
create fresh user_ids roles amount win_amount status = record {
  id = fresh;
  users = seat_players 0 user_ids roles;
  innings = 1;
  current_ball = 1;
  status = status;
  amount = amount;
  win_amount = win_amount;
  turn_no = 0;
  target_score = none;
  is_out = false;
  bat_bowl_action = false;
}

abbrev pub found : Option Table → Result Table
found none = err not_found
found (some t) = ok t

unfoldable pub retrieve_game_table : ℕ → Action World Table
retrieve_game_table table_id w = (found (w.tables table_id), w)

unfoldable pub store_game_table : Table → Action World (Unit {0})
store_game_table t w = (ok tt, record w { tables = λ j. if j == t.id then some t else w.tables j })

-- `storeGameTable` with `shouldCacheForUser`
unfoldable pub store_and_cache : Table → Action World (Unit {0})
unfolding store_game_table
store_and_cache t w =
    let stored = (store_game_table t w).1 in
    (
      ok tt,
      record stored {
        user_tables = λ u.
            if any (λ (p : Player). p.user_id == u) t.users
            then some t.id
            else stored.user_tables u;
      },
    )

unfoldable pub delete_user_table_cache : ℕ → Action World (Unit {0})
delete_user_table_cache user_id w =
    (ok tt, record w { user_tables = λ u. if u == user_id then none else w.user_tables u })

abbrev pub emit : Event → Action World (Unit {0})
emit e w = (ok tt, record w { events = w.events ++ (e ∷ []) })

abbrev pub debit_join_fee : List ℕ → ℕ → ℕ → Action World (Unit {0})
debit_join_fee users amount table_id w =
    (ok tt, record w { debits = w.debits ++ ((users, amount, table_id) ∷ []) })

abbrev pub start_job : ℕ → Job → Action World (Unit {0})
start_job table_id j w = (ok tt, record w { jobs = w.jobs ++ ((table_id, j) ∷ []) })
