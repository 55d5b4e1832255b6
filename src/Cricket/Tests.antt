-- ===== src/Cricket/Tests.antt =====
-- Runs of the model on a game of two players, and the theorems at that game.
use empire_backend.Base.{
  ℕ, ◌≤◌, length, List, ◌≡◌, refl, false, true, none, some, [], ◌∷◌, arith, ◌==◌, if◌then◌else◌,
}
use empire_backend.Base.Results.{ok}
use empire_backend.Cricket.{batsman, bowler, GameStatus, Player, Table, World, turn_result}
use empire_backend.Cricket.Handlers.{
  player_results, handle_turn_result, handle_bat_bowl_request, start_game, handle_leave_table,
}
use empire_backend.Cricket.Reached.{start, step, starts, leaves, IsReachable-IsFair}
use empire_backend.Cricket.Roles.{IsFair}
use empire_backend.Cricket.Out.{two, IsAnswered, handle_bat_bowl_request-IsAnswered}
use empire_backend.Cricket.Left.{IsEnded, handle_leave_table-IsEnded}
use empire_backend.Cricket.Endless.{IsEndless, schedule_turn_events-IsEndless}
use empire_backend.Cricket.Matching.{WaitingInfo, Matching, match_loop}
use empire_backend.Cricket.Matching.Paired.{IsPaired, match_loop-IsPaired}
use empire_backend.Cricket.Chase.{
  told, seated, scored, chase, player_results-eq, handle_turn_result-chased,
}

abbrev ann : Player
ann = record { user_id = 11; player_id = 1; role = batsman; runs = 0; score = 4; did_leave = false }

abbrev bob : Player
bob = record { user_id = 22; player_id = 2; role = bowler; runs = 0; score = 1; did_leave = false }

abbrev game : Table
game = record {
  id = 7;
  users = two ann bob;
  innings = 1;
  current_ball = 1;
  status = GameStatus.ongoing;
  amount = 500;
  win_amount = 900;
  turn_no = 2;
  target_score = none;
  is_out = false;
  bat_bowl_action = false;
}

abbrev empty_world : World
empty_world = record {
  tables = λ j. none;
  user_tables = λ u. none;
  jobs = [];
  events = [];
  debits = [];
}

abbrev world_of : Table → World
world_of t = record empty_world { tables = λ j. if j == t.id then some t else none }

-- Ann bats 0 before Bob has answered, and is out.
handle_bat_bowl_request-IsAnswered_example :
    (w' : World) × (handle_bat_bowl_request 7 0 11 batsman (world_of game) ≡ (ok tt, w'))
    × IsAnswered 0 ann bob game (world_of game) w'
handle_bat_bowl_request-IsAnswered_example =
    handle_bat_bowl_request-IsAnswered 0 ann bob game (world_of game) refl

-- Bob sits first and bowls.
player_results-eq_example :
    player_results (record game { users = seated false ann bob })
    ≡ told game bob false ∷ told game ann true ∷ []
player_results-eq_example = player_results-eq false game ann bob (λ e. ground arith)

abbrev hit : Player
hit = record ann { runs = 6 }

abbrev last_turn : Table
last_turn = record game { target_score = some 8 }

abbrev chased_world : World
chased_world = world_of (chase false hit bob last_turn)

handle_turn_result-chased_example :
    (w' : World) × (handle_turn_result 7 chased_world ≡ (ok tt, w'))
    × (w'.tables 7 ≡ some (chase false (scored hit) (scored bob) last_turn))
    × (w'.jobs ≡ [])
    × (w'.events ≡ turn_result 7 (seated false (scored hit) (scored bob)) false (some 8) ∷ [])
handle_turn_result-chased_example =
    handle_turn_result-chased false hit bob last_turn chased_world refl refl (omega arith)

-- Ann, who leads, leaves.
handle_leave_table-IsEnded_example :
    (w' : World) × (handle_leave_table 7 11 (world_of game) ≡ (ok tt, w'))
    × IsEnded true true ann bob game (world_of game) w'
handle_leave_table-IsEnded_example =
    handle_leave_table-IsEnded true true ann bob game (world_of game) refl (λ e. ground arith) refl
      refl

abbrev started_world : World
started_world = (start_game 7 (11 ∷ 22 ∷ []) (batsman ∷ bowler ∷ []) 500 900 empty_world).1

abbrev left_world : World
left_world = (handle_leave_table 7 22 started_world).1

IsReachable-IsFair_example : IsFair left_world
IsReachable-IsFair_example = IsReachable-IsFair left_world (
    step started_world left_world
      (step empty_world started_world (start empty_world (λ j. refl))
        (starts 7 11 22 batsman 500 900))
      (leaves 7 22))

schedule_turn_events-IsEndless_example : IsEndless false last_turn hit bob chased_world 3
schedule_turn_events-IsEndless_example =
    schedule_turn_events-IsEndless false hit bob last_turn chased_world refl refl (omega arith)
      (omega arith) 3

abbrev waiting_at : ℕ → ℕ → WaitingInfo
waiting_at user_id expiry = record { user_id = user_id; expiry = expiry }

-- The waiting time is 30 seconds: the first two play, and the third has waited too long.
abbrev queue : List WaitingInfo
queue = waiting_at 11 90000 ∷ waiting_at 22 95000 ∷ waiting_at 33 96000 ∷ []

match_loop-IsPaired_example :
    (m : Matching) × (match_loop 3 97000 30 queue ≡ ok m)
    × IsPaired 97000 30 queue m
    × (length m.timed_out ≤ 1)
match_loop-IsPaired_example = match_loop-IsPaired 97000 30 queue
