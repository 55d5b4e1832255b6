-- ===== src/Lib.antt =====
-- Empire-Backend is the backend of a gaming platform: services for Snakes and Ladders, Ludo, card
-- games, a cricket game and Aviator, with wallets, payments, users and notifications around them.
-- This library models the Snakes and Ladders service, apps/sl-gameplay, the running games of
-- the cricket game, apps/epl-gameplay, the Ludo mega tournament, apps/ludo-mega-tournament, the
-- tricks of Callbreak, apps/cbr-gameplay, and the wallets of the users, apps/wallet with the
-- repository of libs/fabzen-common.
--
-- The parts and where they are modelled, the paths below the src folder of the service:
--   SnakesLadders/Types.antt     domain/entities/types.ts and constants.ts
--   SnakesLadders/Pawn.antt      domain/entities/pawn.entity.ts: where a pawn goes with the dice,
--                                over ladders and snakes; its laws are in Pawn/Laws.antt
--   SnakesLadders/Table.antt     domain/entities/table.entity.ts, `SLGameTable`: the constructor,
--                                `create` and the stored form. Table/Turn.antt has the dice, the
--                                turn and the pawns that can move, Table/Move.antt `movePawn`,
--                                the kills and `shouldEndGame`, Table/Skip.antt `skipTurn`.
--                                Table/Invariant.antt says when a table is valid.
--   SnakesLadders/Gameplay.antt  what the handlers of domain/use-cases/gameplay.usecases .ts
--                                change: the repository, the timers, the events, the wallet, the
--                                histories. Gameplay/Playing.antt has `handleRollDice`,
--                                `handleMovePawn` and `handleNext`, Gameplay/Leaving.antt
--                                `handleSkipTurn`, `handleLeaveTable` and the timers of
--                                game-timer.usecases.ts, Gameplay/Ending.antt `handleEndGame`,
--                                Gameplay/Winners.antt its scores, Gameplay/Starting.antt
--                                `startGame` and `clearTable`. Gameplay/Keeping.antt and its
--                                children show action by action that the stored tables stay
--                                valid, and Gameplay/Steps.antt lets the handlers run in any order.
--   SnakesLadders/Matching.antt  domain/use-cases/matching-queue.usecases.ts, the queue of
--                                redis-queue.repository.ts, `splitArrayByPredicate` of
--                                libs/fabzen-common and the waiting tables
--   SnakesLadders/Tests.antt     runs of the model and the theorems at concrete tables
--   Cricket.antt                 domain/entities/table.entity.ts of the cricket game, and what its
--                                handlers change. Cricket/Handlers.antt has the handlers of
--                                domain/use-cases/gameplay.usecases.ts, Cricket/Reached.antt the
--                                timers and the runs in any order, Cricket/Out.antt and
--                                Cricket/Chase.antt how a player is out and how a game ends,
--                                Cricket/Left.antt what leaving does, Cricket/Endless.antt the
--                                turns after a chase, and Cricket/Matching.antt the loop of
--                                matching-queue.usecases.ts
--   LudoMega.antt                domain/entities/types.ts and constants.ts of the Ludo mega tournament.
--                                LudoMega/Pawn.antt is pawn.entity.ts, LudoMega/Table.antt
--                                table.entity.ts: Table/Offers.antt the moves that are offered,
--                                Table/Turn.antt the dice and the bonus, Table/Move.antt `movePawn`,
--                                Table/Valid.antt when a table is valid, Table/Start.antt the random
--                                positions at the start. LudoMega/Gameplay.antt has
--                                the handlers, the timers and the repository, Gameplay/Steps.antt
--                                lets them run in any order
--   Callbreak.antt               services/gameplay/common.service.ts of Callbreak: the order of the
--                                cards, the cards that may be thrown, the winner of a trick, with
--                                the first and the lead card that cbr-gameplay.gateway.ts keeps
--   Wallet.antt                  libs/fabzen-common: the types of wallets and transactions. Its children
--                                are mongoose-wallet.reposiotry.ts: Wallet/Amounts.antt what an
--                                update takes and gives, Wallet/Updates.antt `#updateWallet` and its
--                                two phases, Wallet/Operations.antt the credits and debits,
--                                Wallet/Refunds.antt refunds and bonuses, Wallet/Batches.antt the
--                                credits of a whole tournament, Wallet/Ledger.antt the runs in any
--                                order; Wallet/Checks.antt has the checks of wallet.use-cases.ts
--   Base.antt                    lists and tests over the native numbers, `Base.Results`, the
--                                results of calls that may raise, `Base.Int`, signed numbers,
--                                `Base.Actions`, calls that change a world, and `Base.Keeping`,
--                                actions that keep an invariant
--
-- A method of a class becomes a function that takes the object's record last and returns the new
-- one; a handler becomes a function of a world that returns a result and the world after it. An
-- exception is an `err`, and the writes before it stay. A function that returns -1 or `undefined`
-- returns `none`.
--
-- Ids, addresses and dates are numbers, since they are only compared; times are seconds, in the
-- queue of the cricket game milliseconds, and the clock is the argument `now`; amounts are
-- hundredths, and the amount that a winner gets is a pair of the amount won and the number of
-- winners, since the source divides floating-point numbers. A random number is a fraction `num /
-- den`; the dice of the Ludo mega tournament is an argument, and its times are milliseconds. The
-- amounts of the wallets are ten-thousandths, since `toFixed` rounds to hundredths, and
-- a product of an amount and a portion, where the source has a double, is rounded down to them,
-- which changes nothing for portions in whole percents; the transactions are a list with the newest
-- first. `JSON.stringify`, `JSON.parse` and the compression of the text are left out: what is
-- stored is the object.
--
-- The loop of `setNextTurn` runs on as many rounds as there are players, after which it has met
-- each of them; `err stuck` is a loop that is still running. The loops of `_match` and
-- `getWaitingTableUsers` run on the length of the queue, of which each round takes a user at
-- least, and so does the loop of `match` of the cricket game. `getRandomPosition`
-- runs on a list of random indices and is `stuck` when the list is used up.
--
-- Not modelled: the locks, so that a handler is one step and two handlers do not interleave
-- inside; the sockets, redis and the job queue, which are lists and maps of the world; the
-- reconnection data, the listings for administrators, the notifications and the request to join a
-- table. Of the cricket game a wait between two calls of one handler is left out, as are the
-- request to join, the request to leave a waiting table, and what is read through the cache of a
-- user's table. `setNextTurn` of Snakes and Ladders at a table without users is `stuck` in place of
-- raising. Of the Ludo mega tournament the tournaments and the events of an ended game are left
-- out, and the doubles of a bonus are hundredths, exact but for the products with 7 and -29. Of Callbreak the
-- bids, the dealing and the rounds are left out. Of the wallets the histories, which are queries,
-- and the prize and the refund of a single Ludo tournament are left out; two updates at once are
-- modelled as the reading phases of both before the writing phases.
pub mod Base
pub mod LudoMega
pub mod Callbreak
pub mod SnakesLadders
pub mod Wallet
pub mod Cricket
