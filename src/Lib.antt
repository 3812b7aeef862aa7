-- ===== src/Lib.antt =====
-- Verification library of the poker monorepo: the poker engine of packages/poker-engine, the ledger
-- and the transactions of packages/db, and the game server of apps/poker-api.
--
-- The engine is a pure state machine. A hand starts (state.ts), players' commands go through the
-- reducer (reducer.ts) until the hand is complete, the showdown settles the pots (pots.ts) with the
-- scores of the evaluator (evaluator.ts), and the lifecycle (lifecycle.ts) resolves time-outs, tops up
-- stacks between hands and deals the next hand. Each step returns a new TableState; invariants.ts says
-- which states are consistent. The library has one module for each of these files:
--
--   Engine.Cards       packages/poker-engine/src/cards.ts: parseCard, parseCards, validateDeck
--   Engine.Commands    commands.ts: the commands, the events, the menu entries
--   Engine.Table       state.ts: TablePlayer and TableState
--   Engine.Hand        state.ts: startHand, headsUpHand
--   Engine.Progress    reducer.ts: finishOrPassAction, dealBoard, nextActivePlayer, nextPhase
--   Engine.Reducer     reducer.ts: applyCommandResult, applyCommand, amountError
--   Engine.Legal       reducer.ts: legalActions
--   Engine.Invariants  invariants.ts: assertInvariants
--   Engine.Evaluator   evaluator.ts: evaluateFive, compareHands, evaluateSeven
--   Engine.Pots        pots.ts: buildPots and the order clockwise from the button
--   Engine.Showdown    pots.ts: bestIds, runOutBoard, settleShowdown
--   Engine.Lifecycle   lifecycle.ts: resolveTimeout, addOn
--   Engine.Advance     lifecycle.ts: advanceHand
--   Engine.Rounds      the whole hand: the states from its start to its settlement
--
-- The ledger (packages/db/src/ledger.ts) books the chips that players bring to a table and take away:
--   Ledger             normalizeEntries, prepareTransaction, postPreparedTransaction, the attempts of
--                      postTransactionWithSource, reserveBuyIn, settleCashOut, getBalance
--   Ledger.Integers    the type bigint
--   Ledger.Totals      the sums over the accounts
--   Ledger.Posting     what a posted transaction changes
--   Ledger.Once        posting again under a reference
--
-- The transactions of packages/db/src write the ledger and the other tables of the database:
--   Store                 what they share: the tables, the errors, the loop of the attempts
--   Store.Withdrawals     withdrawal.ts: reserveWithdrawal, transitionWithdrawal
--   Store.Game            game-server.ts: the rows and the records
--   Store.Game.Seats      rooms, claimTableSeat, listTableSeats
--   Store.Game.Releases   releaseTableSeat, setRoomDraining
--   Store.Game.Hands      createDurableHand and what reads hands back
--   Store.Game.Commits    commitDurableAction, findCommittedAction
--   Store.Game.Sessions   wallet nonces, guests, sessions, disconnect graces
--
-- The game server (apps/poker-api/src/game) keeps the running tables in memory. It takes the messages of
-- the players, runs them through the engine, commits the outcome to the database and tells the room:
--   Gateway               what the handlers share: RoundEvent, the runtime, settleIfComplete, playerView
--   Gateway.Recovery      recovery.service.ts: recoverResult, recover
--   Gateway.Turns         what is committed, announced and kept after an action
--   Gateway.Actions       game.gateway.ts: the handler of table:action
--   Gateway.Timeouts      game.gateway.ts: performAutomaticAction
--   Gateway.Runs          a hand in memory, through the actions of players and of the clock
--   Gateway.NextHand      game.gateway.ts: startNextHand
--   Gateway.Leave         game.gateway.ts: the handler of table:leave
--
-- The proofs about a module stand in its children, named for what they prove. Engine.Players holds
-- lemmas on the lookup of players, Engine.Samples the test data, Engine.Witnesses the theorems at
-- concrete tables. Base holds the shared types, tests and lemmas. Ledger.Samples, Store.Samples, Ledger.Witnesses,
-- Store.Witnesses and Store.GameWitnesses are their like for the database, Gateway.Samples,
-- Gateway.Witnesses and Gateway.RoomWitnesses for the game server.
--
-- How the code is represented. Interfaces are records with the source's fields and unions are data
-- types. A function that throws returns Result with an EngineError for each throw; applyCommandResult
-- returns Result with a Rejection, and applyCommand, which throws that rejection as a CommandError, has
-- the same result. Chips, seats and versions of a state are natural numbers, since every state is built
-- from checked ones; the numbers that come from outside (stacks, blinds, the amounts of bets, raises
-- and add-ons) are a Number: a natural, a negative or a fractional number, and the integer tests of the
-- code decide between them. A difference that the code keeps from being negative is a truncated
-- subtraction. Numbers are unbounded, where JavaScript's are exact up to 2 ^ 53. Ids are strings;
-- records by id are association lists, in the order of insertion (JavaScript moves keys that look like
-- integers to the front, which changes only which of several bad cards is reported). Card codes are
-- lists of UTF-16 code units, and upper and lower case are those of the ASCII letters.
--
-- Loops. The loops over offsets take the number of rounds that are left, with the bound that the loop
-- itself has; the loop of runOutBoard takes five rounds, which are enough because each adds a card to
-- the board. The five nested loops of evaluateSeven are the choices of five cards out of the list, in
-- the order of the indices.
--
-- The ledger runs on a database client and a digest that are not part of the repository. The client is
-- the interface LedgerDatabase, of the operations that the code calls, and LedgerLaws states what the
-- proofs need of it: only createMany changes the sums of the accounts, by the entries that it writes.
-- ReferenceLaws and HoldsLaws do so for the references: a transaction that is created is found under its
-- reference from then on, and none is found under one that was not created.
-- The digest is a parameter. The attempts of a serializable transaction take as inputs how the database
-- fails at each attempt and what it holds then, since other clients write between them; the code makes
-- five. isPrismaError and isLedgerReferenceUniqueConflict, which tell these failures apart by the codes of
-- the client, are the constructors of DatabaseFailure. The order of account ids is that of the strings of
-- the language, by code points, where JavaScript's is by UTF-16 units.
--
-- The other tables are an interface too: Tables has the operations of the client on a table of rows of
-- any type (a where clause is a test on rows), and TableLaws states their documented behaviour, a table
-- being a list of rows in the order of their creation. A transaction is a function from what the
-- database holds to a new state or an error, after which nothing has changed; Store.attempts is the loop
-- around it, with the failures as an input. Random ids, the clock and the signature are arguments.
-- JSON values that the code only stores are a type parameter.
--
-- A handler of the game server is a function from the tables in memory and the database to new ones, an
-- answer, and the list of what it sends and schedules. It holds the lock of its room, and no other
-- process writes to the database meanwhile; the failures of the commit and the clock are inputs, with
-- POKER_TIMEOUT_SCALE at one. Traces are not modelled: the answers leave out the id of the trace that
-- success and failure add to them. A message has passed its schema and its sender is known. The cipher of the
-- stored table states, the hash of a message, the shuffled deck and the messages of the database client
-- are parameters. A stored JSON value is one of those that the server writes, or another one.
--
-- Not modelled: the rest of the repository. Of the game server, these are table:join, the lobby,
-- table:snapshot, and what happens when sockets connect and disconnect. The chain events
-- (packages/db/src/chain.ts), the other API services (apps/poker-api, apps/tms-api), the socket protocol
-- (packages/ws), the agents (packages/agents) and the translations (packages/i18n) are separate programs
-- over the database, a network or the engine; the web applications are user interfaces;
-- packages/contracts is Solidity.
pub mod Base
pub mod Engine
pub mod Gateway
pub mod Ledger
pub mod Store
