-- ===== src/Lib.antt =====
-- A model of the trading system and the theorems that show its parts correct.
--
-- The program. A quotation engine writes market data of an exchange into rings in shared memory; a
-- strategy reads them and emits signals into another ring; the trading engine takes the signals, sends
-- orders to the exchange, applies the exchange's reports to a book of positions, and passes the reports
-- on to the strategies through a ring of their own. A reconciler compares the orders and balances with
-- the exchange's every thirty seconds.
--
-- The files.
--   Prelude, with the files under it: tests, lists, signed integers, texts and maps that all parts use.
--   Defs: the enumerations and structs of sdk/include/defs.hpp; Defs.Naming is about their names.
--   Double: `double` as a type with the operations that the code uses.
--   Registry: `InstrumentRegistry`. Currency: the two currencies in an instrument's name.
--   Utils: sdk/include/utils.hpp; Utils.Format and Utils.Decimal are about its texts of numbers.
--   Ring: `shm_push` and `shm_pop` of sdk/include/ring_shm.hpp. Ring.Refine compares sequences of calls
--     with a bounded queue; Ring.Feed says what becomes of the entries; Ring.Threads splits the calls into
--     their shared accesses, as a relation of steps of one producer and one consumer.
--   PositionManager: src/trading_engine/position_manager.cpp, one function for each method, which takes
--     the manager and gives the new one with the way the call ended.
--   Strategy: `EmitBuy`, `EmitSell`, `EmitCancel` of sdk/src/strategy.cpp and `StrategyRegistry`.
--   TradingEngine: src/trading_engine/trading_engine.cpp. Handler is `HandleOrderUpdate` in its five
--     parts, Dispatcher one round of `RunOrderDispatcher`, Reconciler the three `Reconcile...` methods.
--   Config: src/common/config.hpp over the record Dom of what it calls of simdjson.
--   Engines: the handlers of src/quotation_engine/quotation_engine.cpp and the loop of
--     src/strategy_engine/strategy_engine.cpp. Engines.Delivery composes them with the rings.
--   Json: what the code calls of simdjson, as a record of readers.
--   Okx: src/clients/okx/okx.hpp and okx.cpp. Okx.Orders, Okx.Accounts and Okx.Market read the elements of
--     messages and replies; Okx.Replies and Okx.Paging are the queries with their pages, Okx.Queries the
--     others and the login; Okx.Messages is `OnPublicMessage` and `OnPrivateMessage`.
--   Exchange: src/clients/exchange_client.cpp as steps of the public side, and Exchange.Private of the
--     private side.
--   Https: the request, the headers and the chunked body of src/common/https.hpp.
--   WebSocket: src/common/websocket.hpp: the frames, `Read`, and in WebSocket.Handshake how a connection
--     is made. Base64: `Base64Encode` of the same file.
--   Tests: the theorems at concrete inputs.
--
-- How the state is modelled. A record holds the data members of a class, and a method is a function from
-- it to it. A throw of `std::out_of_range` and a read through the null pointer of `Find` are ways for a
-- call to end, `out_of_range` and `null_info`, with the state as it stands there. A map is a list of
-- pairs in the order in which a loop sees them. A `char` array is the text before its terminator.
--
-- Numbers. `Price` and `Volume` are integers without a bound; the counters of a ring and the length of a
-- frame keep their 64 bits. No law of `double` is assumed where the code's operations are defined; a
-- theorem that needs exact sums takes `IsExact` as a hypothesis, which whole numbers meet. The table of
-- powers of ten has 13 entries, and theorems about texts of numbers ask for a precision below 13.
--
-- Bounds. The digits of a number are found with as much fuel as the number itself, which is more than it
-- has digits. The loops over pages, over chunks and over frames take fuel, and give `none` where it runs
-- out; theorems say how much is enough: one round more than there are full pages, chunks or pings. Positions
-- and sizes of chunks are `size_t` and wrap at 2^64.
--
-- What may throw. `can_hold` says for which lengths a string finds room in `ReadFrame`, and `is_fatal` for
-- which texts a handler of messages throws; both are arguments. The lengths that `RawSend` and `RawRecv`
-- cast to `int` are cut as the code cuts them.
--
-- What is not modelled. Sockets, TLS, threads, sleeping and the log are calls of the system; what they
-- receive and whether they succeed is an argument. simdjson is the records Json and Dom, of which no
-- law is assumed. `HmacSha256Sign`, the clock and the random bytes are arguments. The exchange is a
-- function from the path of a request to the body that comes back, so the time of a request does not
-- show in its answer. A round of the strategy engine's loop is one step, and so are an event of the
-- quotation engine, a handler of the trading engine and a call under the exchange client's lock: two
-- threads inside one are not modelled.
pub mod Prelude
pub mod Defs
pub mod Double
pub mod Registry
pub mod Currency
pub mod PositionManager
pub mod Ring
pub mod Utils
pub mod Strategy
pub mod TradingEngine
pub mod WebSocket
pub mod Base64
pub mod Config
pub mod Engines
pub mod Exchange
pub mod Https
pub mod Json
pub mod Okx
pub mod Tests
