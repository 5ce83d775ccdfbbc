-- ===== src/Lib.antt =====
-- Verification of the trading simulator gateway (C++, under shared_src/): the parts of it that take
-- binary messages off a connection, keep holdings and ETF limits, and order the work.
--
-- The parts and how they interact. An order that sells or redeems freezes shares of its account in
-- `UserStockVolume`, a set of `FrozeVolume` counters; when it trades the frozen shares are confirmed,
-- and when it is cancelled they are released. The order itself waits as a task in the
-- `TaskPriorityQueue` of one worker thread, sorted by price and time with those of its security and
-- side, until the thread takes it.
-- An order that creates or redeems an ETF is held against the daily limits of `ETF_TradeVolume`, which
-- are counters too. Bytes of a connection are cut into messages by `BinaryPacketAssembler`.
-- Before an order is worked on it is checked against a quotation and against its ETF. The holdings of
-- all accounts are in one map; a task matches an order and updates them, or cancels it and frees what was
-- frozen, and pushes a message; in the normal mode a statement for the database follows each update.
--
-- The parts and their files. Common has the names of the libraries, `uint64_t` arithmetic that wraps
-- (Common/Word), lists over the native numbers (Common/Lists), maps as lists of pairs (Common/Maps),
-- tests (Common/Tests) and the code 0 or -1 (Common/Codes).
--
-- Volume is `FrozeVolume` of shared_src/cache/FrozeVolume.h: `froze` is `Froze`, `defroze` `Defroze`,
-- `confirm` `Confirm`, `db_syn` `DBSyn`. Volume/Account has its account, Volume/History its histories.
--
-- Stock is `UserStockVolume` of shared_src/cache/UserStockVolume.cpp; Stock/Sell, Stock/SellEtf,
-- Stock/Creation, Stock/Redemption and Stock/Increase have its methods by their prefix. The laws are
-- in Stock/Split (amounts), Stock/Rollback (refusals), Stock/Release and Stock/Settle (what follows a
-- freeze), Stock/Credit (histories) and Stock/Synced (synchronisation).
--
-- Queue is `TaskPriorityQueue` of shared_src/thread_pool_priority/TaskPriorityQueue.cpp; Queue/Place
-- has the binary insertion, Queue/Tasks `AddTask`, `GetTask` and `DeleteIfHaveTask`. The laws are in
-- Queue/Cut, Queue/Order and Queue/Total (insertion), Queue/Balance and Queue/Accept (what waits),
-- Queue/Priority (order of service), and Queue/Sorted and Queue/Steps (sequences of calls).
--
-- Packet is `BinaryPacketAssembler` of shared_src/tool_net_binary/: Packet/Receive has `RecvPackage`
-- and `IsPackageCheckSumValid`, Packet/CheckSum `GenerateCheckSum`, Packet/Send the functions
-- `LocalPackToNetBuffer_...`, and Packet/Size the sizes of the structs. The laws are in
-- Packet/Progress and Packet/Chunks (when the loop ends), Packet/Feed (bytes that come in parts),
-- Packet/Frames, Packet/Messages and Packet/RoundTrip (sent and received) and Packet/Validity.
--
-- EtfVolume is `ETF_TradeVolume_Basket` (EtfVolume/Quotas) and `ETF_TradeVolume` (EtfVolume/Table) of
-- shared_src/etf/. The laws are in EtfVolume/Limits and EtfVolume/Promises (freeze and what follows),
-- EtfVolume/Isolation (customers) and EtfVolume/Keys (the table).
--
-- Trade is `PreTrade` and `MatchUtil` of shared_src/simutgw/biz/: Trade/Checks has the checks by
-- quotation and average price, Trade/Etf `ValidateETF` and the components of an ETF order, and
-- Trade/Declare `GetOrder_DEL_TYPE` of AppId_010_OrderValide.cpp there. The laws are in Trade/Prices,
-- Trade/Components and, with the table of Trade/Rows, Trade/Declarations.
--
-- Accounts is the map of holdings and what a trade does to it: `UserStockHelper` of
-- shared_src/cache/UserStockHelper.cpp (Accounts.antt has `LookUp` and the load, Accounts/Methods the calls on
-- one holding, Accounts/Orders `UpdateAfterTrade` and `UpdateAfterCancel`) and `StockCacheSynHelper` of
-- shared_src/simutgw/db_oper/ (Accounts/Synchronise, and its statements in Accounts/Statements), with
-- `StockHelper` of shared_src/order/ in Accounts/Securities. The laws are in Accounts/Lookup, Calls and
-- Acts (one call), Split, Fills and Sales (a sale of shares), EtfSales (ETF units), Isolation and Apart
-- (other accounts), Message (the order), Returns (null pointers), and Rows and Follows (the database).
--
-- Match is the tasks that match and cancel orders, of shared_src/simutgw/work_manage/: Match/Fill has
-- the match functions of `Task_ABStockMatch`, Match/Quoted the match against a quotation,
-- Match/Simulated the modes without one, Match/Etf `Task_Etf_Match`, Match/Cancel `Task_CancelOrder`
-- with shared_src/simutgw/msg_biz/ProcCancelOrder.cpp, and Match `GenTask_Match` of `GenTaskHelper` and
-- `PushBack` of shared_src/simutgw/order/OutMemoryManage.cpp. The laws are in Match/Bounds (amounts),
-- Match/Holdings (what leaves the holding), Match/Rounds and Match/Divide (an order in parts) and Match/Release.
--
-- Prep is what happens to an order before it waits: `GetTradeType` (Prep) and `TradePrep` (Prep/Dispatch) of
-- `PreTrade`, `CreationQuery` of `UserStockHelper` (Prep/Creation), and `CheckOrder_TradeType` of
-- shared_src/order/StockOrderHelper.cpp (Prep/Kinds). The laws are in Prep/Freeze and Prep/Sales (a sale
-- from its preparation to its end), Prep/Query (the first loop of `CreationQuery`) and Prep/Kinds.
--
-- Bounds and fuel. Numbers are naturals; arithmetic on `uint64_t` and `uint32_t` wraps at 2^64 and
-- 2^32. The loops of the binary insertion run on fuel, the length of the deque and one more, which
-- Queue/Total shows to be enough for every deque. The loop of `RecvPackage` runs on the length of the
-- buffer and one more; Packet/Progress shows that no other amount ends it if this does not.
-- A method that runs under a mutex is one step. Time is an argument. Log output is left out, and what
-- a method writes through a reference is part of its result.
--
-- A null pointer and a division by 0 are `none`. The rows of the database, the quotation, and the result of
-- writing it back and of handing a task to the pool are arguments, and so is the arithmetic on
-- `double`; statements for the writer, pushed messages and new tasks are lists. A message is held as it
-- is when it is pushed, though the buffer shares the object with the task.
-- The pool that runs the matches of an order in parts (`serve` of Match/Divide) is no code of the program: it takes
-- the task that `GenTask_Match` handed on last and runs `MatchOrder` on it. It runs on fuel, and Match/Divide shows
-- how much is enough.
--
-- Not modelled: the sockets, the database, Redis, FIX and file access, and the threads themselves,
-- which are input and output; the JSON messages; the rules by which a policy is found and the tasks that
-- match by rules. The random numbers and the times of a trade, the counters of matches and the records of
-- matched components, which nothing of this reads, are left out.
pub mod Common
pub mod Volume
pub mod Packet
pub mod EtfVolume
pub mod Stock
pub mod Queue
pub mod Trade
pub mod Accounts
pub mod Match
pub mod Prep
