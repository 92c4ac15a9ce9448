-- ===== src/Lib.antt =====
-- lucky-market: a raffle service. A user takes part in an activity, which costs a unit of quota
-- and leaves an order; the raffle of the activity's strategy picks an award; the award is
-- recorded. Quota is recharged by rebates, such as that of a daily sign-in. Requests pass an
-- authentication middleware.
--
-- The parts, and the code each stands for:
--
-- - Base, with Base/Int, Base/Outcome, Base/Lists: native numbers, Go's signed integers as ℤ, lists,
--   and what a call returns: a value, an error of the program or a panic. Stateful code is an action
--   `Exec S A`, from a state to an outcome and a state; what was written before an error stays.
-- - Text: strings.Split, strconv.ParseInt and FormatInt, as far as the code relies on them.
-- - Strategy (internal/biz/strategy, internal/data/strategy.go): Model is model.go; Repo is repo.go;
--   Armory and Pools are the assembly of prize pools and the draw (raffle_support.go and the methods
--   StoreStrategyAwardPool, GetRateRange and GetStrategyAwardAssemble); Chain is rule_chain.go; Tree is
--   rule_tree.go; Usecase is PerformRaffle; AwardStock is SubtractionAwardStock and
--   UpdateStrategyAwardStock.
-- - Activity (internal/biz/activity, internal/data/activity_partake.go): Model is model.go; Store is
--   the Redis keys and the MySQL rows, with the statements and the transactions on them; Pending is
--   CacheGetOrCreateNoUsedRaffleOrder and compensatePendingRaffleOrder; Order is
--   SaveLiteUserRaffleOrder; Ledger is SaveCreatePartakeOrderAggregate; Partake is CreateOrder; Sku is
--   the stock of a sku in Redis (sku_chain.go, stock.go and SubtractionActivitySkuStock of
--   internal/data/activity_quota.go), Sku/Assembly its assembly (stock.go), and Sku/Table the stock in
--   MySQL, with internal/job/activity_sku_stock_consume.go and
--   internal/listener/activity_stock_listener.go; Recharge is CreateRaffleActivityOrder (quota.go),
--   SaveOrder (internal/data/activity_quota.go) and the handler of
--   internal/listener/rebate_listener.go; Snapshot is QueryActivityAccountEntity and
--   AssembleActivityAccountByUserId (internal/data/activity_quota.go).
-- - Award (internal/biz/award/award.go, internal/data/award.go): SaveUserAwardRecord.
-- - Rebate (internal/biz/rebate, internal/data/rebate.go, the sign-in of internal/service/activity.go):
--   the rebate orders of a behaviour, their transaction and messages.
-- - Dispatch (internal/job/send_award_message.go, internal/biz/task, internal/data/task.go): the query
--   of the tasks that are due and their dispatch.
-- - Auth (internal/server/middleware/auth.go): Words is its helpers on texts; Checks is the checks of
--   devices, issuers, audiences and times; Credentials is what a request carries; Jwt, Session and
--   Gateway are the three sources; Middleware is the options and AuthMiddleware.
-- - Draw (internal/service/activity.go, Draw): Partake, Usecase and Award composed over one state.
-- - Tests: runs of the theorems at concrete states.
--
-- A raffle runs Chain, whose default node draws from Pools, and then Tree, whose stock node takes
-- a unit of AwardStock. CreateOrder reads the account, deducts in Pending and saves by Order; the
-- task that Order leaves is sent to the consumer, which charges the order in Ledger, by Dispatch
-- when the first sending is lost. Award ends the order, in the tables and in Redis, and leaves a
-- task of its own. The messages that Rebate publishes are handled by Recharge, which raises the
-- rows that Partake reads and Ledger charges.
--
-- Every command of Redis or MySQL may fail: a state carries a list of faults, and a command takes
-- the next entry. A Lua script and a transaction run with nothing in between, as Redis and row
-- locks have it; requests interleave between the commands of AwardStock (AwardStock/Oversell).
-- The only fuel is that of the decision tree's loop, since a configured tree may have cycles; for
-- a tree without them more fuel than its rank is enough (Tree/Termination). Parameters: float64,
-- the shuffle and the order of map ranges (Runtime), random numbers, the calendar, the
-- configuration queries of the usecases, the order and update times of tasks, what encoding/json
-- reads in a result of Sku, and in Auth the JWT library, HMAC-SHA256, base64, the parser of times
-- and the validators that the options carry.
--
-- A pending order expires after 30 minutes (Pending/Retry) and the lock of an award's stock after
-- 24 hours (AwardStock/Oversell). gorm is opened without TranslateError, so the error of a unique
-- index is MySQL's own, which only the code that looks for its text recognises.
--
-- Not modelled: expiry of the other keys, logging and metrics, the cached queries of strategies
-- and activities, AssembleActivityAccountByActivityId (a load test), the services, jobs and
-- listeners that only pass a call on, dependency injection, transport, frontend and generated
-- code, and pkg/cache, which is a copy of another project's library.
pub mod Base
pub mod Text
pub mod Strategy
pub mod Activity
pub mod Award
pub mod Tests
pub mod Auth
pub mod Rebate
pub mod Dispatch
pub mod Draw
