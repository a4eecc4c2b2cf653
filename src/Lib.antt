-- ===== src/Lib.antt =====
-- The shop "hozdacha": a Go server that sells goods for pick-up. A customer fills a cart, an order takes
-- its goods from the shelf at once and holds them until it is collected, cancelled or expired, and
-- promotions lower prices for a reservation window. Orders and stock also live in MoySklad, an external
-- service, whose webhooks come in through a queue.
--
-- The parts, and the files that model them:
--  - Store: the tables of products, orders, order items and carts, and the transactions of
--    internal/db/orders.go. Rows has the rows and the state `Db`; Transaction the statements, the errors
--    and the rollback; Create is CreateOrderAtomic; Cancel is CancelPendingOrderAtomic, CompleteOrder and
--    ListExpiredPendingIDs. Create/, Cancel/, RoundTrip, Complete and Expired hold their proofs, Accounts
--    the sums that must balance, Lifecycle the histories of any operations.
--  - Checkout: internal/usecase/order.go around the order tables, with the effects outside them as a list;
--    Ending is its cancellation and completion, and internal/services/reservation_expiry.go.
--  - Window: internal/services/promotionwindow.go, the hours at which a promotion can be reserved.
--  - Pricing: internal/usecase/promotion_pricing.go; Pricer is `Apply` with its cache and the query of
--    internal/db/promotion_links.go, Ancestors is AncestorMap of internal/db/categories.go, DayOffers the
--    two checks that an order makes. It reads the window of the module Window. Best, Rows and Masks hold proofs.
--  - Cart: internal/usecase/cart.go over internal/db/cart.go; Reading is GetCart.
--  - Inbox: internal/db/webhook_inbox.go; Inbox/Worker is internal/services/webhook_inbox_worker.go, which
--    waits by the delays of Resilience. Claim, Rounds, Retries, Keys and Orphans hold the proofs.
--  - Resilience: internal/resilience, the circuit breaker and the two retry delays.
--  - RateStore: the counters in memory of internal/cache/ratestore.go.
--  - Users: accounts and the codes sent by mail. Users is internal/db/users.go, Service
--    internal/usecase/user.go, Handler the requests of internal/handlers/user.go, which count attempts in
--    RateStore; Texts and Codes are the functions on texts. Once, Guesses, Asking, Taken and Profile hold
--    their proofs. A request is one step, but in Guesses, where requests for one address overlap: reading the
--    counter is a step, and looking at the code with what follows is another.
--  - StockCache: internal/cache/redis.go, stocks and reservations in Redis; Available has its proofs.
--  - Sync: products taken over from MoySklad. Sync has the rows and queries, Products is
--    internal/services/moysklad_sync.go, Folders its categories with internal/db/categories.go, Webhook
--    internal/services/webhook_processor.go, Pool the tasks of internal/services/sync_worker.go, Href the ids in
--    references. Writes, Agreement, Stored, Kept and
--    Categories hold their proofs. It fills the cache of StockCache.
--  - PromotionCatalog: internal/usecase/promotion_catalog.go with its orders in Order. Candidates, Ranked,
--    Pages and Groups have its proofs. Its promotions are filtered by Window and its products are those that
--    Pricing has priced.
--  - Catalog: the pages of internal/usecase/product.go; Paging and Repeats have its proofs.
--  - Session: internal/middleware/auth.go with internal/services/blacklist.go and the logout of
--    internal/handlers/user.go; Revoked has its proof.
--  - Base: shared names, tests, results, lists and integers.
-- The files called Examples apply the theorems to concrete data.
--
-- State is passed explicitly: an operation takes the tables, the time and the faults of the database, and
-- gives its result and the new tables. PostgreSQL is a parameter: which statement fails, which row is locked
-- by another transaction, and which of several joined rows an UPDATE ... FROM takes. A transaction that
-- fails leaves the tables as they were, and transactions take effect one after the other.
--
-- Money is a number of kopecks and a discount of hundredths of a percent, as the columns hold them, where
-- the code computes in float64. A moment is a number of nanoseconds, in Users, StockCache, Sync and Session
-- of seconds. A text is a list of code points. A stock without the share of the buffer is exact, where the
-- code cuts off a float64. The integers of the code are unbounded here, but for the range of the quantity
-- of a cart row. The batches of a synchronisation run on fuel, one unit for each product, which is enough;
-- every other loop runs over a list, over the ids that the sequence gave out, or over the bound that the
-- code sets (32 steps up the tree of categories).
--
-- Not modelled: the counters of RateStore in Redis, which count a call that fails as 0 or 1, the other HTTP
-- handlers and the other middleware, the client of MoySklad, the scheduler of the synchronisation and how
-- its pool starts and stops workers, images, the contents of mails and tokens, metrics and start-up. They
-- are input and output around the parts above, or external services: what the parts ask of them is given as
-- an answer, and the calls that the checkout makes of them appear in its list of effects.
mod Base
pub mod Store
pub mod Window
pub mod Pricing
pub mod PromotionCatalog
pub mod Resilience
pub mod Checkout
pub mod Inbox
pub mod Cart
pub mod RateStore
pub mod Users
pub mod StockCache
pub mod Sync
pub mod Catalog
pub mod Session
