-- ===== src/Sync/Pool.antt =====
-- The batches of the worker pool (internal/services/sync_worker.go): one worker and its queue.
--
-- `ended` tells before which product of a batch its context is done: the five minutes are over or the pool
-- stops. A panic is none of the model's. `QueuedTasks` is an int32 in the code.
use hozdacha.Base.{
  ℕ, suc, ◌+◌, ◌-◌, ◌≡◌, refl, ap, subst, ◌∙◌, arith, Bool, true, false, Option, none, some, List,
  [], ◌∷◌, ◌++◌, length, Result, ok, err, if◌then◌else◌, inl, inr, Bool-cases,
}
use hozdacha.Base.Int.{ℤ, pos}
use hozdacha.Sync.{MoyskladProduct, State, Fault, SyncError}
use hozdacha.Sync.Products.{StockMap, sync_single_product}

pub record Task : Type 0 where
  pub is_stop : Bool
  pub products : List MoyskladProduct
  pub stock_by_id : Option StockMap

pub record WorkerStats : Type 0 where
  pub total_tasks : ℕ
  pub processed_tasks : ℕ
  pub failed_tasks : ℕ
  pub queued_tasks : ℕ

abbrev or_zero : Option ℤ → ℤ
or_zero none = pos 0
or_zero (some stock) = stock

-- A product that the report does not name has none in stock.
unfoldable pub with_stock : Option StockMap → MoyskladProduct → MoyskladProduct
with_stock none ms = ms
with_stock (some stocks) ms = record ms { stock = some (or_zero (stocks ms.id)) }

abbrev noted : State → Bool → Result SyncError State → State × Bool
noted s success (ok s') = (s', success)
noted s success (err e) = (s, false)

abbrev counted_task : Bool → WorkerStats → WorkerStats
counted_task true st = record st { processed_tasks = suc st.processed_tasks }
counted_task false st = record st { failed_tasks = suc st.failed_tasks }

abbrev off_queue : WorkerStats → WorkerStats
off_queue st = record st { queued_tasks = st.queued_tasks - 1 }

module _ (fault : Fault) (now : ℕ) (ended : ℕ → Bool) where
  abbrev tried : Option StockMap → MoyskladProduct → State × Bool → State × Bool
  tried stocks ms (s, success) =
      noted s success (sync_single_product fault (with_stock stocks ms) now s)

  -- The products of a batch from the `i`th on. A failure is noted, and the next product is tried.
  unfoldable pub process_products :
      Option StockMap → ℕ → List MoyskladProduct → State × Bool → State × Bool
  unfolding sync_single_product with_stock
  process_products stocks i [] r = r
  process_products stocks i (ms ∷ rest) r =
      let done = process_products stocks (suc i) rest (tried stocks ms r) in
      if ended i then r else done

  unfoldable pub process_task : Task → State × WorkerStats → State × WorkerStats
  unfolding process_products
  process_task task (s, st) =
      let (s', success) = process_products task.stock_by_id 0 task.products (s, true) in
      (s', off_queue (counted_task success st))

  -- A worker takes tasks until it is told to stop; what is left is for the others. (It stops as well when the pool ends.)
  unfoldable pub worker : List Task → State × WorkerStats → List Task × (State × WorkerStats)
  unfolding process_task
  worker [] r = ([], r)
  worker (task ∷ tasks) r =
      let others = worker tasks (process_task task r) in if task.is_stop then (tasks, r) else others

unfoldable pub push_task : Task → List Task × WorkerStats → List Task × WorkerStats
push_task task (queue, st) = (
  queue ++ (task ∷ []),
  record st { total_tasks = suc st.total_tasks; queued_tasks = suc st.queued_tasks },
)

-- The tasks of a queue that carry a batch.
abbrev pub batches : List Task → ℕ
batches [] = 0
batches (task ∷ tasks) = if task.is_stop then batches tasks else suc (batches tasks)

-- Every task that was pushed has succeeded, has failed, or waits in the queue.
abbrev pub Accounted : ℕ → WorkerStats → Type 0
Accounted waiting st =
    (st.queued_tasks ≡ waiting) × (st.total_tasks ≡ st.processed_tasks + st.failed_tasks + waiting)

abbrev pub Balanced : List Task → WorkerStats → Type 0
Balanced queue st = Accounted (batches queue) st

batches-append :
    (queue : List Task) (task : Task)
    → task.is_stop ≡ false
    → batches (queue ++ (task ∷ [])) ≡ suc (batches queue)
batches-append [] task e = rw e refl
batches-append (t ∷ ts) task e = elim (Bool-cases t.is_stop) [
  | inl h ↦ rw h (batches-append ts task e)
  | inr h ↦ rw h (ap suc (batches-append ts task e))
]

-- A batch that is pushed keeps the counters balanced with the queue.
pub push_task-Balanced :
    (task : Task) (queue : List Task) (st : WorkerStats)
    → task.is_stop ≡ false
    → Balanced queue st
    → Balanced ((push_task task (queue, st)).0) ((push_task task (queue, st)).1)
unfolding push_task
push_task-Balanced task queue st e (q, t) =
    let more = batches-append queue task e in (omega arith, omega arith)

counted_task-Accounted :
    (success : Bool) (tasks : List Task) (st : WorkerStats)
    → Accounted (suc (batches tasks)) st
    → Accounted (batches tasks) (off_queue (counted_task success st))
counted_task-Accounted true tasks st (q, t) = (omega arith, omega arith)
counted_task-Accounted false tasks st (q, t) = (omega arith, omega arith)

module _ (fault : Fault) (now : ℕ) (ended : ℕ → Bool) where
  process-Balanced :
      (task : Task) (tasks : List Task) (s : State) (st : WorkerStats)
      → task.is_stop ≡ false
      → Balanced (task ∷ tasks) st
      → Balanced tasks ((process_task fault now ended task (s, st)).1)
  unfolding process_task
  process-Balanced task tasks s st e b =
      let one : batches (task ∷ tasks) ≡ suc (batches tasks) = rw e refl in
      counted_task-Accounted
        ((process_products fault now ended task.stock_by_id 0 task.products (s, true)).1) tasks st
        (subst (λ n. Accounted n st) one b)

  -- Whatever the batches, the faults and the contexts that end, a worker that runs leaves the counters balanced
  -- with what is left in the queue.
  pub worker-Balanced :
      (queue : List Task) (s : State) (st : WorkerStats)
      → Balanced queue st
      → (let r = worker fault now ended queue (s, st) in Balanced r.0 (r.1.1))
  unfolding worker
  worker-Balanced [] s st b = b
  worker-Balanced (task ∷ tasks) s st b = elim (Bool-cases task.is_stop) [
    | inl e ↦ rw e (
        let none_more : batches (task ∷ tasks) ≡ batches tasks = rw e refl in
        subst (λ n. Accounted n st) none_more b)
    | inr e ↦
        let (s', st') = process_task fault now ended task (s, st) in
        rw e (worker-Balanced tasks s' st' (process-Balanced task tasks s st e b))
  ]

  process-ended :
      (stocks : Option StockMap) (i : ℕ) (front back : List MoyskladProduct) (r : State × Bool)
      → ended (i + length front) ≡ true
      → process_products fault now ended stocks i (front ++ back) r
        ≡ process_products fault now ended stocks i front r
  unfolding process_products
  process-ended stocks i [] [] r e = refl
  process-ended stocks i [] (ms ∷ back) r e =
      let first : i ≡ i + 0 = omega arith in rw (ap ended first ∙ e) refl
  process-ended stocks i (f ∷ front) back r e =
      let next : suc i + length front ≡ i + suc (length front) = omega arith in
      let r' = tried fault now ended stocks f r in
      ap (λ d. if ended i then r else d)
        (process-ended stocks (suc i) front back r' (ap ended next ∙ e))

  -- A batch whose context ends is counted as if it had held the products before only: as a success, if these
  -- were taken over, though no product after them was tried.
  pub process_task-ended :
      (task : Task) (front back : List MoyskladProduct) (r : State × WorkerStats)
      → ended (length front) ≡ true
      → process_task fault now ended (record task { products = front ++ back }) r
        ≡ process_task fault now ended (record task { products = front }) r
  unfolding process_task
  process_task-ended task front back (s, st) e =
      let same = process-ended task.stock_by_id 0 front back (s, true) in
      let start : 0 + length front ≡ length front = omega arith in
      ap (λ d. (d.0, off_queue (counted_task d.1 st))) (same (ap ended start ∙ e))
