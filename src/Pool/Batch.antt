-- ===== src/Pool/Batch.antt =====
-- c/src/pool.c: a batch of requests through a pool. Worker threads take the items one by one; each
-- critical section, and the end of each request, is one step, so that the steps of the workers
-- interleave in any order.
pub mod Runs
pub mod Ends
pub mod Results
use cmee1y1_clients.Base.{
  ℕ, zero, suc, ◌+◌, ◌*◌, ◌<◌, ◌≤◌, ◌≡◌, Bool, true, false, ◌&&◌, ◌||◌, not, Option, none, some,
  List, [], ◌∷◌, length, ltb, ◌==◌, if◌then◌else◌, ℤ, pos, negsuc, Result, ok, err,
}
use cmee1y1_clients.State.{Client, Env, M}
use cmee1y1_clients.State.Code
use cmee1y1_clients.Message.{max_slot}
use cmee1y1_clients.Pool.Lifecycle.{pool_at}

-- What a request through the pool leaves in its item: the code and the reply's length.
pub record Outcome : Type 0 where
  pub rc : ℤ
  pub resp_len : ℕ

-- What a worker is doing: it is between two items, it has one on the wire, or it has ended.
pub data Worker : Type 0 where
  ready ended : Worker
  running : ℕ → Worker

-- A batch, its shared index, its items' results and its workers. A worker that could not be started
-- counts as one that has ended.
pub record Batch : Type 0 where
  pub count : ℕ
  pub next_idx : ℕ
  pub items : ℕ → Outcome
  pub worker : ℕ → Worker

abbrev pub put_worker : (ℕ → Worker) → ℕ → Worker → ℕ → Worker
put_worker ws w k = λ v. if v == w then k else ws v

abbrev pub put_item : (ℕ → Outcome) → ℕ → Outcome → ℕ → Outcome
put_item items i o = λ j. if j == i then o else items j

-- A step of the worker `w`; `returns i` tells whether the request of item `i` returns at all (it can
-- wait for a connection for ever), and `answer i` what it comes to.
pub data Step (returns : ℕ → Bool) (answer : ℕ → Outcome) (b : Batch) : Batch → Type 0 where
  take :
      (w : ℕ)
      → b.worker w ≡ ready
      → b.next_idx < b.count
      → Step returns answer b (record b {
        next_idx = b.next_idx + 1;
        items = put_item b.items b.next_idx (record (b.items b.next_idx) { resp_len = 0 });
        worker = put_worker b.worker w (running b.next_idx);
      })
  leave :
      (w : ℕ)
      → b.worker w ≡ ready
      → b.count ≤ b.next_idx
      → Step returns answer b
          (record b { next_idx = b.next_idx + 1; worker = put_worker b.worker w ended })
  complete :
      (w i : ℕ)
      → b.worker w ≡ running i
      → returns i ≡ true
      → Step returns answer b
          (record b { items = put_item b.items i (answer i); worker = put_worker b.worker w ready })

-- A run of so many steps.
pub data Run (returns : ℕ → Bool) (answer : ℕ → Outcome) (b : Batch) : ℕ → Batch → Type 0 where
  here : Run returns answer b zero b
  next :
      {n : ℕ} {c d : Batch}
      → Run returns answer b n c
      → Step returns answer c d
      → Run returns answer b (suc n) d

-- The start, with `spawned` workers.
abbrev pub started : ℕ → ℕ → (ℕ → Outcome) → Batch
started count spawned items = record {
  count = count;
  next_idx = 0;
  items = items;
  worker = λ w. if ltb w spawned then ready else ended;
}

-- How many workers: one for each connection of the pool, and no more than items.
unfoldable pub worker_count : ℕ → ℕ → ℕ
worker_count size count = if ltb count size then count else size

unfoldable pub consumed : Batch → ℕ
consumed b = if ltb b.count b.next_idx then b.count else b.next_idx

-- The items that no worker took are marked.
unfoldable pub mark_rest : Batch → ℕ → Outcome
mark_rest b i =
    if not (ltb i (consumed b)) && ltb i b.count
    then record { rc = Code.generic; resp_len = 0 }
    else b.items i

abbrev pub is_ok : ℤ → Bool
is_ok (pos n) = n == 0
is_ok (negsuc n) = false

-- The code of the batch, from the first `n` items.
unfoldable pub overall : ℕ → (ℕ → Outcome) → ℤ
overall zero items = Code.bp_ok
overall (suc n) items =
    let rest = overall n items in if is_ok (items n).rc then rest else Code.generic

module _ {W : Type 0} (env : Env W) where
  -- The threads are started one by one, up to the first that fails: how many were started.
  unfoldable pub spawn_workers : ℕ → Client W → Client W × ℕ
  spawn_workers zero c = (c, 0)
  spawn_workers (suc n) c =
      let s = env.spawn c.world in
      let rest = spawn_workers n (record c { world = s.0 }) in
      if s.1 then (rest.0, suc rest.1) else (record c { world = s.0 }, 0)

  -- A handle of a thread has 8 bytes.
  unfoldable pub start_workers : ℕ → (ℕ → Outcome) → ℕ → M W (Option Batch)
  start_workers count items n c =
      let a = env.alloc c.world (n * 8) in
      let s = spawn_workers n (record c { world = a.0 }) in
      if a.1
      then (s.0, ok (some (started count s.1 items)))
      else (record c { world = a.0 }, err Code.generic)

  -- A call until its workers run: the batch at its start, none for no items. When the workers have
  -- ended, `mark_rest` and `overall` give what the caller sees.
  unfoldable pub bp_client_pool_batch : Option (ℕ → Outcome) → ℕ → ℕ → M W (Option Batch)
  bp_client_pool_batch none slot count c = (c, err Code.null_arg)
  bp_client_pool_batch (some items) slot count c =
      if ltb max_slot slot
      then (c, err Code.slot_too_large)
      else if count == 0
      then (c, ok none)
      else if not (pool_at c slot).initialized
      then (c, err Code.not_open)
      else start_workers count items (worker_count (pool_at c slot).size count) c
