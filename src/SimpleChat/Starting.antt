-- ===== src/SimpleChat/Starting.antt =====
-- simplechat.cpp, `thread_pool` and `sql_pool`, and the order of the calls in main.cpp.
use mathlib.Core.Path.{ap₂}
use simplechatserver.Prelude.{
  ℕ, suc, ◌≡◌, refl, ap, ◌∙◌, Bool, true, false, Option, none, some, List, [], ◌∷◌, length, pos,
  ◌<◌, not-le→leb, returns, undefined, put_back,
}
use simplechatserver.SqlConnectionPool.{MysqlApi, SqlConnectionPool, init as init_sql}
use simplechatserver.SafeQueue.{create, push, pop, size}
use simplechatserver.ThreadPool.{
  ThreadPool, create_pool, add_function, calls, dispatch, append, has_room, enqueue, post_sem,
  take_task,
}
use simplechatserver.ThreadPool.Calls.{Spawns, start-Spawns}
use simplechatserver.UserTable.{Database, Loader}
use simplechatserver.SimpleChat.{
  Handler, reads, sends, SimpleChat, SocketApi, Wait, new_chat, init, thread_pool, make_pool,
  sql_pool, main, handle_read, handle_write, max_fd,
}

-- The pool that `thread_pool` makes for `n + 1` threads, before `start()`.
abbrev filled : ℕ → ThreadPool Handler ℕ
filled n = record {
  task_queue = create;
  thread_count = pos (suc n);
  maxrequest = pos 10000;
  is_close = true;
  threads = some [];
  sem = 0;
  funbox = reads ∷ sends ∷ [];
}

thread_pool_at :
    (id_of : ℕ → Option ℕ) (ids : List ℕ) (n : ℕ) (c : SimpleChat)
    → c.m_pool ≡ none
    → c.m_thread_count ≡ pos (suc n)
    → suc n ≡ length ids
    → Spawns id_of 0 ids
    → thread_pool id_of c
      ≡ returns tt
          (record c { m_pool = some (record (filled n) { is_close = false; threads = some ids }) })
unfolding thread_pool create_pool add_function
thread_pool_at id_of ids n c m t l s =
    ap₂ (λ k o. make_pool id_of k o c) t m
    ∙ ap (put_back (λ p. record c { m_pool = some p }))
        (start-Spawns id_of ids (filled n) refl l s).0

-- After the handler `handle` a worker of the server `c` pops a task that calls `h` on the connection
-- `user`, and one post has been made for it.
pub record Queues (handle : ℕ → SimpleChat → SimpleChat) (h : Handler) (user : ℕ) (c : SimpleChat)
    : Type 0 where
  pub after : ThreadPool Handler ℕ
  pub handled : handle user c ≡ record c { m_pool = some after }
  pub posted : after.sem ≡ 1
  pub taken : dispatch after.funbox (take_task after).0 ≡ calls h user

-- On a server without a thread pool whose thread count is positive, where `pthread_create` gives
-- out an id for each thread: `thread_pool` returns with an open pool of these threads and no task.
-- On the server with this pool, for a connection below `MAX_FD`, `handleRead` queues a task for
-- which a worker calls `read_once` on the connection, and `handleWrite` one for which it calls
-- `sendData`, with one post each.
pub thread_pool-Spawns :
    (id_of : ℕ → Option ℕ) (ids : List ℕ) (n user : ℕ) (c : SimpleChat)
    → c.m_pool ≡ none
    → c.m_thread_count ≡ pos (suc n)
    → suc n ≡ length ids
    → Spawns id_of 0 ids
    → user < max_fd
    → (p : ThreadPool Handler ℕ) × (thread_pool id_of c ≡ returns tt (record c { m_pool = some p }))
      × (p.threads ≡ some ids)
      × (p.is_close ≡ false)
      × (p.task_queue.list ≡ [])
      × Queues handle_read reads user (record c { m_pool = some p })
      × Queues handle_write sends user (record c { m_pool = some p })
unfolding create handle_read handle_write append has_room size enqueue push post_sem take_task pop
    dispatch
thread_pool-Spawns id_of ids n user c m t l s small = (
  record (filled n) { is_close = false; threads = some ids },
  thread_pool_at id_of ids n c m t l s,
  refl,
  refl,
  refl,
  record {
    after =
        (append (some user) (pos 0) (record (filled n) { is_close = false; threads = some ids })).1;
    handled = rw (not-le→leb max_fd user small) refl;
    posted = refl;
    taken = refl;
  },
  record {
    after =
        (append (some user) (pos 1) (record (filled n) { is_close = false; threads = some ids })).1;
    handled = rw (not-le→leb max_fd user small) refl;
    posted = refl;
    taken = refl;
  },
)

-- `main` on a new server, where the ten threads are created and the connection pool is set up,
-- does something undefined: `sql_pool` calls `users->initAllResult()` before `eventListen` has
-- allocated `users`.
pub main_calls_null :
    (id_of : ℕ → Option ℕ) (ids : List ℕ) (ok : Bool) (api : MysqlApi) (db : Database)
    (s : SocketApi) (waits : List Wait) (loader : Loader) (pool : SqlConnectionPool)
    → 10 ≡ length ids
    → Spawns id_of 0 ids
    → init_sql ok api (pos 8) loader.pool ≡ returns tt pool
    → main id_of ok api db s waits (new_chat loader) ≡ undefined
unfolding main new_chat init sql_pool
main_calls_null id_of ids ok api db s waits loader pool l sp e =
    rw
      (thread_pool_at id_of ids 9 (init (pos 9990) (pos 100) (pos 10) (new_chat loader)) refl refl l
        sp)
      (rw e)
