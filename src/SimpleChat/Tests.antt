-- ===== src/SimpleChat/Tests.antt =====
-- The theorems about the server at small inputs that meet their hypotheses.
use simplechatserver.Prelude.{
  ℕ, ◌+◌, ◌≡◌, refl, true, false, Option, none, some, List, [], ◌∷◌, arith, pos, negsuc, returns,
  undefined,
}
use simplechatserver.SafeQueue.{create}
use simplechatserver.SqlConnectionPool.{MysqlApi, SqlConnectionPool, fresh_pool, init as init_sql}
use simplechatserver.SqlConnectionPool.Opening.{init-Connects}
use simplechatserver.ThreadPool.{ThreadPool}
use simplechatserver.TcpConn.{epollin, epollout, epollrdhup}
use simplechatserver.UserTable.{Loader}
use simplechatserver.SimpleChat.{
  Handler, reads, sends, SimpleChat, SocketApi, Event, events, new_chat, thread_pool, handle_batch,
  drop_fd, main, handle_read, handle_write,
}
use simplechatserver.SimpleChat.Listening.{listen_then_destroy, listen_then_destroy_closes}
use simplechatserver.SimpleChat.Starting.{Queues, thread_pool-Spawns, main_calls_null}
use simplechatserver.SimpleChat.Events.{
  IsRequest, IsHandedOver, handle_batch-IsHandedOver, handle_batch-drops,
}

abbrev loader : Loader
unfolding fresh_pool
loader = record { pool = fresh_pool; user = [] }

-- `listen` fails.
abbrev refused : SocketApi
refused = record {
  socket = pos 3;
  bind_ok = true;
  listen_ok = false;
  nonblock_ok = true;
  epoll_create = pos 4;
  add_ok = true;
}

listen_then_destroy_closes_example :
    listen_then_destroy refused (new_chat loader) ≡ some (pos 3 ∷ [])
listen_then_destroy_closes_example = listen_then_destroy_closes refused loader

abbrev id_of : ℕ → Option ℕ
id_of i = some (100 + i)

abbrev two_threads : SimpleChat
unfolding new_chat
two_threads = record (new_chat loader) { m_thread_count = pos 2 }

thread_pool-Spawns_example :
    (p : ThreadPool Handler ℕ) × (thread_pool id_of two_threads
      ≡ returns tt (record two_threads { m_pool = some p }))
    × (p.threads ≡ some (100 ∷ 101 ∷ []))
    × (p.is_close ≡ false)
    × (p.task_queue.list ≡ [])
    × Queues handle_read reads 7 (record two_threads { m_pool = some p })
    × Queues handle_write sends 7 (record two_threads { m_pool = some p })
unfolding two_threads
thread_pool-Spawns_example =
    thread_pool-Spawns id_of (100 ∷ 101 ∷ []) 1 7 two_threads refl refl refl (refl, (refl, tt))
      (omega arith)

abbrev api : MysqlApi
api = record { mysql_init = λ i. some (10 + i); mysql_real_connect = some }

abbrev eight_handles : List ℕ
eight_handles = 10 ∷ 11 ∷ 12 ∷ 13 ∷ 14 ∷ 15 ∷ 16 ∷ 17 ∷ []

connected : (p : SqlConnectionPool) × (init_sql true api (pos 8) fresh_pool ≡ returns tt p)
connected =
    let (p, e, _, _, _, _) = init-Connects api eight_handles (
      refl,
      refl,
      (
        refl,
        refl,
        (refl, refl, (refl, refl, (refl, refl, (refl, refl, (refl, refl, (refl, refl, tt)))))),
      ),
    ) in
    (p, e)

main_calls_null_example :
    main id_of true api
      (record { query_ok = true; result = none })
      refused
      (events [] ∷ [])
      (new_chat loader)
    ≡ undefined
unfolding loader
main_calls_null_example =
    main_calls_null id_of (100 ∷ 101 ∷ 102 ∷ 103 ∷ 104 ∷ 105 ∷ 106 ∷ 107 ∷ 108 ∷ 109 ∷ []) true api
      (record { query_ok = true; result = none }) refused (events [] ∷ []) loader connected.0 refl
      (refl, (refl, (refl, (refl, (refl, (refl, (refl, (refl, (refl, (refl, tt)))))))))) connected.1

-- A pool that takes one more task.
abbrev almost_full : ThreadPool Handler ℕ
unfolding create
almost_full = record {
  task_queue = record create { list = (pos 0, some 9) ∷ [] };
  thread_count = pos 2;
  maxrequest = pos 2;
  is_close = false;
  threads = some (100 ∷ 101 ∷ []);
  sem = 1;
  funbox = reads ∷ sends ∷ [];
}

abbrev readable : Event
readable = record { fd = 5; mask = epollin ∷ []; accepts = [] }

abbrev writable : Event
writable = record { fd = 6; mask = epollout ∷ []; accepts = [] }

abbrev gone : Event
gone = record { fd = 7; mask = epollin ∷ epollrdhup ∷ []; accepts = [] }

readable-IsRequest : IsRequest (negsuc 0) readable
readable-IsRequest = record { other = refl; alive = refl; small = omega arith; ready = refl }

writable-IsRequest : IsRequest (negsuc 0) writable
writable-IsRequest = record { other = refl; alive = refl; small = omega arith; ready = refl }

handle_batch-IsHandedOver_example :
    (p' : ThreadPool Handler ℕ) × (handle_batch
        (readable ∷ writable ∷ [])
        (record two_threads { m_pool = some almost_full })
      ≡ returns tt (record two_threads { m_pool = some p' }))
    × IsHandedOver (readable ∷ writable ∷ []) almost_full p'
unfolding two_threads
handle_batch-IsHandedOver_example =
    handle_batch-IsHandedOver (readable ∷ writable ∷ []) two_threads almost_full
      (readable-IsRequest, (writable-IsRequest, tt))

handle_batch-drops_example :
    (p' : ThreadPool Handler ℕ) × (handle_batch
        (readable ∷ gone ∷ writable ∷ [])
        (record two_threads { m_pool = some almost_full })
      ≡ returns tt (drop_fd 7 (record two_threads { m_pool = some p' })))
    × IsHandedOver (readable ∷ []) almost_full p'
unfolding two_threads
handle_batch-drops_example =
    handle_batch-drops (readable ∷ []) (writable ∷ []) gone two_threads almost_full
      (readable-IsRequest, tt) refl refl
