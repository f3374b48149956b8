-- ===== src/SimpleChat/Events.antt =====
-- simplechat.cpp, the body of `eventLoop`: what one batch of events hands to the thread pool.
use simplechatserver.Prelude.{
  ℕ, zero, suc, ◌+◌, ◌-◌, ◌<◌, ◌≡◌, refl, sym, ap, ◌∙◌, inl, inr, Bool-cases, true, false, ◌||◌,
  Option, some, List, [], ◌∷◌, ◌++◌, length, length-append, take, take-all, map, subst, append-nil,
  append_assoc, leb, if◌then◌else◌, arith, ℤ, pos, to_size, int_eq, returns, not-le→leb,
}
use simplechatserver.ThreadPool.{ThreadPool, Task, append, has_room}
use simplechatserver.ThreadPool.Calls.{append_cases}
use simplechatserver.TcpConn.{epollin, epollout}
use simplechatserver.SimpleChat.{
  Handler, SimpleChat, Event, handle_batch, handle_read, handle_write, serve_event, has_flag,
  hung_up, drop_fd, max_fd,
}

-- The pool after `append` of the pairs, one by one, whatever it returns.
abbrev pub append_all : List (Task ℕ) → ThreadPool Handler ℕ → ThreadPool Handler ℕ
append_all [] p = p
append_all ((state, r) ∷ tasks) p = append_all tasks (append r state p).1

-- An event of a client: not of the listening socket, without a hang-up, readable or writable.
pub record IsRequest (m_lfd : ℤ) (ev : Event) : Type 0 where
  pub other : int_eq (pos ev.fd) m_lfd ≡ false
  pub alive : hung_up ev.mask ≡ false
  pub small : ev.fd < max_fd
  pub ready : (has_flag epollin ev.mask || has_flag epollout ev.mask) ≡ true

abbrev pub AreRequests : ℤ → List Event → Type 0
AreRequests m_lfd [] = Unit
AreRequests m_lfd (ev ∷ evs) = IsRequest m_lfd ev × AreRequests m_lfd evs

-- The pair for an event: to read if it is readable, else to send.
abbrev pub task_of : Event → Task ℕ
task_of ev = (if has_flag epollin ev.mask then pos 0 else pos 1, some ev.fd)

serve_at :
    (ev : Event) (c : SimpleChat) (p : ThreadPool Handler ℕ)
    → IsRequest c.m_lfd ev
    → serve_event ev (record c { m_pool = some p })
      ≡ record c { m_pool = some (append_all (task_of ev ∷ []) p) }
unfolding handle_read handle_write
serve_at ev c p r =
    let fits : leb max_fd ev.fd ≡ false = not-le→leb max_fd ev.fd r.small in
    elim (Bool-cases (has_flag epollin ev.mask)) [
      | inl i ↦ rw (i, fits)
      | inr i ↦
          let both : (has_flag epollin ev.mask || has_flag epollout ev.mask)
              ≡ has_flag epollout ev.mask =
            rw i in
          let writable : has_flag epollout ev.mask ≡ true = sym both ∙ r.ready in
          rw (i, writable, fits)
    ]

batch_step :
    (ev : Event) (evs : List Event) (c : SimpleChat) (p : ThreadPool Handler ℕ)
    → IsRequest c.m_lfd ev
    → handle_batch (ev ∷ evs) (record c { m_pool = some p })
      ≡ handle_batch evs (serve_event ev (record c { m_pool = some p }))
unfolding handle_batch
batch_step ev evs c p r = rw (r.other, r.alive)

batch_front :
    (front rest : List Event) (c : SimpleChat) (p : ThreadPool Handler ℕ)
    → AreRequests c.m_lfd front
    → handle_batch (front ++ rest) (record c { m_pool = some p })
      ≡ handle_batch rest (record c { m_pool = some (append_all (map task_of front) p) })
batch_front [] rest c p r = refl
batch_front (ev ∷ evs) rest c p r =
    batch_step ev (evs ++ rest) c p r.0
    ∙ ap (handle_batch (evs ++ rest)) (serve_at ev c p r.0)
    ∙ batch_front evs rest c (append_all (task_of ev ∷ []) p) r.1

append_keeps_bound :
    (r : Option ℕ) (state : ℤ) (p : ThreadPool Handler ℕ)
    → (append r state p).1.maxrequest ≡ p.maxrequest
unfolding append
append_keeps_bound r state p = elim (Bool-cases (has_room p)) [
  | inl room ↦ rw (room, append)
  | inr full ↦ rw (full, append)
]

take_none : (n : ℕ) (l : List (Task ℕ)) → n ≡ 0 → take n l ≡ []
take_none zero l e = refl
take_none (suc n) l e = absurd (omega arith)

take-suc : (k j : ℕ) (t : Task ℕ) (l : List (Task ℕ)) → k ≡ suc j → take k (t ∷ l) ≡ t ∷ take j l
take-suc zero j t l e = absurd (omega arith)
take-suc (suc k) j t l e = ap (λ i. t ∷ take i l) (omega arith)

-- The number of tasks that the pool still takes.
abbrev pub room_of : ThreadPool Handler ℕ → ℕ
room_of p = to_size p.maxrequest - length p.task_queue.list

-- What fits of the pairs is stored in their order, and one post is made for each.
append_all-list :
    (tasks : List (Task ℕ)) (p : ThreadPool Handler ℕ)
    → ((append_all tasks p).task_queue.list ≡ p.task_queue.list ++ take (room_of p) tasks)
      × ((append_all tasks p).sem + length p.task_queue.list
          ≡ p.sem + length (append_all tasks p).task_queue.list)
append_all-list [] p = (
  sym (append-nil p.task_queue.list)
      ∙ ap (λ x. p.task_queue.list ++ x) (sym (take-all (room_of p) [] (omega arith))),
  refl,
)
append_all-list ((state, r) ∷ tasks) p = elim (append_cases r state p) [
  | inl (full, e) ↦
      let same : (append r state p).1 ≡ p = ap (λ x. x.1) e in
      let (l, n) = append_all-list tasks p in
      let none_fits : room_of p ≡ 0 = omega arith in
      let stored : p.task_queue.list ++ take (room_of p) tasks
          ≡ p.task_queue.list ++ take (room_of p) ((state, r) ∷ tasks) =
        ap (λ x. p.task_queue.list ++ x)
          (take_none _ tasks none_fits ∙ sym (take_none _ ((state, r) ∷ tasks) none_fits)) in
      (
        ap (λ q. (append_all tasks q).task_queue.list) same ∙ l ∙ stored,
        subst
            (λ x.
              (append_all tasks x).sem + length p.task_queue.list
              ≡ p.sem + length (append_all tasks x).task_queue.list)
            (sym same) n,
      )
  | inr (room, _, stored, posted) ↦
      let q = (append r state p).1 in
      let (l, n) = append_all-list tasks q in
      let bound : q.maxrequest ≡ p.maxrequest = append_keeps_bound r state p in
      let longer : length q.task_queue.list ≡ suc (length p.task_queue.list) =
        ap length stored ∙ omega (arith, length-append p.task_queue.list ((state, r) ∷ [])) in
      let bounds : to_size q.maxrequest ≡ to_size p.maxrequest = ap to_size bound in
      let less : room_of p ≡ suc (room_of q) = omega arith in
      (
        l
            ∙ ap (λ x. x ++ take (room_of q) tasks) stored
            ∙ append_assoc p.task_queue.list ((state, r) ∷ []) (take (room_of q) tasks)
            ∙ ap (λ x. p.task_queue.list ++ x) (sym (take-suc _ _ (state, r) tasks less)),
        omega arith,
      )
]

-- What a run of requests leaves in the pool: as many of their pairs as fit, in the order of the
-- events, behind the tasks that were there, and one post for each pair that is stored.
pub record IsHandedOver (evs : List Event) (p p' : ThreadPool Handler ℕ) : Type 0 where
  pub stored : p'.task_queue.list ≡ p.task_queue.list ++ take (room_of p) (map task_of evs)
  pub posted : p'.sem + length p.task_queue.list ≡ p.sem + length p'.task_queue.list

-- A batch of requests of clients, on a server with a thread pool: the loop returns, and as many of
-- their tasks as fit are stored in the order of the events, with one post each. Nothing else of the
-- server changes.
pub handle_batch-IsHandedOver :
    (evs : List Event) (c : SimpleChat) (p : ThreadPool Handler ℕ)
    → AreRequests c.m_lfd evs
    → (p' : ThreadPool Handler ℕ) × (handle_batch evs (record c { m_pool = some p })
        ≡ returns tt (record c { m_pool = some p' }))
      × IsHandedOver evs p p'
unfolding handle_batch
handle_batch-IsHandedOver evs c p r =
    let (l, n) = append_all-list (map task_of evs) p in
    (
      append_all (map task_of evs) p,
      ap (λ e. handle_batch e (record c { m_pool = some p })) (sym (append-nil evs))
          ∙ batch_front evs [] c p r,
      record { stored = l; posted = n },
    )

batch_stops :
    (ev : Event) (rest : List Event) (c : SimpleChat) (p : ThreadPool Handler ℕ)
    → int_eq (pos ev.fd) c.m_lfd ≡ false
    → hung_up ev.mask ≡ true
    → handle_batch (ev ∷ rest) (record c { m_pool = some p })
      ≡ returns tt (drop_fd ev.fd (record c { m_pool = some p }))
unfolding handle_batch
batch_stops ev rest c p other gone = rw (other, gone)

-- A batch in which a hang-up follows some requests, on a server with a thread pool: the requests
-- before it are handed over, its descriptor is dropped from `epoll` and closed, and every event
-- after it is lost, whatever the event is.
pub handle_batch-drops :
    (front rest : List Event) (ev : Event) (c : SimpleChat) (p : ThreadPool Handler ℕ)
    → AreRequests c.m_lfd front
    → int_eq (pos ev.fd) c.m_lfd ≡ false
    → hung_up ev.mask ≡ true
    → (p' : ThreadPool Handler ℕ) × (handle_batch
          (front ++ (ev ∷ rest))
          (record c { m_pool = some p })
        ≡ returns tt (drop_fd ev.fd (record c { m_pool = some p' })))
      × IsHandedOver front p p'
handle_batch-drops front rest ev c p r other gone =
    let (l, n) = append_all-list (map task_of front) p in
    (
      append_all (map task_of front) p,
      batch_front front (ev ∷ rest) c p r
          ∙ batch_stops ev rest c (append_all (map task_of front) p) other gone,
      record { stored = l; posted = n },
    )
