-- ===== src/Prelude/Calls.antt =====
-- How a call of a C++ member function can end, with the object it leaves behind, and the
-- sequencing of such calls.

-- The exceptions that the program throws, by their message.
pub data Exception : Type 0 where
  block_already_enabled sem_init_failed sem_wait_error list_is_empty : Exception
  invalid_pool_argument pthread_create_error thread_count_not_positive : Exception
  mysql_init_failed mysql_connect_failed no_connection query_failed store_failed : Exception
  socket_init_defeat bind_error listen_error set_nonblock_error : Exception
  epoll_create_error epoll_add_error loop_before_listen epoll_wait_error : Exception
  json_error bad_array_length haha : Exception

-- `blocks s`: the call waits at the state `s` for another thread. `undefined`: the program has
-- done something that C++ or POSIX gives no meaning.
pub data Outcome {ℓ κ} (S : Type ℓ) (A : Type κ) : Type (ℓ ⊔ κ) where
  returns : A → S → Outcome S A
  throws : Exception → S → Outcome S A
  blocks : S → Outcome S A
  undefined : Outcome S A

-- A member function: from the object to an outcome.
abbrev pub Method {ℓ κ} : Type ℓ → Type κ → Type (ℓ ⊔ κ)
Method S A = S → Outcome S A

abbrev pub then_do {ℓ κ μ} :
    {S : Type ℓ} {A : Type κ} {B : Type μ} → Outcome S A → (A → Method S B) → Outcome S B
then_do (returns a s) f = f a s
then_do (throws e s) f = throws e s
then_do (blocks s) f = blocks s
then_do undefined f = undefined

infixl 5 ◌>>=◌ ◌>>◌
abbrev pub ◌>>=◌ {ℓ κ μ} :
    {S : Type ℓ} {A : Type κ} {B : Type μ} → Method S A → (A → Method S B) → Method S B
◌>>=◌ m f s = then_do (m s) f

abbrev pub ◌>>◌ {ℓ κ} : {S : Type ℓ} {B : Type κ} → Method S (Unit {0}) → Method S B → Method S B
m >> k = m >>= λ _. k

abbrev pub pure {ℓ κ} : {S : Type ℓ} {A : Type κ} → A → Method S A
pure a s = returns a s

abbrev pub throw {ℓ κ} : {S : Type ℓ} {A : Type κ} → Exception → Method S A
throw e s = throws e s

abbrev pub put_back {ℓ κ μ} :
    {S : Type ℓ} {P : Type κ} {A : Type μ} → (P → S) → Outcome P A → Outcome S A
put_back put (returns a p) = returns a (put p)
put_back put (throws e p) = throws e (put p)
put_back put (blocks p) = blocks (put p)
put_back put undefined = undefined

-- Runs a member function of a part of the object: `put` stores the part back.
abbrev pub on_part {ℓ κ μ} :
    {S : Type ℓ} {P : Type κ} {A : Type μ} → (S → P) → (P → S → S) → Method P A → Method S A
on_part get put m s = put_back (λ p. put p s) (m (get s))
