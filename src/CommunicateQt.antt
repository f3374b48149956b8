-- ===== src/CommunicateQt.antt =====
-- communicate_qt.cpp: a server of its own that answers each line of a client. What the system calls
-- return and whether `mbstowcs` accepts a text are arguments; console output is left out.
pub mod Lines
pub mod Answers
mod Tests
use simplechatserver.Prelude.{
  ℕ, zero, suc, ◌-◌, Bool, true, false, ◌||◌, Option, none, some, List, [], ◌∷◌, ◌++◌, length, take,
  set, ◌==◌, if◌then◌else◌, Outcome, returns, blocks, undefined, Method, ◌>>=◌, ◌>>◌, pure, pad,
  c_string,
}

abbrev pub Text : Type 0
Text = List ℕ

abbrev pub buffer_size : ℕ
buffer_size = 1024

-- What `read` gives: bytes, at most `BUFFER_SIZE - 1` of them and at least one; the end of the
-- connection; or an error.
pub data Received : Type 0 where
  bytes : Text → Received
  ended failed : Received

-- The texts given to `send`, and the descriptors given to `close`.
pub record Client : Type 0 where
  pub sent : List Text
  pub closed : List ℕ

-- `strcspn(buffer, "\n")`
unfoldable pub strcspn : Text → ℕ
strcspn [] = 0
strcspn (b ∷ bs) = if (b == b'\n') || (b == 0) then 0 else suc (strcspn bs)

-- The buffer after `memset`, `read` and `buffer[strcspn(buffer, "\n")] = '\0'`.
unfoldable pub cut_buffer : Text → Text
unfolding strcspn
cut_buffer received = let buffer = pad buffer_size received in set buffer (strcspn buffer) 0

-- "收到非法 UTF-8 数据\n"
abbrev pub err_msg : Text
err_msg =
    0xe6 ∷ 0x94 ∷ 0xb6 ∷ 0xe5 ∷ 0x88 ∷ 0xb0 ∷ 0xe9 ∷ 0x9d ∷ 0x9e ∷ 0xe6 ∷ 0xb3 ∷ 0x95 ∷ 0x20 ∷ 0x55
    ∷ 0x54 ∷ 0x46 ∷ 0x2d ∷ 0x38 ∷ 0x20 ∷ 0xe6 ∷ 0x95 ∷ 0xb0 ∷ 0xe6 ∷ 0x8d ∷ 0xae ∷ 0xa ∷ []

-- "服务端已收到："
abbrev pub reply_prefix : Text
reply_prefix =
    0xe6 ∷ 0x9c ∷ 0x8d ∷ 0xe5 ∷ 0x8a ∷ 0xa1 ∷ 0xe7 ∷ 0xab ∷ 0xaf ∷ 0xe5 ∷ 0xb7 ∷ 0xb2 ∷ 0xe6 ∷ 0x94
    ∷ 0xb6 ∷ 0xe5 ∷ 0x88 ∷ 0xb0 ∷ 0xef ∷ 0xbc ∷ 0x9a ∷ []

-- `snprintf(reply, BUFFER_SIZE, "…%s\n", buffer)`, as the text that `strlen` measures.
unfoldable pub reply_to : Text → Text
reply_to text = take (buffer_size - 1) (reply_prefix ++ (text ++ (b'\n' ∷ [])))

abbrev pub send : Text → Method Client (Unit {0})
send text c = returns tt (record c { sent = c.sent ++ (text ∷ []) })

-- From `mbstowcs` to the end of a round.
abbrev pub answer : (Text → Bool) → Option Text → Method Client (Unit {0})
answer valid none c = undefined
answer valid (some text) c = send (if valid text then reply_to text else err_msg) c

-- The rounds of `while (1)` in `handle_client`.
unfoldable pub serve : (Text → Bool) → List Received → Method Client (Unit {0})
unfolding cut_buffer reply_to
serve valid [] c = blocks c
serve valid (bytes received ∷ more) c =
    (answer valid (c_string (cut_buffer received)) >> serve valid more) c
serve valid (ended ∷ more) c = returns tt c
serve valid (failed ∷ more) c = returns tt c

-- `handle_client`, for a client's descriptor.
unfoldable pub handle_client : (Text → Bool) → ℕ → List Received → Method Client (Unit {0})
unfolding serve
handle_client valid client_fd reads =
    serve valid reads >>= λ _ c. returns tt (record c { closed = c.closed ++ (client_fd ∷ []) })

-- What the calls of `main` return before its loop.
pub record Setup : Type 0 where
  pub socket_ok : Bool
  pub setsockopt_ok : Bool
  pub bind_ok : Bool
  pub listen_ok : Bool

-- The descriptors for which a thread runs `handle_client`, and the closed ones.
pub record Server : Type 0 where
  pub threads : List ℕ
  pub closed : List ℕ

-- `accept` gives a descriptor or fails; then `pthread_create` succeeds or not. In the second case
-- `pthread_detach` is called with a `thread_id` that nothing has set.
unfoldable pub accept_loop : List (Option (ℕ × Bool)) → Method Server ℕ
accept_loop [] s = blocks s
accept_loop (none ∷ more) s = accept_loop more s
accept_loop (some (new_fd, true) ∷ more) s =
    accept_loop more (record s { threads = s.threads ++ (new_fd ∷ []) })
accept_loop (some (new_fd, false) ∷ more) s = undefined

-- `perror(…); exit(EXIT_FAILURE);`: the result is the status.
abbrev pub or_exit : Bool → Method Server ℕ → Method Server ℕ
or_exit ok next = if ok then next else pure 1

-- `main()`
unfoldable pub main : Setup → List (Option (ℕ × Bool)) → Method Server ℕ
unfolding accept_loop
main setup accepts = or_exit setup.socket_ok (
    or_exit setup.setsockopt_ok
      (or_exit setup.bind_ok (or_exit setup.listen_ok (accept_loop accepts))))
