-- ===== src/Log/Opening.antt =====
-- log/log.cpp, `init`: the names, and the first file.
use simplechatserver.Prelude.{
  ℕ, zero, suc, ◌<◌, ◌≡◌, refl, sym, ap, ◌∙◌, subst, inl, inr, Bool, Bool-cases, Option, some, [],
  ◌∷◌, ◌++◌, append-nil, length, length-replicate, take, take-all, lt→ltb, arith, ℤ, pos, negsuc,
  returns, zeros, pad, IsText, copy_at, copy_at-pad, c_string, c_string-pad, c_string-copy_string,
}
use simplechatserver.LogText.{Text, Moment, stamp, split_last, print_into}
use simplechatserver.LogText.Names.{split_last-append}
use simplechatserver.Log.{
  Log, new_log, init, opened, is_open, open_named, name_file, start_async, store_names,
}
use simplechatserver.Log.Writing.{HasBuffer}

IsText_front : (xs ys : Text) → IsText (xs ++ ys) → IsText xs
IsText_front [] ys t = tt
IsText_front (x ∷ xs) ys t = (t.0, IsText_front xs ys t.1)

IsText_back : (xs ys : Text) → IsText (xs ++ ys) → IsText ys
IsText_back [] ys t = t
IsText_back (x ∷ xs) ys t = IsText_back xs ys t.1

pub print_name : (text : Text) → length text < 256 → print_into 256 300 text ≡ some text
print_name text h =
    let whole : take 299 text ≡ text = take-all 299 text (omega arith) in
    rw whole (rw (lt→ltb (length text) 256 (omega arith)))

-- A new logger's names hold nothing yet.
abbrev pub Unnamed : Log → Type 0
Unnamed c = (c.dir_name ≡ zeros 128) × (c.log_name ≡ zeros 128)

store_names_lem :
    (dir name : Text) (c : Log)
    → Unnamed c
    → IsText name
    → length dir < 128
    → length name < 128
    → (log_name : Text) × (store_names dir name c
        ≡ some (record c { log_name = log_name; dir_name = pad 128 dir }))
      × (c_string log_name ≡ some name)
store_names_lem dir name c (d, n) t hd hn =
    let (buf, copied, held, _) =
      c_string-copy_string name (zeros 128) t (omega (arith, length-replicate {A = ℕ} 128 0)) in
    let filled : copy_at 0 dir (zeros 128) ≡ some (pad 128 dir) =
      copy_at-pad 128 [] dir (omega arith) in
    (buf, rw (d, n) (rw copied (rw filled)), held)

name_file_lem :
    (now : Moment) (file dir name : Text) (c : Log)
    → split_last file ≡ some (dir, name)
    → Unnamed c
    → IsText dir
    → IsText name
    → length dir < 128
    → length name < 128
    → length (dir ++ (stamp now ++ name)) < 256
    → (log_name : Text) × (name_file file now c
        ≡ some
            (dir ++ (stamp now ++ name), record c { log_name = log_name; dir_name = pad 128 dir }))
      × (c_string log_name ≡ some name)
name_file_lem now file dir name c e fresh td tn hd hn fits =
    let (log_name, stored, held) = store_names_lem dir name c fresh tn hd hn in
    (
      log_name,
      rw (e, name_file)
          (rw stored (
            rw (c_string-pad 128 dir td hd, held, append-nil name)
              (rw (print_name (dir ++ (stamp now ++ name)) fits)))),
      held,
    )

pub start_async-Unnamed : (n : ℤ) → Unnamed (start_async n new_log)
unfolding new_log
start_async-Unnamed (pos zero) = (refl, refl)
start_async-Unnamed (pos (suc n)) = (refl, refl)
start_async-Unnamed (negsuc n) = (refl, refl)

is_open-opened : (opens : Text → Bool) (name : Text) → is_open (opened opens name) ≡ opens name
is_open-opened opens name = elim (Bool-cases (opens name)) [ inl e ↦ rw e | inr e ↦ rw e ]

-- A new logger when `init` comes to the names, and when it returns.
unfoldable pub set_up : ℤ → ℤ → ℤ → ℕ → Log
unfolding new_log
set_up close_log split_lines max_queue_size size = record (start_async max_queue_size new_log) {
  m_close_log = close_log;
  m_log_buf_size = size;
  m_buf = zeros size;
  m_split_lines = split_lines;
}

abbrev pub named : Text → Text → ℕ → Option Text → Log → Log
named dir log_name today fp c = record c {
  log_name = log_name;
  dir_name = pad 128 dir;
  m_today = today;
  m_fp = fp;
}

pub init-returns :
    (opens : Text → Bool) (now : Moment) (file dir name : Text)
    (close_log split_lines max_queue_size : ℤ) (size : ℕ)
    → split_last file ≡ some (dir, name)
    → IsText file
    → length dir < 128
    → length name < 128
    → length (dir ++ (stamp now ++ name)) < 256
    → let full = dir ++ (stamp now ++ name) in
      (log_name : Text) × (init opens now file close_log
          (pos size)
          split_lines
          max_queue_size
          new_log
        ≡ returns (opens full) (
            named dir log_name now.day
              (opened opens full)
              (set_up close_log split_lines max_queue_size size)))
      × (c_string log_name ≡ some name)
      × (c_string (pad 128 dir) ≡ some dir)
      × (dir ++ name ≡ file)
unfolding init new_log set_up
init-returns opens now file dir name close_log split_lines max_queue_size size e t hd hn fits =
    let (joined, _) = split_last-append file dir name e in
    let whole : IsText (dir ++ name) = subst IsText (sym joined) t in
    let td = IsText_front dir name whole in
    let full = dir ++ (stamp now ++ name) in
    let c0 = set_up close_log split_lines max_queue_size size in
    let (log_name, file_named, held) =
      name_file_lem now file dir name c0 e (start_async-Unnamed max_queue_size) td
        (IsText_back dir name whole) hd hn fits in
    (
      log_name,
      ap (open_named opens now) file_named
          ∙ ap (λ b. returns b (named dir log_name now.day (opened opens full) c0))
              (is_open-opened opens full),
      held,
      c_string-pad 128 dir td hd,
      joined,
    )

-- `init` on a new logger, with a file name that has a slash, parts of at most 127 bytes and room
-- for the whole name: it returns whether the file opens; the file is in the directory, named by the
-- date and the name; the two parts put together are the name that was given; and the buffer has the
-- size that was asked for.
pub init-opens :
    (opens : Text → Bool) (now : Moment) (file dir name : Text)
    (close_log split_lines max_queue_size : ℤ) (size : ℕ)
    → split_last file ≡ some (dir, name)
    → IsText file
    → length dir < 128
    → length name < 128
    → length (dir ++ (stamp now ++ name)) < 256
    → let full = dir ++ (stamp now ++ name) in
      (c : Log) × (init opens now file close_log (pos size) split_lines max_queue_size new_log
        ≡ returns (opens full) c)
      × (c.m_fp ≡ opened opens full)
      × (c_string c.dir_name ≡ some dir)
      × (c_string c.log_name ≡ some name)
      × (dir ++ name ≡ file)
      × (c.m_today ≡ now.day)
      × HasBuffer c
unfolding set_up
init-opens opens now file dir name close_log split_lines max_queue_size size e t hd hn fits =
    let (log_name, ran, held, dir_held, joined) =
      init-returns opens now file dir name close_log split_lines max_queue_size size e t hd hn
        fits in
    (_, ran, refl, dir_held, held, joined, refl, length-replicate size 0)
