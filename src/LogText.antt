-- ===== src/LogText.antt =====
-- What the two loggers, log/log.cpp and log/serverlog.cpp, share: the time of day as text, file
-- names, and `snprintf` into a C array.
pub mod Names
pub mod Arrays
pub mod Lines
pub mod Parts
pub mod Header
use mathlib.Core.Option
use simplechatserver.Prelude.{
  ℕ, zero, suc, ◌+◌, ◌-◌, ◌/◌, ◌%◌, ◌^◌, Bool, true, false, Option, none, some, List, [], ◌∷◌, ◌++◌,
  length, take, set, leb, ltb, ◌==◌, if◌then◌else◌, ℤ, pos, negsuc, codes, decimal, padded, copy_at,
  c_string,
}

abbrev pub Text : Type 0
Text = List ℕ

-- A `struct tm` and the microseconds: the year in full, the month from 1.
pub record Moment : Type 0 where
  pub year : ℕ
  pub month : ℕ
  pub day : ℕ
  pub hour : ℕ
  pub minute : ℕ
  pub second : ℕ
  pub usec : ℕ

-- "%d_%02d_%02d_"
unfoldable pub stamp : Moment → Text
unfolding decimal padded
stamp t = decimal t.year ++ (b'_' ∷ (padded 2 t.month ++ (b'_' ∷ (padded 2 t.day ++ (b'_' ∷ [])))))

-- "%d-%02d-%02d %02d:%02d:%02d.%06ld %s "
unfoldable pub header : Moment → Text → Text
unfolding decimal padded
header t tag =
    decimal t.year
    ++ (b'-'
        ∷ (padded 2 t.month
            ++ (b'-'
                ∷ (padded 2 t.day
                    ++ (b' '
                        ∷ (padded 2 t.hour
                            ++ (b':'
                                ∷ (padded 2 t.minute
                                    ++ (b':'
                                        ∷ (padded 2 t.second
                                            ++ (b'.'
                                                ∷ (padded 6 t.usec
                                                    ++ (b' ' ∷ (tag ++ (b' ' ∷ [])))))))))))))))

-- `strrchr(file_name, '/')`: what stands up to the last slash, it included, and what follows.
unfoldable pub split_last : Text → Option (Text × Text)
split_last [] = none
split_last (c ∷ s) = elim (split_last s) [
  | some (dir, name) ↦ some (c ∷ dir, name)
  | none ↦ if c == b'/' then some (c ∷ [], s) else none
]

-- `snprintf(array, size, …)` into a fresh array of `capacity` bytes, as the text that it then
-- holds: `none` if it does not fit.
abbrev pub print_into : ℕ → ℕ → Text → Option Text
print_into capacity size text =
    let written = take (size - 1) text in
    if ltb (length written) capacity then some written else none

-- `snprintf(buf + at, size, …)`: at most `size` bytes with the terminator, none for size 0.
unfoldable pub snprintf_at : ℕ → ℕ → Text → Text → Option Text
unfolding copy_at
snprintf_at at zero text buf = some buf
snprintf_at at (suc n) text buf = copy_at at (take n text ++ (0 ∷ [])) buf

-- `buf[i] = v`
abbrev pub put : ℕ → ℕ → Text → Option Text
put i v buf = if ltb i (length buf) then some (set buf i v) else none

-- `a - b` on `int`, passed as a `size_t`.
abbrev pub size_minus : ℕ → ℕ → ℕ
size_minus a b = if leb b a then a - b else 2 ^ 64 - (b - a)

-- `m_count % m_split_lines == 0`; a division by zero is `none`.
abbrev pub divides : ℤ → ℕ → Option Bool
divides (pos zero) count = none
divides (pos (suc n)) count = some (count % suc n == 0)
divides (negsuc n) count = some (count % suc n == 0)

-- "%lld" of `m_count / m_split_lines`
abbrev pub quotient_text : ℤ → ℕ → Text
quotient_text (pos n) count = decimal (count / n)
quotient_text (negsuc n) count =
    if count / suc n == 0 then decimal 0 else b'-' ∷ decimal (count / suc n)

abbrev pub and_then {ℓ κ} : {A : Type ℓ} {B : Type κ} → Option A → (A → Option B) → Option B
and_then none f = none
and_then (some a) f = f a

-- `buf[i] = '\n'; buf[i + 1] = '\0'; log_str = buf;`
abbrev pub finish_line : ℕ → Text → Option (Text × Text)
finish_line i buf =
    and_then (put i b'\n' buf) λ buf1.
      and_then (put (i + 1) 0 buf1) λ buf2. Option.map (λ line. (line, buf2)) (c_string buf2)

-- The line that a logger makes in its buffer, and the buffer: `head` printed for `head_size` bytes,
-- the message behind it for `body_size`, then "\n" and a zero at the places that the full lengths
-- give. `none` if an index leaves the buffer.
unfoldable pub compose_line : ℕ → ℕ → Text → Text → Text → Option (Text × Text)
unfolding snprintf_at
compose_line head_size body_size head msg buf = and_then (snprintf_at 0 head_size head buf) λ buf1.
    and_then (snprintf_at (length head) body_size msg buf1)
      λ buf2. finish_line (length head + length msg) buf2
