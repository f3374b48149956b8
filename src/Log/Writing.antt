-- ===== src/Log/Writing.antt =====
-- log/log.cpp, `write_log`: when a line fits the buffer.
use simplechatserver.Prelude.{
  zero, suc, ◌+◌, ◌-◌, ◌≤◌, ◌<◌, ◌≡◌, ap, ◌∙◌, ◌⊎◌, inl, inr, Bool-cases, [], ◌∷◌, ◌++◌, length,
  not-ltb→le, ltb, ltb→lt, arith, ℤ, pos, negsuc, returns, undefined, IsText,
}
use simplechatserver.LogText.{Text, Moment, header, size_minus}
use simplechatserver.LogText.Lines.{compose_line-fits, compose_line-overflows}
use simplechatserver.LogText.Arrays.{size_minus-le}
use simplechatserver.LogText.Header.{IsCalendar, header-IsText, length-header}
use simplechatserver.Log.{Log, level_text, format_line, take_line}

level_text-fits : (level : ℤ) → IsText (level_text level) × (length (level_text level) ≤ 8)
level_text-fits (pos zero) = omega arith
level_text-fits (pos (suc zero)) = omega arith
level_text-fits (pos (suc (suc zero))) = omega arith
level_text-fits (pos (suc (suc (suc zero)))) = omega arith
level_text-fits (pos (suc (suc (suc (suc n))))) = omega arith
level_text-fits (negsuc n) = omega arith

-- `m_buf` has `m_log_buf_size` bytes.
abbrev pub HasBuffer : Log → Type 0
HasBuffer c = length c.m_buf ≡ c.m_log_buf_size

-- Formatting a message at a calendar date: if the header, the message, the "\n" and a zero fit
-- `m_buf`, the line is the three together; if not, an index leaves the array.
pub format_line_cases :
    (now : Moment) (level : ℤ) (msg : Text) (c : Log)
    → HasBuffer c
    → IsCalendar now
    → IsText msg
    → let head = header now (level_text level) in
      ((length head + length msg + 2 ≤ c.m_log_buf_size)
        × ((buf : Text) × (format_line now level msg c
              ≡ returns ((head ++ msg) ++ (b'\n' ∷ [])) (record c { m_buf = buf }))
            × (length buf ≡ c.m_log_buf_size)))
      ⊎ ((c.m_log_buf_size < length head + length msg + 2)
          × (format_line now level msg c ≡ undefined))
unfolding format_line
format_line_cases now level msg c sized date text =
    let head = header now (level_text level) in
    let n = length head in
    let size = c.m_log_buf_size in
    let (tag, small) = level_text-fits level in
    let short : n ≤ 28 + length (level_text level) = length-header now (level_text level) date in
    elim (Bool-cases (ltb size (n + length msg + 2))) [
      | inl over ↦
          let past : size < n + length msg + 2 = ltb→lt _ _ over in
          inr (
            past,
            ap (λ o. take_line o c)
                (compose_line-overflows 48 (size_minus size (n + 1)) head msg c.m_buf
                  (omega (arith, sized))),
          )
      | inr fits ↦
          let room : n + length msg + 2 ≤ size = not-ltb→le _ _ fits in
          let left : size_minus size (n + 1) ≡ size - (n + 1) =
            size_minus-le size (n + 1) (omega arith) in
          let (buf, made, kept) =
            compose_line-fits 48 (size_minus size (n + 1)) head msg c.m_buf
              (header-IsText now (level_text level) tag) text (omega arith) (omega (arith, left))
              (omega (arith, sized)) in
          inl (room, (buf, ap (λ o. take_line o c) made, kept ∙ sized))
    ]
