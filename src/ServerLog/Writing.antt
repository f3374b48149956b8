-- ===== src/ServerLog/Writing.antt =====
-- log/serverlog.cpp, `write_log`: when a line fits the buffer.
use simplechatserver.Prelude.{
  ℕ, zero, suc, ◌+◌, ◌-◌, ◌≤◌, ◌<◌, ◌≡◌, ap, ◌∙◌, [], ◌∷◌, ◌++◌, length, take, arith, ℤ, pos,
  negsuc, returns, undefined, IsText,
}
use simplechatserver.LogText.{Text, Moment, header, size_minus, compose_line}
use simplechatserver.LogText.Lines.{compose_line-fits, compose_line_cuts, compose_line-overflows}
use simplechatserver.LogText.Arrays.{size_minus-le}
use simplechatserver.LogText.Header.{IsCalendar, header-IsText}
use simplechatserver.ServerLog.{ServerLog, level_text, format_line, take_line}

level_text-fits : (level : ℤ) → IsText (level_text level) × (length (level_text level) ≤ 7)
level_text-fits (pos zero) = omega arith
level_text-fits (pos (suc zero)) = omega arith
level_text-fits (pos (suc (suc zero))) = omega arith
level_text-fits (pos (suc (suc (suc zero)))) = omega arith
level_text-fits (pos (suc (suc (suc (suc n))))) = omega arith
level_text-fits (negsuc n) = omega arith

-- `m_buf` has `m_log_buf_size` bytes.
abbrev pub HasBuffer : ServerLog → Type 0
HasBuffer c = length c.m_buf ≡ c.m_log_buf_size

module _ (now : Moment) (level : ℤ) (c : ServerLog) (sized : HasBuffer c)
    (date : IsCalendar now) where
  -- The time and the level in front of a message.
  abbrev pub head_of : Text
  head_of = header now (level_text level)

  -- Formatting a message that leaves three bytes of the buffer or more: the line is the header, the
  -- message and "\n".
  pub format_line-fits :
      (msg : Text)
      → IsText msg
      → length head_of + length msg + 2 < c.m_log_buf_size
      → (buf : Text) × (format_line now level msg c
          ≡ returns ((head_of ++ msg) ++ (b'\n' ∷ [])) (record c { m_buf = buf }))
        × (length buf ≡ c.m_log_buf_size)
  unfolding format_line
  format_line-fits msg text room =
      let (tag, small) = level_text-fits level in
      let size = c.m_log_buf_size in
      let n = length head_of in
      let first : size_minus size 1 ≡ size - 1 = size_minus-le size 1 (omega arith) in
      let left : size_minus size (n + 2) ≡ size - (n + 2) =
        size_minus-le size (n + 2) (omega arith) in
      let (buf, made, kept) =
        compose_line-fits (size_minus size 1) (size_minus size (n + 2)) head_of msg c.m_buf
          (header-IsText now _ tag) text (omega (arith, first)) (omega (arith, left))
          (omega (arith, sized)) in
      (buf, ap (λ o. take_line o c) made, kept ∙ sized)

  -- Formatting a message, not empty, that leaves two bytes of the buffer, the place of "\n" and a
  -- zero: the line lacks the last byte of the message and the "\n".
  pub format_line_cuts :
      (k : ℕ) (msg : Text)
      → IsText msg
      → length msg ≡ suc k
      → length head_of + length msg + 2 ≡ c.m_log_buf_size
      → (buf : Text) × (format_line now level msg c
          ≡ returns (head_of ++ take k msg) (record c { m_buf = buf }))
        × (length buf ≡ c.m_log_buf_size)
  unfolding format_line
  format_line_cuts k msg text long room =
      let (tag, small) = level_text-fits level in
      let size = c.m_log_buf_size in
      let n = length head_of in
      let first : size_minus size 1 ≡ size - 1 = size_minus-le size 1 (omega arith) in
      let left : size_minus size (n + 2) ≡ suc k =
        size_minus-le size (n + 2) (omega arith) ∙ omega arith in
      let (buf, made, kept) =
        compose_line_cuts (size_minus size 1) k head_of msg c.m_buf (header-IsText now _ tag) text
          (omega (arith, first)) long (omega (arith, sized)) in
      (
        buf,
        ap (λ b. take_line (compose_line (size_minus size 1) b head_of msg c.m_buf) c) left
            ∙ ap (λ o. take_line o c) made,
        kept ∙ sized,
      )

  -- Formatting a message that leaves less than two bytes of the buffer: an index leaves it.
  pub format_line_overflows :
      (msg : Text)
      → c.m_log_buf_size < length head_of + length msg + 2
      → format_line now level msg c ≡ undefined
  unfolding format_line
  format_line_overflows msg past =
      ap (λ o. take_line o c)
        (compose_line-overflows _ _ head_of msg c.m_buf (omega (arith, sized)))
