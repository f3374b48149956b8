-- ===== src/LogText/Lines.antt =====
-- When the line that a logger makes fits its buffer, and what happens when it does not.
use mathlib.Core.Path.{ap₂}
use mathlib.Core.Option
use simplechatserver.Prelude.{
  ℕ, zero, suc, ◌+◌, ◌-◌, ◌≤◌, ◌<◌, ◌≡◌, refl, sym, ap, ◌∙◌, Option, none, some, [], ◌∷◌, ◌++◌,
  append-nil, append_assoc, length, length-append, length-set, length-drop, take, length-take,
  take-all, drop, set, arith, copy_at, c_string, c_string-terminated, IsText,
}
use simplechatserver.LogText.{Text, snprintf_at, put, compose_line, finish_line, and_then}
use simplechatserver.LogText.Arrays.{
  IsText-append, snprintf_at-length, put-length, put_outside, put-append, snprintf_at-append,
}

-- The array after both prints: the head, the message, a zero, and what was there.
printed : Text → Text → Text → Text
printed head msg rest = (head ++ msg) ++ (0 ∷ rest)

print_head :
    (n : ℕ) (head buf : Text)
    → length head < n
    → length head < length buf
    → snprintf_at 0 n head buf ≡ some (printed head [] (drop (suc (length head)) buf))
unfolding printed
print_head n head buf h k =
    let long : length (head ++ (0 ∷ [])) ≡ suc (length head) =
      omega (arith, length-append head (0 ∷ [])) in
    snprintf_at-append n [] head buf h k
    ∙ ap₂ (λ l i. some (l ++ drop i buf)) (ap (λ t. t ++ (0 ∷ [])) (sym (append-nil head))) long
    ∙ ap some (append_assoc (head ++ []) (0 ∷ []) (drop (suc (length head)) buf))

print_message :
    (n : ℕ) (head msg rest : Text)
    → length msg < n
    → length msg ≤ length rest
    → snprintf_at (length head) n msg (printed head [] rest)
      ≡ some (printed head msg (drop (length msg) rest))
unfolding printed
print_message n head msg rest h k =
    let long : length (msg ++ (0 ∷ [])) ≡ suc (length msg) =
      omega (arith, length-append msg (0 ∷ [])) in
    ap (λ l. snprintf_at (length head) n msg (l ++ (0 ∷ rest))) (append-nil head)
    ∙ snprintf_at-append n head msg (0 ∷ rest) h (omega arith)
    ∙ ap (λ i. some (head ++ ((msg ++ (0 ∷ [])) ++ drop i (0 ∷ rest)))) long
    ∙ ap (λ l. some (head ++ l)) (append_assoc msg (0 ∷ []) (drop (length msg) rest))
    ∙ ap some (sym (append_assoc head msg (0 ∷ drop (length msg) rest)))

-- The last two writes, and the string that the array then starts with.
finish_fits :
    (head msg rest : Text) (y : ℕ)
    → IsText head
    → IsText msg
    → finish_line (length head + length msg) (printed head msg (y ∷ rest))
      ≡ some ((head ++ msg) ++ (b'\n' ∷ []), (head ++ msg) ++ (b'\n' ∷ 0 ∷ rest))
unfolding printed
finish_fits head msg rest y th tm =
    let i = length head + length msg in
    let front = head ++ msg in
    let long : length front ≡ i = length-append head msg in
    let first : put i b'\n' (front ++ (0 ∷ y ∷ rest)) ≡ some (front ++ (b'\n' ∷ y ∷ rest)) =
      put-append front (0 ∷ y ∷ rest) 0 i b'\n' (omega (arith, long)) (omega arith) in
    let second : put (i + 1) 0 (front ++ (b'\n' ∷ y ∷ rest)) ≡ some (front ++ (b'\n' ∷ 0 ∷ rest)) =
      put-append front (b'\n' ∷ y ∷ rest) 1 (i + 1) 0 (omega (arith, long)) (omega arith) in
    let string : c_string (front ++ (b'\n' ∷ 0 ∷ rest)) ≡ some (front ++ (b'\n' ∷ [])) =
      ap c_string (sym (append_assoc front (b'\n' ∷ []) (0 ∷ rest)))
      ∙ c_string-terminated (front ++ (b'\n' ∷ [])) rest
          (IsText-append front (b'\n' ∷ []) (IsText-append head msg th tm) (omega arith)) in
    rw first (rw second (ap (Option.map (λ line. (line, front ++ (b'\n' ∷ 0 ∷ rest)))) string))

cons_of : (l : Text) → 0 < length l → (y : ℕ) × (l' : Text) × (l ≡ y ∷ l')
cons_of [] h = absurd (omega arith)
cons_of (y ∷ l) h = (y, l, refl)

and_then-none {ℓ κ} :
    {A : Type ℓ} {B : Type κ} (o : Option A) (f : A → Option B)
    → ((a : A) → o ≡ some a → f a ≡ none)
    → and_then o f ≡ none
and_then-none none f h = refl
and_then-none (some a) f h = h a refl

finish_short : (i : ℕ) (buf : Text) → length buf < i + 2 → finish_line i buf ≡ none
finish_short i buf h =
    and_then-none (put i b'\n' buf) _
      λ b e. rw (put_outside (i + 1) 0 b (omega (arith, put-length i b'\n' buf b e)))

-- The line is made in full when the header and the message are shorter than the sizes that they
-- are printed for, and the array has two bytes more than both together.
pub compose_line-fits :
    (head_size body_size : ℕ) (head msg buf : Text)
    → IsText head
    → IsText msg
    → length head < head_size
    → length msg < body_size
    → length head + length msg + 2 ≤ length buf
    → (buf' : Text) × (compose_line head_size body_size head msg buf
        ≡ some ((head ++ msg) ++ (b'\n' ∷ []), buf'))
      × (length buf' ≡ length buf)
unfolding compose_line
compose_line-fits head_size body_size head msg buf th tm h k room =
    let n = length head in
    let i = n + length msg in
    let rest = drop (suc n) buf in
    let left : length rest ≡ length buf - suc n = length-drop (suc n) buf in
    let (y, rest', shape) =
      cons_of (drop (length msg) rest) (omega (arith, left, length-drop (length msg) rest)) in
    (
      (head ++ msg) ++ (b'\n' ∷ 0 ∷ rest'),
      ap (λ o. and_then o λ b. and_then (snprintf_at n body_size msg b) (finish_line i))
            (print_head head_size head buf h (omega arith))
          ∙ ap (λ o. and_then o (finish_line i))
              (print_message body_size head msg rest k (omega (arith, left)))
          ∙ ap (λ r. finish_line i (printed head msg r)) shape
          ∙ finish_fits head msg rest' y th tm,
      omega (
        arith,
        length-append (head ++ msg) (b'\n' ∷ 0 ∷ rest'),
        length-append head msg,
        left,
        length-drop (length msg) rest,
        ap length shape,
      ),
    )

-- When the array has not two bytes more than both together, no line is made: an index leaves it.
pub compose_line-overflows :
    (head_size body_size : ℕ) (head msg buf : Text)
    → length buf < length head + length msg + 2
    → compose_line head_size body_size head msg buf ≡ none
unfolding compose_line
compose_line-overflows head_size body_size head msg buf short =
    and_then-none (snprintf_at 0 head_size head buf) _ λ b1 e1.
      and_then-none (snprintf_at (length head) body_size msg b1) _ λ b2 e2.
        finish_short (length head + length msg) b2 (
          omega (
            arith,
            snprintf_at-length (length head) body_size msg b1 b2 e2,
            snprintf_at-length 0 head_size head buf b1 e1,
          ))

snprintf_at_cut :
    (at n : ℕ) (text buf : Text)
    → snprintf_at at (suc n) text buf ≡ snprintf_at at (suc n) (take n text) buf
unfolding snprintf_at
snprintf_at_cut at n text buf =
    let short : length (take n text) ≤ n = omega (arith, length-take n text) in
    ap (λ t. copy_at at (t ++ (0 ∷ [])) buf) (sym (take-all n (take n text) short))

-- The same writes behind a text that has been cut: they stand behind its zero.
finish_cut :
    (head msg rest : Text) (i : ℕ)
    → IsText head
    → IsText msg
    → i ≡ suc (length head + length msg)
    → 1 < length rest
    → (buf' : Text) × (finish_line i (printed head msg rest) ≡ some (head ++ msg, buf'))
      × (length buf' ≡ length (printed head msg rest))
unfolding printed
finish_cut head msg rest i th tm e room =
    let front = head ++ msg in
    let long : length front ≡ length head + length msg = length-append head msg in
    let once : Text = set (0 ∷ rest) 1 b'\n' in
    let kept : length once ≡ suc (length rest) = length-set (0 ∷ rest) 1 b'\n' in
    let first : put i b'\n' (front ++ (0 ∷ rest)) ≡ some (front ++ once) =
      put-append front (0 ∷ rest) 1 i b'\n' (omega (arith, long)) (omega arith) in
    let second : put (i + 1) 0 (front ++ once) ≡ some (front ++ set once 2 0) =
      put-append front once 2 (i + 1) 0 (omega (arith, long)) (omega (arith, kept)) in
    (
      front ++ set once 2 0,
      rw first (
          rw second (
            ap (Option.map (λ line. (line, front ++ set once 2 0))) (
              c_string-terminated front (set (set rest zero b'\n') 1 0)
                (IsText-append head msg th tm)))),
      omega (
        arith,
        length-append front (set once 2 0),
        length-set once 2 0,
        kept,
        length-append front (0 ∷ rest),
      ),
    )

IsText-take : (n : ℕ) (s : Text) → IsText s → IsText (take n s)
IsText-take zero s t = tt
IsText-take (suc n) [] t = tt
IsText-take (suc n) (c ∷ s) t = (t.0, IsText-take n s t.1)

-- A message exactly as long as the size that it is printed for loses its last byte, and the line
-- its "\n", which stands behind the zero.
pub compose_line_cuts :
    (head_size k : ℕ) (head msg buf : Text)
    → IsText head
    → IsText msg
    → length head < head_size
    → length msg ≡ suc k
    → length head + length msg + 2 ≤ length buf
    → (buf' : Text) × (compose_line head_size (suc k) head msg buf
        ≡ some (head ++ take k msg, buf'))
      × (length buf' ≡ length buf)
unfolding compose_line printed
compose_line_cuts head_size k head msg buf th tm h long room =
    let n = length head in
    let i = n + length msg in
    let cut = take k msg in
    let short : length cut ≡ k = omega (arith, length-take k msg) in
    let rest = drop (suc n) buf in
    let left : length rest ≡ length buf - suc n = length-drop (suc n) buf in
    let last = drop (length cut) rest in
    let left' : length last ≡ length rest - length cut = length-drop (length cut) rest in
    let (buf', finished, kept) =
      finish_cut head cut last i th (IsText-take k msg tm) (omega (arith, short))
        (omega (arith, left, left')) in
    (
      buf',
      ap (λ o. and_then o λ b. and_then (snprintf_at n (suc k) msg b) (finish_line i))
            (print_head head_size head buf h (omega arith))
          ∙ ap (λ o. and_then o (finish_line i))
              (snprintf_at_cut n k msg (printed head [] rest)
                ∙ print_message (suc k) head cut rest (omega (arith, short))
                    (omega (arith, left, short)))
          ∙ finished,
      omega (
        arith,
        kept,
        length-append (head ++ cut) (0 ∷ last),
        length-append head cut,
        left,
        left',
        short,
      ),
    )
