-- ===== src/Status/Answer.antt =====
-- What `ParseOutcomingError` reads from an answer.
use mathlib.Core.List.{reverse-append, reverse-reverse}
use smtprelay.Base.{
  ℕ, ◌+◌, ◌/◌, ◌%◌, ◌≤◌, ◌≡◌, refl, ◌∙◌, ap, ◌↔◌, inl, inr, ℤ, pos, negsuc, true, false, some, List,
  [], ◌∷◌, ◌++◌, reverse, arith, ltb, length, Bool-cases, Option-cases, Bytes, is_space, trim_space,
  split_n2,
}
use smtprelay.Status.{
  SmtpError, atoi, answer_of, parse_trimmed, parse_outcoming_error, is_permanent,
}

-- A text that starts and ends with something else than white space is not trimmed.
trim_space_ends :
    (c d : ℕ) (s : Bytes)
    → is_space c ≡ false
    → is_space d ≡ false
    → trim_space (c ∷ s ++ d ∷ []) ≡ c ∷ s ++ d ∷ []
unfolding trim_space
trim_space_ends c d s hc hd =
    let back : reverse (c ∷ s ++ d ∷ []) ≡ d ∷ reverse (c ∷ s) = reverse-append (c ∷ s) (d ∷ []) in
    rw (hc, back, hd, ← back) (reverse-reverse (c ∷ s ++ d ∷ []))

-- The answer of a server as `textproto.Error` prints it: three digits, a space and a text.
abbrev pub answer_text : ℕ → Bytes → Bytes
answer_text n msg = (b'0' + n / 100) ∷ (b'0' + n / 10 % 10) ∷ (b'0' + n % 10) ∷ b' ' ∷ msg

code_read :
    (n : ℕ)
    → n ≤ 999
    → atoi ((b'0' + n / 100) ∷ (b'0' + n / 10 % 10) ∷ (b'0' + n % 10) ∷ []) ≡ some (pos n)
unfolding atoi
code_read n h = ground arith

first_word :
    (a b c : ℕ) (msg : Bytes)
    → b'0' ≤ a
    → b'0' ≤ b
    → b'0' ≤ c
    → split_n2 b' ' (a ∷ b ∷ c ∷ b' ' ∷ msg) ≡ (a ∷ b ∷ c ∷ []) ∷ msg ∷ []
unfolding split_n2
first_word a b c msg ha hb hc = ground arith

answer_trimmed :
    (n : ℕ) (msg : Bytes)
    → n ≤ 999
    → parse_trimmed (answer_text n msg) ≡ record { code = pos n; message = msg }
unfolding parse_trimmed
answer_trimmed n msg h =
    ground
      (arith, first_word (b'0' + n / 100) (b'0' + n / 10 % 10) (b'0' + n % 10) msg, code_read n h)

outcoming_trimmed : (str : Bytes) → parse_outcoming_error str ≡ parse_trimmed (trim_space str)
unfolding parse_outcoming_error
outcoming_trimmed str = refl

answer_read :
    (n d : ℕ) (msg : Bytes)
    → n ≤ 999
    → is_space d ≡ false
    → parse_outcoming_error (answer_text n (msg ++ d ∷ []))
      ≡ record { code = pos n; message = msg ++ d ∷ [] }
answer_read n d msg h hd =
    outcoming_trimmed (answer_text n (msg ++ d ∷ []))
    ∙ ap parse_trimmed (
        trim_space_ends (b'0' + n / 100) d ((b'0' + n / 10 % 10) ∷ (b'0' + n % 10) ∷ b' ' ∷ msg)
          (ground arith) hd)
    ∙ answer_trimmed n (msg ++ d ∷ []) h

permanent_range :
    (n : ℕ) (msg : Bytes)
    → (is_permanent (record { code = pos n; message = msg }) ≡ true) ↔ ((500 ≤ n) × (n ≤ 599))
unfolding is_permanent
permanent_range n msg = ground arith

-- The answer of a server, a code of at most three digits and a text that does not end in white space,
-- is read back as that code and that text; it is permanent exactly when the code is from 500 to 599.
pub parse_outcoming_error_answer :
    (n d : ℕ) (msg : Bytes)
    → n ≤ 999
    → is_space d ≡ false
    → (parse_outcoming_error (answer_text n (msg ++ d ∷ []))
        ≡ record { code = pos n; message = msg ++ d ∷ [] })
      × ((is_permanent (parse_outcoming_error (answer_text n (msg ++ d ∷ []))) ≡ true)
          ↔ ((500 ≤ n) × (n ≤ 599)))
parse_outcoming_error_answer n d msg h hd =
    (answer_read n d msg h hd, rw (answer_read n d msg h hd) (permanent_range n _))

-- The first word of an answer, without the white space around it.
abbrev pub head_word : List Bytes → Bytes
head_word [] = []
head_word (w ∷ ws) = w

permanent_code :
    (e : SmtpError) → is_permanent e ≡ true → (n : ℕ) × (e.code ≡ pos n) × (500 ≤ n) × (n ≤ 599)
unfolding is_permanent
permanent_code e h = code_cases e.code e.message h
  where
    code_cases :
        (c : ℤ) (m : Bytes)
        → is_permanent (record { code = c; message = m }) ≡ true
        → (n : ℕ) × (c ≡ pos n) × (500 ≤ n) × (n ≤ 599)
    code_cases (pos n) m h = (n, refl, ground arith, ground arith)
    code_cases (negsuc n) m h = absurd (ground arith)

answer_permanent :
    (str : Bytes) (parts : List Bytes)
    → is_permanent (answer_of str parts) ≡ true
    → (n : ℕ) × (atoi (head_word parts) ≡ some (pos n)) × (500 ≤ n) × (n ≤ 599)
unfolding answer_of
answer_permanent str [] h = absurd (unfold is_permanent in ground arith)
answer_permanent str (w ∷ ws) h = elim (Option-cases (atoi w)) [
  | inl unread ↦ absurd (unfold is_permanent in ground arith)
  | inr (c, read) ↦
      let (n, same, low, high) = permanent_code (answer_of str (w ∷ ws)) h in
      (n, ground arith, low, high)
]

trimmed_long :
    (s : Bytes)
    → ltb (length s) 3 ≡ false
    → is_permanent (parse_trimmed s) ≡ true
    → is_permanent (answer_of s (split_n2 b' ' s)) ≡ true
unfolding parse_trimmed
trimmed_long s long h = ground arith

-- Only a text whose first word is a number from 500 to 599 is taken for a permanent error; all else,
-- and a text of fewer than three bytes, is not.
pub permanent_only :
    (str : Bytes)
    → is_permanent (parse_outcoming_error str) ≡ true
    → (n : ℕ) × (atoi (head_word (split_n2 b' ' (trim_space str))) ≡ some (pos n))
      × (500 ≤ n)
      × (n ≤ 599)
      × (3 ≤ length (trim_space str))
permanent_only str h = elim (Bool-cases (ltb (length (trim_space str)) 3)) [
  | inl short ↦ absurd (unfold is_permanent parse_trimmed in ground (arith, outcoming_trimmed str))
  | inr long ↦
      let read : is_permanent (answer_of (trim_space str) (split_n2 b' ' (trim_space str))) ≡ true =
        trimmed_long (trim_space str) long (rw outcoming_trimmed at h) in
      let (n, w, low, high) =
        answer_permanent (trim_space str) (split_n2 b' ' (trim_space str)) read in
      (n, w, low, high, ground arith)
]
