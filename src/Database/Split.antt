-- ===== src/Database/Split.antt =====
-- indexer/internal/db/migrate.go: SplitStatements.
use pulsar_app.Base.{
  ℕ, Bool, false, ◌&&◌, not, List, [], ◌∷◌, ◌++◌, Str, codes, eq_str, ◌==◌, if◌then◌else◌, Result,
  ok, ◌≡◌, ◌≢◌, subst, inl, inr, All, All-append, Bool-cases, contains, has_prefix, split,
  trim_space, >>=-eq-ok, ◌>>◌, fail_if,
}

pub data SplitError : Type 0 where
  dollar_quoted unterminated : SplitError

-- The variables of the loop: `statements`, `current` and `inString`.
pub record Scan : Type 0 where
  pub statements : List Str
  pub current : Str
  pub in_string : Bool

abbrev quote : ℕ
quote = 39

abbrev semicolon : ℕ
semicolon = 59

abbrev newline : ℕ
newline = 10

-- The end of a statement: what was read of it, if it is not blank.
pub flush : Scan → Scan
unfolding trim_space
flush s = record s {
  statements =
      if eq_str (trim_space s.current) (codes "")
      then s.statements
      else s.statements ++ trim_space s.current ∷ [];
  current = codes "";
}

abbrev write : Str → Scan → Scan
write text s = record s { current = s.current ++ text }

-- A byte that does not start a doubled quote.
pub one_byte : ℕ → Scan → Scan
unfolding flush
one_byte c s =
    if c == quote
    then write (c ∷ []) (record s { in_string = not s.in_string })
    else if c == semicolon && not s.in_string
    then flush s
    else write (c ∷ []) s

-- The loop over the bytes of a line.
pub scan_line : Str → Scan → Scan
unfolding one_byte
scan_line [] s = write (newline ∷ []) s
scan_line (c ∷ []) s = write (newline ∷ []) (one_byte c s)
scan_line (c ∷ d ∷ line) s =
    let doubled = scan_line line (write (quote ∷ quote ∷ []) s) in
    let single = scan_line (d ∷ line) (one_byte c s) in
    if c == quote && s.in_string && d == quote then doubled else single

-- The loop over the lines: a comment line outside a string is passed over.
pub scan_lines : List Str → Scan → Scan
unfolding has_prefix trim_space scan_line
scan_lines [] s = s
scan_lines (line ∷ lines) s =
    let read = scan_lines lines (scan_line line s) in
    let passed = scan_lines lines s in
    if not s.in_string && has_prefix (trim_space line) (codes "--") then passed else read

abbrev start : Scan
start = record { statements = []; current = codes ""; in_string = false }

-- The end of the text.
finish : Scan → Result SplitError (List Str)
unfolding flush
finish s = do fail_if s.in_string unterminated; ok (flush s).statements

-- `SplitStatements`
unfoldable pub split_statements : Str → Result SplitError (List Str)
unfolding contains split scan_lines finish
split_statements sql = do
  fail_if (contains sql (codes "$$")) dollar_quoted
  finish (scan_lines (split sql newline) start)

-- No statement is empty.
abbrev pub Texts : List Str → Type 0
Texts ss = All (λ s. s ≢ codes "") ss

flush-Texts : (s : Scan) → Texts s.statements → Texts (flush s).statements
unfolding flush
flush-Texts s h = elim (Bool-cases (eq_str (trim_space s.current) (codes ""))) [
  | inl e ↦ rw e h
  | inr e ↦ rw e (All-append _ s.statements _ h (not_empty (trim_space s.current) e, tt))
]
  where
    not_empty : (t : Str) → eq_str t (codes "") ≡ false → t ≢ codes ""
    not_empty [] f k = cc
    not_empty (c ∷ t) f k = cc

one_byte-Texts : (c : ℕ) (s : Scan) → Texts s.statements → Texts (one_byte c s).statements
unfolding one_byte
one_byte-Texts c s h = elim (Bool-cases (c == quote)) [
  | inl e ↦ rw e h
  | inr e ↦ elim (Bool-cases (c == semicolon && not s.in_string)) [
    | inl f ↦ rw (e, f) (flush-Texts s h)
    | inr f ↦ rw (e, f) h
  ]
]

scan_line-Texts : (line : Str) (s : Scan) → Texts s.statements → Texts (scan_line line s).statements
unfolding scan_line
scan_line-Texts [] s h = h
scan_line-Texts (c ∷ []) s h = one_byte-Texts c s h
scan_line-Texts (c ∷ d ∷ line) s h = elim (Bool-cases (c == quote && s.in_string && d == quote)) [
  | inl e ↦ rw e (scan_line-Texts line (write (quote ∷ quote ∷ []) s) h)
  | inr e ↦ rw e (scan_line-Texts (d ∷ line) (one_byte c s) (one_byte-Texts c s h))
]

scan_lines-Texts :
    (lines : List Str) (s : Scan) → Texts s.statements → Texts (scan_lines lines s).statements
unfolding scan_lines
scan_lines-Texts [] s h = h
scan_lines-Texts (line ∷ lines) s h =
    elim (Bool-cases (not s.in_string && has_prefix (trim_space line) (codes "--"))) [
      | inl e ↦ rw e (scan_lines-Texts lines s h)
      | inr e ↦ rw e (scan_lines-Texts lines (scan_line line s) (scan_line-Texts line s h))
    ]

-- Every statement that a file is split into has some text.
pub split_statements-Texts : (sql : Str) {ss : List Str} → split_statements sql ≡ ok ss → Texts ss
unfolding split_statements finish
split_statements-Texts sql {ss} h =
    let (u, hu, k) = >>=-eq-ok (fail_if (contains sql (codes "$$")) dollar_quoted) _ h in
    let (v, hv, l) =
      >>=-eq-ok (fail_if (scan_lines (split sql newline) start).in_string unterminated) _ k in
    let same : (flush (scan_lines (split sql newline) start)).statements ≡ ss = cc in
    subst Texts same (
      flush-Texts (scan_lines (split sql newline) start)
        (scan_lines-Texts (split sql newline) start tt))
