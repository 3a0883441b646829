-- ===== src/Shell/Line.antt =====
-- The line editor of kernel/src/shell.c against an editor on lists.
use osc.Common.{
  ℕ, zero, suc, ◌+◌, ◌-◌, ◌≤◌, ◌<◌, ◌≡◌, refl, ap, sym, ◌∙◌, arith, ◌||◌, List, [], ◌∷◌, ◌++◌, inl,
  inr, Bool-cases, ◌==◌, ltb, if◌then◌else◌, length, length-append, update, update_self, update-ne,
  lt_or_le, lt→ltb, le→ltb,
}
use osc.Common.Int.{ℤ, pos, negsuc}
use osc.Shell.{shell_buf_size, LineState, line_from, shell_key, shell_step, shell_run}

-- The first `n` bytes of the buffer.
abbrev pub typed : (ℕ → ℕ) → ℕ → List ℕ
typed buf zero = []
typed buf (suc n) = typed buf n ++ (buf n ∷ [])

-- An editor on lists: its line, and the lines completed, the last one first.
pub record Editor : Type 0 where
  pub line : List ℕ
  pub lines : List (List ℕ)

unfoldable pub drop_last : List ℕ → List ℕ
drop_last [] = []
drop_last (c ∷ []) = []
drop_last (c ∷ d ∷ cs) = c ∷ drop_last (d ∷ cs)

-- A line is handed over up to a zero byte in it.
unfoldable pub up_to_zero : List ℕ → List ℕ
up_to_zero [] = []
up_to_zero (c ∷ cs) = if c == 0 then [] else c ∷ up_to_zero cs

unfoldable pub edit : Editor → ℕ → Editor
edit e c =
    if c == 10
    then record { line = []; lines = up_to_zero e.line ∷ e.lines }
    else if c == 8 || c == 127
    then record e { line = drop_last e.line }
    else if ltb (length e.line) 127
    then record e { line = e.line ++ (c ∷ []) }
    else e

unfoldable pub edit_all : Editor → List ℤ → Editor
edit_all e [] = e
edit_all e (pos c ∷ cs) = edit_all (edit e c) cs
edit_all e (negsuc n ∷ cs) = edit_all e cs

-- The editor that a state of the shell stands for.
abbrev pub editor_of : LineState → Editor
editor_of s = record { line = typed s.buf s.len; lines = s.lines }

length-typed : (buf : ℕ → ℕ) (n : ℕ) → length (typed buf n) ≡ n
length-typed buf zero = refl
length-typed buf (suc n) =
    omega (arith, length-append (typed buf n) (buf n ∷ []), length-typed buf n)

typed-update : (buf : ℕ → ℕ) (n k c : ℕ) → n ≤ k → typed (update buf k c) n ≡ typed buf n
typed-update buf zero k c h = refl
typed-update buf (suc n) k c h =
    rw (typed-update buf n k c (omega arith), update-ne buf k n c (λ e. omega arith)) refl

drop_last-snoc : (xs : List ℕ) (c : ℕ) → drop_last (xs ++ (c ∷ [])) ≡ xs
unfolding drop_last
drop_last-snoc [] c = refl
drop_last-snoc (x ∷ []) c = refl
drop_last-snoc (x ∷ y ∷ xs) c = ap (λ l. x ∷ l) (drop_last-snoc (y ∷ xs) c)

-- The typed bytes from the front.
typed_from : (ℕ → ℕ) → ℕ → ℕ → List ℕ
typed_from buf zero i = []
typed_from buf (suc n) i = buf i ∷ typed_from buf n (i + 1)

typed_from-snoc :
    (buf : ℕ → ℕ) (n i : ℕ) → typed_from buf (suc n) i ≡ typed_from buf n i ++ (buf (i + n) ∷ [])
unfolding typed_from
typed_from-snoc buf zero i = ap (λ k. buf k ∷ []) (omega arith)
typed_from-snoc buf (suc n) i =
    ap (λ l. buf i ∷ l)
      (typed_from-snoc buf n (i + 1)
        ∙ ap (λ k. typed_from buf n (i + 1) ++ (buf k ∷ [])) (omega arith))

typed-typed_from : (buf : ℕ → ℕ) (n : ℕ) → typed buf n ≡ typed_from buf n 0
unfolding typed_from
typed-typed_from buf zero = refl
typed-typed_from buf (suc n) =
    rw (typed-typed_from buf n)
      (ap (λ k. typed_from buf n 0 ++ (buf k ∷ [])) (omega arith) ∙ sym (typed_from-snoc buf n 0))

line_from-up_to_zero : (buf : ℕ → ℕ) (n i : ℕ) → line_from buf n i ≡ up_to_zero (typed_from buf n i)
unfolding line_from up_to_zero typed_from
line_from-up_to_zero buf zero i = refl
line_from-up_to_zero buf (suc n) i = rw (line_from-up_to_zero buf n (i + 1)) refl

-- The string in the buffer, which `buf[len] = '\0'` ends.
line_typed : (buf : ℕ → ℕ) (n : ℕ) → line_from (update buf n 0) n 0 ≡ up_to_zero (typed buf n)
line_typed buf n =
    line_from-up_to_zero (update buf n 0) n 0
    ∙ ap up_to_zero
        (sym (typed-typed_from (update buf n 0) n) ∙ typed-update buf n n 0 (omega arith))

typed-push : (buf : ℕ → ℕ) (n c : ℕ) → typed (update buf n c) (n + 1) ≡ typed buf n ++ (c ∷ [])
typed-push buf n c =
    ap (typed (update buf n c)) (add-one n)
    ∙ rw (typed-update buf n n c (omega arith), update_self buf n c) refl
  where
    add-one : (n : ℕ) → n + 1 ≡ suc n
    add-one n = omega arith

typed-pop : (buf : ℕ → ℕ) (n : ℕ) → typed buf (n - 1) ≡ drop_last (typed buf n)
unfolding drop_last
typed-pop buf zero = refl
typed-pop buf (suc n) = ap (typed buf) (pred n) ∙ sym (drop_last-snoc (typed buf n) (buf n))
  where
    pred : (n : ℕ) → suc n - 1 ≡ n
    pred n = omega arith

editor_eq :
    (l l' : List ℕ) (ls ls' : List (List ℕ))
    → l ≡ l'
    → ls ≡ ls'
    → ◌≡◌ {A = Editor} (record { line = l; lines = ls }) (record { line = l'; lines = ls' })
editor_eq l l' ls ls' e g = rw (e, g) refl

shell_key-edit :
    (s : LineState) (c : ℕ) → s.len ≤ 127 → editor_of (shell_key s c) ≡ edit (editor_of s) c
unfolding shell_key edit
shell_key-edit s c h = elim (Bool-cases (c == 10)) [
  | inl e ↦ rw e (editor_eq [] [] _ _ refl (ap (λ l. l ∷ s.lines) (line_typed s.buf s.len)))
  | inr e ↦ rw e (elim (Bool-cases (c == 8 || c == 127)) [
    | inl b ↦ rw b (elim (lt_or_le 0 s.len) [
      | inl lt ↦
          rw (lt→ltb 0 s.len lt)
            (editor_eq (typed s.buf (s.len - 1)) _ _ _ (typed-pop s.buf s.len) refl)
      | inr le ↦ rw (le→ltb 0 s.len le) (
          editor_eq (typed s.buf s.len) _ _ _
            (ap (typed s.buf) {x = s.len} {y = s.len - 1} (omega arith) ∙ typed-pop s.buf s.len)
            refl)
    ])
    | inr b ↦ rw b (elim (lt_or_le s.len 127) [
      | inl lt ↦
          rw (length-typed s.buf s.len, lt→ltb s.len 127 lt)
            (editor_eq (typed (update s.buf s.len c) (s.len + 1)) _ _ _ (typed-push s.buf s.len c)
              refl)
      | inr le ↦ rw (length-typed s.buf s.len, le→ltb s.len 127 le) refl
    ])
  ])
]

shell_key-bound : (s : LineState) (c : ℕ) → s.len ≤ 127 → (shell_key s c).len ≤ 127
unfolding shell_key
shell_key-bound s c h = ground arith

-- From a line of at most 127 bytes on, the buffer never holds more than 127 bytes, so that every
-- write to it is in bounds, and the lines are those of the editor on lists: a backspace takes the
-- last byte off, and a byte that finds no room is dropped.
pub shell_run_lem :
    (s : LineState) (cs : List ℤ)
    → s.len ≤ 127
    → (editor_of (shell_run s cs) ≡ edit_all (editor_of s) cs)
      × ((shell_run s cs).len < shell_buf_size)
unfolding shell_run shell_step edit_all
shell_run_lem s [] h = (refl, omega arith)
shell_run_lem s (pos c ∷ cs) h =
    let rest = shell_run_lem (shell_key s c) cs (shell_key-bound s c h) in
    (rest.0 ∙ ap (λ e. edit_all e cs) (shell_key-edit s c h), rest.1)
shell_run_lem s (negsuc n ∷ cs) h = shell_run_lem s cs h
