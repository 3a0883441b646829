-- ===== src/Dtb/Walk.antt =====
-- The loop over the structure block of kernel/src/dtb.c as a fold over the tokens that it reads.
use osc.Common.{
  ℕ, zero, suc, ◌+◌, ◌<◌, ◌≡◌, refl, sym, ap, ◌∙◌, ◌-◌, fun_ext, arith, List, [], ◌∷◌, ◌++◌, some,
  lt→ltb, le→ltb, length,
}
use osc.Dtb.{
  Token, begin_node, end_node, read_token, Step, go, return, break, Outcome, outcome, ended, Block,
  walk,
}

-- The tokens stand one after another from `cur` on, and the next one starts at `next`.
abbrev pub Reads : Block → ℕ → List Token → ℕ → Type 0
Reads b cur [] next = cur ≡ next
Reads b cur (t ∷ ts) next =
    (mid : ℕ) × (cur < b.struct_end)
    × (read_token b.mem b.dt_strings b.limit cur ≡ some (t, mid))
    × Reads b mid ts next

-- The same with the token behind the last one: the blob's end, or a token that ends the loop.
module _ {S R : Type 0} where
  abbrev pub then_step : Step S R → (S → Step S R) → Step S R
  then_step (go s) f = f s
  then_step (return r) f = return r
  then_step (break s) f = break s

  unfoldable pub fold : (S → Token → Step S R) → List Token → S → Step S R
  fold step [] s = go s
  fold step (t ∷ ts) s = then_step (step s t) (λ s'. fold step ts s')

  pub then_step_assoc :
      (m : Step S R) (f g : S → Step S R)
      → then_step (then_step m f) g ≡ then_step m (λ s. then_step (f s) g)
  then_step_assoc (go s) f g = refl
  then_step_assoc (return r) f g = refl
  then_step_assoc (break s) f g = refl

  pub then_step-go : (m : Step S R) → then_step m go ≡ m
  then_step-go (go s) = refl
  then_step-go (return r) = refl
  then_step-go (break s) = refl

  pub fold-append :
      (step : S → Token → Step S R) (ts us : List Token) (s : S)
      → fold step (ts ++ us) s ≡ then_step (fold step ts s) (fold step us)
  unfolding fold
  fold-append step [] us s = refl
  fold-append step (t ∷ ts) us s =
      rw (fun_ext (fold-append step ts us))
        (sym (then_step_assoc (step s t) (fold step ts) (fold step us)))

  pub fold-go :
      (step : S → Token → Step S R) (t : Token) (ts : List Token) (s s' : S)
      → step s t ≡ go s'
      → fold step (t ∷ ts) s ≡ fold step ts s'
  unfolding fold
  fold-go step t ts s s' e = rw e refl

  pub fold-append-go :
      (step : S → Token → Step S R) (ts us : List Token) (s s' : S)
      → fold step ts s ≡ go s'
      → fold step (ts ++ us) s ≡ fold step us s'
  fold-append-go step ts us s s' e = rw (fold-append step ts us s, e) refl

  pub fold-append-break :
      (step : S → Token → Step S R) (ts us : List Token) (s s' : S)
      → fold step ts s ≡ break s'
      → fold step (ts ++ us) s ≡ break s'
  fold-append-break step ts us s s' e = rw (fold-append step ts us s, e) refl

  -- A node whose parts go on: the token at its start, its properties, its children, its end.
  pub fold-body :
      (step : S → Token → Step S R) (name : ℕ) (ts us : List Token) {s s1 s2 s3 : S} {m : Step S R}
      → step s (begin_node name) ≡ go s1
      → fold step ts s1 ≡ go s2
      → fold step us s2 ≡ go s3
      → step s3 end_node ≡ m
      → fold step (begin_node name ∷ (ts ++ (us ++ (end_node ∷ [])))) s ≡ m
  unfolding fold
  fold-body step name ts us {s} {s1} {s2} {s3} {m} enter props kids leave =
      rw (enter, fold-append step ts (us ++ (end_node ∷ [])) s1, props)
        (rw (fold-append step us (end_node ∷ []) s2, kids) (rw leave (then_step-go m)))

  outcome-then_step :
      (m : Step S R) (f : S → Step S R) (g : S → Outcome S R)
      → outcome m (λ s. outcome (f s) g) ≡ outcome (then_step m f) g
  outcome-then_step (go s) f g = refl
  outcome-then_step (return r) f g = refl
  outcome-then_step (break s) f g = refl

  -- The loop runs through tokens that are there, and goes on behind them with the fuel left.
  pub walk-Reads :
      (b : Block) (step : S → Token → Step S R) (ts : List Token) (fuel k cur next : ℕ)
      → fuel ≡ length ts + k
      → Reads b cur ts next
      → (s : S) → walk b step fuel cur s ≡ outcome (fold step ts s) (walk b step k next)
  unfolding walk fold
  walk-Reads b step [] fuel k cur next e h s = let e' : fuel ≡ k = omega arith in rw (e', h) refl
  walk-Reads b step (t ∷ ts) zero k cur next e h s = absurd (omega arith)
  walk-Reads b step (t ∷ ts) (suc n) k cur next e (mid, lt, r, h) s =
      rw
        (lt→ltb cur b.struct_end lt, r, fun_ext (walk-Reads b step ts n k mid next (omega arith) h))
        (outcome-then_step (step s t) (fold step ts) (walk b step k next))

  -- The same in a blob that ends behind the tokens.
  pub walk-ends :
      (b : Block) (step : S → Token → Step S R) (ts : List Token) (fuel cur : ℕ)
      → length ts < fuel
      → Reads b cur ts b.struct_end
      → (s : S) → walk b step fuel cur s ≡ outcome (fold step ts s) (λ s'. ended s')
  unfolding walk
  walk-ends b step ts fuel cur lt h s =
      walk-Reads b step ts fuel (suc (fuel - length ts - 1)) cur b.struct_end (omega arith) h s
      ∙ ap (outcome (fold step ts s)) (fun_ext (at_end (fuel - length ts - 1)))
    where
      at_end : (n : ℕ) (s : S) → walk b step (suc n) b.struct_end s ≡ ended s
      at_end n s = rw (le→ltb b.struct_end b.struct_end (omega arith)) refl
