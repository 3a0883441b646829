-- ===== src/Dtb/Entries.antt =====
-- The tokens of /reserved-memory as `dtb_walk_reserved_memory` of kernel/src/dtb.c passes over them.
use osc.Common.{
  ℕ, zero, suc, ◌+◌, ◌*◌, ◌==◌, ap, eq_or_ne, lt→ltb, ◌/◌, ◌≡◌, refl, ◌∙◌, arith, List, [], ◌∷◌,
  ◌++◌, Option, none, some, inl, inr, ==_ne, Bool-cases, if◌then◌else◌,
}
use mathlib.Core.List.{append_assoc, append-nil}
use osc.Common.Int.{pos, dec, inc-dec}
use osc.Dtb.{node_name_match, cells_64, name_eq, Token, begin_node, end_node, Step, go}
use osc.Dtb.Regions.{
  reserved_memory_name, reg_name, Region, ReservedWalk, reg_entries, read_region, reserved_step,
}
use osc.Dtb.Walk.{fold, fold-append-go, fold-body}
use osc.Dtb.Tree.{NodeProp, Node, node, Nodes, no_nodes, add, prop_tokens, tokens, all_tokens}

abbrev pub walk_at : ℕ → ℕ → List Region → ReservedWalk
walk_at state d calls = record { state = state; current_depth = dec (pos d); calls = calls }

module _ (mem : ℕ → ℕ) where
  -- The regions of the `n` entries from number `e` on of the value at `value`: an entry has 16 bytes, the
  -- address in the first two cells and the size in the other two; one of size 0 is left out.
  unfoldable pub regions_from : ℕ → ℕ → ℕ → List Region
  regions_from zero e value = []
  regions_from (suc n) e value =
      let rest = regions_from n (e + 1) value in
      let address = cells_64 mem (value + 16 * e) in
      let size = cells_64 mem (value + 16 * e + 8) in
      if size == 0 then rest else (address, size) ∷ rest

  reg_entries_eq : (n e value : ℕ) → reg_entries mem n (value + 16 * e) ≡ regions_from n e value
  unfolding reg_entries regions_from read_region
  reg_entries_eq zero e value = refl
  reg_entries_eq (suc n) e value =
      let ih : reg_entries mem n (value + 16 * e + 16) ≡ regions_from n (e + 1) value =
        ap (reg_entries mem n) (omega arith) ∙ reg_entries_eq n (e + 1) value in
      elim (eq_or_ne (cells_64 mem (value + 16 * e + 8)) 0) [
        | inl z ↦ rw (z, ih) refl
        | inr m ↦
            rw
              (
                lt→ltb 0 (cells_64 mem (value + 16 * e + 8)) (omega (arith, m)),
                ==_ne (cells_64 mem (value + 16 * e + 8)) 0 m,
                ih,
              )
              refl
      ]

  all_entries : (n value : ℕ) → reg_entries mem n value ≡ regions_from n 0 value
  all_entries n value = ap (reg_entries mem n) (omega arith) ∙ reg_entries_eq n 0 value

  -- The regions of every `reg` of a node.
  unfoldable pub own_entries : List NodeProp → List Region
  own_entries [] = []
  own_entries (p ∷ ps) =
      if name_eq mem p.name reg_name
      then regions_from (p.len / 16) 0 p.value ++ own_entries ps
      else own_entries ps

  unfoldable pub entries_of : Nodes → List Region
  entries_of no_nodes = []
  entries_of (add (node name ps kids) ns) = own_entries ps ++ entries_of ns

  unfoldable pub reserved_of : Nodes → Option (List Region)
  reserved_of no_nodes = none
  reserved_of (add (node name ps kids) ns) =
      if node_name_match mem name reserved_memory_name
      then some (entries_of kids)
      else reserved_of ns

  -- The entries of the children of the root's first child with the name, in order.
  unfoldable pub reserved_regions : Node → Option (List Region)
  reserved_regions (node name ps kids) = reserved_of kids

  abbrev step : ReservedWalk → Token → Step ReservedWalk (Unit {0})
  step = reserved_step mem

  fold-own_entries :
      (ps : List NodeProp) (calls : List Region)
      → fold step (prop_tokens ps) (walk_at 1 3 calls) ≡ go (walk_at 1 3 (calls ++ own_entries ps))
  unfolding fold reserved_step own_entries
  fold-own_entries [] calls = rw (append-nil calls) refl
  fold-own_entries (p ∷ ps) calls = elim (Bool-cases (name_eq mem p.name reg_name)) [
    | inl e ↦
        rw
          (
            e,
            all_entries (p.len / 16) p.value,
            ← append_assoc calls (regions_from (p.len / 16) 0 p.value) (own_entries ps),
          )
          (fold-own_entries ps (calls ++ regions_from (p.len / 16) 0 p.value))
    | inr e ↦ rw e (fold-own_entries ps calls)
  ]

  -- Properties elsewhere are passed over.
  pub fold-before :
      (ps : List NodeProp) (d : ℕ) (calls : List Region)
      → fold step (prop_tokens ps) (walk_at 0 d calls) ≡ go (walk_at 0 d calls)
  unfolding fold reserved_step
  fold-before [] d calls = refl
  fold-before (p ∷ ps) d calls = fold-before ps d calls

  pub fold-parent :
      (ps : List NodeProp) (calls : List Region)
      → fold step (prop_tokens ps) (walk_at 1 2 calls) ≡ go (walk_at 1 2 calls)
  unfolding fold reserved_step
  fold-parent [] calls = refl
  fold-parent (p ∷ ps) calls = fold-parent ps calls

  pub enter_reserved :
      (name d : ℕ) (calls : List Region)
      → step (walk_at 1 d calls) (begin_node name) ≡ go (walk_at 1 (suc d) calls)
  unfolding reserved_step
  enter_reserved name d calls = rw (inc-dec (pos d)) refl

  pub leave_inner :
      (d : ℕ) (calls : List Region)
      → step (walk_at 1 (suc (suc (suc d))) calls) end_node ≡ go (walk_at 1 (suc (suc d)) calls)
  unfolding reserved_step
  leave_inner d calls = rw (==_ne (suc (suc d)) 1 (λ e. omega arith)) refl

  pub enter_other :
      (name d : ℕ) (calls : List Region)
      → step (walk_at 0 (suc (suc d)) calls) (begin_node name)
        ≡ go (walk_at 0 (suc (suc (suc d))) calls)
  unfolding reserved_step
  enter_other name d calls = rw (==_ne (suc (suc d)) 1 (λ e. omega arith)) refl

  pub leave_other :
      (d : ℕ) (calls : List Region)
      → step (walk_at 0 (suc d) calls) end_node ≡ go (walk_at 0 d calls)
  unfolding reserved_step
  leave_other d calls = refl

  fold-deep :
      (ps : List NodeProp) (d : ℕ) (calls : List Region)
      → fold step (prop_tokens ps) (walk_at 1 (suc (suc (suc (suc d)))) calls)
        ≡ go (walk_at 1 (suc (suc (suc (suc d)))) calls)
  unfolding fold reserved_step
  fold-deep [] d calls = refl
  fold-deep (p ∷ ps) d calls =
      rw (==_ne (suc (suc (suc d))) 2 (λ e. omega arith)) (fold-deep ps d calls)

  -- Below the children of /reserved-memory, and outside it, nothing is reported.
  mutual
    unfolding fold tokens all_tokens

    fold-grandchild :
        (n : Node) (d : ℕ) (calls : List Region)
        → fold step (tokens n) (walk_at 1 (suc (suc (suc d))) calls)
          ≡ go (walk_at 1 (suc (suc (suc d))) calls)
    fold-grandchild (node name ps kids) d calls =
        fold-body step name (prop_tokens ps) (all_tokens kids)
          (enter_reserved name (suc (suc (suc d))) calls) (fold-deep ps d calls)
          (fold-grandchildren kids (suc d) calls) (leave_inner (suc d) calls)

    fold-grandchildren :
        (ns : Nodes) (d : ℕ) (calls : List Region)
        → fold step (all_tokens ns) (walk_at 1 (suc (suc (suc d))) calls)
          ≡ go (walk_at 1 (suc (suc (suc d))) calls)
    fold-grandchildren no_nodes d calls = refl
    fold-grandchildren (add n ns) d calls =
        fold-append-go step (tokens n) (all_tokens ns) (walk_at 1 (suc (suc (suc d))) calls) _
          (fold-grandchild n d calls)
        ∙ fold-grandchildren ns d calls

  mutual
    unfolding fold tokens all_tokens

    fold-outside :
        (n : Node) (d : ℕ) (calls : List Region)
        → fold step (tokens n) (walk_at 0 (suc (suc d)) calls) ≡ go (walk_at 0 (suc (suc d)) calls)
    fold-outside (node name ps kids) d calls =
        fold-body step name (prop_tokens ps) (all_tokens kids) (enter_other name d calls)
          (fold-before ps (suc (suc (suc d))) calls) (fold-outside_of kids (suc d) calls)
          (leave_other (suc (suc d)) calls)

    pub fold-outside_of :
        (ns : Nodes) (d : ℕ) (calls : List Region)
        → fold step (all_tokens ns) (walk_at 0 (suc (suc d)) calls)
          ≡ go (walk_at 0 (suc (suc d)) calls)
    fold-outside_of no_nodes d calls = refl
    fold-outside_of (add n ns) d calls =
        fold-append-go step (tokens n) (all_tokens ns) (walk_at 0 (suc (suc d)) calls) _
          (fold-outside n d calls)
        ∙ fold-outside_of ns d calls

  fold-child :
      (name : ℕ) (ps : List NodeProp) (kids : Nodes) (calls : List Region)
      → fold step (tokens (node name ps kids)) (walk_at 1 2 calls)
        ≡ go (walk_at 1 2 (calls ++ own_entries ps))
  unfolding tokens
  fold-child name ps kids calls =
      fold-body step name (prop_tokens ps) (all_tokens kids) (enter_reserved name 2 calls)
        (fold-own_entries ps calls) (fold-grandchildren kids 0 (calls ++ own_entries ps))
        (leave_inner 0 (calls ++ own_entries ps))

  pub fold-entries_of :
      (ns : Nodes) (calls : List Region)
      → fold step (all_tokens ns) (walk_at 1 2 calls) ≡ go (walk_at 1 2 (calls ++ entries_of ns))
  unfolding fold all_tokens entries_of
  fold-entries_of no_nodes calls = rw (append-nil calls) refl
  fold-entries_of (add (node name ps kids) ns) calls =
      fold-append-go step (tokens (node name ps kids)) (all_tokens ns) (walk_at 1 2 calls) _
        (fold-child name ps kids calls)
      ∙ (rw (← append_assoc calls (own_entries ps) (entries_of ns))
          (fold-entries_of ns (calls ++ own_entries ps)))
