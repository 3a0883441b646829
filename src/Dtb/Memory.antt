-- ===== src/Dtb/Memory.antt =====
-- What `dtb_get_memory_region` of kernel/src/dtb.c finds in a tree.
use osc.Common.{
  ℕ, suc, ◌<◌, ◌≡◌, refl, ap, ◌∙◌, arith, Bool, true, false, ◌&&◌, List, [], ◌∷◌, ◌++◌, Option,
  none, some, inl, inr, ==_ne, leb, Bool-cases, if◌then◌else◌, length,
}
use mathlib.Core.List.{append_assoc}
use osc.Common.Int.{pos, dec}
use osc.Dtb.{
  node_name_match, name_eq, Token, begin_node, end_node, fdt_end, Step, go, break, outcome, ended,
}
use osc.Dtb.Regions.{
  memory_name, reg_name, Region, MemorySearch, read_region, memory_step, no_memory,
  dtb_get_memory_region,
}
use osc.Dtb.Walk.{then_step, fold, fold-append, fold-append-go, fold-go}
use osc.Dtb.Tree.{
  NodeProp, Node, node, Nodes, no_nodes, add, prop_tokens, tokens, all_tokens, or_else, found_or,
  fold-found, fold-node,
}
use osc.Dtb.Blob.{Holds, walk-Holds}

module _ (mem : ℕ → ℕ) where
  -- The first `reg` of a node that is long enough.
  unfoldable pub own_region : List NodeProp → Option Region
  own_region [] = none
  own_region (p ∷ ps) =
      if name_eq mem p.name reg_name && leb 16 p.len
      then some (read_region mem p.value)
      else own_region ps

  unfoldable pub memory_of : Nodes → Option Region
  memory_of no_nodes = none
  memory_of (add (node name ps kids) ns) =
      or_else (if node_name_match mem name memory_name then own_region ps else none) (memory_of ns)

  -- The first memory node among the children of the root that has such a `reg`.
  unfoldable pub memory_region : Node → Option Region
  memory_region (node name ps kids) = memory_of kids

  abbrev at_depth : ℕ → Bool → MemorySearch
  at_depth d b = record { current_depth = dec (pos d); in_memory_node = b }

  abbrev step : MemorySearch → Token → Step MemorySearch Region
  step = memory_step mem

  fold-own_region :
      (ps : List NodeProp) (d : ℕ) (b : Bool)
      → fold step (prop_tokens ps) (at_depth d b)
        ≡ found_or (if b then own_region ps else none) (at_depth d b)
  unfolding fold memory_step own_region
  fold-own_region [] d true = refl
  fold-own_region [] d false = refl
  fold-own_region (p ∷ ps) d false = fold-own_region ps d false
  fold-own_region (p ∷ ps) d true =
      elim (Bool-cases (name_eq mem p.name reg_name && leb 16 p.len)) [
        | inl e ↦ rw e refl
        | inr e ↦ rw e (fold-own_region ps d true)
      ]

  enter_inner :
      (d name : ℕ) (b : Bool)
      → step (at_depth (suc (suc d)) b) (begin_node name) ≡ go (at_depth (suc (suc (suc d))) false)
  unfolding memory_step
  enter_inner d name b = rw (==_ne (suc (suc d)) 1 (λ e. omega arith)) refl

  -- The nodes below the children of the root change nothing.
  mutual
    unfolding fold tokens all_tokens memory_step

    fold-inner :
        (n : Node) (d : ℕ) (b : Bool)
        → fold step (tokens n) (at_depth (suc (suc d)) b) ≡ go (at_depth (suc (suc d)) false)
    fold-inner (node name ps kids) d b =
        fold-go step (begin_node name) (prop_tokens ps ++ (all_tokens kids ++ (end_node ∷ [])))
          (at_depth (suc (suc d)) b) _ (enter_inner d name b)
        ∙ fold-append-go step (prop_tokens ps) (all_tokens kids ++ (end_node ∷ []))
            (at_depth (suc (suc (suc d))) false) _ (fold-own_region ps (suc (suc (suc d))) false)
        ∙ fold-inner_of kids (suc d) false

    fold-inner_of :
        (ns : Nodes) (d : ℕ) (b : Bool)
        → fold step (all_tokens ns ++ (end_node ∷ [])) (at_depth (suc (suc d)) b)
          ≡ go (at_depth (suc d) false)
    fold-inner_of no_nodes d b = refl
    fold-inner_of (add n ns) d b =
        ap (λ ts. fold step ts (at_depth (suc (suc d)) b))
          (append_assoc (tokens n) (all_tokens ns) (end_node ∷ []))
        ∙ fold-append-go step (tokens n) (all_tokens ns ++ (end_node ∷ []))
            (at_depth (suc (suc d)) b) _ (fold-inner n d b)
        ∙ fold-inner_of ns d false

  fold-child :
      (name : ℕ) (ps : List NodeProp) (kids : Nodes)
      → fold step (tokens (node name ps kids)) (at_depth 1 false)
        ≡ found_or
            (if node_name_match mem name memory_name then own_region ps else none)
            (at_depth 1 false)
  unfolding tokens
  fold-child name ps kids =
      let m = node_name_match mem name memory_name in
      fold-go step (begin_node name) (prop_tokens ps ++ (all_tokens kids ++ (end_node ∷ [])))
        (at_depth 1 false) (at_depth 2 m) (unfold memory_step in refl)
      ∙ rw (fold-append step (prop_tokens ps) (all_tokens kids ++ (end_node ∷ [])) (at_depth 2 m))
          (rw (fold-own_region ps 2 m) (behind m (if m then own_region ps else none)))
    where
      behind :
          (m : Bool) (o : Option Region)
          → then_step (found_or o (at_depth 2 m)) (fold step (all_tokens kids ++ (end_node ∷ [])))
            ≡ found_or o (at_depth 1 false)
      behind m none = fold-inner_of kids 0 m
      behind m (some r) = refl

  fold-memory_of :
      (ns : Nodes)
      → fold step (all_tokens ns) (at_depth 1 false) ≡ found_or (memory_of ns) (at_depth 1 false)
  unfolding fold all_tokens memory_of
  fold-memory_of no_nodes = refl
  fold-memory_of (add (node name ps kids) ns) =
      fold-found step (tokens (node name ps kids)) (all_tokens ns) _ (memory_of ns) _ _
        (fold-child name ps kids) (fold-memory_of ns)

  fold-memory_region :
      (tree : Node) → fold step (tokens tree) no_memory ≡ found_or (memory_region tree) no_memory
  unfolding fold tokens memory_region memory_step
  fold-memory_region (node name ps kids) =
      fold-node step (prop_tokens ps) (all_tokens kids) none (memory_of kids) (at_depth 1 false)
        no_memory (fold-own_region ps 1 false) (fold-memory_of kids) refl

-- On a blob that holds a tree, with fuel for its tokens, the region returned is the first `reg` of
-- at least 16 bytes in a memory node among the children of the root, and -1 is returned if there
-- is none.
pub dtb_get_memory_region_lem :
    (mem : ℕ → ℕ) (dtb limit fuel : ℕ) (tree : Node)
    → Holds mem dtb limit tree
    → length (tokens tree) < fuel
    → dtb_get_memory_region mem dtb limit fuel
      ≡ outcome (found_or (memory_region mem tree) no_memory) (λ s. ended s)
unfolding dtb_get_memory_region
dtb_get_memory_region_lem mem dtb limit fuel tree holds enough =
    rw (==_ne dtb 0 holds.present, holds.magic)
      (walk-Holds mem dtb limit fuel tree holds enough (memory_step mem) no_memory stops
        ∙ ap (λ m. outcome m (λ s. ended s)) (fold-memory_region mem tree))
  where
    stops : (s : MemorySearch) → memory_step mem s fdt_end ≡ break s
    stops s = unfold memory_step in refl
