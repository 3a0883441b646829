-- ===== src/Dtb/Blob.antt =====
-- The lookups of kernel/src/dtb.c in a blob that holds a tree.
use osc.Common.{
  ℕ, suc, ◌-◌, ◌<◌, ◌≡◌, ◌≢◌, refl, ap, ◌∙◌, arith, List, [], ◌∷◌, ◌++◌, Option, none, some, ==_ne,
  length, length-append,
}
use osc.Common.All.{All}
use osc.Dtb.{
  Token, fdt_end, Step, go, return, break, Outcome, outcome, ended, walk, fdt_header_magic,
  FdtHeader, read_header,
}
use osc.Dtb.Path.{path_of, IsComponent}
use osc.Dtb.Getprop.{
  Search, no_node, dt_block, dt_struct, getprop_step, raw_getprop, prop_value, value_of,
  dtb_getprop,
}
use osc.Dtb.Ancestors.{path_depth-snoc, path_segment-snoc}
use osc.Dtb.Walk.{Reads, then_step, fold, fold-append, walk-Reads}
use osc.Dtb.Tree.{Node, tokens, found_or}
use osc.Dtb.Lookup.{lookup_prop, fold-lookup_prop}

-- The blob at `dtb` has the magic number and holds the tokens of `tree` and an end token.
pub record Holds (mem : ℕ → ℕ) (dtb limit : ℕ) (tree : Node) : Type 0 where
  pub present : dtb ≢ 0
  pub magic : FdtHeader.magic (read_header mem dtb) ≡ fdt_header_magic
  pub behind : ℕ
  pub reads :
      Reads (dt_block mem dtb limit) (dt_struct mem dtb) (tokens tree ++ (fdt_end ∷ [])) behind

-- The value of a property, 0 if there is none.
abbrev pub found_value : (ℕ → ℕ) → Option (ℕ × ℕ) → ℕ
found_value mem none = 0
found_value mem (some r) = prop_value mem r.0 r.1

module _ (mem : ℕ → ℕ) (dtb limit fuel : ℕ) (tree : Node) (holds : Holds mem dtb limit tree)
    (enough : length (tokens tree) < fuel) where
  -- The loop as a fold over the tree's tokens.
  pub walk-Holds :
      {S R : Type 0} (step : S → Token → Step S R) (s : S)
      → ((s : S) → step s fdt_end ≡ break s)
      → walk (dt_block mem dtb limit) step fuel (dt_struct mem dtb) s
        ≡ outcome (fold step (tokens tree) s) (λ s'. ended s')
  unfolding fold
  walk-Holds {S} {R} step s stops =
      walk-Reads (dt_block mem dtb limit) step (tokens tree ++ (fdt_end ∷ [])) fuel
        (fuel - length (tokens tree) - 1) (dt_struct mem dtb) holds.behind
        (omega (arith, length-append (tokens tree) (fdt_end ∷ []))) holds.reads s
      ∙ (rw (fold-append step (tokens tree) (fdt_end ∷ []) s)
          (at_end (fold step (tokens tree) s) _))
    where
      at_end :
          (m : Step S R) (g : S → Outcome S R)
          → outcome (then_step m (fold step (fdt_end ∷ []))) g ≡ outcome m (λ s'. ended s')
      at_end (go s') g = rw (stops s') refl
      at_end (return r) g = refl
      at_end (break s') g = refl

  module _ (xs : List (List ℕ)) (seg prop_name : List ℕ)
      (h : All IsComponent (xs ++ seg ∷ [])) where
    -- On a blob that holds a tree, with fuel for its tokens, the lookup of a path with at least
    -- one component finds the first property of the name in or below the first nodes at the depth
    -- of the path that carry its last component, cut to 63 bytes, and nothing if there is none.
    pub raw_getprop_lem :
        raw_getprop mem dtb limit fuel (path_of (xs ++ seg ∷ [])) prop_name
        ≡ outcome
            (found_or (lookup_prop mem prop_name seg (suc (length xs)) tree) no_node)
            (λ s. ended s)
    unfolding raw_getprop
    raw_getprop_lem =
        let path = path_of (xs ++ seg ∷ []) in
        rw (==_ne dtb 0 holds.present, holds.magic)
          (walk-Holds (getprop_step mem path prop_name) no_node stops
            ∙ ap (λ m. outcome m (λ s. ended s))
                (fold-lookup_prop mem prop_name path (length xs) seg (path_depth-snoc xs seg h)
                  (path_segment-snoc xs seg h) tree 0 (suc (length xs)) (omega arith)))
      where
        stops :
            (s : Search) → getprop_step mem (path_of (xs ++ seg ∷ [])) prop_name s fdt_end ≡ break s
        stops s = unfold getprop_step in refl

    pub dtb_getprop_lem :
        dtb_getprop mem dtb limit fuel (path_of (xs ++ seg ∷ [])) prop_name
        ≡ some (found_value mem (lookup_prop mem prop_name seg (suc (length xs)) tree))
    unfolding dtb_getprop
    dtb_getprop_lem =
        rw raw_getprop_lem (at_result (lookup_prop mem prop_name seg (suc (length xs)) tree))
      where
        at_result :
            (o : Option (ℕ × ℕ))
            → value_of mem (outcome (found_or o no_node) (λ s. ended s)) ≡ some (found_value mem o)
        at_result none = refl
        at_result (some r) = refl
