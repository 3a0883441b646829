-- ===== src/Dtb/Reserved.antt =====
-- What `dtb_walk_reserved_memory` of kernel/src/dtb.c reports of a tree.
use osc.Common.{
  ℕ, ◌<◌, ◌≡◌, refl, ap, ◌∙◌, true, false, List, [], ◌∷◌, ◌++◌, Option, none, some, inl, inr, ==_ne,
  Bool-cases, length,
}
use osc.Dtb.{
  node_name_match, Token, begin_node, end_node, fdt_end, Step, go, break, Outcome, outcome, found,
  ended, unfinished,
}
use osc.Dtb.Regions.{
  reserved_memory_name, Region, ReservedWalk, reserved_step, not_reserved, dtb_walk_reserved_memory,
}
use osc.Dtb.Walk.{
  then_step, fold, fold-append, fold-go, fold-append-go, fold-append-break, fold-body,
}
use osc.Dtb.Tree.{NodeProp, Node, node, Nodes, no_nodes, add, prop_tokens, tokens, all_tokens}
use osc.Dtb.Blob.{Holds, walk-Holds}
use osc.Dtb.Entries.{
  walk_at, entries_of, reserved_of, reserved_regions, fold-parent, fold-entries_of, leave_other,
  fold-before, fold-outside_of,
}

module _ (mem : ℕ → ℕ) where
  abbrev step : ReservedWalk → Token → Step ReservedWalk (Unit {0})
  step = reserved_step mem

  -- The state behind the children of the root: the loop has been left if the node is among them.
  abbrev left : Option (List Region) → Step ReservedWalk (Unit {0})
  left none = go (walk_at 0 1 [])
  left (some calls) = break (walk_at 2 1 calls)

  fold-named :
      (name : ℕ) (ps : List NodeProp) (kids : Nodes)
      → node_name_match mem name reserved_memory_name ≡ true
      → fold step (tokens (node name ps kids)) (walk_at 0 1 [])
        ≡ break (walk_at 2 1 (entries_of mem kids))
  unfolding tokens
  fold-named name ps kids e =
      fold-body step name (prop_tokens ps) (all_tokens kids) enter (fold-parent mem ps [])
        (fold-entries_of mem kids []) leave
    where
      enter : step (walk_at 0 1 []) (begin_node name) ≡ go (walk_at 1 2 [])
      enter = unfold reserved_step in rw e refl

      leave :
          step (walk_at 1 2 (entries_of mem kids)) end_node
          ≡ break (walk_at 2 1 (entries_of mem kids))
      leave = unfold reserved_step in refl

  fold-unnamed :
      (name : ℕ) (ps : List NodeProp) (kids : Nodes)
      → node_name_match mem name reserved_memory_name ≡ false
      → fold step (tokens (node name ps kids)) (walk_at 0 1 []) ≡ go (walk_at 0 1 [])
  unfolding tokens
  fold-unnamed name ps kids e =
      fold-body step name (prop_tokens ps) (all_tokens kids) enter (fold-before mem ps 2 [])
        (fold-outside_of mem kids 0 []) (leave_other mem 1 [])
    where
      enter : step (walk_at 0 1 []) (begin_node name) ≡ go (walk_at 0 2 [])
      enter = unfold reserved_step in rw e refl

  fold-reserved_of :
      (ns : Nodes) → fold step (all_tokens ns) (walk_at 0 1 []) ≡ left (reserved_of mem ns)
  unfolding all_tokens reserved_of fold
  fold-reserved_of no_nodes = refl
  fold-reserved_of (add (node name ps kids) ns) =
      elim (Bool-cases (node_name_match mem name reserved_memory_name)) [
        | inl e ↦ rw e (
            fold-append-break step (tokens (node name ps kids)) (all_tokens ns) (walk_at 0 1 [])
              (walk_at 2 1 (entries_of mem kids)) (fold-named name ps kids e))
        | inr e ↦ rw e (
            fold-append-go step (tokens (node name ps kids)) (all_tokens ns) (walk_at 0 1 []) _
              (fold-unnamed name ps kids e)
            ∙ fold-reserved_of ns)
      ]

  -- Behind the root.
  abbrev left_root : Option (List Region) → Step ReservedWalk (Unit {0})
  left_root none = go not_reserved
  left_root (some calls) = break (walk_at 2 1 calls)

  fold-reserved_regions :
      (tree : Node) → fold step (tokens tree) not_reserved ≡ left_root (reserved_regions mem tree)
  unfolding tokens reserved_regions fold
  fold-reserved_regions (node name ps kids) =
      fold-go step (begin_node name) (prop_tokens ps ++ (all_tokens kids ++ (end_node ∷ [])))
        not_reserved (walk_at 0 1 []) (unfold reserved_step in refl)
      ∙ fold-append-go step (prop_tokens ps) (all_tokens kids ++ (end_node ∷ [])) (walk_at 0 1 []) _
          (fold-before mem ps 1 [])
      ∙ rw
          (
            fold-append step (all_tokens kids) (end_node ∷ []) (walk_at 0 1 []),
            fold-reserved_of kids,
          )
          (behind (reserved_of mem kids))
    where
      behind :
          (o : Option (List Region)) → then_step (left o) (fold step (end_node ∷ [])) ≡ left_root o
      behind none = unfold reserved_step in refl
      behind (some calls) = refl

-- The calls of a run that ends, by the list of the entries.
abbrev pub reported : Option (List Region) → List Region
reported none = []
reported (some calls) = calls

abbrev pub calls_of : Outcome ReservedWalk (Unit {0}) → Option (List Region)
calls_of (found r) = none
calls_of (ended s) = some s.calls
calls_of unfinished = none

-- On a blob that holds a tree, with fuel for its tokens, the callback is called for the entries of the
-- `reg` properties of the children of /reserved-memory, in their order, with the address and the size
-- that the 16 bytes of the entry hold; it is not called for an entry of size 0, and not at all if there
-- is no such node.
pub dtb_walk_reserved_memory_lem :
    (mem : ℕ → ℕ) (dtb limit fuel : ℕ) (tree : Node)
    → Holds mem dtb limit tree
    → length (tokens tree) < fuel
    → calls_of (dtb_walk_reserved_memory mem dtb limit fuel)
      ≡ some (reported (reserved_regions mem tree))
unfolding dtb_walk_reserved_memory
dtb_walk_reserved_memory_lem mem dtb limit fuel tree holds enough =
    rw (==_ne dtb 0 holds.present, holds.magic)
      (ap calls_of
          (walk-Holds mem dtb limit fuel tree holds enough (reserved_step mem) not_reserved stops)
        ∙ (rw (fold-reserved_regions mem tree) (at_result (reserved_regions mem tree))))
  where
    stops : (s : ReservedWalk) → reserved_step mem s fdt_end ≡ break s
    stops s = unfold reserved_step in refl

    at_result :
        (o : Option (List Region))
        → calls_of (outcome (left_root mem o) (λ s. ended s)) ≡ some (reported o)
    at_result none = refl
    at_result (some calls) = refl
