-- ===== src/Dtb/Lookup.antt =====
-- What `_dtb_getprop` of kernel/src/dtb.c finds in a tree.
use osc.Common.{
  ℕ, zero, suc, ◌+◌, ◌≤◌, ◌<◌, ◌≡◌, ◌≢◌, ◌⊎◌, refl, arith, Bool, true, false, List, [], ◌∷◌, Option,
  none, some, inl, inr, Bool-cases, ◌==◌, ==_refl, ==_ne, if◌then◌else◌,
}
use osc.Common.Int.{pos, negsuc, dec, inc-dec}
use osc.Dtb.{node_name_match, name_eq, Token, begin_node, end_node, Step, go}
use osc.Dtb.Path.{path_segment, path_depth}
use osc.Dtb.Getprop.{Search, match_node, seg_buf, getprop_step}
use osc.Dtb.Ancestors.{match_last, match_node-last}
use osc.Dtb.Walk.{fold}
use osc.Dtb.Tree.{
  NodeProp, Node, node, Nodes, no_nodes, add, prop_tokens, tokens, all_tokens, or_else, found_or,
  fold-found, fold-node,
}

module _ (mem : ℕ → ℕ) (prop_name : List ℕ) where
  -- The first of a node's properties with the name.
  unfoldable pub own_prop : List NodeProp → Option (ℕ × ℕ)
  own_prop [] = none
  own_prop (p ∷ ps) = if name_eq mem p.name prop_name then some (p.value, p.len) else own_prop ps

  -- The first property with the name in a node or below it.
  unfoldable mutual
    pub any_prop : Node → Option (ℕ × ℕ)
    any_prop (node name ps kids) = or_else (own_prop ps) (any_prop_of kids)

    pub any_prop_of : Nodes → Option (ℕ × ℕ)
    any_prop_of no_nodes = none
    any_prop_of (add n ns) = or_else (any_prop n) (any_prop_of ns)

  -- The same below the nodes that lie `depth` levels down and carry the name `seg`.
  unfoldable mutual
    pub lookup_prop : List ℕ → ℕ → Node → Option (ℕ × ℕ)
    lookup_prop seg zero (node name ps kids) =
        if node_name_match mem name (seg_buf 63 seg)
        then or_else (own_prop ps) (any_prop_of kids)
        else none
    lookup_prop seg (suc depth) (node name ps kids) = lookup_prop_of seg depth kids

    pub lookup_prop_of : List ℕ → ℕ → Nodes → Option (ℕ × ℕ)
    lookup_prop_of seg depth no_nodes = none
    lookup_prop_of seg depth (add n ns) =
        or_else (lookup_prop seg depth n) (lookup_prop_of seg depth ns)

  -- The state in front of a node at depth `d`: in no match, and in a match at depth `m`.
  abbrev pub outside : ℕ → Search
  outside d = record { current_depth = dec (pos d); matched_depth = negsuc 0 }

  abbrev pub inside : ℕ → ℕ → Search
  inside m d = record { current_depth = pos d; matched_depth = pos m }

  module _ (path : List ℕ) where
    abbrev step : Search → Token → Step Search (ℕ × ℕ)
    step = getprop_step mem path prop_name

    fold-own_prop :
        (ps : List NodeProp) (m d : ℕ)
        → fold step (prop_tokens ps) (inside m d) ≡ found_or (own_prop ps) (inside m d)
    unfolding fold getprop_step own_prop
    fold-own_prop [] m d = refl
    fold-own_prop (p ∷ ps) m d = elim (Bool-cases (name_eq mem p.name prop_name)) [
      | inl e ↦ rw e refl
      | inr e ↦ rw e (fold-own_prop ps m d)
    ]

    fold-skip :
        (ps : List NodeProp) (d : ℕ)
        → fold step (prop_tokens ps) (outside d) ≡ found_or none (outside d)
    unfolding fold getprop_step
    fold-skip [] d = refl
    fold-skip (p ∷ ps) d = fold-skip ps d

    leave_inner : (m d : ℕ) → m ≤ d → step (inside m (suc d)) end_node ≡ go (inside m d)
    unfolding getprop_step
    leave_inner m d h = rw (==_ne m (suc d) (λ e. omega arith)) refl

    leave_match : (d : ℕ) → step (inside d d) end_node ≡ go (outside d)
    unfolding getprop_step
    leave_match d = rw (==_refl d) refl

    leave_outer : (d : ℕ) → step (outside (suc d)) end_node ≡ go (outside d)
    unfolding getprop_step
    leave_outer d = refl

    mutual
      unfolding fold tokens all_tokens any_prop any_prop_of getprop_step match_node

      fold-any_prop :
          (n : Node) (m d : ℕ)
          → m ≤ d
          → fold step (tokens n) (inside m d) ≡ found_or (any_prop n) (inside m d)
      fold-any_prop (node name ps kids) m d h =
          fold-node step (prop_tokens ps) (all_tokens kids) (own_prop ps) (any_prop_of kids)
            (inside m (suc d)) (inside m d) (fold-own_prop ps m (suc d))
            (fold-any_prop_of kids m (suc d) (omega arith)) (leave_inner m d h)

      fold-any_prop_of :
          (ns : Nodes) (m d : ℕ)
          → m ≤ d
          → fold step (all_tokens ns) (inside m d) ≡ found_or (any_prop_of ns) (inside m d)
      fold-any_prop_of no_nodes m d h = refl
      fold-any_prop_of (add n ns) m d h =
          fold-found step (tokens n) (all_tokens ns) (any_prop n) (any_prop_of ns) (inside m d)
            (inside m d) (fold-any_prop n m d h) (fold-any_prop_of ns m d h)

    module _ (k : ℕ) (seg : List ℕ) (deep : path_depth path ≡ pos (suc k))
        (last : path_segment path (pos k) ≡ some seg) where
      enter :
          (d name : ℕ)
          → step (outside d) (begin_node name)
            ≡ go (record {
              current_depth = pos d;
              matched_depth = match_last mem k seg (pos d) (negsuc 0) name;
            })
      unfolding getprop_step
      enter d name =
          rw (inc-dec (pos d), match_node-last mem path k seg deep last (pos d) (negsuc 0) name)
            refl

      enter_match :
          (d name : ℕ)
          → d ≡ suc k
          → node_name_match mem name (seg_buf 63 seg) ≡ true
          → step (outside d) (begin_node name) ≡ go (inside d d)
      enter_match d name e h = rw (enter d name, e, ==_refl (suc k), h) refl

      enter_other :
          (d name : ℕ)
          → (d ≢ suc k) ⊎ (node_name_match mem name (seg_buf 63 seg) ≡ false)
          → step (outside d) (begin_node name) ≡ go (outside (suc d))
      enter_other d name (inl n) = rw (enter d name, ==_ne d (suc k) n) refl
      enter_other d name (inr h) = rw (enter d name, h, both (d == suc k)) refl
        where
          both : (b : Bool) → (if b then negsuc 0 else negsuc 0) ≡ negsuc 0
          both true = refl
          both false = refl

      mutual
        unfolding fold tokens all_tokens

        -- Below the depth of the path nothing matches.
        fold-deeper :
            (n : Node) (d : ℕ)
            → suc k < d
            → fold step (tokens n) (outside d) ≡ found_or none (outside d)
        fold-deeper (node name ps kids) d h = rw (enter_other d name (inl (λ e. omega arith))) (
            fold-node step (prop_tokens ps) (all_tokens kids) none none (outside (suc d))
              (outside d) (fold-skip ps (suc d)) (fold-deeper_of kids (suc d) (omega arith))
              (leave_outer d))

        fold-deeper_of :
            (ns : Nodes) (d : ℕ)
            → suc k < d
            → fold step (all_tokens ns) (outside d) ≡ found_or none (outside d)
        fold-deeper_of no_nodes d h = refl
        fold-deeper_of (add n ns) d h =
            fold-found step (tokens n) (all_tokens ns) none none (outside d) (outside d)
              (fold-deeper n d h) (fold-deeper_of ns d h)

      mutual
        unfolding fold tokens all_tokens lookup_prop lookup_prop_of

        pub fold-lookup_prop :
            (n : Node) (d j : ℕ)
            → d + j ≡ suc k
            → fold step (tokens n) (outside d) ≡ found_or (lookup_prop seg j n) (outside d)
        fold-lookup_prop (node name ps kids) d zero e =
            elim (Bool-cases (node_name_match mem name (seg_buf 63 seg))) [
              | inl h ↦
                  rw (h, enter_match d name (omega arith) h)
                    (fold-node step (prop_tokens ps) (all_tokens kids) (own_prop ps)
                      (any_prop_of kids) (inside d d) (outside d) (fold-own_prop ps d d)
                      (fold-any_prop_of kids d d (omega arith)) (leave_match d))
              | inr h ↦
                  rw (h, enter_other d name (inr h))
                    (fold-node step (prop_tokens ps) (all_tokens kids) none none (outside (suc d))
                      (outside d) (fold-skip ps (suc d)) (fold-deeper_of kids (suc d) (omega arith))
                      (leave_outer d))
            ]
        fold-lookup_prop (node name ps kids) d (suc j) e =
            rw (enter_other d name (inl (λ h. omega arith))) (
              fold-node step (prop_tokens ps) (all_tokens kids) none (lookup_prop_of seg j kids)
                (outside (suc d)) (outside d) (fold-skip ps (suc d))
                (fold-lookup_prop_of kids (suc d) j (omega arith)) (leave_outer d))

        fold-lookup_prop_of :
            (ns : Nodes) (d j : ℕ)
            → d + j ≡ suc k
            → fold step (all_tokens ns) (outside d) ≡ found_or (lookup_prop_of seg j ns) (outside d)
        fold-lookup_prop_of no_nodes d j e = refl
        fold-lookup_prop_of (add n ns) d j e =
            fold-found step (tokens n) (all_tokens ns) (lookup_prop seg j n)
              (lookup_prop_of seg j ns) (outside d) (outside d) (fold-lookup_prop n d j e)
              (fold-lookup_prop_of ns d j e)
