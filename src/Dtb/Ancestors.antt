-- ===== src/Dtb/Ancestors.antt =====
-- What `_dtb_getprop` of kernel/src/dtb.c compares of a path: its depth and its last component.
use osc.Common.{
  ℕ, zero, suc, ◌≡◌, refl, sym, ap, ◌∙◌, fun_ext, arith, List, [], ◌∷◌, ◌++◌, some, inl, inr,
  eq_or_ne, if◌then◌else◌, length, length-append, get_elem?,
}
use osc.Common.Int.{ℤ, pos, negsuc, eqb}
use osc.Common.All.{All}
use osc.Dtb.{node_name_match, Token, begin_node, end_node, prop, nop, fdt_end}
use osc.Dtb.Path.{
  path_segment, path_depth, path_of, IsComponent, path_segment-path_of, path_depth-path_of,
}
use osc.Dtb.Getprop.{
  Search, is_negative, match_node, segment_match, seg_buf, getprop_step, raw_getprop,
}

-- The new `matched_depth` by the depth `suc k` and the last component alone.
abbrev pub match_last : (ℕ → ℕ) → ℕ → List ℕ → ℤ → ℤ → ℕ → ℤ
match_last mem k seg depth matched node_name =
    if is_negative matched
    then if eqb depth (pos (suc k))
      then if node_name_match mem node_name (seg_buf 63 seg) then depth else matched
      else matched
    else matched

module _ (mem : ℕ → ℕ) (path : List ℕ) (k : ℕ) (seg : List ℕ) (deep : path_depth path ≡ pos (suc k))
    (last : path_segment path (pos k) ≡ some seg) where
  pub match_node-last :
      (depth matched : ℤ) (node_name : ℕ)
      → match_node mem path depth matched node_name ≡ match_last mem k seg depth matched node_name
  unfolding match_node segment_match
  match_node-last (negsuc d) matched node_name = rw deep (ground arith)
  match_node-last (pos zero) matched node_name = rw deep (ground arith)
  match_node-last (pos (suc d)) matched node_name = elim (eq_or_ne d k) [
    | inl e ↦ rw (e, deep, last) (ground arith)
    | inr n ↦ rw deep (ground arith)
  ]

pub length-snoc : (xs : List (List ℕ)) (s : List ℕ) → length (xs ++ s ∷ []) ≡ suc (length xs)
length-snoc xs s = omega (arith, length-append xs (s ∷ []))

get_elem?-snoc : (xs : List (List ℕ)) (s : List ℕ) → get_elem? (xs ++ s ∷ []) (length xs) ≡ some s
get_elem?-snoc [] s = refl
get_elem?-snoc (x ∷ xs) s = get_elem?-snoc xs s

pub path_depth-snoc :
    (xs : List (List ℕ)) (s : List ℕ)
    → All IsComponent (xs ++ s ∷ [])
    → path_depth (path_of (xs ++ s ∷ [])) ≡ pos (suc (length xs))
path_depth-snoc [] s h = path_depth-path_of s [] h
path_depth-snoc (x ∷ xs) s h =
    path_depth-path_of x (xs ++ s ∷ []) h ∙ ap (λ n. pos (suc n)) (length-snoc xs s)

pub path_segment-snoc :
    (xs : List (List ℕ)) (s : List ℕ)
    → All IsComponent (xs ++ s ∷ [])
    → path_segment (path_of (xs ++ s ∷ [])) (pos (length xs)) ≡ some s
path_segment-snoc [] s h = path_segment-path_of s [] 0 h
path_segment-snoc (x ∷ xs) s h =
    path_segment-path_of x (xs ++ s ∷ []) (length (x ∷ xs)) h ∙ get_elem?-snoc (x ∷ xs) s

-- The body of the loop reads the path by `match_node` alone.
getprop_step-path :
    (mem : ℕ → ℕ) (p q prop_name : List ℕ)
    → match_node mem p ≡ match_node mem q
    → getprop_step mem p prop_name ≡ getprop_step mem q prop_name
unfolding getprop_step
getprop_step-path mem p q prop_name e = fun_ext (λ z. fun_ext (at_token z))
  where
    at_token :
        (z : Search) (t : Token)
        → getprop_step mem p prop_name z t ≡ getprop_step mem q prop_name z t
    at_token z (begin_node a) = rw e refl
    at_token z end_node = refl
    at_token z (prop l n v) = refl
    at_token z nop = refl
    at_token z fdt_end = refl

module _ (mem : ℕ → ℕ) (xs : List (List ℕ)) (s : List ℕ) (h : All IsComponent (xs ++ s ∷ [])) where
  match_node-snoc : match_node mem (path_of (xs ++ s ∷ [])) ≡ match_last mem (length xs) s
  match_node-snoc = fun_ext (λ d. fun_ext (λ m. fun_ext (
      match_node-last mem (path_of (xs ++ s ∷ [])) (length xs) s (path_depth-snoc xs s h)
        (path_segment-snoc xs s h) d m)))

-- Two paths of one depth that end in the same component get the same answer from every blob: the nodes
-- above the last are not compared.
pub raw_getprop-ancestors :
    (mem : ℕ → ℕ) (dtb limit fuel : ℕ) (xs ys : List (List ℕ)) (s prop_name : List ℕ)
    → All IsComponent (xs ++ s ∷ [])
    → All IsComponent (ys ++ s ∷ [])
    → length xs ≡ length ys
    → raw_getprop mem dtb limit fuel (path_of (xs ++ s ∷ [])) prop_name
      ≡ raw_getprop mem dtb limit fuel (path_of (ys ++ s ∷ [])) prop_name
unfolding raw_getprop
raw_getprop-ancestors mem dtb limit fuel xs ys s prop_name hx hy e =
    rw (getprop_step-path mem (path_of (xs ++ s ∷ [])) (path_of (ys ++ s ∷ [])) prop_name same_node)
      refl
  where
    same_node : match_node mem (path_of (xs ++ s ∷ [])) ≡ match_node mem (path_of (ys ++ s ∷ []))
    same_node =
        match_node-snoc mem xs s hx
        ∙ ap (λ k. match_last mem k s) e
        ∙ sym (match_node-snoc mem ys s hy)
