-- ===== src/Dtb/Path.antt =====
-- The components of a `/` separated path: path_segment and path_depth of kernel/src/dtb.c. A path is
-- the list of its bytes before the zero.
use osc.Common.{
  ℕ, zero, suc, ◌+◌, ◌≤◌, ◌<◌, ◌≡◌, ◌≢◌, refl, arith, List, [], ◌∷◌, ◌++◌, Option, none, some, ◌==◌,
  ==_ne, if◌then◌else◌, length, length-append, get_elem?,
}
use osc.Common.Int.{ℤ, pos, negsuc, eqb}
use osc.Common.All.{All}

-- `while (*p && *p != '/') ++p`: the component at `p` and what is left.
unfoldable pub component : List ℕ → List ℕ × List ℕ
component [] = ([], [])
component (c ∷ p) = let r = component p in if c == 47 then ([], c ∷ p) else (c ∷ r.0, r.1)

-- `if (*p == '/') ++p`
unfoldable pub skip_slash : List ℕ → List ℕ
skip_slash [] = []
skip_slash (c ∷ p) = if c == 47 then p else c ∷ p

-- `while (1)`, the component number `i` starts at `p`. Each round but the last takes a byte of `p`.
unfoldable pub segment_loop : ℕ → ℤ → ℕ → List ℕ → Option (List ℕ)
segment_loop zero idx i p = none
segment_loop (suc n) idx i [] = none
segment_loop (suc n) idx i (c ∷ p) =
    let r = component (c ∷ p) in
    let later = segment_loop n idx (suc i) (skip_slash r.1) in
    if eqb (pos i) idx then some r.0 else later

unfoldable pub path_segment : List ℕ → ℤ → Option (List ℕ)
path_segment [] idx = none
path_segment (c ∷ p) idx = if c == 47 then segment_loop (length p) idx 0 p else none

unfoldable pub slashes : List ℕ → ℕ
slashes [] = 0
slashes (c ∷ p) = let rest = slashes p in if c == 47 then suc rest else rest

unfoldable pub path_depth : List ℕ → ℤ
path_depth [] = negsuc 0
path_depth (c ∷ []) = if c == 47 then pos 0 else negsuc 0
path_depth (c ∷ d ∷ p) = if c == 47 then pos (slashes (d ∷ p) + 1) else negsuc 0

-- A path from its components.
unfoldable pub path_of : List (List ℕ) → List ℕ
path_of [] = []
path_of (s ∷ ss) = 47 ∷ (s ++ path_of ss)

-- A component is not empty and holds no `/`.
abbrev pub NoSlash : List ℕ → Type 0
NoSlash = All (λ c. c ≢ 47)

abbrev pub IsComponent : List ℕ → Type 0
IsComponent s = (0 < length s) × NoSlash s

component-append :
    (s : List ℕ) (ss : List (List ℕ)) → NoSlash s → component (s ++ path_of ss) ≡ (s, path_of ss)
unfolding component path_of
component-append [] [] h = refl
component-append [] (s ∷ ss) h = refl
component-append (c ∷ s) ss h = rw (==_ne c 47 h.0, component-append s ss h.1) refl

segment_loop_lem :
    (ss : List (List ℕ)) (s : List ℕ) (k i m n : ℕ)
    → m ≡ i + k
    → All IsComponent (s ∷ ss)
    → length (s ++ path_of ss) ≤ n
    → segment_loop n (pos m) i (s ++ path_of ss) ≡ get_elem? (s ∷ ss) k
unfolding segment_loop skip_slash path_of
segment_loop_lem ss [] k i m n e h le = absurd (omega (arith, h.0.0))
segment_loop_lem ss (c ∷ s) k i m zero e h le = absurd (omega arith)
segment_loop_lem ss (c ∷ s) zero i m (suc n) e h le =
    rw (component-append (c ∷ s) ss h.0.1) (ground arith)
segment_loop_lem [] (c ∷ s) (suc k) i m (suc n) e h le =
    rw (component-append (c ∷ s) [] h.0.1, no_more n) (ground arith)
  where
    no_more : (n : ℕ) → segment_loop n (pos m) (suc i) [] ≡ none
    no_more zero = refl
    no_more (suc n) = refl
segment_loop_lem (t ∷ ss) (c ∷ s) (suc k) i m (suc n) e h le =
    rw (component-append (c ∷ s) (t ∷ ss) h.0.1) (
      ground (
        arith,
        segment_loop_lem ss t k (suc i) m n (omega arith) h.1
            (omega (arith, length-append s (47 ∷ (t ++ path_of ss)))),
      ))

-- `path_segment` takes the components of a path apart.
pub path_segment-path_of :
    (s : List ℕ) (ss : List (List ℕ)) (i : ℕ)
    → All IsComponent (s ∷ ss)
    → path_segment (path_of (s ∷ ss)) (pos i) ≡ get_elem? (s ∷ ss) i
unfolding path_segment path_of
path_segment-path_of s ss i h =
    segment_loop_lem ss s i 0 i (length (s ++ path_of ss)) (omega arith) h (omega arith)

slashes-append :
    (s : List ℕ) (ss : List (List ℕ))
    → NoSlash s
    → All IsComponent ss
    → slashes (s ++ path_of ss) ≡ length ss
unfolding slashes path_of
slashes-append [] [] h g = refl
slashes-append [] (t ∷ ss) h g = rw (slashes-append t ss g.0.1 g.1) refl
slashes-append (c ∷ s) ss h g = rw (==_ne c 47 h.0) (slashes-append s ss h.1 g)

-- `path_depth` is the number of a path's components.
pub path_depth-path_of :
    (s : List ℕ) (ss : List (List ℕ))
    → All IsComponent (s ∷ ss)
    → path_depth (path_of (s ∷ ss)) ≡ pos (length (s ∷ ss))
unfolding path_depth path_of
path_depth-path_of [] ss h = absurd (omega (arith, h.0.0))
path_depth-path_of (c ∷ s) ss h = rw (slashes-append (c ∷ s) ss h.0.1 h.1) (ground arith)
