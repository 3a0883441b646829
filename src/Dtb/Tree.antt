-- ===== src/Dtb/Tree.antt =====
-- Device trees and their tokens in a blob, as the flattened format of kernel/src/dtb.c lists them: the
-- properties of a node, then its children.
use osc.Common.{ℕ, ◌≡◌, refl, List, [], ◌∷◌, ◌++◌, Option, none, some, map}
use osc.Dtb.{Token, begin_node, end_node, prop, Step, go, return}
use osc.Dtb.Walk.{then_step, fold, fold-append}

-- `name` and `value` are addresses.
pub record NodeProp : Type 0 where
  pub len : ℕ
  pub name : ℕ
  pub value : ℕ

mutual
  pub data Node : Type 0 where
    node : ℕ → List NodeProp → Nodes → Node

  pub data Nodes : Type 0 where
    no_nodes : Nodes
    add : Node → Nodes → Nodes

abbrev pub prop_tokens : List NodeProp → List Token
prop_tokens ps = map (λ p. prop p.len p.name p.value) ps

unfoldable mutual
  pub tokens : Node → List Token
  tokens (node name ps kids) =
      begin_node name ∷ (prop_tokens ps ++ (all_tokens kids ++ (end_node ∷ [])))

  pub all_tokens : Nodes → List Token
  all_tokens no_nodes = []
  all_tokens (add n ns) = tokens n ++ all_tokens ns

module _ {ℓ} {A : Type ℓ} where
  abbrev pub or_else : Option A → Option A → Option A
  or_else none b = b
  or_else (some a) b = some a

module _ {S R : Type 0} where
  -- A search that leaves the state alone until it finds something.
  abbrev pub found_or : Option R → S → Step S R
  found_or none s = go s
  found_or (some r) s = return r

  pub then-found_or :
      (o : Option R) (s : S) (f : S → Step S R) (q : Option R) (s' : S)
      → f s ≡ found_or q s'
      → then_step (found_or o s) f ≡ found_or (or_else o q) s'
  then-found_or none s f q s' e = e
  then-found_or (some r) s f q s' e = refl

  module _ (step : S → Token → Step S R) where
    pub fold-found :
        (ts us : List Token) (o q : Option R) (s s' : S)
        → fold step ts s ≡ found_or o s
        → fold step us s ≡ found_or q s'
        → fold step (ts ++ us) s ≡ found_or (or_else o q) s'
    fold-found ts us o q s s' e g =
        rw (fold-append step ts us s, e) (then-found_or o s (fold step us) q s' g)

    -- The body of a node: what its properties and its children give, and the token at its end.
    pub fold-node :
        (ts us : List Token) (o q : Option R) (s s' : S)
        → fold step ts s ≡ found_or o s
        → fold step us s ≡ found_or q s
        → step s end_node ≡ go s'
        → fold step (ts ++ (us ++ (end_node ∷ []))) s ≡ found_or (or_else o q) s'
    unfolding fold
    fold-node ts us o q s s' e g h =
        fold-found ts (us ++ (end_node ∷ [])) o q s s' e
          (rw (fold-append step us (end_node ∷ []) s, g) (at_end q))
      where
        at_end :
            (q : Option R) → then_step (found_or q s) (fold step (end_node ∷ [])) ≡ found_or q s'
        at_end none = rw h refl
        at_end (some r) = refl
