-- ===== src/Links/Add.antt =====
-- `list_add` and `list_add_tail`: the node joins the sequence at its front or its end.
use osc.Common.{ℕ, ◌≡◌, ◌≢◌, inl, inr, sym, ◌∙◌, arith, List, [], ◌∷◌, ◌++◌}
use osc.Common.In.{In, Distinct, append-Distinct}
use osc.Links.{Links, add_between, list_add, list_add_tail}
use osc.Links.Ring.{Seg, IsRing, Seg-frame, prev_end}

-- What `__list_add` leaves in the four pointers, and in all others.
module _ (node p n : ℕ) (m : Links) (np : node ≢ p) (nn : node ≢ n) where
  abbrev m' : Links
  m' = add_between node p n m

  prev_next : m'.prev n ≡ node
  unfolding add_between
  prev_next = ground arith

  next_node : m'.next node ≡ n
  unfolding add_between
  next_node = ground arith

  prev_node : m'.prev node ≡ p
  unfolding add_between
  prev_node = ground arith

  next_prev : m'.next p ≡ node
  unfolding add_between
  next_prev = ground arith

  next_other : (c : ℕ) → c ≢ node → c ≢ p → m'.next c ≡ m.next c
  unfolding add_between
  next_other c h k = ground arith

  prev_other : (c : ℕ) → c ≢ node → c ≢ n → m'.prev c ≡ m.prev c
  unfolding add_between
  prev_other c h k = ground arith

In-eq : (a c : ℕ) (xs : List ℕ) → c ≡ a → In c xs → In a xs
In-eq a c xs e h = rw e at h

-- The pointer that `list_add` reads is the one that is passed on.
at_next :
    (m : Links) (head node n x : ℕ) (xs : List ℕ)
    → n ≡ x
    → Seg (add_between node head x m) head xs head
    → Seg (add_between node head n m) head xs head
at_next m head node n x xs e h = rw e h

list_add-Seg :
    (m : Links) (head node : ℕ) (xs : List ℕ)
    → Seg m head xs head
    → Distinct (head ∷ xs)
    → ¬ In node (head ∷ xs)
    → Seg (add_between node head (m.next head) m) head (node ∷ xs) head
list_add-Seg m head node [] s d f = at_next m head node (m.next head) head (node ∷ []) s.0 (
  next_prev node head head m nh nh,
  prev_node node head head m nh nh,
  (next_node node head head m nh nh, prev_next node head head m nh nh),
)
  where
    nh : node ≢ head
    nh e = f (inl e)
list_add-Seg m head node (x ∷ xs) s d f =
    at_next m head node (m.next head) x (node ∷ (x ∷ xs)) s.0 (
      next_prev node head x m nh nx,
      prev_node node head x m nh nx,
      (
        next_node node head x m nh nx,
        prev_next node head x m nh nx,
        Seg-frame m (add_between node head x m) x xs head
            (λ c h.
              next_other node head x m nh nx c (λ e. f (inr (In-eq node c (x ∷ xs) e h)))
                (λ e. d.0 (In-eq head c (x ∷ xs) e h)))
            (λ c h.
              prev_other node head x m nh nx c
                (λ e. elim h [
                  | inl g ↦ f (inr (inr (In-eq node c xs e g)))
                  | inr g ↦ nh (sym e ∙ g)
                ])
                (λ e. elim h [ inl g ↦ d.1.0 (In-eq x c xs e g) | inr g ↦ d.0 (inl (sym g ∙ e)) ]))
            s.2,
      ),
    )
  where
    nh : node ≢ head
    nh e = f (inl e)

    nx : node ≢ x
    nx e = f (inr (inl e))

-- `list_add` puts a node that is not in the list before its first.
pub list_add_lem :
    (m : Links) (head node : ℕ) (xs : List ℕ)
    → IsRing m head xs
    → ¬ In node (head ∷ xs)
    → IsRing (list_add node head m) head (node ∷ xs)
unfolding list_add
list_add_lem m head node xs r f = record {
  seg = list_add-Seg m head node xs r.seg r.distinct f;
  distinct = (
    (λ h. elim h [ inl e ↦ f (inl (sym e)) | inr g ↦ r.distinct.0 g ]),
    ((λ h. f (inr h)), r.distinct.1),
  );
}

-- The last pointer of a segment is the only one that changes.
add_tail-Seg :
    (m : Links) (a head node : ℕ) (xs : List ℕ)
    → Seg m a xs head
    → Distinct (a ∷ xs)
    → ¬ In head xs
    → ¬ In node (a ∷ xs)
    → node ≢ head
    → Seg (add_between node (m.prev head) head m) a (xs ++ (node ∷ [])) head
add_tail-Seg m a head node [] s d k f nh = rw s.1 (
  next_prev node a head m na nh,
  prev_node node a head m na nh,
  (next_node node a head m na nh, prev_next node a head m na nh),
)
  where
    na : node ≢ a
    na e = f (inl e)
add_tail-Seg m a head node (x ∷ xs) s d k f nh = (
  next_other node (m.prev head) head m np nh a (λ e. f (inl (sym e)))
        (λ e. d.0 (In-eq a (m.prev head) (x ∷ xs) (sym e) last))
      ∙ s.0,
  prev_other node (m.prev head) head m np nh x (λ e. f (inr (inl (sym e)))) (λ e. k (inl (sym e)))
      ∙ s.1,
  add_tail-Seg m x head node xs s.2 d.1 (λ h. k (inr h)) (λ h. f (inr h)) nh,
)
  where
    last : In (m.prev head) (x ∷ xs)
    last = prev_end m x xs head s.2

    np : node ≢ m.prev head
    np e = f (inr (In-eq node (m.prev head) (x ∷ xs) (sym e) last))

-- `list_add_tail` puts a node that is not in the list after its last.
pub list_add_tail_lem :
    (m : Links) (head node : ℕ) (xs : List ℕ)
    → IsRing m head xs
    → ¬ In node (head ∷ xs)
    → IsRing (list_add_tail node head m) head (xs ++ (node ∷ []))
unfolding list_add_tail
list_add_tail_lem m head node xs r f = record {
  seg = add_tail-Seg m head head node xs r.seg r.distinct r.distinct.0 f (λ e. f (inl e));
  distinct = append-Distinct (head ∷ xs) node r.distinct f;
}
