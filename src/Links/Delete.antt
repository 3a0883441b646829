-- ===== src/Links/Delete.antt =====
-- `list_del`: the node leaves the sequence and is linked to itself.
use osc.Common.{ℕ, ◌≡◌, ◌≢◌, ◌⊎◌, inl, inr, refl, sym, ◌∙◌, ap, arith, List, [], ◌∷◌, ◌++◌}
use osc.Common.In.{In, Distinct, In-append-left, In-append-right}
use osc.Links.{Links, del_between, list_del}
use osc.Links.Ring.{Seg, IsRing, Seg-frame, next_start}

-- What `list_del` leaves in the pointers.
module _ (node : ℕ) (m : Links) where
  abbrev m' : Links
  m' = list_del node m

  next_before : m.prev node ≢ node → m'.next (m.prev node) ≡ m.next node
  unfolding list_del del_between
  next_before h = ground arith

  prev_after : m.next node ≢ node → m'.prev (m.next node) ≡ m.prev node
  unfolding list_del del_between
  prev_after h = ground arith

  pub self_linked : (m'.next node ≡ node) × (m'.prev node ≡ node)
  unfolding list_del del_between
  self_linked = ground arith

  next_other : (c : ℕ) → c ≢ node → c ≢ m.prev node → m'.next c ≡ m.next c
  unfolding list_del del_between
  next_other c h k = ground arith

  prev_other : (c : ℕ) → c ≢ node → c ≢ m.next node → m'.prev c ≡ m.prev c
  unfolding list_del del_between
  prev_other c h k = ground arith

Distinct-drop :
    (a x : ℕ) (xs ys : List ℕ) → Distinct (a ∷ (xs ++ (x ∷ ys))) → Distinct (a ∷ (xs ++ ys))
Distinct-drop a x [] ys d = ((λ h. d.0 (inr h)), d.1.1)
Distinct-drop a x (z ∷ xs) ys d = (
  (λ h. d.0 (elim h [ inl e ↦ inl e | inr g ↦ inr (in_widen a x xs ys g) ])),
  Distinct-drop z x xs ys d.1,
)
  where
    in_widen : (a x : ℕ) (xs ys : List ℕ) → In a (xs ++ ys) → In a (xs ++ (x ∷ ys))
    in_widen a x [] ys h = inr h
    in_widen a x (z ∷ zs) ys (inl e) = inl e
    in_widen a x (z ∷ zs) ys (inr h) = inr (in_widen a x zs ys h)

In-mid : (x : ℕ) (xs ys : List ℕ) → In x (xs ++ (x ∷ ys))
In-mid x [] ys = inl refl
In-mid x (z ∷ xs) ys = inr (In-mid x xs ys)

-- What stands around a node of a segment.
prev_mid :
    (m : Links) (a x : ℕ) (xs ys : List ℕ) (b : ℕ)
    → Seg m a (xs ++ (x ∷ ys)) b
    → In (m.prev x) (a ∷ xs)
prev_mid m a x [] ys b s = inl s.1
prev_mid m a x (z ∷ xs) ys b s = inr (prev_mid m z x xs ys b s.2)

next_mid :
    (m : Links) (a x : ℕ) (xs ys : List ℕ) (b : ℕ)
    → Seg m a (xs ++ (x ∷ ys)) b
    → In (m.next x) ys ⊎ (m.next x ≡ b)
next_mid m a x [] ys b s = next_start m x ys b s.2
next_mid m a x (z ∷ xs) ys b s = next_mid m z x xs ys b s.2

In-eq : (a c : ℕ) (xs : List ℕ) → c ≡ a → In c xs → In a xs
In-eq a c xs e h = rw e at h

In-after : (a x : ℕ) (xs ys : List ℕ) → In a ys → In a (xs ++ (x ∷ ys))
In-after a x xs ys h = In-append-right a xs (x ∷ ys) (inr h)

-- The node is the first of the segment.
del_first :
    (m : Links) (a x : ℕ) (ys : List ℕ) (b : ℕ)
    → Seg m a (x ∷ ys) b
    → Distinct (a ∷ (x ∷ ys))
    → ¬ In b (x ∷ ys)
    → Seg (list_del x m) a ys b
del_first m a x [] b s d nb = (
  ap (list_del x m).next (sym s.1) ∙ next_before x m (λ e. ax (sym s.1 ∙ e)) ∙ s.2.0,
  ap (list_del x m).prev (sym s.2.0) ∙ prev_after x m (λ e. nb (inl (sym s.2.0 ∙ e))) ∙ s.1,
)
  where
    ax : a ≢ x
    ax e = d.0 (inl e)
del_first m a x (y ∷ ys) b s d nb = (
  ap (list_del x m).next (sym s.1) ∙ next_before x m (λ e. ax (sym s.1 ∙ e)) ∙ s.2.0,
  ap (list_del x m).prev (sym s.2.0) ∙ prev_after x m (λ e. xy (sym e ∙ s.2.0)) ∙ s.1,
  Seg-frame m (list_del x m) y ys b
      (λ c h.
        next_other x m c (λ e. d.1.0 (In-eq x c (y ∷ ys) e h))
          (λ e. d.0 (inr (In-eq a c (y ∷ ys) (e ∙ s.1) h))))
      (λ c h.
        prev_other x m c
          (λ e. elim h [ inl g ↦ d.1.0 (inr (In-eq x c ys e g)) | inr g ↦ nb (inl (sym g ∙ e)) ])
          (λ e. elim h [
            | inl g ↦ d.1.1.0 (In-eq y c ys (e ∙ s.2.0) g)
            | inr g ↦ nb (inr (inl (sym g ∙ e ∙ s.2.0)))
          ]))
      s.2.2,
)
  where
    ax : a ≢ x
    ax e = d.0 (inl e)

    xy : x ≢ y
    xy e = d.1.0 (inl e)

list_del-Seg :
    (m : Links) (a x : ℕ) (xs ys : List ℕ) (b : ℕ)
    → Seg m a (xs ++ (x ∷ ys)) b
    → Distinct (a ∷ (xs ++ (x ∷ ys)))
    → ¬ In b (xs ++ (x ∷ ys))
    → Seg (list_del x m) a (xs ++ ys) b
list_del-Seg m a x [] ys b s d nb = del_first m a x ys b s d nb
list_del-Seg m a x (z ∷ xs) ys b s d nb = (
  next_other x m a ax (λ e. d.0 (elim (prev_mid m z x xs ys b s.2) [
    | inl g ↦ inl (e ∙ g)
    | inr g ↦ inr (In-append-left a xs (x ∷ ys) (In-eq a (m.prev x) xs (sym e) g))
  ]))
      ∙ s.0,
  prev_other x m z (λ e. d.1.0 (In-eq z x (xs ++ (x ∷ ys)) (sym e) (In-mid x xs ys)))
        (λ e. elim (next_mid m z x xs ys b s.2) [
          | inl g ↦ d.1.0 (In-after z x xs ys (In-eq z (m.next x) ys (sym e) g))
          | inr g ↦ nb (inl (sym g ∙ sym e))
        ])
      ∙ s.1,
  list_del-Seg m z x xs ys b s.2 d.1 (λ h. nb (inr h)),
)
  where
    ax : a ≢ x
    ax e = d.0 (inr (In-eq a x (xs ++ (x ∷ ys)) (sym e) (In-mid x xs ys)))

-- `list_del` takes a node out of its list, whatever its place, and links it to itself.
pub list_del_lem :
    (m : Links) (head x : ℕ) (xs ys : List ℕ)
    → IsRing m head (xs ++ (x ∷ ys))
    → IsRing (list_del x m) head (xs ++ ys) × IsRing (list_del x m) x []
list_del_lem m head x xs ys r = (
  record {
    seg = list_del-Seg m head x xs ys head r.seg r.distinct r.distinct.0;
    distinct = Distinct-drop head x xs ys r.distinct;
  },
  record { seg = self_linked x m; distinct = ((λ h. h), tt) },
)
