-- ===== src/Tests/Nodes.antt =====
-- The linked lists of kernel/include/list.h.
use osc.Common.{arith, [], ◌∷◌}
use osc.Common.In.{In}
use osc.Links.{Links, init_list_head, list_add_tail}
use osc.Links.Ring.{IsRing, init_list_head-IsRing}
use osc.Links.Add.{list_add_tail_lem}

abbrev blank : Links
blank = record { prev = λ _. 0; next = λ _. 0 }

abbrev empty : Links
empty = init_list_head 100 blank

empty-IsRing : IsRing empty 100 []
empty-IsRing = init_list_head-IsRing 100 blank

new_200 : ¬ In 200 (100 ∷ [])
new_200 h = ground arith

new_300 : ¬ In 300 (100 ∷ 200 ∷ [])
new_300 h = ground arith

abbrev single : Links
single = list_add_tail 200 100 empty

single-IsRing : IsRing single 100 (200 ∷ [])
single-IsRing = list_add_tail_lem empty 100 200 [] empty-IsRing new_200
