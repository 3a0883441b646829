-- ===== src/Links.antt =====
-- The circular doubly linked list of kernel/include/list.h over an explicit store of `prev` and
-- `next` pointers. The other components use the sequence of nodes that `Links.Ring` relates to it.
pub mod Ring
pub mod Add
pub mod Delete
use osc.Common.{ℕ, Bool, ◌==◌, update}

-- All `struct list_head` in memory, by address.
pub record Links : Type 0 where
  pub prev : ℕ → ℕ
  pub next : ℕ → ℕ

abbrev pub set_prev : ℕ → ℕ → Links → Links
set_prev node v m = record m { prev = update m.prev node v }

abbrev pub set_next : ℕ → ℕ → Links → Links
set_next node v m = record m { next = update m.next node v }

unfoldable pub init_list_head : ℕ → Links → Links
init_list_head head m = set_prev head head (set_next head head m)

-- `__list_add`
unfoldable pub add_between : ℕ → ℕ → ℕ → Links → Links
add_between node prev next m =
    set_next prev node (set_prev node prev (set_next node next (set_prev next node m)))

-- `__list_del`
unfoldable pub del_between : ℕ → ℕ → Links → Links
del_between prev next m = set_next prev next (set_prev next prev m)

unfoldable pub list_add : ℕ → ℕ → Links → Links
list_add node head m = add_between node head (m.next head) m

unfoldable pub list_add_tail : ℕ → ℕ → Links → Links
list_add_tail node head m = add_between node (m.prev head) head m

unfoldable pub list_del : ℕ → Links → Links
list_del node m =
    set_prev node node (set_next node node (del_between (m.prev node) (m.next node) m))

unfoldable pub list_empty : ℕ → Links → Bool
list_empty head m = m.next head == head
