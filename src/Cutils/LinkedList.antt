-- ===== src/Cutils/LinkedList.antt =====
-- native/quickjs/list.h: circular doubly linked lists.
pub mod Ring
pub mod Insert
pub mod Remove
use quickjs_runtime.Prelude.{ℕ, Bool, ◌==◌, if◌then◌else◌}

-- The two words of each `list_head`, by address; 0 is NULL.
pub record Heap : Type 0 where
  pub prev : ℕ → ℕ
  pub next : ℕ → ℕ

abbrev pub null : ℕ
null = 0

unfoldable pub write_word : (ℕ → ℕ) → ℕ → ℕ → ℕ → ℕ
write_word words at v x = if x == at then v else words x

unfoldable pub set_prev : ℕ → ℕ → Heap → Heap
set_prev at v h = record h { prev = write_word h.prev at v }

unfoldable pub set_next : ℕ → ℕ → Heap → Heap
set_next at v h = record h { next = write_word h.next at v }

unfoldable pub init_list_head : ℕ → Heap → Heap
init_list_head head h = set_next head head (set_prev head head h)

-- `el` between `before` and `after`: four writes in this order.
unfoldable pub list_add_between : ℕ → ℕ → ℕ → Heap → Heap
list_add_between el before after h =
    set_prev after el (set_next el after (set_prev el before (set_next before el h)))

unfoldable pub list_add : ℕ → ℕ → Heap → Heap
list_add el head h = list_add_between el head (h.next head) h

unfoldable pub list_add_tail : ℕ → ℕ → Heap → Heap
list_add_tail el head h = list_add_between el (h.prev head) head h

unfoldable pub unlink : ℕ → ℕ → ℕ → Heap → Heap
unlink el before after h =
    set_next el null (set_prev el null (set_prev after before (set_next before after h)))

unfoldable pub list_del : ℕ → Heap → Heap
list_del el h = unlink el (h.prev el) (h.next el) h

unfoldable pub list_empty : ℕ → Heap → Bool
list_empty el h = h.next el == el
