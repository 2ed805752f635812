-- ===== src/Legacy/MemList.antt =====
-- legacy-driver/ve_mem_list.h: the doubly linked ring, on a heap of list heads. An address is a number.
pub mod Ring
use h618_vpu_port.Base.{
  ℕ, zero, suc, ◌+◌, ◌-◌, Bool, true, false, not, ◌&&◌, ◌||◌, Option, none, some, Ret, ok, err,
  Errno, if◌then◌else◌, ◌==◌,
}

-- struct aw_mem_list_head
pub record Links : Type 0 where
  pub aw_next : ℕ
  pub aw_prev : ℕ

-- The list head at an address.
abbrev pub Heap : Type 0
Heap = ℕ → Links

abbrev pub set_next : ℕ → ℕ → Heap → Heap
set_next p v h = λ a. if a == p then record (h a) { aw_next = v } else h a

abbrev pub set_prev : ℕ → ℕ → Heap → Heap
set_prev p v h = λ a. if a == p then record (h a) { aw_prev = v } else h a

-- AW_MEM_INIT_LIST_HEAD
unfoldable pub init_list_head : ℕ → Heap → Heap
init_list_head p h = set_prev p p (set_next p p h)

-- The writes of __aw_list_add, in their order.
unfoldable pub list_add_between : (new prev next : ℕ) → Heap → Heap
list_add_between new prev next h =
    set_next prev new (set_prev new prev (set_next new next (set_prev next new h)))

unfoldable pub mem_list_add : (new head : ℕ) → Heap → Heap
unfolding list_add_between
mem_list_add new head h = list_add_between new head (h head).aw_next h

unfoldable pub mem_list_add_tail : (new head : ℕ) → Heap → Heap
unfolding list_add_between
mem_list_add_tail new head h = list_add_between new (h head).aw_prev head h

unfoldable pub list_del_between : (prev next : ℕ) → Heap → Heap
list_del_between prev next h = set_next prev next (set_prev next prev h)

-- AW_LIST_LOCATION1 and AW_LIST_LOCATION2
abbrev pub list_location1 : ℕ
list_location1 = 0x00100100

abbrev pub list_location2 : ℕ
list_location2 = 0x00200200

unfoldable pub mem_list_del : ℕ → Heap → Heap
unfolding list_del_between
mem_list_del entry h =
    set_prev entry list_location2
      (set_next entry list_location1 (list_del_between (h entry).aw_prev (h entry).aw_next h))
