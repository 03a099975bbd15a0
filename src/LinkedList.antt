-- ===== src/LinkedList.antt =====
-- include/list.h: circular doubly linked lists over a memory of nodes. An address is a number; each
-- C assignment to a field is one write, in the order of the source.
pub mod Ring
pub mod Add
pub mod Delete
use abtst.Common.{ℕ, suc, zero, Bool, Option, none, some, List, [], ◌∷◌, ◌==◌, if◌then◌else◌}
use abtst.Common.Store.{Array, write}

pub record ListHead : Type 0 where
  pub next : ℕ
  pub prev : ℕ

abbrev pub Memory : Type 0
Memory = Array ListHead

abbrev pub poison1 : ℕ
poison1 = 0x00100100

abbrev pub poison2 : ℕ
poison2 = 0x00200200

unfoldable pub set_next : ℕ → ℕ → Memory → Memory
set_next p v h = write h p (record (h p) { next = v })

unfoldable pub set_prev : ℕ → ℕ → Memory → Memory
set_prev p v h = write h p (record (h p) { prev = v })

unfoldable pub init_list_head : ℕ → Memory → Memory
unfolding set_next set_prev
init_list_head list h = set_prev list list (set_next list list h)

-- `__list_add`
unfoldable pub link_between : ℕ → ℕ → ℕ → Memory → Memory
unfolding set_next set_prev
link_between new prev next h =
    set_next prev new (set_prev new prev (set_next new next (set_prev next new h)))

unfoldable pub list_add : ℕ → ℕ → Memory → Memory
list_add new head h = link_between new head (h head).next h

unfoldable pub list_add_tail : ℕ → ℕ → Memory → Memory
list_add_tail new head h = link_between new (h head).prev head h

-- `__list_del`
unfoldable pub unlink_between : ℕ → ℕ → Memory → Memory
unfolding set_next set_prev
unlink_between prev next h = set_next prev next (set_prev next prev h)

-- `__list_del_entry`
unfoldable pub unlink_entry : ℕ → Memory → Memory
unlink_entry entry h = unlink_between (h entry).prev (h entry).next h

unfoldable pub list_del : ℕ → Memory → Memory
unfolding set_next set_prev
list_del entry h = set_prev entry poison2 (set_next entry poison1 (unlink_entry entry h))

unfoldable pub list_del_init : ℕ → Memory → Memory
list_del_init entry h = init_list_head entry (unlink_entry entry h)

unfoldable pub list_empty : ℕ → Memory → Bool
list_empty head h = (h head).next == head

-- `__list_splice`
unfoldable pub splice_between : ℕ → ℕ → ℕ → Memory → Memory
unfolding set_next set_prev
splice_between list prev next h =
    let first = (h list).next in
    let last = (h list).prev in
    set_prev next last (set_next last next (set_next prev first (set_prev first prev h)))

unfoldable pub list_splice : ℕ → ℕ → Memory → Memory
list_splice list head h = if list_empty list h then h else splice_between list head (h head).next h

-- `list_for_each`, which collects the nodes visited from `p` on. Fuel bounds the number of nodes;
-- `none` means that it did not suffice.
unfoldable pub nodes_from : ℕ → ℕ → ℕ → Memory → Option (List ℕ)
nodes_from zero head p h = none
nodes_from (suc fuel) head p h =
    let rest = nodes_from fuel head (h p).next h in
    if p == head then some [] else elim rest [ none ↦ none | some q ↦ some (p ∷ q) ]

unfoldable pub list_for_each : ℕ → ℕ → Memory → Option (List ℕ)
unfolding nodes_from
list_for_each fuel head h = nodes_from fuel head (h head).next h
