-- ===== src/Examples/Rings.antt =====
-- Runs of the models of include/list.h: a head at address 1 and nodes at 2, 3 and 4.
use abtst.Common.{◌≡◌, refl, some, [], ◌∷◌, arith, ◌==◌, if◌then◌else◌}
use abtst.LinkedList.{Memory, list_for_each, list_del_init}
use abtst.LinkedList.Ring.{Ring, list_for_each-Ring}
use abtst.LinkedList.Delete.{list_del_init-Ring}

abbrev two : Memory
two a =
    if a == 1
    then record { next = 2; prev = 3 }
    else if a == 2
    then record { next = 3; prev = 1 }
    else record { next = 1; prev = 2 }

two-Ring : Ring two 1 (2 ∷ 3 ∷ [])
two-Ring = record {
  chain = (refl, refl, (refl, refl, (refl, refl)));
  distinct = (refl, (refl, (refl, tt)));
}

list_for_each-Ring_example : list_for_each 5 1 two ≡ some (2 ∷ 3 ∷ [])
list_for_each-Ring_example = list_for_each-Ring 5 two-Ring (omega arith)

list_del_init-Ring_example : Ring (list_del_init 3 two) 1 (2 ∷ []) × Ring (list_del_init 3 two) 3 []
list_del_init-Ring_example = list_del_init-Ring (2 ∷ []) 3 [] two-Ring
