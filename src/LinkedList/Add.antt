-- ===== src/LinkedList/Add.antt =====
-- `list_add` and `list_add_tail` (include/list.h) on the ring of a head.
use abtst.Common.{
  Distinct, mem-append, ℕ, ◌≡◌, ◌≢◌, sym, subst, ◌∙◌, false, List, [], ◌∷◌, ◌++◌, arith, mem,
}
use mathlib.Core.List.{append-nil}
use abtst.LinkedList.{Memory, link_between, list_add, list_add_tail}
use abtst.LinkedList.Ring.{
  Chain, Ring, Chain-frame, Chain-first, Chain-last, last_of, first_of, mem-last_of, last_apart,
  first_apart, ne_of_mem,
}

-- `g` is `h` with `new` linked in between `l` and `r`.
pub record Linked (h g : Memory) (new l r : ℕ) : Type 0 where
  pub next_l : (g l).next ≡ new
  pub prev_new : (g new).prev ≡ l
  pub next_new : (g new).next ≡ r
  pub prev_r : (g r).prev ≡ new
  pub same_next : (a : ℕ) → a ≢ l → a ≢ new → (g a).next ≡ (h a).next
  pub same_prev : (a : ℕ) → a ≢ r → a ≢ new → (g a).prev ≡ (h a).prev

link_between-Linked :
    (h : Memory) (new l r : ℕ) → new ≢ l → new ≢ r → Linked h (link_between new l r h) new l r
unfolding link_between
link_between-Linked h new l r nl nr = record {
  next_l = ground arith;
  prev_new = ground arith;
  next_new = ground arith;
  prev_r = ground arith;
  same_next = λ a i j. ground arith;
  same_prev = λ a i j. ground arith;
}

module _ {h g : Memory} (new : ℕ) where
  Chain-insert_front :
      (p : ℕ) (ys : List ℕ) (q : ℕ)
      → Chain h p ys q
      → Linked h g new p (first_of ys q)
      → mem p ys ≡ false
      → Distinct ys
      → mem q ys ≡ false
      → mem new ys ≡ false
      → new ≢ p
      → new ≢ q
      → Chain g p (new ∷ ys) q
  Chain-insert_front p [] q c k d e f i j n = (k.next_l, k.prev_new, (k.next_new, k.prev_r))
  Chain-insert_front p (y ∷ ys) q c k d e f i j n = (
    k.next_l,
    k.prev_new,
    (
      k.next_new,
      k.prev_r,
      Chain-frame y ys q c.2 (λ a m. k.same_next a (ground arith) (ground arith))
          (λ a m.
            k.same_prev a (ground (arith, mem-append a ys (q ∷ [])))
              (ground (arith, mem-append a ys (q ∷ [])))),
    ),
  )

  Chain-insert :
      (p : ℕ) (xs ys : List ℕ) (q : ℕ)
      → Chain h p (xs ++ ys) q
      → Linked h g new (last_of p xs) (first_of ys q)
      → mem p (xs ++ ys) ≡ false
      → Distinct (xs ++ ys)
      → mem q (xs ++ ys) ≡ false
      → mem new (xs ++ ys) ≡ false
      → new ≢ p
      → new ≢ q
      → Chain g p (xs ++ new ∷ ys) q
  Chain-insert p [] ys q c k d e f i j n = Chain-insert_front p ys q c k d e f i j n
  Chain-insert p (x ∷ xs) ys q c k d e f i j n = (
    k.same_next p (last_apart p x xs ys d) (λ e'. j (sym e')) ∙ c.0,
    k.same_prev x (first_apart x xs ys q e.0 (ground arith)) (ground arith) ∙ c.1,
    Chain-insert x xs ys q c.2 k e.0 e.1 (ground arith) (ground arith) (ground arith) n,
  )

Distinct-insert :
    (new : ℕ) (xs ys : List ℕ)
    → Distinct (xs ++ ys)
    → mem new (xs ++ ys) ≡ false
    → Distinct (xs ++ new ∷ ys)
Distinct-insert new [] ys d n = (n, d)
Distinct-insert new (x ∷ xs) ys d n = (
  ground (arith, mem-append x xs (new ∷ ys), mem-append x xs ys),
  Distinct-insert new xs ys d.1 (ground arith),
)

module _ {h : Memory} {head : ℕ} {xs : List ℕ} (new : ℕ) (r : Ring h head xs)
    (out : mem new (head ∷ xs) ≡ false) where
  ne_head : new ≢ head
  ne_head = ground arith

  -- `list_add` queues a node that is not in the ring at the front.
  pub list_add-Ring : Ring (list_add new head h) head (new ∷ xs)
  unfolding list_add
  list_add-Ring =
      let far = first_apart new [] xs head (ground arith) ne_head in
      let links = link_between-Linked h new head (first_of xs head) ne_head far in
      record {
        chain =
            Chain-insert new head [] xs head r.chain
              (subst (λ t. Linked h (link_between new head t h) new head (first_of xs head))
                (sym (Chain-first h head xs head r.chain)) links)
              r.distinct.0 r.distinct.1 r.distinct.0 (ground arith) ne_head ne_head;
        distinct = (ground arith, (ground arith, r.distinct.1));
      }

  -- `list_add_tail` queues a node that is not in the ring at the back.
  pub list_add_tail-Ring : Ring (list_add_tail new head h) head (xs ++ new ∷ [])
  unfolding list_add_tail
  list_add_tail-Ring =
      let all : xs ++ [] ≡ xs = append-nil xs in
      let links = link_between-Linked h new (last_of head xs) head last_ne ne_head in
      record {
        chain =
            Chain-insert new head xs [] head (rw all r.chain)
              (subst (λ t. Linked h (link_between new t head h) new (last_of head xs) head)
                (sym (Chain-last h head xs head r.chain)) links)
              (rw all r.distinct.0) (rw all r.distinct.1) (rw all r.distinct.0)
              (rw all (ground arith)) ne_head ne_head;
        distinct = (
          ground (arith, mem-append head xs (new ∷ [])),
          Distinct-insert new xs [] (rw all r.distinct.1) (rw all (ground arith)),
        );
      }
    where
      last_ne : new ≢ last_of head xs
      last_ne e = ne_of_mem (last_of head xs) new (head ∷ xs) (mem-last_of head xs) out (sym e)
