-- ===== src/LinkedList/Delete.antt =====
-- `list_del`, `list_del_init` and `init_list_head` (include/list.h) on rings.
use abtst.Common.{
  Distinct, mem-append, ℕ, ◌≡◌, ◌≢◌, refl, sym, subst, ◌∙◌, false, List, [], ◌∷◌, ◌++◌, arith, mem,
}
use abtst.LinkedList.{Memory, init_list_head, unlink_between, unlink_entry, list_del, list_del_init}
use abtst.LinkedList.Ring.{
  Chain, Ring, Ring-frame, Chain-frame, Chain-split, Chain-first, Chain-last, last_of, first_of,
  last_apart, first_apart,
}

-- `init_list_head` makes an empty ring of any node.
pub init_list_head-Ring : (h : Memory) (list : ℕ) → Ring (init_list_head list h) list []
unfolding init_list_head
init_list_head-Ring h list = record { chain = ground arith; distinct = (refl, tt) }

-- `g` is `h` with `l` and `r` linked to each other.
record Joined (h g : Memory) (l r : ℕ) : Type 0 where
  next_l : (g l).next ≡ r
  prev_r : (g r).prev ≡ l
  same_next : (a : ℕ) → a ≢ l → (g a).next ≡ (h a).next
  same_prev : (a : ℕ) → a ≢ r → (g a).prev ≡ (h a).prev

unlink_between-Joined : (h : Memory) (l r : ℕ) → Joined h (unlink_between l r h) l r
unfolding unlink_between
unlink_between-Joined h l r = record {
  next_l = ground arith;
  prev_r = ground arith;
  same_next = λ a i. ground arith;
  same_prev = λ a i. ground arith;
}

module _ {h g : Memory} (e : ℕ) where
  Chain-join_front :
      (p : ℕ) (ys : List ℕ) (q : ℕ)
      → Chain h e ys q
      → Joined h g p (first_of ys q)
      → mem p ys ≡ false
      → Distinct ys
      → mem q ys ≡ false
      → Chain g p ys q
  Chain-join_front p [] q c k d s f = (k.next_l, k.prev_r)
  Chain-join_front p (y ∷ ys) q c k d s f = (
    k.next_l,
    k.prev_r,
    Chain-frame y ys q c.2 (λ a m. k.same_next a (ground arith))
        (λ a m. k.same_prev a (ground (arith, mem-append a ys (q ∷ [])))),
  )

  Chain-join :
      (p : ℕ) (xs ys : List ℕ) (q : ℕ)
      → Chain h p xs e
      → Chain h e ys q
      → Joined h g (last_of p xs) (first_of ys q)
      → mem p (xs ++ ys) ≡ false
      → Distinct (xs ++ ys)
      → mem q (xs ++ ys) ≡ false
      → Chain g p (xs ++ ys) q
  Chain-join p [] ys q c c' k d s f = Chain-join_front p ys q c' k d s f
  Chain-join p (x ∷ xs) ys q c c' k d s f = (
    k.same_next p (last_apart p x xs ys d) ∙ c.0,
    k.same_prev x (first_apart x xs ys q s.0 (ground arith)) ∙ c.1,
    Chain-join x xs ys q c.2 c' k s.0 s.1 (ground arith),
  )

Distinct-remove :
    (e : ℕ) (xs ys : List ℕ)
    → Distinct (xs ++ e ∷ ys)
    → Distinct (xs ++ ys) × (mem e (xs ++ ys) ≡ false)
Distinct-remove e [] ys d = (d.1, d.0)
Distinct-remove e (x ∷ xs) ys d =
    let rest = Distinct-remove e xs ys d.1 in
    (
      (ground (arith, mem-append x xs ys, mem-append x xs (e ∷ ys)), rest.0),
      ground (arith, mem-append x xs (e ∷ ys)),
    )

module _ {h : Memory} {head : ℕ} (xs : List ℕ) (e : ℕ) (ys : List ℕ)
    (r : Ring h head (xs ++ e ∷ ys)) where
  parted : Distinct (xs ++ ys) × (mem e (xs ++ ys) ≡ false)
  parted = Distinct-remove e xs ys r.distinct.1

  head_out : mem head (xs ++ ys) ≡ false
  head_out = ground (arith, r.distinct, mem-append head xs ys, mem-append head xs (e ∷ ys))

  entry_out : mem e (head ∷ (xs ++ ys)) ≡ false
  entry_out = ground (arith, r.distinct, mem-append head xs (e ∷ ys), parted)

  unlink_entry-Ring : Ring (unlink_entry e h) head (xs ++ ys)
  unfolding unlink_entry
  unlink_entry-Ring =
      let parts = Chain-split h head xs e ys head r.chain in
      let joined = unlink_between-Joined h (last_of head xs) (first_of ys head) in
      record {
        chain =
            Chain-join e head xs ys head parts.0 parts.1
              (subst
                (λ l. Joined h (unlink_between l (h e).next h) (last_of head xs) (first_of ys head))
                (sym (Chain-last h head xs e parts.0))
                (subst
                  (λ n.
                    Joined h (unlink_between (last_of head xs) n h) (last_of head xs)
                      (first_of ys head))
                  (sym (Chain-first h e ys head parts.1)) joined))
              head_out parted.0 head_out;
        distinct = (head_out, parted.0);
      }

  -- `list_del` takes a queued node out of its ring and leaves the others in their order.
  pub list_del-Ring : Ring (list_del e h) head (xs ++ ys)
  unfolding list_del
  list_del-Ring = Ring-frame unlink_entry-Ring λ a m. ground (arith, entry_out)

  -- `list_del_init` takes a queued node out of its ring, leaves the others in their order, and leaves
  -- the node as an empty ring of its own.
  pub list_del_init-Ring : Ring (list_del_init e h) head (xs ++ ys) × Ring (list_del_init e h) e []
  unfolding list_del_init init_list_head
  list_del_init-Ring = (
    Ring-frame unlink_entry-Ring (λ a m. ground (arith, entry_out)),
    record { chain = ground arith; distinct = (refl, tt) },
  )
