-- ===== src/LinkedList/Ring.antt =====
-- What a memory of include/list.h stands for: the ring of a list head, and what it takes to keep it.
use abtst.Common.{
  Distinct, mem-append, ℕ, suc, zero, ◌<◌, ◌≡◌, ◌≢◌, sym, Bool, true, false, some, List, [], ◌∷◌,
  ◌++◌, arith, mem, length,
}
use abtst.LinkedList.{Memory, list_empty, nodes_from, list_for_each}

-- From `p` the links lead through `xs` to `q`, forwards and backwards.
abbrev pub Chain : Memory → ℕ → List ℕ → ℕ → Type 0
Chain h p [] q = ((h p).next ≡ q) × ((h q).prev ≡ p)
Chain h p (x ∷ xs) q = ((h p).next ≡ x) × ((h x).prev ≡ p) × Chain h x xs q

-- The nodes `xs` are queued on `head`, in this order from `head->next` on.
pub record Ring (h : Memory) (head : ℕ) (xs : List ℕ) : Type 0 where
  pub chain : Chain h head xs head
  pub distinct : Distinct (head ∷ xs)

-- A chain is read through the `next` of its nodes but the last and the `prev` of its nodes but the
-- first.
pub Chain-frame :
    {h g : Memory} (p : ℕ) (xs : List ℕ) (q : ℕ)
    → Chain h p xs q
    → ((a : ℕ) → mem a (p ∷ xs) ≡ true → (g a).next ≡ (h a).next)
    → ((a : ℕ) → mem a (xs ++ q ∷ []) ≡ true → (g a).prev ≡ (h a).prev)
    → Chain g p xs q
Chain-frame p [] q c n v = ground (arith, n p, v q)
Chain-frame p (x ∷ xs) q c n v = (
  ground (arith, n p),
  ground (arith, v x),
  Chain-frame x xs q c.2 (λ a m. n a (ground arith)) (λ a m. v a (ground arith)),
)

pub Chain-append :
    (h : Memory) (p : ℕ) (xs : List ℕ) (m : ℕ) (ys : List ℕ) (q : ℕ)
    → Chain h p xs m
    → Chain h m ys q
    → Chain h p (xs ++ m ∷ ys) q
Chain-append h p [] m ys q c d = (c.0, c.1, d)
Chain-append h p (x ∷ xs) m ys q c d = (c.0, c.1, Chain-append h x xs m ys q c.2 d)

pub Chain-split :
    (h : Memory) (p : ℕ) (xs : List ℕ) (m : ℕ) (ys : List ℕ) (q : ℕ)
    → Chain h p (xs ++ m ∷ ys) q
    → Chain h p xs m × Chain h m ys q
Chain-split h p [] m ys q c = ((c.0, c.1), c.2)
Chain-split h p (x ∷ xs) m ys q c =
    let rest = Chain-split h x xs m ys q c.2 in ((c.0, c.1, rest.0), rest.1)

-- A ring survives any change that spares its own nodes.
pub Ring-frame :
    {h g : Memory} {head : ℕ} {xs : List ℕ}
    → Ring h head xs
    → ((a : ℕ) → mem a (head ∷ xs) ≡ true → g a ≡ h a)
    → Ring g head xs
Ring-frame {head} {xs} r same = record {
  chain =
      Chain-frame head xs head r.chain (λ a m. ground (arith, same a))
        (λ a m. ground (arith, same a, mem-append a xs (head ∷ [])));
  distinct = r.distinct;
}

abbrev pub is_nil : List ℕ → Bool
is_nil [] = true
is_nil (x ∷ xs) = false

module _ {h : Memory} {head : ℕ} where
  -- On a ring, `list_empty` tells whether no node is queued.
  pub list_empty-Ring : {xs : List ℕ} → Ring h head xs → list_empty head h ≡ is_nil xs
  unfolding list_empty
  list_empty-Ring {xs = []} r = ground (arith, r.chain)
  list_empty-Ring {xs = x ∷ xs} r = ground (arith, r.chain, r.distinct)

nodes_from-Chain :
    (h : Memory) (head fuel p : ℕ) (xs : List ℕ)
    → Chain h p xs head
    → mem head xs ≡ false
    → length xs < fuel
    → nodes_from fuel head (h p).next h ≡ some xs
unfolding nodes_from
nodes_from-Chain h head zero p xs c d f = absurd (omega arith)
nodes_from-Chain h head (suc fuel) p [] c d f = ground arith
nodes_from-Chain h head (suc fuel) p (x ∷ xs) c d f =
    ground (arith, nodes_from-Chain h head fuel x xs c.2)

-- With more fuel than nodes, the walk of `list_for_each` ends, and it visits the ring's nodes in
-- their order.
pub list_for_each-Ring :
    (fuel : ℕ) {h : Memory} {head : ℕ} {xs : List ℕ}
    → Ring h head xs
    → length xs < fuel
    → list_for_each fuel head h ≡ some xs
unfolding list_for_each
list_for_each-Ring fuel {h} {head} {xs} r f =
    nodes_from-Chain h head fuel head xs r.chain r.distinct.0 f

-- The nodes on both sides of a place between `xs` and `ys`.
abbrev pub last_of : ℕ → List ℕ → ℕ
last_of p [] = p
last_of p (x ∷ xs) = last_of x xs

abbrev pub first_of : List ℕ → ℕ → ℕ
first_of [] q = q
first_of (y ∷ ys) q = y

pub Chain-last :
    (h : Memory) (p : ℕ) (xs : List ℕ) (q : ℕ) → Chain h p xs q → (h q).prev ≡ last_of p xs
Chain-last h p [] q c = c.1
Chain-last h p (x ∷ xs) q c = Chain-last h x xs q c.2

pub Chain-first :
    (h : Memory) (p : ℕ) (xs : List ℕ) (q : ℕ) → Chain h p xs q → (h p).next ≡ first_of xs q
Chain-first h p [] q c = c.0
Chain-first h p (x ∷ xs) q c = c.0

pub mem-last_of : (x : ℕ) (xs : List ℕ) → mem (last_of x xs) (x ∷ xs) ≡ true
mem-last_of x [] = ground arith
mem-last_of x (y ∷ xs) = ground (arith, mem-last_of y xs)

pub ne_of_mem : (a b : ℕ) (xs : List ℕ) → mem a xs ≡ true → mem b xs ≡ false → a ≢ b
ne_of_mem a b xs m n e = ground (arith, m, n, e)

pub last_apart : (p x : ℕ) (xs ys : List ℕ) → mem p ((x ∷ xs) ++ ys) ≡ false → p ≢ last_of x xs
last_apart p x xs ys d =
    ne_of_mem' p (last_of x xs) ((x ∷ xs) ++ ys) d
      (ground (arith, mem-append (last_of x xs) (x ∷ xs) ys, mem-last_of x xs))
  where
    ne_of_mem' : (a b : ℕ) (zs : List ℕ) → mem a zs ≡ false → mem b zs ≡ true → a ≢ b
    ne_of_mem' a b zs m n e = ne_of_mem b a zs n m (sym e)

pub first_apart :
    (x : ℕ) (xs ys : List ℕ) (q : ℕ) → mem x (xs ++ ys) ≡ false → x ≢ q → x ≢ first_of ys q
first_apart x xs [] q d ne = ne
first_apart x xs (y ∷ ys) q d ne = ground (arith, mem-append x xs (y ∷ ys))
