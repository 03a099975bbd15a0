-- ===== src/Env/Sysfs.antt =====
-- get_numa_nodes and get_node_cpus (src/arch/env.c): the NUMAs that the files of /sys name. A string is
-- the list of its bytes.
use abtst.Common.{
  ℕ, ◌+◌, ◌-◌, ◌^◌, ◌%◌, Option, none, some, List, [], ◌∷◌, ltb, ◌==◌, if◌then◌else◌, require,
  ◌>>=◌, ◌>>◌, u32_mod,
}
use abtst.Common.Int.{ℤ, pos, ltb_ℤ, to_int, pos_part}
use abtst.Env.{Env, Numa, init_env, single_numa}

-- "node".
abbrev pub node_prefix : List ℕ
node_prefix = 110 ∷ 111 ∷ 100 ∷ 101 ∷ []

-- What follows a prefix of a string, if `strncmp` finds the prefix there.
unfoldable pub after_prefix : List ℕ → List ℕ → Option (List ℕ)
after_prefix [] name = some name
after_prefix (c ∷ prefix) [] = none
after_prefix (c ∷ prefix) (d ∷ name) =
    let rest = after_prefix prefix name in if c == d then rest else none

-- `strtoul` is the C library's, with the base 0; its result is converted to an int.
module _ (strtoul : List ℕ → ℕ) where
  -- The number of the node that an entry of the directory stands for, if it stands for one.
  unfoldable pub node_of : List ℕ → Option ℤ
  unfolding after_prefix
  node_of name = after_prefix node_prefix name >>= λ rest. some (to_int (strtoul rest % u32_mod))

  -- `max_nodes` starts at 0 and is only raised.
  unfoldable pub raise_max : Option ℤ → ℕ → ℕ
  raise_max none max = max
  raise_max (some nd) max = if ltb_ℤ (pos max) nd then pos_part nd else max

  unfoldable pub find_max : List (List ℕ) → ℕ → ℕ
  unfolding raise_max node_of
  find_max [] max = max
  find_max (name ∷ names) max = find_max names (raise_max (node_of name) max)

  -- `entries` is what readdir gives, `none` where the directory cannot be opened. The sum is one of
  -- ints.
  unfoldable pub get_numa_nodes : Option (List (List ℕ)) → Option ℕ
  unfolding find_max
  get_numa_nodes none = some 1
  get_numa_nodes (some entries) =
      let max = find_max entries 0 in require (ltb max (2 ^ 31 - 1)) >> some (max + 1)

-- The values that sscanf stores; a variable that it does not come to keeps its own.
abbrev pub scanned : Option ℕ → ℕ → ℕ
scanned none old = old
scanned (some v) old = v

-- `scan` is sscanf with "%d-%d\n". The file of a node is `none` where it cannot be opened, and its
-- first line is where nothing can be read. `none` is the result -1.
module _ (scan : List ℕ → Option ℕ × Option ℕ) where
  unfoldable pub get_node_cpus : Option (Option (List ℕ)) → Numa → Option Numa
  get_node_cpus none old = none
  get_node_cpus (some none) old = none
  get_node_cpus (some (some line)) old =
      let (start, end) = scan line in
      some
        (record { start_core = scanned start old.start_core; end_core = scanned end old.end_core })

-- abtst_init_env with what sysconf and the files say.
unfoldable pub init_env_from :
    (List ℕ → ℕ)
    → (List ℕ → Option ℕ × Option ℕ)
    → ℕ
    → Option (List (List ℕ))
    → (ℕ → Option (Option (List ℕ)))
    → Env
    → Option Env
init_env_from strtoul scan cores entries files env₀ = do
  nodes ← get_numa_nodes strtoul entries
  let before = single_numa (record env₀ { nr_cores = cores })
  init_env cores nodes (λ i. get_node_cpus scan (files i) (before.numa_info i)) env₀
