-- ===== src/Examples/Nodes.antt =====
-- The machine of the examples as the files of /sys name it.
use abtst.Common.{
  ℕ, ◌-◌, ◌≡◌, refl, inl, arith, Option, none, some, List, [], ◌∷◌, ◌==◌, if◌then◌else◌,
}
use abtst.Common.Int.{to_int}
use abtst.Env.{Env}
use abtst.Env.Sysfs.{node_of, init_env_from}
use abtst.Env.Nodes.{Discovered, init_env_from-Discovered}
use abtst.Examples.Machine.{env, numa_info}

-- "node1", "online" and "node0".
abbrev entries : List (List ℕ)
entries =
    (110 ∷ 111 ∷ 100 ∷ 101 ∷ 49 ∷ [])
    ∷ (111 ∷ 110 ∷ 108 ∷ 105 ∷ 110 ∷ 101 ∷ [])
    ∷ (110 ∷ 111 ∷ 100 ∷ 101 ∷ 48 ∷ [])
    ∷ []

-- "0-1" and "2-3", with the line's end.
abbrev line : ℕ → List ℕ
line i = if i == 0 then 48 ∷ 45 ∷ 49 ∷ 10 ∷ [] else 50 ∷ 45 ∷ 51 ∷ 10 ∷ []

-- Numbers of one digit.
abbrev digit : List ℕ → ℕ
digit [] = 0
digit (c ∷ cs) = c - 48

abbrev scan : List ℕ → Option ℕ × Option ℕ
scan (a ∷ dash ∷ b ∷ cs) = (some (a - 48), some (b - 48))
scan (a ∷ cs) = (some (a - 48), none)
scan [] = (none, none)

init_env_from-Discovered_example :
    (found : Env) × (init_env_from digit scan 4 (some entries) (λ i. some (some (line i))) env
      ≡ some found)
    × Discovered 4 2 numa_info found
unfolding node_of to_int
init_env_from-Discovered_example =
    init_env_from-Discovered digit scan 4 1 entries (λ i. some (some (line i))) line numa_info env
      (omega arith) (omega arith)
      ((λ nd e. ground arith), ((λ nd e. ground arith), ((λ nd e. ground arith), tt))) (inl refl)
      (λ i h. refl) (λ i h. ground arith) (λ i h. ground arith) (λ i h. ground arith)
