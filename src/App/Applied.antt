-- ===== src/App/Applied.antt =====
-- What the configuration of the streams (apply_stream_config in src/stream/stream.c) makes of each.
use abtst.Common.{
  ℕ, ◌+◌, ◌≡◌, inl, inr, refl, sym, ap, ◌∙◌, true, Option, none, some, List, [], ◌∷◌, arith, ◌==◌,
  Bool-cases, mem,
}
use abtst.Common.Store.{Array}
use abtst.Stream.{Stream, Store, put_stream}
use abtst.Stream.Lifecycle.{apply_config}

-- What the configuration of the streams `is` makes of the stream `j`.
pub record Applied (map : Array (Option ℕ)) (is : List ℕ) (j : ℕ) (a b : Stream) : Type 0 where
  pub owned : (p : ℕ) → map j ≡ some p → mem j is ≡ true → (b.used ≡ true) × (b.part_id ≡ p)
  pub kept :
      (p : ℕ) → map j ≡ some p → a.used ≡ true → a.part_id ≡ p → (b.used ≡ true) × (b.part_id ≡ p)
  pub unused : map j ≡ none → b.used ≡ a.used

Applied-cons :
    (map : Array (Option ℕ)) (i j : ℕ) (is : List ℕ) (a m b : Stream)
    → ((p : ℕ) → map j ≡ some p → j ≡ i → (m.used ≡ true) × (m.part_id ≡ p))
    → ((p : ℕ) → map j ≡ some p → a.used ≡ true → a.part_id ≡ p → (m.used ≡ true) × (m.part_id ≡ p))
    → (map j ≡ none → m.used ≡ a.used)
    → Applied map is j m b
    → Applied map (i ∷ is) j a b
Applied-cons map i j is a m b here kept unused v = record {
  owned = λ p e h. elim (Bool-cases (j == i)) [
    | inl same ↦ let c = here p e (ground (arith, same)) in v.kept p e c.0 c.1
    | inr apart ↦ v.owned p e (ground (arith, h, apart))
  ];
  kept = λ p e u q. let c = kept p e u q in v.kept p e c.0 c.1;
  unused = λ e. v.unused e ∙ unused e;
}

-- The entry `i`, whose place in the map is `o`.
apply_config-cons :
    (map : Array (Option ℕ)) (i : ℕ) (is : List ℕ) (cnt : ℕ) (s : Store) (j : ℕ) (o : Option ℕ)
    → map i ≡ o
    → ((n : ℕ) (t : Store)
        → Applied map is j (t.streams j) ((apply_config map is (n, t)).1.streams j))
    → Applied map (i ∷ is) j (s.streams j) ((apply_config map (i ∷ is) (cnt, s)).1.streams j)
unfolding apply_config
apply_config-cons map i is cnt s j none e rest =
    rw (apply_config, e)
      (Applied-cons map i j is (s.streams j) (s.streams j)
        ((apply_config map is (cnt, s)).1.streams j)
        (λ p h same. absurd (let bad : some p ≡ none = sym h ∙ (ap map same ∙ e) in cc))
        (λ p h u q. (u, q)) (λ h. refl) (rest cnt s))
apply_config-cons map i is cnt s j (some p) e rest =
    let st : Stream = record (s.streams i) { used = true; part_id = p } in
    let one = put_stream i st s in
    let hit : (q : ℕ) → map j ≡ some q → j ≡ i → p ≡ q =
      λ q h same. let eq : some p ≡ some q = sym e ∙ (ap map (sym same) ∙ h) in cc in
    rw (apply_config, e)
      (Applied-cons map i j is (s.streams j) (one.streams j)
        ((apply_config map is (cnt + 1, one)).1.streams j)
        (λ q h same. let b : (j == i) ≡ true = ground arith in rw b (refl, hit q h same))
        (λ q h u part. elim (Bool-cases (j == i)) [
          | inl b ↦ rw b (refl, hit q h (ground (arith, b)))
          | inr b ↦ rw b (u, part)
        ])
        (λ h. elim (Bool-cases (j == i)) [
          | inl b ↦
              let same : j ≡ i = ground (arith, b) in
              absurd (let bad : some p ≡ none = sym e ∙ (ap map (sym same) ∙ h) in cc)
          | inr b ↦ rw b refl
        ])
        (rest (cnt + 1) one))

pub apply_config-Applied :
    (map : Array (Option ℕ)) (is : List ℕ) (cnt : ℕ) (s : Store) (j : ℕ)
    → Applied map is j (s.streams j) ((apply_config map is (cnt, s)).1.streams j)
unfolding apply_config
apply_config-Applied map [] cnt s j = record {
  owned = λ p e h. cc;
  kept = λ p e u q. (u, q);
  unused = λ e. refl;
}
apply_config-Applied map (i ∷ is) cnt s j =
    apply_config-cons map i is cnt s j (map i) refl (λ n t. apply_config-Applied map is n t j)
