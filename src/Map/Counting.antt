-- ===== src/Map/Counting.antt =====
-- The count of the elements of a table, and the room that it leaves.
use libreactorng.Prelude.{
  ℕ, zero, suc, ◌+◌, ◌≤◌, ◌<◌, ◌≡◌, refl, true, false, some, List, [], ◌∷◌, if◌then◌else◌, length,
  get_elem?, set, arith, Bool-cases, inl, inr,
}
use libreactorng.Map.{Map}
use libreactorng.Map.Interface.{Callbacks}

module _ {E : Type 0} (calls : Callbacks E) where
  open calls use {vacant}

  unfoldable pub occupied : List E → ℕ
  occupied [] = 0
  occupied (e ∷ es) = let rest = occupied es in if vacant e then rest else suc rest

  -- The table counts its elements.
  abbrev pub IsCounted : Map E → Type 0
  IsCounted map = map.elements_count ≡ occupied map.elements

  pub one_vacant :
      (es : List E)
      → occupied es < length es
      → (p : ℕ) × (e : E) × (get_elem? es p ≡ some e) × (vacant e ≡ true) × (p < length es)
  unfolding occupied
  one_vacant [] h = absurd (omega arith)
  one_vacant (e ∷ es) h = elim (Bool-cases (vacant e)) [
    | inl free ↦ (0, e, refl, free, omega arith)
    | inr full ↦
        let left : occupied es < length es = ground (arith, full) in
        let (p, e', got, free, less) = one_vacant es left in
        (suc p, e', got, free, omega (arith, less))
  ]

  pub two_vacant :
      (es : List E)
      → occupied es + 2 ≤ length es
      → (p : ℕ) × (e : E) × (get_elem? es p ≡ some e)
        × (vacant e ≡ true)
        × (q : ℕ) × (e' : E) × (get_elem? es q ≡ some e')
        × (vacant e' ≡ true)
        × (p < q)
        × (q < length es)
  unfolding occupied
  two_vacant [] h = absurd (omega arith)
  two_vacant (e ∷ es) h = elim (Bool-cases (vacant e)) [
    | inl free ↦
        let left : occupied es < length es = ground (arith, free) in
        let (q, e', got, free', less) = one_vacant es left in
        (0, e, refl, free, suc q, e', got, free', omega arith, omega (arith, less))
    | inr full ↦
        let left : occupied es + 2 ≤ length es = ground (arith, full) in
        let (p, a, got, free, q, b, got', free', order, less) = two_vacant es left in
        (suc p, a, got, free, suc q, b, got', free', omega (arith, order), omega (arith, less))
  ]

  pub occupied-set :
      (es : List E) (p : ℕ) (e x : E)
      → get_elem? es p ≡ some e
      → vacant e ≡ true
      → vacant x ≡ false
      → occupied (set es p x) ≡ suc (occupied es)
  unfolding occupied
  occupied-set [] p e x got free full = ground (arith, got)
  occupied-set (a ∷ es) zero e x got free full = ground (arith, got)
  occupied-set (a ∷ es) (suc p) e x got free full =
      ground (arith, occupied-set es p e x got free full)
