-- ===== src/Map/Interface.antt =====
-- The callbacks of src/reactor/map.h: `hash`, `equal` of two elements, `equal` with NULL, which asks
-- whether a place is vacant, and `set` with NULL, which makes it so.
use libreactorng.Prelude.{ℕ, ◌≡◌, Bool, true}

pub record Callbacks (E : Type 0) : Type 0 where
  pub empty : E
  pub vacant : E → Bool
  pub equal : E → E → Bool
  pub hash : E → ℕ

-- What the table relies on: an emptied place is vacant, `equal` is an equivalence, and equal
-- elements have one hash.
pub record IsLawful {E : Type 0} (c : Callbacks E) : Type 0 where
  pub vacant-empty : c.vacant c.empty ≡ true
  pub equal_refl : (a : E) → c.equal a a ≡ true
  pub equal_sym : (a b : E) → c.equal a b ≡ true → c.equal b a ≡ true
  pub equal_trans : (a b d : E) → c.equal a b ≡ true → c.equal b d ≡ true → c.equal a d ≡ true
  pub hash-equal : (a b : E) → c.equal a b ≡ true → c.hash a ≡ c.hash b
