-- ===== src/Tests.antt =====
-- Runs of the definitions and the theorems at concrete inputs.
mod Buffers
mod Events
mod Queues
mod Slices
mod Tables
mod Texts
mod Values
mod Vectors
mod Web
use libreactorng.Prelude.{
  ℕ, ◌-◌, ◌≤◌, ◌<◌, ◌≡◌, refl, ◌∙◌, List, ◌++◌, length, take, drop, replicate, arith, length-append,
  length-take, length-replicate, get_elem?_ext, get_elem?-take, get_elem?-append,
}
use libreactorng.Prelude.Memory.{Pointer, bytes, Allocator}

abbrev plain_realloc : Pointer → ℕ → List ℕ
plain_realloc p n = take n (bytes p) ++ replicate (n - length (bytes p)) 0xAA

length-plain_realloc : (p : Pointer) (n : ℕ) → length (plain_realloc p n) ≡ n
length-plain_realloc p n = omega (
  arith,
  length-append (take n (bytes p)) (replicate (n - length (bytes p)) 0xAA),
  length-take n (bytes p),
  length-replicate {A = ℕ} (n - length (bytes p)) 0xAA,
)

take-plain_realloc :
    (p : Pointer) (n k : ℕ)
    → k ≤ n
    → k ≤ length (bytes p)
    → take k (plain_realloc p n) ≡ take k (bytes p)
take-plain_realloc p n k h1 h2 = get_elem?_ext (take k (plain_realloc p n)) (take k (bytes p)) (λ i.
    ground (
      arith,
      get_elem?-take k (plain_realloc p n) i,
      get_elem?-take k (bytes p) i,
      get_elem?-append (take n (bytes p)) (replicate (n - length (bytes p)) 0xAA) i,
      get_elem?-take n (bytes p) i,
      length-take n (bytes p),
    ))

-- An allocator that hands out bytes 0xAA.
abbrev plain : Allocator
plain = record {
  malloc = λ n. replicate n 0xAA;
  realloc = plain_realloc;
  length-malloc = λ n. length-replicate {A = ℕ} n 0xAA;
  length-realloc = length-plain_realloc;
  take-realloc = take-plain_realloc;
}
