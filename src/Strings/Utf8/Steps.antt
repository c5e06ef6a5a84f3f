-- ===== src/Strings/Utf8/Steps.antt =====
-- One step of the decoder on the bytes of well-formed sequences, read off its table.
use libreactorng.Prelude.{
  ℕ, ◌+◌, ◌-◌, ◌*◌, ◌/◌, ◌%◌, ◌^◌, ◌≤◌, ◌<◌, ◌≡◌, ◌≢◌, refl, ◌∙◌, true, false, ◌==◌, get_or,
  bit_and, bit_or, arith, ==_iff, ap₂,
}
use libreactorng.Prelude.Bits.{bit_or_comm, bit_or-disjoint, bit_and-mask}
use libreactorng.Prelude.Ranges.{all_from, all_from_lem}
use libreactorng.Strings.Utf8.{utf8d, decode_code}

-- Every byte of a range takes `state` to `next`.
abbrev pub Leads : (state lo n next : ℕ) → Type 0
Leads state lo n next =
    all_from lo n (λ b. get_or utf8d (256 + state + get_or utf8d b 0) 0 == next) ≡ true

-- Every lead byte of a range goes to `next` with its payload, what it has above `base`.
abbrev pub Starts : (lo n next base : ℕ) → Type 0
Starts lo n next base =
    (all_from lo n (λ b. get_or utf8d (256 + get_or utf8d b 0) 0 == next) ≡ true)
    × (all_from lo n (λ b. bit_and (0xff / 2 ^ get_or utf8d b 0) b == b - base) ≡ true)

pub Starts-ascii : Starts 0 0x80 0 0
unfolding utf8d all_from
Starts-ascii = (refl, refl)

pub Starts-two : Starts 0xc2 30 24 0xc0
unfolding utf8d all_from
Starts-two = (refl, refl)

pub Starts-e0 : Starts 0xe0 1 48 0xe0
unfolding utf8d all_from
Starts-e0 = (refl, refl)

pub Starts-e1 : Starts 0xe1 12 36 0xe0
unfolding utf8d all_from
Starts-e1 = (refl, refl)

pub Starts-ed : Starts 0xed 1 60 0xe0
unfolding utf8d all_from
Starts-ed = (refl, refl)

pub Starts-ee : Starts 0xee 2 36 0xe0
unfolding utf8d all_from
Starts-ee = (refl, refl)

pub Starts-f0 : Starts 0xf0 1 72 0xf0
unfolding utf8d all_from
Starts-f0 = (refl, refl)

pub Starts-f1 : Starts 0xf1 3 84 0xf0
unfolding utf8d all_from
Starts-f1 = (refl, refl)

pub Starts-f4 : Starts 0xf4 1 96 0xf0
unfolding utf8d all_from
Starts-f4 = (refl, refl)

pub Leads-last : Leads 24 0x80 64 0
unfolding utf8d all_from
Leads-last = refl

pub Leads-e0 : Leads 48 0xa0 32 24
unfolding utf8d all_from
Leads-e0 = refl

pub Leads-three : Leads 36 0x80 64 24
unfolding utf8d all_from
Leads-three = refl

pub Leads-ed : Leads 60 0x80 32 24
unfolding utf8d all_from
Leads-ed = refl

pub Leads-f0 : Leads 72 0x90 48 36
unfolding utf8d all_from
Leads-f0 = refl

pub Leads-four : Leads 84 0x80 64 36
unfolding utf8d all_from
Leads-four = refl

pub Leads-f4 : Leads 96 0x80 16 36
unfolding utf8d all_from
Leads-f4 = refl

-- What `|` adds to a code that has room: the low six bits of a continuation byte.
low_six :
    (codep byte : ℕ)
    → codep < 2 ^ 26
    → 0x80 ≤ byte
    → byte < 0xc0
    → bit_or (bit_and byte 0x3f) (codep * 2 ^ 6 % 2 ^ 32) ≡ codep * 64 + (byte - 0x80)
low_six codep byte h p q =
    bit_or_comm (bit_and byte 0x3f) (codep * 2 ^ 6 % 2 ^ 32)
    ∙ (ap₂ bit_or (omega arith) (bit_and-mask 6 byte ∙ omega arith)
        ∙ bit_or-disjoint 6 codep (byte - 0x80) (omega arith))

-- A continuation byte in a state that it leads on from.
pub continues :
    (state codep lo n next byte : ℕ)
    → Leads state lo n next
    → state ≢ 0
    → codep < 2 ^ 26
    → 0x80 ≤ lo
    → lo + n ≤ 0xc0
    → lo ≤ byte
    → byte < lo + n
    → decode_code state codep byte ≡ (next, codep * 64 + (byte - 0x80))
unfolding decode_code
continues state codep lo n next byte leads more small above below p q =
    let stays : (state == 0) ≡ false = ground arith in
    ap₂ (λ x y. (x, y))
      ((==_iff _ next).0 (
        all_from_lem lo n (λ b. get_or utf8d (256 + state + get_or utf8d b 0) 0 == next) byte leads
          p q))
      (rw stays (low_six codep byte small (omega arith) (omega arith)))

pub starts :
    (byte lo n next base : ℕ)
    → Starts lo n next base
    → lo ≤ byte
    → byte < lo + n
    → decode_code 0 0 byte ≡ (next, byte - base)
unfolding decode_code
starts byte lo n next base table p q =
    ap₂ (λ x y. (x, y))
      ((==_iff _ next).0
        (all_from_lem lo n (λ b. get_or utf8d (256 + get_or utf8d b 0) 0 == next) byte table.0 p q))
      ((==_iff _ (byte - base)).0 (
        all_from_lem lo n (λ b. bit_and (0xff / 2 ^ get_or utf8d b 0) b == b - base) byte table.1 p
          q))
