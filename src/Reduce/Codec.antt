-- ===== src/Reduce/Codec.antt =====
-- src/core/reduce.cc: the conversions between 16-bit and 32-bit floating point. A value is its bit
-- pattern, as the code's `memcpy` of a `float` to a `uint32_t` reads it. Masks and shifts of one
-- field are written as remainders and quotients, and `|` of disjoint fields as a sum.
pub mod RoundTrip
pub mod Rounding
use vkccl.Prelude.{
  ℕ, zero, suc, ◌+◌, ◌-◌, ◌*◌, ◌/◌, ◌%◌, ◌^◌, bit_or, Bool, ◌&&◌, ◌||◌, ltb, leb, ◌==◌,
  if◌then◌else◌,
}

-- `while ((mant & 0x400u) == 0) { mant <<= 1; shift++; }`: the mantissa and the shift.
pub normalize : ℕ → ℕ → ℕ → ℕ × ℕ
normalize zero mant shift = (mant, shift)
normalize (suc fuel) mant shift =
    let rest = normalize fuel (mant * 2) (shift + 1) in
    if (mant / 0x400) % 2 == 0 then rest else (mant, shift)

-- A mantissa of ten bits that is not 0 has bit 10 set after at most ten doublings.
unfoldable pub half_to_float : ℕ → ℕ
unfolding normalize
half_to_float h =
    let sign = (h / 0x8000) % 2 * 2 ^ 31 in
    let exp = (h / 2 ^ 10) % 32 in
    let mant = h % 2 ^ 10 in
    let (m, shift) = normalize 10 mant 0 in
    if exp == 0
    then (if mant == 0 then sign else sign + (113 - shift) * 2 ^ 23 + m % 2 ^ 10 * 2 ^ 13)
    else if exp == 31
    then sign + 0x7f800000 + mant * 2 ^ 13
    else sign + (exp + 112) * 2 ^ 23 + mant * 2 ^ 13

-- `if (rem > halfway || (rem == halfway && (half & 1))) half++;`
abbrev pub round_even : ℕ → ℕ → ℕ → ℕ
round_even half rem halfway =
    if ltb halfway rem || rem == halfway && half % 2 == 1 then half + 1 else half

-- The code's `exp` is `e` - 112: `exp >= 0x1f` is `e >= 143`, `exp <= 0` is `e <= 112`,
-- `exp < -10` is `e < 102`, and `14 - exp` is `126 - e`.
unfoldable pub float_to_half : ℕ → ℕ
float_to_half bits =
    let sign = (bits / 2 ^ 31) % 2 * 0x8000 in
    let e = (bits / 2 ^ 23) % 256 in
    let mant = bits % 2 ^ 23 in
    let shift = 126 - e in
    let wide = mant + 0x800000 in
    let half = sign + (e - 112) * 2 ^ 10 + mant / 2 ^ 13 in
    if e == 255
    then sign + 0x7c00 + (if mant == 0 then 0 else 0x200)
    else if leb 143 e
    then sign + 0x7c00
    else if leb e 112
    then (if ltb e 102
        then sign
        else sign + round_even (wide / 2 ^ shift) (wide % 2 ^ shift) (2 ^ (shift - 1)))
    else round_even half (mant % 2 ^ 13) 0x1000 % 2 ^ 16

-- `bf16ToFloat`
unfoldable pub bf16_to_float : ℕ → ℕ
bf16_to_float b = b * 2 ^ 16

-- `(bits & 0x7fffffffu) > 0x7f800000u`
unfoldable pub is_nan : ℕ → Bool
is_nan bits = ltb 0x7f800000 (bits % 2 ^ 31)

-- `floatToBf16`
unfoldable pub float_to_bf16 : ℕ → ℕ
unfolding is_nan
float_to_bf16 bits =
    if is_nan bits
    then bit_or (bits / 2 ^ 16) 0x40 % 2 ^ 16
    else (let rounding = 0x7fff + (bits / 2 ^ 16) % 2 in
        (bits + rounding) % 2 ^ 32 / 2 ^ 16 % 2 ^ 16)
