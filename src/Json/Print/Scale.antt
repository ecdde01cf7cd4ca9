-- ===== src/Json/Print/Scale.antt =====
-- `json_calc_freqscale` on counters that are not negative.
use atophttpd.Prelude.{ℕ, ◌*◌, ◌/◌, ◌^◌, ◌≤◌, ◌<◌, ◌≡◌, refl, false, pos, eqb_ℤ, done, arith}
use native.Mathlib.Nat.{div-le_self, div-le_of_le-mul}
use atophttpd.Json.Lines.{times, quot, to_int}
use atophttpd.Json.Print.Cpu.{json_calc_freqscale}

quot_pos : (c t : ℕ) → 0 < t → c < 2 ^ 63 → quot (pos c) (pos t) ≡ done (pos (c / t))
unfolding quot
quot_pos c t h l = let small : c / t ≤ c = div-le_self c t in ground (arith, small)

times_pos : (a b : ℕ) → a * b < 2 ^ 63 → times (pos a) (pos b) ≡ done (pos (a * b))
unfolding times
times_pos a b l = ground (arith, l)

to_int_pos : (n : ℕ) → n < 2 ^ 31 → to_int (pos n) ≡ pos n
unfolding to_int
to_int_pos n l = ground (arith, l)

percent_le : (f m : ℕ) → 0 < m → f ≤ m → 100 * f / m ≤ 100
percent_le f m h l = div-le_of_le-mul m (omega (arith, l))

-- For a top frequency and ticks above 0, a count of at most their product and below 2^63, and a
-- top frequency whose hundredfold is below 2^63, `json_calc_freqscale` does not overflow: it
-- gives the quotient of count and ticks, and its rounded-down part of the top frequency in
-- percent, which is at most 100.
pub json_calc_freqscale_lem :
    (maxfreq cnt ticks : ℕ)
    → 0 < maxfreq
    → 0 < ticks
    → cnt ≤ ticks * maxfreq
    → cnt < 2 ^ 63
    → 100 * maxfreq < 2 ^ 63
    → (json_calc_freqscale (pos maxfreq) (pos cnt) (pos ticks)
        ≡ done (pos (cnt / ticks), pos (100 * (cnt / ticks) / maxfreq)))
      × (100 * (cnt / ticks) / maxfreq ≤ 100)
unfolding json_calc_freqscale
json_calc_freqscale_lem maxfreq cnt ticks m t below c room =
    let freq : cnt / ticks ≤ maxfreq = div-le_of_le-mul ticks below in
    let percent = percent_le (cnt / ticks) maxfreq m freq in
    let first : eqb_ℤ (pos maxfreq) (pos 0) ≡ false = ground arith in
    let second : eqb_ℤ (pos ticks) (pos 0) ≡ false = ground arith in
    (
      rw
          (
            first,
            second,
            quot_pos cnt ticks t c,
            times_pos 100 (cnt / ticks) (omega (arith, freq)),
            quot_pos (100 * (cnt / ticks)) maxfreq m (omega (arith, freq)),
            to_int_pos (100 * (cnt / ticks) / maxfreq) (omega (arith, percent)),
            json_calc_freqscale,
          )
          refl,
      percent,
    )
