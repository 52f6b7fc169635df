-- ===== src/Ratio/Tests.antt =====
-- Ratios of small numbers.
use chenlongos.Prelude.{◌≡◌, ◌<◌, ◌≤◌, ◌^◌, refl, some, arith}
use chenlongos.Ratio.{Ratio, new, find_mult, halve, mul_trunc, mul_round}
use chenlongos.Ratio.Precision.{Close, new-Close}

abbrev two_thirds : Ratio
two_thirds = record { numerator = 2; denominator = 3; mult = 2863311531; shift = 32 }

two_thirds_new : new 2 3 ≡ some two_thirds
unfolding new find_mult halve
two_thirds_new = refl

two_thirds_trunc : mul_trunc two_thirds 100 ≡ 66
two_thirds_trunc = refl

two_thirds_round : mul_round two_thirds 100 ≡ 67
two_thirds_round = refl

new-Close_example :
    (r : Ratio) × (new 2 3 ≡ some r)
    × (r.mult < 2 ^ 32)
    × (r.shift ≤ 32)
    × Close 2 3 (r.mult, r.shift)
new-Close_example = new-Close 2 3 (omega arith) (omega arith) (omega arith) (omega arith)

abbrev third : Ratio
third = record { numerator = 1; denominator = 3; mult = 1431655765; shift = 32 }

third_new : new 1 3 ≡ some third
unfolding new find_mult halve
third_new = refl

-- A third of three comes out as zero: the product for a third is rounded down.
third_of_three : mul_trunc third 3 ≡ 0
third_of_three = refl
