-- ===== src/Stats/Convert.antt =====
-- The unit of a size.
use aio4c.Prelude.{ℕ, refl, ◌*◌, ◌^◌, ◌≤◌, ◌<◌, ◌≡◌, ltb, Bool, true, false, arith, if◌then◌else◌}
use aio4c.Stats.{SizeUnit, b, kb, mb, gb, tb, convert_size}

-- The number of divisions by 1024 that a unit stands for.
abbrev pub power_of : SizeUnit → ℕ
power_of b = 0
power_of kb = 1
power_of mb = 2
power_of gb = 3
power_of tb = 4

-- A size that is printed as `m`, after `n` divisions and with a unit: the unit stands for those divisions, and `m` is
-- less than 1024 but for the largest unit, and at least 1 but for the smallest.
pub record IsConverted (bytes : ℕ) (r : ℕ × SizeUnit) : Type 0 where
  pub power : power_of r.1 ≡ r.0
  pub at_most : r.0 < 4 → bytes < 1024 * 1024 ^ r.0
  pub at_least : 0 < r.0 → 1024 ^ r.0 ≤ bytes

-- `_ConvertSize` of any size: the unit that it returns stands for the number of divisions, the printed number is less than 1024
-- unless the unit is tb, and at least 1 unless the unit is b.
pub convert_size-IsConverted : (bytes : ℕ) → IsConverted bytes (convert_size bytes)
unfolding convert_size
convert_size-IsConverted bytes =
    go (ltb bytes 1024) (ltb bytes 1048576) (ltb bytes 1073741824) (ltb bytes 1099511627776) refl
      refl refl refl
  where
    go :
        (w x y z : Bool)
        → ltb bytes 1024 ≡ w
        → ltb bytes 1048576 ≡ x
        → ltb bytes 1073741824 ≡ y
        → ltb bytes 1099511627776 ≡ z
        → IsConverted bytes (
            if w
            then (0, b)
            else if x
            then (1, kb)
            else if y
            then (2, mb)
            else if z
            then (3, gb)
            else (4, tb))
    go true x y z e f g h = record {
      power = refl;
      at_most = λ p. ground (arith, e);
      at_least = λ p. absurd (omega (arith, p));
    }
    go false true y z e f g h = record {
      power = refl;
      at_most = λ p. ground (arith, f);
      at_least = λ p. ground (arith, e);
    }
    go false false true z e f g h = record {
      power = refl;
      at_most = λ p. ground (arith, g);
      at_least = λ p. ground (arith, f);
    }
    go false false false true e f g h = record {
      power = refl;
      at_most = λ p. ground (arith, h);
      at_least = λ p. ground (arith, g);
    }
    go false false false false e f g h = record {
      power = refl;
      at_most = λ p. absurd (omega (arith, p));
      at_least = λ p. ground (arith, h);
    }
