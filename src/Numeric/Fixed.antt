-- ===== src/Numeric/Fixed.antt =====
-- An instance of `Numeric` that meets the laws: units of 2^-48 as numbers, with the type's end.
use godl_program.Base.{
  ℕ, ◌*◌, ◌+◌, ◌-◌, ◌/◌, ltb, if◌then◌else◌, fit, checked_sub, panic, ok, err, u64_mod, arith, ◌==◌,
  refl,
}
use godl_program.Numeric.{Numeric, IsFixedPoint, one, raw_mod}

instance abbrev pub units : Numeric ℕ
units = record {
  nought = 0;
  lt = ltb;
  plus = λ a b. fit raw_mod panic (a + b);
  minus = λ a b. checked_sub a b panic;
  times = λ a b. fit raw_mod panic (a * b / one);
  from_u64 = λ n. n * one;
  from_fraction = λ n d. if d == 0 then err panic else ok (n * one / d);
  to_u64 = λ a. fit u64_mod panic (a / one);
}

unfoldable pub units-IsFixedPoint : IsFixedPoint ℕ units
units-IsFixedPoint = record {
  raw = λ a. a;
  raw-nought = refl;
  lt-raw = λ a b. refl;
  raw-from_u64 = λ n. refl;
  raw-plus = λ a b c h. ground arith;
  raw-minus = λ a b c p h. ground arith;
  raw-times = λ a b c h. ground arith;
  raw-from_fraction = λ n d c p h. ground arith;
  to_u64-raw = λ a n h. ground arith;
  minus_ok = λ a b h. (a - b, ground arith);
  times_ok = λ a b h. (a * b / one, ground arith);
  to_u64_ok = λ a h. (a / one, ground arith);
}
