-- ===== src/Bitmap/Hierarchy/Tests.antt =====
-- A hierarchical bitmap of two levels with 64 bits in a bitmap, and the theorems there.
use Prim.Native.Nat.{bit_and-bitwise}
use libfibre.Base.{◌≡◌, ◌≤◌, ◌%◌, refl, ◌∙◌, arith, Bool, true, ◌||◌, some, ◌==◌, if◌then◌else◌}
use libfibre.Platform.{pow2, limit}
use libfibre.Bitmap.{bit_tst, is_empty, empty_helper}
use libfibre.Bitmap
use libfibre.Bitmap.Hierarchy.{Hierarchy, test, find, findnext, memsize}
use libfibre.Bitmap.Hierarchy.Setting.{IsTree, set-IsTree}
use libfibre.Bitmap.Hierarchy.Finding.{find-least}

abbrev blank : Hierarchy
blank = record { bitmaps = λ l i. λ w. 0; max_bucket_count = 64 }

blank-IsTree : IsTree 2 1 blank
unfolding Bitmap.test bit_tst is_empty empty_helper
blank-IsTree =
    (λ l i. λ w. omega arith, λ l i. ground (arith, bit_and-bitwise 0 (pow2 (i % 64 % 64))))

-- The same bitmap with 70 set, written out.
abbrev marked : Hierarchy
marked = record {
  bitmaps = λ l i. λ w.
      if l == 0
      then (if i == 1 then 64 else 0)
      else if l == 1
      then (if i == 0 then 2 else 0)
      else 0;
  max_bucket_count = 64;
}

find-marked : find 2 1 marked ≡ 70
unfolding find
find-marked = refl

memsize_hundred : memsize 2 1 100 ≡ some 3
unfolding memsize
memsize_hundred = refl

-- The blank bitmap with 70 set.
seventy : (h : Hierarchy) × IsTree 2 1 h × (test 1 70 h ≡ true)
seventy =
    let (h', set_it, tree, bits) = set-IsTree 1 0 70 blank blank-IsTree (omega arith) in
    (h', tree, bits 70 ∙ or_true (test 1 70 blank))
  where
    or_true : (b : Bool) → (b || true) ≡ true
    or_true b = ground arith

find-least_example : (test 1 (find 2 1 seventy.0) seventy.0 ≡ true) × (find 2 1 seventy.0 ≤ 70)
find-least_example = find-least 1 0 70 seventy.0 seventy.1 seventy.2 (omega arith)

-- Three levels, 65 bitmaps on the lowest, and 4096 as the only member: `findnext` from 0 on gives up, as the
-- bound on the second level is 65 / 64.
abbrev distant : Hierarchy
distant = record {
  bitmaps = λ l i. λ w.
      if l == 0
      then (if i == 64 then 1 else 0)
      else if l == 1
      then (if i == 1 then 1 else 0)
      else if l == 2
      then (if i == 0 then 2 else 0)
      else 0;
  max_bucket_count = 65;
}

find-distant : find 3 1 distant ≡ 4096
unfolding find
find-distant = refl

findnext-distant : findnext 8 1 0 distant ≡ some limit
unfolding findnext
findnext-distant = refl
