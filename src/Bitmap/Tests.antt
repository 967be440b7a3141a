-- ===== src/Bitmap/Tests.antt =====
-- A bitmap of two words, and the theorems there.
use libfibre.Base.{◌≡◌, ◌&&◌, true, false, refl, arith, ◌==◌, leb, ltb, if◌then◌else◌}
use libfibre.Platform.Scan.{first}
use libfibre.Platform.Multiscan.{Words, wanted}
use libfibre.Bitmap.{Bitmap, test, findnext, is_full, filled}
use libfibre.Bitmap.Searches.{findnext-first}
use libfibre.Bitmap.Count.{filled-members}

-- The members are 3, 5 and 64.
abbrev three : Bitmap
three i = if i == 0 then 40 else if i == 1 then 1 else 0

three-Words : Words three
three-Words i = ground arith

findnext-first_example :
    findnext 2 6 true three ≡ first 128 (λ k. leb 6 k && wanted true (test k three))
findnext-first_example = findnext-first three three-Words 2 6 true (omega arith)

findnext_six : findnext 2 6 true three ≡ 64
unfolding findnext
findnext_six = refl

filled-members_example : (test 64 filled ≡ ltb 64 64) × (is_full 2 filled ≡ false)
filled-members_example = filled-members 0 64
