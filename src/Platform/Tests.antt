-- ===== src/Platform/Tests.antt =====
-- Words of one and several bits, and the theorems there.
use libfibre.Base.{ℕ, ◌≡◌, true, refl, ◌==◌, if◌then◌else◌}
use libfibre.Platform.{align_up, divup, lsb, popcount, multiscan, multiscan_next}

align_up_thirteen : align_up 13 8 ≡ 16
align_up_thirteen = refl

divup_sixty_five : divup 65 64 ≡ 2
divup_sixty_five = refl

lsb_forty : lsb 40 64 ≡ 3
unfolding lsb
lsb_forty = refl

popcount_forty : popcount 40 ≡ 2
unfolding popcount
popcount_forty = refl

abbrev words : ℕ → ℕ
words i = if i == 1 then 40 else 0

multiscan-words : multiscan 3 words true ≡ 67
unfolding multiscan
multiscan-words = refl

multiscan_next-words : multiscan_next 3 words 68 true ≡ 69
unfolding multiscan_next
multiscan_next-words = refl
