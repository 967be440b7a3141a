-- ===== src/Bitmap/Hierarchy.antt =====
-- class HierarchicalBitmap of src/runtime/Bitmap.h: levels of bitmaps, each bit the summary of a bitmap of the
-- level below.
pub mod Updates
pub mod Setting
pub mod Finding
mod Tests
use libfibre.Base.{
  ℕ, zero, suc, ◌+◌, ◌-◌, ◌*◌, ◌/◌, ◌%◌, Bool, true, false, not, ◌&&◌, Option, none, some, ◌==◌,
  ltb, leb, if◌then◌else◌, update, ◌>>=◌,
}
use libfibre.Platform.{bitsize, limit, divup}
use libfibre.Bitmap.{Bitmap, set_b, clr_b, is_empty, is_full}
use libfibre.Bitmap

-- `levels` and the number `n` of words in a bitmap, B of 64 bits each, are arguments of the functions.
pub record Hierarchy : Type 0 where
  pub bitmaps : ℕ → ℕ → Bitmap
  pub max_bucket_count : ℕ

abbrev pub width : (n : ℕ) → ℕ
width n = n * bitsize

-- The bitmap at an index of a level is replaced.
abbrev pub store : (l i : ℕ) → Bitmap → Hierarchy → Hierarchy
store l i bits h = record h { bitmaps = update h.bitmaps l (update (h.bitmaps l) i bits) }

-- The loop of `memsize`: the number of bitmaps in `k` levels, and the last bit count.
unfoldable pub map_count : (n k : ℕ) → (bitcount mapcount : ℕ) → ℕ × ℕ
map_count n zero bitcount mapcount = (mapcount, bitcount)
map_count n (suc k) bitcount mapcount =
    map_count n k (divup bitcount (width n)) (mapcount + divup bitcount (width n))

-- `memsize`, in bitmaps; `none` if an assertion fails, as below.
unfoldable pub memsize : (levels n bitcount : ℕ) → Option ℕ
unfolding map_count
memsize levels n bitcount =
    let (mapcount, last) = map_count n levels bitcount 0 in
    if last == 1 then some mapcount else none

-- `init` in memory with some contents: the constructor of a bitmap of several words clears it, that of a
-- bitmap of one word does not.
unfoldable pub init : (memory : ℕ → ℕ → Bitmap) → (levels n bitcount : ℕ) → Option Hierarchy
unfolding map_count
init memory levels n bitcount =
    if (map_count n levels bitcount 0).1 == 1
    then some (record {
      bitmaps = λ l i. if n == 1 then memory l i else (λ w. 0);
      max_bucket_count = divup bitcount (width n);
    })
    else none

-- The loop of `set` from level `l` on, with `k` levels left.
unfoldable pub set_from : (n k l idx : ℕ) → Hierarchy → Option Hierarchy
unfolding Bitmap.test Bitmap.set
set_from n zero l idx h = if idx == 0 then some h else none
set_from n (suc k) l idx h =
    let r : ℕ = idx % width n in
    let i : ℕ = idx / width n in
    let bits : Bitmap = h.bitmaps l i in
    let deeper = set_from n k (l + 1) i (store l i (Bitmap.set r bits) h) in
    if Bitmap.test r bits then some h else deeper

unfoldable pub set : (levels n idx : ℕ) → Hierarchy → Option Hierarchy
unfolding set_from
set levels n idx h = set_from n levels 0 idx h

-- The loop of `clr`.
unfoldable pub clr_from : (n k l idx : ℕ) → Hierarchy → Option Hierarchy
unfolding Bitmap.clr is_empty
clr_from n zero l idx h = if idx == 0 then some h else none
clr_from n (suc k) l idx h =
    let i : ℕ = idx / width n in
    let bits : Bitmap = Bitmap.clr (idx % width n) (h.bitmaps l i) in
    let deeper = clr_from n k (l + 1) i (store l i bits h) in
    if not (is_empty n bits) then some (store l i bits h) else deeper

unfoldable pub clr : (levels n idx : ℕ) → Hierarchy → Option Hierarchy
unfolding clr_from
clr levels n idx h = clr_from n levels 0 idx h

unfoldable pub blockset : (levels n idx : ℕ) → Hierarchy → Option Hierarchy
unfolding set_from set_b
blockset levels n idx h =
    let i : ℕ = idx / width n in set_from n (levels - 1) 1 i (store 0 i (set_b n (h.bitmaps 0 i)) h)

unfoldable pub blockclr : (levels n idx : ℕ) → Hierarchy → Option Hierarchy
unfolding clr_from clr_b
blockclr levels n idx h =
    let i : ℕ = idx / width n in clr_from n (levels - 1) 1 i (store 0 i (clr_b n (h.bitmaps 0 i)) h)

unfoldable pub test : (n idx : ℕ) → Hierarchy → Bool
unfolding Bitmap.test
test n idx h = Bitmap.test (idx % width n) (h.bitmaps 0 (idx / width n))

unfoldable pub empty : (levels n : ℕ) → Hierarchy → Bool
unfolding is_empty
empty levels n h = is_empty n (h.bitmaps (levels - 1) 0)

unfoldable pub blockempty : (n idx : ℕ) → Hierarchy → Bool
unfolding is_empty
blockempty n idx h = is_empty n (h.bitmaps 0 (idx / width n))

unfoldable pub blockfull : (n idx : ℕ) → Hierarchy → Bool
unfolding is_full
blockfull n idx h = is_full n (h.bitmaps 0 (idx / width n))

-- The loop of `find`, at level `i`.
unfoldable pub find_from : (n i idx : ℕ) → Hierarchy → ℕ
unfolding Bitmap.find
find_from n zero idx h =
    let ldx : ℕ = Bitmap.find n true (h.bitmaps 0 idx) in
    if ldx == width n then limit else idx * width n + ldx
find_from n (suc i) idx h =
    let ldx : ℕ = Bitmap.find n true (h.bitmaps (suc i) idx) in
    let deeper = find_from n i (idx * width n + ldx) h in if ldx == width n then limit else deeper

unfoldable pub find : (levels n : ℕ) → Hierarchy → ℕ
unfolding find_from
find levels n h = find_from n (levels - 1) 0 h

-- The loop of `findnext`, that goes up while a bitmap has no further bit and down again; `none` if the fuel
-- does not last.
unfoldable pub findnext_loop : (fuel : ℕ) → (n l bidx ridx mbc : ℕ) → Hierarchy → Option ℕ
unfolding Bitmap.findnext
findnext_loop zero n l bidx ridx mbc h = none
findnext_loop (suc fuel) n l bidx ridx mbc h =
    let lidx : ℕ = Bitmap.findnext n ridx true (h.bitmaps l bidx) in
    let below : ℕ = bidx * width n + lidx in
    let up =
      findnext_loop fuel n (l + 1) ((bidx + 1) / width n) ((bidx + 1) % width n) (mbc / width n)
        h in
    let down = findnext_loop fuel n (l - 1) below 0 (mbc * width n) h in
    if lidx == width n
    then if leb mbc (bidx + 1) then some limit else up
    else if l == 0
    then some below
    else down

unfoldable pub findnext : (fuel n idx : ℕ) → Hierarchy → Option ℕ
unfolding findnext_loop
findnext fuel n idx h = findnext_loop fuel n 0 (idx / width n) (idx % width n) h.max_bucket_count h
