-- ===== src/Backend/Paging.antt =====
-- The paging of `ListManifests`, on 64-bit integers, and the exchange sort of the ids before it.
pub mod Pages
use pancakes_harness.Prelude.{
  ℕ, zero, suc, ◌+◌, ◌-◌, Bool, true, false, List, [], ◌∷◌, ltb, leb, if◌then◌else◌, length, take,
  drop,
}
use pancakes_harness.Prelude.Int.{ℤ, pos, negsuc, lebℤ}
use pancakes_harness.Prelude.Machine.{add_int}
use pancakes_harness.Bytes.{Str, lt_str}

-- One run of the inner loop: the least of the ids comes to the front by exchanges.
exchange_pass : Str → List Str → Str × List Str
exchange_pass x [] = (x, [])
exchange_pass x (y ∷ ys) =
    let (least, rest) = exchange_pass (if lt_str y x then y else x) ys in
    (least, (if lt_str y x then x else y) ∷ rest)

-- The outer loop, with the number of ids for its rounds.
unfoldable pub exchange_sort : ℕ → List Str → List Str
unfolding exchange_pass lt_str
exchange_sort zero ids = ids
exchange_sort (suc n) [] = []
exchange_sort (suc n) (x ∷ xs) =
    let (least, rest) = exchange_pass x xs in least ∷ exchange_sort n rest

-- A page, or the run-time panic of a slice expression whose end is negative or lies before its start.
pub data Paged (A : Type 0) : Type 0 where
  page : List A → Paged A
  slice_panic : Paged A

-- `if offset < 0 { offset = 0 }`
abbrev pub from_offset : ℤ → ℕ
from_offset (pos n) = n
from_offset (negsuc n) = 0

-- `if limit <= 0 { limit = len(result) }`
abbrev pub from_limit : ℤ → ℕ → ℕ
from_limit (pos zero) n = n
from_limit (pos (suc k)) n = suc k
from_limit (negsuc k) n = n

-- `result[start:end]`, for an end that is not past the length
slice : {A : Type 0} → ℕ → ℤ → List A → Paged A
slice start (pos stop) result =
    if leb start stop then page (take (stop - start) (drop start result)) else slice_panic
slice start (negsuc stop) result = slice_panic

-- `end := start + limit`, cut to the length
cut : {A : Type 0} → ℕ → ℕ → List A → Paged A
unfolding slice add_int
cut start limit result =
    let stop = add_int (pos start) (pos limit) in
    slice start (if lebℤ stop (pos (length result)) then stop else pos (length result)) result

unfoldable pub page_of : {A : Type 0} → ℤ → ℤ → List A → Paged A
unfolding cut take drop
page_of limit offset result =
    if ltb (length result) (from_offset offset)
    then page []
    else cut (from_offset offset) (from_limit limit (length result)) result
