-- ===== src/Builtin.antt =====
-- Methods of strings and arrays: src/builtin.h, over `StringRef` of src/misc/string_ref.hpp. An array
-- is the list of its values, a string the list of its bytes, an index of a script an integer. The
-- position `npos` is `none`. The messages of errors are left out.
use ydsh.Prelude.{
  Bool, List, Option, [], drop, false, get_elem?, if◌then◌else◌, length, ltb, none, set, some, suc,
  take, true, zero, ℕ, ◌&&◌, ◌++◌, ◌+◌, ◌-◌, ◌==◌, ◌||◌, ◌∷◌, leb,
}
use ydsh.Prelude.Int.{negsuc, pos, ℤ}
mod Slice
mod Find
mod Split
mod Arrays
mod Tests

abbrev pub Byte : Type 0
Byte = ℕ

abbrev pub Text : Type 0
Text = List Byte

-- `ArrayObject::MAX_SIZE` and `StringObject::MAX_SIZE`.
abbrev pub max_size : ℕ
max_size = 2147483647

-- `resolveIndex`: an index from the end is negative; `none` is an index out of range.
pub resolve_index : ℤ → ℕ → Option ℕ
resolve_index (pos n) size = if ltb n size then some n else none
resolve_index (negsuc n) size = if ltb n size then some (size - 1 - n) else none

-- The indices of `slice`, with the size added to a negative one.
pub from_end : ℤ → ℕ → ℤ
from_end (pos n) size = pos n
from_end (negsuc n) size = if ltb n size then pos (size - 1 - n) else negsuc (n - size)

-- The test of `slice`, on the indices that are resolved.
abbrev pub in_bounds : ℤ → ℤ → ℕ → Option (ℕ × ℕ)
in_bounds (pos a) (pos b) size = if ltb b a || ltb size a || ltb size b then none else some (a, b)
in_bounds (pos a) (negsuc b) size = none
in_bounds (negsuc a) b size = none

module _ {ℓ} {A : Type ℓ} where
  abbrev pub slice_impl : List A → Option (ℕ × ℕ) → Option (List A)
  slice_impl xs none = none
  slice_impl xs (some (a, b)) = some (take (b - a) (drop a xs))

  -- `slice`, for strings and arrays; `none` is the out of range error.
  pub slice : List A → ℤ → ℤ → Option (List A)
  unfolding from_end
  slice xs start stop =
      let size = length xs in
      slice_impl xs (in_bounds (from_end start size) (from_end stop size) size)

  pub slice_from : List A → ℤ → Option (List A)
  unfolding slice
  slice_from xs start = slice xs start (pos (length xs))

  pub slice_to : List A → ℤ → Option (List A)
  unfolding slice
  slice_to xs stop = slice xs (pos 0) stop

abbrev pub map_some {ℓ κ} : {A : Type ℓ} {B : Type κ} → Option A → (A → Option B) → Option B
map_some none f = none
map_some (some a) f = f a

-- The place to insert at: the size itself is one.
abbrev pub insert_index : ℤ → ℕ → Option ℕ
insert_index (pos n) size = if n == size then some n else resolve_index (pos n) size
insert_index (negsuc n) size = resolve_index (negsuc n) size

-- A method of an array: the array and the answer, or an out of range error.
module _ {ℓ} {A : Type ℓ} where
  abbrev pub erase : ℕ → List A → List A
  erase i xs = take i xs ++ drop (suc i) xs

  pub array_get : List A → ℤ → Option A
  unfolding resolve_index
  array_get xs i = map_some (resolve_index i (length xs)) (λ k. get_elem? xs k)

  pub array_set : List A → ℤ → A → Option (List A)
  unfolding resolve_index
  array_set xs i v = map_some (resolve_index i (length xs)) (λ k. some (set xs k v))

  abbrev pub erase_at : List A → ℕ → Option A → Option (A × List A)
  erase_at xs k none = none
  erase_at xs k (some v) = some (v, erase k xs)

  pub array_remove : List A → ℤ → Option (A × List A)
  unfolding resolve_index
  array_remove xs i = map_some (resolve_index i (length xs)) (λ k. erase_at xs k (get_elem? xs k))

  abbrev pub last_value : List A → Option A
  last_value [] = none
  last_value (x ∷ []) = some x
  last_value (x ∷ y ∷ xs) = last_value (y ∷ xs)

  abbrev pub first_value : List A → Option A
  first_value [] = none
  first_value (x ∷ xs) = some x

  pub array_fetch : List A → Bool → Option A
  array_fetch xs fetch_last = if fetch_last then last_value xs else first_value xs

  pub array_peek : List A → Option A
  unfolding array_fetch
  array_peek xs = array_fetch xs true

  abbrev pub pop_back : List A → List A
  pop_back [] = []
  pop_back (x ∷ []) = []
  pop_back (x ∷ y ∷ xs) = x ∷ pop_back (y ∷ xs)

  pub array_pop : List A → Option (A × List A)
  unfolding array_fetch
  array_pop xs = map_some (array_fetch xs true) (λ v. some (v, pop_back xs))

  pub array_shift : List A → Option (A × List A)
  unfolding array_fetch
  array_shift xs = map_some (array_fetch xs false) (λ v. some (v, erase 0 xs))

  abbrev pub insert_at : ℕ → A → List A → List A
  insert_at k v xs = take k xs ++ v ∷ drop k xs

  pub array_insert_impl : List A → ℤ → A → Option (List A)
  array_insert_impl xs i v =
      if length xs == max_size
      then none
      else map_some (insert_index i (length xs)) (λ k. some (insert_at k v xs))

  pub array_push : List A → A → Option (List A)
  unfolding array_insert_impl
  array_push xs v = array_insert_impl xs (pos (length xs)) v

  pub array_unshift : List A → A → Option (List A)
  unfolding array_insert_impl
  array_unshift xs v = array_insert_impl xs (pos 0) v

  pub array_insert : List A → ℤ → A → Option (List A)
  unfolding array_insert_impl
  array_insert xs i v = array_insert_impl xs i v

  -- The loop of `extend` over another array: the array so far, and whether all was appended.
  pub extend_loop : List A → List A → List A × Bool
  extend_loop xs [] = (xs, true)
  extend_loop xs (v ∷ vs) =
      let rest = extend_loop (xs ++ v ∷ []) vs in
      if length xs == max_size then (xs, false) else rest

  -- `same` says that the argument is the array itself, which is left as it is.
  pub array_extend : Bool → List A → List A → List A × Bool
  unfolding extend_loop
  array_extend same xs vs = if same then (xs, true) else extend_loop xs vs

  pub array_swap : List A → ℤ → A → Option (A × List A)
  unfolding resolve_index
  array_swap xs i v =
      map_some (resolve_index i (length xs))
        (λ k. map_some (get_elem? xs k) (λ old. some (old, set xs k v)))

-- `StringRef::startsWith`.
pub starts_with : Text → Text → Bool
starts_with xs [] = true
starts_with [] (d ∷ ds) = false
starts_with (x ∷ xs) (d ∷ ds) = x == d && starts_with xs ds

pub text_ends_with : Text → Text → Bool
unfolding starts_with
text_ends_with xs ds =
    leb (length ds) (length xs) && starts_with (drop (length xs - length ds) xs) ds

abbrev pub plus : ℕ → Option ℕ → Option ℕ
plus n none = none
plus n (some k) = some (n + k)

-- `memmem`: where the first occurrence is.
pub memmem : Text → Text → Option ℕ
unfolding starts_with
memmem [] ds = if starts_with [] ds then some 0 else none
memmem (x ∷ xs) ds =
    let later = plus 1 (memmem xs ds) in if starts_with (x ∷ xs) ds then some 0 else later

pub find : Text → Text → ℕ → Option ℕ
unfolding memmem
find xs ds i =
    if ltb (length xs) i
    then none
    else if length ds == 0
    then some i
    else plus i (memmem (drop i xs) ds)

pub index_of : Text → Text → Option ℕ
unfolding find
index_of xs ds = find xs ds 0

-- The loop of `lastIndexOf`: `ret` is the occurrence so far.
abbrev pub last_round : Option ℕ → Option ℕ → (Option ℕ → Option ℕ) → Option ℕ
last_round none ret again = ret
last_round (some k) ret again = again (some k)

pub last_index_loop : ℕ → Text → Text → ℕ → Option ℕ → Option ℕ
unfolding find
last_index_loop zero xs ds i ret = ret
last_index_loop (suc fuel) xs ds i ret = last_round (find xs ds i) ret (λ r.
    let again = last_index_loop fuel xs ds (suc i) r in if suc i == length xs then r else again)

pub last_index_of : Text → Text → Option ℕ
unfolding last_index_loop
last_index_of xs ds = last_index_loop (suc (suc (length xs))) xs ds 0 none

-- `StringRef::slice` up to an occurrence, or to the end.
abbrev pub slice_until : Text → ℕ → Option ℕ → Text
slice_until xs i none = drop i xs
slice_until xs i (some k) = take (k - i) (drop i xs)

abbrev pub split_round : List Text → Option ℕ → ℕ → (ℕ → Option (List Text)) → Option (List Text)
split_round acc none size again = some acc
split_round acc (some k) size again = again (k + size)

-- The loop of `split`; `none` is a loop that did not end.
pub split_loop : ℕ → Text → Text → ℕ → List Text → Option (List Text)
unfolding find
split_loop zero xs ds i acc = none
split_loop (suc fuel) xs ds i acc =
    let ret = find xs ds i in
    let acc' = acc ++ slice_until xs i ret ∷ [] in
    split_round acc' ret (length ds) (λ k. split_loop fuel xs ds k acc')

pub string_split : ℕ → Text → Text → Option (List Text)
unfolding split_loop
string_split fuel xs ds = if length ds == 0 then some (xs ∷ []) else split_loop fuel xs ds 0 []

-- What `replace` ends with: a text, or the error of a string that is too long.
pub data Replaced : Type 0 where
  text : Text → Replaced
  too_long : Replaced

abbrev pub append_as_str : Text → Text → (Text → Option Replaced) → Option Replaced
append_as_str buf value next =
    if ltb max_size (length buf + length value) then some too_long else next (buf ++ value)

abbrev pub replace_round :
    Text → Text → Option ℕ → ℕ → (ℕ → Text → Option Replaced) → Option Replaced
replace_round rep buf none size again = some (text buf)
replace_round rep buf (some k) size again = append_as_str buf rep (λ b. again (k + size) b)

pub replace_loop : ℕ → Text → Text → Text → ℕ → Text → Option Replaced
unfolding find
replace_loop zero xs ds rep i buf = none
replace_loop (suc fuel) xs ds rep i buf =
    let ret = find xs ds i in
    append_as_str buf (slice_until xs i ret)
      (λ b. replace_round rep b ret (length ds) (λ k b'. replace_loop fuel xs ds rep k b'))

pub string_replace : ℕ → Text → Text → Text → Option Replaced
unfolding replace_loop
string_replace fuel xs ds rep =
    if length ds == 0 then some (text xs) else replace_loop fuel xs ds rep 0 []
