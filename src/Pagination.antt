-- ===== src/Pagination.antt =====
-- `paginate_items` and `_coerce_positive_int` of app/utils/pagination.py.
-- `page` and `per_page` stand for the outcome of `int(value)`: `none` where it raises.
mod Pages
mod Window
mod Tests
use raguardian.Prelude.{
  ℕ, zero, suc, ◌+◌, ◌-◌, ◌*◌, ◌/◌, min, max, Bool, Option, none, some, List, [], ◌∷◌, ltb,
  if◌then◌else◌, ◌==◌, length, any, take, drop, nat_eq, string_eq, option_eq, pair_eq,
}
use raguardian.Prelude.Int.{ℤ, pos, negsuc}

pub record Page {ℓ} (A : Type ℓ) : Type ℓ where
  pub items : List A
  pub page : ℕ
  pub per_page : ℕ
  pub allowed_per_page : List ℕ
  pub total : ℕ
  pub page_count : ℕ
  pub has_prev : Bool
  pub has_next : Bool
  pub prev_page : ℕ
  pub next_page : ℕ
  pub start : ℕ
  pub end : ℕ
  pub page_numbers : List ℕ

unfoldable pub coerce_positive_int : Option ℤ → ℕ → ℕ
coerce_positive_int none default = default
coerce_positive_int (some (pos n)) default = if ltb 0 n then n else default
coerce_positive_int (some (negsuc n)) default = default

-- `range(start, start + count)`
unfoldable pub range_of : ℕ → ℕ → List ℕ
range_of start zero = []
range_of start (suc count) = start ∷ range_of (start + 1) count

unfoldable pub page_size : List ℕ → ℕ → Option ℤ → ℕ
unfolding coerce_positive_int any
page_size allowed default per_page =
    let value = coerce_positive_int per_page default in
    if any (λ n. n == value) allowed then value else default

-- `max(1, (total + size - 1) // size)`
unfoldable pub count_pages : ℕ → ℕ → ℕ
count_pages total size = max 1 ((total + size - 1) / size)

-- `items[start:end]`
unfoldable pub slice {ℓ} : {A : Type ℓ} → ℕ → ℕ → List A → List A
unfolding take drop
slice start end items = take (end - start) (drop start items)

unfoldable pub paginate_items {ℓ} :
    {A : Type ℓ} → List A → Option ℤ → Option ℤ → List ℕ → ℕ → Page A
unfolding coerce_positive_int range_of page_size count_pages slice
paginate_items items page per_page allowed default =
    let total = length items in
    let size = page_size allowed default per_page in
    let page_count = count_pages total size in
    let page_value = min (coerce_positive_int page 1) page_count in
    let start_index = (page_value - 1) * size in
    let end_index = min (start_index + size) total in
    let first_start = max 1 (page_value - 2) in
    let window_end = min page_count (first_start + 4) in
    let window_start = max 1 (window_end - 4) in
    record {
      items = slice start_index end_index items;
      page = page_value;
      per_page = size;
      allowed_per_page = allowed;
      total = total;
      page_count = page_count;
      has_prev = ltb 1 page_value;
      has_next = ltb page_value page_count;
      prev_page = max 1 (page_value - 1);
      next_page = min page_count (page_value + 1);
      start = if total == 0 then 0 else start_index + 1;
      end = end_index;
      page_numbers = range_of window_start (window_end + 1 - window_start);
    }
