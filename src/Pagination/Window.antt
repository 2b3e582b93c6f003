-- ===== src/Pagination/Window.antt =====
-- The page numbers that are offered beside the current page.
use raguardian.Prelude.{
  ℕ, zero, suc, ◌+◌, ◌≤◌, ◌<◌, min, ◌≡◌, refl, true, Option, List, arith, ◌==◌, length, any, All,
  nat_eq, string_eq, option_eq, pair_eq,
}
use raguardian.Prelude.Int.{ℤ}
use raguardian.Pagination.{coerce_positive_int, range_of, page_size, count_pages, paginate_items}
use raguardian.Pagination.Pages.{coerce_pos, page_size_pos, count_pages_bounds}

-- The numbers of a run of pages.
range_of_within :
    (lo hi start count : ℕ)
    → lo ≤ start
    → start + count ≤ hi + 1
    → All (λ n. (lo ≤ n) × (n ≤ hi)) (range_of start count)
unfolding range_of
range_of_within lo hi start zero h k = tt
range_of_within lo hi start (suc count) h k =
    ((h, omega arith), range_of_within lo hi (start + 1) count (omega arith) (omega arith))

length-range_of : (start count : ℕ) → length (range_of start count) ≡ count
unfolding range_of
length-range_of start zero = refl
length-range_of start (suc count) = omega (arith, length-range_of (start + 1) count)

range_of_has :
    (n start count : ℕ)
    → start ≤ n
    → n < start + count
    → any (λ m. m == n) (range_of start count) ≡ true
unfolding range_of any
range_of_has n start zero h k = absurd (omega arith)
range_of_has n start (suc count) h k = ground (arith, range_of_has n (start + 1) count)

module _ {ℓ} {A : Type ℓ} (items : List A) (page per_page : Option ℤ) (allowed : List ℕ)
    (default : ℕ) where
  -- If the default size is positive: at most five page numbers are offered, as many as there are pages up to five, all of them
  -- existing pages and the current page among them.
  pub page_numbers_window :
      0 < default
      → (let p = paginate_items items page per_page allowed default in
          (length p.page_numbers ≡ min 5 p.page_count)
          × All (λ n. (1 ≤ n) × (n ≤ p.page_count)) p.page_numbers
          × (any (λ n. n == p.page) p.page_numbers ≡ true))
  unfolding paginate_items
  page_numbers_window h =
      let size = page_size allowed default per_page in
      let bounds =
        count_pages_bounds (length items) size (page_size_pos allowed default per_page h) in
      let p = coerce_pos page 1 (omega arith) in
      (
        omega (arith, length-range_of),
        range_of_within 1 (count_pages (length items) size) _ _ (omega arith) (omega arith),
        range_of_has (min (coerce_positive_int page 1) (count_pages (length items) size)) _ _
            (omega arith) (omega arith),
      )
