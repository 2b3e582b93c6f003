-- ===== src/Pagination/Tests.antt =====
-- Runs of `paginate_items`, and its theorems at a list of seven items.
use raguardian.Prelude.{
  ℕ, ◌+◌, ◌-◌, ◌≤◌, min, ◌≡◌, refl, true, none, some, List, [], ◌∷◌, arith, ◌==◌, length, any, take,
  drop, All, nat_eq, string_eq, option_eq, pair_eq,
}
use raguardian.Prelude.Int.{pos, negsuc}
use raguardian.Pagination.{Page, paginate_items}
use raguardian.Pagination.Pages
use raguardian.Pagination.Window

abbrev seven : List ℕ
seven = 1 ∷ 2 ∷ 3 ∷ 4 ∷ 5 ∷ 6 ∷ 7 ∷ []

abbrev sizes : List ℕ
sizes = 2 ∷ 3 ∷ []

abbrev second : Page ℕ
second = paginate_items seven (some (pos 2)) (some (pos 3)) sizes 2

second_items : second.items ≡ 4 ∷ 5 ∷ 6 ∷ []
unfolding paginate_items
second_items = refl

-- A page beyond the last is the last, and a size that is not allowed is the default.
last_page : (paginate_items seven (some (pos 99)) (some (negsuc 0)) sizes 2).items ≡ 7 ∷ []
unfolding paginate_items
last_page = refl

pages-cover_example :
    Pages.pages_upto seven
      (some (pos 3))
      sizes
      2
      (paginate_items seven none (some (pos 3)) sizes 2).page_count
    ≡ seven
pages-cover_example = Pages.pages-cover seven (some (pos 3)) sizes 2 none (omega arith)

page_bounds_example :
    (1 ≤ second.page)
    × (second.page ≤ second.page_count)
    × (length second.items ≤ second.per_page)
    × (min 1 (length seven) ≤ length second.items)
    × (second.start + length second.items ≡ second.end + min 1 (length seven))
    × (second.end ≤ length seven)
    × (min 1 second.start ≡ min 1 (length seven))
    × (second.items ≡ take (length second.items) (drop (second.start - 1) seven))
page_bounds_example = Pages.page_bounds seven (some (pos 3)) sizes 2 (some (pos 2)) (omega arith)

page_numbers_window_example :
    (length second.page_numbers ≡ min 5 second.page_count)
    × All (λ n. (1 ≤ n) × (n ≤ second.page_count)) second.page_numbers
    × (any (λ n. n == second.page) second.page_numbers ≡ true)
page_numbers_window_example =
    Window.page_numbers_window seven (some (pos 2)) (some (pos 3)) sizes 2 (omega arith)
