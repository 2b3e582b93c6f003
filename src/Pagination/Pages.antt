-- ===== src/Pagination/Pages.antt =====
-- The pages of a list: their bounds, and that together they are the list.
use native.Mathlib.Decide.{dec_lt}
use raguardian.Prelude.{
  ℕ, zero, suc, ◌+◌, ◌-◌, ◌*◌, ◌/◌, ◌≤◌, ◌<◌, min, ◌≡◌, refl, sym, ap, ◌∙◌, true, Option, none,
  some, List, [], ◌++◌, arith, ◌==◌, ==_ne, length, take, drop, length-take, length-drop, take-add,
  take_of_length-le, take-min, nat_eq, string_eq, option_eq, pair_eq,
}
use raguardian.Prelude.Int.{ℤ, pos, negsuc}
use raguardian.Pagination.{coerce_positive_int, page_size, count_pages, slice, paginate_items}
use native.Mathlib.Nat.{div-add-mod', mod-lt, zero-mul}

pub coerce_pos : (v : Option ℤ) (d : ℕ) → 0 < d → 0 < coerce_positive_int v d
unfolding coerce_positive_int
coerce_pos none d h = h
coerce_pos (some (pos n)) d h = ground arith
coerce_pos (some (negsuc n)) d h = h

pub page_size_pos : (allowed : List ℕ) (d : ℕ) (v : Option ℤ) → 0 < d → 0 < page_size allowed d v
unfolding page_size
page_size_pos allowed d v h = ground (arith, coerce_pos v d h)

-- Enough pages for all the items, and no page beyond them.
pub count_pages_bounds :
    (total size : ℕ)
    → 0 < size
    → (total ≤ count_pages total size * size)
      × (0 < total → (count_pages total size - 1) * size < total)
      × (0 < count_pages total size)
unfolding count_pages
count_pages_bounds total size h =
    let q : ℕ = (total + size - 1) / size in
    let e = div-add-mod' (total + size - 1) size in
    let lt = mod-lt (total + size - 1) h in
    (grind (arith, e, lt), λ pos. grind (arith, e, lt), omega arith)

-- An empty list has one page.
count_pages_none : (size : ℕ) → 0 < size → count_pages 0 size ≡ 1
unfolding count_pages
count_pages_none size h =
    let q : ℕ = (0 + size - 1) / size in
    let e = div-add-mod' (0 + size - 1) size in
    let lt = mod-lt (0 + size - 1) h in let none_full : q ≡ 0 = grind (arith, e, lt) in omega arith

slice-take {ℓ} :
    {A : Type ℓ} (start size : ℕ) (items : List A)
    → slice start (min (start + size) (length items)) items ≡ take size (drop start items)
unfolding slice
slice-take start size items =
    let e : min (start + size) (length items) - start ≡ min size (length items - start) =
      omega arith in
    rw e (
      take-min (length items - start) size (drop start items)
        (omega (arith, length-drop start items)))

coerce_suc : (n d : ℕ) → coerce_positive_int (some (pos (suc n))) d ≡ suc n
unfolding coerce_positive_int
coerce_suc n d = ground arith

length-slice {ℓ} :
    {A : Type ℓ} (start size : ℕ) (items : List A)
    → length (slice start (min (start + size) (length items)) items)
      ≡ min size (length items - start)
length-slice start size items =
    rw slice-take (rw length-take (ap (min size) (length-drop start items)))

-- A slice is what stands in the list from its start on.
slice_self {ℓ} :
    {A : Type ℓ} (first start size : ℕ) (items : List A)
    → first ≡ start
    → (let xs = slice start (min (start + size) (length items)) items in
        xs ≡ take (length xs) (drop first items))
slice_self first start size items e =
    rw (e, length-slice start size items, slice-take start size items)
      (sym (
        take-min (length items - start) size (drop start items)
          (omega (arith, length-drop start items))))

-- An earlier page starts no later than the last one.
page_start_le : (p count size : ℕ) → p ≤ count → (p - 1) * size ≤ (count - 1) * size
page_start_le p count size h = let k : p - 1 ≤ count - 1 = omega arith in grind arith

module _ {ℓ} {A : Type ℓ} (items : List A) (per_page : Option ℤ) (allowed : List ℕ)
    (default : ℕ) where
  -- The items of the pages 1 to `n`, one after the other.
  unfoldable pub pages_upto : ℕ → List A
  pages_upto zero = []
  pages_upto (suc n) =
      pages_upto n ++ (paginate_items items (some (pos (suc n))) per_page allowed default).items

  items-paginate_items :
      (n : ℕ)
      → n < count_pages (length items) (page_size allowed default per_page)
      → (paginate_items items (some (pos (suc n))) per_page allowed default).items
        ≡ take
            (page_size allowed default per_page)
            (drop (n * page_size allowed default per_page) items)
  unfolding paginate_items
  items-paginate_items n h =
      let size = page_size allowed default per_page in
      let e : min (suc n) (count_pages (length items) size) - 1 ≡ n = omega arith in
      rw (coerce_suc n 1, e) (slice-take (n * size) size items)

  pages_upto-take :
      (n : ℕ)
      → n ≤ count_pages (length items) (page_size allowed default per_page)
      → pages_upto n ≡ take (n * page_size allowed default per_page) items
  unfolding pages_upto
  pages_upto-take zero h = rw zero-mul (unfold take in refl)
  pages_upto-take (suc n) h =
      let size = page_size allowed default per_page in
      let e : suc n * size ≡ n * size + size = grind arith in
      rw (pages_upto-take n (omega arith), items-paginate_items n h, e)
        (sym (take-add (n * size) size items))

  -- The pages 1 to `page_count`, one after the other, are the whole list: no item is lost, shown
  -- twice or out of order, whatever `page` and `per_page` are asked for, if the default size is
  -- positive.
  pub pages-cover :
      (page : Option ℤ)
      → 0 < default
      → pages_upto (paginate_items items page per_page allowed default).page_count ≡ items
  unfolding paginate_items
  pages-cover page h =
      let size = page_size allowed default per_page in
      let bounds =
        count_pages_bounds (length items) size (page_size_pos allowed default per_page h) in
      pages_upto-take (count_pages (length items) size) (omega arith)
      ∙ take_of_length-le (count_pages (length items) size * size) items bounds.0

  -- If the default size is positive, the page shown is one of the pages, holds at most `per_page`
  -- items and is empty only if the list is; its items stand in the list from the position `start`,
  -- counted from 1, to the position `end`; and `start` is 0 exactly for an empty list.
  pub page_bounds :
      (page : Option ℤ)
      → 0 < default
      → (let p = paginate_items items page per_page allowed default in
          (1 ≤ p.page)
          × (p.page ≤ p.page_count)
          × (length p.items ≤ p.per_page)
          × (min 1 (length items) ≤ length p.items)
          × (p.start + length p.items ≡ p.end + min 1 (length items))
          × (p.end ≤ length items)
          × (min 1 p.start ≡ min 1 (length items))
          × (p.items ≡ take (length p.items) (drop (p.start - 1) items)))
  unfolding paginate_items
  page_bounds page h =
      let size = page_size allowed default per_page in
      let size_pos = page_size_pos allowed default per_page h in
      let bounds = count_pages_bounds (length items) size size_pos in
      let count = count_pages (length items) size in
      let p = coerce_pos page 1 (omega arith) in
      let q = min (coerce_positive_int page 1) count in
      let len = length-slice ((q - 1) * size) size items in
      let le = page_start_le q count size (omega arith) in
      elim (dec_lt 0 (length items)) [
        | yes nonempty ↦ rw (==_ne (length items) 0 (omega arith)) (
          omega arith,
          omega arith,
          omega (arith, len),
          omega (arith, len, bounds.1 nonempty),
          omega (arith, len, bounds.1 nonempty),
          omega arith,
          omega arith,
          slice_self _ ((q - 1) * size) size items (omega arith),
        )
        | no empty ↦
            let e : length items ≡ 0 = omega arith in
            let single : count ≡ 1 =
              ap (λ n. count_pages n size) e ∙ count_pages_none size size_pos in
            let one : q - 1 ≡ 0 = omega (arith, single) in
            let none_left : (length items == 0) ≡ true = ap (λ n. n == 0) e in
            rw none_left (
              omega arith,
              omega arith,
              omega (arith, len),
              omega (arith, len),
              omega (arith, len),
              omega arith,
              omega arith,
              slice_self 0 ((q - 1) * size) size items (rw one (sym (zero-mul size))),
            )
      ]
