-- ===== src/Tests/Pages.antt =====
-- A page with two tuples.
use h2database_rust.Prelude.{ℕ, ◌+◌, ◌≡◌, ◌≢◌, refl, true, none, some, [], ◌∷◌, arith}
use h2database_rust.Bytes.Order.{Bytes}
use h2database_rust.Bytes.Words.{be_bytes, from_be_bytes}
use h2database_rust.BufferPool.Slices.{slice, splice}
use h2database_rust.BufferPool.SlottedPage.{
  init, read_word, write_word, get_free_space, get_tuple_count, get_free_space_upper, insert_tuple,
  get_tuple, delete_tuple, defragment,
}
use h2database_rust.BufferPool.SlottedPage.Layout.{IsPage, used}
use h2database_rust.BufferPool.SlottedPage.Insert.{insert_tuple-IsPage, get_tuple-insert_tuple}
use h2database_rust.BufferPool.SlottedPage.Delete.{get_tuple-delete_tuple}
use h2database_rust.BufferPool.SlottedPage.Defragment.{get_tuple-defragment}
use h2database_rust.BufferPool.SlottedPage.Checks.{init-IsPage}

abbrev tuple : Bytes
tuple = 1 ∷ 2 ∷ 3 ∷ []

empty_page : Bytes
unfolding init
empty_page = init 7 0

empty_page-IsPage : IsPage empty_page
unfolding empty_page
empty_page-IsPage = init-IsPage 7 0

empty_space : get_free_space empty_page ≡ 8160
unfolding empty_page get_free_space init read_word write_word slice splice be_bytes from_be_bytes
empty_space = refl

get_tuple-insert_tuple_example :
    ((insert_tuple empty_page tuple).1 ≡ some (get_tuple_count empty_page))
    × IsPage (insert_tuple empty_page tuple).0
    × (get_tuple (insert_tuple empty_page tuple).0 (get_tuple_count empty_page) ≡ some tuple)
    × ((i : ℕ)
        → i ≢ get_tuple_count empty_page
        → get_tuple (insert_tuple empty_page tuple).0 i ≡ get_tuple empty_page i)
get_tuple-insert_tuple_example =
    get_tuple-insert_tuple empty_page tuple empty_page-IsPage (omega (arith, empty_space))
      (omega arith)

one_page : Bytes
one_page = (insert_tuple empty_page tuple).0

one_page-IsPage : IsPage one_page
unfolding one_page
one_page-IsPage = insert_tuple-IsPage empty_page tuple empty_page-IsPage

one_count : get_tuple_count one_page ≡ 1
unfolding one_page insert_tuple empty_page get_free_space init read_word write_word slice splice
    be_bytes from_be_bytes
one_count = refl

get_tuple-delete_tuple_example :
    ((delete_tuple one_page 0).1 ≡ true)
    × IsPage (delete_tuple one_page 0).0
    × (get_tuple (delete_tuple one_page 0).0 0 ≡ none)
    × ((i : ℕ) → i ≢ 0 → get_tuple (delete_tuple one_page 0).0 i ≡ get_tuple one_page i)
get_tuple-delete_tuple_example =
    get_tuple-delete_tuple one_page 0 one_page-IsPage (omega (arith, one_count))

get_tuple-defragment_example :
    IsPage (defragment one_page)
    × ((i : ℕ) → get_tuple (defragment one_page) i ≡ get_tuple one_page i)
    × (get_free_space_upper (defragment one_page) + used (get_tuple_count one_page) one_page 0
        ≡ 8192)
get_tuple-defragment_example = get_tuple-defragment one_page one_page-IsPage
