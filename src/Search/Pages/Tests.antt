-- ===== src/Search/Pages/Tests.antt =====
-- Pages of two.
use mcp_adapter.Prelude.{ℕ, some, List, [], ◌∷◌, ◌≡◌, refl, drop, ltb→lt}
use mcp_adapter.Connection.Failure.{pos, negsuc}
use mcp_adapter.Search.Pages.{paginate, read_pages, read_pages-drop}

abbrev five : List ℕ
five = 10 ∷ 20 ∷ 30 ∷ 40 ∷ 50 ∷ []

first_page : (paginate five (some (negsuc 3)) (some (pos 2))).items ≡ 10 ∷ 20 ∷ []
unfolding paginate
first_page = refl

read_pages-drop_example : read_pages 5 five (some (pos 1)) (some (pos 2)) ≡ drop 1 five
read_pages-drop_example = read_pages-drop 5 five 1 (some (pos 2)) (ltb→lt 5 6 refl)
