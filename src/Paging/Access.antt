-- ===== src/Paging/Access.antt =====
-- Reads of `pages` and of the page table that find something.
use c_cpp_projects.Prelude.{ℕ, ◌/◌, ◌≡◌, refl, List, get_elem?, Option, some, ok, pos}
use c_cpp_projects.Paging.{Page, page_at, load_pte}

pub page_at-ok :
    (pages : List Page) (x : ℕ) (g : Page)
    → get_elem? pages x ≡ some g
    → page_at pages (pos x) ≡ ok g
unfolding page_at
page_at-ok pages x g e = rw (e, page_at) refl

pub load_pte-ok :
    (pte : ℕ → Option ℕ) (va e : ℕ) → pte (va / 4096) ≡ some e → load_pte pte va ≡ ok e
unfolding load_pte
load_pte-ok pte va e h = rw (h, load_pte) refl
