-- ===== src/Paging/Lapa.antt =====
-- `removeLAPA` of proc.c: the page whose age has the fewest bits set goes, and among equals the one
-- whose age is least. The code compares ages as `int`, so that this is a signed order.
pub mod Least
use c_cpp_projects.Prelude.{
  ℕ, zero, suc, ◌+◌, ◌*◌, ◌%◌, ◌^◌, ◌&&◌, List, get_or, Option, none, some, ltb, ◌==◌,
  if◌then◌else◌, Outcome, ok, panic, ◌>>=◌, bit, ℤ, minus_one, ltb_ℤ, signed32,
}
use c_cpp_projects.Paging.{Page, Proc, update_queue}
use c_cpp_projects.Paging.Nfua.{age_at}

-- The loop over the bits from `j` on, with `n` to go.
pub count_from : ℕ → ℕ → ℕ → ℕ → ℕ
count_from zero j age count = count
count_from (suc n) j age count =
    count_from n (suc j) age (if bit age j == 1 then count + 1 else count)

unfoldable pub count_bits : ℕ → ℕ
unfolding count_from
count_bits age = count_from 32 0 age 0

-- `min_i`, where -1 is `none`, `min_age` and `min_count`
pub record Best : Type 0 where
  pub min_i : Option ℕ
  pub min_age : ℤ
  pub min_count : ℕ

pub better : Best → ℕ → ℕ → Best
better b i age =
    let next : Best = record {
      min_i = some i;
      min_age = signed32 age;
      min_count = count_bits age;
    } in
    if ltb (count_bits age) b.min_count
    then next
    else if (count_bits age == b.min_count) && ltb_ℤ (signed32 age) b.min_age
    then next
    else b

pub best_place : List Page → List ℤ → ℕ → ℕ → Best → Outcome Best
best_place pages q zero i b = ok b
best_place pages q (suc n) i b = do
  age ← age_at pages q i
  best_place pages q n (suc i) (better b i age)

-- What follows the loop.
pub take_place : Proc → Option ℕ → Outcome (ℤ × Proc)
take_place p none = panic "removeLAPA"
take_place p (some i) =
    ok (get_or p.ram_queue i minus_one, record p { ram_queue = update_queue i p.ram_queue })

pub remove_lapa : Proc → Outcome (ℤ × Proc)
remove_lapa p = do
  b ←
      best_place p.pages p.ram_queue 16 0
        (record { min_i = none; min_age = signed32 0xffff_ffff; min_count = 33 })
  take_place p b.min_i
