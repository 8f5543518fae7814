-- ===== src/Paging/Tests.antt =====
-- A process with sixteen pages in memory: the theorems on the queues at this process.
use c_cpp_projects.Prelude.{
  Distinct, false, ◌<◌, ◌/◌, ℕ, ◌*◌, ◌^◌, ◌≤◌, ◌≡◌, ◌≢◌, refl, map, List, [], ◌∷◌, get_elem?, some,
  arith, pos, minus_one, ltb, if◌then◌else◌, ok, All, NotIn,
}
use c_cpp_projects.Paging.{Page, Proc}
use c_cpp_projects.Paging.Shift.{remove_at, pad}
use c_cpp_projects.Paging.Scfifo.{remove_scfifo}
use c_cpp_projects.Paging.Scfifo.Chance.{
  Mapped, vpn, remove_scfifo_lem, chance, choose, was_used, cleared,
}
use c_cpp_projects.Paging.Nfua.{IsEntry, age_of}
use c_cpp_projects.Paging.Lapa.{count_bits, remove_lapa}
use c_cpp_projects.Paging.Lapa.Least.{IsAged, remove_lapa_lem, remove_lapa-keeps_stale, rank}
use c_cpp_projects.Paging.Aging.{aging_pages}
use c_cpp_projects.Paging.Aging.Marks.{Unmarked}
use c_cpp_projects.Paging.Aging.Ticks.{CanAge, addresses, aging_pages_lem, ticked}
use c_cpp_projects.Paging.Offsets.{Slots, get_free_file_offset, get_free_file_offset_lem}
use c_cpp_projects.Paging.Release.{Found, holds_address}

-- Pages with an odd number were used two ticks ago, the others in the last tick.
abbrev entry : ℕ → Page
entry n = record {
  v_address = n * 4096;
  file_offset = minus_one;
  is_in_ram = 1;
  is_allocated = 1;
  age = if ltb n 8 then 2 ^ 31 else 2 ^ 30;
}

abbrev numbers : List ℕ
numbers = 0 ∷ 1 ∷ 2 ∷ 3 ∷ 4 ∷ 5 ∷ 6 ∷ 7 ∷ 8 ∷ 9 ∷ 10 ∷ 11 ∷ 12 ∷ 13 ∷ 14 ∷ 15 ∷ []

-- The accessed bit of the first three pages is set.
abbrev busy : Proc
busy = record {
  pages =
      entry 0
      ∷ entry 1
      ∷ entry 2
      ∷ entry 3
      ∷ entry 4
      ∷ entry 5
      ∷ entry 6
      ∷ entry 7
      ∷ entry 8
      ∷ entry 9
      ∷ entry 10
      ∷ entry 11
      ∷ entry 12
      ∷ entry 13
      ∷ entry 14
      ∷ entry 15
      ∷ [];
  file_offset = 8192;
  ram_queue = map pos numbers;
  offset_queue = pad 16 (4096 ∷ []);
  pte = λ v. if ltb v 3 then some 0x27 else some 0x7;
}

entries : All (IsEntry busy.pages) numbers
entries = (
  (entry 0, refl),
  (
    (entry 1, refl),
    (
      (entry 2, refl),
      (
        (entry 3, refl),
        (
          (entry 4, refl),
          (
            (entry 5, refl),
            (
              (entry 6, refl),
              (
                (entry 7, refl),
                (
                  (entry 8, refl),
                  (
                    (entry 9, refl),
                    (
                      (entry 10, refl),
                      (
                        (entry 11, refl),
                        (
                          (entry 12, refl),
                          ((entry 13, refl), ((entry 14, refl), ((entry 15, refl), tt))),
                        ),
                      ),
                    ),
                  ),
                ),
              ),
            ),
          ),
        ),
      ),
    ),
  ),
)

mapped : All (Mapped busy.pages busy.pte) numbers
mapped = (
  (entry 0, 39, refl, refl),
  (
    (entry 1, 39, refl, refl),
    (
      (entry 2, 39, refl, refl),
      (
        (entry 3, 7, refl, refl),
        (
          (entry 4, 7, refl, refl),
          (
            (entry 5, 7, refl, refl),
            (
              (entry 6, 7, refl, refl),
              (
                (entry 7, 7, refl, refl),
                (
                  (entry 8, 7, refl, refl),
                  (
                    (entry 9, 7, refl, refl),
                    (
                      (entry 10, 7, refl, refl),
                      (
                        (entry 11, 7, refl, refl),
                        (
                          (entry 12, 7, refl, refl),
                          (
                            (entry 13, 7, refl, refl),
                            ((entry 14, 7, refl, refl), ((entry 15, 7, refl, refl), tt)),
                          ),
                        ),
                      ),
                    ),
                  ),
                ),
              ),
            ),
          ),
        ),
      ),
    ),
  ),
)

different : Distinct (map (vpn busy.pages) numbers)
unfolding vpn
different = omega arith

ages : All (IsAged busy.pages) numbers
unfolding age_of
ages = (
  ((entry 0, refl), omega arith),
  (
    ((entry 1, refl), omega arith),
    (
      ((entry 2, refl), omega arith),
      (
        ((entry 3, refl), omega arith),
        (
          ((entry 4, refl), omega arith),
          (
            ((entry 5, refl), omega arith),
            (
              ((entry 6, refl), omega arith),
              (
                ((entry 7, refl), omega arith),
                (
                  ((entry 8, refl), omega arith),
                  (
                    ((entry 9, refl), omega arith),
                    (
                      ((entry 10, refl), omega arith),
                      (
                        ((entry 11, refl), omega arith),
                        (
                          ((entry 12, refl), omega arith),
                          (
                            ((entry 13, refl), omega arith),
                            (
                              ((entry 14, refl), omega arith),
                              (((entry 15, refl), omega arith), tt),
                            ),
                          ),
                        ),
                      ),
                    ),
                  ),
                ),
              ),
            ),
          ),
        ),
      ),
    ),
  ),
)

count : count_bits (age_of busy.pages 9) ≡ count_bits (age_of busy.pages 1)
unfolding age_of count_bits
count = refl

low : age_of busy.pages 9 < 2 ^ 31
unfolding age_of
low = omega arith

high : 2 ^ 31 ≤ age_of busy.pages 1
unfolding age_of
high = omega arith

small : (n : ℕ) → (if ltb n 8 then 2 ^ 31 else 2 ^ 30) < 2 ^ 32
small n = ground arith

page-CanAge : (n e : ℕ) → busy.pte (n * 4096 / 4096) ≡ some e → CanAge busy.pte (entry n)
page-CanAge n e h = record { mapped = λ a. (e, h); word = small n }

can_age : All (CanAge busy.pte) busy.pages
can_age = (
  page-CanAge 0 39 refl,
  (
    page-CanAge 1 39 refl,
    (
      page-CanAge 2 39 refl,
      (
        page-CanAge 3 7 refl,
        (
          page-CanAge 4 7 refl,
          (
            page-CanAge 5 7 refl,
            (
              page-CanAge 6 7 refl,
              (
                page-CanAge 7 7 refl,
                (
                  page-CanAge 8 7 refl,
                  (
                    page-CanAge 9 7 refl,
                    (
                      page-CanAge 10 7 refl,
                      (
                        page-CanAge 11 7 refl,
                        (
                          page-CanAge 12 7 refl,
                          (
                            page-CanAge 13 7 refl,
                            (page-CanAge 14 7 refl, (page-CanAge 15 7 refl, tt)),
                          ),
                        ),
                      ),
                    ),
                  ),
                ),
              ),
            ),
          ),
        ),
      ),
    ),
  ),
)

addresses_different : Distinct (addresses busy.pages)
addresses_different = omega arith

third : Found 8192 busy.pages 2 (entry 2)
unfolding holds_address
third = record { here = refl; match = refl; first = (refl, (refl, tt)) }

none_there : All (λ h. holds_address 100 h ≡ false) busy.pages
unfolding holds_address
none_there = (
  refl,
  (
    refl,
    (
      refl,
      (
        refl,
        (
          refl,
          (
            refl,
            (refl, (refl, (refl, (refl, (refl, (refl, (refl, (refl, (refl, (refl, tt)))))))))),
          ),
        ),
      ),
    ),
  ),
)

remove_scfifo_lem_example :
    let (pre, post) = chance (was_used busy.pages busy.pte) numbers in
    let (victim, queue) = choose pre post in
    remove_scfifo busy
    ≡ ok (
      pos victim,
      record busy { ram_queue = pad 16 queue; pte = cleared busy.pages busy.pte pre },
    )
remove_scfifo_lem_example = remove_scfifo_lem busy numbers refl refl mapped different

remove_lapa_lem_example :
    (i : ℕ) × (v : ℕ) × (get_elem? numbers i ≡ some v)
    × All (λ y. rank (age_of busy.pages v) ≤ rank (age_of busy.pages y)) numbers
    × (remove_lapa busy ≡ ok (pos v, record busy { ram_queue = pad 16 (remove_at numbers i) }))
remove_lapa_lem_example = remove_lapa_lem busy numbers refl refl ages

remove_lapa-keeps_stale_example : remove_lapa busy ≢ ok (pos 9, busy)
remove_lapa-keeps_stale_example =
    remove_lapa-keeps_stale busy numbers 9 1 9 1 busy refl refl ages refl refl count low high

aging_pages_lem_example :
    (q : Proc) × (aging_pages busy ≡ ok q)
    × (q.pages ≡ map (ticked busy.pte) busy.pages)
    × Unmarked busy.pte q.pte (addresses busy.pages)
    × (q.ram_queue ≡ busy.ram_queue)
    × (q.offset_queue ≡ busy.offset_queue)
    × (q.file_offset ≡ busy.file_offset)
aging_pages_lem_example = aging_pages_lem busy can_age addresses_different

returned : Slots (0 ∷ []) busy
returned = record {
  free = 4096 ∷ [];
  queue = refl;
  room = omega arith;
  distinct = omega arith;
  below = omega arith;
  aligned = (refl, (refl, tt));
  all = refl;
}

get_free_file_offset_lem_example :
    (v : ℕ) × (q : Proc) × (get_free_file_offset busy ≡ (pos v, q))
    × NotIn v (0 ∷ [])
    × Slots (v ∷ 0 ∷ []) q
get_free_file_offset_lem_example = get_free_file_offset_lem busy (0 ∷ []) returned (omega arith)
