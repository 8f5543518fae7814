-- ===== src/Bcache/Tests.antt =====
-- A cache of three buffers of which one is in use: the theorem at this cache.
use c_cpp_projects.Prelude.{◌≡◌, refl, true, false, List, [], ◌∷◌, ok, arith}
use c_cpp_projects.Bcache.{Buf, binit, bget, find_block, recycle}
use c_cpp_projects.Bcache.Single.{Single, bget-Single}

abbrev in_use : Buf
in_use = record {
  id = 2;
  valid = true;
  dirty = false;
  dev = 1;
  blockno = 7;
  refcnt = 1;
  locked = true;
}

abbrev cache : List Buf
cache = in_use ∷ binit 2

abbrev fresh : Buf
fresh = record {
  id = 0;
  valid = false;
  dirty = false;
  dev = 1;
  blockno = 8;
  refcnt = 1;
  locked = false;
}

abbrev second : Buf
second = record {
  id = 1;
  valid = false;
  dirty = false;
  dev = 0;
  blockno = 0;
  refcnt = 0;
  locked = false;
}

cache-Single : Single cache
unfolding binit
cache-Single d n ne = ground (arith, ne)

-- The buffer at the end of the list is recycled.
recycled : bget 1 8 cache ≡ ok (fresh, in_use ∷ second ∷ fresh ∷ [])
unfolding bget binit find_block recycle
recycled = refl

bget-Single_example : Single (in_use ∷ second ∷ fresh ∷ [])
bget-Single_example =
    bget-Single 1 8 cache (in_use ∷ second ∷ fresh ∷ []) fresh cache-Single recycled
