-- ===== src/Log/Replay.antt =====
-- The writes of the loops of the log, and what a disk holds after a part of them.
use c_cpp_projects.Prelude.{
  ℕ, zero, suc, ◌+◌, ◌≤◌, ◌<◌, ◌≡◌, ◌≢◌, refl, sym, ap, ◌∙◌, Bool, true, false, ◌||◌, List, [], ◌∷◌,
  length, take, take_all, arith, ◌==◌, ==_iff, ==_of_ne, ℕ_discrete, if◌then◌else◌, update,
  update_self, update_ne, All,
}
use c_cpp_projects.Log.{Disk, apply, install_trans, write_log, holds}

-- The block is none of the `n` blocks of the log from `tail` on.
abbrev pub OutOfLog : ℕ → ℕ → ℕ → Type 0
OutOfLog start n x = (t : ℕ) → t < n → x ≢ start + t + 1

-- Place `t` of the log holds the contents `c` gives to the block that is to go there.
abbrev pub Logged : ℕ → ℕ → List ℕ → (ℕ → ℕ) → (ℕ → ℕ) → Type 0
Logged start tail [] c f = Unit
Logged start tail (b ∷ bs) c f = (f (start + tail + 1) ≡ c b) × Logged start (suc tail) bs c f

-- A write to a block out of the log.
Logged-update :
    (start tail n x v : ℕ) (bs : List ℕ) (c f : ℕ → ℕ)
    → OutOfLog start n x
    → tail + length bs ≤ n
    → Logged start tail bs c f
    → Logged start tail bs c (update f x v)
Logged-update start tail n x v [] c f out le h = tt
Logged-update start tail n x v (b ∷ bs) c f out le (e, h) = (
  update_ne f x (start + tail + 1) v (λ z. out tail (omega arith) (sym z)) ∙ e,
  Logged-update start (suc tail) n x v bs c f out (omega arith) h,
)

-- What the home blocks hold after an installation: `c` gives the contents of the logged blocks.
abbrev pub home : List ℕ → (ℕ → ℕ) → (ℕ → ℕ) → ℕ → ℕ
home bs c f x = if holds bs x then c x else f x

if-same {ℓ} : {A : Type ℓ} (b : Bool) (a : A) → (if b then a else a) ≡ a
if-same true a = refl
if-same false a = refl

home-here :
    (bs : List ℕ) (c f : ℕ → ℕ) (b v x : ℕ)
    → b ≡ x
    → v ≡ c b
    → home bs c (update f b v) x ≡ home (b ∷ bs) c f x
home-here bs c f b v x z e =
    ap (λ y. if holds bs x then c x else y)
      (ap (update f b v) (sym z) ∙ update_self f b v ∙ e ∙ ap c z)
    ∙ if-same (holds bs x) (c x)
    ∙ sym (rw ((==_iff b x).1 z) refl)

home-there :
    (bs : List ℕ) (c f : ℕ → ℕ) (b v x : ℕ)
    → b ≢ x
    → home bs c (update f b v) x ≡ home (b ∷ bs) c f x
home-there bs c f b v x ne =
    ap (λ y. if holds bs x then c x else y) (update_ne f b x v (λ z. ne (sym z)))
    ∙ sym (rw (==_of_ne b x ne) refl)

-- An installation whose log holds `c`, done to the end.
pub install_lem :
    (start tail n : ℕ) (bs : List ℕ) (c cache : ℕ → ℕ) (d : Disk)
    → All (OutOfLog start n) bs
    → tail + length bs ≤ n
    → Logged start tail bs c cache
    → (x : ℕ) → (apply (install_trans start tail bs cache).0 d).blocks x ≡ home bs c d.blocks x
unfolding install_trans
install_lem start tail n [] c cache d out le h x = refl
install_lem start tail n (b ∷ bs) c cache d (o, out) le (e, h) x =
    install_lem start (suc tail) n bs c (update cache b v)
      (record d { blocks = update d.blocks b v }) out (omega arith)
      (Logged-update start (suc tail) n b v bs c cache o (omega arith) h) x
    ∙ elim (ℕ_discrete b x) [
      | yes z ↦ home-here bs c d.blocks b v x z e
      | no ne ↦ home-there bs c d.blocks b v x ne
    ]
  where
    v : ℕ
    v = cache (start + tail + 1)

clash : (p q : Bool) → p ≡ true → p || q ≢ false
clash p q e h = ground arith

holds-tail : (b x : ℕ) (bs : List ℕ) → holds (b ∷ bs) x ≡ false → (x ≢ b) × (holds bs x ≡ false)
holds-tail b x bs h = elim (ℕ_discrete b x) [
  | yes z ↦ absurd (clash (b == x) (holds bs x) ((==_iff b x).1 z) h)
  | no ne ↦ ((λ z. ne (sym z)), rw (==_of_ne b x ne) at h)
]

pub holds-out :
    (start n t : ℕ) (bs : List ℕ)
    → All (OutOfLog start n) bs
    → t < n
    → holds bs (start + t + 1) ≡ false
holds-out start n t [] h lt = refl
holds-out start n t (b ∷ bs) (o, h) lt =
    rw (==_of_ne b (start + t + 1) (o t lt), holds-out start n t bs h lt) refl

-- A part of an installation touches home blocks only.
pub install-part :
    (k start tail : ℕ) (bs : List ℕ) (cache : ℕ → ℕ) (d : Disk)
    → ((apply (take k (install_trans start tail bs cache).0) d).head ≡ d.head)
      × ((x : ℕ)
          → holds bs x ≡ false
          → (apply (take k (install_trans start tail bs cache).0) d).blocks x ≡ d.blocks x)
unfolding install_trans
install-part zero start tail bs cache d = (refl, λ x h. refl)
install-part (suc k) start tail [] cache d = (refl, λ x h. refl)
install-part (suc k) start tail (b ∷ bs) cache d =
    let v = cache (start + tail + 1) in
    let (same, rest) =
      install-part k start (suc tail) bs (update cache b v)
        (record d { blocks = update d.blocks b v }) in
    (same, λ x h. let (ne, h') = holds-tail b x bs h in rest x h' ∙ update_ne d.blocks b x v ne)

-- The block is none of the blocks of the log from `tail` on, of which there are `n`.
abbrev Behind : ℕ → ℕ → ℕ → ℕ → Type 0
Behind start tail n x = (t : ℕ) → tail ≤ t → t < tail + n → x ≢ start + t + 1

-- A part of the writing of the log touches blocks of the log only.
pub write_log-part :
    (k start tail : ℕ) (bs : List ℕ) (cache : ℕ → ℕ) (d : Disk)
    → ((apply (take k (write_log start tail bs cache).0) d).head ≡ d.head)
      × ((x : ℕ)
          → Behind start tail (length bs) x
          → (apply (take k (write_log start tail bs cache).0) d).blocks x ≡ d.blocks x)
unfolding write_log
write_log-part zero start tail bs cache d = (refl, λ x h. refl)
write_log-part (suc k) start tail [] cache d = (refl, λ x h. refl)
write_log-part (suc k) start tail (b ∷ bs) cache d =
    let to = start + tail + 1 in
    let (same, rest) =
      write_log-part k start (suc tail) bs (update cache to (cache b))
        (record d { blocks = update d.blocks to (cache b) }) in
    (
      same,
      λ x h.
          rest x (λ t le lt. h t (omega arith) (omega arith))
          ∙ update_ne d.blocks to x (cache b) (h tail (omega arith) (omega arith)),
    )

write_log-cache :
    (start tail : ℕ) (bs : List ℕ) (cache : ℕ → ℕ) (x : ℕ)
    → Behind start tail (length bs) x
    → (write_log start tail bs cache).1 x ≡ cache x
unfolding write_log
write_log-cache start tail [] cache x h = refl
write_log-cache start tail (b ∷ bs) cache x h =
    let to = start + tail + 1 in
    write_log-cache start (suc tail) bs (update cache to (cache b)) x
      (λ t le lt. h t (omega arith) (omega arith))
    ∙ update_ne cache to x (cache b) (h tail (omega arith) (omega arith))

write_log-whole :
    (start tail : ℕ) (bs : List ℕ) (cache : ℕ → ℕ) (d : Disk) (x : ℕ)
    → Behind start tail (length bs) x
    → (apply (write_log start tail bs cache).0 d).blocks x ≡ d.blocks x
write_log-whole start tail bs cache d x h =
    let ws = (write_log start tail bs cache).0 in
    ap (λ us. (apply us d).blocks x) (sym (take_all (length ws) ws (omega arith)))
    ∙ (write_log-part (length ws) start tail bs cache d).1 x h

All-update :
    (n start t v : ℕ) (bs : List ℕ) (c cache : ℕ → ℕ)
    → All (OutOfLog start n) bs
    → t < n
    → All (λ b. cache b ≡ c b) bs
    → All (λ b. update cache (start + t + 1) v b ≡ c b) bs
All-update n start t v [] c cache out lt h = tt
All-update n start t v (b ∷ bs) c cache (o, out) lt (e, h) =
    (update_ne cache (start + t + 1) b v (o t lt) ∙ e, All-update n start t v bs c cache out lt h)

-- The writing of the log, done to the end: the log holds the contents, on the disk and in the cache.
pub write_log_lem :
    (start tail n : ℕ) (bs : List ℕ) (c cache : ℕ → ℕ) (d : Disk)
    → All (OutOfLog start n) bs
    → tail + length bs ≤ n
    → All (λ b. cache b ≡ c b) bs
    → Logged start tail bs c (apply (write_log start tail bs cache).0 d).blocks
      × Logged start tail bs c (write_log start tail bs cache).1
unfolding write_log
write_log_lem start tail n [] c cache d out le h = (tt, tt)
write_log_lem start tail n (b ∷ bs) c cache d (o, out) le (e, h) =
    let to = start + tail + 1 in
    let e' = record d { blocks = update d.blocks to (cache b) } in
    let behind : Behind start (suc tail) (length bs) to = λ t le' lt z. absurd (omega arith) in
    let (disk, mem) =
      write_log_lem start (suc tail) n bs c (update cache to (cache b)) e' out (omega arith)
        (All-update n start tail (cache b) bs c cache out (omega arith) h) in
    (
      (
        write_log-whole start (suc tail) bs (update cache to (cache b)) e' to behind
            ∙ update_self d.blocks to (cache b)
            ∙ e,
        disk,
      ),
      (
        write_log-cache start (suc tail) bs (update cache to (cache b)) to behind
            ∙ update_self cache to (cache b)
            ∙ e,
        mem,
      ),
    )
