-- ===== src/Paging/Scfifo/Chance.antt =====
-- `removeSCFIFO` of proc.c against the second-chance policy on a list of pages.
use mathlib.Core.Option
use c_cpp_projects.Prelude.{
  ℕ, suc, ◌+◌, ◌/◌, ◌≡◌, ◌≢◌, refl, ap, ap₂, sym, ◌∙◌, Bool, true, false, Bool-cases, inl, inr,
  List, [], ◌∷◌, ◌++◌, map, length, get_elem?, Option, none, some, append-nil, append_assoc, arith,
  if◌then◌else◌, Outcome, ok, ℤ, pos, update, update_ne, All, NotIn, Distinct, length-append,
}
use c_cpp_projects.Paging.{Page, Proc, accessed, store_pte, pte_a_off, update_queue}
use c_cpp_projects.Paging.Access.{page_at-ok, load_pte-ok}
use c_cpp_projects.Paging.Shift.{pad}
use c_cpp_projects.Paging.Queue.{update_queue_lem}
use c_cpp_projects.Paging.Scfifo.{scan, settle, take_first, rotate, remove_scfifo}
use c_cpp_projects.Paging.Scfifo.Rotate.{rotate_lem, pad-full}

-- The number, in the address space, of the page that an entry of `pages` describes.
unfoldable pub vpn : List Page → ℕ → ℕ
vpn pages x = elim (get_elem? pages x) [ none ↦ 0 | some g ↦ g.v_address / 4096 ]

-- Whether the processor has set the accessed bit of a page.
pub was_used : List Page → (ℕ → Option ℕ) → ℕ → Bool
was_used pages pte x = elim (pte (vpn pages x)) [ none ↦ false | some e ↦ accessed e ]

-- The entry describes a page that has a page table entry.
abbrev pub Mapped : List Page → (ℕ → Option ℕ) → ℕ → Type 0
Mapped pages pte x =
    (g : Page) × (e : ℕ) × (get_elem? pages x ≡ some g) × (pte (g.v_address / 4096) ≡ some e)

-- The used pages in front, and what follows them.
abbrev pub chance : (ℕ → Bool) → List ℕ → List ℕ × List ℕ
chance used [] = ([], [])
chance used (x ∷ xs) = let (a, b) = chance used xs in if used x then (x ∷ a, b) else ([], x ∷ xs)

-- Second chance: the first page not used goes, and those in front of it move to the end; if all are
-- used, the first page goes.
abbrev pub choose : List ℕ → List ℕ → ℕ × List ℕ
choose pre (v ∷ post) = (v, post ++ pre)
choose [] [] = (0, [])
choose (x ∷ pre) [] = (x, pre)

-- The page table with the accessed bit of a page cleared.
pub clear_used : List Page → (ℕ → Option ℕ) → ℕ → ℕ → Option ℕ
clear_used pages pte x = update pte (vpn pages x) (Option.map pte_a_off (pte (vpn pages x)))

-- The accessed bits of the pages are cleared, one after the other.
abbrev pub cleared : List Page → (ℕ → Option ℕ) → List ℕ → ℕ → Option ℕ
cleared pages pte [] = pte
cleared pages pte (x ∷ xs) = cleared pages (clear_used pages pte x) xs

abbrev found : ℕ → List ℕ → List ℕ → Option (ℕ × ℤ)
found i pre [] = none
found i pre (v ∷ post) = some (i + length pre, pos v)

Mapped-vpn :
    (pages : List Page) (x : ℕ) (g : Page)
    → get_elem? pages x ≡ some g
    → vpn pages x ≡ g.v_address / 4096
unfolding vpn
Mapped-vpn pages x g e = rw (e, vpn) refl

was_used-eq :
    (pages : List Page) (pte : ℕ → Option ℕ) (x e : ℕ) (g : Page)
    → get_elem? pages x ≡ some g
    → pte (g.v_address / 4096) ≡ some e
    → was_used pages pte x ≡ accessed e
unfolding was_used
was_used-eq pages pte x e g a h = rw (Mapped-vpn pages x g a, h, was_used) refl

clear_used-eq :
    (pages : List Page) (pte : ℕ → Option ℕ) (x e : ℕ) (g : Page)
    → get_elem? pages x ≡ some g
    → pte (g.v_address / 4096) ≡ some e
    → clear_used pages pte x ≡ store_pte pte g.v_address (pte_a_off e)
unfolding clear_used
clear_used-eq pages pte x e g a h =
    ap (λ v. update pte v (Option.map pte_a_off (pte v))) (Mapped-vpn pages x g a)
    ∙ ap (λ o. update pte (g.v_address / 4096) (Option.map pte_a_off o)) h

was_used-update :
    (pages : List Page) (pte : ℕ → Option ℕ) (v x : ℕ) (o : Option ℕ)
    → vpn pages x ≢ v
    → was_used pages (update pte v o) x ≡ was_used pages pte x
unfolding was_used
was_used-update pages pte v x o ne =
    ap (λ (r : Option ℕ). elim r [ none ↦ false | some e ↦ accessed e ])
      (update_ne pte v (vpn pages x) o ne)

Mapped-update :
    (pages : List Page) (pte : ℕ → Option ℕ) (v : ℕ) (o : Option ℕ) (xs : List ℕ)
    → NotIn v (map (vpn pages) xs)
    → All (Mapped pages pte) xs
    → All (Mapped pages (update pte v o)) xs
Mapped-update pages pte v o [] out m = tt
Mapped-update pages pte v o (x ∷ xs) out ((g, e, at_page, entry), m) = (
  (
    g,
    e,
    at_page,
    update_ne pte v (g.v_address / 4096) o (λ s. out.0 (Mapped-vpn pages x g at_page ∙ s)) ∙ entry,
  ),
  Mapped-update pages pte v o xs out.1 m,
)

chance-update :
    (pages : List Page) (pte : ℕ → Option ℕ) (v : ℕ) (o : Option ℕ) (xs : List ℕ)
    → NotIn v (map (vpn pages) xs)
    → chance (was_used pages (update pte v o)) xs ≡ chance (was_used pages pte) xs
chance-update pages pte v o [] out = refl
chance-update pages pte v o (x ∷ xs) out =
    rw (was_used-update pages pte v x o out.0, chance-update pages pte v o xs out.1) refl

found-suc : (i x : ℕ) (pre post : List ℕ) → found (suc i) pre post ≡ found i (x ∷ pre) post
found-suc i x pre [] = refl
found-suc i x pre (v ∷ post) = ap (λ n. some (n, pos v)) (omega arith)

pub chance-append : (used : ℕ → Bool) (xs : List ℕ) → let (a, b) = chance used xs in a ++ b ≡ xs
chance-append used [] = refl
chance-append used (x ∷ xs) = elim (Bool-cases (used x)) [
  | inl e ↦ rw e (ap (◌∷◌ x) (chance-append used xs))
  | inr e ↦ rw e refl
]

ok-triple {ℓ κ μ} :
    {A : Type ℓ} {B : Type κ} {C : Type μ} {a a' : A} {b b' : B} {c c' : C}
    → a ≡ a'
    → b ≡ b'
    → c ≡ c'
    → ◌≡◌ {A = Outcome (A × B × C)} (ok (a, b, c)) (ok (a', b', c'))
ok-triple p q r = λ i. ok (p i, q i, r i)

scan_lem :
    (pages : List Page) (i : ℕ) (xs : List ℕ) (temp : List ℤ) (pte : ℕ → Option ℕ)
    → (c : List ℕ × List ℕ) → All (Mapped pages pte) xs
    → Distinct (map (vpn pages) xs)
    → chance (was_used pages pte) xs ≡ c
    → scan pages i (map pos xs) temp pte
      ≡ ok (found i c.0 c.1, temp ++ map pos c.0, cleared pages pte c.0)
unfolding scan
scan_lem pages i [] temp pte c m d h = rw (← h, append-nil) refl
scan_lem pages i (x ∷ xs) temp pte c ((g, e, at_page, entry), m) d h =
    rw (page_at-ok pages x g at_page, load_pte-ok pte g.v_address e entry)
      (elim (Bool-cases (accessed e)) [
        | inl hit ↦ rw hit (
            scan_lem pages (suc i) xs (temp ++ pos x ∷ []) (store_pte pte g.v_address (pte_a_off e))
              rest (Mapped-update pages pte (g.v_address / 4096) _ xs out m) d.1
              (chance-update pages pte (g.v_address / 4096) _ xs out)
            ∙ (ok-triple (found-suc i x rest.0 rest.1)
                  (append_assoc temp (pos x ∷ []) (map pos rest.0))
                  (ap (λ t. cleared pages t rest.0)
                    (sym (clear_used-eq pages pte x e g at_page entry)))
                ∙ ap (λ k. ok (found i k.0 k.1, temp ++ map pos k.0, cleared pages pte k.0))
                    (first hit)))
        | inr miss ↦ rw miss (
            sym (
              rw (← first' miss, append-nil)
                (ap (λ n. ok (some (n, pos x), temp, pte)) (omega arith))))
      ])
  where
    rest : List ℕ × List ℕ
    rest = chance (was_used pages pte) xs

    out : NotIn (g.v_address / 4096) (map (vpn pages) xs)
    out = rw (Mapped-vpn pages x g at_page) at d.0

    first :
        accessed e ≡ true
        → (x ∷ (chance (was_used pages pte) xs).0, (chance (was_used pages pte) xs).1) ≡ c
    first hit = rw (was_used-eq pages pte x e g at_page entry, hit) at h

    first' : accessed e ≡ false → ([], x ∷ xs) ≡ c
    first' miss = rw (was_used-eq pages pte x e g at_page entry, miss) at h

take_first_lem :
    (p : Proc) (x : ℕ) (pre : List ℕ)
    → p.ram_queue ≡ map pos (x ∷ pre)
    → length (x ∷ pre) ≡ 16
    → take_first p ≡ ok (pos x, record p { ram_queue = pad 16 pre })
unfolding take_first
take_first_lem p x pre q l =
    ap (λ r. take_first (record p { ram_queue = r })) q
    ∙ ap (λ r. ok (pos x, record p { ram_queue = r }))
        (ap (update_queue 0) (sym (pad-full 16 (x ∷ pre) l))
          ∙ update_queue_lem (x ∷ pre) 0 (omega arith) (omega arith))

settle_lem :
    (p : Proc) (pre post xs : List ℕ)
    → p.ram_queue ≡ map pos xs
    → length xs ≡ 16
    → pre ++ post ≡ xs
    → settle p (found 0 pre post) (map pos pre)
      ≡ ok (pos (choose pre post).0, record p { ram_queue = pad 16 (choose pre post).1 })
unfolding settle
settle_lem p pre (v ∷ post) xs q l e =
    let zero_add : 0 + length pre ≡ length pre = omega arith in
    let queue : p.ram_queue ≡ map pos (pre ++ v ∷ post) = q ∙ ap (map pos) (sym e) in
    ap (λ r. ok (pos v, record p { ram_queue = r }))
      (ap₂ (λ n r. rotate n (map pos pre) r) zero_add queue
        ∙ rotate_lem pre post v (omega (arith, ap length e, length-append pre (v ∷ post))))
settle_lem p [] [] xs q l e = absurd (omega (arith, ap length e))
settle_lem p (x ∷ pre) [] xs q l e =
    take_first_lem p x pre (q ∙ ap (map pos) (sym e ∙ append-nil (x ∷ pre)))
      (omega (arith, ap length e, length-append (x ∷ pre) []))

-- On a full queue of pages that are all mapped, at different addresses, `removeSCFIFO` does not fail
-- and is second chance: it returns the first page whose accessed bit is clear, with the pages in
-- front of it moved to the end of the queue and their bits cleared; if every bit is set, it returns
-- the first page, takes it off the queue and clears all bits. Nothing else of the process changes.
pub remove_scfifo_lem :
    (p : Proc) (xs : List ℕ)
    → p.ram_queue ≡ map pos xs
    → length xs ≡ 16
    → All (Mapped p.pages p.pte) xs
    → Distinct (map (vpn p.pages) xs)
    → let (pre, post) = chance (was_used p.pages p.pte) xs in
      let (victim, queue) = choose pre post in
      remove_scfifo p
      ≡ ok (pos victim, record p { ram_queue = pad 16 queue; pte = cleared p.pages p.pte pre })
unfolding remove_scfifo
remove_scfifo_lem p xs q l m d =
    rw (q, scan_lem p.pages 0 xs [] p.pte (chance (was_used p.pages p.pte) xs) m d refl)
      (settle_lem (record p { pte = cleared p.pages p.pte pre; ram_queue = map pos xs }) pre post xs
        refl l (chance-append (was_used p.pages p.pte) xs))
  where
    pre : List ℕ
    pre = (chance (was_used p.pages p.pte) xs).0

    post : List ℕ
    post = (chance (was_used p.pages p.pte) xs).1
