-- ===== src/Log/Recovery.antt =====
-- A crash at any point of a commit, and the recovery after it.
use c_cpp_projects.Prelude.{
  ℕ, zero, suc, ◌+◌, ◌≤◌, ◌<◌, ◌≡◌, ◌⊎◌, inl, inr, subst, refl, sym, ap, ◌∙◌, List, [], ◌∷◌, ◌++◌,
  length, take, take_all, arith, lt→ltb, false, Bool-cases, if◌then◌else◌, All,
}
use c_cpp_projects.Log.{
  Log, Write, block, header, Disk, apply, install_trans, write_log, write_head, commit,
  recover_from_log, holds,
}
use c_cpp_projects.Log.Replay.{
  OutOfLog, Logged, home, install_lem, install-part, write_log-part, write_log_lem, holds-out,
}

pub apply-append : (ws us : List Write) (d : Disk) → apply (ws ++ us) d ≡ apply us (apply ws d)
apply-append [] us d = refl
apply-append (block b v ∷ ws) us d = apply-append ws us _
apply-append (header bs ∷ ws) us d = apply-append ws us _

-- The first writes of a sequence in two parts.
pub take-parts :
    (ws us : List Write) (k : ℕ)
    → (take k (ws ++ us) ≡ take k ws) ⊎ ((j : ℕ) × (take k (ws ++ us) ≡ ws ++ take j us))
take-parts ws us zero = inl refl
take-parts [] us (suc k) = inr (suc k, refl)
take-parts (w ∷ ws) us (suc k) = elim (take-parts ws us k) [
  | inl e ↦ inl (ap (◌∷◌ w) e)
  | inr (j, e) ↦ inr (j, ap (◌∷◌ w) e)
]

-- The disk after a start.
pub recovered : ℕ → Disk → Disk
recovered start d = apply (recover_from_log start d) d

recovered-home :
    (start n : ℕ) (c : ℕ → ℕ) (d : Disk)
    → All (OutOfLog start n) d.head
    → length d.head ≤ n
    → Logged start 0 d.head c d.blocks
    → ((recovered start d).head ≡ [])
      × ((x : ℕ) → (recovered start d).blocks x ≡ home d.head c d.blocks x)
unfolding recovered recover_from_log
recovered-home start n c d out le h =
    let (ws, after) = install_trans start 0 d.head d.blocks in
    let split = apply-append ws (write_head []) d in
    (
      ap (λ e. e.head) split,
      λ x.
          ap (λ e. e.blocks x) split
          ∙ install_lem start 0 n d.head c d.blocks d out (omega arith) h x,
    )

-- With an empty header on the disk a start changes no block.
recovered-clean :
    (start : ℕ) (d : Disk)
    → d.head ≡ []
    → ((recovered start d).head ≡ []) × ((x : ℕ) → (recovered start d).blocks x ≡ d.blocks x)
unfolding recovered recover_from_log install_trans
recovered-clean start d e =
    let same = ap (λ h. recovered start (record d { head = h })) e in
    (ap (λ t. t.head) same, λ x. ap (λ t. t.blocks x) same)

-- With a header of logged blocks a start installs them.
recovered-dirty :
    (start n : ℕ) (lh : List ℕ) (c : ℕ → ℕ) (d : Disk)
    → d.head ≡ lh
    → All (OutOfLog start n) lh
    → length lh ≤ n
    → Logged start 0 lh c d.blocks
    → ((recovered start d).head ≡ [])
      × ((x : ℕ) → (recovered start d).blocks x ≡ home lh c d.blocks x)
recovered-dirty start n lh c d e out le h =
    let same = ap (λ h. recovered start (record d { head = h })) e in
    let (head, blocks) = recovered-home start n c (record d { head = lh }) out le h in
    (ap (λ t. t.head) same ∙ head, λ x. ap (λ t. t.blocks x) same ∙ blocks x)

pub Logged-same :
    (start tail n : ℕ) (bs : List ℕ) (c f g : ℕ → ℕ)
    → tail + length bs ≤ n
    → ((t : ℕ) → t < n → g (start + t + 1) ≡ f (start + t + 1))
    → Logged start tail bs c f
    → Logged start tail bs c g
Logged-same start tail n [] c f g le e h = tt
Logged-same start tail n (b ∷ bs) c f g le e (h, hs) =
    (e tail (omega arith) ∙ h, Logged-same start (suc tail) n bs c f g (omega arith) e hs)

-- What a start makes of the disk `e`, for blocks out of the log: as on `d`, or with all the logged
-- blocks in their homes.
abbrev pub Old : ℕ → ℕ → Disk → Disk → Type 0
Old start n d e = (x : ℕ) → OutOfLog start n x → e.blocks x ≡ d.blocks x

abbrev pub New : ℕ → ℕ → List ℕ → (ℕ → ℕ) → Disk → Disk → Type 0
New start n lh c d e = (x : ℕ) → OutOfLog start n x → e.blocks x ≡ home lh c d.blocks x

-- A disk in the course of a commit: no header yet; a header and a full log; or the homes written.
pub data Stage (start : ℕ) (lh : List ℕ) (c : ℕ → ℕ) (d e : Disk) : Type 0 where
  before : e.head ≡ [] → Old start (length lh) d e → Stage start lh c d e
  logged :
      e.head ≡ lh
      → Logged start 0 lh c e.blocks
      → ((x : ℕ) → OutOfLog start (length lh) x → holds lh x ≡ false → e.blocks x ≡ d.blocks x)
      → Stage start lh c d e
  after : e.head ≡ [] → New start (length lh) lh c d e → Stage start lh c d e

pub home-both :
    (bs : List ℕ) (c f g : ℕ → ℕ) (x : ℕ)
    → (holds bs x ≡ false → g x ≡ f x)
    → home bs c g x ≡ home bs c f x
home-both bs c f g x e = elim (Bool-cases (holds bs x)) [
  | inl h ↦ rw h refl
  | inr h ↦ ap (λ y. if holds bs x then c x else y) (e h)
]

pub stage-recovers :
    (start : ℕ) (lh : List ℕ) (c : ℕ → ℕ) (d e : Disk)
    → All (OutOfLog start (length lh)) lh
    → Stage start lh c d e
    → ((recovered start e).head ≡ [])
      × (Old start (length lh) d (recovered start e)
          ⊎ New start (length lh) lh c d (recovered start e))
stage-recovers start lh c d e out (before h o) =
    let (head, blocks) = recovered-clean start e h in (head, inl (λ x x-out. blocks x ∙ o x x-out))
stage-recovers start lh c d e out (after h o) =
    let (head, blocks) = recovered-clean start e h in (head, inr (λ x x-out. blocks x ∙ o x x-out))
stage-recovers start lh c d e out (logged h l o) =
    let (head, blocks) = recovered-dirty start (length lh) lh c e h out (omega arith) l in
    (head, inr (λ x x-out. blocks x ∙ home-both lh c d.blocks e.blocks x (o x x-out)))

module _ (start : ℕ) (lh : List ℕ) (c : ℕ → ℕ) (d : Disk)
    (out : All (OutOfLog start (length lh)) lh) where
  -- The log written, with its header.
  full : Disk
  full = record (apply (write_log start 0 lh c).0 d) { head = lh }

  mem : ℕ → ℕ
  mem = (write_log start 0 lh c).1

  same_cache : (bs : List ℕ) → All (λ b. c b ≡ c b) bs
  same_cache [] = tt
  same_cache (b ∷ bs) = (refl, same_cache bs)

  logs : Logged start 0 lh c (apply (write_log start 0 lh c).0 d).blocks × Logged start 0 lh c mem
  unfolding mem
  logs = write_log_lem start 0 (length lh) lh c c d out (omega arith) (same_cache lh)

  part-stage :
      (k : ℕ) → d.head ≡ [] → Stage start lh c d (apply (take k (write_log start 0 lh c).0) d)
  part-stage k e =
      let (head, blocks) = write_log-part k start 0 lh c d in
      before (head ∙ e) (λ x o. blocks x (λ t le lt. o t (omega arith)))

  full-others : (x : ℕ) → OutOfLog start (length lh) x → full.blocks x ≡ d.blocks x
  unfolding full
  full-others x o =
      let ws = (write_log start 0 lh c).0 in
      ap (λ us. (apply us d).blocks x) (sym (take_all (length ws) ws (omega arith)))
      ∙ (write_log-part (length ws) start 0 lh c d).1 x (λ t le lt. o t (omega arith))

  install-stage :
      (k : ℕ) → Stage start lh c d (apply (take k (install_trans start 0 lh mem).0) full)
  unfolding full
  install-stage k =
      let (head, blocks) = install-part k start 0 lh mem full in
      logged head
        (Logged-same start 0 (length lh) lh c _ _ (omega arith)
          (λ t lt. blocks (start + t + 1) (holds-out start (length lh) t lh out lt)) logs.0)
        (λ x o h. blocks x h ∙ full-others x o)

  installed-New : New start (length lh) lh c d (apply (install_trans start 0 lh mem).0 full)
  installed-New x o =
      install_lem start 0 (length lh) lh c mem full out (omega arith) logs.1 x
      ∙ home-both lh c d.blocks full.blocks x (λ h. full-others x o)

  last-stage :
      Stage start lh c d (record (apply (install_trans start 0 lh mem).0 full) { head = [] })
  last-stage = after refl installed-New

  pub commit-writes : List Write
  commit-writes =
      (write_log start 0 lh c).0
      ++ (write_head lh ++ ((install_trans start 0 lh mem).0 ++ write_head []))

  pub commit-whole :
      ((apply commit-writes d).head ≡ []) × New start (length lh) lh c d (apply commit-writes d)
  unfolding commit-writes full
  commit-whole =
      let ws = (write_log start 0 lh c).0 in
      let us = (install_trans start 0 lh mem).0 in
      let split : apply commit-writes d ≡ record (apply us full) { head = [] } =
        apply-append ws (write_head lh ++ (us ++ write_head [])) d
        ∙ apply-append us (write_head []) full in
      (ap (λ t. t.head) split, λ x o. ap (λ t. t.blocks x) split ∙ installed-New x o)

  install-crash :
      (k : ℕ)
      → Stage start lh c d (apply (take k ((install_trans start 0 lh mem).0 ++ write_head [])) full)
  install-crash k =
      let ws = (install_trans start 0 lh mem).0 in
      elim (take-parts ws (write_head []) k) [
        | inl e ↦ subst (λ us. Stage start lh c d (apply us full)) (sym e) (install-stage k)
        | inr (j, e) ↦
            subst (λ us. Stage start lh c d (apply us full)) (sym e)
              (subst (Stage start lh c d) (sym (apply-append ws (take j (write_head [])) full))
                (ending j))
      ]
    where
      ending :
          (j : ℕ)
          → Stage start lh c d
              (apply (take j (write_head [])) (apply (install_trans start 0 lh mem).0 full))
      ending zero =
          subst (λ us. Stage start lh c d (apply us full))
            (take_all (length (install_trans start 0 lh mem).0) (install_trans start 0 lh mem).0
              (omega arith))
            (install-stage (length (install_trans start 0 lh mem).0))
      ending (suc zero) = last-stage
      ending (suc (suc j)) = last-stage

  pub crash : (k : ℕ) → d.head ≡ [] → Stage start lh c d (apply (take k commit-writes) d)
  unfolding commit-writes full
  crash k clean =
      let ws = (write_log start 0 lh c).0 in
      elim (take-parts ws (write_head lh ++ ((install_trans start 0 lh mem).0 ++ write_head []))
        k) [
          | inl e ↦ subst (λ us. Stage start lh c d (apply us d)) (sym e) (part-stage k clean)
          | inr (j, e) ↦
              subst (λ us. Stage start lh c d (apply us d)) (sym e)
                (subst (Stage start lh c d)
                  (sym (
                    apply-append ws
                      (take j
                        (write_head lh ++ ((install_trans start 0 lh mem).0 ++ write_head [])))
                      d))
                  (rest clean j))
        ]
    where
      rest :
          d.head ≡ []
          → (j : ℕ)
          → Stage start lh c d (
              apply
                (take j (write_head lh ++ ((install_trans start 0 lh mem).0 ++ write_head [])))
                (apply (write_log start 0 lh c).0 d))
      rest clean zero =
          subst (λ us. Stage start lh c d (apply us d))
            (take_all (length (write_log start 0 lh c).0) (write_log start 0 lh c).0 (omega arith))
            (part-stage (length (write_log start 0 lh c).0) clean)
      rest clean (suc j) = install-crash j

pub commit-eq :
    (g : Log) (c : ℕ → ℕ) (d : Disk) (out : All (OutOfLog g.start (length g.lh)) g.lh)
    → 0 < length g.lh
    → commit g c ≡ (commit-writes g.start g.lh c d out, record g { lh = [] })
unfolding commit commit-writes mem
commit-eq g c d out lt = rw (lt→ltb 0 (length g.lh) lt) refl
