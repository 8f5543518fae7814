-- ===== src/Log/Crash.antt =====
-- A crash at any point of a commit, and of the recoveries after it.
use c_cpp_projects.Prelude.{
  ℕ, zero, suc, ◌+◌, ◌<◌, ◌≡◌, ◌⊎◌, inl, inr, subst, refl, sym, ap, ◌∙◌, List, [], ◌∷◌, ◌++◌,
  length, take, take_all, take-nil, arith, false, All,
}
use c_cpp_projects.Log.{
  Log, Write, Disk, apply, install_trans, write_head, commit, recover_from_log, holds,
}
use c_cpp_projects.Log.Replay.{OutOfLog, Logged, install_lem, install-part, holds-out}
use c_cpp_projects.Log.Recovery.{
  recovered, Old, New, Stage, before, logged, after, home-both, Logged-same, apply-append,
  take-parts, stage-recovers, crash, commit-eq, commit-whole,
}

Logged-part :
    (start : ℕ) (lh : List ℕ) (c : ℕ → ℕ) (d e : Disk) (k : ℕ)
    → All (OutOfLog start (length lh)) lh
    → e.head ≡ lh
    → Logged start 0 lh c e.blocks
    → ((x : ℕ) → OutOfLog start (length lh) x → holds lh x ≡ false → e.blocks x ≡ d.blocks x)
    → Stage start lh c d (apply (take k (install_trans start 0 lh e.blocks).0) e)
Logged-part start lh c d e k out h l o =
    let (head, blocks) = install-part k start 0 lh e.blocks e in
    logged (head ∙ h)
      (Logged-same start 0 (length lh) lh c e.blocks _ (omega arith)
        (λ t lt. blocks (start + t + 1) (holds-out start (length lh) t lh out lt)) l)
      (λ x x-out absent. blocks x absent ∙ o x x-out absent)

ending :
    (start : ℕ) (lh : List ℕ) (c : ℕ → ℕ) (d : Disk) (ws : List Write) (e : Disk)
    → ((k : ℕ) → Stage start lh c d (apply (take k ws) e))
    → Stage start lh c d (record (apply ws e) { head = [] })
    → (k : ℕ) → Stage start lh c d (apply (take k (ws ++ write_head [])) e)
ending start lh c d ws e parts end k = elim (take-parts ws (write_head []) k) [
  | inl p ↦ subst (λ us. Stage start lh c d (apply us e)) (sym p) (parts k)
  | inr (j, p) ↦
      subst (λ us. Stage start lh c d (apply us e)) (sym p)
        (subst (Stage start lh c d) (sym (apply-append ws (take j (write_head [])) e)) (last j))
]
  where
    last : (j : ℕ) → Stage start lh c d (apply (take j (write_head [])) (apply ws e))
    last zero =
        subst (λ us. Stage start lh c d (apply us e)) (take_all (length ws) ws (omega arith))
          (parts (length ws))
    last (suc zero) = end
    last (suc (suc j)) = end

clean-writes : (start : ℕ) (e : Disk) → e.head ≡ [] → recover_from_log start e ≡ write_head []
unfolding recover_from_log install_trans
clean-writes start e h = ap (λ hd. recover_from_log start (record e { head = hd })) h

dirty-writes :
    (start : ℕ) (lh : List ℕ) (e : Disk)
    → e.head ≡ lh
    → recover_from_log start e ≡ (install_trans start 0 lh e.blocks).0 ++ write_head []
unfolding recover_from_log
dirty-writes start lh e h = ap (λ hd. recover_from_log start (record e { head = hd })) h

-- A recovery that is cut short leaves a disk from which the next one recovers the same.
stage-survives :
    (start : ℕ) (lh : List ℕ) (c : ℕ → ℕ) (d e : Disk) (k : ℕ)
    → All (OutOfLog start (length lh)) lh
    → Stage start lh c d e
    → Stage start lh c d (apply (take k (recover_from_log start e)) e)
stage-survives start lh c d e k out (before h o) =
    subst (λ ws. Stage start lh c d (apply (take k ws) e)) (sym (clean-writes start e h))
      (ending start lh c d [] e
        (λ j. subst (λ us. Stage start lh c d (apply us e)) (sym (take-nil Write j)) (before h o))
        (before refl o) k)
stage-survives start lh c d e k out (after h o) =
    subst (λ ws. Stage start lh c d (apply (take k ws) e)) (sym (clean-writes start e h))
      (ending start lh c d [] e
        (λ j. subst (λ us. Stage start lh c d (apply us e)) (sym (take-nil Write j)) (after h o))
        (after refl o) k)
stage-survives start lh c d e k out (logged h l o) =
    subst (λ ws. Stage start lh c d (apply (take k ws) e)) (sym (dirty-writes start lh e h))
      (ending start lh c d (install_trans start 0 lh e.blocks).0 e
        (λ j. Logged-part start lh c d e j out h l o)
        (after refl (λ x x-out.
          install_lem start 0 (length lh) lh c e.blocks e out (omega arith) l x
          ∙ home-both lh c d.blocks e.blocks x (o x x-out)))
        k)

-- Starts that stop after so many writes of the recovery each, and then one that is not cut short.
pub starts : ℕ → List ℕ → Disk → Disk
starts start [] d = recovered start d
starts start (k ∷ ks) d = starts start ks (apply (take k (recover_from_log start d)) d)

starts_lem :
    (start : ℕ) (lh : List ℕ) (c : ℕ → ℕ) (d : Disk) (ks : List ℕ) (e : Disk)
    → All (OutOfLog start (length lh)) lh
    → Stage start lh c d e
    → ((starts start ks e).head ≡ [])
      × (Old start (length lh) d (starts start ks e)
          ⊎ New start (length lh) lh c d (starts start ks e))
unfolding starts
starts_lem start lh c d [] e out s = stage-recovers start lh c d e out s
starts_lem start lh c d (k ∷ ks) e out s =
    starts_lem start lh c d ks _ out (stage-survives start lh c d e k out s)

-- A commit of some logged blocks that is not cut short writes each of them to its home, leaves the
-- other blocks out of the log as they are, and empties the log, on the disk and in memory. No logged
-- block is one of the log's own.
pub commit_lem :
    (g : Log) (c : ℕ → ℕ) (d : Disk)
    → 0 < length g.lh
    → All (OutOfLog g.start (length g.lh)) g.lh
    → let (ws, h) = commit g c in
      (h.lh ≡ []) × ((apply ws d).head ≡ []) × New g.start (length g.lh) g.lh c d (apply ws d)
commit_lem g c d lt out =
    let (head, blocks) = commit-whole g.start g.lh c d out in
    subst
      (λ r.
        (r.1.lh ≡ [])
        × ((apply r.0 d).head ≡ [])
        × New g.start (length g.lh) g.lh c d (apply r.0 d))
      (sym (commit-eq g c d out lt)) (refl, head, blocks)

-- A commit is atomic. If the machine stops after any number of the commit's disk writes, then the
-- recovery at the next start, or after any
-- number of starts whose recovery is cut short in the same way, leaves the header empty, and either every block out of the log is as
-- before the commit, or every logged block is in its home with the contents of the commit and the
-- other blocks are as before. The header on the disk is empty at first, and no logged block is one
-- of the log's own.
pub commit-recover :
    (g : Log) (c : ℕ → ℕ) (d : Disk) (k : ℕ) (ks : List ℕ)
    → 0 < length g.lh
    → d.head ≡ []
    → All (OutOfLog g.start (length g.lh)) g.lh
    → let e = starts g.start ks (apply (take k (commit g c).0) d) in
      (e.head ≡ []) × (Old g.start (length g.lh) d e ⊎ New g.start (length g.lh) g.lh c d e)
commit-recover g c d k ks lt clean out =
    subst (λ r. Recovers (starts g.start ks (apply (take k r.0) d))) (sym (commit-eq g c d out lt))
      (starts_lem g.start g.lh c d ks _ out (crash g.start g.lh c d out k clean))
  where
    Recovers : Disk → Type 0
    Recovers e =
        (e.head ≡ []) × (Old g.start (length g.lh) d e ⊎ New g.start (length g.lh) g.lh c d e)
