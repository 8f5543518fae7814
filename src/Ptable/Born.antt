-- ===== src/Ptable/Born.antt =====
-- What `allocproc` makes of an unused place, and what `kill` can do to it before.
use c_cpp_projects.Prelude.{
  ℕ, suc, ◌+◌, ◌≡◌, ◌≢◌, refl, ap, ap₂, ◌∙◌, true, false, List, [], ◌∷◌, ◌++◌, length, get_elem?,
  set, none, some, arith, ◌==◌, ==_of_ne, if◌then◌else◌, pos, All,
}
use c_cpp_projects.Ptable.{
  Task, Ptable, unused, embryo, is_in, find_unused, embryo_at, clear_paging, allocproc, kill,
  kill_from, kill_task,
}

-- No task in front of the place is unused.
abbrev pub InUse : List Task → Type 0
InUse ps = All (λ p. is_in p.state unused ≡ false) ps

find_unused_lem :
    (before after : List Task) (p : Task) (i : ℕ)
    → InUse before
    → p.state ≡ unused
    → find_unused (before ++ p ∷ after) i ≡ some (i + length before)
unfolding find_unused
find_unused_lem [] after p i h e = rw (e) (ap some (omega arith))
find_unused_lem (q ∷ before) after p i (u, h) e =
    rw u (find_unused_lem before after p (suc i) h e ∙ ap some (omega arith))

find_unused-none : (ps : List Task) (i : ℕ) → InUse ps → find_unused ps i ≡ none
unfolding find_unused
find_unused-none [] i h = refl
find_unused-none (p ∷ ps) i (u, h) = rw u (find_unused-none ps (suc i) h)

get_elem?-middle :
    (before after : List Task) (p : Task) → get_elem? (before ++ p ∷ after) (length before) ≡ some p
get_elem?-middle [] after p = refl
get_elem?-middle (q ∷ before) after p = get_elem?-middle before after p

set-middle :
    (before after : List Task) (p q : Task)
    → set (before ++ p ∷ after) (length before) q ≡ before ++ q ∷ after
set-middle [] after p q = refl
set-middle (r ∷ before) after p q = ap (◌∷◌ r) (set-middle before after p q)

-- The new task: the fields that `allocproc` does not name are those of the old one.
abbrev pub born : ℕ → ℕ → ℕ → Task → Task
born age kstack pid p = clear_paging age (record p { state = embryo; pid = pid; kstack = kstack })

embryo_at-middle :
    (age kstack nextpid : ℕ) (before after : List Task) (p : Task)
    → embryo_at age kstack
        (record { proc = before ++ p ∷ after; nextpid = nextpid })
        (length before)
        p
      ≡ (if kstack == 0
          then (
            none,
            record {
              proc = before ++ record p { pid = nextpid; kstack = 0; state = unused } ∷ after;
              nextpid = suc nextpid;
            },
          )
          else (
            some (length before),
            record { proc = before ++ born age kstack nextpid p ∷ after; nextpid = suc nextpid },
          ))
unfolding embryo_at
embryo_at-middle age kstack nextpid before after p =
    ap₂
      (λ (a b : List Task).
        if kstack == 0
        then (none, record { proc = a; nextpid = suc nextpid })
        else (some (length before), record { proc = b; nextpid = suc nextpid }))
      (set-middle before after p (record p { pid = nextpid; kstack = 0; state = unused }))
      (set-middle before after p (born age kstack nextpid p))

-- `allocproc` takes the first unused place of the table. With a kernel stack the task there is an
-- embryo with the next pid and no pages; without one the place stays unused, and the pid is used up.
-- The other places stay as they are.
pub allocproc_lem :
    (age kstack nextpid : ℕ) (before after : List Task) (p : Task)
    → InUse before
    → p.state ≡ unused
    → allocproc age kstack (record { proc = before ++ p ∷ after; nextpid = nextpid }) ≡ (
        if kstack == 0
        then (
          none,
          record {
            proc = before ++ record p { pid = nextpid; kstack = 0; state = unused } ∷ after;
            nextpid = suc nextpid;
          },
        )
        else (
          some (length before),
          record { proc = before ++ born age kstack nextpid p ∷ after; nextpid = suc nextpid },
        ))
unfolding allocproc
allocproc_lem age kstack nextpid before after p h e =
    let from_zero : 0 + length before ≡ length before = omega arith in
    rw
      (
        find_unused_lem before after p 0 h e ∙ ap some from_zero,
        get_elem?-middle before after p,
        allocproc,
      )
      (embryo_at-middle age kstack nextpid before after p)

-- With no unused place `allocproc` returns null and changes nothing.
pub allocproc-full :
    (age kstack : ℕ) (t : Ptable) → InUse t.proc → allocproc age kstack t ≡ (none, t)
unfolding allocproc
allocproc-full age kstack t h = rw (find_unused-none t.proc 0 h, allocproc) refl

kill_from-middle :
    (before after : List Task) (p : Task)
    → All (λ q. q.pid ≢ 0) before
    → p.pid ≡ 0
    → kill_from 0 (before ++ p ∷ after) ≡ (pos 0, before ++ kill_task p ∷ after)
unfolding kill_from
kill_from-middle [] after p h e = rw (e, kill_from) refl
kill_from-middle (q ∷ before) after p (n, h) e =
    rw (==_of_ne q.pid 0 n, kill_from-middle before after p h e) refl

kill_task-unused : (p : Task) → p.state ≡ unused → kill_task p ≡ record p { killed = true }
unfolding kill_task
kill_task-unused p e = rw e refl

-- Unused places of the table have the pid 0, and `kill` does not look at the state. So `kill(0)`
-- reports success and marks the first unused place; `allocproc` does not clear the mark, and the next
-- process is killed from birth.
pub kill-allocproc :
    (age kstack nextpid : ℕ) (before after : List Task) (p : Task)
    → InUse before
    → All (λ q. q.pid ≢ 0) before
    → p.state ≡ unused
    → p.pid ≡ 0
    → kstack ≢ 0
    → let (r, t) = kill 0 (record { proc = before ++ p ∷ after; nextpid = nextpid }) in
      (r ≡ pos 0)
      × ((q : Task) × (u : Ptable) × (allocproc age kstack t ≡ (some (length before), u))
          × (get_elem? u.proc (length before) ≡ some q)
          × (q.state ≡ embryo)
          × (q.killed ≡ true))
unfolding kill clear_paging
kill-allocproc age kstack nextpid before after p used pids e z ne =
    let k =
      kill_from-middle before after p pids z
      ∙ ap (λ q. (pos 0, before ++ q ∷ after)) (kill_task-unused p e) in
    let killed_task : Task = record p { killed = true } in
    let a = allocproc_lem age kstack nextpid before after killed_task used e in
    let run = rw (==_of_ne kstack 0 ne) at a in
    rw k (
      refl,
      (
        born age kstack nextpid killed_task,
        record {
          proc = before ++ born age kstack nextpid killed_task ∷ after;
          nextpid = suc nextpid;
        },
        run,
        get_elem?-middle before after (born age kstack nextpid killed_task),
        refl,
        refl,
      ),
    )
