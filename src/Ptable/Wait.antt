-- ===== src/Ptable/Wait.antt =====
-- What `wait` finds in the process table.
use c_cpp_projects.Prelude.{
  ℕ, ◌≡◌, refl, ap, Bool, true, false, ◌&&◌, ◌||◌, not, List, [], ◌∷◌, ◌++◌, none, some, arith,
  ◌==◌, ==_self, if◌then◌else◌, All,
}
use c_cpp_projects.Ptable.{
  Task, unused, zombie, is_in, scan_children, reap, reaped, no_children, must_sleep, wait_once,
  wait_end,
}

-- A child of the process `cur` that has ended.
abbrev pub is_dead_child : ℕ → Task → Bool
is_dead_child cur p = (p.parent == cur) && is_in p.state zombie

abbrev pub NoDead : ℕ → List Task → Type 0
NoDead cur ps = All (λ p. is_dead_child cur p ≡ false) ps

-- Whether some task has the parent.
abbrev pub has_child : ℕ → List Task → Bool
has_child cur [] = false
has_child cur (p ∷ ps) = (p.parent == cur) || has_child cur ps

scan-none :
    (cur : ℕ) (ps : List Task) → NoDead cur ps → scan_children cur ps ≡ (has_child cur ps, none)
unfolding scan_children
scan-none cur [] h = refl
scan-none cur (p ∷ ps) (d, h) = rw (scan-none cur ps h) (ground arith)

scan-some :
    (cur : ℕ) (before after : List Task) (p : Task)
    → NoDead cur before
    → is_dead_child cur p ≡ true
    → scan_children cur (before ++ p ∷ after)
      ≡ (true, some (p.pid, p.kstack, before ++ reap p ∷ after))
unfolding scan_children
scan-some cur [] after p h d = ground arith
scan-some cur (q ∷ before) after p h d = rw (scan-some cur before after p h.1 d) (ground arith)

-- From `p` to `q` the place of a child has been given up: it is free for `allocproc`, belongs to no
-- process and has no pid, no parent and no stack.
pub record Freed (p q : Task) : Type 0 where
  pub free : q.state ≡ unused
  pub no_pid : q.pid ≡ 0
  pub no_parent : q.parent ≡ 0
  pub not_killed : q.killed ≡ false
  pub no_stack : q.kstack ≡ 0
  pub same_chan : q.chan ≡ p.chan

-- `wait` takes the first child in the table that has ended: it returns that child's pid and the kernel
-- stack that is freed. The child's place is unused after it, with pid, parent, stack and the mark of a
-- kill cleared, and all other places stay as they are.
pub wait_once-reaps :
    (cur : ℕ) (killed : Bool) (before after : List Task) (p : Task)
    → NoDead cur before
    → p.parent ≡ cur
    → p.state ≡ zombie
    → (q : Task) × (wait_once cur killed (before ++ p ∷ after)
        ≡ reaped p.pid p.kstack (before ++ q ∷ after))
      × Freed p q
unfolding wait_once reap
wait_once-reaps cur killed before after p h e z = (
  reap p,
  ap (λ r. wait_end killed r.0 r.1) (scan-some cur before after p h (rw (e, ==_self cur, z) refl)),
  record {
    free = refl;
    no_pid = refl;
    no_parent = refl;
    not_killed = refl;
    no_stack = refl;
    same_chan = refl;
  },
)

-- While no child has ended, `wait` returns -1 just if there is no child or the process was killed,
-- and sleeps otherwise.
pub wait_once-waits :
    (cur : ℕ) (killed : Bool) (ps : List Task)
    → NoDead cur ps
    → wait_once cur killed ps
      ≡ (if not (has_child cur ps) || killed then no_children else must_sleep)
unfolding wait_once
wait_once-waits cur killed ps h = ap (λ r. wait_end killed r.0 r.1) (scan-none cur ps h)
