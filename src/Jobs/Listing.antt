-- ===== src/Jobs/Listing.antt =====
-- What a listing prints and what it leaves.
use c_cpp_projects.Prelude.{
  ℤ, ℕ, zero, suc, ◌<◌, ◌≡◌, ◌≢◌, refl, sym, ap, subst, ◌∙◌, arith, true, false, List, [], ◌∷◌, map,
  length, ==_of_ne, none, some, ok, pos, minus_one, eq_ℤ, update, update_self, update_ne, NotIn,
  All,
}
use c_cpp_projects.Jobs.{
  Job, Store, terminated, suspended, running, WaitPid, wifstopped, wifcontinued, update_job,
  update_from, update_process_list, print_process_list,
}
use c_cpp_projects.Jobs.Chain.{Chain, left, freed_after, print_from_lem}

-- From `old` to `new` a job has got the news of `waitpid`: where `waitpid` fails the process has ended;
-- a stopped process is suspended and a continued one runs; otherwise the word is the status, and
-- without a word a status of the three stays.
pub record Judged (waitpid : WaitPid) (old new : Job) : Type 0 where
  pub same_pid : new.pid ≡ old.pid
  pub same_cmd : new.cmd ≡ old.cmd
  pub gone : eq_ℤ (waitpid old.pid).0 minus_one ≡ true → new.status ≡ terminated
  pub stopped :
      (w : ℤ)
      → eq_ℤ (waitpid old.pid).0 minus_one ≡ false
      → (waitpid old.pid).1 ≡ some w
      → wifstopped w ≡ true
      → new.status ≡ suspended
  pub continued :
      eq_ℤ (waitpid old.pid).0 minus_one ≡ false
      → (waitpid old.pid).1 ≡ some (pos 65535)
      → new.status ≡ running
  pub exited :
      (w : ℤ)
      → eq_ℤ (waitpid old.pid).0 minus_one ≡ false
      → (waitpid old.pid).1 ≡ some w
      → wifstopped w ≡ false
      → wifcontinued w ≡ false
      → new.status ≡ w
  pub no_news :
      eq_ℤ (waitpid old.pid).0 minus_one ≡ false
      → (waitpid old.pid).1 ≡ none
      → wifstopped old.status ≡ false
      → wifcontinued old.status ≡ false
      → new.status ≡ old.status

Judged-update_job : (waitpid : WaitPid) (j : Job) → Judged waitpid j (update_job waitpid j)
unfolding update_job
Judged-update_job waitpid j = record {
  same_pid = refl;
  same_cmd = refl;
  gone = λ e. rw (e) refl;
  stopped = λ w e f g. rw (e, f, g) refl;
  continued = λ e f. rw (e, f) refl;
  exited = λ w e f g h. rw (e, f, g, h) refl;
  no_news = λ e f g h. rw (e, f, g, h) refl;
}

-- The memory after the update: each job of the list has its news.
record Updated (waitpid : WaitPid) (xs : List ℕ) (s t : Store) : Type 0 where
  judged : All (λ a. Judged waitpid (s.job a) (t.job a)) xs
  others : (a : ℕ) → NotIn a xs → t.job a ≡ s.job a
  same_next : t.next ≡ s.next
  same_head : t.head ≡ s.head
  same_freed : t.freed ≡ s.freed

judged_before :
    (waitpid : WaitPid) (x : ℕ) (xs : List ℕ) (f g h : ℕ → Job)
    → ((a : ℕ) → a ≢ x → g a ≡ f a)
    → NotIn x xs
    → All (λ a. Judged waitpid (g a) (h a)) xs
    → All (λ a. Judged waitpid (f a) (h a)) xs
judged_before waitpid x [] f g h same out js = tt
judged_before waitpid x (a ∷ xs) f g h same (far, out) (j, js) = (
  subst (λ k. Judged waitpid k (h a)) (same a far) j,
  judged_before waitpid x xs f g h same out js,
)

update_from_lem :
    (fuel : ℕ) (waitpid : WaitPid) (p : ℕ) (xs : List ℕ) (s : Store)
    → Chain s.next p xs
    → length xs < fuel
    → (t : Store) × (update_from fuel waitpid p s ≡ ok t) × Updated waitpid xs s t
unfolding update_from
update_from_lem zero waitpid p xs s c enough = absurd (omega arith)
update_from_lem (suc fuel) waitpid p [] s c enough = (
  s,
  rw (c) refl,
  record {
    judged = tt;
    others = λ a out. refl;
    same_next = refl;
    same_head = refl;
    same_freed = refl;
  },
)
update_from_lem (suc fuel) waitpid p (a ∷ xs) s (here, some_a, apart, c) enough =
    let new : Job = update_job waitpid (s.job a) in
    let (t, run, h) =
      update_from_lem fuel waitpid (s.next a) xs (record s { job = update s.job a new }) c
        (omega arith) in
    let done : t.job a ≡ new = h.others a apart ∙ update_self s.job a new in
    (
      t,
      rw (here, ==_of_ne a 0 some_a) run,
      record {
        judged = (
          subst (Judged waitpid (s.job a)) (sym done) (Judged-update_job waitpid (s.job a)),
          judged_before waitpid a xs s.job (update s.job a new) t.job
              (λ b n. update_ne s.job a b new n) apart h.judged,
        );
        others = λ b out. h.others b out.1 ∙ update_ne s.job a b new (λ q. out.0 (sym q));
        same_next = h.same_next;
        same_head = h.same_head;
        same_freed = h.same_freed;
      },
    )

NotIn-null : (next : ℕ → ℕ) (p : ℕ) (xs : List ℕ) → Chain next p xs → NotIn 0 xs
NotIn-null next p [] c = tt
NotIn-null next p (a ∷ xs) (e, some_a, apart, c) = (some_a, NotIn-null next (next a) xs c)

-- A list of jobs in memory, with fuel for more rounds than it has jobs: a listing prints every job in
-- the order of the list, each after its news from `waitpid` have changed its status. The list that it
-- leaves has the jobs whose status then is not that of an ended one, in the same order and with the
-- same statuses; the others are unlinked, at the head and further on, and freed, each once.
pub print_process_list_lem :
    (fuel : ℕ) (waitpid : WaitPid) (xs : List ℕ) (s : Store)
    → Chain s.next s.head xs
    → length xs < fuel
    → (t : Store) × (print_process_list fuel waitpid s ≡ ok (map t.job xs, t))
      × All (λ a. Judged waitpid (s.job a) (t.job a)) xs
      × Chain t.next t.head (left t.job xs)
      × (t.freed ≡ freed_after t.job xs s.freed)
unfolding print_process_list update_process_list
print_process_list_lem fuel waitpid xs s c enough =
    let (u, run, h) = update_from_lem fuel waitpid s.head xs s c enough in
    let c' : Chain u.next u.head xs =
      subst (λ p. Chain u.next p xs) (sym h.same_head)
        (subst (λ (f : ℕ → ℕ). Chain f s.head xs) (sym h.same_next) c) in
    let (t, run', k) =
      print_from_lem fuel 0 u.head xs u c' (NotIn-null u.next u.head xs c') refl enough in
    (
      t,
      rw (run, run') (ap (λ (f : ℕ → Job). ok (map f xs, t)) (sym k.same_job)),
      subst (λ (f : ℕ → Job). All (λ a. Judged waitpid (s.job a) (f a)) xs) (sym k.same_job)
          h.judged,
      subst (λ (f : ℕ → Job). Chain t.next t.head (left f xs)) (sym k.same_job) k.chain,
      rw (k.same_job) (k.freed ∙ ap (freed_after u.job xs) h.same_freed),
    )

-- A job that has exited with code 0 is taken for a suspended one: the word that `waitpid` stores is 0.
pub update_job-exited :
    (waitpid : WaitPid) (j : Job)
    → waitpid j.pid ≡ (pos j.pid, some (pos 0))
    → (update_job waitpid j).status ≡ suspended
unfolding update_job
update_job-exited waitpid j e = rw e refl
