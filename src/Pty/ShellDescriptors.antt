-- ===== src/Pty/ShellDescriptors.antt =====
-- The descriptors that `runes_pty_spawn_subprocess` of src/pty-unix.c leaves to a shell and to the program.
use runes.Shared.{
  ℕ, ◌<◌, ◌≡◌, ◌≢◌, refl, sym, ap, ◌∙◌, true, false, Option, none, some, List, ◌==◌, leb,
  if◌then◌else◌, arith, ==_iff, Bool-cases, inl, inr, ◌⊎◌,
}
use runes.Shared.Tables.{put}
use runes.Shared.Text.{Bytes}
use runes.Pty.Shell.{
  Opened, Descriptors, close, dup2, after_exec, unless_marked, Process, Command, Kernel, runs,
  child_fds, keep_stderr, spawn_subprocess,
}
use runes.Pty.ShellEnviron.{spawned, after_execlp-runs}

-- A descriptor that is open goes onto another.
dup2-put :
    (old new : ℕ) (fds : Descriptors) {o : Opened}
    → fds old ≡ some o
    → (old == new) ≡ false
    → dup2 old new fds ≡ put new (some (record o { cloexec = false })) fds
dup2-put old new fds e ne = rw (e, ne)

keep_stderr_elsewhere :
    (o : Option Opened) (fd n : ℕ) (fds : Descriptors)
    → (n == fd) ≡ false
    → keep_stderr o fd fds n ≡ fds n
keep_stderr_elsewhere none fd n fds ne = refl
keep_stderr_elsewhere (some o) fd n fds ne = rw ne

keep_stderr_marked :
    (o : Option Opened) (fd : ℕ) (fds : Descriptors)
    → fds fd ≡ none
    → unless_marked (keep_stderr o fd fds fd) ≡ none
keep_stderr_marked none fd fds free = rw free
keep_stderr_marked (some o) fd fds free = let e : (fd == fd) ≡ true = ground arith in rw e

-- What exec leaves of the copy of descriptor 2 is what there was.
keep_stderr-exec :
    (o : Option Opened) (fd n : ℕ) (fds : Descriptors)
    → fds fd ≡ none
    → unless_marked (keep_stderr o fd fds n) ≡ unless_marked (fds n)
keep_stderr-exec o fd n fds free = elim (Bool-cases (n == fd)) [
  | inl same ↦
      let e : n ≡ fd = (==_iff n fd).0 same in
      ap (λ m. unless_marked (keep_stderr o fd fds m)) e
      ∙ keep_stderr_marked o fd fds free
      ∙ ap unless_marked (sym free)
      ∙ ap (λ m. unless_marked (fds m)) (sym e)
  | inr other ↦ ap unless_marked (keep_stderr_elsewhere o fd n fds other)
]

-- The shell's descriptors, of which three are the slave.
put_three :
    (n slave master : ℕ) (x y : Option Opened) (s : Opened)
    → 2 < slave
    → 2 < master
    → s.cloexec ≡ false
    → (n ≡ slave) × (y ≡ none) ⊎ (n ≢ slave) × (unless_marked x ≡ unless_marked y)
    → unless_marked (
        if n == slave
        then none
        else if n == 2
        then some s
        else if n == 1
        then some s
        else if n == 0
        then some s
        else if n == master
        then none
        else x)
      ≡ (if leb n 2 then some s else if n == master then none else unless_marked y)
put_three n slave master x y s hs hm plain h = ground arith

abbrev slave_of : ℕ → Option Opened
slave_of file = some (record { file = file; cloexec = false })

put_lookup :
    (fd n : ℕ) (o : Option Opened) (fds : Descriptors) {v : Option Opened}
    → (n == fd) ≡ false
    → fds n ≡ v
    → put fd o fds n ≡ v
put_lookup fd n o fds ne e = rw ne e

three_dups :
    (slave file : ℕ) (fds : Descriptors)
    → 2 < slave
    → fds slave ≡ slave_of file
    → dup2 slave 2 (dup2 slave 1 (dup2 slave 0 fds))
      ≡ put 2 (slave_of file) (put 1 (slave_of file) (put 0 (slave_of file) fds))
three_dups slave file fds h there =
    let n0 : (slave == 0) ≡ false = ground arith in
    let n1 : (slave == 1) ≡ false = ground arith in
    let n2 : (slave == 2) ≡ false = ground arith in
    let one = put 0 (slave_of file) fds in
    let two = put 1 (slave_of file) one in
    let there1 = put_lookup 0 slave (slave_of file) fds n0 there in
    let there2 = put_lookup 1 slave (slave_of file) one n1 there1 in
    ap (λ f. dup2 slave 2 (dup2 slave 1 f)) (dup2-put slave 0 fds there n0)
    ∙ ap (dup2 slave 2) (dup2-put slave 1 one there1 n1)
    ∙ dup2-put slave 2 two there2 n2

module _ (k : Kernel) (cmd : Option Bytes) (window_id master : ℕ) (envp : Option (List Bytes))
    (cwd : Option Bytes) (p : Process) where
  -- The file of a shell's descriptor: the terminal's slave at 0, 1 and 2, nothing at the master's
  -- place, and elsewhere what the program has open there and has not marked to be closed.
  abbrev pub shell_descriptor : ℕ → Option Opened
  shell_descriptor n =
      if leb n 2
      then some (record { file = k.slave_file; cloexec = false })
      else if n == master
      then none
      else unless_marked (p.fds n)

  -- The kernel gives descriptors that are free, and beyond the three standard ones.
  abbrev pub FreeDescriptors : Type 0
  FreeDescriptors =
      (2 < master)
      × (2 < k.slave)
      × (2 < k.old_stderr_fd)
      × (k.old_stderr_fd ≢ k.slave)
      × (master ≢ k.slave)
      × (p.fds k.slave ≡ none)
      × (p.fds k.old_stderr_fd ≡ none)

  abbrev opened : Descriptors
  opened = put k.slave (slave_of k.slave_file) p.fds

  abbrev kept : Descriptors
  kept = keep_stderr (opened 2) k.old_stderr_fd opened

  kept_slave : FreeDescriptors → close master kept k.slave ≡ slave_of k.slave_file
  kept_slave (hm, hs, ho, ne, ne', free_s, free_o) =
      put_lookup master k.slave none kept (ground arith) (
        keep_stderr_elsewhere (opened 2) k.old_stderr_fd k.slave opened (ground arith)
        ∙ (let e : (k.slave == k.slave) ≡ true = ground arith in rw e))

  opened_free : FreeDescriptors → opened k.old_stderr_fd ≡ none
  opened_free (hm, hs, ho, ne, ne', free_s, free_o) =
      put_lookup k.slave k.old_stderr_fd (slave_of k.slave_file) p.fds (ground arith) free_o

  kept_elsewhere :
      (n : ℕ)
      → FreeDescriptors
      → (n ≡ k.slave) × (p.fds n ≡ none)
        ⊎ (n ≢ k.slave) × (unless_marked (kept n) ≡ unless_marked (p.fds n))
  kept_elsewhere n free = elim (Bool-cases (n == k.slave)) [
    | inl same ↦ (let e : n ≡ k.slave = (==_iff n k.slave).0 same in inl (e, ap p.fds e ∙ free.5))
    | inr other ↦ inr (
      (λ e. ground arith),
      keep_stderr-exec (opened 2) k.old_stderr_fd n opened (opened_free free)
          ∙ ap unless_marked (put_lookup k.slave n (slave_of k.slave_file) p.fds other refl),
    )
  ]

  child_fds-descriptor :
      (n : ℕ) → FreeDescriptors → after_exec (child_fds k master opened) n ≡ shell_descriptor n
  child_fds-descriptor n free =
      ap (λ f. after_exec (close k.slave f) n)
        (three_dups k.slave k.slave_file (close master kept) free.1 (kept_slave free))
      ∙ put_three n k.slave master (kept n) (p.fds n)
          (record { file = k.slave_file; cloexec = false }) free.1 free.0 refl
          (kept_elsewhere n free)

  parent_descriptor : (n : ℕ) → FreeDescriptors → close k.slave opened n ≡ p.fds n
  parent_descriptor n free = elim (Bool-cases (n == k.slave)) [
    | inl same ↦
        (let e : n ≡ k.slave = (==_iff n k.slave).0 same in rw same (sym (ap p.fds e ∙ free.5)))
    | inr other ↦ rw other
  ]

  -- If the shell runs, its descriptors 0, 1 and 2 are the terminal's slave, the master is closed in it,
  -- and every other descriptor that the program had open is open in it too, unless it is marked to be
  -- closed; the program has the descriptors that it had. The kernel gives free descriptors that are
  -- not among the first three.
  pub spawn_subprocess-descriptors :
      (c : Command) (q : Process) (n : ℕ)
      → FreeDescriptors
      → (spawned k cmd window_id master envp cwd p).1 ≡ runs c q
      → (q.fds n ≡ shell_descriptor n)
        × ((spawned k cmd window_id master envp cwd p).0.fds n ≡ p.fds n)
  unfolding spawn_subprocess
  spawn_subprocess-descriptors c q n free e =
      let (command, process) = after_execlp-runs _ _ c _ q _ e in
      (ap (λ x. x.fds n) (sym process) ∙ child_fds-descriptor n free, parent_descriptor n free)
