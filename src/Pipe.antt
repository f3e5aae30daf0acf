-- ===== src/Pipe.antt =====
-- C/pipe2.c and C/pipe.c: the descriptor tables of the processes around a pipe. A table says what
-- each descriptor is open on; `fork` copies it.
mod Tests
use linux_riscv.Prelude.{
  ℕ, ◌<◌, ◌≡◌, ◌≢◌, ◌↔◌, Option, none, some, arith, update, ◌==◌, if◌then◌else◌,
}

pub data File : Type 0 where
  read_end write_end : File
  other : ℕ → File

abbrev pub Table : Type 0
Table = ℕ → Option File

-- `pipe(fd)`, with the descriptors that it chooses.
pub pipe : (fd_0 fd_1 : ℕ) → Table → Table
pipe fd_0 fd_1 t = update (update t fd_0 (some read_end)) fd_1 (some write_end)

pub close : ℕ → Table → Table
close fd t = update t fd none

-- `dup2(old, new)`: nothing happens to a descriptor that is not open.
duplicate : Option File → ℕ → Table → Table
duplicate none new t = t
duplicate (some file) new t = update t new (some file)

pub dup2 : (old new : ℕ) → Table → Table
unfolding duplicate
dup2 old new t = duplicate (t old) new t

-- The tables with which `ps` and `grep` are started, and that of the parent while it waits.
pub ps_table : (fd_0 fd_1 : ℕ) → Table → Table
ps_table fd_0 fd_1 t = close fd_1 (close fd_0 (dup2 fd_1 1 t))

pub grep_table : (fd_0 fd_1 : ℕ) → Table → Table
grep_table fd_0 fd_1 t = close fd_1 (close fd_0 (dup2 fd_0 0 t))

pub parent_table : (fd_0 fd_1 : ℕ) → Table → Table
parent_table fd_0 fd_1 t = close fd_1 (close fd_0 t)

-- What the documentation says of the descriptors that `pipe` chooses, where the standard ones are
-- open: they are not open yet, and differ.
pub record ArePipeEnds (fd_0 fd_1 : ℕ) (t : Table) : Type 0 where
  pub differ : fd_0 ≢ fd_1
  pub above_0 : 1 < fd_0
  pub above_1 : 1 < fd_1
  pub no_pipe : (i : ℕ) → (t i ≢ some read_end) × (t i ≢ some write_end)

module _ (fd_0 fd_1 : ℕ) (t : Table) (v : ArePipeEnds fd_0 fd_1 t) where
  pipe-write_end : pipe fd_0 fd_1 t fd_1 ≡ some write_end
  unfolding pipe
  pipe-write_end = ground arith

  pipe-read_end : pipe fd_0 fd_1 t fd_0 ≡ some read_end
  unfolding pipe
  pipe-read_end = let differ = v.differ in ground arith

  -- Both ends closed, over one descriptor that was set before.
  closed_at :
      (k i : ℕ) (file : File)
      → close fd_1 (close fd_0 (update (pipe fd_0 fd_1 t) k (some file))) i ≡ (
          if fd_1 == i then none else if fd_0 == i then none else if k == i then some file else t i)
  unfolding close pipe
  closed_at k i file = ground arith

  ps_table_lem :
      (i : ℕ)
      → ps_table fd_0 fd_1 (pipe fd_0 fd_1 t) i ≡ (
          if fd_1 == i
          then none
          else if fd_0 == i
          then none
          else if 1 == i
          then some write_end
          else t i)
  unfolding ps_table dup2 duplicate
  ps_table_lem i = rw pipe-write_end (closed_at 1 i write_end)

  grep_table_lem :
      (i : ℕ)
      → grep_table fd_0 fd_1 (pipe fd_0 fd_1 t) i ≡ (
          if fd_1 == i
          then none
          else if fd_0 == i
          then none
          else if 0 == i
          then some read_end
          else t i)
  unfolding grep_table dup2 duplicate
  grep_table_lem i = rw pipe-read_end (closed_at 0 i read_end)

  parent_table_lem :
      (i : ℕ)
      → parent_table fd_0 fd_1 (pipe fd_0 fd_1 t) i
        ≡ (if fd_1 == i then none else if fd_0 == i then none else t i)
  unfolding parent_table close pipe
  parent_table_lem i = ground arith

-- Where the pipe has descriptors behind the standard ones, that are not open before: ps is started
-- with the write end as its output and no other end, grep with the read end as its input and no
-- other end, and the parent waits with neither.
pub tables-ends :
    (fd_0 fd_1 : ℕ) (t : Table)
    → ArePipeEnds fd_0 fd_1 t
    → let piped = pipe fd_0 fd_1 t in
      ((i : ℕ)
        → (ps_table fd_0 fd_1 piped i ≢ some read_end)
          × ((ps_table fd_0 fd_1 piped i ≡ some write_end) ↔ (i ≡ 1)))
      × ((i : ℕ)
          → ((grep_table fd_0 fd_1 piped i ≡ some read_end) ↔ (i ≡ 0))
            × (grep_table fd_0 fd_1 piped i ≢ some write_end))
      × ((i : ℕ)
          → (parent_table fd_0 fd_1 piped i ≢ some read_end)
            × (parent_table fd_0 fd_1 piped i ≢ some write_end))
tables-ends fd_0 fd_1 t v =
    let above_0 = v.above_0 in
    let above_1 = v.above_1 in
    (
      λ i.
          let free = v.no_pipe i in
          rw (ps_table_lem fd_0 fd_1 t v i) (ground arith, (ground arith, ground arith)),
      λ i.
          let free = v.no_pipe i in
          rw (grep_table_lem fd_0 fd_1 t v i) ((ground arith, ground arith), ground arith),
      λ i.
          let free = v.no_pipe i in
          rw (parent_table_lem fd_0 fd_1 t v i) (ground arith, ground arith),
    )
