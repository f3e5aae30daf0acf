-- ===== src/Select/Closing.antt =====
-- The descriptors that C/select.c and C/select_urandom.c hold when they end.
use linux_riscv.Prelude.{◌≡◌, ◌⊎◌, List, [], pos, some, arith}
use linux_riscv.Calls.{Oracle, Trace, ask}
use linux_riscv.Select.{
  Round, Call, access, mkfifo, Resource, reader, writer, urandom, watch_fifo, held, main,
  urandom_main, run, read_fifo, read_urandom,
}

module _ (os : Oracle Call) (rounds : List Round) where
  watch_fifo-held :
      (x : Resource) (tr : Trace Call)
      → held x tr ≡ some []
      → held x (watch_fifo os rounds tr).1 ≡ some []
  unfolding watch_fifo
  watch_fifo-held reader tr h = ground arith
  watch_fifo-held writer tr h = ground arith
  watch_fifo-held urandom tr h = ground arith

  watch_fifo-Exit :
      (tr : Trace Call)
      → ((watch_fifo os rounds tr).0 ≡ (pos 0, run read_fifo rounds))
        ⊎ ((watch_fifo os rounds tr).0 ≡ (pos 1, []))
  unfolding watch_fifo
  watch_fifo-Exit tr = ground arith

  main-closed : (x : Resource) → held x (main os rounds []).1 ≡ some []
  unfolding main
  main-closed reader = ground (arith, watch_fifo-held reader)
  main-closed writer = ground (arith, watch_fifo-held writer)
  main-closed urandom = ground (arith, watch_fifo-held urandom)

  main-Exit :
      ((main os rounds []).0 ≡ (pos 0, run read_fifo rounds))
      ⊎ ((main os rounds []).0 ≡ (pos 1, []))
  unfolding main
  main-Exit =
      let there = (ask os access []).1 in
      let made = (ask os mkfifo there).1 in
      ground (arith, watch_fifo-Exit there, watch_fifo-Exit made)

  urandom_main-closed : (x : Resource) → held x (urandom_main os rounds []).1 ≡ some []
  unfolding urandom_main
  urandom_main-closed reader = ground arith
  urandom_main-closed writer = ground arith
  urandom_main-closed urandom = ground arith

  urandom_main-Exit :
      ((urandom_main os rounds []).0 ≡ (pos 0, run read_urandom rounds))
      ⊎ ((urandom_main os rounds []).0 ≡ (pos 1, []))
  unfolding urandom_main
  urandom_main-Exit = ground arith

  -- Whatever the calls answer, both select programs end with no descriptor open, and either with
  -- status 0 and what their rounds print, or with status 1 and nothing.
  pub urandom_main-main :
      ((x : Resource)
        → (held x (main os rounds []).1 ≡ some [])
          × (held x (urandom_main os rounds []).1 ≡ some []))
      × (((main os rounds []).0 ≡ (pos 0, run read_fifo rounds))
          ⊎ ((main os rounds []).0 ≡ (pos 1, [])))
      × (((urandom_main os rounds []).0 ≡ (pos 0, run read_urandom rounds))
          ⊎ ((urandom_main os rounds []).0 ≡ (pos 1, [])))
  urandom_main-main = (λ x. (main-closed x, urandom_main-closed x), main-Exit, urandom_main-Exit)
