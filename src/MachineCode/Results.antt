-- ===== src/MachineCode/Results.antt =====
-- C/mem_ex1.c to C/mem_ex4.c: what the code computes on processors of RV32I whose fetch sees the
-- stores, and what holds on all.
use linux_riscv.Prelude.{
  ℕ, suc, ◌+◌, ◌-◌, ◌*◌, ◌/◌, ◌%◌, ◌^◌, ◌≤◌, ◌<◌, ◌≡◌, ◌≢◌, refl, inl, inr, ap, ◌∙◌, List, pos,
  Bool, true, false, Option, none, some, arith, ◌==◌, leb, if◌then◌else◌, update, drop, Bool-cases,
  le→leb, ==_iff,
}
use linux_riscv.MachineCode.{
  store_code, cleared, word, fetch, Machine, Processor, ProcessorLaws, returned, exception, after,
  call, exit, killed, print_result, Persona, Seen, set_read_implies_exec, run_code, mem_ex1,
  mem_ex2, mem_ex3, mem_ex4,
}

-- The program stands behind the call, at an even address, outside of the code.
pub record ArePlaced (base back : ℕ) : Type 0 where
  pub fits : base + 16 ≤ 2 ^ 32
  pub address : back < 2 ^ 32
  pub even : back / 2 * 2 ≡ back
  pub outside : (k : ℕ) → k < 16 → base + k ≢ back

fetch-word :
    (base k : ℕ) (inst : List ℕ) → k + 4 ≤ 16 → fetch true base inst (base + k) ≡ word (drop k inst)
unfolding fetch
fetch-word base k inst h =
    let low : leb base (base + k) ≡ true = le→leb _ _ (omega arith) in
    let high : leb (base + k + 4) (base + 16) ≡ true = le→leb _ _ (omega arith) in
    let place : base + k - base ≡ k = omega arith in rw (low, high, place) refl

-- The three words.
code_words :
    (word (drop 0 (store_code cleared)) ≡ some (1 * 2 ^ 12 + 10 * 2 ^ 7 + 55))
    × (word (drop 4 (store_code cleared)) ≡ some (1 * 2 ^ 20 + 10 * 2 ^ 15 + 10 * 2 ^ 7 + 19))
    × (word (drop 8 (store_code cleared)) ≡ some (0 * 2 ^ 20 + 1 * 2 ^ 15 + 103))
unfolding word store_code
code_words = (refl, refl, refl)

module _ {step : Processor} (laws : ProcessorLaws step) (base back : ℕ)
    (placed : ArePlaced base back) (registers : ℕ → ℕ) where
  abbrev memory : ℕ → Option ℕ
  memory = fetch true base (store_code cleared)

  abbrev machine_1 : Machine
  machine_1 = record { registers = update (update registers 1 back) 10 (1 * 2 ^ 12); pc = base + 4 }

  abbrev machine_2 : Machine
  machine_2 = record { registers = update machine_1.registers 10 4097; pc = base + 8 }

  inside : (k : ℕ) → k < 16 → (base + k == back) ≡ false
  inside k h = elim (Bool-cases (base + k == back)) [
    | inl same ↦ absurd (placed.outside k h ((==_iff _ _).0 same))
    | inr other ↦ other
  ]

  first : step memory (record { registers = update registers 1 back; pc = base }) ≡ some machine_1
  first =
      let start : base + 0 ≡ base = omega arith in
      let here = rw start at (fetch-word base 0 (store_code cleared) (omega arith)) in
      laws.lui memory (record { registers = update registers 1 back; pc = base }) 10 1 (omega arith)
        (omega arith) (omega arith) (here ∙ code_words.0)

  second : step memory machine_1 ≡ some machine_2
  second =
      let next_place : base + 4 + 4 ≡ base + 8 = omega arith in
      laws.addi memory machine_1 10 10 1 (omega arith) (omega arith) (omega arith) (omega arith)
        (fetch-word base 4 (store_code cleared) (omega arith) ∙ code_words.1)
      ∙ ap (λ (p : ℕ). some (record machine_2 { pc = p })) next_place

  third : step memory machine_2 ≡ some (record machine_2 { pc = back })
  third =
      let target : (back + 0) % 2 ^ 32 / 2 * 2 ≡ back =
        omega (arith, placed.address, placed.even) in
      laws.jump memory machine_2 1 0 (omega arith) (omega arith)
        (fetch-word base 8 (store_code cleared) (omega arith) ∙ code_words.2)
      ∙ ap (λ (p : ℕ). some (record machine_2 { pc = p })) target

  call-code : (n : ℕ) → call step memory (suc (suc (suc n))) base back registers ≡ returned 4097
  unfolding call after
  call-code n =
      let arrived : (back == back) ≡ true = (==_iff back back).1 refl in
      rw (first, inside 4 (omega arith), second, inside 8 (omega arith), third, arrived) refl

  no_fetch : (inst : List ℕ) (a : ℕ) → fetch false base inst a ≡ none
  unfolding fetch
  no_fetch inst a = refl

  call-fault :
      (inst : List ℕ) (n : ℕ) → call step (fetch false base inst) n base back registers ≡ exception
  unfolding call after
  call-fault inst n =
      rw
        (laws.fault (fetch false base inst)
          (record { registers = update registers 1 back; pc = base }) (no_fetch inst base))
        refl

  -- Code that may not be executed is not, whatever the fetch would see of it.
  run_code-killed : (seen : Seen) (n : ℕ) → run_code step seen n base back registers false ≡ killed
  unfolding run_code print_result
  run_code-killed seen n = rw (call-fault (seen (store_code cleared)) n) refl

  run_code_lem :
      (seen : Seen)
      → seen (store_code cleared) ≡ store_code cleared
      → (n : ℕ) (executable : Bool)
      → run_code step seen (suc (suc (suc n))) base back registers executable
        ≡ (if executable then exit (pos 0) (some 4097) else killed)
  unfolding run_code print_result
  run_code_lem seen fresh n true = rw (fresh, call-code n) refl
  run_code_lem seen fresh n false = run_code-killed seen (suc (suc (suc n)))

  -- On every processor of RV32I whose fetch sees the stored bytes, though the programs issue no
  -- FENCE.I, for a caller at an even address outside of the code, and with fuel for at least three
  -- instructions: the stored code returns 0x1001 where it may be executed; so mem_ex2.c and
  -- mem_ex4.c print it whenever the mapping is granted and end with status 1 if not, and mem_ex1.c
  -- and mem_ex3.c, where they get that far, print it or are killed as READ_IMPLIES_EXEC is set or
  -- not.
  pub programs-result :
      (seen : Seen)
      → seen (store_code cleared) ≡ store_code cleared
      → (n : ℕ) (mapped : Bool) (p : Persona)
      → let fuel = suc (suc (suc n)) in
        let result = exit (pos 0) (some 4097) in
        (mem_ex1 step seen fuel base back registers p
          ≡ (if p.read_implies_exec then result else killed))
        × (mem_ex2 step seen fuel base back registers mapped
            ≡ (if mapped then result else exit (pos 1) none))
        × (mem_ex3 step seen fuel base back registers mapped p ≡ (
            if mapped then if p.read_implies_exec then result else killed else exit (pos 1) none))
        × (mem_ex4 step seen fuel base back registers mapped p
            ≡ (if mapped then result else exit (pos 1) none))
  unfolding mem_ex1 mem_ex2 mem_ex3 mem_ex4 set_read_implies_exec
  programs-result seen fresh n mapped p =
      let run = run_code_lem seen fresh n in
      (
        run p.read_implies_exec,
        rw (run true) refl,
        rw (run p.read_implies_exec) refl,
        rw (run true) refl,
      )
