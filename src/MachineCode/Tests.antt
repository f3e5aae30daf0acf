-- ===== src/MachineCode/Tests.antt =====
-- A processor that has just the three instructions, with the code at 0x10000 and a caller at 0x20000.
use linux_riscv.Prelude.{
  ℕ, ◌+◌, ◌*◌, ◌/◌, ◌%◌, ◌^◌, ◌≡◌, refl, true, false, Option, none, some, pos, arith, ◌==◌,
  if◌then◌else◌, update,
}
use linux_riscv.MachineCode.{
  Machine, Processor, ProcessorLaws, Persona, Seen, exit, killed, mem_ex1, mem_ex2, mem_ex3,
  mem_ex4,
}
use linux_riscv.MachineCode.Results.{ArePlaced, programs-result}

abbrev execute : ℕ → Machine → Option Machine
execute w m =
    if w % 128 == 55
    then some (record {
      registers = update m.registers (w / 128 % 32) (w / 4096 * 2 ^ 12);
      pc = m.pc + 4;
    })
    else if w % 128 == 19
    then some (record {
      registers =
          update m.registers (w / 128 % 32) ((m.registers (w / 2 ^ 15 % 32) + w / 2 ^ 20) % 2 ^ 32);
      pc = m.pc + 4;
    })
    else if w % 128 == 103
    then some (record m { pc = (m.registers (w / 2 ^ 15 % 32) + w / 2 ^ 20) % 2 ^ 32 / 2 * 2 })
    else none

abbrev fetched : Option ℕ → Machine → Option Machine
fetched none m = none
fetched (some w) m = execute w m

abbrev processor : Processor
processor fetch m = fetched (fetch m.pc) m

processor-laws : ProcessorLaws processor
processor-laws = record {
  lui = λ fetch m rd imm h k l e.
      let w : ℕ = imm * 2 ^ 12 + rd * 2 ^ 7 + 55 in
      let code : w % 128 ≡ 55 = omega arith in
      let place : w / 128 % 32 ≡ rd = omega arith in
      let value : w / 4096 ≡ imm = omega arith in rw (e, code, place, value) refl;
  addi = λ fetch m rd rs imm h k l n e.
      let w : ℕ = imm * 2 ^ 20 + rs * 2 ^ 15 + rd * 2 ^ 7 + 19 in
      let code : w % 128 ≡ 19 = omega arith in
      let place : w / 128 % 32 ≡ rd = omega arith in
      let source : w / 2 ^ 15 % 32 ≡ rs = omega arith in
      let value : w / 2 ^ 20 ≡ imm = omega arith in rw (e, code, place, source, value) refl;
  jump = λ fetch m rs imm h k e.
      let w : ℕ = imm * 2 ^ 20 + rs * 2 ^ 15 + 103 in
      let code : w % 128 ≡ 103 = omega arith in
      let source : w / 2 ^ 15 % 32 ≡ rs = omega arith in
      let value : w / 2 ^ 20 ≡ imm = omega arith in rw (e, code, source, value) refl;
  fault = λ fetch m e. rw e refl;
}

placed : ArePlaced 65536 131072
placed = record {
  fits = omega arith;
  address = omega arith;
  even = omega arith;
  outside = λ k h e. omega (arith, e);
}

abbrev plain : Persona
plain = record { read_implies_exec = false }

abbrev zeros : ℕ → ℕ
zeros i = 0

-- A processor without an instruction cache.
abbrev coherent : Seen
coherent inst = inst

programs-result_example :
    let result = exit (pos 0) (some 4097) in
    (mem_ex1 processor coherent 3 65536 131072 zeros plain
      ≡ (if plain.read_implies_exec then result else killed))
    × (mem_ex2 processor coherent 3 65536 131072 zeros true
        ≡ (if true then result else exit (pos 1) none))
    × (mem_ex3 processor coherent 3 65536 131072 zeros true plain
        ≡ (if true then if plain.read_implies_exec then result else killed else exit (pos 1) none))
    × (mem_ex4 processor coherent 3 65536 131072 zeros true plain
        ≡ (if true then result else exit (pos 1) none))
programs-result_example =
    programs-result processor-laws 65536 131072 placed zeros coherent refl 0 true plain
